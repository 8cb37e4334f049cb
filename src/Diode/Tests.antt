-- ===== src/Diode/Tests.antt =====
-- Runs of the diode at concrete inputs, with a signature that is the signed text.
use platform_orchestrator_ru.Base.{
  [], ◌∷◌, ◌≡◌, refl, some, none, ok, err, true, false, if◌then◌else◌, ap, arith, str_eq, ◌++◌,
  is_ok, inr, eq_iff,
}
use platform_orchestrator_ru.Diode.Frame.{
  FrameLibrary, Attachment, Frame, sign_frame_with_attachment, verify_frame, unsigned_frame,
  has_own_hash,
}
use platform_orchestrator_ru.Diode.Attachments.{
  ObjectLibrary, ExportConfig, Reference, attachment_reference, bundle_reference, complete,
  default_bucket, validate_attachment_invariant,
}
use platform_orchestrator_ru.Messaging.{Message, CommandEnvelope}
use platform_orchestrator_ru.Diode.Importer.{Entry, run_importer}
use platform_orchestrator_ru.Diode.Frame.Genuine.{FrameLaws, verify_frame-sign_frame}
use platform_orchestrator_ru.Diode.Exporter.Acknowledges.{Acknowledged, run_exporter-Acknowledged}
use platform_orchestrator_ru.Diode.Importer.Once.{IsOnce, published_ids, run_importer-IsOnce}
use platform_orchestrator_ru.Diode.Ledger.{read_processed}
use platform_orchestrator_ru.Diode.Exporter.{run_exporter}
use platform_orchestrator_ru.Diode.Importer.Admitted.{AllLeave, IsRead, run_importer-IsAdmitted}
use platform_orchestrator_ru.Diode.Ledger.Appends.{IsEnded, read_processed-append_processed}
use platform_orchestrator_ru.Diode.Attachments.Buckets.{validate_attachment_invariant-bundle_bucket}
use platform_orchestrator_ru.Diode.Importer as Importer
use platform_orchestrator_ru.Diode.Exporter as Exporter
use platform_orchestrator_ru.Diode.Ledger.{append_processed}
use platform_orchestrator_ru.Unary.{
  encode, decode-encode_lem, same_bytes, same_bytes_refl, unary, decode_from,
}

abbrev frames : FrameLibrary
frames = record {
  payload_hash = encode;
  marshal = λ frame. some (frame.sequence ∷ frame.message.payload);
  sign = λ private_key message. message;
  verify = λ public_key message signature. same_bytes message signature;
  encode_base64 = encode;
  decode_base64 = λ text. some (decode_from 0 text);
  validate = λ message. if str_eq message.id "" then err "message ID is required" else ok tt;
}

frames-FrameLaws : FrameLaws frames [] []
frames-FrameLaws = record {
  decode-encode = λ bytes. ap some (decode-encode_lem bytes);
  verify-sign = λ message. same_bytes_refl message;
}

abbrev create_job_message : Message
create_job_message = record {
  id = "message";
  subject = "commands";
  payload = 3 ∷ 1 ∷ [];
  created_at = 4;
  expires_at = some 90;
}

abbrev create_job_command : CommandEnvelope
create_job_command = record {
  protocol_version = "v1";
  command_id = "command";
  organization_id = "org";
  runner_id = "runner";
  deployment_id = "deployment";
  type = "create-job";
  expires_at = none;
  payload = [];
}

abbrev objects : ObjectLibrary
objects = record {
  frames = frames;
  unmarshal_command = λ bytes. some create_job_command;
  unmarshal_event = λ bytes. none;
  unmarshal_reference = λ bytes. none;
  get_object = λ reference. some (7 ∷ 8 ∷ []);
}

abbrev own_bucket : ExportConfig
own_bucket = record { attach_object = "bundle"; bundle_bucket = "OWN"; max_attachment_bytes = 100 }

abbrev own_reference : Reference
own_reference = record { bucket = "OWN"; key = "org/deployment" }

abbrev own_attachment : Attachment
own_attachment = record {
  bucket = "OWN";
  key = "org/deployment";
  contents = 7 ∷ 8 ∷ [];
  payload_sha256 = "1111111-11111111-";
}

validate_attachment_invariant-bundle_bucket_example :
    (own_reference.bucket ≡ own_bucket.bundle_bucket)
    × (is_ok
          (validate_attachment_invariant objects "bundle" create_job_message (some own_attachment))
        ≡ false)
unfolding attachment_reference bundle_reference complete default_bucket
validate_attachment_invariant-bundle_bucket_example =
    validate_attachment_invariant-bundle_bucket objects own_bucket create_job_message own_reference
      own_attachment refl (λ e. ground (arith, eq_iff "OWN" ""))
      (λ e. ground (arith, eq_iff "OWN" "PO_RUNNER_BUNDLES")) refl refl

abbrev signed_frame : Frame
signed_frame = record {
  unsigned = record {
    version = "1";
    sequence = 1;
    message = create_job_message;
    payload_sha256 = "111-1-";
    attachment = some own_attachment;
  };
  signature = "1-111-1-";
}

verify_frame-sign_frame_example :
    verify_frame frames signed_frame [] ≡ frames.validate create_job_message
unfolding sign_frame_with_attachment unsigned_frame has_own_hash encode unary
verify_frame-sign_frame_example =
    verify_frame-sign_frame frames [] [] frames-FrameLaws 1 create_job_message (some own_attachment)
      signed_frame refl refl

abbrev exporting : Exporter.World
exporting = record {
  objects = objects;
  config = own_bucket;
  private_key = [];
  answer = λ action calls. none;
}

run_exporter-Acknowledged_example :
    Acknowledged exporting []
      (run_exporter exporting
        (create_job_message ∷ create_job_message ∷ [])
        (record { sequence = 0; done = [] })).1.done
run_exporter-Acknowledged_example =
    run_exporter-Acknowledged exporting [] frames-FrameLaws
      (create_job_message ∷ create_job_message ∷ []) (record { sequence = 0; done = [] }) tt

abbrev importing : Importer.World
importing = record {
  objects = objects;
  public_key = [];
  expected_attachment = "";
  max_attachment_bytes = 100;
  now = λ calls. 5;
  unmarshal_frame = λ bytes. some signed_frame;
  answer = λ action calls. none;
}

abbrev frame_file : Entry
frame_file = record { name = "1.json"; is_dir = false; is_json = true; size = 1; contents = 1 ∷ [] }

run_importer-IsOnce_example : IsOnce ("older" ∷ []) (
    published_ids
      (run_importer importing
        ((frame_file ∷ frame_file ∷ []) ∷ (frame_file ∷ []) ∷ [])
        (record { processed = "older" ∷ []; done = [] })).1.done)
run_importer-IsOnce_example =
    run_importer-IsOnce importing ("older" ∷ [])
      ((frame_file ∷ frame_file ∷ []) ∷ (frame_file ∷ []) ∷ [])

run_importer-IsAdmitted_example :
    AllLeave importing
      (IsRead ((frame_file ∷ []) ∷ []))
      (run_importer importing
        ((frame_file ∷ []) ∷ [])
        (record { processed = []; done = [] })).1.done
run_importer-IsAdmitted_example = run_importer-IsAdmitted importing ((frame_file ∷ []) ∷ []) []

read_processed-append_processed_example :
    (read_processed (append_processed (5 ∷ 10 ∷ []) (6 ∷ 7 ∷ []))
      ≡ read_processed (5 ∷ 10 ∷ []) ++ ((6 ∷ 7 ∷ []) ∷ []))
    × IsEnded (append_processed (5 ∷ 10 ∷ []) (6 ∷ 7 ∷ []))
read_processed-append_processed_example =
    read_processed-append_processed 6 (7 ∷ []) (5 ∷ 10 ∷ []) (inr (5 ∷ [], refl))
      (omega arith, (omega arith, tt))
