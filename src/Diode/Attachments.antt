-- ===== src/Diode/Attachments.antt =====
-- `attachmentReference`, `validateAttachmentInvariant`, `loadAttachment` and `storeAttachment` of
-- internal/diode/relay.go.
pub mod Buckets
use platform_orchestrator_ru.Base.{
  ℕ, String, Bytes, Option, none, some, Result, ok, err, Bool, true, false, not, str_eq, fail_if,
  or_fail, ◌>>=◌, ◌>>◌, if◌then◌else◌, ◌||◌, ltb, length, is_nil, take, ◌+◌, str_append,
}
use platform_orchestrator_ru.Messaging.{Message, CommandEnvelope, EventEnvelope}
use platform_orchestrator_ru.Diode.Frame.{Attachment, FrameLibrary}

-- Where an object lies.
pub record Reference : Type 0 where
  pub bucket : String
  pub key : String

-- The JSON decoders of envelopes and log references, and the object store.
pub record ObjectLibrary : Type 0 where
  pub frames : FrameLibrary
  pub unmarshal_command : Bytes → Option CommandEnvelope
  pub unmarshal_event : Bytes → Option EventEnvelope
  pub unmarshal_reference : Bytes → Option Reference
  pub get_object : Reference → Option Bytes

-- The fields of `ExportConfig` that attachments depend on.
pub record ExportConfig : Type 0 where
  pub attach_object : String
  pub bundle_bucket : String
  pub max_attachment_bytes : ℕ

module _ (lib : ObjectLibrary) where
  -- The end of `attachmentReference`: a required reference is complete.
  unfoldable pub complete : Reference → Result (Option Reference)
  complete reference =
      if str_eq reference.bucket "" || str_eq reference.key ""
      then err "object attachment reference is incomplete"
      else ok (some reference)

  unfoldable pub default_bucket : String → String
  default_bucket bundle_bucket =
      if str_eq bundle_bucket "" then "PO_RUNNER_BUNDLES" else bundle_bucket

  -- `case "bundle"`.
  unfoldable pub bundle_reference : String → Message → Result (Option Reference)
  bundle_reference bundle_bucket message = do
    command ← or_fail (lib.unmarshal_command message.payload) "decode command"
    if not (str_eq command.type "create-job")
        then ok none
        else complete (record {
          bucket = default_bucket bundle_bucket;
          key = str_append command.organization_id (str_append "/" command.deployment_id);
        })

  -- `case "log"`.
  unfoldable pub log_reference : Message → Result (Option Reference)
  log_reference message = do
    event ← or_fail (lib.unmarshal_event message.payload) "decode event"
    let reference = or_fail (lib.unmarshal_reference event.payload) "decode log reference"
    if not (str_eq event.type "log-object-ready") then ok none else (reference >>= complete)

  -- The reference of the object that a message needs, `none` if it needs none.
  unfoldable pub attachment_reference : ExportConfig → Message → Result (Option Reference)
  attachment_reference config message =
      if str_eq config.attach_object ""
      then ok none
      else if str_eq config.attach_object "bundle"
      then bundle_reference config.bundle_bucket message
      else if str_eq config.attach_object "log"
      then log_reference message
      else err "unsupported diode attachment kind"

  -- The last three tests of `validateAttachmentInvariant`.
  unfoldable pub check_attachment : Option Reference → Option Attachment → Result (Unit {0})
  check_attachment none none = ok tt
  check_attachment none (some attachment) = err "unexpected attachment for message"
  check_attachment (some reference) none = err "attachment is required for message"
  check_attachment (some reference) (some attachment) =
      fail_if
        (not (str_eq attachment.bucket reference.bucket)
          || not (str_eq attachment.key reference.key))
        "attachment reference does not match message reference"

  unfoldable pub validate_attachment_invariant :
      (expected : String) → Message → Option Attachment → Result (Unit {0})
  validate_attachment_invariant expected message attachment =
      if str_eq expected "" then ok tt else do
        reference ←
            attachment_reference
              (record { attach_object = expected; bundle_bucket = ""; max_attachment_bytes = 0 })
              message
        check_attachment reference attachment

  -- `loadAttachment`: at most one byte more than the limit is read.
  unfoldable pub fetch_attachment : ExportConfig → Reference → Result Attachment
  fetch_attachment config reference = do
    object ← or_fail (lib.get_object reference) "get object"
    fail_if
        (ltb config.max_attachment_bytes (length (take (config.max_attachment_bytes + 1) object)))
        "object attachment exceeds the limit"
    ok (record {
      bucket = reference.bucket;
      key = reference.key;
      contents = take (config.max_attachment_bytes + 1) object;
      payload_sha256 = lib.frames.payload_hash (take (config.max_attachment_bytes + 1) object);
    })

  unfoldable pub fetch_needed : ExportConfig → Option Reference → Result (Option Attachment)
  fetch_needed config none = ok none
  fetch_needed config (some reference) =
      fetch_attachment config reference >>= λ attachment. ok (some attachment)

  unfoldable pub load_attachment : ExportConfig → Message → Result (Option Attachment)
  load_attachment config message = attachment_reference config message >>= fetch_needed config

  -- The checks of `storeAttachment` before it puts the bytes into the object store.
  unfoldable pub check_stored : Attachment → Result (Unit {0})
  check_stored attachment = do
    fail_if (str_eq attachment.bucket "" || str_eq attachment.key "" || is_nil attachment.contents)
        "attachment bucket, key, and data are required"
    fail_if (not (str_eq attachment.payload_sha256 (lib.frames.payload_hash attachment.contents)))
        "attachment payload checksum mismatch"
