-- ===== src/Diode/Importer.antt =====
-- `importAvailable` and the loop of `RunImporter` of internal/diode/relay.go. The importer keeps the
-- IDs it has published and the list of what it has done, newest first; what the file system, the
-- object store and the publisher answer is a function of that list.
pub mod Once
pub mod Checks
pub mod Admitted
use platform_orchestrator_ru.Base.{
  ◌>>◌, ◌>>=◌, ℕ, String, Bytes, Option, none, some, Result, ok, err, Bool, true, false, not,
  str_eq, fail_if, or_fail, List, [], ◌∷◌, ◌||◌, ◌*◌, leb, ltb, ◌+◌, ◌%◌, ◌^◌, length,
  if◌then◌else◌,
}
use platform_orchestrator_ru.Messaging.{Message}
use platform_orchestrator_ru.Diode.Frame.{Attachment, FrameLibrary, Frame, verify_frame}
use platform_orchestrator_ru.Diode.Attachments.{
  ObjectLibrary, validate_attachment_invariant, check_stored,
}

-- An entry of the input directory, in the order of names: `size` is what `Info` says of it, and `contents`
-- is what the file holds when it is read.
pub record Entry : Type 0 where
  pub name : String
  pub is_dir : Bool
  pub is_json : Bool
  pub size : ℕ
  pub contents : Bytes

pub data Action : Type 0 where
  quarantine : (name cause : String) → Action
  put_object : Attachment → Action
  publish : Message → Action
  append_id : (id : String) → Action
  move : (name : String) → Action

abbrev pub Trace : Type 0
Trace = List Action

pub record Importer : Type 0 where
  pub processed : List String
  pub done : Trace

-- The configuration, the clock, the decoder of frames, and the errors of the actions.
pub record World : Type 0 where
  pub objects : ObjectLibrary
  pub public_key : Bytes
  pub expected_attachment : String
  pub max_attachment_bytes : ℕ
  pub now : Trace → ℕ
  pub unmarshal_frame : Bytes → Option Frame
  pub answer : Action → Trace → Option String

unfoldable pub is_member : String → List String → Bool
is_member id [] = false
is_member id (other ∷ rest) = str_eq id other || is_member id rest

-- The limit on encoded frames, as the 64 bits of an `int64`.
unfoldable pub max_frame_bytes : ℕ → ℕ
max_frame_bytes max_attachment_bytes = (max_attachment_bytes * 2 + 1_048_576) % 2 ^ 64

-- `size > limit` on `int64`: bits from 2^63 on are those of a negative limit.
unfoldable pub is_oversized : (size limit : ℕ) → Bool
is_oversized size limit = leb (2 ^ 63) limit || ltb limit size

-- The error that ends an import, if any, and the importer after it.
abbrev pub Outcome : Type 0
Outcome = Option String × Importer

infixl 5 ◌&>◌
abbrev pub ◌&>◌ : Outcome → (Importer → Outcome) → Outcome
◌&>◌ (none, importer) k = k importer
◌&>◌ (some e, importer) k = (some e, importer)

module _ (w : World) where
  abbrev pub attempt : Action → Importer → Outcome
  attempt action importer =
      (w.answer action importer.done, record importer { done = action ∷ importer.done })

  abbrev pub has_expired : Option ℕ → Trace → Bool
  has_expired none done = false
  has_expired (some expires_at) done = leb expires_at (w.now done)

  unfoldable pub exceeds_limit : Option Attachment → Bool
  exceeds_limit none = false
  exceeds_limit (some attachment) = ltb w.max_attachment_bytes (length attachment.contents)

  -- The checks that a frame passes before anything of it leaves the importer; an error quarantines.
  unfoldable pub admit : Entry → Trace → Result Frame
  admit entry done = do
    fail_if (is_oversized entry.size (max_frame_bytes w.max_attachment_bytes))
        "frame exceeds encoded size limit"
    frame ← or_fail (w.unmarshal_frame entry.contents) "decode frame"
    verify_frame w.objects.frames frame w.public_key
    fail_if (has_expired frame.unsigned.message.expires_at done)
        "message expired before protected-side import"
    validate_attachment_invariant w.objects w.expected_attachment frame.unsigned.message
        frame.unsigned.attachment
    fail_if (exceeds_limit frame.unsigned.attachment) "attachment exceeds configured size limit"
    ok frame

  unfoldable pub store_attachment : Option Attachment → Importer → Outcome
  store_attachment none importer = (none, importer)
  store_attachment (some attachment) importer = elim (check_stored w.objects attachment) [
    | err e ↦ (some e, importer)
    | ok _ ↦ attempt (put_object attachment) importer
  ]

  -- The publication of a message whose ID has not been processed.
  unfoldable pub publish_once : Message → Importer → Outcome
  publish_once message importer =
      if is_member message.id importer.processed
      then (none, importer)
      else (attempt (publish message) importer &> attempt (append_id message.id) &> λ i.
          (none, record i { processed = message.id ∷ i.processed }))

  unfoldable pub import_frame : Entry → Frame → Importer → Outcome
  import_frame entry frame importer =
      store_attachment frame.unsigned.attachment importer
      &> publish_once frame.unsigned.message
      &> attempt (move entry.name)

  unfoldable pub import_entry : Entry → Importer → Outcome
  import_entry entry importer =
      if entry.is_dir || not entry.is_json
      then (none, importer)
      else elim (admit entry importer.done) [
        | err cause ↦ attempt (quarantine entry.name cause) importer
        | ok frame ↦ import_frame entry frame importer
      ]

  unfoldable pub import_available : List Entry → Importer → Outcome
  import_available [] importer = (none, importer)
  import_available (entry ∷ rest) importer = import_entry entry importer &> import_available rest

  -- The loop of `RunImporter`, over the readings of the directory at each tick.
  unfoldable pub run_importer : List (List Entry) → Importer → Outcome
  run_importer [] importer = (none, importer)
  run_importer (entries ∷ ticks) importer = import_available entries importer &> run_importer ticks
