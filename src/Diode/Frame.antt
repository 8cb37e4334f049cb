-- ===== src/Diode/Frame.antt =====
-- Signed frames: `signFrameWithAttachment` and `verifyFrame` of internal/diode/relay.go.
pub mod Genuine
use platform_orchestrator_ru.Base.{
  ℕ, String, Bytes, Option, none, some, Result, ok, err, Bool, true, false, not, str_eq, fail_if,
  or_fail, ◌>>=◌, ◌>>◌,
}
use platform_orchestrator_ru.Messaging.{Message}

abbrev pub frame_version : String
frame_version = "1"

pub record Attachment : Type 0 where
  pub bucket : String
  pub key : String
  pub contents : Bytes
  pub payload_sha256 : String

pub record UnsignedFrame : Type 0 where
  pub version : String
  pub sequence : ℕ
  pub message : Message
  pub payload_sha256 : String
  pub attachment : Option Attachment

pub record Frame : Type 0 where
  pub unsigned : UnsignedFrame
  pub signature : String

-- The hash, the JSON encoding, Ed25519, base64 and the validation of messages by golib/hmessaging.
pub record FrameLibrary : Type 0 where
  pub payload_hash : Bytes → String
  pub marshal : UnsignedFrame → Option Bytes
  pub sign : (private_key message : Bytes) → Bytes
  pub verify : (public_key message signature : Bytes) → Bool
  pub encode_base64 : Bytes → String
  pub decode_base64 : String → Option Bytes
  pub validate : Message → Result (Unit {0})

module _ (lib : FrameLibrary) where
  unfoldable pub unsigned_frame : ℕ → Message → Option Attachment → UnsignedFrame
  unsigned_frame sequence message attachment = record {
    version = frame_version;
    sequence = sequence;
    message = message;
    payload_sha256 = lib.payload_hash message.payload;
    attachment = attachment;
  }

  unfoldable pub sign_frame_with_attachment :
      ℕ → Message → Option Attachment → (private_key : Bytes) → Result Frame
  sign_frame_with_attachment sequence message attachment private_key = do
    canonical ← or_fail (lib.marshal (unsigned_frame sequence message attachment)) "marshal frame"
    ok (record {
      unsigned = unsigned_frame sequence message attachment;
      signature = lib.encode_base64 (lib.sign private_key canonical);
    })

  -- Whether an attachment, if there is one, has the hash that it states.
  unfoldable pub has_own_hash : Option Attachment → Bool
  has_own_hash none = true
  has_own_hash (some attachment) =
      str_eq attachment.payload_sha256 (lib.payload_hash attachment.contents)

  unfoldable pub verify_frame : Frame → (public_key : Bytes) → Result (Unit {0})
  verify_frame frame public_key = do
    fail_if (not (str_eq frame.unsigned.version frame_version)) "unsupported frame version"
    fail_if
        (not
          (str_eq frame.unsigned.payload_sha256 (lib.payload_hash frame.unsigned.message.payload)))
        "payload checksum mismatch"
    fail_if (not (has_own_hash frame.unsigned.attachment)) "attachment payload checksum mismatch"
    signature ← or_fail (lib.decode_base64 frame.signature) "invalid signature encoding"
    canonical ← or_fail (lib.marshal frame.unsigned) "marshal frame"
    fail_if (not (lib.verify public_key canonical signature)) "signature verification failed"
    lib.validate frame.unsigned.message
