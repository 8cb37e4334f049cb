-- ===== src/Diode/Frame/Genuine.antt =====
-- What a verified frame is, and that signed frames verify (internal/diode/relay.go).
use platform_orchestrator_ru.Base.{
  ◌≡◌, refl, Bytes, some, ok, eq_iff, eq_refl, with_ok, true, fail_if, not, ℕ, str_eq, or_fail,
  Option, arith, subst, ok-injective,
}
use platform_orchestrator_ru.Diode.Frame.{
  FrameLibrary, Frame, verify_frame, sign_frame_with_attachment, frame_version, unsigned_frame,
  has_own_hash, Message, Attachment,
}
use platform_orchestrator_ru.Messaging.{Message}

-- What the code relies on: base64 decodes what it encoded, and a signature made with the private key
-- of a pair verifies under the public one.
pub record FrameLaws (lib : FrameLibrary) (private_key public_key : Bytes) : Type 0 where
  pub decode-encode : (bytes : Bytes) → lib.decode_base64 (lib.encode_base64 bytes) ≡ some bytes
  pub verify-sign :
      (message : Bytes) → lib.verify public_key message (lib.sign private_key message) ≡ true

-- A frame of this version whose hashes are right, whose signature verifies over its canonical
-- encoding, and whose message is valid.
pub record IsGenuine (lib : FrameLibrary) (frame : Frame) (public_key : Bytes) : Type 0 where
  pub signature : Bytes
  pub canonical : Bytes
  pub version : frame.unsigned.version ≡ frame_version
  pub payload : frame.unsigned.payload_sha256 ≡ lib.payload_hash frame.unsigned.message.payload
  pub attachment : has_own_hash lib frame.unsigned.attachment ≡ true
  pub decodes : lib.decode_base64 frame.signature ≡ some signature
  pub encodes : lib.marshal frame.unsigned ≡ some canonical
  pub verifies : lib.verify public_key canonical signature ≡ true
  pub valid : lib.validate frame.unsigned.message ≡ ok tt

module _ (lib : FrameLibrary) (public_key : Bytes) where
  -- A frame that passes `verifyFrame` is genuine.
  pub verify_frame-IsGenuine :
      (frame : Frame) → verify_frame lib frame public_key ≡ ok tt → IsGenuine lib frame public_key
  unfolding verify_frame
  verify_frame-IsGenuine frame passes =
      with_ok (IsGenuine lib frame public_key)
        (fail_if (not (str_eq frame.unsigned.version frame_version)) _) passes
        λ _ h1 e1.
          with_ok (IsGenuine lib frame public_key)
            (fail_if
              (not (
                str_eq frame.unsigned.payload_sha256
                  (lib.payload_hash frame.unsigned.message.payload)))
              _)
            e1
            λ _ h2 e2.
              with_ok (IsGenuine lib frame public_key)
                (fail_if (not (has_own_hash lib frame.unsigned.attachment)) _) e2
                λ _ h3 e3.
                  with_ok (IsGenuine lib frame public_key)
                    (or_fail (lib.decode_base64 frame.signature) _) e3
                    λ signature h4 e4.
                      with_ok (IsGenuine lib frame public_key)
                        (or_fail (lib.marshal frame.unsigned) _) e4
                        λ canonical h5 e5.
                          with_ok (IsGenuine lib frame public_key)
                            (fail_if (not (lib.verify public_key canonical signature)) _) e5
                            λ _ h6 e6. record {
                              signature = signature;
                              canonical = canonical;
                              version =
                                  ground (arith, h1, eq_iff frame.unsigned.version frame_version);
                              payload = ground (
                                arith,
                                h2,
                                eq_iff frame.unsigned.payload_sha256
                                    (lib.payload_hash frame.unsigned.message.payload),
                              );
                              attachment = ground (arith, h3);
                              decodes = ground (arith, h4);
                              encodes = ground (arith, h5);
                              verifies = ground (arith, h6);
                              valid = e6;
                            }

module _ (lib : FrameLibrary) (private_key public_key : Bytes)
    (laws : FrameLaws lib private_key public_key) where
  -- A frame that the exporter signs, with an attachment that has its own hash or with none, is
  -- verified by the importer with the key pair's public key exactly as its message validates.
  pub verify_frame-sign_frame :
      (sequence : ℕ) (message : Message) (attachment : Option Attachment) (frame : Frame)
      → has_own_hash lib attachment ≡ true
      → sign_frame_with_attachment lib sequence message attachment private_key ≡ ok frame
      → verify_frame lib frame public_key ≡ lib.validate message
  unfolding sign_frame_with_attachment verify_frame unsigned_frame
  verify_frame-sign_frame sequence message attachment frame own signed =
      with_ok (verify_frame lib frame public_key ≡ lib.validate message)
        (or_fail (lib.marshal (unsigned_frame lib sequence message attachment)) _) signed
        λ canonical h e.
          let encoded : lib.marshal (unsigned_frame lib sequence message attachment)
              ≡ some canonical =
            ground (arith, h) in
          subst (λ f. verify_frame lib f public_key ≡ lib.validate message) (ok-injective e)
            (rw
              (
                eq_refl (lib.payload_hash message.payload),
                own,
                encoded,
                laws.decode-encode,
                laws.verify-sign,
              )
              refl)
