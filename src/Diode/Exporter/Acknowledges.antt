-- ===== src/Diode/Exporter/Acknowledges.antt =====
-- What an acknowledgement by the exporter stands for (internal/diode/relay.go).
use platform_orchestrator_ru.Base.{
  ◌≡◌, refl, Bytes, some, none, ok, ◌∷◌, ℕ, Result-cases, List, Option-cases, [], Option, inr, inl,
  with_ok, or_fail, ok-injective, sym, ap, subst,
}
use platform_orchestrator_ru.Diode.Exporter.{
  Outcome, Trace, Exporter, World, export_message, run_exporter, Message, write, Frame, ack,
  sign_frame_with_attachment, write_sequence, load_attachment, continue, write_frame, nak,
  next_sequence,
}
use platform_orchestrator_ru.Messaging.{Message}
use platform_orchestrator_ru.Diode.Frame.Genuine.{FrameLaws, verify_frame-sign_frame}
use platform_orchestrator_ru.Diode.Frame.{
  Frame, sign_frame_with_attachment, verify_frame, unsigned_frame, Attachment,
}
use platform_orchestrator_ru.Diode.Attachments.{load_attachment}
use platform_orchestrator_ru.Diode.Attachments.Buckets.{load_attachment-has_own_hash}

-- The frame on disk of an acknowledged message: the importer, which has the public key, verifies it
-- as it would validate the message.
pub record IsExported (w : World) (public_key : Bytes) (message : Message) (frame : Frame)
    : Type 0 where
  pub sequence : ℕ
  pub of_message : frame.unsigned.message ≡ message
  pub numbered : frame.unsigned.sequence ≡ sequence
  pub verified : verify_frame w.objects.frames frame public_key ≡ w.objects.frames.validate message

module _ (w : World) (public_key : Bytes) where
  -- Before every acknowledgement, the frame of that message and its number were written.
  abbrev pub Acknowledged : Trace → Type 0
  Acknowledged [] = Unit
  Acknowledged (ack message ∷ rest) =
      ((frame : Frame) × (before : Trace) × IsExported w public_key message frame
        × (rest ≡ write_sequence frame.unsigned.sequence ∷ write_frame frame ∷ before)
        × (w.answer (write_frame frame) before ≡ none)
        × (w.answer (write_sequence frame.unsigned.sequence) (write_frame frame ∷ before) ≡ none))
      × Acknowledged rest
  Acknowledged (write_frame frame ∷ rest) = Acknowledged rest
  Acknowledged (write_sequence n ∷ rest) = Acknowledged rest
  Acknowledged (nak message seconds ∷ rest) = Acknowledged rest

  write-Acknowledged :
      (message : Message) (frame : Frame) (before : Trace)
      → IsExported w public_key message frame
      → Acknowledged before
      → Acknowledged (write w message frame.unsigned.sequence frame before).1.done
  unfolding write
  write-Acknowledged message frame before exported h =
      elim (Option-cases (w.answer (write_frame frame) before)) [
        | inr (m, bad) ↦ rw (bad, write, Acknowledged) h
        | inl written ↦
            elim (Option-cases
              (w.answer (write_sequence frame.unsigned.sequence) (write_frame frame ∷ before))) [
                | inr (m, bad) ↦ rw (written, bad, write, Acknowledged) h
                | inl counted ↦
                    rw (written, counted, write, Acknowledged)
                      ((frame, before, exported, refl, written, counted), h)
              ]
      ]

  module _ (laws : FrameLaws w.objects.frames w.private_key public_key) where
    sign-IsExported :
        (sequence : ℕ) (message : Message) (attachment : Option Attachment) (frame : Frame)
        → load_attachment w.objects w.config message ≡ ok attachment
        → sign_frame_with_attachment w.objects.frames sequence message attachment w.private_key
          ≡ ok frame
        → IsExported w public_key message frame × (frame.unsigned.sequence ≡ sequence)
    unfolding sign_frame_with_attachment unsigned_frame
    sign-IsExported sequence message attachment frame loads signs =
        with_ok (IsExported w public_key message frame × (frame.unsigned.sequence ≡ sequence))
          (or_fail
            (w.objects.frames.marshal (unsigned_frame w.objects.frames sequence message attachment))
            _)
          signs
          λ canonical h e.
            let same = ok-injective e in
            let number : frame.unsigned.sequence ≡ sequence =
              sym (ap (λ f. f.unsigned.sequence) same) in
            (
              record {
                sequence = sequence;
                of_message = sym (ap (λ f. f.unsigned.message) same);
                numbered = number;
                verified =
                    verify_frame-sign_frame w.objects.frames w.private_key public_key laws sequence
                      message attachment frame
                      (load_attachment-has_own_hash w.objects w.config message attachment loads)
                      signs;
              },
              number,
            )

    export_message-Acknowledged :
        (message : Message) (exporter : Exporter)
        → Acknowledged exporter.done
        → Acknowledged (export_message w message exporter).1.done
    unfolding export_message
    export_message-Acknowledged message exporter h =
        elim (Result-cases (load_attachment w.objects w.config message)) [
          | inr (m, bad) ↦ rw (bad, export_message, Acknowledged) h
          | inl (attachment, loads) ↦
              elim (Result-cases (
                sign_frame_with_attachment w.objects.frames (next_sequence w exporter.sequence)
                  message attachment w.private_key)) [
                    | inr (m, bad) ↦ rw (loads, bad, export_message, Acknowledged) h
                    | inl (frame, signs) ↦
                        let (exported, e) =
                          sign-IsExported (next_sequence w exporter.sequence) message attachment
                            frame loads signs in
                        rw (loads, signs, export_message, Acknowledged)
                          (subst (λ n. Acknowledged (write w message n frame exporter.done).1.done)
                            e (write-Acknowledged message frame exporter.done exported h))
                  ]
        ]

    continue-Acknowledged :
        (outcome : Outcome) (k : Exporter → Outcome)
        → Acknowledged outcome.1.done
        → ((exporter : Exporter) → Acknowledged exporter.done → Acknowledged (k exporter).1.done)
        → Acknowledged (continue w outcome k).1.done
    continue-Acknowledged (none, exporter) k h on = on exporter h
    continue-Acknowledged (some e, exporter) k h on = h

    -- The exporter acknowledges a message only after a frame of it, which the importer verifies as it
    -- validates the message, and then the frame's number have been written without an error.
    pub run_exporter-Acknowledged :
        (messages : List Message) (exporter : Exporter)
        → Acknowledged exporter.done
        → Acknowledged (run_exporter w messages exporter).1.done
    unfolding run_exporter
    run_exporter-Acknowledged [] exporter h = h
    run_exporter-Acknowledged (message ∷ messages) exporter h =
        continue-Acknowledged (export_message w message exporter) (run_exporter w messages)
          (export_message-Acknowledged message exporter h)
          (λ e k. run_exporter-Acknowledged messages e k)
