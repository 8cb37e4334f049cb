-- ===== src/Diode/Exporter.antt =====
-- The loop of `RunExporter` of internal/diode/relay.go, one fetched delivery at a time. The exporter
-- keeps its sequence number and the list of what it has done, newest first; what the file system and
-- the consumer answer is a function of that list.
pub mod Acknowledges
use platform_orchestrator_ru.Base.{
  ℕ, Bytes, String, List, [], ◌∷◌, Option, none, some, ok, err, ◌+◌, ◌%◌, ◌^◌,
}
use platform_orchestrator_ru.Messaging.{Message}
use platform_orchestrator_ru.Diode.Frame.{Frame, sign_frame_with_attachment}
use platform_orchestrator_ru.Diode.Attachments.{ObjectLibrary, ExportConfig, load_attachment}

pub data Action : Type 0 where
  write_frame : Frame → Action
  write_sequence : ℕ → Action
  ack : Message → Action
  nak : Message → (seconds : ℕ) → Action

abbrev pub Trace : Type 0
Trace = List Action

pub record Exporter : Type 0 where
  pub sequence : ℕ
  pub done : Trace

pub record World : Type 0 where
  pub objects : ObjectLibrary
  pub config : ExportConfig
  pub private_key : Bytes
  pub answer : Action → Trace → Option String

-- The error that ends the loop, if any, and the exporter after it.
abbrev pub Outcome : Type 0
Outcome = Option String × Exporter

module _ (w : World) where
  -- `sequence++` on a `uint64`.
  unfoldable pub next_sequence : ℕ → ℕ
  next_sequence sequence = (sequence + 1) % 2 ^ 64

  abbrev pub give_back : Message → ℕ → ℕ → Trace → Outcome
  give_back message seconds sequence done =
      (none, record { sequence = sequence; done = nak message seconds ∷ done })

  -- The frame and then the ledger are written, and the delivery acknowledged.
  unfoldable pub write : Message → ℕ → Frame → Trace → Outcome
  write message sequence frame done = elim (w.answer (write_frame frame) done) [
    | some e ↦ give_back message 5 sequence (write_frame frame ∷ done)
    | none ↦ elim (w.answer (write_sequence sequence) (write_frame frame ∷ done)) [
      | some e ↦ give_back message 5 sequence (write_sequence sequence ∷ write_frame frame ∷ done)
      | none ↦ (
        w.answer (ack message) (write_sequence sequence ∷ write_frame frame ∷ done),
        record {
          sequence = sequence;
          done = ack message ∷ write_sequence sequence ∷ write_frame frame ∷ done;
        },
      )
    ]
  ]

  unfoldable pub export_message : Message → Exporter → Outcome
  export_message message exporter =
      let sequence = next_sequence exporter.sequence in
      elim (load_attachment w.objects w.config message) [
        | err e ↦ give_back message 5 sequence exporter.done
        | ok attachment ↦
            elim (sign_frame_with_attachment w.objects.frames sequence message attachment
              w.private_key) [
                | err e ↦ give_back message 1 sequence exporter.done
                | ok frame ↦ write message sequence frame exporter.done
              ]
      ]

  abbrev pub continue : Outcome → (Exporter → Outcome) → Outcome
  continue (none, exporter) k = k exporter
  continue (some e, exporter) k = (some e, exporter)

  unfoldable pub run_exporter : List Message → Exporter → Outcome
  run_exporter [] exporter = (none, exporter)
  run_exporter (message ∷ messages) exporter =
      continue (export_message message exporter) (run_exporter messages)
