-- ===== src/Diode/Importer/Once.antt =====
-- How often the importer publishes a message (internal/diode/relay.go).
use platform_orchestrator_ru.Base.{
  String, List, [], ◌∷◌, ◌++◌, ◌≡◌, refl, false, Option, none, some, Option-cases, inl, Bool-cases,
  inr, Result-cases, ◌||◌, not, ap,
}
use platform_orchestrator_ru.Diode.Importer.{
  Action, Trace, Importer, World, is_member, publish_once, attempt, quarantine, Outcome, Message,
  store_attachment, import_frame, import_entry, import_available, run_importer, Entry, put_object,
  ◌&>◌, Attachment, Frame, publish, move, append_id, check_stored, admit,
}
use platform_orchestrator_ru.Messaging.{Message}
use platform_orchestrator_ru.Diode.Frame.{Attachment, Frame}
use platform_orchestrator_ru.Diode.Attachments.{check_stored}

-- The IDs of the messages that the importer asked to publish.
unfoldable pub published_ids : Trace → List String
published_ids [] = []
published_ids (quarantine name cause ∷ rest) = published_ids rest
published_ids (put_object attachment ∷ rest) = published_ids rest
published_ids (publish message ∷ rest) = message.id ∷ published_ids rest
published_ids (append_id id ∷ rest) = published_ids rest
published_ids (move name ∷ rest) = published_ids rest

-- Every published ID is new: it was neither published before nor among those of the ledger.
abbrev pub IsOnce : (ledger ids : List String) → Type 0
IsOnce ledger [] = Unit
IsOnce ledger (id ∷ ids) = (is_member id (ids ++ ledger) ≡ false) × IsOnce ledger ids

module _ (ledger : List String) where
  -- Between entries, the processed IDs are those of the ledger and the published ones.
  abbrev pub IsCurrent : Importer → Type 0
  IsCurrent importer =
      IsOnce ledger (published_ids importer.done)
      × (importer.processed ≡ published_ids importer.done ++ ledger)

  -- After an error, the published IDs are still distinct.
  abbrev pub Keeps : Outcome → Type 0
  Keeps (none, importer) = IsCurrent importer
  Keeps (some e, importer) = IsOnce ledger (published_ids importer.done)

  &>-Keeps :
      (outcome : Outcome) (k : Importer → Outcome)
      → Keeps outcome
      → ((importer : Importer) → IsCurrent importer → Keeps (k importer))
      → Keeps (outcome &> k)
  &>-Keeps (none, importer) k h on = on importer h
  &>-Keeps (some e, importer) k h on = h

  module _ (w : World) where
    attempt-Keeps :
        (action : Action) (importer : Importer)
        → published_ids (action ∷ importer.done) ≡ published_ids importer.done
        → IsCurrent importer
        → Keeps (attempt w action importer)
    attempt-Keeps action importer e h = elim (Option-cases (w.answer action importer.done)) [
      | inl good ↦ rw good (rw e h)
      | inr (message, bad) ↦ rw bad (rw e h.0)
    ]

    publish_once-Keeps :
        (message : Message) (importer : Importer)
        → IsCurrent importer
        → Keeps (publish_once w message importer)
    unfolding publish_once published_ids
    publish_once-Keeps message importer h =
        elim (Bool-cases (is_member message.id importer.processed)) [
          | inl old ↦ rw old h
          | inr new ↦
              let unseen : is_member message.id (published_ids importer.done ++ ledger) ≡ false =
                rw h.1 at new in
              elim (Option-cases (w.answer (publish message) importer.done)) [
                | inr (e, bad) ↦ rw (new, bad) (unseen, h.0)
                | inl good ↦
                    elim (Option-cases
                      (w.answer (append_id message.id) (publish message ∷ importer.done))) [
                        | inr (e, bad) ↦ rw (new, good, bad) (unseen, h.0)
                        | inl also ↦ rw (new, good, also) ((unseen, h.0), ap (◌∷◌ message.id) h.1)
                      ]
              ]
        ]

    store_attachment-Keeps :
        (attachment : Option Attachment) (importer : Importer)
        → IsCurrent importer
        → Keeps (store_attachment w attachment importer)
    unfolding store_attachment published_ids
    store_attachment-Keeps none importer h = h
    store_attachment-Keeps (some attachment) importer h =
        elim (Result-cases (check_stored w.objects attachment)) [
          | inr (e, bad) ↦ rw (bad, store_attachment, Keeps) h.0
          | inl (_, good) ↦
              rw (good, store_attachment, Keeps)
                (attempt-Keeps (put_object attachment) importer refl h)
        ]

    import_frame-Keeps :
        (entry : Entry) (frame : Frame) (importer : Importer)
        → IsCurrent importer
        → Keeps (import_frame w entry frame importer)
    unfolding import_frame published_ids
    import_frame-Keeps entry frame importer h =
        &>-Keeps
          (store_attachment w frame.unsigned.attachment importer
            &> publish_once w frame.unsigned.message)
          (attempt w (move entry.name))
          (&>-Keeps (store_attachment w frame.unsigned.attachment importer)
            (publish_once w frame.unsigned.message)
            (store_attachment-Keeps frame.unsigned.attachment importer h)
            (publish_once-Keeps frame.unsigned.message))
          (λ i k. attempt-Keeps (move entry.name) i refl k)

    import_entry-Keeps :
        (entry : Entry) (importer : Importer)
        → IsCurrent importer
        → Keeps (import_entry w entry importer)
    unfolding import_entry published_ids
    import_entry-Keeps entry importer h = elim (Bool-cases (entry.is_dir || not entry.is_json)) [
      | inl skipped ↦ rw skipped h
      | inr frame_file ↦ elim (Result-cases (admit w entry importer.done)) [
        | inr (cause, bad) ↦
            rw (frame_file, bad) (attempt-Keeps (quarantine entry.name cause) importer refl h)
        | inl (frame, good) ↦ rw (frame_file, good) (import_frame-Keeps entry frame importer h)
      ]
    ]

    import_available-Keeps :
        (entries : List Entry) (importer : Importer)
        → IsCurrent importer
        → Keeps (import_available w entries importer)
    unfolding import_available
    import_available-Keeps [] importer h = h
    import_available-Keeps (entry ∷ rest) importer h =
        &>-Keeps (import_entry w entry importer) (import_available w rest)
          (import_entry-Keeps entry importer h) (λ i k. import_available-Keeps rest i k)

    run_importer-Keeps :
        (ticks : List (List Entry)) (importer : Importer)
        → IsCurrent importer
        → Keeps (run_importer w ticks importer)
    unfolding run_importer
    run_importer-Keeps [] importer h = h
    run_importer-Keeps (entries ∷ ticks) importer h =
        &>-Keeps (import_available w entries importer) (run_importer w ticks)
          (import_available-Keeps entries importer h) (λ i k. run_importer-Keeps ticks i k)

Keeps-IsOnce :
    (ledger : List String) (outcome : Outcome)
    → Keeps ledger outcome
    → IsOnce ledger (published_ids outcome.1.done)
Keeps-IsOnce ledger (none, importer) h = h.0
Keeps-IsOnce ledger (some e, importer) h = h

-- An importer that starts with the IDs of the ledger publishes no ID twice and none of the ledger's,
-- whatever the directory holds at each tick, and also if an error ends its run.
pub run_importer-IsOnce :
    (w : World) (ledger : List String) (ticks : List (List Entry))
    → IsOnce ledger
        (published_ids (run_importer w ticks (record { processed = ledger; done = [] })).1.done)
unfolding published_ids
run_importer-IsOnce w ledger ticks =
    Keeps-IsOnce ledger (run_importer w ticks (record { processed = ledger; done = [] }))
      (run_importer-Keeps ledger w ticks (record { processed = ledger; done = [] }) (tt, refl))
