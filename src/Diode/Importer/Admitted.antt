-- ===== src/Diode/Importer/Admitted.antt =====
-- What the importer lets through to the protected side (internal/diode/relay.go).
use platform_orchestrator_ru.Base.{
  List, [], ◌∷◌, ◌≡◌, refl, Option, none, some, All, Bool-cases, Result-cases, ◌⊎◌, String, ap, sym,
  ◌||◌, inl, inr, not,
}
use platform_orchestrator_ru.Diode.Importer.{
  Trace, Importer, World, publish_once, attempt, Frame, admit, Outcome, Message, store_attachment,
  import_frame, import_entry, import_available, run_importer, Entry, put_object, publish, append_id,
  ◌&>◌, move, is_member, check_stored,
}
use platform_orchestrator_ru.Diode.Frame.{Frame, Attachment}
use platform_orchestrator_ru.Messaging.{Message}
use platform_orchestrator_ru.Diode.Attachments.{check_stored}
use platform_orchestrator_ru.Diode.Importer.Checks.{IsAdmitted, admit-IsAdmitted}

module _ (w : World) where
  -- The actions between the checks of a frame and its publication: its attachment was stored.
  abbrev pub IsStored : Option Attachment → (before after : Trace) → Type 0
  IsStored none before after = after ≡ before
  IsStored (some attachment) before after =
      (after ≡ put_object attachment ∷ before) × (w.answer (put_object attachment) before ≡ none)

  module _ (Read : Entry → Type 0) where
    -- An attachment that is stored belongs to a frame that was read and is admitted just then.
    abbrev pub IsOfFrame : Attachment → Trace → Type 0
    IsOfFrame attachment before =
        (entry : Entry) × (frame : Frame) × Read entry
        × IsAdmitted w entry before frame
        × (frame.unsigned.attachment ≡ some attachment)

    -- So does a message that is published: its frame was admitted with nothing done since but the storing
    -- of its own attachment.
    abbrev pub IsImported : Message → Trace → Type 0
    IsImported message after =
        (entry : Entry) × (frame : Frame) × (before : Trace) × Read entry
        × IsAdmitted w entry before frame
        × IsStored frame.unsigned.attachment before after
        × (frame.unsigned.message ≡ message)

    abbrev pub AllLeave : Trace → Type 0
    AllLeave [] = Unit
    AllLeave (put_object attachment ∷ before) = IsOfFrame attachment before × AllLeave before
    AllLeave (publish message ∷ before) = IsImported message before × AllLeave before
    AllLeave (_ ∷ before) = AllLeave before

    &>-AllLeave :
        (outcome : Outcome) (k : Importer → Outcome)
        → AllLeave outcome.1.done
        → ((importer : Importer)
            → outcome ≡ (none, importer)
            → AllLeave importer.done
            → AllLeave (k importer).1.done)
        → AllLeave (outcome &> k).1.done
    &>-AllLeave (none, importer) k h on = on importer refl h
    &>-AllLeave (some e, importer) k h on = h

    publish_once-AllLeave :
        (message : Message) (importer : Importer)
        → IsImported message importer.done
        → AllLeave importer.done
        → AllLeave (publish_once w message importer).1.done
    unfolding publish_once
    publish_once-AllLeave message importer imported h =
        elim (Bool-cases (is_member message.id importer.processed)) [
          | inl old ↦ rw old h
          | inr new ↦ rw new (
              &>-AllLeave (attempt w (publish message) importer &> attempt w (append_id message.id))
                (λ i. (none, record i { processed = message.id ∷ i.processed }))
                (&>-AllLeave (attempt w (publish message) importer)
                  (attempt w (append_id message.id)) (imported, h) (λ i e k. k))
                (λ i e k. k))
        ]

    store_attachment-AllLeave :
        (attachment : Option Attachment) (importer : Importer)
        → ((a : Attachment) → attachment ≡ some a → IsOfFrame a importer.done)
        → AllLeave importer.done
        → AllLeave (store_attachment w attachment importer).1.done
    unfolding store_attachment
    store_attachment-AllLeave none importer leaves h = h
    store_attachment-AllLeave (some attachment) importer leaves h =
        elim (Result-cases (check_stored w.objects attachment)) [
          | inr (e, bad) ↦ rw (bad, store_attachment) h
          | inl (_, good) ↦ rw (good, store_attachment) (leaves attachment refl, h)
        ]

    store_attachment-IsStored :
        (attachment : Option Attachment) (importer i : Importer)
        → store_attachment w attachment importer ≡ (none, i)
        → IsStored attachment importer.done i.done
    unfolding store_attachment
    store_attachment-IsStored none importer i e = ap (λ o. o.1.done) (sym e)
    store_attachment-IsStored (some attachment) importer i e =
        elim (Result-cases (check_stored w.objects attachment)) [
          | inr (cause, bad) ↦ absurd (cc (ap (λ o. o.0) (rw (bad, store_attachment) at e)))
          | inl (_, good) ↦
              let done = rw (good, store_attachment) at e in
              (ap (λ o. o.1.done) (sym done), ap (λ o. o.0) done)
        ]

    import_frame-AllLeave :
        (entry : Entry) (frame : Frame) (importer : Importer)
        → Read entry
        → IsAdmitted w entry importer.done frame
        → AllLeave importer.done
        → AllLeave (import_frame w entry frame importer).1.done
    unfolding import_frame
    import_frame-AllLeave entry frame importer read admitted h =
        &>-AllLeave
          (store_attachment w frame.unsigned.attachment importer
            &> publish_once w frame.unsigned.message)
          (attempt w (move entry.name))
          (&>-AllLeave (store_attachment w frame.unsigned.attachment importer)
            (publish_once w frame.unsigned.message)
            (store_attachment-AllLeave frame.unsigned.attachment importer
              (λ a e. (entry, frame, read, admitted, e)) h)
            (λ i e k.
              publish_once-AllLeave frame.unsigned.message i
                (
                  entry,
                  frame,
                  importer.done,
                  read,
                  admitted,
                  store_attachment-IsStored frame.unsigned.attachment importer i e,
                  refl,
                )
                k))
          (λ i e k. k)

    import_entry-AllLeave :
        (entry : Entry) (importer : Importer)
        → Read entry
        → AllLeave importer.done
        → AllLeave (import_entry w entry importer).1.done
    unfolding import_entry
    import_entry-AllLeave entry importer read h =
        elim (Bool-cases (entry.is_dir || not entry.is_json)) [
          | inl skipped ↦ rw skipped h
          | inr frame_file ↦ elim (Result-cases (admit w entry importer.done)) [
            | inr (cause, bad) ↦ rw (frame_file, bad) h
            | inl (frame, good) ↦
                rw (frame_file, good)
                  (import_frame-AllLeave entry frame importer read
                    (admit-IsAdmitted w entry importer.done frame frame_file good) h)
          ]
        ]

    import_available-AllLeave :
        (entries : List Entry) (importer : Importer)
        → All Read entries
        → AllLeave importer.done
        → AllLeave (import_available w entries importer).1.done
    unfolding import_available
    import_available-AllLeave [] importer read h = h
    import_available-AllLeave (entry ∷ rest) importer read h =
        &>-AllLeave (import_entry w entry importer) (import_available w rest)
          (import_entry-AllLeave entry importer read.0 h)
          (λ i e k. import_available-AllLeave rest i read.1 k)

    run_importer-AllLeave :
        (ticks : List (List Entry)) (importer : Importer)
        → All (All Read) ticks
        → AllLeave importer.done
        → AllLeave (run_importer w ticks importer).1.done
    unfolding run_importer
    run_importer-AllLeave [] importer read h = h
    run_importer-AllLeave (entries ∷ ticks) importer read h =
        &>-AllLeave (import_available w entries importer) (run_importer w ticks)
          (import_available-AllLeave entries importer read.0 h)
          (λ i e k. run_importer-AllLeave ticks i read.1 k)

-- The entries of the readings of the directory.
abbrev pub IsIn : List Entry → Entry → Type 0
IsIn [] entry = ⊥
IsIn (other ∷ rest) entry = (entry ≡ other) ⊎ IsIn rest entry

abbrev pub IsRead : List (List Entry) → Entry → Type 0
IsRead [] entry = ⊥
IsRead (entries ∷ ticks) entry = IsIn entries entry ⊎ IsRead ticks entry

All-weaken :
    {A : Type 0} (P Q : A → Type 0) (xs : List A) → ((a : A) → P a → Q a) → All P xs → All Q xs
All-weaken P Q [] f h = tt
All-weaken P Q (x ∷ xs) f h = (f x h.0, All-weaken P Q xs f h.1)

All-IsIn : (entries : List Entry) → All (IsIn entries) entries
All-IsIn [] = tt
All-IsIn (entry ∷ rest) =
    (inl refl, All-weaken (IsIn rest) (IsIn (entry ∷ rest)) rest (λ e. inr) (All-IsIn rest))

All-IsRead : (ticks : List (List Entry)) → All (All (IsRead ticks)) ticks
All-IsRead [] = tt
All-IsRead (entries ∷ ticks) = (
  All-weaken (IsIn entries) (IsRead (entries ∷ ticks)) entries (λ e. inl) (All-IsIn entries),
  All-weaken (All (IsRead ticks)) (All (IsRead (entries ∷ ticks))) ticks
      (λ es. All-weaken (IsRead ticks) (IsRead (entries ∷ ticks)) es (λ e. inr)) (All-IsRead ticks),
)

-- Every message that the importer publishes, and every attachment that it stores, belongs to the frame of
-- an entry that it read, which was genuine under the configured key, within the size limits, not expired
-- and as the attachment invariant asks at that point of the run: since the checks of a message's frame
-- nothing was done but storing the frame's own attachment, without an error.
pub run_importer-IsAdmitted :
    (w : World) (ticks : List (List Entry)) (processed : List String)
    → AllLeave w
        (IsRead ticks)
        (run_importer w ticks (record { processed = processed; done = [] })).1.done
run_importer-IsAdmitted w ticks processed =
    run_importer-AllLeave w (IsRead ticks) ticks (record { processed = processed; done = [] })
      (All-IsRead ticks) tt
