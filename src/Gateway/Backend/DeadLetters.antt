-- ===== src/Gateway/Backend/DeadLetters.antt =====
-- When the backend terminates a delivery (internal/gateway/backend.go).
use platform_orchestrator_ru.Base.{
  ◌≡◌, refl, none, some, str_append, String, [], Bool-cases, Option-cases, ◌∷◌, str_eq, inl, ◌==◌,
  inr,
}
use platform_orchestrator_ru.Gateway.Backend.{
  Nats, Trace, send, flush, publish_message, reject, Message, flushed, publish_acknowledgement,
  dead_letter, CommandDelivery, flush_timeout,
}
use platform_orchestrator_ru.Messaging.{Message}
use platform_orchestrator_ru.Gateway.Http.{CommandDelivery}

module _ (nats : Nats) (original : Message) (cause ack_subject : String) where
  -- A dead letter goes to the subject for dead letters of the original's, with an ID of its own, the
  -- payload of the original and no expiry.
  abbrev pub IsDeadLetter : Message → Type 0
  IsDeadLetter message =
      (nats.dead_letter_subject original.subject ≡ some message.subject)
      × (message.id ≡ str_append original.id ":gateway-dlq")
      × (message.payload ≡ original.payload)
      × (message.expires_at ≡ none)

  -- A delivery is terminated only right after its dead letter was published, with the cause and
  -- without an error.
  abbrev pub IsTerminated : Trace → Type 0
  IsTerminated [] = Unit
  IsTerminated (send subject text ∷ rest) =
      (subject ≡ ack_subject)
      × (text ≡ "+TERM")
      × ((message : Message) × IsDeadLetter message
          × (rest ≡ publish_message message cause ∷ [])
          × (nats.answer (publish_message message cause) [] ≡ none))
  IsTerminated (publish_message message reason ∷ rest) =
      IsDeadLetter message × (reason ≡ cause) × (rest ≡ [])
  IsTerminated (flush timeout ∷ rest) = IsTerminated rest

  flushed-IsTerminated : (calls : Trace) → IsTerminated calls → IsTerminated (flushed nats calls).1
  unfolding flushed
  flushed-IsTerminated calls h = elim (Bool-cases (flush_timeout (nats.time_left calls) == 0)) [
    | inl late ↦ rw (late, flushed, IsTerminated) h
    | inr early ↦ rw (early, flushed, IsTerminated) h
  ]

  publish_acknowledgement-IsTerminated :
      (message : Message)
      → IsDeadLetter message
      → nats.answer (publish_message message cause) [] ≡ none
      → IsTerminated
          (publish_acknowledgement nats ack_subject "+TERM" (publish_message message cause ∷ [])).1
  unfolding publish_acknowledgement
  publish_acknowledgement-IsTerminated message letter taken =
      let sent : IsTerminated (send ack_subject "+TERM" ∷ publish_message message cause ∷ []) =
        (refl, refl, (message, letter, refl, taken)) in
      elim (Bool-cases (str_eq ack_subject "")) [
        | inl nowhere ↦ rw (nowhere, publish_acknowledgement, IsTerminated) (letter, refl, refl)
        | inr named ↦
            elim (Option-cases
              (nats.answer (send ack_subject "+TERM") (publish_message message cause ∷ []))) [
                | inr (e, bad) ↦ rw (named, bad, publish_acknowledgement, IsTerminated) sent
                | inl good ↦
                    rw (named, good, publish_acknowledgement, IsTerminated)
                      (flushed-IsTerminated
                        (send ack_subject "+TERM" ∷ publish_message message cause ∷ []) sent)
              ]
      ]

-- Rejecting a delivery terminates it only right after its dead letter was published without an error,
-- with the cause: the letter goes to the subject for dead letters of the delivery's subject and has an ID
-- of its own, the delivery's payload and no expiry; after an error of that, nothing is terminated.
pub reject-IsTerminated :
    (nats : Nats) (delivery : CommandDelivery) (cause : String)
    → IsTerminated nats delivery.message cause delivery.ack_subject
        (reject nats delivery cause []).1
unfolding reject dead_letter
reject-IsTerminated nats delivery cause =
    elim (Option-cases (nats.dead_letter_subject delivery.message.subject)) [
      | inl unnamed ↦ rw (unnamed, reject, IsTerminated) tt
      | inr (subject, named) ↦
          let letter = dead_letter nats delivery.message subject in
          elim (Option-cases (nats.answer (publish_message letter cause) [])) [
            | inr (e, bad) ↦
                rw (named, bad, reject, IsTerminated) ((named, refl, refl, refl), refl, refl)
            | inl good ↦
                rw (named, good, reject, IsTerminated)
                  (publish_acknowledgement-IsTerminated nats delivery.message cause
                    delivery.ack_subject letter (named, refl, refl, refl) good)
          ]
    ]
