-- ===== src/Executor/Remote/Acknowledged.antt =====
-- Which steps of `executeCommand` acknowledge a delivery (internal/executor/remote_executor.go).
use platform_orchestrator_ru.Base.{
  ◌≡◌, refl, Bool, none, some, false, ◌∷◌, String, true, arith, Bytes, ◌⊎◌, ok, Option-cases, [],
  inr, inl, ◌≢◌, Bool-cases, str_eq, ◌||◌, Result-cases,
}
use platform_orchestrator_ru.Executor.Remote.{
  World, report_created, report_failure, reject_with_event, reject_command, Trace, JobGateway,
  Delivery, acknowledge, CommandEnvelope, publish_runner_error, publish_event_as, CreateJobCommand,
  Failure, retry, EventEnvelope, publish_event, reject, event_as, create_job, monitor,
  already_exists, handle_create_job, created, other, Reason, bad_request, forbidden, invalid,
  not_found, unauthorized,
}
use platform_orchestrator_ru.Executor.Injection.{
  JobGateway, JobSpec, inject_job_gateway_configuration,
}
use platform_orchestrator_ru.Messaging.{CommandEnvelope, EventEnvelope}

-- Whether a delivery was acknowledged.
unfoldable pub acknowledges : Trace → Bool
acknowledges [] = false
acknowledges (acknowledge command_id receipt ∷ rest) = true
acknowledges (retry command_id receipt seconds ∷ rest) = acknowledges rest
acknowledges (reject command_id receipt reason ∷ rest) = acknowledges rest
acknowledges (publish_event event ∷ rest) = acknowledges rest
acknowledges (create_job namespace name spec ∷ rest) = acknowledges rest
acknowledges (monitor envelope command ∷ rest) = acknowledges rest

pub Reason-cases : (reason : Reason) → (reason ≡ already_exists) ⊎ (reason ≢ already_exists)
Reason-cases already_exists = inl refl
Reason-cases bad_request = inr (λ e. cc)
Reason-cases forbidden = inr (λ e. cc)
Reason-cases invalid = inr (λ e. cc)
Reason-cases not_found = inr (λ e. cc)
Reason-cases unauthorized = inr (λ e. cc)
Reason-cases other = inr (λ e. cc)

module _ (w : World) (cfg : JobGateway) (delivery : Delivery) where
  pub reject_command-acknowledges :
      (command_id receipt cause : String) (calls : Trace)
      → acknowledges calls ≡ false
      → acknowledges (reject_command w command_id receipt cause calls).1 ≡ false
  unfolding acknowledges reject_command
  reject_command-acknowledges command_id receipt cause calls h = ground (arith, h)

  pub report_failure-acknowledges :
      (envelope : CommandEnvelope) (failure : Failure) (calls : Trace)
      → acknowledges calls ≡ false
      → acknowledges (report_failure w cfg delivery envelope failure calls).1 ≡ false
  unfolding acknowledges report_failure publish_runner_error publish_event_as reject_with_event
      reject_command
  report_failure-acknowledges envelope failure calls h = ground (arith, h)

  pub reject_with_event-acknowledges :
      (envelope : CommandEnvelope) (receipt code message : String) (calls : Trace)
      → acknowledges calls ≡ false
      → acknowledges (reject_with_event w envelope receipt code message calls).1 ≡ false
  unfolding acknowledges reject_with_event publish_runner_error publish_event_as
  reject_with_event-acknowledges envelope receipt code message calls h =
      reject_command-acknowledges envelope.command_id receipt message _ h

  abbrev pub job_created : CommandEnvelope → CreateJobCommand → Trace → EventEnvelope
  job_created envelope command calls =
      event_as w envelope "job-created" "job-created" (w.now calls)
        (w.marshal_job_created command.job_id command.namespace)

  -- The ways a report of a created job ends.
  pub report_created-cases :
      (envelope : CommandEnvelope) (command : CreateJobCommand) (calls : Trace)
      → acknowledges calls ≡ false
      → acknowledges (report_created w cfg delivery envelope command calls).1 ≡ true
      → (w.answer (publish_event (job_created envelope command calls)) calls ≡ none)
        × (((report_created w cfg delivery envelope command calls).1
              ≡ acknowledge envelope.command_id delivery.receipt
                ∷ publish_event (job_created envelope command calls)
                ∷ calls)
            ⊎ ((report_created w cfg delivery envelope command calls).1
                ≡ monitor envelope command
                  ∷ acknowledge envelope.command_id delivery.receipt
                  ∷ publish_event (job_created envelope command calls)
                  ∷ calls))
  unfolding report_created publish_event_as acknowledges
  report_created-cases envelope command calls h a =
      elim (Option-cases (w.answer (publish_event (job_created envelope command calls)) calls)) [
        | inr (e, refused) ↦ absurd (ground (arith, h, a, refused))
        | inl accepted ↦ (
          accepted,
          elim (Option-cases (
              w.answer (acknowledge envelope.command_id delivery.receipt)
                (publish_event (job_created envelope command calls) ∷ calls))) [
                  | inl done ↦ rw (accepted, report_created, publish_event_as) (rw done (inr refl))
                  | inr (e, failed) ↦
                      rw (accepted, report_created, publish_event_as) (rw failed (inl refl))
                ],
        )
      ]

  -- A creation asks the cluster for the job of the command, or fails before that for a reason of its own.
  pub handle_create_job-cases :
      (command : CreateJobCommand) (calls : Trace)
      → ((configuration : Bytes) × (spec : JobSpec) × (command.configuration ≡ some configuration)
          × (w.job_spec configuration ≡ ok spec)
          × (handle_create_job w cfg command calls
              ≡ created w
                  (create_job command.namespace command.job_id
                    (inject_job_gateway_configuration cfg spec))
                  calls))
        ⊎ ((message : String) × (handle_create_job w cfg command calls
              ≡ (some (record { reason = other; message = message }), calls)))
  unfolding handle_create_job
  handle_create_job-cases command calls = elim (Option-cases command.configuration) [
    | inl absent ↦ rw (absent, handle_create_job) (inr (_, refl))
    | inr (configuration, present) ↦
        elim (Bool-cases (str_eq command.job_id "" || str_eq command.namespace "")) [
          | inl missing ↦ rw (present, missing, handle_create_job) (inr (_, refl))
          | inr named ↦ elim (Result-cases (w.job_spec configuration)) [
            | inr (e, bad) ↦ rw (present, named, bad, handle_create_job) (inr (_, refl))
            | inl (spec, good) ↦ inl (
              configuration,
              spec,
              present,
              good,
              rw (present, named, good, handle_create_job) refl,
            )
          ]
        ]
  ]
