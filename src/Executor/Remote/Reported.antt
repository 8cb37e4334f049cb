-- ===== src/Executor/Remote/Reported.antt =====
-- Which reports about a creation acknowledge a delivery (internal/executor/remote_executor.go).
use platform_orchestrator_ru.Base.{
  ◌≡◌, refl, none, some, false, ◌∷◌, true, arith, Bytes, ◌⊎◌, ok, Option-cases, [], inr, inl,
  str_append, ◌≢◌, Option, subst, sym,
}
use platform_orchestrator_ru.Executor.Remote.{
  World, report_created, Trace, JobGateway, Delivery, acknowledge, CommandEnvelope,
  CreateJobCommand, Failure, EventEnvelope, publish_event, event_as, create_job, monitor, Action,
  already_exists, handle_create_job, report, created, other,
}
use platform_orchestrator_ru.Executor.Injection.{
  JobGateway, JobSpec, inject_job_gateway_configuration,
}
use platform_orchestrator_ru.Messaging.{CommandEnvelope, EventEnvelope}
use platform_orchestrator_ru.Executor.Remote.Acknowledged.{
  acknowledges, report_created-cases, report_failure-acknowledges, Reason-cases,
  handle_create_job-cases, job_created,
}

module _ (w : World) (cfg : JobGateway) (delivery : Delivery) where
  -- The cluster has accepted the job of the command, made from its specification, or has answered that
  -- one of that name was there before, and the gateway has accepted the event that says so; only then
  -- was the delivery acknowledged.
  pub record IsCreated (envelope : CommandEnvelope) (command : CreateJobCommand) (trace : Trace)
      : Type 0 where
    pub configuration : Bytes
    pub spec : JobSpec
    pub configured : command.configuration ≡ some configuration
    pub decoded : w.job_spec configuration ≡ ok spec
    pub action : Action
    pub creates :
        action
        ≡ create_job command.namespace command.job_id (inject_job_gateway_configuration cfg spec)
    pub accepted :
        (w.creates action [] ≡ none)
        ⊎ ((failure : Failure) × (w.creates action [] ≡ some failure)
            × (failure.reason ≡ already_exists))
    pub event : EventEnvelope
    pub reports : event.event_id ≡ str_append envelope.command_id (str_append ":" "job-created")
    pub published : w.answer (publish_event event) (action ∷ []) ≡ none
    pub order :
        (trace
          ≡ acknowledge envelope.command_id delivery.receipt ∷ publish_event event ∷ action ∷ [])
        ⊎ (trace
            ≡ monitor envelope command
              ∷ acknowledge envelope.command_id delivery.receipt
              ∷ publish_event event
              ∷ action
              ∷ [])

  report_created-IsCreated :
      (envelope : CommandEnvelope) (command : CreateJobCommand) (configuration : Bytes)
      (spec : JobSpec)
      → command.configuration ≡ some configuration
      → w.job_spec configuration ≡ ok spec
      → let action =
          create_job command.namespace command.job_id (inject_job_gateway_configuration cfg spec) in
        (w.creates action [] ≡ none)
          ⊎ ((failure : Failure) × (w.creates action [] ≡ some failure)
              × (failure.reason ≡ already_exists))
        → acknowledges (report_created w cfg delivery envelope command (action ∷ [])).1 ≡ true
        → IsCreated envelope command
            (report_created w cfg delivery envelope command (action ∷ [])).1
  unfolding acknowledges event_as
  report_created-IsCreated envelope command configuration spec present good accepted a =
      let action =
        create_job command.namespace command.job_id (inject_job_gateway_configuration cfg spec) in
      let reported = report_created-cases w cfg delivery envelope command (action ∷ []) refl a in
      record {
        configuration = configuration;
        spec = spec;
        configured = present;
        decoded = good;
        action = action;
        creates = refl;
        accepted = accepted;
        event = job_created w cfg delivery envelope command (action ∷ []);
        reports = refl;
        published = reported.0;
        order = reported.1;
      }

  -- A report about a failure for one of the other reasons is no acknowledgement.
  report-acknowledges :
      (envelope : CommandEnvelope) (command : CreateJobCommand) (failure : Failure) (calls : Trace)
      → acknowledges calls ≡ false
      → failure.reason ≢ already_exists
      → acknowledges (report w cfg delivery envelope command (some failure, calls)).1 ≡ false
  unfolding report
  report-acknowledges envelope command failure calls h different =
      ground (arith, different, report_failure-acknowledges w cfg delivery envelope failure calls h)

  report-report_created :
      (envelope : CommandEnvelope) (command : CreateJobCommand) (failure : Failure) (calls : Trace)
      → failure.reason ≡ already_exists
      → report w cfg delivery envelope command (some failure, calls)
        ≡ report_created w cfg delivery envelope command calls
  unfolding report
  report-report_created envelope command failure calls exists_already = rw exists_already refl

  -- An acknowledged report, by the result it is about.
  abbrev Reports : CommandEnvelope → CreateJobCommand → Option Failure × Trace → Type 0
  Reports envelope command result =
      acknowledges (report w cfg delivery envelope command result).1 ≡ true
      → IsCreated envelope command (report w cfg delivery envelope command result).1

  created-Reports :
      (envelope : CommandEnvelope) (command : CreateJobCommand) (configuration : Bytes)
      (spec : JobSpec)
      → command.configuration ≡ some configuration
      → w.job_spec configuration ≡ ok spec
      → Reports envelope command (
          created w
            (create_job command.namespace command.job_id
              (inject_job_gateway_configuration cfg spec))
            [])
  unfolding created acknowledges report
  created-Reports envelope command configuration spec present good =
      let action =
        create_job command.namespace command.job_id (inject_job_gateway_configuration cfg spec) in
      elim (Option-cases (w.creates action [])) [
        | inl fresh ↦
            let same : created w action [] ≡ (none, action ∷ []) = rw (fresh, created) refl in
            subst (Reports envelope command) (sym same) (
              report_created-IsCreated envelope command configuration spec present good (inl fresh))
        | inr (failure, failed) ↦
            let wrapped : Failure = record failure {
              message = str_append "failed to create job: " failure.message;
            } in
            let same : created w action [] ≡ (some wrapped, action ∷ []) =
              rw (failed, created) refl in
            subst (Reports envelope command) (sym same) (elim (Reason-cases failure.reason) [
              | inl old ↦
                  subst (λ r. acknowledges r.1 ≡ true → IsCreated envelope command r.1)
                    (sym (report-report_created envelope command wrapped (action ∷ []) old))
                    (report_created-IsCreated envelope command configuration spec present good
                      (inr (failure, failed, old)))
              | inr different ↦ λ a. absurd (
                  cc (a, report-acknowledges envelope command wrapped (action ∷ []) refl different))
            ])
      ]

  pub report-IsCreated :
      (envelope : CommandEnvelope) (command : CreateJobCommand)
      → Reports envelope command (handle_create_job w cfg command [])
  unfolding acknowledges
  report-IsCreated envelope command = elim (handle_create_job-cases w cfg delivery command []) [
    | inr (message, e) ↦ subst (Reports envelope command) (sym e) (λ a. absurd (
        cc (
          a,
          report-acknowledges envelope command (record { reason = other; message = message }) []
              refl (λ same. cc),
        )))
    | inl (configuration, spec, present, good, e) ↦
        subst (Reports envelope command) (sym e)
          (created-Reports envelope command configuration spec present good)
  ]
