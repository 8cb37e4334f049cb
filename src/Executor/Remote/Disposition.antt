-- ===== src/Executor/Remote/Disposition.antt =====
-- How `executeCommand` settles its delivery (internal/executor/remote_executor.go).
use platform_orchestrator_ru.Base.{
  ◌≡◌, suc, ℕ, String, ◌∷◌, arith, Result-cases, Option, inl, some, inr, none, [], Bool-cases,
  str_eq, ◌∙◌, ap,
}
use platform_orchestrator_ru.Executor.Remote.{
  World, execute_command, execute_envelope, report, report_created, report_failure,
  reject_with_event, reject_command, handle_create_job, Trace, publish_runner_error, created,
  JobGateway, acknowledge, publish_event_as, CreateJobCommand, Delivery, retry, CommandEnvelope,
  reject, Failure, publish_event, create_job, monitor, matches, has_expired,
}
use platform_orchestrator_ru.Executor.Injection.{JobGateway}
use platform_orchestrator_ru.Messaging.{CommandEnvelope}

-- How often the deliveries were acknowledged, retried or rejected.
unfoldable pub dispositions : Trace → ℕ
dispositions [] = 0
dispositions (acknowledge command_id receipt ∷ rest) = suc (dispositions rest)
dispositions (retry command_id receipt seconds ∷ rest) = suc (dispositions rest)
dispositions (reject command_id receipt reason ∷ rest) = suc (dispositions rest)
dispositions (publish_event event ∷ rest) = dispositions rest
dispositions (create_job namespace name spec ∷ rest) = dispositions rest
dispositions (monitor envelope command ∷ rest) = dispositions rest

module _ (w : World) where
  reject_command-dispositions :
      (command_id receipt cause : String) (calls : Trace)
      → dispositions (reject_command w command_id receipt cause calls).1 ≡ suc (dispositions calls)
  unfolding dispositions reject_command
  reject_command-dispositions command_id receipt cause calls = ground arith

  reject_with_event-dispositions :
      (envelope : CommandEnvelope) (receipt code message : String) (calls : Trace)
      → dispositions (reject_with_event w envelope receipt code message calls).1
        ≡ suc (dispositions calls)
  unfolding dispositions reject_with_event publish_runner_error publish_event_as
  reject_with_event-dispositions envelope receipt code message calls =
      reject_command-dispositions envelope.command_id receipt message _

  handle_create_job-dispositions :
      (cfg : JobGateway) (command : CreateJobCommand) (calls : Trace)
      → dispositions (handle_create_job w cfg command calls).1 ≡ dispositions calls
  unfolding dispositions handle_create_job created
  handle_create_job-dispositions cfg command calls = ground arith

  module _ (cfg : JobGateway) (delivery : Delivery) where
    report_created-dispositions :
        (envelope : CommandEnvelope) (command : CreateJobCommand) (calls : Trace)
        → dispositions (report_created w cfg delivery envelope command calls).1
          ≡ suc (dispositions calls)
    unfolding dispositions report_created publish_event_as
    report_created-dispositions envelope command calls = ground arith

    report_failure-dispositions :
        (envelope : CommandEnvelope) (failure : Failure) (calls : Trace)
        → dispositions (report_failure w cfg delivery envelope failure calls).1
          ≡ suc (dispositions calls)
    unfolding dispositions report_failure publish_runner_error publish_event_as
    report_failure-dispositions envelope failure calls = ground (
      arith,
      reject_with_event-dispositions envelope delivery.receipt "REMOTE_RUNNER" failure.message
          calls,
    )

    report-dispositions :
        (envelope : CommandEnvelope) (command : CreateJobCommand) (result : Option Failure × Trace)
        → dispositions (report w cfg delivery envelope command result).1
          ≡ suc (dispositions result.1)
    unfolding report
    report-dispositions envelope command (none, calls) =
        report_created-dispositions envelope command calls
    report-dispositions envelope command (some failure, calls) = ground (
      arith,
      report_created-dispositions envelope command calls,
      report_failure-dispositions envelope failure calls,
    )

    execute_envelope-dispositions :
        (envelope : CommandEnvelope) (calls : Trace)
        → dispositions (execute_envelope w cfg delivery envelope calls).1 ≡ suc (dispositions calls)
    unfolding execute_envelope
    execute_envelope-dispositions envelope calls =
        elim (Bool-cases (matches w cfg delivery envelope)) [
          | inr foreign ↦ rw (foreign, execute_envelope) (reject_command-dispositions _ _ _ calls)
          | inl ours ↦ elim (Bool-cases (has_expired w cfg delivery envelope.expires_at calls)) [
            | inl late ↦
                rw (ours, late, execute_envelope)
                  (reject_with_event-dispositions envelope _ _ _ calls)
            | inr timely ↦ elim (Bool-cases (str_eq envelope.type w.create_job_type)) [
              | inr unsupported ↦
                  rw (ours, timely, unsupported, execute_envelope)
                    (reject_command-dispositions _ _ _ calls)
              | inl supported ↦ elim (Result-cases (w.unmarshal_create_job envelope.payload)) [
                | inr (message, e) ↦
                    rw (ours, timely, supported, e, execute_envelope)
                      (reject_command-dispositions _ _ _ calls)
                | inl (command, e) ↦
                    rw (ours, timely, supported, e, execute_envelope)
                      (report-dispositions envelope command (handle_create_job w cfg command calls)
                        ∙ ap suc (handle_create_job-dispositions cfg command calls))
              ]
            ]
          ]
        ]

    -- Whatever the command is and whatever the cluster and the gateway answer, an execution settles
    -- its delivery exactly once: one acknowledgement, retry or rejection is sent.
    pub execute_command-dispositions :
        (calls : Trace)
        → dispositions (execute_command w cfg delivery calls).1 ≡ suc (dispositions calls)
    unfolding execute_command
    execute_command-dispositions calls =
        elim (Result-cases (w.unmarshal_envelope delivery.command)) [
          | inl (envelope, e) ↦
              rw (e, execute_command) (execute_envelope-dispositions envelope calls)
          | inr (message, e) ↦
              rw (e, execute_command)
                (reject_command-dispositions "unknown" delivery.receipt _ calls)
        ]
