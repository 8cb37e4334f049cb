-- ===== src/Executor/Remote.antt =====
-- `executeCommand` and the functions it calls, of internal/executor/remote_executor.go. The function
-- works on the list of what it has done so far, newest first, and what the gateway and the cluster
-- answer is a function of that list.
pub mod Disposition
pub mod Acknowledged
pub mod Reported
pub mod Created
pub mod Backoff
use platform_orchestrator_ru.Base.{
  ℕ, ◌^◌, String, Bytes, List, ◌∷◌, Option, none, some, Result, ok, err, Bool, true, false, not,
  ◌&&◌, ◌||◌, min, leb, ltb, str_eq, str_append, if◌then◌else◌,
}
use platform_orchestrator_ru.Messaging.{CommandEnvelope, EventEnvelope}
use platform_orchestrator_ru.Executor.Injection.{
  JobGateway, JobSpec, inject_job_gateway_configuration,
}

-- The kinds of errors that k8s.io/apimachinery tells apart, of those the runner asks for.
pub data Reason : Type 0 where
  already_exists bad_request forbidden invalid not_found unauthorized other : Reason

pub record Failure : Type 0 where
  pub reason : Reason
  pub message : String

pub record CreateJobCommand : Type 0 where
  pub job_id : String
  pub namespace : String
  pub configuration : Option Bytes

-- The deliveries of gatewayapi.CommandResponse.
pub record Delivery : Type 0 where
  pub command : Bytes
  pub receipt : String
  pub attempt : ℕ

pub data Action : Type 0 where
  acknowledge : (command_id receipt : String) → Action
  retry : (command_id receipt : String) → (seconds : ℕ) → Action
  reject : (command_id receipt reason : String) → Action
  publish_event : EventEnvelope → Action
  create_job : (namespace name : String) → JobSpec → Action
  monitor : CommandEnvelope → CreateJobCommand → Action

abbrev pub Trace : Type 0
Trace = List Action

-- The error that a function returns, if any, and what was done up to then.
abbrev pub Outcome : Type 0
Outcome = Option String × Trace

-- What the code calls: the gateway's answers, the cluster's, the clock and the JSON codecs.
pub record World : Type 0 where
  pub answer : Action → Trace → Option String
  pub creates : Action → Trace → Option Failure
  pub now : Trace → ℕ
  pub unmarshal_envelope : Bytes → Result CommandEnvelope
  pub unmarshal_create_job : Bytes → Result CreateJobCommand
  pub job_spec : Bytes → Result JobSpec
  pub marshal_job_created : (job_id namespace : String) → Bytes
  pub marshal_runner_error : (job_id code message : String) → (retryable : Bool) → Bytes
  pub protocol_version_v1 : String
  pub create_job_type : String
  pub quote : String → String

abbrev pub default_command_deliveries : ℕ
default_command_deliveries = 10

-- `retryDelay`, in seconds: `1<<attempt`, where an attempt above 6 counts as 6.
unfoldable pub retry_delay : ℕ → ℕ
retry_delay attempt = 2 ^ (if ltb 6 attempt then 6 else attempt)

unfoldable pub is_permanent : Reason → Bool
is_permanent already_exists = false
is_permanent bad_request = true
is_permanent forbidden = true
is_permanent invalid = true
is_permanent not_found = true
is_permanent unauthorized = true
is_permanent other = false

module _ (w : World) where
  abbrev pub send : Action → Trace → Outcome
  send action calls = (w.answer action calls, action ∷ calls)

  -- `rejectCommand`: the cause is the reason sent and the error returned.
  unfoldable pub reject_command : (command_id receipt cause : String) → Trace → Outcome
  reject_command command_id receipt cause calls =
      elim (w.answer (reject command_id receipt cause) calls) [
        | none ↦ (some cause, reject command_id receipt cause ∷ calls)
        | some e ↦
            (some (str_append "reject runner command: " e), reject command_id receipt cause ∷ calls)
      ]

  unfoldable pub event_as : CommandEnvelope → (type suffix : String) → ℕ → Bytes → EventEnvelope
  event_as command type suffix now payload = record {
    protocol_version = w.protocol_version_v1;
    event_id = str_append command.command_id (str_append ":" suffix);
    command_id = command.command_id;
    organization_id = command.organization_id;
    runner_id = command.runner_id;
    deployment_id = command.deployment_id;
    type = type;
    created_at = now;
    payload = payload;
  }

  -- `publishEventAs`; `publishEvent` is the case where the suffix is the type.
  unfoldable pub publish_event_as :
      CommandEnvelope → (type suffix : String) → Bytes → Trace → Outcome
  publish_event_as command type suffix payload calls =
      send (publish_event (event_as command type suffix (w.now calls) payload)) calls

  unfoldable pub publish_runner_error :
      CommandEnvelope → (code message : String) → Bool → Trace → Outcome
  publish_runner_error command code message retryable =
      publish_event_as command "runner-error"
        (if retryable then "runner-error-retryable" else "runner-error-terminal")
        (w.marshal_runner_error command.deployment_id code message retryable)

  -- An error published before a rejection; whether it could be published is ignored.
  unfoldable pub reject_with_event :
      CommandEnvelope → (receipt code message : String) → Trace → Outcome
  reject_with_event envelope receipt code message calls =
      reject_command envelope.command_id receipt message
        (publish_runner_error envelope code message false calls).1

  -- What `CreateJob` answers, with the error wrapped.
  unfoldable pub created : Action → Trace → Option Failure × Trace
  created action calls = elim (w.creates action calls) [
    | none ↦ (none, action ∷ calls)
    | some failure ↦ (
      some (record failure { message = str_append "failed to create job: " failure.message }),
      action ∷ calls,
    )
  ]

  -- `handleCreateJob`: no error, or one with its reason; an existing job is `already_exists`, which
  -- the source calls ErrConflict.
  unfoldable pub handle_create_job : JobGateway → CreateJobCommand → Trace → Option Failure × Trace
  handle_create_job cfg command calls = elim command.configuration [
    | none ↦ (some (record { reason = other; message = required_fields }), calls)
    | some configuration ↦
        if str_eq command.job_id "" || str_eq command.namespace ""
        then (some (record { reason = other; message = required_fields }), calls)
        else elim (w.job_spec configuration) [
          | err e ↦ (
            some (record {
              reason = other;
              message = str_append "failed to unmarshal job spec: " e;
            }),
            calls,
          )
          | ok spec ↦
              created
                (create_job command.namespace command.job_id
                  (inject_job_gateway_configuration cfg spec))
                calls
        ]
  ]
    where
      required_fields : String
      required_fields = "create-job command requires job_id, namespace, and configuration"

  module _ (cfg : JobGateway) (delivery : Delivery) where
    -- The end of `executeCommand` once the job exists.
    unfoldable pub report_created : CommandEnvelope → CreateJobCommand → Trace → Outcome
    report_created envelope command calls =
        let event =
          publish_event_as envelope "job-created" "job-created"
            (w.marshal_job_created command.job_id command.namespace) calls in
        elim event.0 [
          | some e ↦ (
            some e,
            retry envelope.command_id delivery.receipt (retry_delay delivery.attempt) ∷ event.1,
          )
          | none ↦ acknowledged (send (acknowledge envelope.command_id delivery.receipt) event.1)
        ]
      where
        acknowledged : Outcome → Outcome
        acknowledged (some e, rest) = (some e, rest)
        acknowledged (none, rest) = (none, monitor envelope command ∷ rest)

    -- The branch of `executeCommand` for a job that could not be created.
    unfoldable pub report_failure : CommandEnvelope → Failure → Trace → Outcome
    report_failure envelope failure calls =
        if is_permanent failure.reason || leb default_command_deliveries delivery.attempt
        then reject_with_event envelope delivery.receipt "REMOTE_RUNNER" failure.message calls
        else (
          some failure.message,
          retry envelope.command_id delivery.receipt (retry_delay delivery.attempt)
              ∷ (publish_runner_error envelope "REMOTE_RUNNER" failure.message true calls).1,
        )

    unfoldable pub report : CommandEnvelope → CreateJobCommand → Option Failure × Trace → Outcome
    report envelope command (none, calls) = report_created envelope command calls
    report envelope command (some failure, calls) = elim failure.reason [
      | already_exists ↦ report_created envelope command calls
      | _ ↦ report_failure envelope failure calls
    ]

    abbrev pub matches : CommandEnvelope → Bool
    matches envelope =
        str_eq envelope.protocol_version w.protocol_version_v1
        && str_eq envelope.organization_id cfg.org_id
        && str_eq envelope.runner_id cfg.runner_id

    abbrev pub has_expired : Option ℕ → Trace → Bool
    has_expired none calls = false
    has_expired (some expires_at) calls = ltb expires_at (w.now calls)

    unfoldable pub execute_envelope : CommandEnvelope → Trace → Outcome
    execute_envelope envelope calls =
        if not (matches envelope)
        then reject_command envelope.command_id delivery.receipt
            "command envelope identity or protocol version does not match this runner" calls
        else if has_expired envelope.expires_at calls
        then reject_with_event envelope delivery.receipt "COMMAND_EXPIRED"
            "command expired before execution" calls
        else if not (str_eq envelope.type w.create_job_type)
        then reject_command envelope.command_id delivery.receipt
            (str_append "unsupported runner command type " (w.quote envelope.type)) calls
        else elim (w.unmarshal_create_job envelope.payload) [
          | err e ↦
              reject_command envelope.command_id delivery.receipt
                (str_append "decode command payload: " e) calls
          | ok command ↦ report envelope command (handle_create_job cfg command calls)
        ]

    unfoldable pub execute_command : Trace → Outcome
    execute_command calls = elim (w.unmarshal_envelope delivery.command) [
      | err e ↦
          reject_command "unknown" delivery.receipt (str_append "decode command envelope: " e) calls
      | ok envelope ↦ execute_envelope envelope calls
    ]
