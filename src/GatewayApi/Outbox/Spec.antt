-- ===== src/GatewayApi/Outbox/Spec.antt =====
-- What the outbox promises: a spool of named contents, of which one leaves only after the gateway has
-- accepted the request that it describes (internal/gatewayapi/outbox.go).
pub mod NotLost
use platform_orchestrator_ru.GatewayApi.Client.{
  ClientRequest, Client, Exchange, logs_request, results_request,
}
use platform_orchestrator_ru.GatewayApi.Outbox.{
  OutboxLibrary, List, OutboxOperation, OutboxState, with_sent, called, replace_file, read_file,
  remove_file,
}
use platform_orchestrator_ru.Base.{
  List, Bytes, ◌∷◌, Option, ◌≡◌, String, some, Bool, if◌then◌else◌, ◌++◌, ◌⊎◌, none, str_eq, [],
  false, ◌||◌, Result, err, ok,
}

-- The request was sent and its response has the status 202.
abbrev pub Accepted : ClientRequest → List Exchange → Type 0
Accepted request [] = ⊥
Accepted request (exchange ∷ rest) =
    ((exchange.request ≡ request) × (exchange.status ≡ some 202)) ⊎ Accepted request rest

abbrev pub or_none {ℓ} : {A : Type ℓ} → Result A → Option A
or_none (err message) = none
or_none (ok a) = some a

module _ (lib : OutboxLibrary) (c : Client) where
  -- The request with which an operation is delivered.
  unfoldable pub logs_delivery : OutboxOperation → Option Bytes → Option ClientRequest
  logs_delivery operation none = none
  logs_delivery operation (some logs) = or_none (
      logs_request lib.client_library c operation.environment_id operation.deployment_id
        operation.operation_token logs)

  unfoldable pub result_delivery : OutboxOperation → Option Bytes → Option ClientRequest
  result_delivery operation none = none
  result_delivery operation (some content) = or_none (
      results_request lib.client_library c operation.deployment_id operation.operation_token
        content)

  unfoldable pub delivery_of : OutboxOperation → Option ClientRequest
  delivery_of operation =
      if str_eq operation.kind "result"
      then result_delivery operation (lib.marshal_raw operation.content)
      else if str_eq operation.kind "logs"
      then logs_delivery operation (lib.unmarshal_logs operation.content)
      else none

  -- A request for the contents of a file was accepted.
  pub record IsDelivered (contents : Bytes) (sent : List Exchange) : Type 0 where
    pub operation : OutboxOperation
    pub request : ClientRequest
    pub unmarshalled : lib.unmarshal_operation contents ≡ some operation
    pub own : (operation.organization_id ≡ c.organization_id) × (operation.runner_id ≡ c.runner_id)
    pub described : delivery_of operation ≡ some request
    pub accepted : Accepted request sent

  -- One step of a spool. Requests are sent at any time.
  pub data SpoolStep : OutboxState → OutboxState → Type 0 where
    send_request :
        (s : OutboxState) (exchange : Exchange)
        → SpoolStep s (with_sent s (s.sent ++ exchange ∷ []))
    call_file_system : (s : OutboxState) → SpoolStep s (called s)
    keep :
        (s : OutboxState) (name : String) (contents : Bytes)
        → SpoolStep s (record {
          sent = s.sent;
          files = replace_file name contents s.files;
          disk_calls = s.disk_calls;
        })
    discharge :
        (s : OutboxState) (name : String) (contents : Bytes)
        → read_file name s.files ≡ some contents
        → IsDelivered contents s.sent
        → SpoolStep s
            (record { sent = s.sent; files = remove_file name s.files; disk_calls = s.disk_calls })

  pub data SpoolSteps : OutboxState → OutboxState → Type 0 where
    stay : (s : OutboxState) → SpoolSteps s s
    and_step : {s s' s'' : OutboxState} → SpoolStep s s' → SpoolSteps s' s'' → SpoolSteps s s''

  -- Whether a step, or one of many, replaces the file of the name.
  unfoldable pub step_replaces : {s s' : OutboxState} (name : String) → SpoolStep s s' → Bool
  step_replaces name (send_request s exchange) = false
  step_replaces name (call_file_system s) = false
  step_replaces name (keep s kept contents) = str_eq name kept
  step_replaces name (discharge s removed contents found delivered) = false

  unfoldable pub replaces : {s s' : OutboxState} (name : String) → SpoolSteps s s' → Bool
  replaces name (stay s) = false
  replaces name (and_step step steps) = step_replaces name step || replaces name steps
