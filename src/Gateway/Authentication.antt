-- ===== src/Gateway/Authentication.antt =====
-- `authenticateAgent`, `authenticateDeployment` and `deploymentToken` of internal/gateway/server.go.
use platform_orchestrator_ru.Base.{
  ℕ, ℤ, String, Bytes, List, [], ◌∷◌, Option, none, some, Bool, true, false, is_some, is_ok, str_eq,
  str_append,
}
use platform_orchestrator_ru.Messaging.{MessagingLibrary}
use platform_orchestrator_ru.GatewayApi.Token.{TokenLibrary, verify_agent_token}
use platform_orchestrator_ru.Gateway.Http.{
  World, Request, Handler, ◌>>=◌, ◌>>◌, require, require_some, write_error,
}
use platform_orchestrator_ru.Gateway.Receipt.{ReceiptLibrary, Aead}

pub record RetryRequest : Type 0 where
  pub receipt : String
  pub delay_seconds : ℤ

pub record RejectRequest : Type 0 where
  pub receipt : String
  pub reason : String

-- The libraries that the server calls, and the shapes of its JSON bodies.
pub record ServerLibrary : Type 0 where
  pub tokens : TokenLibrary
  pub messaging : MessagingLibrary
  pub receipts : ReceiptLibrary
  pub sha256_url : String → String
  pub sha256_hex : Bytes → String
  pub decode_receipt_request : Bytes → Option String
  pub decode_retry_request : Bytes → Option RetryRequest
  pub decode_reject_request : Bytes → Option RejectRequest
  pub valid_json : Bytes → Bool
  pub log_reference : String → String → ℕ → String → Bytes

pub record Server : Type 0 where
  pub receipts : Aead
  pub runner_token_salt : String
  pub max_log_bytes : ℕ

-- `fmt.Fprint` of three strings puts nothing between them.
unfoldable pub deployment_token : ServerLibrary → String → String → String → String
deployment_token lib secret organization_id deployment_id =
    lib.sha256_url (str_append secret (str_append organization_id deployment_id))

-- The second field of the header, if the first is the Bearer scheme.
unfoldable pub bearer : World → List String → Option String
bearer w (scheme ∷ token ∷ []) = if_bearer (w.equal_fold scheme "Bearer")
  where
    if_bearer : Bool → Option String
    if_bearer true = some token
    if_bearer false = none
bearer w _ = none

-- Whether the runner's key resolves and the token verifies under it.
unfoldable pub authorized : World → ServerLibrary → String → String → String → Bool
authorized w lib token organization_id runner_id = elim (w.resolve organization_id runner_id) [
  | none ↦ false
  | some key ↦ is_ok (verify_agent_token lib.tokens token key organization_id runner_id w.auth_time)
]

module _ (w : World) (lib : ServerLibrary) (server : Server) (request : Request) where
  unfoldable pub authenticate_agent : Handler (Unit {0})
  authenticate_agent = do
    require
        (is_some (lib.messaging.runner_command_subject request.organization_id request.runner_id))
        (write_error 400 "runner identity is invalid")
    token ←
        require_some (bearer w (w.fields request.authorization))
          (write_error 401 "Bearer authorization is required")
    require (authorized w lib token request.organization_id request.runner_id)
        (write_error 401 "runner authorization is invalid")

  unfoldable pub authenticate_deployment : Handler (Unit {0})
  authenticate_deployment = do
    require
        (is_some (
          lib.messaging.runner_event_subject request.organization_id request.runner_id
            "deployment-result"))
        (write_error 400 "runner identity is invalid")
    require (w.is_uuid request.deployment_id) (write_error 400 "deployment ID must be a UUID")
    require
        (str_eq
          (deployment_token lib server.runner_token_salt request.organization_id
            request.deployment_id)
          request.deployment_token)
        (write_error 401 "deployment authorization is invalid")
