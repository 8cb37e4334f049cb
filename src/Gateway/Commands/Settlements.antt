-- ===== src/Gateway/Commands/Settlements.antt =====
-- What the three handlers that settle a delivery do, on every branch (internal/gateway/server.go).
use platform_orchestrator_ru.Base.{◌⊎◌}
use platform_orchestrator_ru.Gateway.Http.{World, Request, Trace, serve}
use platform_orchestrator_ru.Gateway.Authentication.{ServerLibrary, Server}
use platform_orchestrator_ru.Gateway.Commands.Settle.{
  IsRefused, IsSettled, CarriesAcknowledgement, CarriesRetry, CarriesRejection,
  acknowledge_command-settles, retry_command-settles, reject_command-settles,
}
use platform_orchestrator_ru.Gateway.Commands.{acknowledge_command, retry_command, reject_command}

-- Acknowledging, retrying and rejecting make no backend call and answer 400 or 401, or make exactly one:
-- it acknowledges, retries or rejects the delivery whose valid receipt the request carries, retrying
-- after the delay of at most 60 seconds that it asks for and rejecting with its reason of 1 to 4096
-- bytes, and the answer is 204 or, if the backend fails, 503.
pub commands_settle :
    (w : World) (lib : ServerLibrary) (server : Server) (request : Request) (calls : Trace)
    → (IsRefused calls (serve (acknowledge_command w lib server request) calls)
        ⊎ IsSettled w lib server request calls
            (CarriesAcknowledgement w lib server request calls)
            (serve (acknowledge_command w lib server request) calls))
      × (IsRefused calls (serve (retry_command w lib server request) calls)
          ⊎ IsSettled w lib server request calls
              (CarriesRetry w lib server request calls)
              (serve (retry_command w lib server request) calls))
      × (IsRefused calls (serve (reject_command w lib server request) calls)
          ⊎ IsSettled w lib server request calls
              (CarriesRejection w lib server request calls)
              (serve (reject_command w lib server request) calls))
commands_settle w lib server request calls = (
  acknowledge_command-settles w lib server request calls,
  retry_command-settles w lib server request calls,
  reject_command-settles w lib server request calls,
)
