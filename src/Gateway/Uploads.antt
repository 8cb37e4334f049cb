-- ===== src/Gateway/Uploads.antt =====
-- The handlers of events, results, logs and bundles in internal/gateway/server.go.
pub mod Bounds
use platform_orchestrator_ru.Base.{
  ℕ, ◌+◌, String, Bytes, List, ◌∷◌, Option, none, some, Bool, true, false, not, ◌&&◌, ◌||◌, ltb,
  leb, ◌^◌, length, take, str_eq, str_append, is_some, if◌then◌else◌, suc,
}
use platform_orchestrator_ru.Messaging.{Message, EventEnvelope}
use platform_orchestrator_ru.Gateway.Http.{
  World, Request, Response, Handler, Trace, Call, publish, put_log, delete_log, get_bundle, Step,
  next, done, ◌>>=◌, ◌>>◌, require, require_some, reply, invoke, exceeds, write_header, write_error,
  Body, stream,
}
use platform_orchestrator_ru.Gateway.Authentication.{
  ServerLibrary, Server, authenticate_agent, authenticate_deployment,
}
use platform_orchestrator_ru.Gateway.BoundedReader.{BoundedReader, read_all}

abbrev pub max_result_bytes : ℕ
max_result_bytes = 4_194_304

abbrev pub runner_logs_bucket : String
runner_logs_bucket = "PO_RUNNER_LOGS"

module _ (w : World) (lib : ServerLibrary) (server : Server) (request : Request) where
  abbrev names_runner : EventEnvelope → Bool
  names_runner event =
      not (str_eq event.event_id "")
      && str_eq event.organization_id request.organization_id
      && str_eq event.runner_id request.runner_id

  unfoldable pub post_event : Handler Response
  post_event = do
    authenticate_agent w lib server request
    require (not (exceeds request max_result_bytes))
        (write_error 400 "runner event exceeds the configured limit")
    event ←
        require_some (lib.messaging.unmarshal_event request.body)
          (write_error 400 "runner event identity or payload is invalid")
    require (names_runner event) (write_error 400 "runner event identity or payload is invalid")
    subject ←
        require_some
          (lib.messaging.runner_event_subject request.organization_id request.runner_id event.type)
          (write_error 400 "runner event type is invalid")
    invoke w
        (publish (record {
          id = event.event_id;
          subject = subject;
          payload = request.body;
          created_at = event.created_at;
          expires_at = none;
        }))
        (write_error 503 "persist runner event")
    reply (write_header 202)

  -- The event envelope that the gateway makes for a deployment, named after its type.
  unfoldable pub deployment_event : String → ℕ → Bytes → EventEnvelope
  deployment_event type now payload = record {
    protocol_version = lib.messaging.protocol_version_v1;
    event_id = str_append request.deployment_id (str_append ":" type);
    command_id = "";
    organization_id = request.organization_id;
    runner_id = request.runner_id;
    deployment_id = request.deployment_id;
    type = type;
    created_at = now;
    payload = payload;
  }

  unfoldable pub event_message : EventEnvelope → String → ℕ → Message
  event_message event subject now = record {
    id = event.event_id;
    subject = subject;
    payload = lib.messaging.marshal_event event;
    created_at = now;
    expires_at = none;
  }

  unfoldable pub post_results : Handler Response
  post_results = do
    authenticate_deployment w lib server request
    require (not (exceeds request max_result_bytes || not (lib.valid_json request.body)))
        (write_error 400 "deployment result must be valid bounded JSON")
    λ calls.
        (do
          subject ←
              require_some
                (lib.messaging.runner_event_subject request.organization_id request.runner_id
                  "deployment-result")
                (write_error 400 "runner identity is invalid")
          invoke w
              (publish (
                event_message (deployment_event "deployment-result" (w.time calls) request.body)
                  subject (w.time calls)))
              (write_error 503 "persist deployment result")
          reply (write_header 202))
          calls

  unfoldable pub serve_bundle : Handler Response
  serve_bundle = do
    authenticate_deployment w lib server request
    λ calls.
        let key = str_append request.organization_id (str_append "/" request.deployment_id) in
        (require_some (w.bundle key calls) (write_error 404 "deployment bundle is not available")
            >>= λ bundle. reply (record { status = 200; body = stream bundle }))
          (get_bundle key ∷ calls)

  -- `s.maxLogBytes + 1` on an `int64`: at its maximum the sum is negative, which the reader takes as zero.
  unfoldable pub log_limit : ℕ
  log_limit = if leb (2 ^ 63) (server.max_log_bytes + 1) then 0 else server.max_log_bytes + 1

  -- The body as `boundedReader` lets it through, with one byte more than the limit, and whether the
  -- reader says that the limit was exceeded.
  unfoldable pub limited : Bytes × BoundedReader
  limited =
      read_all (suc (length request.body)) w.read_sizes
        (record { source = request.body; remaining = log_limit; exceeded = false })

  abbrev pub log_key : String
  log_key = str_append request.environment_id (str_append "/" request.deployment_id)

  -- The end of `putLogs`, once the logs of the given size are stored: the event that refers to them.
  unfoldable pub publish_reference : ℕ → Handler Response
  publish_reference size calls =
      let payload = lib.log_reference runner_logs_bucket log_key size (lib.sha256_hex limited.0) in
      let event = deployment_event "log-object-ready" (w.time calls) payload in
      elim (lib.messaging.runner_event_subject request.organization_id request.runner_id
        "log-object-ready") [
          | none ↦ (done (write_error 400 "runner identity is invalid"), delete_log log_key ∷ calls)
          | some subject ↦
              (invoke w (publish (event_message event subject (w.time calls)))
                    (write_error 503 "persist log reference")
                  >> reply (write_header 202))
                calls
        ]

  abbrev pub too_large : ℕ → Bool
  too_large size = ltb server.max_log_bytes size || limited.1.exceeded

  -- After the backend has read the body: `size` is what it says it stored, `none` on an error.
  unfoldable pub stored : Option ℕ → Handler Response
  stored none calls = (done (write_error 503 "persist encrypted logs"), calls)
  stored (some size) calls =
      if too_large size
      then (
        done (write_error 413 "encrypted logs exceed the configured limit"),
        delete_log log_key ∷ calls,
      )
      else publish_reference size calls

  unfoldable pub put_logs : Handler Response
  put_logs = do
    authenticate_deployment w lib server request
    require (w.is_uuid request.environment_id) (write_error 400 "environment ID must be a UUID")
    λ calls. stored (w.stored_size log_key calls) (put_log log_key limited.0 ∷ calls)
