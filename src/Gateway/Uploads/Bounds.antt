-- ===== src/Gateway/Uploads/Bounds.antt =====
-- The size limits of uploads (internal/gateway/server.go).
use platform_orchestrator_ru.Base.{
  ◌+◌, some, length, ◌∷◌, [], if◌then◌else◌, none, ◌<◌, ◌^◌, String, str_append, Option,
}
use platform_orchestrator_ru.Gateway.Http.{
  World, Request, Response, Trace, publish, write_header, write_error, delete_log, put_log,
}
use platform_orchestrator_ru.Messaging.{Message}
use platform_orchestrator_ru.Gateway.Authentication.{ServerLibrary, Server}
use platform_orchestrator_ru.Gateway.Uploads.{log_key}

module _ (w : World) (lib : ServerLibrary) (server : Server) (request : Request)
    (fits : server.max_log_bytes + 1 < 2 ^ 63) where
  -- The event about stored logs, as a message on its subject.
  abbrev pub log_object_ready : (subject : String) → Message
  log_object_ready subject =
      let now = w.time (put_log (log_key w lib server request) request.body ∷ []) in
      record {
        id = str_append request.deployment_id ":log-object-ready";
        subject = subject;
        payload = lib.messaging.marshal_event (record {
          protocol_version = lib.messaging.protocol_version_v1;
          event_id = str_append request.deployment_id ":log-object-ready";
          command_id = "";
          organization_id = request.organization_id;
          runner_id = request.runner_id;
          deployment_id = request.deployment_id;
          type = "log-object-ready";
          created_at = now;
          payload =
              lib.log_reference "PO_RUNNER_LOGS"
                (str_append request.environment_id (str_append "/" request.deployment_id))
                (length request.body) (lib.sha256_hex request.body);
        });
        created_at = now;
        expires_at = none;
      }

  -- How an upload within the limit ends: its event is published on its subject, if it has one.
  abbrev pub referenced : Option String → Response × Trace
  referenced none = (
    write_error 400 "runner identity is invalid",
    delete_log (log_key w lib server request)
        ∷ put_log (log_key w lib server request) request.body
        ∷ [],
  )
  referenced (some subject) =
      let before : Trace = put_log (log_key w lib server request) request.body ∷ [] in
      let call = publish (log_object_ready subject) in
      (
        if w.persists call before
            then write_header 202
            else write_error 503 "persist log reference",
        call ∷ before,
      )
