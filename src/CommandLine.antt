-- ===== src/CommandLine.antt =====
-- cmd/runner/main.go: the choice of the mode, the results and logs of the standard mode, the key of the
-- gateway and the flusher of the outbox. Logging, signals and the servers that are started are left out.
pub mod Kept
mod Tests
use platform_orchestrator_ru.Base.{
  ◌>>=◌, ◌>>◌, String, List, [], ◌∷◌, Option, none, some, Result, Bytes, ℕ, if◌then◌else◌, err,
  Bool, fail_if, str_eq, ok, length, not, ◌==◌, or_fail, suc, zero,
}
use platform_orchestrator_ru.GatewayApi.Client.Create.{TlsLibrary, ClientConfig, new_client}
use platform_orchestrator_ru.Settings.{StandardModeConfiguration, OutboxModeConfiguration}
use platform_orchestrator_ru.GatewayApi.Outbox.{
  OutboxLibrary, OutboxState, Returned, flush_outbox, returned, with_sent, post_results_or_store,
  put_logs_or_store,
}
use platform_orchestrator_ru.GatewayApi.Client.{Reply, Client, send_results, send_logs}

pub data StartMode : Type 0 where
  standard_mode : StartMode
  remote_mode : (gateway_url : String) → StartMode
  diode_export_mode diode_import_mode outbox_flush_mode gateway_mode : StartMode

-- The mode of the flag `--gateway-url` and the positional arguments.
unfoldable pub named_mode : (gateway_url mode : String) → Result StartMode
named_mode gateway_url mode =
    if str_eq mode "standard"
    then fail_if (not (str_eq gateway_url ""))
        "standard mode does not allow --gateway-url parameter"
      >> ok standard_mode
    else if str_eq mode "remote"
    then ok (remote_mode gateway_url)
    else if str_eq mode "diode-export"
    then ok diode_export_mode
    else if str_eq mode "diode-import"
    then ok diode_import_mode
    else if str_eq mode "outbox-flush"
    then ok outbox_flush_mode
    else if str_eq mode "gateway"
    then ok gateway_mode
    else err "invalid mode"

unfoldable pub select_mode : (gateway_url : String) → List String → Result StartMode
select_mode gateway_url [] = named_mode gateway_url "standard"
select_mode gateway_url (mode ∷ []) = named_mode gateway_url mode
select_mode gateway_url (first ∷ second ∷ rest) = err "invalid number of positional arguments"

-- The error of the standard mode: that of the results before that of the execution.
unfoldable pub standard_mode_error :
    (result_error standard_error : Result (Unit {0})) → Result (Unit {0})
standard_mode_error (err message) standard_error = err "failed to publish deployment results"
standard_mode_error (ok _) (err message) = err "failed to execute standard mode"
standard_mode_error (ok _) (ok _) = ok tt

unfoldable pub exit_code : Result (Unit {0}) → ℕ
exit_code (err message) = 1
exit_code (ok _) = 0

-- `base64.RawURLEncoding` and then `base64.StdEncoding`.
unfoldable pub decode_gateway_key :
    (raw_url standard : String → Option Bytes) → String → Result Bytes
decode_gateway_key raw_url standard encoded = first_of (raw_url encoded) (standard encoded)
  where
    checked : Bytes → Result Bytes
    checked key =
        if length key == 32
        then ok key
        else err "RUNNER_GATEWAY_RECEIPT_KEY must decode to exactly 32 bytes"

    first_of : Option Bytes → Option Bytes → Result Bytes
    first_of (some key) other = checked key
    first_of none (some key) = checked key
    first_of none none = err "RUNNER_GATEWAY_RECEIPT_KEY must be base64 encoded"

unfoldable pub standard_client_config : StandardModeConfiguration → ClientConfig
standard_client_config c = record {
  base_url = c.gateway.url;
  organization_id = c.org_id;
  runner_id = c.runner_id;
  private_key = [];
  ca_file = c.gateway.ca_file;
  client_cert_file = c.gateway.client_cert_file;
  client_key_file = c.gateway.client_key_file;
}

unfoldable pub outbox_client_config : OutboxModeConfiguration → ClientConfig
outbox_client_config c = record {
  base_url = c.gateway.url;
  organization_id = c.organization_id;
  runner_id = c.runner_id;
  private_key = [];
  ca_file = c.gateway.ca_file;
  client_cert_file = c.gateway.client_cert_file;
  client_key_file = c.gateway.client_key_file;
}

-- What the program calls: the outbox, the files of TLS, `os.MkdirAll` of the spool's directory,
-- `strings.TrimSpace`, and the encryption of the logs under their key.
pub record ProgramLibrary : Type 0 where
  pub outbox_library : OutboxLibrary
  pub tls : TlsLibrary
  pub makes_directory : String → Bool
  pub trim_space : String → String
  pub encrypt_logs : String → Bytes → Option Bytes

module _ (lib : ProgramLibrary) where
  open lib use {outbox_library, tls, makes_directory, trim_space, encrypt_logs}

  -- `NewOutbox` of internal/gatewayapi/outbox.go, for a client.
  unfoldable pub new_outbox : (directory : String) → Result (Unit {0})
  new_outbox directory = do
    fail_if (str_eq (trim_space directory) "") "outbox directory and gateway client are required"
    fail_if (not (makes_directory directory)) "create gateway outbox"

  -- `if err != nil { return err }`, for calls that sent and stored nothing.
  unfoldable pub or_give_up : {A : Type 0} → Result A → OutboxState → (A → Returned) → Returned
  or_give_up (err message) s k = returned (err message) s
  or_give_up (ok a) s k = k a

  -- A call of the client alone, as a call that leaves the files as they are.
  unfoldable pub without_outbox : Reply (Unit {0}) → OutboxState → Returned
  without_outbox reply s = returned reply.value (with_sent s reply.sent)

  unfoldable pub publish_deployment_result_to_gateway :
      StandardModeConfiguration → (result : Option Bytes) → OutboxState → Returned
  publish_deployment_result_to_gateway c result s =
      or_give_up (new_client tls (standard_client_config c)) s λ client.
        if str_eq c.gateway.outbox_dir ""
        then without_outbox
            (send_results outbox_library.client_library client c.deployment_id
              c.deployment_token_value result s.sent)
            s
        else or_give_up (new_outbox c.gateway.outbox_dir) s λ _.
          post_results_or_store outbox_library client c.deployment_id c.deployment_token_value
            result s

  -- The upload, for a configuration with a key for the logs.
  unfoldable pub upload_logs : StandardModeConfiguration → Bytes → OutboxState → Returned
  upload_logs c logs s =
      or_give_up
        (fail_if (str_eq c.deployment_env_uuid "")
          "DEPLOYMENT_ENV_UUID is required to upload encrypted logs")
        s
        λ _.
          or_give_up (or_fail (encrypt_logs c.encrypting_logs_key logs) "encrypt logs") s
            λ encrypted. or_give_up (new_client tls (standard_client_config c)) s λ client.
              if str_eq c.gateway.outbox_dir ""
              then without_outbox
                  (send_logs outbox_library.client_library client c.deployment_env_uuid
                    c.deployment_id c.deployment_token_value encrypted s.sent)
                  s
              else or_give_up (new_outbox c.gateway.outbox_dir) s λ _.
                put_logs_or_store outbox_library client c.deployment_env_uuid c.deployment_id
                  c.deployment_token_value encrypted s

  -- `none` where no logs are uploaded.
  unfoldable pub upload_logs_to_gateway :
      StandardModeConfiguration → Option (Bytes → OutboxState → Returned)
  upload_logs_to_gateway c = if str_eq c.encrypting_logs_key "" then none else some (upload_logs c)

  -- The loop until the context is done, after a number of ticks; an error of Flush is logged only.
  unfoldable pub flush_ticks : Client → (ticks : ℕ) → OutboxState → OutboxState
  flush_ticks client zero s = (flush_outbox outbox_library client s).after
  flush_ticks client (suc ticks) s =
      flush_ticks client ticks (flush_outbox outbox_library client s).after

  unfoldable pub run_outbox_flusher : OutboxModeConfiguration → (ticks : ℕ) → OutboxState → Returned
  run_outbox_flusher c ticks s = or_give_up (new_client tls (outbox_client_config c)) s λ client.
      or_give_up (new_outbox c.gateway.outbox_dir) s
        λ _. returned (err "context canceled") (flush_ticks client ticks s)
