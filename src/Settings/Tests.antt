-- ===== src/Settings/Tests.antt =====
-- Configurations at concrete inputs.
use platform_orchestrator_ru.Settings.{
  GatewayModeConfiguration, GatewayClientConfiguration, StandardModeConfiguration, SettingsLibrary,
  get_standard_mode_configuration, get_gateway_mode_configuration, pos, plan_only, validate_mode,
  validate_observation_protocol, validate_iac_backend, is_plan_only, with_code_dir,
}
use platform_orchestrator_ru.Base.{pos, some, ◌≡◌, none, ok, true, ◌↔◌, refl}
use platform_orchestrator_ru.Settings.Sources.{IsUsable, get_gateway_mode_configuration_iff}

abbrev static_gateway : GatewayModeConfiguration
static_gateway = record {
  port = pos 8080;
  base_path = "/runner-gateway";
  receipt_key = "key";
  runner_token_salt = "salt";
  control_plane_url = "";
  static_organization_id = "org";
  static_runner_id = "runner";
  static_public_key_file = "/key.pem";
  max_log_bytes = pos 16777216;
  nats_url = "nats://nats";
}

abbrev edge_gateway : GatewayClientConfiguration
edge_gateway = record {
  url = "https://gateway";
  ca_file = "";
  client_cert_file = "";
  client_key_file = "";
  outbox_dir = "";
}

abbrev observing : StandardModeConfiguration
observing = record {
  org_id = "org";
  runner_id = "runner";
  deployment_id = "id";
  deployment_env_uuid = "";
  mode = plan_only;
  observation_protocol = "environment-observation/v1";
  encrypting_key = "";
  metadata_key = "metadata";
  iac_code_dir = "/iac";
  iac_backend = "opentofu";
  encrypting_logs_key = "";
  deployment_token_value = "token";
  gateway = edge_gateway;
}

abbrev settings_library : SettingsLibrary
settings_library = record {
  process_standard = λ environment. some observing;
  process_remote = λ environment. none;
  process_gateway = λ environment. some static_gateway;
  process_outbox = λ environment. none;
  valid_standard = λ c. true;
  valid_remote = λ c. true;
  valid_uuid = λ id. true;
  valid_recipient = λ key. true;
}

observing_accepted : get_standard_mode_configuration settings_library (λ name. "") ≡ ok observing
unfolding get_standard_mode_configuration validate_mode validate_observation_protocol
    validate_iac_backend is_plan_only with_code_dir
observing_accepted = refl

get_gateway_mode_configuration_iff_example :
    (get_gateway_mode_configuration settings_library (λ name. "") ≡ ok static_gateway) ↔ (
      (settings_library.process_gateway (λ name. "") ≡ some static_gateway)
      × IsUsable static_gateway)
get_gateway_mode_configuration_iff_example =
    get_gateway_mode_configuration_iff settings_library (λ name. "") static_gateway
