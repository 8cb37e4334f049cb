-- ===== src/Runner/Factory.antt =====
-- `CreateRunner` of internal/runner/runner_factory.go.
use platform_orchestrator_ru.Base.{◌>>=◌, ◌>>◌, [], Result, fail_if, not, str_eq, ◌||◌, ok}
use platform_orchestrator_ru.GatewayApi.Client.Create.{TlsLibrary, ClientConfig, new_client}
use platform_orchestrator_ru.Settings.{
  StandardModeConfiguration, validate_observation_protocol, validate_mode, is_observation,
}
use platform_orchestrator_ru.Runner.Observe.{BaseRunner}

unfoldable pub client_config_of : StandardModeConfiguration → ClientConfig
client_config_of c = record {
  base_url = c.gateway.url;
  organization_id = c.org_id;
  runner_id = c.runner_id;
  private_key = [];
  ca_file = c.gateway.ca_file;
  client_cert_file = c.gateway.client_cert_file;
  client_key_file = c.gateway.client_key_file;
}

-- The recipient for encryption, and the loader of the bundle, which calls `GetBundle` of the client, are
-- not fields of the runner here.
unfoldable pub create_runner : TlsLibrary → StandardModeConfiguration → Result BaseRunner
create_runner lib c = do
  validate_observation_protocol c
  validate_mode c.mode
  client ← new_client lib (client_config_of c)
  fail_if (not (str_eq c.iac_backend "terraform" || str_eq c.iac_backend "opentofu"))
      "unsupported IaC backend"
  ok (record { observation_only = is_observation c; tool = c.iac_backend; folder = c.iac_code_dir })
