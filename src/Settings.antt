-- ===== src/Settings.antt =====
-- internal/config/config.go: the checks on what envconfig reads from the environment. The environment is
-- a function of the names; envconfig, the validator, uuid and age are parameters.
pub mod Sources
mod Tests
use platform_orchestrator_ru.Base.{
  ◌>>=◌, ◌>>◌, Bool, String, ℤ, Option, true, ◌&&◌, Result, if◌then◌else◌, not, List, false, str_eq,
  ok, fail_if, ℕ, or_fail, ◌∷◌, err, ◌||◌, pos, [], ltb, negsuc,
}

pub data RunnerMode : Type 0 where
  plan_only destroy deploy : RunnerMode
  other_mode : String → RunnerMode

pub record GatewayClientConfiguration : Type 0 where
  pub url : String
  pub ca_file : String
  pub client_cert_file : String
  pub client_key_file : String
  pub outbox_dir : String

pub record StandardModeConfiguration : Type 0 where
  pub org_id : String
  pub runner_id : String
  pub deployment_id : String
  pub deployment_env_uuid : String
  pub mode : RunnerMode
  pub observation_protocol : String
  pub encrypting_key : String
  pub metadata_key : String
  pub iac_code_dir : String
  pub iac_backend : String
  pub encrypting_logs_key : String
  pub deployment_token_value : String
  pub gateway : GatewayClientConfiguration

pub record RemoteModeConfiguration : Type 0 where
  pub org_id : String
  pub runner_id : String
  pub private_key : String
  pub gateway : GatewayClientConfiguration

pub record OutboxModeConfiguration : Type 0 where
  pub organization_id : String
  pub runner_id : String
  pub gateway : GatewayClientConfiguration

-- Whole numbers are those of Go's `int` and `int64`; durations are not checked here.
pub record GatewayModeConfiguration : Type 0 where
  pub port : ℤ
  pub base_path : String
  pub receipt_key : String
  pub runner_token_salt : String
  pub control_plane_url : String
  pub static_organization_id : String
  pub static_runner_id : String
  pub static_public_key_file : String
  pub max_log_bytes : ℤ
  pub nats_url : String

abbrev pub Environment : Type 0
Environment = String → String

pub record SettingsLibrary : Type 0 where
  pub process_standard : Environment → Option StandardModeConfiguration
  pub process_remote : Environment → Option RemoteModeConfiguration
  pub process_gateway : Environment → Option GatewayModeConfiguration
  pub process_outbox : Environment → Option OutboxModeConfiguration
  pub valid_standard : StandardModeConfiguration → Bool
  pub valid_remote : RemoteModeConfiguration → Bool
  pub valid_uuid : String → Bool
  pub valid_recipient : String → Bool

abbrev pub observation_protocol_v1 : String
observation_protocol_v1 = "environment-observation/v1"

unfoldable pub is_plan_only : RunnerMode → Bool
is_plan_only plan_only = true
is_plan_only destroy = false
is_plan_only deploy = false
is_plan_only (other_mode name) = false

unfoldable pub is_observation : StandardModeConfiguration → Bool
is_observation c = is_plan_only c.mode && str_eq c.observation_protocol observation_protocol_v1

unfoldable pub validate_observation_protocol : StandardModeConfiguration → Result (Unit {0})
validate_observation_protocol c =
    if str_eq c.observation_protocol ""
    then ok tt
    else if not (str_eq c.observation_protocol observation_protocol_v1)
    then err "unsupported observation protocol"
    else fail_if (not (is_plan_only c.mode)) "observation protocol requires plan_only mode"

unfoldable pub validate_mode : RunnerMode → Result (Unit {0})
validate_mode plan_only = ok tt
validate_mode destroy = ok tt
validate_mode deploy = ok tt
validate_mode (other_mode name) = err "mode is not supported"

unfoldable pub validate_iac_backend : String → Result (Unit {0})
validate_iac_backend backend =
    fail_if (not (str_eq backend "opentofu" || str_eq backend "terraform"))
      "IAC_BACKEND is not supported"

-- `os.Setenv("IAC_CODE_DIR", os.Getenv("TOFU_CODE_DIR"))` where only the old name is set.
unfoldable pub with_code_dir : Environment → Environment
with_code_dir environment name =
    if str_eq (environment "IAC_CODE_DIR") ""
      && not (str_eq (environment "TOFU_CODE_DIR") "")
      && str_eq name "IAC_CODE_DIR"
    then environment "TOFU_CODE_DIR"
    else environment name

-- `n < m`.
unfoldable pub below : ℤ → ℕ → Bool
below (pos n) m = ltb n m
below (negsuc n) m = true

-- `n > m`.
unfoldable pub above : ℤ → ℕ → Bool
above (pos n) m = ltb m n
above (negsuc n) m = false

unfoldable pub uses_static_key : GatewayModeConfiguration → Bool
uses_static_key c =
    not (str_eq c.static_organization_id "")
    || not (str_eq c.static_runner_id "")
    || not (str_eq c.static_public_key_file "")

unfoldable pub same_bool : Bool → Bool → Bool
same_bool true b = b
same_bool false b = not b

-- The checks after `envconfig.ProcessWith`.
unfoldable pub validate_gateway_mode : GatewayModeConfiguration → Result GatewayModeConfiguration
validate_gateway_mode c = do
  fail_if (str_eq c.nats_url "") "NATS_URL is required"
  fail_if (same_bool (not (str_eq c.control_plane_url "")) (uses_static_key c))
      "configure exactly one gateway public key source"
  fail_if
      (uses_static_key c
        && (str_eq c.static_organization_id ""
            || str_eq c.static_runner_id ""
            || str_eq c.static_public_key_file ""))
      "static gateway authentication requires organization ID, runner ID, and public key file"
  fail_if (below c.port 1 || above c.port 65535) "PORT must be between 1 and 65535"
  fail_if (below c.max_log_bytes 1) "RUNNER_GATEWAY_MAX_LOG_BYTES must be positive"
  ok c

module _ (lib : SettingsLibrary) (environment : Environment) where
  open lib use {
    process_standard, process_remote, process_gateway, process_outbox, valid_standard, valid_remote,
    valid_uuid, valid_recipient,
  }

  unfoldable pub get_standard_mode_configuration : Result StandardModeConfiguration
  get_standard_mode_configuration = do
    c ← or_fail (process_standard (with_code_dir environment)) "envconfig"
    fail_if (not (valid_standard c)) "validator"
    fail_if (str_eq c.gateway.url "") "RUNNER_GATEWAY_URL is required"
    validate_mode c.mode
    validate_observation_protocol c
    validate_iac_backend c.iac_backend
    fail_if (not (valid_uuid c.deployment_id)) "DEPLOYMENT_ID should be a valid uuid"
    fail_if (not (str_eq c.encrypting_key "") && not (valid_recipient c.encrypting_key))
        "ENCRYPTING_KEY is not a valid public recipient"
    ok c

  unfoldable pub with_gateway_url : List String → RemoteModeConfiguration → RemoteModeConfiguration
  with_gateway_url [] c = c
  with_gateway_url (url ∷ overrides) c = if str_eq url "" then c else record {
    org_id = c.org_id;
    runner_id = c.runner_id;
    private_key = c.private_key;
    gateway = record {
      url = url;
      ca_file = c.gateway.ca_file;
      client_cert_file = c.gateway.client_cert_file;
      client_key_file = c.gateway.client_key_file;
      outbox_dir = c.gateway.outbox_dir;
    };
  }

  unfoldable pub get_remote_mode_configuration :
      (gateway_url_overrides : List String) → Result RemoteModeConfiguration
  get_remote_mode_configuration overrides = do
    processed ← or_fail (process_remote environment) "envconfig"
    let c = with_gateway_url overrides processed
    fail_if (not (valid_remote c)) "validator"
    fail_if (str_eq c.gateway.url "") "RUNNER_GATEWAY_URL is required"
    ok c

  unfoldable pub get_gateway_mode_configuration : Result GatewayModeConfiguration
  get_gateway_mode_configuration = do
    c ← or_fail (process_gateway environment) "envconfig"
    validate_gateway_mode c

  unfoldable pub get_outbox_mode_configuration : Result OutboxModeConfiguration
  get_outbox_mode_configuration = do
    c ← or_fail (process_outbox environment) "envconfig"
    fail_if (str_eq c.gateway.url "" || str_eq c.gateway.outbox_dir "")
        "RUNNER_GATEWAY_URL and RUNNER_GATEWAY_OUTBOX_DIR are required"
    ok c
