-- ===== src/Executor/Injection.antt =====
-- `injectJobGatewayConfiguration` of internal/executor/remote_executor.go. A job specification is
-- given by the parts that the function reads or writes.
pub mod Upsert
use platform_orchestrator_ru.Base.{
  String, List, [], ◌∷◌, ◌++◌, map, Bool, not, str_eq, if◌then◌else◌, false, true,
}

pub record EnvVar : Type 0 where
  pub name : String
  pub value : String

pub record VolumeMount : Type 0 where
  pub name : String
  pub mount_path : String
  pub read_only : Bool

pub data VolumeSource : Type 0 where
  persistent_volume_claim : (claim_name : String) → VolumeSource
  secret : (secret_name key path : String) → VolumeSource

pub record Volume : Type 0 where
  pub name : String
  pub source : VolumeSource

pub record Container : Type 0 where
  pub name : String
  pub env : List EnvVar
  pub volume_mounts : List VolumeMount

pub record JobSpec : Type 0 where
  pub containers : List Container
  pub volumes : List Volume

-- The gateway's configuration of the runner, and the variables of its own environment.
pub record JobGateway : Type 0 where
  pub url : String
  pub org_id : String
  pub runner_id : String
  pub outbox_pvc : String
  pub ca_secret : String
  pub ca_key : String

-- The first entry with the variable's name is replaced; without one the variable is appended.
unfoldable pub set_variable : List EnvVar → EnvVar → List EnvVar
set_variable [] variable = variable ∷ []
set_variable (existing ∷ rest) variable =
    let others = set_variable rest variable in
    if str_eq existing.name variable.name then variable ∷ rest else existing ∷ others

unfoldable pub set_all : List EnvVar → List EnvVar → List EnvVar
set_all env [] = env
set_all env (variable ∷ rest) = set_all (set_variable env variable) rest

abbrev pub when {ℓ} : {A : Type ℓ} → Bool → List A → List A
when test xs = if test then xs else []

abbrev pub outbox_dir : String
outbox_dir = "/var/lib/platform-orchestrator-runner/outbox"

unfoldable pub common_variables : JobGateway → List EnvVar
common_variables cfg =
    record { name = "RUNNER_GATEWAY_URL"; value = cfg.url }
      ∷ record { name = "ORG_ID"; value = cfg.org_id }
      ∷ record { name = "RUNNER_ID"; value = cfg.runner_id }
      ∷ when (not (str_eq cfg.outbox_pvc ""))
          (record { name = "RUNNER_GATEWAY_OUTBOX_DIR"; value = outbox_dir } ∷ [])
    ++ when (not (str_eq cfg.ca_secret ""))
        (record { name = "RUNNER_GATEWAY_CA_FILE"; value = "/etc/runner-gateway/ca.crt" } ∷ [])

unfoldable pub gateway_volumes : JobGateway → List Volume
gateway_volumes cfg =
    when (not (str_eq cfg.outbox_pvc "")) (
      record { name = "runner-gateway-outbox"; source = persistent_volume_claim cfg.outbox_pvc }
      ∷ [])
    ++ when (not (str_eq cfg.ca_secret "")) (
        record {
          name = "runner-gateway-ca";
          source =
              secret cfg.ca_secret (if str_eq cfg.ca_key "" then "ca.crt" else cfg.ca_key) "ca.crt";
        }
        ∷ [])

unfoldable pub gateway_mounts : JobGateway → List VolumeMount
gateway_mounts cfg =
    when (not (str_eq cfg.outbox_pvc ""))
      (record { name = "runner-gateway-outbox"; mount_path = outbox_dir; read_only = false } ∷ [])
    ++ when (not (str_eq cfg.ca_secret "")) (
        record { name = "runner-gateway-ca"; mount_path = "/etc/runner-gateway"; read_only = true }
        ∷ [])

unfoldable pub inject_container : JobGateway → Container → Container
inject_container cfg container = record {
  name = container.name;
  env = set_all container.env (common_variables cfg);
  volume_mounts = container.volume_mounts ++ gateway_mounts cfg;
}

unfoldable pub inject_job_gateway_configuration : JobGateway → JobSpec → JobSpec
inject_job_gateway_configuration cfg spec = if str_eq cfg.url "" then spec else record {
  containers = map (inject_container cfg) spec.containers;
  volumes = spec.volumes ++ gateway_volumes cfg;
}
