-- ===== src/Executor/Tests.antt =====
-- Runs of the executors at concrete inputs.
use platform_orchestrator_ru.Base.{
  [], ◌∷◌, ◌++◌, List, ◌≡◌, refl, some, none, ok, true, false, suc, if◌then◌else◌, ltb, List, ◌++◌,
}
use platform_orchestrator_ru.Executor.Remote.{
  World, Delivery, CreateJobCommand, execute_command, execute_envelope, handle_create_job, matches,
  created, has_expired, report, report_created, publish_event_as, event_as,
}
use platform_orchestrator_ru.Executor.Injection.{
  JobGateway, Container, inject_container, common_variables, inject_job_gateway_configuration,
  set_all, set_variable, gateway_volumes, gateway_mounts,
}
use platform_orchestrator_ru.Executor.Standard as Standard
use platform_orchestrator_ru.Executor.Injection.Upsert.{inject_container-env, value_of, names}
use platform_orchestrator_ru.Executor.Remote.Disposition.{
  execute_command-dispositions, dispositions,
}
use platform_orchestrator_ru.Executor.Remote.Created.{execute_command-IsCreated}
use platform_orchestrator_ru.Executor.Standard.{Config, deploy, execute_standard_mode}
use platform_orchestrator_ru.Messaging.{CommandEnvelope}
use platform_orchestrator_ru.Executor.Standard.Phases.{
  IsJustified, execute_standard_mode-IsJustified,
}
use platform_orchestrator_ru.Executor.Scheduling.{Watch, pod, pending}
use platform_orchestrator_ru.Executor.Injection.Upsert.{is_distinct}
use platform_orchestrator_ru.Executor.Polling.Waits.{executed, deliveries, poll-executed}
use platform_orchestrator_ru.Executor.Polling.{
  poll, delivered, gateway_error, context_cancelled, Answer, no_command,
}
use platform_orchestrator_ru.Executor.Remote.Reported.{IsCreated}
use platform_orchestrator_ru.Executor.Remote.Acknowledged.{acknowledges}

abbrev runner_gateway : JobGateway
runner_gateway = record {
  url = "https://gateway";
  org_id = "org";
  runner_id = "runner";
  outbox_pvc = "";
  ca_secret = "ca";
  ca_key = "";
}

abbrev main_container : Container
main_container = record {
  name = "main";
  env = record { name = "ORG_ID"; value = "forged" } ∷ record { name = "HOME"; value = "/" } ∷ [];
  volume_mounts = [];
}

abbrev create_job_envelope : CommandEnvelope
create_job_envelope = record {
  protocol_version = "v1";
  command_id = "command";
  organization_id = "org";
  runner_id = "runner";
  deployment_id = "deployment";
  type = "create-job";
  expires_at = some 7;
  payload = 1 ∷ [];
}

-- A cluster that accepts every job, and a gateway that takes every call.
abbrev cluster : World
cluster = record {
  answer = λ action calls. none;
  creates = λ action calls. none;
  now = λ calls. 5;
  unmarshal_envelope = λ bytes. ok create_job_envelope;
  unmarshal_create_job =
      λ bytes. ok (record { job_id = "job"; namespace = "jobs"; configuration = some bytes });
  job_spec = λ bytes. ok (record { containers = main_container ∷ []; volumes = [] });
  marshal_job_created = λ job_id namespace. 2 ∷ [];
  marshal_runner_error = λ job_id code message retryable. 3 ∷ [];
  protocol_version_v1 = "v1";
  create_job_type = "create-job";
  quote = λ text. text;
}

abbrev first_delivery : Delivery
first_delivery = record { command = 9 ∷ []; receipt = "receipt"; attempt = 1 }

inject_container-env_example :
    value_of "ORG_ID" (inject_container runner_gateway main_container).env ≡ (
      if names "ORG_ID" (common_variables runner_gateway)
      then value_of "ORG_ID" (common_variables runner_gateway)
      else value_of "ORG_ID" main_container.env)
unfolding is_distinct names
inject_container-env_example = inject_container-env runner_gateway main_container "ORG_ID" refl

execute_command-dispositions_example :
    dispositions (execute_command cluster runner_gateway first_delivery []).1
    ≡ suc (dispositions [])
execute_command-dispositions_example =
    execute_command-dispositions cluster runner_gateway first_delivery []

first_delivery-acknowledges :
    acknowledges (execute_command cluster runner_gateway first_delivery []).1 ≡ true
unfolding execute_command execute_envelope handle_create_job created report report_created
    publish_event_as inject_job_gateway_configuration inject_container set_all set_variable
    common_variables gateway_volumes gateway_mounts acknowledges event_as
first_delivery-acknowledges = refl

execute_command-IsCreated_example :
    (envelope : CommandEnvelope) × (command : CreateJobCommand) × (cluster.unmarshal_envelope
        first_delivery.command
      ≡ ok envelope)
    × (matches cluster runner_gateway first_delivery envelope ≡ true)
    × (has_expired cluster runner_gateway first_delivery envelope.expires_at [] ≡ false)
    × (envelope.type ≡ cluster.create_job_type)
    × (cluster.unmarshal_create_job envelope.payload ≡ ok command)
    × IsCreated cluster runner_gateway first_delivery envelope command
        (execute_command cluster runner_gateway first_delivery []).1
execute_command-IsCreated_example =
    execute_command-IsCreated cluster runner_gateway first_delivery first_delivery-acknowledges

abbrev deployment : Config
deployment = record {
  mode = deploy;
  is_observation = false;
  protocol_error = none;
  encrypting_key = "key";
  metadata_key = "metadata";
}

-- A runner whose phases all succeed.
abbrev iac : Standard.World
iac = record {
  answer = λ phase calls. none;
  changes = λ calls. (1, 0, 0);
  outputs = λ calls. ("metadata", "m") ∷ ("url", "u") ∷ [];
  metadata = λ calls. ("node", "m") ∷ [];
  marshal = λ outputs. "outputs";
  encrypted = λ text calls. "sealed";
  observation_result = λ calls. none;
  observes = true;
  cancelled = λ calls. false;
}

execute_standard_mode-IsJustified_example :
    IsJustified iac deployment (execute_standard_mode iac deployment []).1
execute_standard_mode-IsJustified_example = execute_standard_mode-IsJustified iac deployment

-- A job whose pod does not start, while the gateway takes the second report.
abbrev unschedulable : Watch
unschedulable = record {
  check_job_status = λ tick. some (record { succeeded = 0; failed = 0; ready = none });
  get_pod_job = λ tick. pod "pod" pending;
  get_object_warning_events = λ name tick. some ("no node fits" ∷ []);
  publishes = λ message tick. ltb 0 tick;
  stops = λ tick. false;
}

-- A gateway that fails, and then a delivery whose execution fails, and one whose does not.
abbrev answers : List Answer
answers =
    gateway_error false
    ∷ delivered first_delivery (some "conflict")
    ∷ no_command
    ∷ delivered first_delivery none
    ∷ []

poll-executed_example :
    (executed (poll 0 answers) ≡ deliveries answers)
    × (executed (poll 0 (answers ++ context_cancelled ∷ answers)) ≡ deliveries answers)
poll-executed_example =
    poll-executed 0 answers context_cancelled answers (refl, (refl, (refl, (refl, tt)))) refl
