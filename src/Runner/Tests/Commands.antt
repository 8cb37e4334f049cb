-- ===== src/Runner/Tests/Commands.antt =====
-- Runs of a runner's commands at concrete inputs.
use platform_orchestrator_ru.Settings as Settings
use platform_orchestrator_ru.Runner.Tests.{observed_world, plan_library, BaseRunner, ◌≡◌}
use platform_orchestrator_ru.Settings.{
  StandardModeConfiguration, plan_only, validate_observation_protocol, validate_mode, is_plan_only,
}
use platform_orchestrator_ru.GatewayApi.Client.Create.{
  TlsLibrary, new_client, gateway_tls_config, check_ca, trim_right_slashes,
}
use platform_orchestrator_ru.Runner.Observe.{BaseRunner, observe}
use platform_orchestrator_ru.Runner.Factory.{create_runner, client_config_of}
use platform_orchestrator_ru.Runner.Artifacts.{ArtifactFiles, not_exist, without_prefix}
use platform_orchestrator_ru.Runner.Commands.{run_apply, guarded, with_changes}
use platform_orchestrator_ru.Runner.Outputs.{
  compact, compact_unknowns, as_object, as_array, set_compacted, array_value, set_field, no_items,
  get_field, item, unless_unknown, bool_value, object_value, field, text_value, no_fields,
  known_after_apply,
}
use platform_orchestrator_ru.Base.{
  ◌≡◌, some, true, false, if◌then◌else◌, none, is_nil, [], ◌⊎◌, ◌∷◌, refl, ok,
}
use platform_orchestrator_ru.Runner.Commands.Guards.{IsInert, create_runner-IsInert}
use platform_orchestrator_ru.Diode.Ledger.{split_lines}
use platform_orchestrator_ru.Runner.Diagnostics.{
  Diagnostic, scan_lines, parse_error, CommandWorld, summary_in, error_in_lines, run_command,
  error_in_line, scan_outputs, or_else, done, has_text, runner_error, entity, entity_in, in_modules,
  module_of, split_on, first_word, entity_id_of,
}

abbrev observing_configuration : StandardModeConfiguration
observing_configuration = record {
  org_id = "org";
  runner_id = "runner";
  deployment_id = "id";
  deployment_env_uuid = "";
  mode = plan_only;
  observation_protocol = "environment-observation/v1";
  encrypting_key = "";
  metadata_key = "metadata";
  iac_code_dir = "/iac";
  iac_backend = "opentofu";
  encrypting_logs_key = "";
  deployment_token_value = "token";
  gateway = record {
    url = "https://gateway/";
    ca_file = "";
    client_cert_file = "";
    client_key_file = "";
    outbox_dir = "";
  };
}

abbrev tls_library : TlsLibrary
tls_library = record {
  parse_url = λ text. some (record { scheme = "https"; host = "gateway"; text = text });
  read_ca = λ file. none;
  has_certificate = λ bytes. false;
  loads_key_pair = λ cert key. false;
}

abbrev created_runner : BaseRunner
created_runner = record { observation_only = true; tool = "opentofu"; folder = "/iac" }

runner_is_created : create_runner tls_library observing_configuration ≡ ok created_runner
unfolding create_runner validate_observation_protocol validate_mode is_plan_only
    Settings.is_observation new_client client_config_of gateway_tls_config check_ca
    trim_right_slashes
runner_is_created = refl

abbrev no_files : ArtifactFiles
no_files = record {
  manifest_file = not_exist;
  modules_file = not_exist;
  unmarshal_manifest = λ bytes. none;
  unmarshal_modules = λ bytes. none;
  file_url = λ path. path;
  is_directory = λ path. false;
  join_path = λ a b. b;
}

abbrev diagnostic : Diagnostic
diagnostic = record {
  is_error = true;
  summary = "Invalid";
  detail = "";
  snippet_context = some "resource \"db\"";
  snippet_code = "code";
  range_filename = some "modules/db/1.0/main.tf";
}

-- Lines that begin with 1 are diagnostics and those with a brace are summaries.
abbrev command_world : CommandWorld
command_world = record {
  unmarshal_diagnostic = λ line. if is_nil line then none else some diagnostic;
  unmarshal_summary = λ line. some (record { added = 1; changed = 2; imported = 0; removed = 3 });
  unmarshal_output_changes = λ bytes. some [];
  unmarshal_outputs = λ bytes. some [];
  unquote = λ word. some "db";
  trim_space = λ text. text;
  run_process = λ history arguments. record { output = 49 ∷ 10 ∷ 123 ∷ 125 ∷ []; failure = none };
  artifact_files = λ history. no_files;
}

abbrev ordinary_runner : BaseRunner
ordinary_runner = record { observation_only = false; tool = "terraform"; folder = "/iac" }

applied_changes :
    (run_apply command_world ordinary_runner []).outcome
    ≡ done (record { added = 1; changed = 2; imported = 0; removed = 3 })
unfolding run_apply guarded run_command with_changes scan_outputs scan_lines summary_in split_lines
applied_changes = refl

entity_of_error :
    parse_error command_world "plan" (49 ∷ 10 ∷ [])
    ≡ some (record {
      action = "plan";
      summary = "Invalid";
      detail = "";
      entity_type = "module";
      entity_id = "db";
      entity_version = "1.0";
      code_hint = "code";
    })
unfolding parse_error error_in_lines error_in_line or_else has_text runner_error entity entity_in
    in_modules without_prefix module_of split_on first_word entity_id_of split_lines
entity_of_error = refl

unknown_output :
    compact (record {
      actions = "update" ∷ [];
      after = object_value (field "a" (text_value "x") no_fields);
      after_unknown = object_value (field "b" (bool_value true) no_fields);
      after_sensitive = false;
    })
    ≡ some (object_value (field "a" (text_value "x") (field "b" known_after_apply no_fields)))
unfolding compact compact_unknowns as_object set_compacted set_field get_field unless_unknown
unknown_output = refl

-- A slice of unknown items that is longer than the slice of values is a panic.
longer_unknown :
    compact_unknowns (array_value no_items) (array_value (item (bool_value true) no_items)) ≡ none
unfolding compact_unknowns as_array
longer_unknown = refl

create_runner-IsInert_example :
    ((Settings.is_observation observing_configuration ≡ true)
      × IsInert command_world created_runner [])
    ⊎ ((Settings.is_observation observing_configuration ≡ false)
        × ((observe observed_world plan_library created_runner).steps ≡ []))
create_runner-IsInert_example =
    create_runner-IsInert tls_library observing_configuration created_runner command_world
      observed_world plan_library [] runner_is_created
