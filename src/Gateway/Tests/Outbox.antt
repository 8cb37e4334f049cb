-- ===== src/Gateway/Tests/Outbox.antt =====
-- Runs of the gateway's client and outbox at concrete inputs.
use platform_orchestrator_ru.Settings as Settings
use platform_orchestrator_ru.Gateway.Tests.{tokens}
use platform_orchestrator_ru.GatewayApi.Client.{
  ClientLibrary, Client, send_results, or_return, results_request, new_request, expect_status,
  check_status,
}
use platform_orchestrator_ru.GatewayApi.Outbox.{
  OutboxOperation, OutboxLibrary, OutboxState, Returned, result_operation, sort_entries,
  flush_outbox, post_results_or_store, insert_entry, is_spooled, is_json_name, read_file,
  deliver_operation, or_store, store, store_contents, call_disk, renamed, replace_file, remove_file,
}
use platform_orchestrator_ru.GatewayApi.Outbox.Stores.{OutboxLaws}
use platform_orchestrator_ru.GatewayApi.Outbox.Refines.{Flushes, flush_outbox-Flushes}
use platform_orchestrator_ru.Base.{
  true, [], ◌∷◌, some, none, false, refl, if◌then◌else◌, is_nil, inr, length, ◌≡◌, ok,
}
use platform_orchestrator_ru.GatewayApi.Outbox.Blocked.{IsBlocked, flush_outbox-IsBlocked}
use platform_orchestrator_ru.Settings.{StandardModeConfiguration}
use platform_orchestrator_ru.CommandLine.{
  ProgramLibrary, publish_deployment_result_to_gateway, standard_client_config, or_give_up,
  flush_ticks, new_outbox,
}
use platform_orchestrator_ru.GatewayApi.Client.Create.{
  new_client, gateway_tls_config, check_ca, trim_right_slashes,
}
use platform_orchestrator_ru.CommandLine.Kept.{
  ResultKept, publish_deployment_result_to_gateway-ResultKept,
}

-- The first request fails, and all others are accepted.
abbrev client_library : ClientLibrary
client_library = record {
  tokens = tokens;
  path_escape = λ text. text;
  valid_url = λ url. true;
  decode_command = λ bytes. none;
  marshal_receipt = λ receipt. [];
  marshal_retry = λ receipt seconds. [];
  marshal_reject = λ receipt reason. [];
  answer = λ sent request.
      if is_nil sent then none else some (record { status = 202; body = []; body_reads = true });
}

abbrev edge_client : Client
edge_client = record {
  base_url = "https://gateway";
  organization_id = "org";
  runner_id = "runner";
  private_key = [];
}

abbrev spooled_operation : OutboxOperation
spooled_operation = record {
  kind = "result";
  organization_id = "org";
  runner_id = "runner";
  deployment_id = "deployment";
  environment_id = "";
  operation_token = "token";
  content = 123 ∷ 125 ∷ [];
}

abbrev outbox_library : OutboxLibrary
outbox_library = record {
  client_library = client_library;
  marshal_operation = λ operation. some (7 ∷ []);
  unmarshal_operation = λ bytes. some spooled_operation;
  marshal_raw = λ bytes. some bytes;
  marshal_logs = λ bytes. some bytes;
  unmarshal_logs = λ bytes. some bytes;
  sha256_hex_string = λ text. text;
  disk_works = λ n. true;
}

abbrev empty_outbox : OutboxState
empty_outbox = record { sent = []; files = []; disk_calls = 0 }

abbrev posted_offline : Returned
posted_offline =
    post_results_or_store outbox_library edge_client "deployment" "token" (some (123 ∷ 125 ∷ []))
      empty_outbox

stored_offline : length posted_offline.after.files ≡ 1
unfolding post_results_or_store send_results or_return results_request new_request expect_status
    check_status or_store store store_contents call_disk renamed replace_file remove_file
stored_offline = refl

abbrev outbox_laws :
    OutboxLaws outbox_library
      (result_operation outbox_library edge_client "deployment" "token" (123 ∷ 125 ∷ []))
unfolding result_operation
outbox_laws = record { unmarshal_marshal = λ contents e. refl; raw = λ contents e. cc }

posted_without_error : posted_offline.error ≡ ok tt
unfolding post_results_or_store send_results or_return results_request new_request expect_status
    check_status or_store store store_contents call_disk renamed replace_file remove_file
posted_without_error = refl

abbrev spooled : OutboxState
spooled = record {
  sent = [];
  files = record { name = "a.json"; is_dir = false; contents = 7 ∷ [] } ∷ [];
  disk_calls = 0;
}

flush_outbox-Flushes_example :
    Flushes outbox_library edge_client spooled
      (flush_outbox outbox_library edge_client spooled).after
flush_outbox-Flushes_example = flush_outbox-Flushes outbox_library edge_client spooled

flush_outbox-IsBlocked_example :
    IsBlocked outbox_library edge_client spooled (flush_outbox outbox_library edge_client spooled)
unfolding sort_entries insert_entry is_spooled is_json_name read_file deliver_operation send_results
    or_return results_request new_request expect_status check_status
flush_outbox-IsBlocked_example =
    flush_outbox-IsBlocked outbox_library edge_client spooled
      (record { name = "a.json"; is_dir = false; contents = 7 ∷ [] }) [] (7 ∷ []) spooled_operation
      "the gateway did not respond" refl refl refl refl (inr refl)

abbrev edge_configuration : StandardModeConfiguration
edge_configuration = record {
  org_id = "org";
  runner_id = "runner";
  deployment_id = "deployment";
  deployment_env_uuid = "environment";
  mode = Settings.deploy;
  observation_protocol = "";
  encrypting_key = "";
  metadata_key = "metadata";
  iac_code_dir = "/iac";
  iac_backend = "opentofu";
  encrypting_logs_key = "";
  deployment_token_value = "token";
  gateway = record {
    url = "https://gateway";
    ca_file = "";
    client_cert_file = "";
    client_key_file = "";
    outbox_dir = "/outbox";
  };
}

abbrev program_library : ProgramLibrary
program_library = record {
  outbox_library = outbox_library;
  tls = record {
    parse_url = λ text. some (record { scheme = "https"; host = "gateway"; text = text });
    read_ca = λ file. none;
    has_certificate = λ bytes. false;
    loads_key_pair = λ cert key. false;
  };
  makes_directory = λ directory. true;
  trim_space = λ text. text;
  encrypt_logs = λ key logs. some logs;
}

edge_client_created :
    new_client program_library.tls (standard_client_config edge_configuration) ≡ ok edge_client
unfolding new_client standard_client_config gateway_tls_config check_ca trim_right_slashes
edge_client_created = refl

published_without_error :
    (publish_deployment_result_to_gateway program_library edge_configuration
      (some (123 ∷ 125 ∷ []))
      empty_outbox).error
    ≡ ok tt
unfolding publish_deployment_result_to_gateway or_give_up new_outbox new_client
    standard_client_config gateway_tls_config check_ca trim_right_slashes post_results_or_store
    send_results or_return results_request new_request expect_status check_status or_store store
    store_contents call_disk renamed replace_file
published_without_error = refl

publish_deployment_result_to_gateway-ResultKept_example :
    ResultKept program_library edge_configuration edge_client
      (123 ∷ 125 ∷ [])
      empty_outbox
      outbox_laws
      (flush_ticks program_library edge_client 3
        (publish_deployment_result_to_gateway program_library edge_configuration
          (some (123 ∷ 125 ∷ []))
          empty_outbox).after)
publish_deployment_result_to_gateway-ResultKept_example =
    publish_deployment_result_to_gateway-ResultKept program_library edge_configuration edge_client
      (123 ∷ 125 ∷ []) empty_outbox outbox_laws 3 edge_client_created published_without_error
