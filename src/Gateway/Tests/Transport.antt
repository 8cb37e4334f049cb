-- ===== src/Gateway/Tests/Transport.antt =====
-- Runs of the NATS transport and of the cache of consumers at concrete inputs.
use platform_orchestrator_ru.Base.{
  some, none, refl, ok, err, negsuc, str_append, [], true, ◌≡◌, ◌∷◌,
}
use platform_orchestrator_ru.Messaging.{MessagingLibrary}
use platform_orchestrator_ru.Gateway.Transport.{
  Subscription, JetStream, Config, TransportFiles, connect, new_runner_consumer, root_cas_of,
  subscribe, certificates_of, bootstrap, needs_tls, timeout_or_default, durable_name, first_chars,
}
use platform_orchestrator_ru.Gateway.Consumers.{
  consumer_for, command_of, cache_after, load, load_or_store,
}
use platform_orchestrator_ru.Gateway.Consumers.Own.{
  IsReached, call_ends, none_yet, IsOwn, consumer_for-IsOwn,
}
use platform_orchestrator_ru.Runner.Diagnostics.{split_on}
use platform_orchestrator_ru.Gateway.Keys.{cache_key_of}
use platform_orchestrator_ru.Runner.Bundle.{extend_first}
use platform_orchestrator_ru.Gateway.Http.{delivered}
use platform_orchestrator_ru.Gateway.Deliveries.{
  HeaderLibrary, delivery_of, message_id_of, header_get, header_time, time_or, unless_zero,
  received,
}

abbrev subjects : MessagingLibrary
subjects = record {
  protocol_version_v1 = "v1";
  runner_command_subject = λ organization_id runner_id. some (str_append organization_id runner_id);
  runner_event_subject = λ organization_id runner_id deployment_id. none;
  unmarshal_command = λ bytes. err "no command";
  unmarshal_event = λ bytes. none;
  marshal_event = λ event. [];
}

abbrev jet_stream : JetStream
jet_stream = record {
  messaging = subjects;
  runner_commands_stream_name = "COMMANDS";
  modern_context = true;
  ensure_standard_streams = true;
  legacy_context = true;
  pull_subscribe = λ subscription. true;
  sha256_hex = λ content. "0123456789abcdef0123456789abcdef";
}

abbrev runner_subscription : Subscription
runner_subscription = record {
  stream = "COMMANDS";
  subject = "orgrunner";
  durable = "runner-0123456789abcdef01234567";
  ack_wait = 120000000000;
  max_deliver = 10;
}

stores_consumer :
    consumer_for jet_stream "org" "runner" [] []
    ≡ ok (runner_subscription, ("org\0runner", runner_subscription) ∷ [])
unfolding consumer_for new_runner_consumer subscribe bootstrap load load_or_store cache_key_of
    durable_name first_chars
stores_consumer = refl

one_call :
    IsReached jet_stream (cache_after jet_stream (consumer_for jet_stream "org" "runner" [] []) [])
one_call = call_ends "org" "runner" [] [] refl none_yet none_yet

-- A second call for the runner, which loads the consumer of the first.
consumer_for-IsOwn_example : IsOwn jet_stream "org" "runner" runner_subscription
unfolding consumer_for new_runner_consumer subscribe bootstrap load load_or_store cache_key_of
    durable_name first_chars cache_after
consumer_for-IsOwn_example =
    consumer_for-IsOwn jet_stream "org" "runner"
      (cache_after jet_stream (consumer_for jet_stream "org" "runner" [] []) [])
      (cache_after jet_stream (consumer_for jet_stream "org" "runner" [] []) [])
      (cache_after jet_stream (consumer_for jet_stream "org" "runner" [] []) []) runner_subscription
      refl one_call one_call refl

abbrev mutual_tls : Config
mutual_tls = record {
  url = "nats://a,nats://b";
  token = "";
  credentials_file = "";
  ca_file = "";
  client_cert_file = "cert.pem";
  client_key_file = "";
  name = "runner";
  connect_timeout = negsuc 0;
}

abbrev no_files : TransportFiles
no_files = record {
  trim_space = λ s. s;
  read_file = λ path. none;
  certificates_in = λ pem. none;
  load_key_pair = λ cert key. none;
}

refuses_half_pair :
    connect no_files mutual_tls
    ≡ err "both NATS_CLIENT_CERT_FILE and NATS_CLIENT_KEY_FILE are required for mTLS"
unfolding connect root_cas_of certificates_of
refuses_half_pair = refl

connects_both :
    connect no_files (record mutual_tls { client_cert_file = "" })
    ≡ ok (record {
      urls = "nats://a" ∷ "nats://b" ∷ [];
      name = "runner";
      token = "";
      credentials_file = "";
      tls_config = none;
      connect_timeout = 10000000000;
    })
unfolding connect root_cas_of certificates_of needs_tls timeout_or_default split_on extend_first
connects_both = refl

abbrev header_library : HeaderLibrary
header_library = record {
  header_created_at = "Po-Created-At";
  header_expires_at = "Po-Expires-At";
  header_message_id = "Nats-Msg-Id";
  parse_time = λ value. none;
  format_number = λ n. "7";
}

names_by_sequence :
    command_of header_library (
      received (record {
        subject = "s";
        payload = [];
        header = ("Po-Created-At", "soon" ∷ []) ∷ [];
        reply = "ack";
        metadata =
            some (record { stream = "C"; stream_sequence = 7; delivered_times = 2; timestamp = 5 });
      }))
    ≡ delivered (record {
      message = record {
        id = "stream:C:7";
        subject = "s";
        payload = [];
        created_at = 5;
        expires_at = none;
      };
      attempts = 2;
      ack_subject = "ack";
      stream_sequence = 7;
    })
unfolding command_of delivery_of message_id_of header_get header_time time_or unless_zero
names_by_sequence = refl
