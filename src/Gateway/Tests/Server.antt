-- ===== src/Gateway/Tests/Server.antt =====
-- Runs of the gateway's handlers at concrete inputs.
use platform_orchestrator_ru.Gateway.Backend as Backend
use platform_orchestrator_ru.Base.{
  [], ◌∷◌, ◌≡◌, refl, some, none, ok, true, false, Bytes, ◌*◌, Option, if◌then◌else◌, pos, arith,
  ◌⊎◌, eq_iff, ◌==◌, sym, str_eq,
}
use platform_orchestrator_ru.Gateway.Tests.{
  tokens, receipts, cipher, agent_token, public_pem, receipt_text, receipts-ReceiptLaws, seal,
  encode, unary, verify_agent_token, parse_public_key, split_dots, decode_from,
}
use platform_orchestrator_ru.GatewayApi.Token.{
  second, verify_agent_token, parse_public_key, split_dots,
}
use platform_orchestrator_ru.Gateway.Http.{
  World, Request, Trace, CommandDelivery, serve, Response, fetch_command, write_json, acknowledge,
  delivered, no_command, next,
}
use platform_orchestrator_ru.Messaging.{CommandEnvelope, Message, MessagingLibrary}
use platform_orchestrator_ru.Gateway.Authentication.{
  ServerLibrary, Server, authenticate_agent, bearer, authorized, deployment_token,
}
use platform_orchestrator_ru.Gateway.Commands.{
  next_command, claims_of, rounds, acknowledge_command, retry_command, reject_command, round, judge,
}
use platform_orchestrator_ru.Gateway.Commands.Deliver.{IsDelivery, IsFor, next_command-IsDelivery}
use platform_orchestrator_ru.Gateway.Commands.Lease.{
  Drains, fetches, next_command-finishes, acknowledge_command-IsDelivery,
}
use platform_orchestrator_ru.Gateway.Commands.Settle.{
  IsRefused, IsSettled, CarriesAcknowledgement, CarriesRetry, CarriesRejection,
}
use platform_orchestrator_ru.Gateway.Receipt.{seal}
use platform_orchestrator_ru.Unary.{encode, unary, decode_from}
use platform_orchestrator_ru.Executor.Remote.{retry_delay}
use platform_orchestrator_ru.Executor.Remote.Backoff.{retry_command-retry_delay}
use platform_orchestrator_ru.Gateway.Backend.{Nats}
use platform_orchestrator_ru.Gateway.Backend.DeadLetters.{IsTerminated, reject-IsTerminated}
use platform_orchestrator_ru.Gateway.Commands.Settlements.{commands_settle}

abbrev command_message : Message
command_message = record {
  id = "message";
  subject = "commands";
  payload = 6 ∷ [];
  created_at = 0;
  expires_at = none;
}

abbrev first_delivery : CommandDelivery
first_delivery = record {
  message = command_message;
  attempts = 1;
  ack_subject = "ack";
  stream_sequence = 3;
}

abbrev command_envelope : CommandEnvelope
command_envelope = record {
  protocol_version = "v1";
  command_id = "command";
  organization_id = "org";
  runner_id = "runner";
  deployment_id = "deployment";
  type = "create-job";
  expires_at = none;
  payload = [];
}

abbrev messaging : MessagingLibrary
messaging = record {
  protocol_version_v1 = "v1";
  runner_command_subject = λ organization_id runner_id. some "commands";
  runner_event_subject = λ organization_id runner_id type. some "events";
  unmarshal_command = λ bytes. ok command_envelope;
  unmarshal_event = λ bytes. none;
  marshal_event = λ event. 2 ∷ [];
}

abbrev library : ServerLibrary
library = record {
  tokens = tokens;
  messaging = messaging;
  receipts = receipts;
  sha256_url = λ text. "deployment-token";
  sha256_hex = λ bytes. "hash";
  decode_receipt_request = λ bytes. some receipt_text;
  decode_retry_request = λ bytes. some (record { receipt = receipt_text; delay_seconds = pos 64 });
  decode_reject_request = λ bytes. some (record { receipt = receipt_text; reason = "invalid" });
  valid_json = λ bytes. true;
  log_reference = λ bucket key size hash. 4 ∷ [];
}

abbrev server : Server
server = record { receipts = cipher; runner_token_salt = "salt"; max_log_bytes = 2 }

-- The backend has one command, and then none.
abbrev backend : World
backend = record {
  fetched = λ calls. if fetches calls == 0 then delivered first_delivery else no_command;
  persists = λ call calls. true;
  bundle = λ key calls. none;
  stored_size = λ key calls. some 3;
  resolve = λ organization_id runner_id. some public_pem;
  auth_time = 100 * second;
  time = λ calls. 100 * second;
  read_sizes = λ n. (n, 1);
  random = λ calls. some (4 ∷ []);
  is_uuid = λ text. true;
  fields = λ text. "Bearer" ∷ agent_token ∷ [];
  equal_fold = λ a b. str_eq a b;
}

abbrev request : Request
request = record {
  organization_id = "org";
  runner_id = "runner";
  command_id = "command";
  deployment_id = "deployment";
  environment_id = "environment";
  authorization = "Bearer";
  deployment_token = "deployment-token";
  body = 1 ∷ 2 ∷ 3 ∷ 4 ∷ [];
  body_fails = false;
}

abbrev handed_out : Response
handed_out = write_json 200 (record {
  command = 6 ∷ [];
  receipt = receipt_text;
  attempt = 1;
  lease_expires_at = 190 * second;
})

abbrev after_fetching : Trace
after_fetching = fetch_command "org" "runner" ∷ []

request-authenticated : authenticate_agent backend library server request [] ≡ (next tt, [])
unfolding authenticate_agent bearer authorized verify_agent_token parse_public_key split_dots
    decode_from
request-authenticated = refl

first_round : next_command backend library server request 1 [] ≡ some (handed_out, after_fetching)
unfolding next_command rounds round judge claims_of seal encode unary
first_round = rw request-authenticated refl

next_command-IsDelivery_example :
    IsDelivery backend library server request handed_out after_fetching
next_command-IsDelivery_example =
    next_command-IsDelivery backend library server request 1 [] after_fetching handed_out
      first_round refl

backend-Drains : Drains backend 1
backend-Drains calls h = let e : (fetches calls == 0) ≡ false = ground arith in rw e refl

next_command-finishes_example :
    (result : Response × Trace) × (next_command backend library server request 2 [] ≡ some result)
next_command-finishes_example =
    next_command-finishes backend library server request 1 backend-Drains 1 [] (omega arith)

commands_settle_example :
    (IsRefused [] (serve (acknowledge_command backend library server request) [])
      ⊎ IsSettled backend library server request []
          (CarriesAcknowledgement backend library server request [])
          (serve (acknowledge_command backend library server request) []))
    × (IsRefused [] (serve (retry_command backend library server request) [])
        ⊎ IsSettled backend library server request []
            (CarriesRetry backend library server request [])
            (serve (retry_command backend library server request) []))
    × (IsRefused [] (serve (reject_command backend library server request) [])
        ⊎ IsSettled backend library server request []
            (CarriesRejection backend library server request [])
            (serve (reject_command backend library server request) []))
commands_settle_example = commands_settle backend library server request []

first_fits : IsFor request (100 * second) command_envelope
first_fits = record {
  organization = refl;
  runner = refl;
  named = λ e. ground (arith, eq_iff "command" "");
  current = refl;
}

first_sealed :
    seal receipts cipher
      (some (4 ∷ []))
      (claims_of backend library server request first_delivery command_envelope (190 * second))
    ≡ ok receipt_text
unfolding seal encode unary
first_sealed = refl

nonce_of : {nonce : Bytes} → ◌≡◌ {A = Option Bytes} (some (4 ∷ [])) (some nonce) → (4 ∷ []) ≡ nonce
nonce_of e = cc

-- The delivery of the first round.
abbrev first_handed_out : IsDelivery backend library server request handed_out after_fetching
first_handed_out = record {
  before = [];
  fetch = refl;
  delivery = first_delivery;
  fetched = refl;
  envelope = command_envelope;
  decoded = refl;
  fits = first_fits;
  receipt = receipt_text;
  sealed = first_sealed;
  response_is = refl;
}

acknowledge_command-IsDelivery_example :
    (serve (acknowledge_command backend library server request) []).1 ≡ acknowledge "ack" ∷ []
unfolding claims_of
acknowledge_command-IsDelivery_example =
    acknowledge_command-IsDelivery backend library server
      (λ calls nonce e. rw (sym (nonce_of e)) refl) request handed_out after_fetching
      first_handed_out receipts-ReceiptLaws (λ e. ground (arith, eq_iff "org" ""))
      (λ e. ground (arith, eq_iff "runner" "")) (λ e. ground (arith, eq_iff "ack" ""))
      (λ e. omega arith) backend request [] refl refl refl refl request-authenticated (omega arith)

retry_command-retry_delay_example :
    IsRefused [] (serve (retry_command backend library server request) [])
unfolding retry_delay
retry_command-retry_delay_example =
    retry_command-retry_delay backend library server request []
      (record { receipt = receipt_text; delay_seconds = pos 64 }) 7 refl refl (omega arith)

-- A NATS server that takes every call.
abbrev nats_server : Nats
nats_server = record {
  answer = λ call calls. none;
  time_left = λ calls. none;
  context_error = λ calls. none;
  dead_letter_subject = λ subject. some "dead";
  get_msg = λ sequence. none;
  sequence_id = λ sequence. "stream";
  format_nanoseconds = λ n. "1";
}

reject-IsTerminated_example :
    IsTerminated nats_server first_delivery.message "expired" "ack"
      (Backend.reject nats_server first_delivery "expired" []).1
reject-IsTerminated_example = reject-IsTerminated nats_server first_delivery "expired"
