-- ===== src/Gateway/Commands.antt =====
-- The handlers of runner commands in internal/gateway/server.go: `nextCommand`, `handleReceipt` and
-- `rejectCommand`.
pub mod Opened
pub mod Settle
pub mod Settlements
pub mod Deliver
pub mod Lease
use platform_orchestrator_ru.Base.{
  ℕ, zero, suc, ◌+◌, ◌*◌, ◌/◌, String, ◌∷◌, Option, none, some, Bool, true, false, not, ◌&&◌, ◌||◌,
  Result, ok, err, ltb, leb, str_eq, if◌then◌else◌, ℤ, len, pos, negsuc, ◌≡◌, ◌⊎◌, inl, inr, refl,
}
use platform_orchestrator_ru.Messaging.{CommandEnvelope}
use platform_orchestrator_ru.GatewayApi.Token.{second}
use platform_orchestrator_ru.Gateway.Receipt.{ReceiptClaims, seal, open_receipt}
use platform_orchestrator_ru.Gateway.Http.{
  World, Request, Response, Handler, Trace, fetch_command, acknowledge, retry, reject,
  reject_receipt, CommandDelivery, no_command, unavailable, delivered, Step, next, done, ◌>>=◌,
  ◌>>◌, require, require_some, require_ok, reply, invoke, decode_json, write_header, write_error,
  write_json, Fetched,
}
use platform_orchestrator_ru.Gateway.Authentication.{ServerLibrary, Server, authenticate_agent}

-- 90 seconds.
abbrev pub delivery_lease : ℕ
delivery_lease = 90 * second

abbrev pub is_expired : Option ℕ → ℕ → Bool
is_expired none now = false
is_expired (some expires_at) now = leb expires_at now

-- What the handler makes of a fetched command: it delivers the envelope, or rejects the command with
-- a cause, and answers 503 with the given text if the rejection cannot be persisted.
pub data Verdict : Type 0 where
  deliver : CommandEnvelope → Verdict
  refuse : (cause failure : String) → Verdict

unfoldable pub judge : Result CommandEnvelope → Request → ℕ → Verdict
judge (err e) request now = refuse e "reject invalid runner command"
judge (ok envelope) request now =
    if not (str_eq envelope.organization_id request.organization_id)
      || not (str_eq envelope.runner_id request.runner_id)
      || str_eq envelope.command_id ""
    then refuse "command envelope identity does not match the authenticated runner"
        "reject invalid runner command"
    else if is_expired envelope.expires_at now
    then refuse "command expired before delivery" "reject expired runner command"
    else deliver envelope

-- A round of the loop ends the handler or fetches again.
pub data Round : Type 0 where
  finished : Response → Trace → Round
  again : Trace → Round

module _ (w : World) (lib : ServerLibrary) (server : Server) (request : Request) where
  unfoldable pub claims_of : CommandDelivery → CommandEnvelope → ℕ → ReceiptClaims
  claims_of delivery envelope lease_expires_at = record {
    organization_id = request.organization_id;
    runner_id = request.runner_id;
    command_id = envelope.command_id;
    ack_subject = delivery.ack_subject;
    stream_sequence = delivery.stream_sequence;
    expires_at = lease_expires_at / second;
  }

  -- The end of a round: the response that carries the command and its receipt.
  abbrev answer : Result String → CommandDelivery → ℕ → Trace → Round
  answer (err e) delivery lease_expires_at calls =
      finished (write_error 500 "create delivery receipt") calls
  answer (ok receipt) delivery lease_expires_at calls =
      finished
        (write_json 200 (record {
          command = delivery.message.payload;
          receipt = receipt;
          attempt = delivery.attempts;
          lease_expires_at = lease_expires_at;
        }))
        calls

  abbrev rejected : Bool → String → Trace → Round
  rejected true failure calls = again calls
  rejected false failure calls = finished (write_error 503 failure) calls

  abbrev act : Verdict → CommandDelivery → ℕ → Trace → Round
  act (refuse cause failure) delivery now calls =
      rejected (w.persists (reject delivery cause) calls) failure (reject delivery cause ∷ calls)
  act (deliver envelope) delivery now calls =
      answer
        (seal lib.receipts server.receipts (w.random calls)
          (claims_of delivery envelope (now + delivery_lease)))
        delivery (now + delivery_lease) calls

  abbrev after_fetch : Fetched → Trace → Round
  after_fetch no_command calls = finished (write_header 204) calls
  after_fetch unavailable calls = finished (write_error 503 "fetch runner command") calls
  after_fetch (delivered delivery) calls =
      act (judge (lib.messaging.unmarshal_command delivery.message.payload) request (w.time calls))
        delivery (w.time calls) calls

  unfoldable pub round : Trace → Round
  round calls =
      after_fetch (w.fetched calls)
        (fetch_command request.organization_id request.runner_id ∷ calls)

  -- The `for` loop, on fuel; `none` means that the fuel ran out.
  unfoldable pub rounds : ℕ → Trace → Option (Response × Trace)
  rounds zero calls = none
  rounds (suc fuel) calls = elim (round calls) [
    | finished response calls' ↦ some (response, calls')
    | again calls' ↦ rounds fuel calls'
  ]

  abbrev once_authenticated : ℕ → Step (Unit {0}) × Trace → Option (Response × Trace)
  once_authenticated fuel (done response, calls) = some (response, calls)
  once_authenticated fuel (next _, calls) = rounds fuel calls

  unfoldable pub next_command : ℕ → Trace → Option (Response × Trace)
  next_command fuel calls = once_authenticated fuel (authenticate_agent w lib server request calls)

  -- The receipt is valid for the command that the URL names.
  unfoldable pub receipt_matches : ReceiptClaims → Bool
  receipt_matches claims =
      str_eq claims.organization_id request.organization_id
      && str_eq claims.runner_id request.runner_id
      && str_eq claims.command_id request.command_id

  abbrev pub invalid_receipt : Response
  invalid_receipt = write_error 400 "delivery receipt is invalid for this command"

  unfoldable pub opened : String → Handler ReceiptClaims
  opened receipt calls =
      (do
        claims ←
            require_ok (open_receipt lib.receipts server.receipts receipt (w.time calls))
              invalid_receipt
        require (receipt_matches claims) invalid_receipt
        λ rest. (next claims, rest))
        calls

  -- A retry delay between 0 and 60 seconds.
  abbrev pub bounded_delay : ℤ → Option ℕ
  bounded_delay (pos seconds) = if ltb 60 seconds then none else some seconds
  bounded_delay (negsuc n) = none

  unfoldable pub acknowledge_command : Handler Response
  acknowledge_command = do
    authenticate_agent w lib server request
    receipt ← decode_json lib.decode_receipt_request request 4096
    claims ← opened receipt
    invoke w (acknowledge claims.ack_subject) (write_error 503 "persist command acknowledgement")
    reply (write_header 204)

  unfoldable pub retry_command : Handler Response
  retry_command = do
    authenticate_agent w lib server request
    body ← decode_json lib.decode_retry_request request 4096
    delay ←
        require_some (bounded_delay body.delay_seconds)
          (write_error 400 "retry delay must be between 0 and 60 seconds")
    claims ← opened body.receipt
    invoke w (retry claims.ack_subject delay) (write_error 503 "persist command acknowledgement")
    reply (write_header 204)

  unfoldable pub reject_command : Handler Response
  reject_command = do
    authenticate_agent w lib server request
    body ← decode_json lib.decode_reject_request request 8192
    claims ← opened body.receipt
    require (not (str_eq body.reason "" || ltb 4096 (len body.reason)))
        (write_error 400 "rejection reason must contain between 1 and 4096 bytes")
    invoke w (reject_receipt claims.ack_subject claims.stream_sequence body.reason)
        (write_error 503 "persist rejected command")
    reply (write_header 204)

pub Round-cases :
    (r : Round)
    → ((response : Response) × (calls : Trace) × (r ≡ finished response calls))
      ⊎ ((calls : Trace) × (r ≡ again calls))
Round-cases (finished response calls) = inl (response, calls, refl)
Round-cases (again calls) = inr (calls, refl)
