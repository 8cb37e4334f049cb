-- ===== src/Gateway/Http.antt =====
-- The gateway's requests, responses and backend calls (internal/gateway/server.go and backend.go). A
-- handler works on the list of backend calls made so far, newest first, and what the backend answers
-- is a function of that list.
use platform_orchestrator_ru.Base.{
  ℕ, ◌+◌, String, Bytes, Bool, true, false, List, ◌∷◌, Option, none, some, Result, take, ltb,
  length, ◌||◌, ◌≡◌, ◌⊎◌, inl, inr,
}
use platform_orchestrator_ru.Messaging.{Message}

pub record CommandDelivery : Type 0 where
  pub message : Message
  pub attempts : ℕ
  pub ack_subject : String
  pub stream_sequence : ℕ

pub record CommandResponse : Type 0 where
  pub command : Bytes
  pub receipt : String
  pub attempt : ℕ
  pub lease_expires_at : ℕ

-- The methods of the `Backend` interface, as calls. A delay is in seconds.
pub data Call : Type 0 where
  fetch_command : String → String → Call
  acknowledge : String → Call
  retry : String → ℕ → Call
  reject : CommandDelivery → String → Call
  reject_receipt : String → ℕ → String → Call
  get_bundle : String → Call
  put_log : String → Bytes → Call
  delete_log : String → Call
  publish : Message → Call

abbrev pub Trace : Type 0
Trace = List Call

pub data Fetched : Type 0 where
  no_command : Fetched
  unavailable : Fetched
  delivered : CommandDelivery → Fetched

-- What surrounds a request: the backend's answers, the key resolver, the clock (read first by the
-- authentication and then by the handler), the sizes of the body's reads,
-- randomness and the UUID parser.
pub record World : Type 0 where
  pub fetched : Trace → Fetched
  pub persists : Call → Trace → Bool
  pub bundle : String → Trace → Option Bytes
  pub stored_size : String → Trace → Option ℕ
  pub resolve : String → String → Option Bytes
  pub auth_time : ℕ
  pub time : Trace → ℕ
  pub read_sizes : ℕ → ℕ × ℕ
  pub random : Trace → Option Bytes
  pub is_uuid : String → Bool
  pub fields : String → List String
  pub equal_fold : String → String → Bool

-- `body` is what the client sends, and `body_fails` whether reading on past it is an error.
pub record Request : Type 0 where
  pub organization_id : String
  pub runner_id : String
  pub command_id : String
  pub deployment_id : String
  pub environment_id : String
  pub authorization : String
  pub deployment_token : String
  pub body : Bytes
  pub body_fails : Bool

pub data Body : Type 0 where
  empty : Body
  error : String → Body
  command : CommandResponse → Body
  stream : Bytes → Body

pub record Response : Type 0 where
  pub status : ℕ
  pub body : Body

abbrev pub write_header : ℕ → Response
write_header status = record { status = status; body = empty }

abbrev pub write_error : ℕ → String → Response
write_error status message = record { status = status; body = error message }

abbrev pub write_json : ℕ → CommandResponse → Response
write_json status value = record { status = status; body = command value }

-- A statement of a handler: it goes on with a value, or it has written the response and returns.
pub data Step {ℓ} (A : Type ℓ) : Type ℓ where
  next : A → Step A
  done : Response → Step A

abbrev pub Handler {ℓ} : Type ℓ → Type ℓ
Handler A = Trace → Step A × Trace

abbrev continue {ℓ κ} :
    {A : Type ℓ} {B : Type κ} → (A → Handler B) → Step A × Trace → Step B × Trace
continue k (next a, calls) = k a calls
continue k (done response, calls) = (done response, calls)

infixl 5 ◌>>=◌ ◌>>◌
abbrev pub ◌>>=◌ {ℓ κ} : {A : Type ℓ} {B : Type κ} → Handler A → (A → Handler B) → Handler B
◌>>=◌ m k calls = continue k (m calls)

abbrev pub ◌>>◌ {ℓ κ} : {A : Type ℓ} {B : Type κ} → Handler A → Handler B → Handler B
m >> k = m >>= λ _. k

abbrev pub reply : Response → Handler Response
reply response calls = (done response, calls)

abbrev pub require : Bool → Response → Handler (Unit {0})
require true response calls = (next tt, calls)
require false response calls = (done response, calls)

abbrev pub require_some {ℓ} : {A : Type ℓ} → Option A → Response → Handler A
require_some none response calls = (done response, calls)
require_some (some a) response calls = (next a, calls)

abbrev pub require_ok {ℓ} : {A : Type ℓ} → Result A → Response → Handler A
require_ok (Result.err e) response calls = (done response, calls)
require_ok (Result.ok a) response calls = (next a, calls)

abbrev ended : Step Response × Trace → Response × Trace
ended (next response, calls) = (response, calls)
ended (done response, calls) = (response, calls)

-- The response of a whole handler, and the calls after it.
abbrev pub serve : Handler Response → Trace → Response × Trace
serve h calls = ended (h calls)

abbrev answered : Bool → Call → Trace → Response → Step (Unit {0}) × Trace
answered true call calls response = (next tt, call ∷ calls)
answered false call calls response = (done response, call ∷ calls)

-- A backend call whose error ends the handler with the given response.
abbrev pub invoke : World → Call → Response → Handler (Unit {0})
invoke w call response calls = answered (w.persists call calls) call calls response

-- `decodeJSON`: the decoder sees at most `limit` bytes of the body.
unfoldable pub decode_json {ℓ} : {A : Type ℓ} → (Bytes → Option A) → Request → ℕ → Handler A
decode_json decode request limit =
    require_some (decode (take limit request.body)) (write_error 400 "request body is invalid")

-- `io.ReadAll(io.LimitReader(request.Body, limit+1))`, with the test on its length.
unfoldable pub exceeds : Request → ℕ → Bool
exceeds request limit = request.body_fails || ltb limit (length (take (limit + 1) request.body))

-- How a handler's step leaves the calls as they were: it goes on with a value that satisfies `P`, or
-- ends with a response that satisfies `Q`.
abbrev pub Quiet {ℓ} :
    {A : Type ℓ} → (A → Type 0) → (Response → Type 0) → Trace → Step A × Trace → Type 0
Quiet P Q calls (next a, calls') = P a × (calls' ≡ calls)
Quiet P Q calls (done r, calls') = Q r × (calls' ≡ calls)

pub Quiet-cases {ℓ} :
    {A : Type ℓ} (P : A → Type 0) (Q : Response → Type 0) (calls : Trace) (s : Step A × Trace)
    → Quiet P Q calls s
    → ((a : A) × (s ≡ (next a, calls)) × P a) ⊎ ((r : Response) × (s ≡ (done r, calls)) × Q r)
Quiet-cases P Q calls (next a, calls') h = inl (a, rw h.1, h.0)
Quiet-cases P Q calls (done r, calls') h = inr (r, rw h.1, h.0)

-- A handler that starts with a quiet step.
module _ {A : Type 0} (P : A → Type 0) (Q : Response → Type 0) (R : Response × Trace → Type 0)
    (m : Handler A) (k : A → Handler Response) (calls : Trace) where
  pub serve_quiet :
      Quiet P Q calls (m calls)
      → ((r : Response) → Q r → R (r, calls))
      → ((a : A) → P a → R (serve (k a) calls))
      → R (serve (m >>= k) calls)
  serve_quiet quiet stop on = elim (Quiet-cases P Q calls (m calls) quiet) [
    | inl (a, e, p) ↦ rw (e, ◌>>=◌) (on a p)
    | inr (r, e, q) ↦ rw (e, ◌>>=◌) (stop r q)
  ]
