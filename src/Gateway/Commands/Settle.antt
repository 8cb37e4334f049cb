-- ===== src/Gateway/Commands/Settle.antt =====
-- What acknowledging, retrying and rejecting a command establish (internal/gateway/server.go).
use platform_orchestrator_ru.Base.{
  String, ◌≡◌, refl, ◌⊎◌, inl, inr, ◌≤◌, some, arith, eq_iff, Option-cases, take, ◌∷◌,
  if◌then◌else◌, subst, ℤ, sym, ℕ, ◌≢◌, Bool-cases, pos, none, len, not, ltb, str_eq, negsuc, ◌||◌,
}
use platform_orchestrator_ru.Gateway.Http.{
  ◌>>=◌, ◌>>◌, World, Request, Trace, Response, Call, decode_json, serve, acknowledge, Quiet-cases,
  write_error, invoke, reply, write_header, retry, reject_receipt,
}
use platform_orchestrator_ru.Gateway.Authentication.{
  ServerLibrary, Server, RetryRequest, RejectRequest,
}
use platform_orchestrator_ru.Gateway.Receipt.{ReceiptClaims}
use platform_orchestrator_ru.Gateway.Commands.{
  opened, Response, acknowledge_command, decode_json, acknowledge, write_error, invoke, reply,
  write_header, retry_command, reject_command, bounded_delay, retry, reject_receipt,
}
use platform_orchestrator_ru.Gateway.Commands.Opened.{
  IsReceipt, opened-Quiet, authenticate_agent-Quiet,
}

-- A handler has settled a command: the request carries a receipt that is valid for the request's
-- command, the call on its claims is the one backend call made, and the response says whether the
-- backend took it.
pub record IsSettled (w : World) (lib : ServerLibrary) (server : Server) (request : Request)
    (calls : Trace) (Carries : String → (ReceiptClaims → Call) → Type 0) (result : Response × Trace)
    : Type 0 where
  pub receipt : String
  pub call : ReceiptClaims → Call
  pub carried : Carries receipt call
  pub claims : ReceiptClaims
  pub valid : IsReceipt w lib server request calls receipt claims
  pub made : result.1 ≡ call claims ∷ calls
  pub answered : result.0.status ≡ (if w.persists (call claims) calls then 204 else 503)

-- It has refused the request, and made no backend call.
abbrev pub IsRefused : Trace → Response × Trace → Type 0
IsRefused calls result = (result.1 ≡ calls) × (400 ≤ result.0.status) × (result.0.status ≤ 401)

module _ (w : World) (lib : ServerLibrary) (server : Server) (request : Request)
    (calls : Trace) where
  abbrev Settled : (String → (ReceiptClaims → Call) → Type 0) → Response × Trace → Type 0
  Settled = IsSettled w lib server request calls

  -- The common end of the handlers: open the receipt, make the call, answer.
  abbrev settle : (ReceiptClaims → Call) → String → Response → Response × Trace
  settle call receipt failure =
      serve
        (do
          claims ← opened w lib server request receipt
          invoke w (call claims) failure
          reply (write_header 204))
        calls

  settle_lem :
      (Carries : String → (ReceiptClaims → Call) → Type 0) (call : ReceiptClaims → Call)
      (receipt message : String)
      → Carries receipt call
      → IsRefused calls (settle call receipt (write_error 503 message))
        ⊎ Settled Carries (settle call receipt (write_error 503 message))
  settle_lem Carries call receipt message c =
      elim (Quiet-cases _ _ calls _ (opened-Quiet w lib server request calls receipt)) [
        | inr (r, e, q) ↦ rw (e, settle) (inl (refl, omega arith, omega arith))
        | inl (claims, e, valid) ↦
            rw (e, settle)
              (inr (record {
                receipt = receipt;
                call = call;
                carried = c;
                claims = claims;
                valid = valid;
                made = ground arith;
                answered = ground arith;
              }))
      ]

  -- The same of a handler that comes down to it.
  settle_end :
      (Carries : String → (ReceiptClaims → Call) → Type 0) (call : ReceiptClaims → Call)
      (receipt message : String) (result : Response × Trace)
      → Carries receipt call
      → result ≡ settle call receipt (write_error 503 message)
      → IsRefused calls result ⊎ Settled Carries result
  settle_end Carries call receipt message result c e =
      subst (λ r. IsRefused calls r ⊎ Settled Carries r) (sym e)
        (settle_lem Carries call receipt message c)

  abbrev pub CarriesAcknowledgement : String → (ReceiptClaims → Call) → Type 0
  CarriesAcknowledgement receipt call =
      (lib.decode_receipt_request (take 4096 request.body) ≡ some receipt)
      × (call ≡ λ c. acknowledge c.ack_subject)

  -- Acknowledging makes no backend call and answers 400 or 401, or acknowledges exactly the delivery
  -- whose valid receipt the request carries, and answers 204 or, if the backend fails, 503.
  pub acknowledge_command-settles :
      IsRefused calls (serve (acknowledge_command w lib server request) calls)
      ⊎ Settled CarriesAcknowledgement (serve (acknowledge_command w lib server request) calls)
  unfolding acknowledge_command decode_json
  acknowledge_command-settles =
      elim (Quiet-cases _ _ calls _ (authenticate_agent-Quiet w lib server request calls)) [
        | inr (r, e, q) ↦ rw (e, acknowledge_command) (inl (refl, q.0, q.1))
        | inl (_, e, _) ↦
            elim (Option-cases (lib.decode_receipt_request (take 4096 request.body))) [
              | inl bad ↦ rw (e, bad, acknowledge_command, decode_json) (inl (ground arith))
              | inr (receipt, good) ↦
                  settle_end CarriesAcknowledgement (λ c. acknowledge c.ack_subject) receipt
                    "persist command acknowledgement" _ (good, refl)
                    (rw (e, good, acknowledge_command, decode_json))
            ]
      ]

  abbrev pub CarriesRetry : String → (ReceiptClaims → Call) → Type 0
  CarriesRetry receipt call =
      (body : RetryRequest) × (delay : ℕ) × (lib.decode_retry_request (take 4096 request.body)
        ≡ some body)
      × (body.receipt ≡ receipt)
      × (body.delay_seconds ≡ pos delay)
      × (delay ≤ 60)
      × (call ≡ λ c. retry c.ack_subject delay)

  bounded_delay_cases :
      (delay : ℤ)
      → (bounded_delay w lib server request delay ≡ none)
        ⊎ ((seconds : ℕ) × (bounded_delay w lib server request delay ≡ some seconds)
            × (delay ≡ pos seconds)
            × (seconds ≤ 60))
  bounded_delay_cases (pos seconds) = elim (Bool-cases (ltb 60 seconds)) [
    | inl above ↦ inl (ground arith)
    | inr within ↦ inr (seconds, ground arith, refl, ground arith)
  ]
  bounded_delay_cases (negsuc n) = inl refl

  -- Retrying likewise: the call that reaches the backend carries the request's delay, and that is
  -- between 0 and 60 seconds.
  pub retry_command-settles :
      IsRefused calls (serve (retry_command w lib server request) calls)
      ⊎ Settled CarriesRetry (serve (retry_command w lib server request) calls)
  unfolding retry_command decode_json
  retry_command-settles =
      elim (Quiet-cases _ _ calls _ (authenticate_agent-Quiet w lib server request calls)) [
        | inr (r, e, q) ↦ rw (e, retry_command) (inl (refl, q.0, q.1))
        | inl (_, e, _) ↦ elim (Option-cases (lib.decode_retry_request (take 4096 request.body))) [
          | inl bad ↦ rw (e, bad, retry_command, decode_json) (inl (ground arith))
          | inr (body, good) ↦ elim (bounded_delay_cases body.delay_seconds) [
            | inl long ↦ inl (
                rw (e, good, retry_command, decode_json) (rw long (refl, omega arith, omega arith)))
            | inr (delay, within, same, short) ↦
                settle_end CarriesRetry (λ c. retry c.ack_subject delay) body.receipt
                  "persist command acknowledgement" _ (body, delay, good, refl, same, short, refl)
                  (rw (e, good, retry_command, decode_json) (rw within))
          ]
        ]
      ]

  abbrev pub CarriesRejection : String → (ReceiptClaims → Call) → Type 0
  CarriesRejection receipt call =
      (body : RejectRequest) × (lib.decode_reject_request (take 8192 request.body) ≡ some body)
      × (body.receipt ≡ receipt)
      × (body.reason ≢ "")
      × (len body.reason ≤ 4096)
      × (call ≡ λ c. reject_receipt c.ack_subject c.stream_sequence body.reason)

  -- Rejecting likewise, with a reason of 1 to 4096 bytes.
  pub reject_command-settles :
      IsRefused calls (serve (reject_command w lib server request) calls)
      ⊎ Settled CarriesRejection (serve (reject_command w lib server request) calls)
  unfolding reject_command decode_json
  reject_command-settles =
      elim (Quiet-cases _ _ calls _ (authenticate_agent-Quiet w lib server request calls)) [
        | inr (r, e, q) ↦ rw (e, reject_command) (inl (refl, q.0, q.1))
        | inl (_, e, _) ↦ elim (Option-cases (lib.decode_reject_request (take 8192 request.body))) [
          | inl bad ↦ rw (e, bad, reject_command, decode_json) (inl (ground arith))
          | inr (body, good) ↦
              elim (Quiet-cases _ _ calls _
                (opened-Quiet w lib server request calls body.receipt)) [
                  | inr (r, e', q) ↦
                      rw (e, good, reject_command, decode_json)
                        (rw e' (inl (refl, omega arith, omega arith)))
                  | inl (claims, e', valid) ↦
                      elim (Bool-cases
                        (not (str_eq body.reason "" || ltb 4096 (len body.reason)))) [
                          | inr bad ↦
                              rw (e, good, reject_command, decode_json)
                                (rw (e', bad) (inl (ground arith)))
                          | inl fine ↦
                              settle_end CarriesRejection
                                (λ c. reject_receipt c.ack_subject c.stream_sequence body.reason)
                                body.receipt "persist rejected command" _
                                (
                                  body,
                                  good,
                                  refl,
                                  ground (arith, eq_iff body.reason ""),
                                  ground arith,
                                  refl,
                                )
                                (rw (e, good, reject_command, decode_json) (rw (e', fine)))
                        ]
                ]
        ]
      ]
