-- ===== src/Gateway/Commands/Deliver.antt =====
-- What `nextCommand` delivers, and that it ends (internal/gateway/server.go).
use platform_orchestrator_ru.Base.{
  ℕ, zero, suc, String, ◌≡◌, refl, ◌≢◌, inl, inr, false, some, ok, err, arith, eq_iff, Result, ◌∷◌,
  ◌+◌, subst, ◌∙◌, ap,
}
use platform_orchestrator_ru.Gateway.Http.{
  World, Request, Response, Trace, fetch_command, CommandDelivery, delivered, write_json, Fetched,
  Quiet-cases, no_command, unavailable,
}
use platform_orchestrator_ru.Gateway.Commands.{
  judge, CommandEnvelope, ServerLibrary, is_expired, deliver, Response, round, rounds, Trace,
  fetch_command, finished, Round-cases, CommandDelivery, delivered, seal, claims_of, delivery_lease,
  write_json, answer, Verdict, Fetched, act, after_fetch, refuse, next_command,
}
use platform_orchestrator_ru.Gateway.Authentication.{ServerLibrary, Server}
use platform_orchestrator_ru.Messaging.{CommandEnvelope}
use platform_orchestrator_ru.Gateway.Receipt.{seal}
use platform_orchestrator_ru.Gateway.Commands.Opened.{authenticate_agent-Quiet}

-- A command that the handler may hand out to the runner of the request at the given time.
pub record IsFor (request : Request) (now : ℕ) (envelope : CommandEnvelope) : Type 0 where
  pub organization : envelope.organization_id ≡ request.organization_id
  pub runner : envelope.runner_id ≡ request.runner_id
  pub named : envelope.command_id ≢ ""
  pub current : is_expired envelope.expires_at now ≡ false

judge-IsFor :
    (decoded : Result CommandEnvelope) (request : Request) (now : ℕ) (envelope : CommandEnvelope)
    → judge decoded request now ≡ deliver envelope
    → (decoded ≡ ok envelope) × IsFor request now envelope
unfolding judge
judge-IsFor (err e) request now envelope h = cc
judge-IsFor (ok c) request now envelope h = ground (
  arith,
  eq_iff c.organization_id request.organization_id,
  eq_iff c.runner_id request.runner_id,
  eq_iff c.command_id "",
)

-- Where a 200 response comes from: the last of the fetches, made after the calls `before`.
pub record IsDelivery (w : World) (lib : ServerLibrary) (server : Server) (request : Request)
    (response : Response) (calls : Trace) : Type 0 where
  pub before : Trace
  pub fetch : calls ≡ fetch_command request.organization_id request.runner_id ∷ before
  pub delivery : CommandDelivery
  pub fetched : w.fetched before ≡ delivered delivery
  pub envelope : CommandEnvelope
  pub decoded : lib.messaging.unmarshal_command delivery.message.payload ≡ ok envelope
  pub fits : IsFor request (w.time calls) envelope
  pub receipt : String
  pub sealed :
      seal lib.receipts server.receipts
        (w.random calls)
        (claims_of w lib server request delivery envelope (w.time calls + delivery_lease))
      ≡ ok receipt
  pub response_is :
      response
      ≡ write_json 200 (record {
        command = delivery.message.payload;
        receipt = receipt;
        attempt = delivery.attempts;
        lease_expires_at = w.time calls + delivery_lease;
      })

module _ (w : World) (lib : ServerLibrary) (server : Server) (request : Request) (before : Trace)
    (response : Response) (calls' : Trace) (success : response.status ≡ 200) where
  abbrev fetched_calls : Trace
  fetched_calls = fetch_command request.organization_id request.runner_id ∷ before

  abbrev Goal : Type 0
  Goal = IsDelivery w lib server request response calls'

  answer-IsDelivery :
      (delivery : CommandDelivery) (envelope : CommandEnvelope) (sealed : Result String)
      → w.fetched before ≡ delivered delivery
      → lib.messaging.unmarshal_command delivery.message.payload ≡ ok envelope
      → IsFor request (w.time fetched_calls) envelope
      → seal lib.receipts server.receipts
          (w.random fetched_calls)
          (claims_of w lib server request delivery envelope (w.time fetched_calls + delivery_lease))
        ≡ sealed
      → answer w lib server request sealed delivery
          (w.time fetched_calls + delivery_lease)
          fetched_calls
        ≡ finished response calls'
      → Goal
  answer-IsDelivery delivery envelope (err m) f d fits s e = absurd (ground arith)
  answer-IsDelivery delivery envelope (ok receipt) f d fits s e = record {
    before = before;
    fetch = cc;
    delivery = delivery;
    fetched = f;
    envelope = envelope;
    decoded = d;
    fits = subst (λ c. IsFor request (w.time c) envelope) (same e) fits;
    receipt = receipt;
    sealed =
        subst
          (λ c.
            seal lib.receipts server.receipts (w.random c)
              (claims_of w lib server request delivery envelope (w.time c + delivery_lease))
            ≡ ok receipt)
          (same e) s;
    response_is = ground arith;
  }
    where
      same : {r r' : Response} {c c' : Trace} → finished r c ≡ finished r' c' → c ≡ c'
      same h = cc

  act-IsDelivery :
      (delivery : CommandDelivery) (verdict : Verdict)
      → w.fetched before ≡ delivered delivery
      → judge
          (lib.messaging.unmarshal_command delivery.message.payload)
          request
          (w.time fetched_calls)
        ≡ verdict
      → act w lib server request verdict delivery (w.time fetched_calls) fetched_calls
        ≡ finished response calls'
      → Goal
  act-IsDelivery delivery (refuse cause failure) f j e = absurd (ground arith)
  act-IsDelivery delivery (deliver envelope) f j e =
      let (decoded, fits) = judge-IsFor _ request (w.time fetched_calls) envelope j in
      answer-IsDelivery delivery envelope _ f decoded fits refl e

  after_fetch-IsDelivery :
      (f : Fetched)
      → w.fetched before ≡ f
      → after_fetch w lib server request f fetched_calls ≡ finished response calls'
      → Goal
  after_fetch-IsDelivery no_command f e = absurd (ground arith)
  after_fetch-IsDelivery unavailable f e = absurd (ground arith)
  after_fetch-IsDelivery (delivered delivery) f e = act-IsDelivery delivery _ f refl e

  round-IsDelivery : round w lib server request before ≡ finished response calls' → Goal
  unfolding round
  round-IsDelivery e = after_fetch-IsDelivery _ refl e

module _ (w : World) (lib : ServerLibrary) (server : Server) (request : Request) where
  rounds-IsDelivery :
      (fuel : ℕ) (calls calls' : Trace) (response : Response)
      → rounds w lib server request fuel calls ≡ some (response, calls')
      → response.status ≡ 200
      → IsDelivery w lib server request response calls'
  unfolding rounds
  rounds-IsDelivery zero calls calls' response e s = cc
  rounds-IsDelivery (suc fuel) calls calls' response e s =
      elim (Round-cases (round w lib server request calls)) [
        | inl (r, c, e') ↦
            round-IsDelivery w lib server request calls response calls' s
              (e' ∙ ground (arith, rw (e', rounds) at e))
        | inr (c, e') ↦ rounds-IsDelivery fuel c calls' response (rw (e', rounds) at e) s
      ]

  -- A 200 response of `nextCommand` hands out the command of its last fetch, which the backend
  -- delivered for this organization and runner, whose envelope names them and has not expired, with a
  -- receipt sealed for exactly that delivery and for 90 seconds.
  pub next_command-IsDelivery :
      (fuel : ℕ) (calls calls' : Trace) (response : Response)
      → next_command w lib server request fuel calls ≡ some (response, calls')
      → response.status ≡ 200
      → IsDelivery w lib server request response calls'
  unfolding next_command
  next_command-IsDelivery fuel calls calls' response e s =
      elim (Quiet-cases _ _ calls _ (authenticate_agent-Quiet w lib server request calls)) [
        | inl (_, a, _) ↦ rounds-IsDelivery fuel calls calls' response (rw (a, next_command) at e) s
        | inr (r, a, q) ↦
            let denied : r ≡ response = ground (arith, rw (a, next_command) at e) in
            absurd (omega (arith, q.1, ap (λ (x : Response). x.status) denied))
      ]
