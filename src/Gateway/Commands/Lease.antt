-- ===== src/Gateway/Commands/Lease.antt =====
-- From delivery to acknowledgement: the receipt that `nextCommand` hands out is the one that
-- `acknowledgeCommand` accepts, and the loop of `nextCommand` ends (internal/gateway/server.go).
use platform_orchestrator_ru.Base.{
  ℕ, zero, suc, ◌+◌, ◌*◌, ◌/◌, String, ◌≡◌, refl, ◌≢◌, ◌<◌, ◌≤◌, some, ok, arith, Bytes, length,
  inl, inr, ◌∷◌, take, [], eq_iff, sym,
}
use platform_orchestrator_ru.Gateway.Http.{
  World, serve, Trace, Request, Response, no_command, CommandDelivery, Fetched, Quiet-cases,
  decode_json, delivered, reject, unavailable, next, acknowledge, write_header,
}
use platform_orchestrator_ru.Gateway.Authentication.{Server, ServerLibrary, authenticate_agent}
use platform_orchestrator_ru.Gateway.Receipt.Opens.{
  ReceiptLaws, IsComplete, open_receipt-seal_iff, seal-random,
}
use platform_orchestrator_ru.Gateway.Commands.Deliver.{IsDelivery}
use platform_orchestrator_ru.Gateway.Commands.{
  claims_of, delivery_lease, second, open_receipt, opened, acknowledge_command, no_command,
  CommandDelivery, Fetched, rounds, next_command, receipt_matches, decode_json, fetch_command,
  delivered, Verdict, after_fetch, round, ReceiptClaims, reject, act, again, Round-cases, next,
  refuse, acknowledge, deliver, write_header,
}
use platform_orchestrator_ru.GatewayApi.Token.{second}
use platform_orchestrator_ru.Gateway.Receipt.{open_receipt, ReceiptClaims}
use platform_orchestrator_ru.Gateway.Commands.Opened.{authenticate_agent-Quiet}

-- Every sealed receipt has a nonce of the cipher's size.
abbrev pub HasNonces : World → Server → Type 0
HasNonces w server =
    (calls : Trace) (nonce : Bytes)
    → w.random calls ≡ some nonce
    → length nonce ≡ server.receipts.nonce_size

-- A receipt that opens to claims for the request's command lets the handler go on with them.
opened_of_open :
    (w : World) (lib : ServerLibrary) (server : Server) (request : Request) (calls : Trace)
    (receipt : String) (claims : ReceiptClaims)
    → open_receipt lib.receipts server.receipts receipt (w.time calls) ≡ ok claims
    → claims.organization_id ≡ request.organization_id
    → claims.runner_id ≡ request.runner_id
    → claims.command_id ≡ request.command_id
    → opened w lib server request receipt calls ≡ (next claims, calls)
unfolding opened receipt_matches
opened_of_open w lib server request calls receipt claims opens o r c =
    rw (opens, opened)
      (ground (
        arith,
        eq_iff claims.organization_id request.organization_id,
        eq_iff claims.runner_id request.runner_id,
        eq_iff claims.command_id request.command_id,
      ))

module _ (w : World) (lib : ServerLibrary) (server : Server) (nonces : HasNonces w server)
    (request : Request) (response : Response) (calls : Trace)
    (d : IsDelivery w lib server request response calls)
    (laws : ReceiptLaws lib.receipts server.receipts
      (claims_of w lib server request d.delivery d.envelope (w.time calls + delivery_lease)))
    (organization : request.organization_id ≢ "") (runner : request.runner_id ≢ "")
    (subject : d.delivery.ack_subject ≢ "") (sequence : d.delivery.stream_sequence ≢ 0) where
  claims_of-IsComplete :
      IsComplete
        (claims_of w lib server request d.delivery d.envelope (w.time calls + delivery_lease))
  unfolding claims_of
  claims_of-IsComplete = record {
    organization = organization;
    runner = runner;
    command = d.fits.named;
    subject = subject;
    sequence = sequence;
  }

  -- The receipt opens to the delivery's claims until the second in which the lease ends.
  receipt-opens :
      (now : ℕ)
      → now < (w.time calls + delivery_lease) / second * second
      → open_receipt lib.receipts server.receipts d.receipt now
        ≡ ok (claims_of w lib server request d.delivery d.envelope (w.time calls + delivery_lease))
  unfolding claims_of
  receipt-opens now early =
      let (nonce, given) =
        seal-random lib.receipts server.receipts (w.random calls) _ d.receipt d.sealed in
      (open_receipt-seal_iff lib.receipts server.receipts nonce _ laws now d.receipt
          (nonces calls nonce given) claims_of-IsComplete (rw given at d.sealed)).1
        early

  -- Until the whole second in which the lease of a delivered command ends, an authenticated
  -- acknowledgement that names the delivered command and carries the receipt that was handed out with
  -- it acknowledges exactly that delivery, if the delivery has a subject for acknowledgements and a
  -- stream sequence that is not zero, the organization and the runner are named, and the nonces and
  -- the receipt's cipher and encodings are as documented.
  pub acknowledge_command-IsDelivery :
      (w' : World) (ack : Request) (calls' : Trace)
      → ack.organization_id ≡ request.organization_id
      → ack.runner_id ≡ request.runner_id
      → ack.command_id ≡ d.envelope.command_id
      → lib.decode_receipt_request (take 4096 ack.body) ≡ some d.receipt
      → authenticate_agent w' lib server ack calls' ≡ (next tt, calls')
      → w'.time calls' < (w.time calls + delivery_lease) / second * second
      → (serve (acknowledge_command w' lib server ack) calls').1
        ≡ acknowledge d.delivery.ack_subject ∷ calls'
  unfolding acknowledge_command decode_json claims_of
  acknowledge_command-IsDelivery w' ack calls' same_org same_runner same_command body granted
        early =
      let valid =
        opened_of_open w' lib server ack calls' d.receipt _ (receipt-opens (w'.time calls') early)
          (sym same_org) (sym same_runner) (sym same_command) in
      rw (granted, body, acknowledge_command, decode_json) (rw valid (ground arith))

-- How often a handler has fetched.
abbrev pub fetches : Trace → ℕ
fetches [] = 0
fetches (fetch_command organization_id runner_id ∷ calls) = suc (fetches calls)
fetches (_ ∷ calls) = fetches calls

-- The context ends: from some number of fetches on, a fetch finds no command.
abbrev pub Drains : World → ℕ → Type 0
Drains w limit = (calls : Trace) → limit ≤ fetches calls → w.fetched calls ≡ no_command

module _ (w : World) (lib : ServerLibrary) (server : Server) (request : Request) where
  -- A round that fetches again has rejected what it fetched.
  abbrev Rejected : Trace → Trace → Type 0
  Rejected calls calls' =
      (delivery : CommandDelivery) × (cause : String) × (w.fetched calls ≡ delivered delivery)
      × (calls'
          ≡ reject delivery cause ∷ fetch_command request.organization_id request.runner_id ∷ calls)

  act-Rejected :
      (delivery : CommandDelivery) (calls calls' : Trace) (now : ℕ) (verdict : Verdict)
      → act w lib server request verdict delivery now calls ≡ again calls'
      → (cause : String) × (calls' ≡ reject delivery cause ∷ calls)
  act-Rejected delivery calls calls' now (refuse cause failure) e = (cause, ground arith)
  act-Rejected delivery calls calls' now (deliver envelope) e = absurd (ground arith)

  round-Rejected :
      (calls calls' : Trace) (f : Fetched)
      → w.fetched calls ≡ f
      → after_fetch w lib server request f
          (fetch_command request.organization_id request.runner_id ∷ calls)
        ≡ again calls'
      → Rejected calls calls'
  round-Rejected calls calls' no_command f e = absurd (ground arith)
  round-Rejected calls calls' unavailable f e = absurd (ground arith)
  round-Rejected calls calls' (delivered delivery) f e =
      let (cause, same) = act-Rejected delivery _ calls' _ _ e in (delivery, cause, f, same)

  rounds-finish :
      (limit : ℕ)
      → Drains w limit
      → (fuel : ℕ) (calls : Trace) → limit ≤ fuel + fetches calls
      → (result : Response × Trace) × (rounds w lib server request (suc fuel) calls ≡ some result)
  unfolding rounds round
  rounds-finish limit drains zero calls h =
      let last = drains calls (omega arith) in
      (
        (write_header 204, fetch_command request.organization_id request.runner_id ∷ calls),
        rw (last, rounds, round),
      )
  rounds-finish limit drains (suc fuel) calls h =
      elim (Round-cases (round w lib server request calls)) [
        | inl (r, c, e) ↦ ((r, c), rw (e, rounds))
        | inr (c, e) ↦
            let (delivery, cause, f, same) = round-Rejected calls c _ refl e in
            let more : fetches c ≡ suc (fetches calls) = rw same in
            let (result, found) = rounds-finish limit drains fuel c (omega arith) in
            (result, rw (e, rounds) found)
      ]

  -- The handler answers every request once the context's deadline makes fetches come back empty:
  -- fuel for one round more than the fetches until then is enough.
  pub next_command-finishes :
      (limit : ℕ)
      → Drains w limit
      → (fuel : ℕ) (calls : Trace) → limit ≤ fuel + fetches calls
      → (result : Response × Trace) × (next_command w lib server request (suc fuel) calls
          ≡ some result)
  unfolding next_command
  next_command-finishes limit drains fuel calls h =
      elim (Quiet-cases _ _ calls _ (authenticate_agent-Quiet w lib server request calls)) [
        | inl (_, a, _) ↦
            let (result, found) = rounds-finish limit drains fuel calls h in
            (result, rw (a, next_command) found)
        | inr (r, a, q) ↦ ((r, calls), rw (a, next_command))
      ]
