-- ===== src/GatewayApi/Outbox/Stores.antt =====
-- What a call of PostResults without an error leaves, and what Flush then makes of it
-- (internal/gatewayapi/outbox.go).
use platform_orchestrator_ru.GatewayApi.Outbox.{
  OutboxLibrary, OutboxOperation, Client, Bytes, call_disk, String, renamed, store_contents, Result,
  or_store, Returned, OutboxState, store, read_file, file_name, called, result_operation,
  flush_outbox, post_results_or_store,
}
use platform_orchestrator_ru.GatewayApi.Client.{Client, ClientRequest, Reply, results_request}
use platform_orchestrator_ru.Base.{
  Bytes, String, Result, ◌≡◌, Option, some, List, ok, ◌∷◌, ap, none, Bool-cases, ◌∙◌, ◌⊎◌, refl,
  inl, inr, [], ℕ, suc, err, zero, subst, sym,
}
use platform_orchestrator_ru.GatewayApi.Outbox.Spec.{
  Accepted, or_none, delivery_of, result_delivery,
}
use platform_orchestrator_ru.GatewayApi.Outbox.Sends.{
  Delivers, delivered, unsent, refused, send_results-Delivers,
}
use platform_orchestrator_ru.GatewayApi.Outbox.Spec.NotLost.{
  read_file-replace_file, steps-Accepted, steps-HeldOr,
}
use platform_orchestrator_ru.GatewayApi.Outbox.Refines.{Accepted-last, flush_outbox-Flushes}

-- encoding/json gives back an operation that it encodes, and leaves the content as it is, which
-- encoding/json made.
pub record OutboxLaws (lib : OutboxLibrary) (operation : OutboxOperation) : Type 0 where
  pub unmarshal_marshal :
      (contents : Bytes)
      → lib.marshal_operation operation ≡ some contents
      → lib.unmarshal_operation contents ≡ some operation
  pub raw :
      (contents : Bytes)
      → lib.marshal_raw operation.content ≡ some contents
      → contents ≡ operation.content

module _ (lib : OutboxLibrary) (c : Client) where
  call_disk-ok {ℓ} :
      (Q : Returned → Type ℓ) (calls : List String) (s : OutboxState) (k : OutboxState → Returned)
      → ((s' : OutboxState) → s'.files ≡ s.files → (k s').error ≡ ok tt → Q (k s'))
      → (call_disk lib c calls s k).error ≡ ok tt
      → Q (call_disk lib c calls s k)
  unfolding call_disk
  call_disk-ok Q [] s k go h = go s refl h
  call_disk-ok Q (call ∷ calls) s k go h = elim (Bool-cases (lib.disk_works s.disk_calls)) [
    | inl works ↦ rw works (call_disk-ok Q calls (called s) k go (rw works at h))
    | inr fails ↦ absurd (cc (fails, rw fails at h))
  ]

  abbrev Holds : String → Bytes → Returned → Type 0
  Holds name contents r = read_file name r.after.files ≡ some contents

  renamed-Holds :
      (name : String) (contents : Bytes) (s : OutboxState)
      → (renamed lib c name contents s).error ≡ ok tt
      → Holds name contents (renamed lib c name contents s)
  unfolding renamed
  renamed-Holds name contents s =
      call_disk-ok (Holds name contents) _ _ _
        λ s' files _. ap (read_file name) files ∙ read_file-replace_file name contents s.files

  store_contents-Holds :
      (name : String) (marshalled : Option Bytes) (s : OutboxState)
      → (store_contents lib c name marshalled s).error ≡ ok tt
      → (contents : Bytes) × (marshalled ≡ some contents)
        × Holds name contents (store_contents lib c name marshalled s)
  unfolding store_contents
  store_contents-Holds name none s h = cc
  store_contents-Holds name (some contents) s h = (
    contents,
    refl,
    call_disk-ok (Holds name contents) _ s _ (λ s' _. renamed-Holds name contents s') h,
  )

  -- An operation is kept: it was delivered with its request, or it is in the spool.
  abbrev pub IsKept : OutboxOperation → Result ClientRequest → OutboxState → Type 0
  IsKept operation described s =
      ((request : ClientRequest) × (described ≡ ok request) × Accepted request s.sent)
      ⊎ ((contents : Bytes) × (lib.marshal_operation operation ≡ some contents)
          × (read_file (file_name lib c operation) s.files ≡ some contents))

  or_store-IsKept :
      (results : Option Bytes) (operation : Bytes → OutboxOperation) (s : OutboxState)
      {described : Option ClientRequest} {reply : Reply (Unit {0})}
      → Delivers described s.sent reply
      → (or_store lib c reply.value reply.sent results operation s).error ≡ ok tt
      → ((request : ClientRequest) × (described ≡ some request)
          × Accepted request (or_store lib c reply.value reply.sent results operation s).after.sent)
        ⊎ ((content contents : Bytes) × (results ≡ some content)
            × (lib.marshal_operation (operation content) ≡ some contents)
            × (read_file
                  (file_name lib c (operation content))
                  (or_store lib c reply.value reply.sent results operation s).after.files
                ≡ some contents))
  unfolding or_store store
  or_store-IsKept results operation s (delivered request exchange described same status) h =
      inl (request, described, Accepted-last lib c request s.sent exchange same status)
  or_store-IsKept none operation s (unsent e) h = cc
  or_store-IsKept none operation s (refused e exchange) h = cc
  or_store-IsKept (some content) operation s (unsent e) h =
      let (contents, marshalled, held) = store_contents-Holds _ _ _ h in
      inr (content, contents, refl, marshalled, held)
  or_store-IsKept (some content) operation s (refused e exchange) h =
      let (contents, marshalled, held) = store_contents-Holds _ _ _ h in
      inr (content, contents, refl, marshalled, held)

  -- A number of calls of Flush.
  abbrev pub flushes : ℕ → OutboxState → OutboxState
  flushes zero s = s
  flushes (suc n) s = flushes n (flush_outbox lib c s).after

  some_same {ℓ} : {A : Type ℓ} {a b : A} → some a ≡ some b → a ≡ b
  some_same e = cc

  pub or_none-ok :
      {r : Result ClientRequest} {request : ClientRequest}
      → or_none r ≡ some request
      → r ≡ ok request
  or_none-ok {r = err e} h = cc
  or_none-ok {r = ok a} h = cc

  module _ (deployment_id token : String) (content : Bytes)
      (laws : OutboxLaws lib (result_operation lib c deployment_id token content)) where
    abbrev posted : OutboxOperation
    posted = result_operation lib c deployment_id token content

    abbrev request_of_post : Result ClientRequest
    request_of_post = results_request lib.client_library c deployment_id token content

    result_described :
        (marshalled : Option Bytes) (request : ClientRequest)
        → lib.marshal_raw content ≡ marshalled
        → result_delivery lib c posted marshalled ≡ some request
        → request_of_post ≡ ok request
    unfolding result_delivery result_operation
    result_described none request e h = cc
    result_described (some contents) request e h = or_none-ok (
        subst
          (λ bytes.
            or_none (results_request lib.client_library c deployment_id token bytes) ≡ some request)
          (laws.raw contents e) h)

    described_request :
        (request : ClientRequest)
        → delivery_of lib c posted ≡ some request
        → request_of_post ≡ ok request
    unfolding delivery_of result_operation
    described_request request h = result_described (lib.marshal_raw content) request refl h

    flush_outbox-IsKept :
        (s : OutboxState)
        → IsKept posted request_of_post s
        → IsKept posted request_of_post (flush_outbox lib c s).after
    flush_outbox-IsKept s (inl (request, described, accepted)) =
        inl (
          request,
          described,
          steps-Accepted lib c (flush_outbox-Flushes lib c s).0 request accepted,
        )
    flush_outbox-IsKept s (inr (contents, marshalled, held)) =
        let (steps, none_replaced) = flush_outbox-Flushes lib c s in
        elim (steps-HeldOr lib c steps _ contents held (none_replaced _)) [
          | inl still ↦ inr (contents, marshalled, still)
          | inr d ↦
              let e : d.operation ≡ posted =
                some_same (sym d.unmarshalled ∙ laws.unmarshal_marshal contents marshalled) in
              inl (
                d.request,
                described_request d.request (ap (delivery_of lib c) (sym e) ∙ d.described),
                d.accepted,
              )
        ]

    pub flushes-IsKept :
        (n : ℕ) (s : OutboxState)
        → IsKept posted request_of_post s
        → IsKept posted request_of_post (flushes n s)
    flushes-IsKept zero s kept = kept
    flushes-IsKept (suc n) s kept = flushes-IsKept n _ (flush_outbox-IsKept s kept)

    -- A result for which PostResults returns no error is not lost: at once, and after any number of
    -- calls of Flush, the gateway has accepted the request that posts it, or the spool holds the
    -- operation in its file.
    pub post_results_or_store-IsKept :
        (n : ℕ) (s : OutboxState)
        → (post_results_or_store lib c deployment_id token (some content) s).error ≡ ok tt
        → IsKept posted request_of_post
            (flushes n (post_results_or_store lib c deployment_id token (some content) s).after)
    unfolding post_results_or_store result_operation result_delivery
    post_results_or_store-IsKept n s h =
        flushes-IsKept n _
          (elim (or_store-IsKept (some content) (result_operation lib c deployment_id token) s
            (send_results-Delivers lib c s.sent posted (some content)) h) [
              | inl (request, described, accepted) ↦ inl (request, or_none-ok described, accepted)
              | inr (content', contents, same, marshalled, held) ↦ inr (
                  subst
                    (λ bytes.
                      (found : Bytes) × (lib.marshal_operation
                          (result_operation lib c deployment_id token bytes)
                        ≡ some found)
                      × (read_file
                            (file_name lib c (result_operation lib c deployment_id token bytes))
                            (post_results_or_store lib c deployment_id token (some content)
                              s).after.files
                          ≡ some found))
                    (some_same (sym same)) (contents, marshalled, held))
            ])
