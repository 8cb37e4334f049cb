-- ===== src/CommandLine/Kept.antt =====
-- The result of a deployment on its way from the program to the gateway (cmd/runner/main.go).
use platform_orchestrator_ru.CommandLine.{
  flush_ticks, ProgramLibrary, Client, StandardModeConfiguration, ℕ, List, Bytes, OutboxState,
  Reply, or_give_up, publish_deployment_result_to_gateway, send_results, without_outbox,
  post_results_or_store, new_client, with_sent, standard_client_config, new_outbox,
}
use platform_orchestrator_ru.GatewayApi.Outbox.{
  OutboxLibrary, OutboxState, result_operation, post_results_or_store, with_sent,
}
use platform_orchestrator_ru.GatewayApi.Client.{
  Client, Exchange, ClientRequest, Reply, results_request, send_results,
}
use platform_orchestrator_ru.Settings.{StandardModeConfiguration}
use platform_orchestrator_ru.Base.{
  ℕ, List, Bytes, ◌≡◌, Option, suc, Result, zero, ok, some, refl, err, Bool-cases, str_eq, inl, inr,
}
use platform_orchestrator_ru.GatewayApi.Outbox.Stores.{
  OutboxLaws, flushes, IsKept, post_results_or_store-IsKept, flushes-IsKept, or_none-ok,
}
use platform_orchestrator_ru.GatewayApi.Outbox.Spec.{result_delivery, Accepted}
use platform_orchestrator_ru.GatewayApi.Outbox.Sends.{
  Delivers, unsent, send_results-Delivers, refused, delivered,
}
use platform_orchestrator_ru.GatewayApi.Client.Create.{new_client}
use platform_orchestrator_ru.GatewayApi.Outbox.Refines.{Accepted-last}

flush_ticks-flushes :
    (lib : ProgramLibrary) (client : Client) (ticks : ℕ) (s : OutboxState)
    → flush_ticks lib client ticks s ≡ flushes lib.outbox_library client (suc ticks) s
unfolding flush_ticks
flush_ticks-flushes lib client zero s = refl
flush_ticks-flushes lib client (suc ticks) s = flush_ticks-flushes lib client ticks _

-- A delivery without an error sent the request, and it was accepted.
Delivers-Accepted :
    (lib : OutboxLibrary) (c : Client) (sent : List Exchange) {described : Option ClientRequest}
    {reply : Reply (Unit {0})}
    → Delivers described sent reply
    → reply.value ≡ ok tt
    → (request : ClientRequest) × (described ≡ some request) × Accepted request reply.sent
Delivers-Accepted lib c sent (unsent e) h = cc
Delivers-Accepted lib c sent (refused e exchange) h = cc
Delivers-Accepted lib c sent (delivered request exchange described same status) h =
    (request, described, Accepted-last lib c request sent exchange same status)

module _ (lib : ProgramLibrary) (c : StandardModeConfiguration) (client : Client) (content : Bytes)
    (s : OutboxState)
    (laws : OutboxLaws lib.outbox_library (
      result_operation lib.outbox_library client c.deployment_id c.deployment_token_value
        content)) where
  -- The result is accepted or in the spool.
  abbrev pub ResultKept : OutboxState → Type 0
  ResultKept =
      IsKept lib.outbox_library client
        (result_operation lib.outbox_library client c.deployment_id c.deployment_token_value
          content)
        (results_request lib.outbox_library.client_library client c.deployment_id
          c.deployment_token_value content)

  spooled-ResultKept :
      (made : Result (Unit {0})) (ticks : ℕ)
      → (or_give_up lib made s λ _.
          post_results_or_store lib.outbox_library client c.deployment_id c.deployment_token_value
            (some content)
            s).error
        ≡ ok tt
      → ResultKept (
          flushes lib.outbox_library client ticks
            (or_give_up lib made s λ _.
              post_results_or_store lib.outbox_library client c.deployment_id
                c.deployment_token_value
                (some content)
                s).after)
  unfolding or_give_up
  spooled-ResultKept (err message) ticks h = cc
  spooled-ResultKept (ok u) ticks h =
      post_results_or_store-IsKept lib.outbox_library client c.deployment_id
        c.deployment_token_value content laws ticks s h

  sent-ResultKept :
      (ticks : ℕ)
      → (send_results lib.outbox_library.client_library client c.deployment_id
          c.deployment_token_value
          (some content)
          s.sent).value
        ≡ ok tt
      → ResultKept (
          flushes lib.outbox_library client ticks (
            with_sent s
              (send_results lib.outbox_library.client_library client c.deployment_id
                c.deployment_token_value
                (some content)
                s.sent).sent))
  unfolding result_operation result_delivery
  sent-ResultKept ticks h =
      let (request, described, accepted) =
        Delivers-Accepted lib.outbox_library client s.sent
          (send_results-Delivers lib.outbox_library client s.sent
            (result_operation lib.outbox_library client c.deployment_id c.deployment_token_value
              content)
            (some content))
          h in
      flushes-IsKept lib.outbox_library client c.deployment_id c.deployment_token_value content laws
        ticks _ (inl (request, or_none-ok lib.outbox_library client described, accepted))

  -- A result that the program publishes without an error is not lost: with a spool or without one,
  -- and however often the flusher of the outbox ticks later, the gateway has accepted the request that
  -- posts it, or the spool holds it.
  pub publish_deployment_result_to_gateway-ResultKept :
      (ticks : ℕ)
      → new_client lib.tls (standard_client_config c) ≡ ok client
      → (publish_deployment_result_to_gateway lib c (some content) s).error ≡ ok tt
      → ResultKept (
          flush_ticks lib client ticks
            (publish_deployment_result_to_gateway lib c (some content) s).after)
  unfolding publish_deployment_result_to_gateway or_give_up without_outbox
  publish_deployment_result_to_gateway-ResultKept ticks created h =
      rw
        (flush_ticks-flushes lib client ticks
          (publish_deployment_result_to_gateway lib c (some content) s).after)
        (elim (Bool-cases (str_eq c.gateway.outbox_dir "")) [
          | inl direct ↦
              rw (created, direct) (sent-ResultKept (suc ticks) (rw (created, direct) at h))
          | inr spool ↦
              rw (created, spool)
                (spooled-ResultKept (new_outbox lib c.gateway.outbox_dir) (suc ticks)
                  (rw (created, spool) at h))
        ])
