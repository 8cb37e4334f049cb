-- ===== src/Gateway/Consumers/Own.antt =====
-- A runner's commands are fetched from its own consumer (internal/gateway/backend.go and
-- internal/natstransport/transport.go).
use platform_orchestrator_ru.Base.{
  ◌∷◌, [], with_ok, ok, err, some, inl, inr, refl, fail_if-ok, or_fail-some, String, ◌≡◌, Bool,
  Result, true, or_fail, fail_if, Option-cases, subst, not, Result-cases, sym, ok-injective, ◌∙◌,
  false, ap, not-not, Bool-cases, str_eq, eq_iff,
}
use platform_orchestrator_ru.Gateway.Transport.{
  Subscription, JetStream, subscribe, new_runner_consumer, durable_name, bootstrap,
}
use platform_orchestrator_ru.Gateway.Consumers.{
  Consumers, load, load_or_store, consumer_for, cache_after, cache_key_of,
}
use platform_orchestrator_ru.Gateway.Keys.Fresh.{no_nul, cache_key_of-injective}
use platform_orchestrator_ru.Gateway.Keys.{cache_key_of}

-- The consumer was subscribed with the runner's subject and durable name.
abbrev pub IsOwn : JetStream → (organization_id runner_id : String) → Subscription → Type 0
IsOwn js organization_id runner_id consumer =
    (js.messaging.runner_command_subject organization_id runner_id ≡ some consumer.subject)
    × (consumer.stream ≡ js.runner_commands_stream_name)
    × (consumer.durable ≡ durable_name js organization_id runner_id)
    × (js.pull_subscribe consumer ≡ true)

-- The caches that calls of FetchCommand leave. A call loads from any cache that it can see and stores in
-- the one that there is later, so calls may run at the same time.
pub data IsReached (js : JetStream) : Consumers → Type 0 where
  none_yet : IsReached js []
  call_ends :
      (organization_id runner_id : String) (seen consumers : Consumers)
      → no_nul organization_id ≡ true
      → IsReached js seen
      → IsReached js consumers
      → IsReached js
          (cache_after js (consumer_for js organization_id runner_id seen consumers) consumers)

same_consumer : {a b : Subscription} → some a ≡ some b → a ≡ b
same_consumer e = cc

module _ (js : JetStream) where
  IsEntry : (key : String) → Subscription → Type 0
  IsEntry key consumer =
      (organization_id : String) × (runner_id : String) × (no_nul organization_id ≡ true)
      × (key ≡ cache_key_of organization_id runner_id)
      × IsOwn js organization_id runner_id consumer

  AllOwn : Consumers → Type 0
  AllOwn [] = Unit
  AllOwn ((key, consumer) ∷ rest) = IsEntry key consumer × AllOwn rest

  entry_lem :
      (organization_id runner_id : String) (consumer : Subscription)
      → no_nul organization_id ≡ true
      → IsEntry (cache_key_of organization_id runner_id) consumer
      → IsOwn js organization_id runner_id consumer
  unfolding IsEntry
  entry_lem organization_id runner_id consumer named (o, r, o_named, key_is, own) =
      let (o_is, r_is) =
        cache_key_of-injective organization_id o runner_id r named o_named key_is in
      subst (λ o. IsOwn js o runner_id consumer) (sym o_is)
        (subst (λ r. IsOwn js o r consumer) (sym r_is) own)

  load-IsOwn :
      (consumers : Consumers) (organization_id runner_id : String) (consumer : Subscription)
      → no_nul organization_id ≡ true
      → AllOwn consumers
      → load (cache_key_of organization_id runner_id) consumers ≡ some consumer
      → IsOwn js organization_id runner_id consumer
  unfolding load AllOwn IsEntry
  load-IsOwn [] organization_id runner_id consumer named h e = cc
  load-IsOwn ((key, stored) ∷ rest) organization_id runner_id consumer named (here, later) e =
      elim (Bool-cases (str_eq (cache_key_of organization_id runner_id) key)) [
        | inr other ↦ load-IsOwn rest organization_id runner_id consumer named later (rw other at e)
        | inl same ↦
            let key_is = (eq_iff _ _).0 same in
            entry_lem organization_id runner_id consumer named (
              subst (λ c. IsEntry (cache_key_of organization_id runner_id) c)
                (same_consumer (rw same at e)) (subst (λ k. IsEntry k stored) (sym key_is) here))
      ]

  subscribe-ok :
      (stream subject durable : String) (consumer : Subscription)
      → subscribe js stream subject durable ≡ ok consumer
      → (consumer.stream ≡ stream)
        × (consumer.subject ≡ subject)
        × (consumer.durable ≡ durable)
        × (js.pull_subscribe consumer ≡ true)
  unfolding subscribe
  subscribe-ok stream subject durable consumer h =
      with_ok _ (fail_if (not (js.pull_subscribe _)) "create consumer") h λ u e same.
        let is = ok-injective same in
        (
          ap (λ c. c.stream) (sym is),
          ap (λ c. c.subject) (sym is),
          ap (λ c. c.durable) (sym is),
          ap (λ c. js.pull_subscribe c) (sym is) ∙ not-not _ (fail_if-ok _ _ e),
        )

  new_runner_consumer-IsOwn :
      (organization_id runner_id : String) (bootstrap_streams : Bool) (consumer : Subscription)
      → new_runner_consumer js organization_id runner_id bootstrap_streams ≡ ok consumer
      → IsOwn js organization_id runner_id consumer
  unfolding new_runner_consumer
  new_runner_consumer-IsOwn organization_id runner_id bootstrap_streams consumer h =
      with_ok _
        (or_fail (js.messaging.runner_command_subject organization_id runner_id)
          "runner command subject")
        h
        λ subject e h1. with_ok _ (bootstrap js bootstrap_streams) h1 λ u e1 h2.
          with_ok _ (fail_if (not js.legacy_context) "create legacy JetStream consumer adapter") h2
            λ u' e2 h3.
              let (stream, subject_is, durable, subscribed) =
                subscribe-ok js.runner_commands_stream_name subject
                  (durable_name js organization_id runner_id) consumer h3 in
              (or_fail-some _ _ e ∙ ap some (sym subject_is), stream, durable, subscribed)

  -- What a call of FetchCommand gets, and leaves.
  OwnResult : (organization_id runner_id : String) → Result (Subscription × Consumers) → Type 0
  OwnResult organization_id runner_id (err message) = Unit
  OwnResult organization_id runner_id (ok (consumer, after)) =
      IsOwn js organization_id runner_id consumer × AllOwn after

  load_or_store-own :
      (organization_id runner_id : String) (consumer : Subscription) (consumers : Consumers)
      → no_nul organization_id ≡ true
      → IsOwn js organization_id runner_id consumer
      → AllOwn consumers
      → OwnResult organization_id runner_id
          (ok (load_or_store (cache_key_of organization_id runner_id) consumer consumers))
  unfolding load_or_store OwnResult AllOwn IsEntry
  load_or_store-own organization_id runner_id consumer consumers named own owns =
      elim (Option-cases (load (cache_key_of organization_id runner_id) consumers)) [
        | inl absent ↦
            rw (absent, load_or_store) (own, ((organization_id, runner_id, named, refl, own), owns))
        | inr (stored, found) ↦
            rw (found, load_or_store)
              (load-IsOwn consumers organization_id runner_id stored named owns found, owns)
      ]

  consumer_for-own :
      (organization_id runner_id : String) (seen consumers : Consumers)
      → no_nul organization_id ≡ true
      → AllOwn seen
      → AllOwn consumers
      → OwnResult organization_id runner_id
          (consumer_for js organization_id runner_id seen consumers)
  unfolding consumer_for OwnResult
  consumer_for-own organization_id runner_id seen consumers named seen_own owns =
      elim (Option-cases (load (cache_key_of organization_id runner_id) seen)) [
        | inr (consumer, found) ↦
            rw (found, consumer_for)
              (load-IsOwn seen organization_id runner_id consumer named seen_own found, owns)
        | inl absent ↦
            elim (Result-cases (new_runner_consumer js organization_id runner_id false)) [
              | inr (message, e) ↦ rw (absent, consumer_for, e) tt
              | inl (consumer, e) ↦
                  rw (absent, consumer_for, e)
                    (load_or_store-own organization_id runner_id consumer consumers named
                      (new_runner_consumer-IsOwn organization_id runner_id false consumer e) owns)
            ]
      ]

  cache_after-AllOwn :
      (organization_id runner_id : String) (r : Result (Subscription × Consumers))
      (consumers : Consumers)
      → OwnResult organization_id runner_id r
      → AllOwn consumers
      → AllOwn (cache_after js r consumers)
  unfolding cache_after OwnResult
  cache_after-AllOwn organization_id runner_id (err message) consumers h owns = owns
  cache_after-AllOwn organization_id runner_id (ok (consumer, after)) consumers (own, h) owns = h

  reached-AllOwn : (consumers : Consumers) → IsReached js consumers → AllOwn consumers
  unfolding AllOwn
  reached-AllOwn consumers none_yet = tt
  reached-AllOwn consumers
        (call_ends organization_id runner_id seen before named seen_reached reached) =
      cache_after-AllOwn organization_id runner_id _ before
        (consumer_for-own organization_id runner_id seen before named
          (reached-AllOwn seen seen_reached) (reached-AllOwn before reached))
        (reached-AllOwn before reached)

  -- Whatever calls of FetchCommand ran before or run at the same time, the consumer that a call uses was
  -- subscribed on the stream of commands with the subject and the durable name of its own runner, if
  -- no organization has a NUL in its name.
  pub consumer_for-IsOwn :
      (organization_id runner_id : String) (seen consumers after : Consumers)
      (consumer : Subscription)
      → no_nul organization_id ≡ true
      → IsReached js seen
      → IsReached js consumers
      → consumer_for js organization_id runner_id seen consumers ≡ ok (consumer, after)
      → IsOwn js organization_id runner_id consumer
  unfolding OwnResult
  consumer_for-IsOwn organization_id runner_id seen consumers after consumer named seen_reached
        reached e =
      (subst (OwnResult organization_id runner_id) e (
        consumer_for-own organization_id runner_id seen consumers named
          (reached-AllOwn seen seen_reached) (reached-AllOwn consumers reached))).0
