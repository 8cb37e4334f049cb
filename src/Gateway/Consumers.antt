-- ===== src/Gateway/Consumers.antt =====
-- `NATSBackend` of internal/gateway/backend.go but for its acknowledgements: its making, its cache of
-- consumers, and the object stores. A load from the cache and a store in it are steps of their own, as
-- sync.Map makes them.
pub mod Own
use platform_orchestrator_ru.Base.{
  ◌>>=◌, ◌>>◌, ok, err, some, none, String, Bool, Result, List, fail_if, Option, ◌∷◌, Bytes, not,
  if◌then◌else◌, ℕ, str_eq, false, [],
}
use platform_orchestrator_ru.Gateway.Http.{
  CommandDelivery, Fetched, no_command, unavailable, delivered,
}
use platform_orchestrator_ru.Gateway.Transport.{Subscription, JetStream, new_runner_consumer}
use platform_orchestrator_ru.Gateway.Keys.{cache_key_of}
use platform_orchestrator_ru.Gateway.Uploads.{runner_logs_bucket}
use platform_orchestrator_ru.Gateway.Deliveries.{
  HeaderLibrary, Received, receive_failed, received, delivery_of, timed_out,
}

-- An object store, by the name of its bucket.
pub record NatsBackend : Type 0 where
  pub bundles : String
  pub logs : String

-- Whether there is a connection, and what NATS answers.
pub record NatsConnection : Type 0 where
  pub connected : Bool
  pub publisher : Bool
  pub jet_stream : Bool
  pub object_store : String → Bool

abbrev pub runner_bundles_bucket : String
runner_bundles_bucket = "PO_RUNNER_BUNDLES"

unfoldable pub new_nats_backend : NatsConnection → Result NatsBackend
new_nats_backend connection = do
  fail_if (not connection.connected) "NATS connection is required"
  fail_if (not connection.publisher) "create JetStream publisher"
  fail_if (not connection.jet_stream) "open JetStream context"
  fail_if (not (connection.object_store runner_bundles_bucket)) "bind runner bundle Object Store"
  fail_if (not (connection.object_store runner_logs_bucket)) "bind runner log Object Store"
  ok (record { bundles = runner_bundles_bucket; logs = runner_logs_bucket })

-- The consumers under their cache keys.
abbrev pub Consumers : Type 0
Consumers = List (String × Subscription)

unfoldable pub load : String → Consumers → Option Subscription
load key [] = none
load key ((name, consumer) ∷ rest) =
    let later = load key rest in if str_eq key name then some consumer else later

-- The consumer of the map, which is the given one if the map had none.
unfoldable pub load_or_store : String → Subscription → Consumers → Subscription × Consumers
load_or_store key consumer consumers = elim (load key consumers) [
  | some stored ↦ (stored, consumers)
  | none ↦ (consumer, (key, consumer) ∷ consumers)
]

-- What `Fetch` gives of a raw delivery, as the backend passes it on. A message without metadata is an error.
unfoldable pub command_of : HeaderLibrary → Received → Fetched
command_of lib timed_out = no_command
command_of lib (receive_failed message) = unavailable
command_of lib (received raw) = elim raw.metadata [
  | none ↦ unavailable
  | some metadata ↦
      let delivery = delivery_of lib raw metadata in
      delivered (record {
        message = delivery.message;
        attempts = delivery.attempts;
        ack_subject = delivery.ack_subject;
        stream_sequence = delivery.stream_sequence;
      })
]

module _ (js : JetStream) where
  -- The consumer that FetchCommand uses, and the cache after it. `seen` is the cache when it is loaded from,
  -- and `consumers` when a new consumer is stored.
  unfoldable pub consumer_for :
      (organization_id runner_id : String) (seen consumers : Consumers)
      → Result (Subscription × Consumers)
  consumer_for organization_id runner_id seen consumers =
      elim (load (cache_key_of organization_id runner_id) seen) [
        | some consumer ↦ ok (consumer, consumers)
        | none ↦ new_runner_consumer js organization_id runner_id false >>= (λ consumer.
            ok (load_or_store (cache_key_of organization_id runner_id) consumer consumers))
      ]

  -- `fetch` is the subscription's call, whose wait is 5 seconds.
  unfoldable pub fetch_from_consumer :
      HeaderLibrary
      → (fetch : Subscription → Received) → Result (Subscription × Consumers)
      → Fetched
  fetch_from_consumer lib fetch (err message) = unavailable
  fetch_from_consumer lib fetch (ok (consumer, consumers)) = command_of lib (fetch consumer)

  unfoldable pub fetch_command_for :
      HeaderLibrary
      → (fetch : Subscription → Received) → (organization_id runner_id : String)
      → (seen consumers : Consumers) → Fetched
  fetch_command_for lib fetch organization_id runner_id seen consumers =
      fetch_from_consumer lib fetch (consumer_for organization_id runner_id seen consumers)

  -- The cache after a call of FetchCommand.
  unfoldable pub cache_after : Result (Subscription × Consumers) → Consumers → Consumers
  cache_after (err message) consumers = consumers
  cache_after (ok (consumer, after)) consumers = after

-- What the object stores answer to a put (the size of what was stored), and to the other calls.
pub record ObjectStores : Type 0 where
  pub get : (bucket key : String) → Option Bytes
  pub put : (bucket key : String) → Bytes → Option ℕ
  pub delete : (bucket key : String) → Bool

module _ (stores : ObjectStores) (backend : NatsBackend) where
  unfoldable pub get_stored_bundle : (key : String) → Option Bytes
  get_stored_bundle key = stores.get backend.bundles key

  unfoldable pub put_stored_log : (key : String) → Bytes → Option ℕ
  put_stored_log key content = stores.put backend.logs key content

  unfoldable pub delete_stored_log : (key : String) → Bool
  delete_stored_log key = stores.delete backend.logs key
