-- ===== src/Gateway/Keys.antt =====
-- internal/gateway/keys.go: the resolvers of runners' public keys. A look-up of the cache and the end of
-- a fetch are steps of their own, as the mutex makes them; the control plane answers by a function of the
-- fetches that ended before.
use platform_orchestrator_ru.Base.{
  ◌>>=◌, ◌>>◌, String, ℕ, Bytes, List, Result, Option, str_append, none, some, err, fail_if, ◌∷◌,
  if◌then◌else◌, ◌++◌, ok, not, str_eq, ltb, [], ◌||◌, ◌==◌, ◌+◌, is_nil, or_fail, take, ◌^◌,
}
pub mod Fresh

pub record StaticPublicKeyResolver : Type 0 where
  pub organization_id : String
  pub runner_id : String
  pub public_key : Bytes

unfoldable pub resolve_static : StaticPublicKeyResolver → String → String → Result Bytes
resolve_static r organization_id runner_id = do
  fail_if
      (not (str_eq organization_id r.organization_id)
        || not (str_eq runner_id r.runner_id)
        || is_nil r.public_key)
      "runner public key is not configured"
  ok r.public_key

pub record ControlPlaneResponse : Type 0 where
  pub status : ℕ
  pub body : Bytes

pub record RunnerConfig : Type 0 where
  pub type : String
  pub key : Bytes

-- A fetch that ended, with its answer and the time at which `Resolve` was called.
pub record Fetch : Type 0 where
  pub organization_id : String
  pub runner_id : String
  pub called_at : ℕ
  pub response : Option ControlPlaneResponse

pub record CachedPublicKey : Type 0 where
  pub cache_key : String
  pub key : Bytes
  pub expires_at : ℕ

-- The JSON of the runner and of its configuration, and the control plane. The URL is valid.
pub record KeyLibrary : Type 0 where
  pub decode_runner : Bytes → Option Bytes
  pub decode_configuration : Bytes → Option RunnerConfig
  pub respond : List Fetch → String → String → Option ControlPlaneResponse

pub record KeyCache : Type 0 where
  pub cache : List CachedPublicKey
  pub fetches : List Fetch

unfoldable pub cache_key_of : String → String → String
cache_key_of organization_id runner_id = str_append organization_id (str_append "\0" runner_id)

unfoldable pub cached : String → List CachedPublicKey → Option CachedPublicKey
cached key [] = none
cached key (entry ∷ rest) =
    let later = cached key rest in if str_eq key entry.cache_key then some entry else later

unfoldable pub unexpired : ℕ → Option CachedPublicKey → Option Bytes
unexpired now none = none
unexpired now (some entry) = if ltb now entry.expires_at then some entry.key else none

-- The key of the cache, if it has one that has not expired.
unfoldable pub look_up : KeyCache → (now : ℕ) (organization_id runner_id : String) → Option Bytes
look_up s now organization_id runner_id =
    unexpired now (cached (cache_key_of organization_id runner_id) s.cache)

module _ (lib : KeyLibrary) (ttl : ℕ) where
  open lib use {decode_runner, decode_configuration, respond}

  unfoldable pub key_of_response : Option ControlPlaneResponse → Result Bytes
  key_of_response none = err "fetch runner public key"
  key_of_response (some response) = do
    fail_if (not (response.status == 200)) "fetch runner public key: control plane"
    configuration ← or_fail (decode_runner (take (2 ^ 20) response.body)) "decode runner"
    runner ← or_fail (decode_configuration configuration) "decode runner configuration"
    fail_if (not (str_eq runner.type "kubernetes-agent") || is_nil runner.key)
        "runner is not a Kubernetes agent with a public key"
    ok runner.key

  -- The entry for a key that was fetched, in place of an entry under the same name.
  unfoldable pub store_key : Fetch → Result Bytes → KeyCache → KeyCache
  store_key fetch (err message) s = record { cache = s.cache; fetches = s.fetches ++ fetch ∷ [] }
  store_key fetch (ok key) s = record {
    cache =
        record {
          cache_key = cache_key_of fetch.organization_id fetch.runner_id;
          key = key;
          expires_at = fetch.called_at + ttl;
        }
        ∷ s.cache;
    fetches = s.fetches ++ fetch ∷ [];
  }

  unfoldable pub fetch_of : KeyCache → (now : ℕ) (organization_id runner_id : String) → Fetch
  fetch_of s now organization_id runner_id = record {
    organization_id = organization_id;
    runner_id = runner_id;
    called_at = now;
    response = respond s.fetches organization_id runner_id;
  }

  -- The end of a fetch that a call at `now` began: the result and the state after it.
  unfoldable pub fetch_key :
      KeyCache → (now : ℕ) (organization_id runner_id : String) → Result Bytes × KeyCache
  fetch_key s now organization_id runner_id =
      let fetch = fetch_of s now organization_id runner_id in
      let result = key_of_response fetch.response in (result, store_key fetch result s)

  -- `Resolve`, without another call between its steps.
  unfoldable pub resolve_key :
      KeyCache → (now : ℕ) (organization_id runner_id : String) → Result Bytes × KeyCache
  resolve_key s now organization_id runner_id = elim (look_up s now organization_id runner_id) [
    | some key ↦ (ok key, s)
    | none ↦ fetch_key s now organization_id runner_id
  ]
