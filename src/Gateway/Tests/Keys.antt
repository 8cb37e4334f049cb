-- ===== src/Gateway/Tests/Keys.antt =====
-- A run of the resolver of public keys at concrete inputs.
use platform_orchestrator_ru.Gateway.Keys.{
  KeyLibrary, look_up, fetch_key, fetch_of, store_key, key_of_response, cache_key_of, cached,
  unexpired,
}
use platform_orchestrator_ru.Base.{List, some, ℕ, ◌∷◌, String, [], refl}
use platform_orchestrator_ru.Gateway.Keys.Fresh.{WasFetched, fetch_all, look_up-WasFetched}

abbrev key_library : KeyLibrary
key_library = record {
  decode_runner = λ bytes. some bytes;
  decode_configuration = λ bytes. some (record { type = "kubernetes-agent"; key = bytes });
  respond = λ fetches organization_id runner_id. some (record { status = 200; body = 42 ∷ [] });
}

abbrev one_fetch : List (ℕ × String × String)
one_fetch = (5, "org", "runner") ∷ []

look_up-WasFetched_example :
    WasFetched key_library 60 30 "org" "runner"
      (42 ∷ [])
      (fetch_all key_library 60 one_fetch (record { cache = []; fetches = [] })).fetches
unfolding look_up fetch_key fetch_of store_key key_of_response cache_key_of cached unexpired
look_up-WasFetched_example =
    look_up-WasFetched key_library 60 one_fetch 30 "org" "runner" (42 ∷ []) (refl, tt) refl refl
