-- ===== src/Gateway/Keys/Fresh.antt =====
-- A key that the cache gives is one that the control plane gave for the same runner less than the time
-- to live ago (internal/gateway/keys.go).
use text.Mathlib.TextLemmas.{nil-append, cons-append, head-eq_of_cons-eq, tail-eq_of_cons-eq}
use platform_orchestrator_ru.Base.{
  String, Char, Bool, true, str_append, ◌&&◌, ◌≡◌, not, code, ap, false, ◌==◌, ◌≢◌, sym, refl,
  arith, ◌∙◌, ℕ, Bytes, List, ◌∷◌, ok, ◌<◌, ◌+◌, ◌⊎◌, [], Result, inl, All, ◌++◌, inr, err, subst,
  some, Bool-cases, str_eq, ltb, eq_iff, if◌then◌else◌, none, both_true,
}
use platform_orchestrator_ru.Gateway.Keys.{
  KeyLibrary, Fetch, key_of_response, CachedPublicKey, cache_key_of, store_key, KeyCache, fetch_key,
  unexpired, look_up, fetch_of, cached,
}

-- A name without the separator of the cache's names.
abbrev pub no_nul : String → Bool
no_nul String.[] = true
no_nul (String.◌∷◌ c s) = not (code c == 0) && no_nul s

abbrev nul : String → String
nul rest = String.◌∷◌ "\0" rest

nul_lem : (rest : String) → str_append "\0" rest ≡ nul rest
nul_lem rest = cons-append "\0" String.[] rest ∙ ap (String.◌∷◌ "\0") (nil-append rest)

first_not_nul : (c : Char) (s : String) → no_nul (String.◌∷◌ c s) ≡ true → code c ≢ 0
first_not_nul c s h = λ e. ground (arith, h, e)

rest_no_nul : (c : Char) (s : String) → no_nul (String.◌∷◌ c s) ≡ true → no_nul s ≡ true
rest_no_nul c s h = (both_true _ _ h).1

same_names :
    (a a' b b' : String)
    → no_nul a ≡ true
    → no_nul a' ≡ true
    → str_append a (nul b) ≡ str_append a' (nul b')
    → (a ≡ a') × (b ≡ b')
same_names String.[] String.[] b b' h h' e =
    (refl, tail-eq_of_cons-eq (sym (nil-append (nul b)) ∙ e ∙ nil-append (nul b')))
same_names String.[] (String.◌∷◌ c a') b b' h h' e = absurd (
    first_not_nul c a' h' (
      ap code
        (sym (head-eq_of_cons-eq (sym (nil-append (nul b)) ∙ e ∙ cons-append c a' (nul b'))))))
same_names (String.◌∷◌ c a) String.[] b b' h h' e = absurd (
    first_not_nul c a h
      (ap code (head-eq_of_cons-eq (sym (cons-append c a (nul b)) ∙ e ∙ nil-append (nul b')))))
same_names (String.◌∷◌ c a) (String.◌∷◌ c' a') b b' h h' e =
    let conses = sym (cons-append c a (nul b)) ∙ e ∙ cons-append c' a' (nul b') in
    let (same, rest) =
      same_names a a' b b' (rest_no_nul c a h) (rest_no_nul c' a' h') (tail-eq_of_cons-eq conses) in
    (cc (head-eq_of_cons-eq conses, same), rest)

-- Different runners have different names in a cache, if no organization has a NUL in its name.
pub cache_key_of-injective :
    (a a' b b' : String)
    → no_nul a ≡ true
    → no_nul a' ≡ true
    → cache_key_of a b ≡ cache_key_of a' b'
    → (a ≡ a') × (b ≡ b')
unfolding cache_key_of
cache_key_of-injective a a' b b' h h' e =
    same_names a a' b b' h h'
      (ap (str_append a) (sym (nul_lem b)) ∙ e ∙ ap (str_append a') (nul_lem b'))

if_live :
    (live : Bool) {k key : Bytes}
    → (if live then some k else none) ≡ some key
    → (live ≡ true) × (k ≡ key)
if_live true e = (refl, cc)
if_live false e = cc

-- A fetch of the list gave the key for the runner, at a call less than the time to live before `now`.
abbrev pub WasFetched :
    KeyLibrary → (ttl now : ℕ) (organization_id runner_id : String) → Bytes → List Fetch → Type 0
WasFetched lib ttl now organization_id runner_id key [] = ⊥
WasFetched lib ttl now organization_id runner_id key (fetch ∷ rest) =
    ((fetch.organization_id ≡ organization_id)
      × (fetch.runner_id ≡ runner_id)
      × (key_of_response lib ttl fetch.response ≡ ok key)
      × (now < fetch.called_at + ttl))
    ⊎ WasFetched lib ttl now organization_id runner_id key rest

module _ (lib : KeyLibrary) (ttl : ℕ) where
  -- The entry was made from one of the fetches.
  IsFrom : CachedPublicKey → List Fetch → Type 0
  IsFrom entry [] = ⊥
  IsFrom entry (fetch ∷ rest) =
      ((cache_key_of fetch.organization_id fetch.runner_id ≡ entry.cache_key)
        × (no_nul fetch.organization_id ≡ true)
        × (key_of_response lib ttl fetch.response ≡ ok entry.key)
        × (entry.expires_at ≡ fetch.called_at + ttl))
      ⊎ IsFrom entry rest

  AllFrom : List CachedPublicKey → List Fetch → Type 0
  AllFrom [] fetches = Unit
  AllFrom (entry ∷ rest) fetches = IsFrom entry fetches × AllFrom rest fetches

  IsFrom-more :
      (entry : CachedPublicKey) (fetches : List Fetch) (fetch : Fetch)
      → IsFrom entry fetches
      → IsFrom entry (fetches ++ fetch ∷ [])
  unfolding IsFrom
  IsFrom-more entry [] fetch h = elim h [ ]
  IsFrom-more entry (first ∷ rest) fetch (inl here) = inl here
  IsFrom-more entry (first ∷ rest) fetch (inr later) = inr (IsFrom-more entry rest fetch later)

  AllFrom-more :
      (entries : List CachedPublicKey) (fetches : List Fetch) (fetch : Fetch)
      → AllFrom entries fetches
      → AllFrom entries (fetches ++ fetch ∷ [])
  unfolding AllFrom
  AllFrom-more [] fetches fetch h = tt
  AllFrom-more (entry ∷ rest) fetches fetch (h, hs) =
      (IsFrom-more entry fetches fetch h, AllFrom-more rest fetches fetch hs)

  IsFrom-last :
      (fetches : List Fetch) (fetch : Fetch) (key : Bytes)
      → no_nul fetch.organization_id ≡ true
      → key_of_response lib ttl fetch.response ≡ ok key
      → IsFrom
          (record {
            cache_key = cache_key_of fetch.organization_id fetch.runner_id;
            key = key;
            expires_at = fetch.called_at + ttl;
          })
          (fetches ++ fetch ∷ [])
  unfolding IsFrom
  IsFrom-last [] fetch key named given = inl (refl, named, given, refl)
  IsFrom-last (first ∷ rest) fetch key named given = inr (IsFrom-last rest fetch key named given)

  store_key-AllFrom :
      (fetch : Fetch) (result : Result Bytes) (s : KeyCache)
      → no_nul fetch.organization_id ≡ true
      → key_of_response lib ttl fetch.response ≡ result
      → AllFrom s.cache s.fetches
      → AllFrom (store_key lib ttl fetch result s).cache (store_key lib ttl fetch result s).fetches
  unfolding store_key AllFrom
  store_key-AllFrom fetch (err message) s named given h = AllFrom-more s.cache s.fetches fetch h
  store_key-AllFrom fetch (ok key) s named given h =
      (IsFrom-last s.fetches fetch key named given, AllFrom-more s.cache s.fetches fetch h)

  -- Fetches that end one after the other, each with the time of its call, its organization and runner.
  abbrev pub fetch_all : List (ℕ × String × String) → KeyCache → KeyCache
  fetch_all [] s = s
  fetch_all ((now, organization_id, runner_id) ∷ rest) s =
      fetch_all rest (fetch_key lib ttl s now organization_id runner_id).1

  fetch_all-AllFrom :
      (calls : List (ℕ × String × String)) (s : KeyCache)
      → All (λ call. no_nul call.1 ≡ true) calls
      → AllFrom s.cache s.fetches
      → AllFrom (fetch_all calls s).cache (fetch_all calls s).fetches
  unfolding fetch_key fetch_of
  fetch_all-AllFrom [] s named h = h
  fetch_all-AllFrom ((now, organization_id, runner_id) ∷ rest) s (n, named) h =
      fetch_all-AllFrom rest _ named
        (store_key-AllFrom (fetch_of lib ttl s now organization_id runner_id) _ s n refl h)

  from_WasFetched :
      (entry : CachedPublicKey) (fetches : List Fetch) (now : ℕ)
      (organization_id runner_id : String)
      → no_nul organization_id ≡ true
      → cache_key_of organization_id runner_id ≡ entry.cache_key
      → now < entry.expires_at
      → IsFrom entry fetches
      → WasFetched lib ttl now organization_id runner_id entry.key fetches
  unfolding IsFrom
  from_WasFetched entry [] now organization_id runner_id named same live h = elim h [ ]
  from_WasFetched entry (fetch ∷ rest) now organization_id runner_id named same live
        (inl (named_as, fetch_named, given, expiry)) =
      let (o, r) =
        cache_key_of-injective fetch.organization_id organization_id fetch.runner_id runner_id
          fetch_named named (named_as ∙ sym same) in
      inl (o, r, given, subst (λ t. now < t) expiry live)
  from_WasFetched entry (fetch ∷ rest) now organization_id runner_id named same live (inr later) =
      inr (from_WasFetched entry rest now organization_id runner_id named same live later)

  unexpired_from :
      (entries : List CachedPublicKey) (fetches : List Fetch) (now : ℕ)
      (organization_id runner_id : String) (key : Bytes)
      → no_nul organization_id ≡ true
      → AllFrom entries fetches
      → unexpired now (cached (cache_key_of organization_id runner_id) entries) ≡ some key
      → WasFetched lib ttl now organization_id runner_id key fetches
  unfolding unexpired cached AllFrom
  unexpired_from [] fetches now organization_id runner_id key named hs e = cc
  unexpired_from (entry ∷ rest) fetches now organization_id runner_id key named (h, hs) e =
      elim (Bool-cases (str_eq (cache_key_of organization_id runner_id) entry.cache_key)) [
        | inr other ↦
            unexpired_from rest fetches now organization_id runner_id key named hs (rw other at e)
        | inl same ↦
            let (live, given) = if_live (ltb now entry.expires_at) (rw same at e) in
            subst (λ bytes. WasFetched lib ttl now organization_id runner_id bytes fetches) given
              (from_WasFetched entry fetches now organization_id runner_id named
                ((eq_iff _ _).0 same) (ground (arith, live)) h)
      ]

  -- After any number of fetches that ended in any order, a key that the cache gives at a time was given
  -- by the control plane for the same organization and runner, for a call of Resolve less than the time
  -- to live before, if no organization has a NUL in its name.
  pub look_up-WasFetched :
      (calls : List (ℕ × String × String)) (now : ℕ) (organization_id runner_id : String)
      (key : Bytes)
      → All (λ call. no_nul call.1 ≡ true) calls
      → no_nul organization_id ≡ true
      → look_up
          (fetch_all calls (record { cache = []; fetches = [] }))
          now
          organization_id
          runner_id
        ≡ some key
      → WasFetched lib ttl now organization_id runner_id key
          (fetch_all calls (record { cache = []; fetches = [] })).fetches
  unfolding look_up AllFrom
  look_up-WasFetched calls now organization_id runner_id key all_named named e =
      unexpired_from _ _ now organization_id runner_id key named
        (fetch_all-AllFrom calls (record { cache = []; fetches = [] }) all_named tt) e
