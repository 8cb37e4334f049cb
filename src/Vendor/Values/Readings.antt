-- ===== src/Vendor/Values/Readings.antt =====
-- The steps of a reading by `uniqueValue`, taken apart (scripts/vendorcheck/main.go).
use platform_orchestrator_ru.Base.{
  ℕ, zero, suc, ◌+◌, ◌≤◌, String, List, ◌∷◌, ◌≡◌, refl, true, false, ltb, arith, Bool-cases, inl,
  inr, ◌∙◌, ap, sym,
}
use platform_orchestrator_ru.Vendor.Values.{
  Reading, Value, Members, Elements, JsonToken, within_depth, and_read, map_read, done, was_seen,
  element, failed, member, eof, text,
}
use platform_orchestrator_ru.Vendor.Values.Written.{
  value_tokens, members_tokens, elements_tokens, is_well_formed, are_members, are_elements,
}
use platform_orchestrator_ru.Runner.Json.{was_seen, text}

module _ {A : Type 0} {a b : A} {rest rest' : List JsonToken} where
  pub done_value : done a rest ≡ done b rest' → a ≡ b
  done_value e = cc

  pub done_rest : done a rest ≡ done b rest' → rest ≡ rest'
  done_rest e = cc

module _ {A B : Type 0} where
  pub and_read-done {ℓ} :
      (P : Type ℓ) (r : Reading A) {k : A → List JsonToken → Reading B} {b : B}
      {rest : List JsonToken}
      → and_read r k ≡ done b rest
      → ((a : A) (mid : List JsonToken) → r ≡ done a mid → k a mid ≡ done b rest → P)
      → P
  and_read-done P eof h go = cc
  and_read-done P (failed message) h go = cc
  and_read-done P (done a mid) h go = go a mid refl h

  pub map_read-done {ℓ} :
      (P : Type ℓ) (f : A → B) (r : Reading A) {b : B} {rest : List JsonToken}
      → map_read f r ≡ done b rest
      → ((a : A) → r ≡ done a rest → b ≡ f a → P)
      → P
  map_read-done P f eof h go = cc
  map_read-done P f (failed message) h go = cc
  map_read-done P f (done a mid) h go = go a (ap (done a) (done_rest h)) (sym (done_value h))

pub within_depth-done {ℓ} :
    (P : Type ℓ) (depth : ℕ) (r : Reading Value) {v : Value} {rest : List JsonToken}
    → within_depth depth r ≡ done v rest
    → (depth ≤ 64 → r ≡ done v rest → P)
    → P
within_depth-done P depth r h go = elim (Bool-cases (ltb 64 depth)) [
  | inl deep ↦ absurd (cc (deep, h))
  | inr fits ↦ go (ground (arith, fits)) (rw fits at h)
]

pub within_depth-fits : (depth : ℕ) (r : Reading Value) → depth ≤ 64 → within_depth depth r ≡ r
within_depth-fits depth r h = elim (Bool-cases (ltb 64 depth)) [
  | inl deep ↦ absurd (ground (arith, deep, h))
  | inr fits ↦ rw fits refl
]

-- A value was read with its tokens, and it is well-formed within the levels that are left.
unfoldable pub HasRead : (n : ℕ) → Value → (ts rest : List JsonToken) → Type 0
HasRead n v ts rest = (ts ≡ value_tokens v rest) × (is_well_formed v n ≡ true)

unfoldable pub HasMembers : (n : ℕ) → List String → Members → (ts rest : List JsonToken) → Type 0
HasMembers n seen ms ts rest = (ts ≡ members_tokens ms rest) × (are_members ms n seen ≡ true)

unfoldable pub HasElements : (n : ℕ) → Elements → (ts rest : List JsonToken) → Type 0
HasElements n es ts rest = (ts ≡ elements_tokens es rest) × (are_elements es n ≡ true)

pub first_member :
    (n depth : ℕ) (seen : List String) (key : String) (v : Value) (ms : Members)
    (ts mid rest : List JsonToken)
    → depth + n ≡ 65
    → depth ≤ 64
    → was_seen key seen ≡ false
    → ((m : ℕ) → depth + m ≡ 64 → HasRead m v ts mid)
    → HasMembers n (key ∷ seen) ms mid rest
    → HasMembers n seen (member key v ms) (text key ∷ ts) rest
unfolding HasRead HasMembers
first_member zero depth seen key v ms ts mid rest e fits new here later = absurd (omega arith)
first_member (suc n) depth seen key v ms ts mid rest e fits new here (s', u') =
    let (s, u) = here n (omega arith) in
    (ap (◌∷◌ (text key)) (s ∙ ap (value_tokens v) s'), rw (new, u) u')

pub first_element :
    (n depth : ℕ) (v : Value) (es : Elements) (ts mid rest : List JsonToken)
    → depth + n ≡ 65
    → depth ≤ 64
    → ((m : ℕ) → depth + m ≡ 64 → HasRead m v ts mid)
    → HasElements n es mid rest
    → HasElements n (element v es) ts rest
unfolding HasRead HasElements
first_element zero depth v es ts mid rest e fits here later = absurd (omega arith)
first_element (suc n) depth v es ts mid rest e fits here (s', u') =
    let (s, u) = here n (omega arith) in (s ∙ ap (value_tokens v) s', rw u u')
