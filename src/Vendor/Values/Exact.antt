-- ===== src/Vendor/Values/Exact.antt =====
-- `uniqueValue` reads exactly the values whose objects have no key twice and that are not nested too
-- deep (scripts/vendorcheck/main.go).
use platform_orchestrator_ru.Base.{
  ℕ, zero, suc, ◌+◌, ◌≤◌, String, List, ◌∷◌, ◌≡◌, refl, true, arith, Bool-cases, inl, inr, ◌∙◌, [],
  ◌*◌, length, both_true, ◌↔◌,
}
use platform_orchestrator_ru.Vendor.Values.{
  no_members, no_elements, Value, next_value, Members, Elements, Reading, unique_value, JsonToken,
  within_depth, unique_elements, atom, unique_members, member, element, done, and_read, quoted,
  map_read, object, array,
}
use platform_orchestrator_ru.Vendor.Values.Sound.{value_read}
use platform_orchestrator_ru.Vendor.Values.Written.{
  value_size, members_size, elements_size, are_members, are_elements, IsShort, is_well_formed,
  elements_tokens, value_tokens, members_tokens, value_size-IsShort,
}
use platform_orchestrator_ru.Runner.Json.Unique.{with_fuel}
use platform_orchestrator_ru.Runner.Json.{was_seen}
use platform_orchestrator_ru.Vendor.Values.Readings.{within_depth-fits, HasRead}

-- A well-formed value is read, with enough fuel for its size.
abbrev ReadsBack : Value → Type 0
ReadsBack v =
    (n depth : ℕ) (rest : List JsonToken) (fuel : ℕ)
    → value_size v ≤ fuel
    → depth + n ≡ 64
    → is_well_formed v n ≡ true
    → unique_value fuel depth (value_tokens v rest) ≡ done v rest

abbrev MembersBack : Members → Type 0
MembersBack ms =
    (n depth : ℕ) (seen : List String) (rest : List JsonToken) (fuel : ℕ)
    → members_size ms ≤ fuel
    → depth + n ≡ 65
    → are_members ms n seen ≡ true
    → unique_members fuel depth seen (members_tokens ms rest) ≡ done ms rest

abbrev ElementsBack : Elements → Type 0
ElementsBack es =
    (n depth : ℕ) (rest : List JsonToken) (fuel : ℕ)
    → elements_size es ≤ fuel
    → depth + n ≡ 65
    → are_elements es n ≡ true
    → unique_elements fuel depth (elements_tokens es rest) ≡ done es rest

fits : (n depth : ℕ) (r : Reading Value) → depth + n ≡ 64 → within_depth depth r ≡ r
fits n depth r e = within_depth-fits depth r (omega arith)

-- A value does not begin with the closing delimiter of an array.
elements-value :
    (fuel depth : ℕ) (v : Value) (rest : List JsonToken)
    → unique_elements (suc fuel) depth (value_tokens v rest)
      ≡ and_read
          (unique_value fuel depth (value_tokens v rest))
          (λ v after. map_read (element v) (unique_elements fuel depth after))
unfolding unique_value
elements-value fuel depth (atom s) rest = refl
elements-value fuel depth (quoted s) rest = refl
elements-value fuel depth (object ms) rest = refl
elements-value fuel depth (array es) rest = refl

members_back :
    (n depth : ℕ) (seen : List String) (key : String) (v : Value) (ms : Members)
    (rest : List JsonToken) (fuel : ℕ)
    → depth + n ≡ 65
    → are_members (member key v ms) n seen ≡ true
    → ((m : ℕ)
        → depth + m ≡ 64
        → is_well_formed v m ≡ true
        → unique_value fuel depth (value_tokens v (members_tokens ms rest))
          ≡ done v (members_tokens ms rest))
    → (are_members ms n (key ∷ seen) ≡ true
        → unique_members fuel depth (key ∷ seen) (members_tokens ms rest) ≡ done ms rest)
    → unique_members (suc fuel) depth seen (members_tokens (member key v ms) rest)
      ≡ done (member key v ms) rest
unfolding unique_value
members_back zero depth seen key v ms rest fuel e h ih ihs = cc
members_back (suc n) depth seen key v ms rest fuel e h ih ihs =
    elim (Bool-cases (was_seen key seen)) [
      | inl old ↦ absurd (cc (rw old at h))
      | inr new ↦
          let (u, us) = both_true _ _ (rw new at h) in rw (new, ih n (omega arith) u, ihs us) refl
    ]

elements_back :
    (n depth : ℕ) (v : Value) (es : Elements) (rest : List JsonToken) (fuel : ℕ)
    → depth + n ≡ 65
    → are_elements (element v es) n ≡ true
    → ((m : ℕ)
        → depth + m ≡ 64
        → is_well_formed v m ≡ true
        → unique_value fuel depth (value_tokens v (elements_tokens es rest))
          ≡ done v (elements_tokens es rest))
    → (are_elements es n ≡ true
        → unique_elements fuel depth (elements_tokens es rest) ≡ done es rest)
    → unique_elements (suc fuel) depth (elements_tokens (element v es) rest)
      ≡ done (element v es) rest
unfolding unique_value
elements_back zero depth v es rest fuel e h ih ihs = cc
elements_back (suc n) depth v es rest fuel e h ih ihs =
    let (u, us) = both_true _ _ h in
    rw (elements-value fuel depth v (elements_tokens es rest), ih n (omega arith) u, ihs us) refl

reads_back : (v : Value) → ReadsBack v
unfolding unique_value
reads_back v = elim v as ReadsBack MembersBack ElementsBack [
  | atom s ↦ λ n depth rest. with_fuel _ λ f h e u. fits n depth _ e
  | quoted s ↦ λ n depth rest. with_fuel _ λ f h e u. fits n depth _ e
  | object (ms → ih) ↦ λ n depth rest.
      with_fuel _
        λ f h e u. fits n depth _ e ∙ rw (ih n (suc depth) [] rest f h (omega arith) u) refl
  | array (es → ih) ↦ λ n depth rest.
      with_fuel _ λ f h e u. fits n depth _ e ∙ rw (ih n (suc depth) rest f h (omega arith) u) refl
  | no_members ↦ λ n depth seen rest. with_fuel _ λ f h e u. refl
  | member key (v → ih) (ms → ihs) ↦ λ n depth seen rest. with_fuel _ λ f h e u.
      members_back n depth seen key v ms rest f e u
        (λ m. ih m depth (members_tokens ms rest) f (omega arith))
        (ihs n depth (key ∷ seen) rest f (omega arith) e)
  | no_elements ↦ λ n depth rest. with_fuel _ λ f h e u. refl
  | element (v → ih) (es → ihs) ↦ λ n depth rest. with_fuel _ λ f h e u.
      elements_back n depth v es rest f e u
        (λ m. ih m depth (elements_tokens es rest) f (omega arith))
        (ihs n depth rest f (omega arith) e)
]

enough : (a r t : ℕ) → suc a + r ≤ t → a ≤ suc t
enough a r t h = omega arith

-- The check reads a value and leaves `rest` exactly if the tokens are those of the value followed by
-- `rest`, no object in it has a key twice and none of it stands in more than 64 objects and arrays; no
-- fuel is a condition.
pub next_value_iff :
    (ts : List JsonToken) (v : Value) (rest : List JsonToken)
    → (next_value ts ≡ done v rest) ↔ ((ts ≡ value_tokens v rest) × (is_well_formed v 64 ≡ true))
unfolding next_value HasRead IsShort
next_value_iff ts v rest = (
  λ h. value_read (suc (2 * length ts)) 64 0 ts rest v refl h,
  λ (s, u). rw s (
      reads_back v 64 0 rest (suc (2 * length (value_tokens v rest)))
        (enough _ _ _ (value_size-IsShort v rest)) refl u),
)
