-- ===== src/Vendor/Values/Written.antt =====
-- The tokens of a value, and which values the vendor check reads.
use platform_orchestrator_ru.Base.{
  ℕ, zero, suc, String, List, [], ◌∷◌, Bool, true, false, not, ◌&&◌, ◌+◌, ◌*◌, ◌≤◌, length, arith,
}
use platform_orchestrator_ru.Vendor.Values.{
  JsonToken, open_object, open_array, close_object, close_array, text, scalar, Value, atom, quoted,
  object, array, Members, no_members, member, Elements, no_elements, element,
}
use platform_orchestrator_ru.Runner.Json.{was_seen}
use platform_orchestrator_ru.Runner.Json.Unique.{after, raised, within}

abbrev mutual
  pub value_tokens : Value → List JsonToken → List JsonToken
  value_tokens (atom s) rest = scalar s ∷ rest
  value_tokens (quoted s) rest = text s ∷ rest
  value_tokens (object ms) rest = open_object ∷ members_tokens ms rest
  value_tokens (array es) rest = open_array ∷ elements_tokens es rest

  pub members_tokens : Members → List JsonToken → List JsonToken
  members_tokens no_members rest = close_object ∷ rest
  members_tokens (member key v ms) rest = text key ∷ value_tokens v (members_tokens ms rest)

  pub elements_tokens : Elements → List JsonToken → List JsonToken
  elements_tokens no_elements rest = close_array ∷ rest
  elements_tokens (element v es) rest = value_tokens v (elements_tokens es rest)

-- No object has a key twice, and values are nested in at most so many objects and arrays; `seen` are the
-- keys before the members.
abbrev mutual
  pub is_well_formed : Value → (levels : ℕ) → Bool
  is_well_formed (atom s) n = true
  is_well_formed (quoted s) n = true
  is_well_formed (object ms) n = are_members ms n []
  is_well_formed (array es) n = are_elements es n

  pub are_members : Members → (levels : ℕ) (seen : List String) → Bool
  are_members no_members n seen = true
  are_members (member key v ms) zero seen = false
  are_members (member key v ms) (suc n) seen =
      not (was_seen key seen) && (is_well_formed v n && are_members ms (suc n) (key ∷ seen))

  pub are_elements : Elements → (levels : ℕ) → Bool
  are_elements no_elements n = true
  are_elements (element v es) zero = false
  are_elements (element v es) (suc n) = is_well_formed v n && are_elements es (suc n)

-- A bound on the depth of the recursion.
abbrev mutual
  pub value_size : Value → ℕ
  value_size (atom s) = 1
  value_size (quoted s) = 1
  value_size (object ms) = suc (members_size ms)
  value_size (array es) = suc (elements_size es)

  pub members_size : Members → ℕ
  members_size no_members = 1
  members_size (member key v ms) = suc (value_size v + members_size ms)

  pub elements_size : Elements → ℕ
  elements_size no_elements = 1
  elements_size (element v es) = suc (value_size v + elements_size es)

-- Twice the number of its tokens is fuel for a value.
unfoldable pub IsShort : Value → Type 0
IsShort v =
    (rest : List JsonToken)
    → suc (value_size v) + 2 * length rest ≤ 2 * length (value_tokens v rest)

MembersShort : Members → Type 0
MembersShort ms =
    (rest : List JsonToken)
    → members_size ms + 2 * length rest ≤ 2 * length (members_tokens ms rest)

ElementsShort : Elements → Type 0
ElementsShort es =
    (rest : List JsonToken)
    → elements_size es + 2 * length rest ≤ 2 * length (elements_tokens es rest)

pub value_size-IsShort : (v : Value) → IsShort v
unfolding IsShort MembersShort ElementsShort
value_size-IsShort v = elim v as IsShort MembersShort ElementsShort [
  | atom s ↦ λ rest. omega arith
  | quoted s ↦ λ rest. omega arith
  | object (ms → ih) ↦ λ rest. within _ _ _ (ih rest)
  | array (es → ih) ↦ λ rest. within _ _ _ (ih rest)
  | no_members ↦ λ rest. omega arith
  | member key (v → ih) (ms → ihs) ↦
      λ rest. raised _ _ (after _ _ _ _ _ (ih (members_tokens ms rest)) (ihs rest))
  | no_elements ↦ λ rest. omega arith
  | element (v → ih) (es → ihs) ↦ λ rest. after _ _ _ _ _ (ih (elements_tokens es rest)) (ihs rest)
]
