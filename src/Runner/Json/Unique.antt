-- ===== src/Runner/Json/Unique.antt =====
-- The validation accepts the tokens of a JSON value exactly if no object in it has a name twice
-- (internal/runner/observation.go).
use platform_orchestrator_ru.Base.{
  ℕ, zero, suc, ◌+◌, ◌≤◌, String, List, [], ◌∷◌, Option, none, some, ◌≡◌, refl, Bool, true, false,
  arith, Bool-cases, inl, inr, ◌*◌, length, ◌∙◌, ap, ◌↔◌,
}
use platform_orchestrator_ru.Runner.Json.{
  Token, validate_observation_json, was_seen, value, members, elements, and_then, scalar, text,
  open_object, open_array, close_object, close_array, Expected, validate_document,
}
use platform_orchestrator_ru.Runner.Json.Documents.{
  Json, Members, Elements, size, members_size, elements_size, tokens, element, object, is_unique,
  member_tokens, element_tokens, quoted, array, members_unique, elements_unique, atom, member,
  no_members, no_elements,
}

abbrev accepts : Bool → List Token → Option (List Token)
accepts true rest = some rest
accepts false rest = none

abbrev ValueAccepted : Json → Type 0
ValueAccepted v =
    (rest : List Token) (fuel : ℕ)
    → size v ≤ fuel
    → validate_observation_json fuel value (tokens v rest) ≡ accepts (is_unique v) rest

abbrev MembersAccepted : Members → Type 0
MembersAccepted ms =
    (seen : List String) (rest : List Token) (fuel : ℕ)
    → members_size ms ≤ fuel
    → validate_observation_json fuel (members seen) (member_tokens ms rest)
      ≡ accepts (members_unique ms seen) rest

abbrev ElementsAccepted : Elements → Type 0
ElementsAccepted es =
    (rest : List Token) (fuel : ℕ)
    → elements_size es ≤ fuel
    → validate_observation_json fuel elements (element_tokens es rest)
      ≡ accepts (elements_unique es) rest

-- A value does not begin with the closing delimiter of an array.
elements-value :
    (fuel : ℕ) (v : Json) (rest : List Token)
    → validate_observation_json (suc fuel) elements (tokens v rest)
      ≡ and_then
          (validate_observation_json fuel value (tokens v rest))
          (validate_observation_json fuel elements)
unfolding validate_observation_json
elements-value fuel atom rest = refl
elements-value fuel (quoted name) rest = refl
elements-value fuel (object ms) rest = refl
elements-value fuel (array es) rest = refl

pub with_fuel {ℓ} :
    {n : ℕ} (P : ℕ → Type ℓ) → ((f : ℕ) → n ≤ f → P (suc f)) → (f : ℕ) → suc n ≤ f → P f
with_fuel P k zero h = absurd (omega arith)
with_fuel P k (suc f) h = k f (omega arith)

accepted : (v : Json) → ValueAccepted v
unfolding validate_observation_json
accepted v = elim v as ValueAccepted MembersAccepted ElementsAccepted [
  | atom ↦ λ rest. with_fuel _ λ f h. refl
  | quoted name ↦ λ rest. with_fuel _ λ f h. refl
  | object (ms → ih) ↦ λ rest. with_fuel _ λ f h. ih [] rest f h
  | array (es → ih) ↦ λ rest. with_fuel _ λ f h. ih rest f h
  | no_members ↦ λ seen rest. with_fuel _ λ f h. refl
  | member name (v → ih) (ms → ihs) ↦ λ seen rest. with_fuel _ λ f h.
      elim (Bool-cases (was_seen name seen)) [
        | inl old ↦ rw old refl
        | inr new ↦ elim (Bool-cases (is_unique v)) [
          | inl unique ↦
              rw (new, ih (member_tokens ms rest) f (omega arith), unique)
                (ihs (name ∷ seen) rest f (omega arith))
          | inr twice ↦ rw (new, ih (member_tokens ms rest) f (omega arith), twice) refl
        ]
      ]
  | no_elements ↦ λ rest. with_fuel _ λ f h. refl
  | element (v → ih) (es → ihs) ↦ λ rest. with_fuel _ λ f h. elim (Bool-cases (is_unique v)) [
    | inl unique ↦
        rw
          (
            elements-value f v (element_tokens es rest),
            ih (element_tokens es rest) f (omega arith),
            unique,
          )
          (ihs rest f (omega arith))
    | inr twice ↦
        rw
          (
            elements-value f v (element_tokens es rest),
            ih (element_tokens es rest) f (omega arith),
            twice,
          )
          refl
  ]
]

-- Twice the number of its tokens is fuel for a value.
IsShort : Json → Type 0
IsShort v = (rest : List Token) → suc (size v) + 2 * length rest ≤ 2 * length (tokens v rest)

MembersShort : Members → Type 0
MembersShort ms =
    (rest : List Token) → members_size ms + 2 * length rest ≤ 2 * length (member_tokens ms rest)

ElementsShort : Elements → Type 0
ElementsShort es =
    (rest : List Token) → elements_size es + 2 * length rest ≤ 2 * length (element_tokens es rest)

pub within : (a b r : ℕ) → a + r ≤ 2 * b → suc (suc a) + r ≤ 2 * suc b
within a b r h = omega arith

pub after : (a b r s t : ℕ) → suc a + 2 * s ≤ 2 * t → b + r ≤ 2 * s → suc (a + b) + r ≤ 2 * t
after a b r s t h h' = omega arith

pub raised : (a b : ℕ) → a ≤ 2 * b → a ≤ 2 * suc b
raised a b h = omega arith

size-IsShort : (v : Json) → IsShort v
unfolding IsShort MembersShort ElementsShort
size-IsShort v = elim v as IsShort MembersShort ElementsShort [
  | atom ↦ λ rest. omega arith
  | quoted name ↦ λ rest. omega arith
  | object (ms → ih) ↦ λ rest. within _ _ _ (ih rest)
  | array (es → ih) ↦ λ rest. within _ _ _ (ih rest)
  | no_members ↦ λ rest. omega arith
  | member name (v → ih) (ms → ihs) ↦
      λ rest. raised _ _ (after _ _ _ _ _ (ih (member_tokens ms rest)) (ihs rest))
  | no_elements ↦ λ rest. omega arith
  | element (v → ih) (es → ihs) ↦ λ rest. after _ _ _ _ _ (ih (element_tokens es rest)) (ihs rest)
]

-- What a success has read.
HasRead : Expected → List Token → List Token → Type 0
HasRead value ts rest = (v : Json) × (ts ≡ tokens v rest) × (is_unique v ≡ true)
HasRead (members seen) ts rest =
    (ms : Members) × (ts ≡ member_tokens ms rest) × (members_unique ms seen ≡ true)
HasRead elements ts rest =
    (es : Elements) × (ts ≡ element_tokens es rest) × (elements_unique es ≡ true)

and_then-some {ℓ κ μ} :
    {A : Type ℓ} {B : Type κ} (P : Type μ) (o : Option A) {k : A → Option B} {b : B}
    → and_then o k ≡ some b
    → ((a : A) → o ≡ some a → k a ≡ some b → P)
    → P
and_then-some P none h go = cc
and_then-some P (some a) h go = go a refl h

read_element :
    (fuel : ℕ) (ts rest : List Token)
    → ((expected : Expected) (ts rest : List Token)
        → validate_observation_json fuel expected ts ≡ some rest
        → HasRead expected ts rest)
    → and_then (validate_observation_json fuel value ts) (validate_observation_json fuel elements)
      ≡ some rest
    → HasRead elements ts rest
unfolding HasRead
read_element fuel ts rest ih h = and_then-some _ _ h λ mid e e'.
    let (v, s, u) = ih value ts mid e in
    let (es, s', u') = ih elements mid rest e' in (element v es, s ∙ ap (tokens v) s', rw u u')

validated :
    (fuel : ℕ) (expected : Expected) (ts rest : List Token)
    → validate_observation_json fuel expected ts ≡ some rest
    → HasRead expected ts rest
unfolding validate_observation_json HasRead
validated zero expected ts rest h = cc
validated (suc fuel) expected [] rest h = cc
validated (suc fuel) value (open_object ∷ ts) rest h =
    let (ms, s, u) = validated fuel (members []) ts rest h in (object ms, ap (◌∷◌ open_object) s, u)
validated (suc fuel) value (open_array ∷ ts) rest h =
    let (es, s, u) = validated fuel elements ts rest h in (array es, ap (◌∷◌ open_array) s, u)
validated (suc fuel) value (close_object ∷ ts) rest h = cc
validated (suc fuel) value (close_array ∷ ts) rest h = cc
validated (suc fuel) value (text name ∷ ts) rest h = (quoted name, cc, refl)
validated (suc fuel) value (scalar ∷ ts) rest h = (atom, cc, refl)
validated (suc fuel) (members seen) (close_object ∷ ts) rest h = (no_members, cc, refl)
validated (suc fuel) (members seen) (text name ∷ ts) rest h =
    elim (Bool-cases (was_seen name seen)) [
      | inl old ↦ absurd (ground (arith, h, old))
      | inr new ↦ and_then-some _ _ (rw new at h) λ mid e e'.
          let (v, s, u) = validated fuel value ts mid e in
          let (ms, s', u') = validated fuel (members (name ∷ seen)) mid rest e' in
          (member name v ms, ap (◌∷◌ (text name)) (s ∙ ap (tokens v) s'), rw (new, u) u')
    ]
validated (suc fuel) (members seen) (open_object ∷ ts) rest h = cc
validated (suc fuel) (members seen) (open_array ∷ ts) rest h = cc
validated (suc fuel) (members seen) (close_array ∷ ts) rest h = cc
validated (suc fuel) (members seen) (scalar ∷ ts) rest h = cc
validated (suc fuel) elements (close_array ∷ ts) rest h = (no_elements, cc, refl)
validated (suc fuel) elements (close_object ∷ ts) rest h = cc
validated (suc fuel) elements (open_object ∷ ts) rest h =
    read_element fuel (open_object ∷ ts) rest (validated fuel) h
validated (suc fuel) elements (open_array ∷ ts) rest h =
    read_element fuel (open_array ∷ ts) rest (validated fuel) h
validated (suc fuel) elements (text name ∷ ts) rest h =
    read_element fuel (text name ∷ ts) rest (validated fuel) h
validated (suc fuel) elements (scalar ∷ ts) rest h =
    read_element fuel (scalar ∷ ts) rest (validated fuel) h

pub fuelled : (a r t : ℕ) → suc a + r ≤ t → a ≤ t
fuelled a r t h = omega arith

-- The validation succeeds and leaves `rest` exactly if the tokens are those of a JSON value in which no
-- object, at any depth, has a name twice, followed by `rest`; no fuel is a condition.
pub validate_document_iff :
    (ts rest : List Token)
    → (validate_document ts ≡ some rest)
      ↔ ((v : Json) × (ts ≡ tokens v rest) × (is_unique v ≡ true))
unfolding validate_document IsShort HasRead
validate_document_iff ts rest = (
  λ h. validated (2 * length ts) value ts rest h,
  λ (v, e, u). rw e (
      rw u at (accepted v rest (2 * length (tokens v rest)) (fuelled _ _ _ (size-IsShort v rest)))),
)
