-- ===== src/Runner/Json/Documents.antt =====
-- JSON values, their tokens, and whether an object in them has a name twice.
use platform_orchestrator_ru.Base.{String, List, [], ◌∷◌, Bool, true, ℕ, suc, not, ◌+◌, ◌&&◌}
use platform_orchestrator_ru.Runner.Json.{
  Token, text, scalar, open_object, open_array, was_seen, close_object, close_array,
}

mutual
  pub data Json : Type 0 where
    atom : Json
    quoted : String → Json
    object : Members → Json
    array : Elements → Json

  pub data Members : Type 0 where
    no_members : Members
    member : String → Json → Members → Members

  pub data Elements : Type 0 where
    no_elements : Elements
    element : Json → Elements → Elements

-- The tokens of a value, before those that follow it.
abbrev mutual
  pub tokens : Json → List Token → List Token
  tokens atom rest = scalar ∷ rest
  tokens (quoted name) rest = text name ∷ rest
  tokens (object ms) rest = open_object ∷ member_tokens ms rest
  tokens (array es) rest = open_array ∷ element_tokens es rest

  pub member_tokens : Members → List Token → List Token
  member_tokens no_members rest = close_object ∷ rest
  member_tokens (member name v ms) rest = text name ∷ tokens v (member_tokens ms rest)

  pub element_tokens : Elements → List Token → List Token
  element_tokens no_elements rest = close_array ∷ rest
  element_tokens (element v es) rest = tokens v (element_tokens es rest)

-- No object has a name twice; `seen` are the names before the members.
abbrev mutual
  pub is_unique : Json → Bool
  is_unique atom = true
  is_unique (quoted name) = true
  is_unique (object ms) = members_unique ms []
  is_unique (array es) = elements_unique es

  pub members_unique : Members → (seen : List String) → Bool
  members_unique no_members seen = true
  members_unique (member name v ms) seen =
      not (was_seen name seen) && (is_unique v && members_unique ms (name ∷ seen))

  pub elements_unique : Elements → Bool
  elements_unique no_elements = true
  elements_unique (element v es) = is_unique v && elements_unique es

-- A bound on the depth of the recursion.
abbrev mutual
  pub size : Json → ℕ
  size atom = 1
  size (quoted name) = 1
  size (object ms) = suc (members_size ms)
  size (array es) = suc (elements_size es)

  pub members_size : Members → ℕ
  members_size no_members = 1
  members_size (member name v ms) = suc (size v + members_size ms)

  pub elements_size : Elements → ℕ
  elements_size no_elements = 1
  elements_size (element v es) = suc (size v + elements_size es)
