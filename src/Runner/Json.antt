-- ===== src/Runner/Json.antt =====
-- `validateObservationJSON` of internal/runner/observation.go, on the tokens that a json.Decoder gives: a
-- read past the last of them is an error, and so is a delimiter that does not match, which the Decoder
-- does not return. The recursion is on fuel, two calls for each token.
pub mod Documents
pub mod Unique
use platform_orchestrator_ru.Base.{
  ℕ, zero, suc, String, List, [], ◌∷◌, Option, none, some, Bool, if◌then◌else◌, false, str_eq, ◌||◌,
  ◌*◌, length,
}

pub data Token : Type 0 where
  open_object close_object open_array close_array : Token
  text : String → Token
  scalar : Token

-- What is read next: a value, or the rest of an object with the names that it has had, or of an array.
pub data Expected : Type 0 where
  value : Expected
  members : (seen : List String) → Expected
  elements : Expected

abbrev pub and_then {ℓ κ} : {A : Type ℓ} {B : Type κ} → Option A → (A → Option B) → Option B
and_then none k = none
and_then (some a) k = k a

unfoldable pub was_seen : String → List String → Bool
was_seen name [] = false
was_seen name (other ∷ rest) = str_eq name other || was_seen name rest

-- The tokens after what was read, `none` for an error.
unfoldable pub validate_observation_json : ℕ → Expected → List Token → Option (List Token)
validate_observation_json zero expected tokens = none
validate_observation_json (suc fuel) expected [] = none
validate_observation_json (suc fuel) value (open_object ∷ rest) =
    validate_observation_json fuel (members []) rest
validate_observation_json (suc fuel) value (open_array ∷ rest) =
    validate_observation_json fuel elements rest
validate_observation_json (suc fuel) value (close_object ∷ rest) = none
validate_observation_json (suc fuel) value (close_array ∷ rest) = none
validate_observation_json (suc fuel) value (text name ∷ rest) = some rest
validate_observation_json (suc fuel) value (scalar ∷ rest) = some rest
validate_observation_json (suc fuel) (members seen) (close_object ∷ rest) = some rest
validate_observation_json (suc fuel) (members seen) (text name ∷ rest) =
    let after = validate_observation_json fuel value rest in
    if was_seen name seen
    then none
    else and_then after (validate_observation_json fuel (members (name ∷ seen)))
validate_observation_json (suc fuel) (members seen) (_ ∷ rest) = none
validate_observation_json (suc fuel) elements (close_object ∷ rest) = none
validate_observation_json (suc fuel) elements (close_array ∷ rest) = some rest
validate_observation_json (suc fuel) elements (token ∷ rest) =
    and_then (validate_observation_json fuel value (token ∷ rest))
      (validate_observation_json fuel elements)

-- `validateObservationJSON(decoder)` at the start of the data.
unfoldable pub validate_document : List Token → Option (List Token)
validate_document tokens = validate_observation_json (2 * length tokens) value tokens
