-- ===== src/Notices/Receipt.antt =====
-- `receipt` of scripts/noticecheck/main.go, on what a json.Decoder's `Token` gives.
use platform_orchestrator_ru.Base.{
  ok, err, List, ◌∷◌, [], String, Result, Option, if◌then◌else◌, none, some, is_some, str_eq,
}
use platform_orchestrator_ru.Vendor.Values.{JsonToken, open_object, close_object, text, scalar}

-- A map is the list of its members, the last first.
unfoldable pub lookup : String → List (String × String) → Option String
lookup key [] = none
lookup key ((name, value) ∷ rest) =
    let later = lookup key rest in if str_eq key name then some value else later

-- The field under a key of a Go map, empty without one.
unfoldable pub at_key : String → List (String × String) → String
at_key key fields = or_empty (lookup key fields)
  where
    or_empty : Option String → String
    or_empty none = ""
    or_empty (some value) = value

-- `Decode` into a string takes a string, and leaves it empty for `null`.
unfoldable pub receipt_fields :
    List JsonToken → (result : List (String × String)) → Result (List (String × String))
receipt_fields [] result = err "unexpected EOF"
receipt_fields (close_object ∷ []) result = ok result
receipt_fields (close_object ∷ token ∷ rest) result = err "trailing provenance JSON"
receipt_fields (text name ∷ text value ∷ rest) result =
    let later = receipt_fields rest ((name, value) ∷ result) in
    if is_some (lookup name result) then err "duplicate provenance key" else later
receipt_fields (text name ∷ scalar value ∷ rest) result =
    let later = receipt_fields rest ((name, "") ∷ result) in
    if is_some (lookup name result)
    then err "duplicate provenance key"
    else if str_eq value "null"
    then later
    else err "cannot unmarshal into a string"
receipt_fields (text name ∷ rest) result = err "cannot unmarshal into a string"
receipt_fields (token ∷ rest) result = err "invalid provenance key"

unfoldable pub receipt : List JsonToken → Result (List (String × String))
receipt (open_object ∷ rest) = receipt_fields rest []
receipt tokens = err "invalid provenance JSON"
