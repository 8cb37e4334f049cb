-- ===== src/Runner/Outputs.antt =====
-- internal/runner/output_changes.go: the planned value of an output, on JSON values; the fields of an
-- object stand in any order and the first of a name counts. `none` is a panic.
use platform_orchestrator_ru.Base.{
  String, List, [], ◌∷◌, Option, none, some, Bool, true, if◌then◌else◌, str_eq,
}

mutual
  pub data JsonValue : Type 0 where
    null_value : JsonValue
    bool_value : Bool → JsonValue
    number_value text_value : String → JsonValue
    array_value : JsonItems → JsonValue
    object_value : JsonFields → JsonValue

  pub data JsonItems : Type 0 where
    no_items : JsonItems
    item : JsonValue → JsonItems → JsonItems

  pub data JsonFields : Type 0 where
    no_fields : JsonFields
    field : String → JsonValue → JsonFields → JsonFields

pub record OutputChange : Type 0 where
  pub actions : List String
  pub after : JsonValue
  pub after_unknown : JsonValue
  pub after_sensitive : Bool

abbrev pub known_after_apply : JsonValue
known_after_apply = text_value "(known after apply)"

-- `asMap[k]`, nil for a key that it does not have.
unfoldable pub get_field : String → JsonFields → JsonValue
get_field key no_fields = null_value
get_field key (field name value rest) =
    let later = get_field key rest in if str_eq key name then value else later

unfoldable pub set_field : String → JsonValue → JsonFields → JsonFields
set_field key value no_fields = field key value no_fields
set_field key value (field name old rest) =
    let later = set_field key value rest in
    if str_eq key name then field name value rest else field name old later

unfoldable pub put_item : Option JsonValue → Option JsonItems → Option JsonItems
put_item none items = none
put_item (some value) none = none
put_item (some value) (some items) = some (item value items)

unfoldable pub as_object : Option JsonFields → Option JsonValue
as_object none = none
as_object (some fields) = some (object_value fields)

unfoldable pub as_array : Option JsonItems → Option JsonValue
as_array none = none
as_array (some items) = some (array_value items)

unfoldable pub set_compacted : String → Option JsonValue → Option JsonFields → Option JsonFields
set_compacted key none fields = none
set_compacted key (some value) none = none
set_compacted key (some value) (some fields) = some (set_field key value fields)

-- The last statements, for a value that is no map and no slice.
unfoldable pub unless_unknown : JsonValue → JsonValue → JsonValue
unless_unknown after (bool_value true) = known_after_apply
unless_unknown after _ = after

unfoldable mutual
  pub compact_unknowns : (after after_unknown : JsonValue) → Option JsonValue
  compact_unknowns (object_value fields) (object_value unknown) =
      as_object (compact_fields fields unknown)
  compact_unknowns (object_value fields) _ = some (object_value fields)
  compact_unknowns (array_value items) (array_value unknown) =
      as_array (compact_items items unknown)
  compact_unknowns (array_value items) _ = some (array_value items)
  compact_unknowns after unknown = some (unless_unknown after unknown)

  -- The loop over the unknown fields, which reads the map as it was.
  pub compact_fields : JsonFields → JsonFields → Option JsonFields
  compact_fields fields no_fields = some fields
  compact_fields fields (field key unknown rest) =
      set_compacted key (compact_unknowns (get_field key fields) unknown)
        (compact_fields fields rest)

  -- The loop over the unknown items, which panics beyond the end of the slice.
  pub compact_items : JsonItems → JsonItems → Option JsonItems
  compact_items items no_items = some items
  compact_items no_items (item unknown rest) = none
  compact_items (item value items) (item unknown rest) =
      put_item (compact_unknowns value unknown) (compact_items items rest)

unfoldable pub compact : OutputChange → Option JsonValue
compact change = compact_by change.actions
  where
    compact_by : List String → Option JsonValue
    compact_by [] = some known_after_apply
    compact_by (action ∷ rest) =
        if str_eq action "no-op"
        then some change.after
        else if str_eq action "delete"
        then some null_value
        else compact_unknowns change.after change.after_unknown
