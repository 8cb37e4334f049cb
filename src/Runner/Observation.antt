-- ===== src/Runner/Observation.antt =====
-- The sanitised changes of a plan: `sanitizeObservationChanges` and `validObservationActions` of
-- internal/runner/observation.go.
pub mod Sanitized
use platform_orchestrator_ru.Runner.Patterns.{is_resource_type}
use platform_orchestrator_ru.Base.{
  ℕ, List, String, Option, Bool, false, ◌&&◌, Result, [], some, ok, if◌then◌else◌, str_eq, ltb,
  none, ◌++◌, ◌||◌, length, err, ◌+◌, not, ◌∷◌,
}

abbrev pub max_observation_changes : ℕ
max_observation_changes = 2000

-- A field of raw JSON is its text, empty where it is absent.
pub record PlannedActions : Type 0 where
  pub actions : List String
  pub importing : String

pub record ObservationPlanChange : Type 0 where
  pub change_type : String
  pub change : Option PlannedActions

pub record ObservationChange : Type 0 where
  pub id : String
  pub resource_type : String
  pub actions : List String

unfoldable pub valid_observation_actions : List String → Bool
valid_observation_actions [] = false
valid_observation_actions (action ∷ []) =
    str_eq action "create"
    || str_eq action "read"
    || str_eq action "update"
    || str_eq action "delete"
    || str_eq action "no-op"
    || str_eq action "forget"
valid_observation_actions (first ∷ second ∷ []) =
    str_eq first "create" && str_eq second "delete"
    || str_eq first "delete" && str_eq second "create"
valid_observation_actions (first ∷ second ∷ third ∷ rest) = false

unfoldable pub is_no_op : List String → Bool
is_no_op [] = false
is_no_op (action ∷ []) = str_eq action "no-op"
is_no_op (first ∷ second ∷ rest) = false

-- The conditions on the `change` of a change, which a nil pointer fails.
unfoldable pub valid_planned : Option PlannedActions → Bool
valid_planned none = false
valid_planned (some planned) =
    valid_observation_actions planned.actions
    && (str_eq planned.importing "" || str_eq planned.importing "null")

unfoldable pub actions_of : Option PlannedActions → List String
actions_of none = []
actions_of (some planned) = planned.actions

unfoldable pub is_supported : ObservationPlanChange → Bool
is_supported change = is_resource_type change.change_type && valid_planned change.change

-- `format` is `fmt.Sprintf("%s_%d", prefix, _)`.
module _ (format : ℕ → String) where
  -- The loop, with the changes of the result so far.
  unfoldable pub sanitize_loop :
      List ObservationChange → List ObservationPlanChange → Result (List ObservationChange)
  sanitize_loop result [] = ok result
  sanitize_loop result (change ∷ rest) =
      let skipped = sanitize_loop result rest in
      let added =
        sanitize_loop
          (result
            ++ record {
              id = format (length result + 1);
              resource_type = change.change_type;
              actions = actions_of change.change;
            }
              ∷ [])
          rest in
      if not (is_supported change)
      then err "unsupported observation change"
      else if is_no_op (actions_of change.change)
      then skipped
      else added

  unfoldable pub sanitize_observation_changes :
      List ObservationPlanChange → Result (List ObservationChange)
  sanitize_observation_changes changes =
      if ltb max_observation_changes (length changes)
      then err "too many observation changes"
      else sanitize_loop [] changes
