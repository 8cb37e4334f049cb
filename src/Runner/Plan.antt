-- ===== src/Runner/Plan.antt =====
-- `parseObservationPlan` of internal/runner/observation.go.
pub mod Complete
use text.Mathlib.Text.{starts_with}
use platform_orchestrator_ru.Base.{
  ℕ, String, Bytes, Option, List, Result, ◌*◌, Bool, ◌∷◌, err, ◌>>◌, ◌^◌, str_eq, ltb, false, not,
  if◌then◌else◌, ok, fail_if, ◌||◌, len, some, length, ◌&&◌, suc, is_nil, none, ◌==◌, [], ◌>>=◌,
  or_fail, all, true,
}
use platform_orchestrator_ru.Runner.Json.{Token, validate_document}
use platform_orchestrator_ru.Runner.Observation.{
  ObservationPlanChange, ObservationChange, is_no_op, sanitize_observation_changes,
  valid_observation_actions,
}
use platform_orchestrator_ru.Runner.Patterns.{is_version}

abbrev pub max_observation_plan_bytes : ℕ
max_observation_plan_bytes = 32 * 2 ^ 20

-- A field of raw JSON is its text, empty where it is absent; `outputs` are the actions of each output.
pub record ObservationPlan : Type 0 where
  pub format_version : String
  pub version : String
  pub complete : Option Bool
  pub errored : Option Bool
  pub configuration : String
  pub planned_values : String
  pub deferred : String
  pub checks : List String
  pub drift : List ObservationPlanChange
  pub changes : List ObservationPlanChange
  pub outputs : List (List String)

pub record ObservationResult : Type 0 where
  pub schema_version : String
  pub is_complete : Bool
  pub tool : String
  pub tool_version : String
  pub observed_changes : List ObservationChange
  pub proposed_changes : List ObservationChange
  pub output_change_count : ℕ

-- The tokens of a json.Decoder over the data, and whether io.EOF or a syntax error follows them;
-- json.Unmarshal; and `fmt.Sprintf("%s_%d", prefix, n)`.
pub record PlanLibrary : Type 0 where
  pub read_tokens : Bytes → List Token
  pub ends_in_eof : Bytes → Bool
  pub unmarshal_plan : Bytes → Option ObservationPlan
  pub format_id : String → ℕ → String

unfoldable pub is_tool : String → Bool
is_tool tool = str_eq tool "terraform" || str_eq tool "opentofu"

unfoldable pub json_object : String → Bool
json_object text = ltb 1 (len text) && starts_with text "{"

-- `plan.Errored == nil || *plan.Errored` is false.
unfoldable pub without_error : Option Bool → Bool
without_error none = false
without_error (some errored) = not errored

-- Terraform says that a plan is complete, and OpenTofu may leave it out.
unfoldable pub says_complete : String → Option Bool → Bool
says_complete tool none = not (str_eq tool "terraform")
says_complete tool (some complete) = complete

unfoldable pub nothing_deferred : String → Bool
nothing_deferred deferred = str_eq deferred "" || str_eq deferred "[]" || str_eq deferred "null"

unfoldable pub output_change_count : List (List String) → ℕ
output_change_count [] = 0
output_change_count (actions ∷ rest) =
    if is_no_op actions then output_change_count rest else suc (output_change_count rest)

unfoldable pub is_one_document : Option (List Token) → Bool → Bool
is_one_document none eof = false
is_one_document (some rest) eof = is_nil rest && eof

abbrev pub invalid : String
invalid = "observation plan is invalid or unsupported"

-- `if err != nil { return nil, invalid }`
unfoldable pub as_invalid {ℓ} : {A : Type ℓ} → Result A → Result A
as_invalid (err message) = err invalid
as_invalid (ok a) = ok a

module _ (lib : PlanLibrary) where
  open lib use {read_tokens, ends_in_eof, unmarshal_plan, format_id}

  unfoldable pub parse_observation_plan : Bytes → String → Result ObservationResult
  parse_observation_plan contents tool = do
    fail_if
        (length contents == 0
          || ltb max_observation_plan_bytes (length contents)
          || not (is_tool tool))
        invalid
    fail_if
        (not (is_one_document (validate_document (read_tokens contents)) (ends_in_eof contents)))
        invalid
    plan ← or_fail (unmarshal_plan contents) invalid
    fail_if
        (not (str_eq plan.format_version "1.2")
          || ltb 64 (len plan.version)
          || not (is_version plan.version)
          || not (without_error plan.errored)
          || not (json_object plan.configuration)
          || not (json_object plan.planned_values))
        invalid
    fail_if (not (says_complete tool plan.complete)) invalid
    fail_if (not (nothing_deferred plan.deferred)) invalid
    fail_if (not (all (λ status. str_eq status "pass") plan.checks)) invalid
    observed ← as_invalid (sanitize_observation_changes (format_id "observed") plan.drift)
    proposed ← as_invalid (sanitize_observation_changes (format_id "proposed") plan.changes)
    fail_if (ltb 1000000 (length plan.outputs)) invalid
    fail_if (not (all valid_observation_actions plan.outputs)) invalid
    ok record {
      schema_version = "1";
      is_complete = true;
      tool = tool;
      tool_version = plan.version;
      observed_changes = observed;
      proposed_changes = proposed;
      output_change_count = output_change_count plan.outputs;
    }
