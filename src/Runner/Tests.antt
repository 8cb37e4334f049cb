-- ===== src/Runner/Tests.antt =====
-- Runs of the runner at concrete inputs.
mod Commands
use platform_orchestrator_ru.Base.{
  String, List, Bytes, ◌≡◌, some, ℕ, ◌∷◌, none, true, [], str_append, false, ◌↔◌, if◌then◌else◌,
  ltb, length, err, refl, all, ok, All,
}
use platform_orchestrator_ru.Runner.Json.{
  validate_document, Token, validate_observation_json, open_object, was_seen, text, scalar,
  open_array, close_object, close_array,
}
use platform_orchestrator_ru.Runner.Observation.{
  ObservationPlanChange, sanitize_observation_changes, ObservationChange, sanitize_loop,
  is_supported, valid_planned, valid_observation_actions, is_no_op, actions_of,
}
use platform_orchestrator_ru.Runner.Plan.{
  ObservationPlan, PlanLibrary, ObservationResult, parse_observation_plan, is_tool, is_one_document,
  without_error, json_object, says_complete, nothing_deferred, as_invalid, output_change_count,
}
use platform_orchestrator_ru.Runner.Plan.Complete.{IsComplete, parse_observation_plan-IsComplete}
use platform_orchestrator_ru.Runner.Observe.{BaseRunner, ObservationWorld}
use platform_orchestrator_ru.Unary.{unary}
use platform_orchestrator_ru.Runner.Patterns.{
  is_resource_type, is_version, is_matched, after_number, all_chars, after_dot, is_letter,
  skip_digits, is_digit, is_suffix, is_nonempty,
}
use platform_orchestrator_ru.Runner.Json.Unique.{validate_document_iff}
use platform_orchestrator_ru.Runner.Observation.Sanitized.{
  reported, sanitize_observation_changes_lem,
}
use platform_orchestrator_ru.Runner.Bundle.{
  TarEntry, Archive, unarchive_bundle_to_folder, regular_entry, unarchive_entries, extract, act,
  parent, escapes, relative_to, begins_outside, clean, reverse_onto, clean_segments, step_back,
  is_absolute, split_slashes, make_directories, write_entry,
}
use platform_orchestrator_ru.Runner.Bundle.Inside.{IsInside, unarchive_bundle_to_folder-IsInside}
use platform_orchestrator_ru.Runner.Json.Documents.{Json, tokens, is_unique}

abbrev document_tokens : List Token
document_tokens =
    open_object
    ∷ text "errored"
    ∷ scalar
    ∷ text "checks"
    ∷ open_array
    ∷ close_array
    ∷ close_object
    ∷ []

validate_document_iff_example :
    (validate_document document_tokens ≡ some [])
    ↔ ((v : Json) × (document_tokens ≡ tokens v []) × (is_unique v ≡ true))
validate_document_iff_example = validate_document_iff document_tokens []

twice_refused :
    validate_document
      (open_object ∷ text "errored" ∷ scalar ∷ text "errored" ∷ scalar ∷ close_object ∷ [])
    ≡ none
unfolding validate_document validate_observation_json was_seen
twice_refused = refl

abbrev update : ObservationPlanChange
update = record {
  change_type = "aws_s3_bucket";
  change = some (record { actions = "update" ∷ []; importing = "" });
}

abbrev skipped : ObservationPlanChange
skipped = record {
  change_type = "aws_s3_bucket";
  change = some (record { actions = "no-op" ∷ []; importing = "null" });
}

abbrev numbered : String → ℕ → String
numbered prefix n = str_append prefix (unary n String.[])

abbrev observed_update : List ObservationChange
observed_update =
    record { id = "proposed1-"; resource_type = "aws_s3_bucket"; actions = "update" ∷ [] } ∷ []

sanitized_update :
    sanitize_observation_changes (numbered "proposed") (skipped ∷ update ∷ skipped ∷ [])
    ≡ ok observed_update
unfolding sanitize_observation_changes sanitize_loop is_supported is_resource_type valid_planned
    valid_observation_actions is_no_op actions_of all_chars is_letter is_digit unary
sanitized_update = refl

sanitize_observation_changes_lem_example :
    sanitize_observation_changes (numbered "proposed") (update ∷ []) ≡ (
      if ltb 2000 (length (update ∷ []))
      then err "too many observation changes"
      else if all is_supported (update ∷ [])
      then ok (reported (numbered "proposed") 1 (update ∷ []))
      else err "unsupported observation change")
sanitize_observation_changes_lem_example =
    sanitize_observation_changes_lem (numbered "proposed") (update ∷ [])

abbrev plan : ObservationPlan
plan = record {
  format_version = "1.2";
  version = "1.9.0-rc1";
  complete = none;
  errored = some false;
  configuration = "{}";
  planned_values = "{}";
  deferred = "";
  checks = "pass" ∷ [];
  drift = [];
  changes = skipped ∷ update ∷ [];
  outputs = ("create" ∷ []) ∷ ("no-op" ∷ []) ∷ [];
}

abbrev pub plan_library : PlanLibrary
plan_library = record {
  read_tokens = λ contents. document_tokens;
  ends_in_eof = λ contents. true;
  unmarshal_plan = λ contents. some plan;
  format_id = numbered;
}

abbrev plan_bytes : Bytes
plan_bytes = 123 ∷ 125 ∷ []

abbrev observation : ObservationResult
observation = record {
  schema_version = "1";
  is_complete = true;
  tool = "opentofu";
  tool_version = "1.9.0-rc1";
  observed_changes = [];
  proposed_changes = observed_update;
  output_change_count = 1;
}

parsed_plan : parse_observation_plan plan_library plan_bytes "opentofu" ≡ ok observation
unfolding parse_observation_plan validate_document validate_observation_json was_seen is_tool
    is_one_document is_version is_matched after_number after_dot skip_digits is_suffix is_nonempty
    without_error json_object says_complete nothing_deferred as_invalid output_change_count
    sanitize_observation_changes sanitize_loop is_supported is_resource_type valid_planned
    valid_observation_actions is_no_op actions_of all_chars is_letter is_digit unary
parsed_plan = refl

parse_observation_plan-IsComplete_example :
    IsComplete plan_library plan_bytes "opentofu" observation
parse_observation_plan-IsComplete_example =
    parse_observation_plan-IsComplete plan_library plan_bytes "opentofu" observation parsed_plan

abbrev observing_runner : BaseRunner
observing_runner = record { observation_only = true; tool = "opentofu"; folder = "/iac" }

abbrev pub observed_world : ObservationWorld
observed_world = record {
  temporary_directory = some "/iac/.observation-1";
  process = λ steps arguments. record { succeeds = true; output = (123 ∷ []) ∷ (125 ∷ []) ∷ [] };
  is_cancelled = λ steps. false;
  manifest_verifies = λ steps. true;
  removes = λ steps. true;
  join_path = λ directory name. str_append directory (str_append "/" name);
}

abbrev bundle_entry : String → TarEntry
bundle_entry name = record {
  name = name;
  entry_type = regular_entry;
  mode = 420;
  contents = 1 ∷ [];
}

abbrev bundle : Archive
bundle = record {
  gzip_opens = true;
  entries = bundle_entry "./modules//a/../main.tf" ∷ bundle_entry "modules/../../etc" ∷ [];
  ends_well = true;
}

-- The second entry is refused.
unarchived_bundle : unarchive_bundle_to_folder (λ done action. true) ("opt" ∷ []) bundle ≡ record {
  error = err "bundle entry escapes destination";
  actions =
      make_directories ("opt" ∷ "modules" ∷ [])
      ∷ write_entry ("opt" ∷ "modules" ∷ "main.tf" ∷ []) 420 (1 ∷ [])
      ∷ [];
}
unfolding unarchive_bundle_to_folder unarchive_entries extract act parent escapes relative_to
    begins_outside clean reverse_onto clean_segments step_back is_absolute split_slashes
unarchived_bundle = refl

unarchive_bundle_to_folder-IsInside_example :
    All
      (IsInside ("opt" ∷ []))
      (unarchive_bundle_to_folder (λ done action. true) ("opt" ∷ []) bundle).actions
unarchive_bundle_to_folder-IsInside_example =
    unarchive_bundle_to_folder-IsInside ("opt" ∷ []) (λ done action. true) bundle
