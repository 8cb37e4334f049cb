-- ===== src/Runner/Commands.antt =====
-- internal/runner/base_runner.go, with the wrappers of opentofu_runner.go and terraform_runner.go: the
-- commands of a runner. The tool and the files answer by a function of the commands run before.
pub mod Guards
use platform_orchestrator_ru.Base.{
  String, List, [], ◌∷◌, none, some, err, ok, str_append, if◌then◌else◌, Bytes, Option, str_eq,
  Result, ◌++◌,
}
use platform_orchestrator_ru.Diode.Ledger.{split_lines}
use platform_orchestrator_ru.Runner.Artifacts.{verify_artifact_manifest}
use platform_orchestrator_ru.Runner.Diagnostics.{
  CommandWorld, History, Either, Ran, IacChanges, from_last_brace, failed, done, run_command,
  values_of, plain, scan_outputs, compact_changes,
}
use platform_orchestrator_ru.Runner.Observe.{BaseRunner, consolidate}
use platform_orchestrator_ru.Runner.Outputs.{JsonValue, OutputChange}

module _ (world : CommandWorld) (r : BaseRunner) where
  abbrev failing : {A : Type 0} → String → History → Ran A
  failing message history = record { outcome = failed (plain message); commands = history }

  abbrev finished : {A : Type 0} → A → History → Ran A
  finished a history = record { outcome = done a; commands = history }

  -- `if r.observationOnly { return errors.New(message) }`
  unfoldable pub guarded : {A : Type 0} → String → History → Ran A → Ran A
  guarded message history ran = if r.observation_only then failing message history else ran

  unfoldable pub chdir : String
  chdir = str_append "-chdir=" r.folder

  unfoldable pub plan_file : String
  plan_file = str_append r.folder "/plan.tfplan"

  unfoldable pub show_sensitive : List String
  show_sensitive = if str_eq r.tool "opentofu" then "-show-sensitive" ∷ [] else []

  unfoldable pub run_version : History → Ran Bytes
  run_version history =
      guarded "observation requires the safe observation executor" history
        (run_command world "version" history ("version" ∷ []) λ ran out. finished out ran)

  unfoldable pub output_metadata : (metadata : String) → History → Ran Bytes
  output_metadata metadata history = guarded "observation outputs are unavailable" history (
      run_command world "output" history (chdir ∷ "output" ∷ "-json" ∷ "-no-color" ∷ metadata ∷ [])
        λ ran out. finished out ran)

  unfoldable pub run_init : History → Ran Bytes
  run_init history = guarded "observation requires the safe observation executor" history (
      run_command world "init" history
        (chdir ∷ "init" ∷ "-no-color" ∷ "-json" ∷ "-compact-warnings" ∷ consolidate r.tool)
        λ ran out. verified out ran (verify_artifact_manifest (world.artifact_files ran) r.folder))
    where
      verified : Bytes → History → Result (Unit {0}) → Ran Bytes
      verified out ran (err message) = failing message ran
      verified out ran (ok _) = finished out ran

  unfoldable pub with_changes :
      {A : Type 0} → Either IacChanges → (IacChanges → A) → History → Ran A
  with_changes (failed e) k history = record { outcome = failed e; commands = history }
  with_changes (done changes) k history = finished (k changes) history

  unfoldable pub run_apply : History → Ran IacChanges
  run_apply history = guarded "observation cannot apply" history (
      run_command world "apply" history
        (chdir
          ∷ "apply"
          ∷ "-auto-approve"
          ∷ "-no-color"
          ∷ "-json"
          ∷ "-compact-warnings"
          ∷ (consolidate r.tool ++ plan_file ∷ []))
        λ ran out. with_changes (scan_outputs world out) (λ changes. changes) ran)

  unfoldable pub run_destroy : History → Ran IacChanges
  run_destroy history = guarded "observation cannot destroy" history (
      run_command world "destroy" history
        (chdir
          ∷ "destroy"
          ∷ "-auto-approve"
          ∷ "-no-color"
          ∷ "-json"
          ∷ "-compact-warnings"
          ∷ consolidate r.tool)
        λ ran out. with_changes (scan_outputs world out) (λ changes. changes) ran)

  -- `parseShowPlanOutput` on what follows the last line break before a brace.
  unfoldable pub last_object : Bytes → Bytes
  last_object out = or_whole out (split_lines out)
    where
      found_or : Bytes → Option Bytes → Bytes
      found_or out none = out
      found_or out (some text) = text

      -- The first line has no line break before it, and a break at the very start does not count.
      or_whole : Bytes → List Bytes → Bytes
      or_whole out [] = out
      or_whole out (first ∷ []) = out
      or_whole out ([] ∷ second ∷ rest) = found_or out (from_last_brace none rest)
      or_whole out ((c ∷ first) ∷ second ∷ rest) =
          found_or out (from_last_brace none (second ∷ rest))

  unfoldable pub planned_outputs : Bytes → Either (List (String × JsonValue))
  planned_outputs out = compacted (world.unmarshal_output_changes (last_object out))
    where
      or_panic : Option (List (String × JsonValue)) → Either (List (String × JsonValue))
      or_panic none = failed (plain "panic: index out of range")
      or_panic (some values) = done values

      compacted : Option (List (String × OutputChange)) → Either (List (String × JsonValue))
      compacted none = failed (plain "failed to parse plan output_changes")
      compacted (some changes) = or_panic (compact_changes world changes)

  unfoldable pub with_planned :
      Either (List (String × JsonValue))
      → Bytes
      → History
      → Ran (List (String × JsonValue) × IacChanges)
  with_planned (failed e) out history = record { outcome = failed e; commands = history }
  with_planned (done values) out history =
      with_changes (scan_outputs world out) (λ changes. (values, changes)) history

  unfoldable pub run_plan : History → Ran (List (String × JsonValue) × IacChanges)
  run_plan history = guarded "observation requires the safe observation executor" history (
      run_command world "plan" history
        (chdir
          ∷ "plan"
          ∷ "-no-color"
          ∷ "-json"
          ∷ "-compact-warnings"
          ∷ "-out"
          ∷ plan_file
          ∷ consolidate r.tool)
        λ ran out.
          run_command world "show" ran (chdir ∷ "show" ∷ "-no-color" ∷ "-json" ∷ plan_file ∷ [])
            λ shown plan_out. with_planned (planned_outputs plan_out) out shown)

  unfoldable pub with_values :
      Option (List (String × JsonValue)) → History → Ran (List (String × JsonValue))
  with_values none history = failing "panic: interface conversion" history
  with_values (some values) history = finished values history

  unfoldable pub with_outputs_read :
      Option (List (String × JsonValue)) → History → Ran (List (String × JsonValue))
  with_outputs_read none history = failing "failed to parse outputs" history
  with_outputs_read (some outputs) history = with_values (values_of outputs) history

  unfoldable pub run_output : History → Ran (List (String × JsonValue))
  run_output history = guarded "observation outputs are unavailable" history (
      run_command world "output" history (chdir ∷ "output" ∷ "-json" ∷ "-no-color" ∷ show_sensitive)
        λ ran out. with_outputs_read (world.unmarshal_outputs out) ran)
