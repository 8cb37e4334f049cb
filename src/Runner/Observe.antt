-- ===== src/Runner/Observe.antt =====
-- `Observe` and `observationCommand` of internal/runner/observation.go. What the processes, the file
-- system and the context answer may depend on all steps that were taken before.
use platform_orchestrator_ru.Base.{
  String, Bytes, List, Bool, Option, Result, ℕ, if◌then◌else◌, ◌∷◌, str_append, err, ◌++◌, ltb,
  str_eq, [], some, not, length, false, none, ◌||◌, true, ◌==◌, ◌-◌,
}
use platform_orchestrator_ru.Runner.Plan.{
  PlanLibrary, ObservationResult, parse_observation_plan, max_observation_plan_bytes, is_tool,
}
pub mod Cleans

-- `boundedObservationBuffer`.
pub record BoundedObservationBuffer : Type 0 where
  pub buffer : Bytes
  pub remaining : ℕ
  pub exceeded : Bool

-- `Write`: the buffer after it, and whether it was without an error.
unfoldable pub write_bounded : BoundedObservationBuffer → Bytes → BoundedObservationBuffer × Bool
write_bounded b p =
    if ltb b.remaining (length p)
    then (record { buffer = b.buffer; remaining = b.remaining; exceeded = true }, false)
    else (
      record { buffer = b.buffer ++ p; remaining = b.remaining - length p; exceeded = b.exceeded },
      true,
    )

-- What os/exec writes of the output of a process, until a write fails.
unfoldable pub copy_output : BoundedObservationBuffer → List Bytes → BoundedObservationBuffer
copy_output b [] = b
copy_output b (p ∷ rest) =
    let (b', written) = write_bounded b p in
    let all_of_it = copy_output b' rest in if written then all_of_it else b'

-- What a run of the tool, the file system or the verification of artifacts does.
pub data ObservationStep : Type 0 where
  make_plan_directory : ObservationStep
  run_tool : (arguments : List String) → ObservationStep
  verify_artifact_manifest : ObservationStep
  remove_plan_directory : ObservationStep

-- A process that ran: whether `cmd.Run` was without an error of its own, and what it wrote.
pub record Process : Type 0 where
  pub succeeds : Bool
  pub output : List Bytes

pub record ObservationWorld : Type 0 where
  pub temporary_directory : Option String
  pub process : List ObservationStep → List String → Process
  pub is_cancelled : List ObservationStep → Bool
  pub manifest_verifies : List ObservationStep → Bool
  pub removes : List ObservationStep → Bool
  pub join_path : String → String → String

pub record BaseRunner : Type 0 where
  pub observation_only : Bool
  pub tool : String
  pub folder : String

-- The result, and the steps that were taken.
pub record Observed : Type 0 where
  pub result : Result ObservationResult
  pub steps : List ObservationStep

unfoldable pub consolidate : String → List String
consolidate tool = if str_eq tool "opentofu" then "-consolidate-errors" ∷ [] else []

module _ (r : BaseRunner) where
  unfoldable pub init_arguments : List String
  init_arguments =
      str_append "-chdir=" r.folder
      ∷ "init"
      ∷ "-input=false"
      ∷ "-no-color"
      ∷ "-json"
      ∷ "-compact-warnings"
      ∷ consolidate r.tool

  unfoldable pub plan_arguments : String → List String
  plan_arguments plan_file =
      str_append "-chdir=" r.folder
      ∷ "plan"
      ∷ "-input=false"
      ∷ "-refresh=true"
      ∷ "-lock=true"
      ∷ "-lock-timeout=0s"
      ∷ "-no-color"
      ∷ "-json"
      ∷ "-compact-warnings"
      ∷ str_append "-out=" plan_file
      ∷ consolidate r.tool

  unfoldable pub show_arguments : String → List String
  show_arguments plan_file =
      str_append "-chdir=" r.folder ∷ "show" ∷ "-no-color" ∷ "-json" ∷ plan_file ∷ []

module _ (world : ObservationWorld) where
  -- With the limit 0 the output is discarded. The process runs before the context is asked.
  unfoldable pub observation_command : List ObservationStep → ℕ → List String → Option Bytes
  observation_command steps limit arguments =
      let process = world.process steps arguments in
      let started : BoundedObservationBuffer = record {
        buffer = [];
        remaining = limit;
        exceeded = false;
      } in
      let out = if limit == 0 then started else copy_output started process.output in
      if not process.succeeds
        || world.is_cancelled (steps ++ run_tool arguments ∷ [])
        || out.exceeded
      then none
      else some out.buffer

  unfoldable pub when : Bool → Option (Unit {0})
  when true = some tt
  when false = none

  -- `if err != nil { return nil, errors.New(message) }`, after these steps.
  unfoldable pub or_stop {ℓ} :
      {A : Type ℓ} → Option A → String → List ObservationStep → (A → Observed) → Observed
  or_stop none message steps k = record { result = err message; steps = steps }
  or_stop (some a) message steps k = k a

  module _ (lib : PlanLibrary) (r : BaseRunner) where
    -- The last statements: an inspected plan is parsed, unless the context was cancelled.
    unfoldable pub report_plan : List ObservationStep → Bytes → Observed
    report_plan steps contents = record {
      result =
          if world.is_cancelled steps
          then err "observation canceled"
          else parse_observation_plan lib contents r.tool;
      steps = steps;
    }

    -- What Observe does with its directory.
    unfoldable pub inspect : List ObservationStep → (plan_file : String) → Observed
    inspect made plan_file =
        let initialised = made ++ run_tool (init_arguments r) ∷ [] in
        let verified = initialised ++ verify_artifact_manifest ∷ [] in
        let planned = verified ++ run_tool (plan_arguments r plan_file) ∷ [] in
        let shown = planned ++ run_tool (show_arguments r plan_file) ∷ [] in
        or_stop (observation_command made 0 (init_arguments r)) "observation initialization failed"
          initialised
          λ _.
            or_stop (when (world.manifest_verifies initialised))
              "observation artifact verification failed" verified
              λ _.
                or_stop (observation_command verified 0 (plan_arguments r plan_file))
                  "observation plan failed" planned
                  λ _.
                    or_stop
                      (observation_command planned max_observation_plan_bytes
                        (show_arguments r plan_file))
                      "observation plan inspection failed" shown (report_plan shown)

    -- The deferred removal of the directory, whose error replaces the result.
    unfoldable pub cleaned : Observed → Observed
    cleaned observed = record {
      result =
          if world.removes observed.steps
          then observed.result
          else err "observation plan cleanup failed";
      steps = observed.steps ++ remove_plan_directory ∷ [];
    }

    unfoldable pub in_directory : Option String → Observed
    in_directory none = record {
      result = err "observation plan storage unavailable";
      steps = make_plan_directory ∷ [];
    }
    in_directory (some directory) =
        cleaned (inspect (make_plan_directory ∷ []) (world.join_path directory "plan.tfplan"))

    unfoldable pub observe : Observed
    observe =
        if not r.observation_only || not (is_tool r.tool)
        then record { result = err "observation mode is unsupported"; steps = [] }
        else in_directory world.temporary_directory
