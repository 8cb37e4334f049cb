-- ===== src/Executor/Standard.antt =====
-- `ExecuteStandardMode` and `executeObservation` (internal/executor/standard_executor.go and
-- observation.go) as sequences of phases. What a phase answers is a function of the phases run before
-- it, newest first.
pub mod Phases
use platform_orchestrator_ru.Base.{
  String, List, [], ◌∷◌, Option, none, some, Bool, true, false, ℕ, str_append, if◌then◌else◌,
  str_eq, not, ◌||◌,
}

pub data Mode : Type 0 where
  deploy destroy plan_only : Mode
  unsupported : Mode

pub data Phase : Type 0 where
  create_runner create_iac_folder launch_agent stat_main : Phase
  version init run_destroy run_plan run_apply : Phase
  output_metadata parse_metadata output observe : Phase
  encrypt_string : String → Phase

abbrev pub Trace : Type 0
Trace = List Phase

-- An error, with the code that `errors.As` finds in it.
pub record Failure : Type 0 where
  pub code : Option String
  pub message : String

abbrev pub OutputMap : Type 0
OutputMap = List (String × String)

-- The fields of `DeploymentResultsUpdateBody`; `error` has the code and the message.
pub record Results : Type 0 where
  pub success : Bool
  pub error : Option (String × String)
  pub outputs : Option String
  pub resource_counts : Option (ℕ × ℕ × ℕ)
  pub metadata : List (String × String)
  pub observation : Option String

pub record Config : Type 0 where
  pub mode : Mode
  pub is_observation : Bool
  pub protocol_error : Option String
  pub encrypting_key : String
  pub metadata_key : String

-- The runner, the file system and the JSON codecs.
pub record World : Type 0 where
  pub answer : Phase → Trace → Option Failure
  pub changes : Trace → ℕ × ℕ × ℕ
  pub outputs : Trace → OutputMap
  pub metadata : Trace → List (String × String)
  pub marshal : OutputMap → String
  pub encrypted : String → Trace → String
  pub observation_result : Trace → Option (String × Bool)
  pub observes : Bool
  pub cancelled : Trace → Bool

abbrev pub Outcome : Type 0
Outcome = Results × Trace

abbrev pub failed : String → String → Results
failed code message = record {
  success = false;
  error = some (code, message);
  outputs = none;
  resource_counts = none;
  metadata = [];
  observation = none;
}

unfoldable pub get_iac_error_code : Failure → String
get_iac_error_code failure = elim failure.code [ none ↦ "IAC_COMMAND_ERROR" | some code ↦ code ]

abbrev pub runner_error : String → Failure → Results
runner_error wrap failure = failed "RUNNER" (str_append wrap failure.message)

abbrev pub iac_error : Failure → Results
iac_error failure = failed (get_iac_error_code failure) failure.message

-- `delete(outputs, key)`.
unfoldable pub delete_key : OutputMap → String → OutputMap
delete_key [] key = []
delete_key (entry ∷ rest) key =
    let others = delete_key rest key in if str_eq entry.0 key then others else entry ∷ others

module _ (w : World) where
  -- A phase that ends the run with an error, or after which the run goes on.
  abbrev pub attempt : Phase → (Failure → Results) → (Trace → Outcome) → Trace → Outcome
  attempt phase on_error k calls = elim (w.answer phase calls) [
    | some failure ↦ (on_error failure, phase ∷ calls)
    | none ↦ k (phase ∷ calls)
  ]

  -- Phases one after the other.
  unfoldable pub attempt_all :
      List (Phase × (Failure → Results)) → (Trace → Outcome) → Trace → Outcome
  attempt_all [] k = k
  attempt_all (step ∷ steps) k = attempt step.0 step.1 (attempt_all steps k)

  module _ (cfg : Config) where
    -- The outputs, encrypted without the metadata, or the empty string if there is no key.
    unfoldable pub with_outputs : OutputMap → (String → Trace → Outcome) → Trace → Outcome
    with_outputs outputs k calls =
        let plain = w.marshal (delete_key outputs cfg.metadata_key) in
        if str_eq cfg.encrypting_key ""
        then k "" calls
        else attempt (encrypt_string plain) (runner_error "failed to encrypt plan outputs: ")
            (λ rest. k (w.encrypted plain rest) rest) calls

    abbrev pub succeeded : String → (ℕ × ℕ × ℕ) → List (String × String) → Results
    succeeded outputs counts metadata = record {
      success = true;
      error = none;
      outputs = some outputs;
      resource_counts = some counts;
      metadata = metadata;
      observation = none;
    }

    unfoldable pub destroyed : Trace → Outcome
    destroyed calls = (
      record {
        success = true;
        error = none;
        outputs = none;
        resource_counts = some (w.changes calls);
        metadata = [];
        observation = none;
      },
      calls,
    )

    unfoldable pub planned : Trace → Outcome
    planned calls =
        with_outputs (w.outputs calls)
          (λ outputs rest. (succeeded outputs (w.changes calls) [], rest)) calls

    -- The success of an apply with the given changes and metadata.
    unfoldable pub finish : (ℕ × ℕ × ℕ) → List (String × String) → String → Trace → Outcome
    finish counts metadata outputs calls = (succeeded outputs counts metadata, calls)

    -- The end of a deployment: with a key, the outputs are read and encrypted.
    unfoldable pub report_outputs : (ℕ × ℕ × ℕ) → Trace → Outcome
    report_outputs counts calls =
        if str_eq cfg.encrypting_key ""
        then finish counts (w.metadata calls) "" calls
        else attempt output iac_error
            (λ read. with_outputs (w.outputs read) (finish counts (w.metadata calls)) read) calls

    -- After a successful apply: the metadata, and the outputs.
    unfoldable pub applied : Trace → Outcome
    applied calls =
        attempt_all
          ((output_metadata, iac_error)
            ∷ (parse_metadata, runner_error "failed to parse metadata output: ")
            ∷ [])
          (report_outputs (w.changes calls)) calls

    unfoldable pub run_mode : Mode → Trace → Outcome
    run_mode destroy = attempt run_destroy iac_error destroyed
    run_mode plan_only = attempt run_plan iac_error planned
    run_mode _ = attempt run_plan iac_error (attempt run_apply iac_error applied)

    abbrev pub preparation : List (Phase × (Failure → Results))
    preparation =
        (create_runner, runner_error "failed to create runner: ")
        ∷ (create_iac_folder, runner_error "failed to create a folder with IaC files: ")
        ∷ (launch_agent, runner_error "failed to launch ssh-agent: ")
        ∷ (stat_main, runner_error "failed to check content of the folder with IaC files: ")
        ∷ (version, iac_error)
        ∷ (init, iac_error)
        ∷ []

    unfoldable pub run_workflow : Trace → Outcome
    run_workflow = attempt_all preparation (run_mode cfg.mode)

    abbrev pub unavailable : String → Results
    unavailable stage =
        failed "OBSERVATION_UNAVAILABLE" (str_append "observation " (str_append stage " failed"))

    -- The end of `executeObservation`: only a complete result is a success.
    unfoldable pub observed : Option (String × Bool) → Trace → Outcome
    observed none calls = (unavailable "execution", calls)
    observed (some (result, complete)) calls =
        if not complete || w.cancelled calls then (unavailable "execution", calls) else (
          record {
            success = true;
            error = none;
            outputs = none;
            resource_counts = none;
            metadata = [];
            observation = some result;
          },
          calls,
        )

    -- The part of `executeObservation` for a runner that can observe.
    unfoldable pub run_observation : Trace → Outcome
    run_observation =
        attempt_all
          ((create_iac_folder, λ _. unavailable "bundle preparation")
            ∷ (stat_main, λ _. unavailable "configuration validation")
            ∷ (launch_agent, λ _. unavailable "credential preparation")
            ∷ (observe, λ _. unavailable "execution")
            ∷ [])
          (λ calls. observed (w.observation_result calls) calls)

    unfoldable pub observe_with : Bool → Trace → Outcome
    observe_with true calls = run_observation calls
    observe_with false calls = (unavailable "unsupported runner", calls)

    unfoldable pub execute_observation : Trace → Outcome
    execute_observation =
        attempt create_runner (λ _. unavailable "runner creation") (observe_with w.observes)

    unfoldable pub execute_mode : (is_observation : Bool) → Mode → Trace → Outcome
    execute_mode true _ calls = execute_observation calls
    execute_mode false unsupported calls = (failed "RUNNER" "unsupported runner mode", calls)
    execute_mode false _ calls = run_workflow calls

    unfoldable pub execute_standard_mode : Trace → Outcome
    execute_standard_mode calls = elim cfg.protocol_error [
      | some message ↦ (failed "RUNNER" message, calls)
      | none ↦ execute_mode cfg.is_observation cfg.mode calls
    ]
