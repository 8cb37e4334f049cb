-- ===== src/Runner/Observe/Cleans.antt =====
-- The steps of an observation (internal/runner/observation.go).
use platform_orchestrator_ru.Runner.Observe.{
  ObservationWorld, PlanLibrary, ℕ, BaseRunner, ObservationResult, ObservationStep,
  parse_observation_plan, max_observation_plan_bytes, make_plan_directory, run_tool, init_arguments,
  verify_artifact_manifest, plan_arguments, show_arguments, observation_command, Observed, is_tool,
  remove_plan_directory,
}
use platform_orchestrator_ru.Runner.Plan.{
  PlanLibrary, ObservationResult, parse_observation_plan, max_observation_plan_bytes, is_tool,
}
use platform_orchestrator_ru.Base.{
  ℕ, List, String, Bytes, length, ◌≡◌, ◌≤◌, ok, ◌∷◌, [], true, ◌++◌, some, err, false, ◌⊎◌,
}

module _ (world : ObservationWorld) (lib : PlanLibrary) (r : BaseRunner) where
  -- The steps before the verification of the artifacts, the plan and the show.
  abbrev pub initialised_steps : List ObservationStep
  initialised_steps = make_plan_directory ∷ run_tool (init_arguments r) ∷ []

  abbrev pub verified_steps : List ObservationStep
  verified_steps = initialised_steps ++ verify_artifact_manifest ∷ []

  abbrev pub planned_steps : String → List ObservationStep
  planned_steps plan_file = verified_steps ++ run_tool (plan_arguments r plan_file) ∷ []

  -- Each of the commands succeeds, and the last prints these contents.
  abbrev pub Succeeds : (plan_file : String) (contents : Bytes) → Type 0
  Succeeds plan_file contents =
      ((out : Bytes) × (observation_command world (make_plan_directory ∷ []) 0 (init_arguments r)
          ≡ some out))
      × (world.manifest_verifies initialised_steps ≡ true)
      × ((out : Bytes) × (observation_command world verified_steps 0 (plan_arguments r plan_file)
            ≡ some out))
      × (observation_command world (planned_steps plan_file) max_observation_plan_bytes
            (show_arguments r plan_file)
          ≡ some contents)

  -- What a success of Observe has done, and with which output of the tool.
  pub record IsObserved (plan_file : String) (result : ObservationResult)
      (steps : List ObservationStep) : Type 0 where
    pub contents : Bytes
    pub parsed : parse_observation_plan lib contents r.tool ≡ ok result
    pub within_limit : length contents ≤ max_observation_plan_bytes
    pub succeeds : Succeeds plan_file contents
    pub not_cancelled : world.is_cancelled steps ≡ false
    pub conducted :
        steps
        ≡ make_plan_directory
          ∷ run_tool (init_arguments r)
          ∷ verify_artifact_manifest
          ∷ run_tool (plan_arguments r plan_file)
          ∷ run_tool (show_arguments r plan_file)
          ∷ []

  -- An observation without an error is as described, for a runner that observes.
  abbrev pub Reports : (directory : String) → Observed → Type 0
  Reports plan_file observed =
      ((e : String) × (observed.result ≡ err e))
      ⊎ ((result : ObservationResult) × (observed.result ≡ ok result)
          × IsObserved plan_file result observed.steps)

  -- All that Observe may come to.
  pub data Conduct : Observed → Type 0 where
    -- The runner does not observe.
    refused : (e : String) → Conduct (record { result = err e; steps = [] })
    -- There is no directory.
    without_directory :
        (e : String) → Conduct (record { result = err e; steps = make_plan_directory ∷ [] })
    -- The directory is removed last, and without an error if the result is the inspection's.
    removed :
        (directory : String) (inspected observed : Observed)
        → r.observation_only ≡ true
        → world.temporary_directory ≡ some directory
        → Reports (world.join_path directory "plan.tfplan") inspected
        → observed.steps ≡ inspected.steps ++ remove_plan_directory ∷ []
        → ((e : String) × (observed.result ≡ err e))
          ⊎ ((observed.result ≡ inspected.result) × (world.removes inspected.steps ≡ true))
        → Conduct observed
