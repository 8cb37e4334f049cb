-- ===== src/Executor/Standard/Phases.antt =====
-- Which phases a run of the standard mode reaches (internal/executor/standard_executor.go and
-- observation.go).
use platform_orchestrator_ru.Base.{
  ◌≡◌, refl, some, none, ◌∷◌, Option-cases, false, inl, String, inr, Bool-cases, str_eq, [], List,
  All, ℕ, Option, Bool, not, ◌≢◌, ◌||◌, true,
}
use platform_orchestrator_ru.Executor.Standard.{
  World, Config, Trace, Phase, attempt, Failure, Results, Outcome, init, with_outputs, applied,
  version, deploy, OutputMap, finish, stat_main, output_metadata, launch_agent, run_plan, iac_error,
  create_iac_folder, destroy, parse_metadata, create_runner, delete_key, runner_error,
  encrypt_string, run_apply, run_destroy, attempt_all, report_outputs, observed,
  execute_observation, execute_standard_mode, destroyed, run_observation, run_workflow, output,
  planned, observe, Mode, unsupported, plan_only, run_mode, unavailable, observe_with, preparation,
  execute_mode, failed, succeeded,
}

-- The phases before a destroy and before an apply, newest first.
abbrev pub initialised : Trace
initialised = init ∷ version ∷ stat_main ∷ launch_agent ∷ create_iac_folder ∷ create_runner ∷ []

-- No phase of the trace failed.
abbrev pub AllSucceeded : World → Trace → Type 0
AllSucceeded w [] = Unit
AllSucceeded w (phase ∷ calls) = (w.answer phase calls ≡ none) × AllSucceeded w calls

-- Infrastructure is changed only by the mode that is for it, after the phases that come before have all
-- succeeded.
abbrev pub IsJustified : World → Config → Trace → Type 0
IsJustified w cfg [] = Unit
IsJustified w cfg (run_apply ∷ rest) =
    (cfg.mode ≡ deploy)
    × (cfg.is_observation ≡ false)
    × (rest ≡ run_plan ∷ initialised)
    × AllSucceeded w rest
IsJustified w cfg (run_destroy ∷ rest) =
    (cfg.mode ≡ destroy) × (cfg.is_observation ≡ false) × (rest ≡ initialised) × AllSucceeded w rest
IsJustified w cfg (_ ∷ rest) = IsJustified w cfg rest

module _ (w : World) (cfg : Config) where
  attempt-IsJustified :
      (phase : Phase) (on_error : Failure → Results) (k : Trace → Outcome) (calls : Trace)
      → IsJustified w cfg (phase ∷ calls)
      → (w.answer phase calls ≡ none → IsJustified w cfg (k (phase ∷ calls)).1)
      → IsJustified w cfg (attempt w phase on_error k calls).1
  attempt-IsJustified phase on_error k calls h on = elim (Option-cases (w.answer phase calls)) [
    | inl good ↦ rw (good, IsJustified) (on good)
    | inr (failure, bad) ↦ rw (bad, IsJustified) h
  ]

  with_outputs-IsJustified :
      (outputs : OutputMap) (k : String → Trace → Outcome) (calls : Trace)
      → IsJustified w cfg calls
      → ((o : String) (rest : Trace) → IsJustified w cfg rest → IsJustified w cfg (k o rest).1)
      → IsJustified w cfg (with_outputs w cfg outputs k calls).1
  unfolding with_outputs
  with_outputs-IsJustified outputs k calls h on = elim (Bool-cases (str_eq cfg.encrypting_key "")) [
    | inl keyless ↦ rw (keyless, with_outputs, IsJustified) (on "" calls h)
    | inr keyed ↦
        let plain = w.marshal (delete_key outputs cfg.metadata_key) in
        rw (keyed, with_outputs, IsJustified)
          (attempt-IsJustified (encrypt_string plain)
            (runner_error "failed to encrypt plan outputs: ")
            (λ rest. k (w.encrypted plain rest) rest) calls h
            (λ good.
              on (w.encrypted plain (encrypt_string plain ∷ calls)) (encrypt_string plain ∷ calls)
                h))
  ]

  -- A phase that changes no infrastructure.
  abbrev IsHarmless : Phase × (Failure → Results) → Type 0
  IsHarmless step = (calls : Trace) → IsJustified w cfg calls → IsJustified w cfg (step.0 ∷ calls)

  abbrev after : List (Phase × (Failure → Results)) → Trace → Trace
  after [] calls = calls
  after (step ∷ steps) calls = after steps (step.0 ∷ calls)

  attempt_all-IsJustified :
      (steps : List (Phase × (Failure → Results))) (k : Trace → Outcome) (calls : Trace)
      → All IsHarmless steps
      → IsJustified w cfg calls
      → ((AllSucceeded w calls → AllSucceeded w (after steps calls))
          → IsJustified w cfg (k (after steps calls)).1)
      → IsJustified w cfg (attempt_all w steps k calls).1
  unfolding attempt_all
  attempt_all-IsJustified [] k calls harmless h on = on (λ all. all)
  attempt_all-IsJustified (step ∷ steps) k calls harmless h on =
      attempt-IsJustified step.0 step.1 (attempt_all w steps k) calls (harmless.0 calls h) λ good.
        attempt_all-IsJustified steps k (step.0 ∷ calls) harmless.1 (harmless.0 calls h)
          λ all. on (λ before. all (good, before))

  report_outputs-IsJustified :
      (counts : ℕ × ℕ × ℕ) (calls : Trace)
      → IsJustified w cfg calls
      → IsJustified w cfg (report_outputs w cfg counts calls).1
  unfolding report_outputs finish
  report_outputs-IsJustified counts calls h = elim (Bool-cases (str_eq cfg.encrypting_key "")) [
    | inl keyless ↦ rw (keyless, report_outputs, IsJustified) h
    | inr keyed ↦
        rw (keyed, report_outputs, IsJustified)
          (attempt-IsJustified output iac_error
            (λ read.
              with_outputs w cfg (w.outputs read) (finish w cfg counts (w.metadata calls)) read)
            calls h
            (λ good.
              with_outputs-IsJustified (w.outputs (output ∷ calls))
                (finish w cfg counts (w.metadata calls)) (output ∷ calls) h (λ o rest k. k)))
  ]

  applied-IsJustified :
      (calls : Trace) → IsJustified w cfg calls → IsJustified w cfg (applied w cfg calls).1
  unfolding applied
  applied-IsJustified calls h =
      attempt_all-IsJustified _ (report_outputs w cfg (w.changes calls)) calls
        ((λ c k. k), ((λ c k. k), tt)) h
        (λ all.
          report_outputs-IsJustified (w.changes calls) (parse_metadata ∷ output_metadata ∷ calls) h)

  run_mode-IsJustified :
      (mode : Mode)
      → cfg.mode ≡ mode
      → cfg.is_observation ≡ false
      → mode ≢ unsupported
      → AllSucceeded w initialised
      → IsJustified w cfg (run_mode w cfg mode initialised).1
  unfolding run_mode destroyed planned
  run_mode-IsJustified deploy e no_observation h all =
      attempt-IsJustified run_plan iac_error (attempt w run_apply iac_error (applied w cfg))
        initialised tt
        λ good.
          let before : AllSucceeded w (run_plan ∷ initialised) = (good, all) in
          attempt-IsJustified run_apply iac_error (applied w cfg) (run_plan ∷ initialised)
            (e, no_observation, refl, before)
            λ _.
              applied-IsJustified (run_apply ∷ run_plan ∷ initialised)
                (e, no_observation, refl, before)
  run_mode-IsJustified destroy e no_observation h all =
      attempt-IsJustified run_destroy iac_error (destroyed w cfg) initialised
        (e, no_observation, refl, all) λ _. (e, no_observation, refl, all)
  run_mode-IsJustified plan_only e no_observation h all =
      attempt-IsJustified run_plan iac_error (planned w cfg) initialised tt (λ good.
        with_outputs-IsJustified (w.outputs (run_plan ∷ initialised))
          (λ outputs rest. (succeeded w cfg outputs (w.changes (run_plan ∷ initialised)) [], rest))
          (run_plan ∷ initialised) tt (λ o rest k. k))
  run_mode-IsJustified unsupported e no_observation h all = absurd (h refl)

  observed-IsJustified :
      (result : Option (String × Bool)) (calls : Trace)
      → IsJustified w cfg calls
      → IsJustified w cfg (observed w cfg result calls).1
  unfolding observed
  observed-IsJustified none calls h = h
  observed-IsJustified (some (result, complete)) calls h =
      elim (Bool-cases (not complete || w.cancelled calls)) [
        | inl bad ↦ rw (bad, observed, IsJustified) h
        | inr good ↦ rw (good, observed, IsJustified) h
      ]

  run_observation-IsJustified : IsJustified w cfg (run_observation w cfg (create_runner ∷ [])).1
  unfolding run_observation
  run_observation-IsJustified =
      attempt_all-IsJustified
        ((create_iac_folder, λ _. unavailable w cfg "bundle preparation")
          ∷ (stat_main, λ _. unavailable w cfg "configuration validation")
          ∷ (launch_agent, λ _. unavailable w cfg "credential preparation")
          ∷ (observe, λ _. unavailable w cfg "execution")
          ∷ [])
        (λ calls. observed w cfg (w.observation_result calls) calls) (create_runner ∷ [])
        ((λ c k. k), ((λ c k. k), ((λ c k. k), ((λ c k. k), tt)))) tt
        (λ all.
          observed-IsJustified _
            (observe ∷ launch_agent ∷ stat_main ∷ create_iac_folder ∷ create_runner ∷ []) tt)

  observe_with-IsJustified :
      (observes : Bool) → IsJustified w cfg (observe_with w cfg observes (create_runner ∷ [])).1
  unfolding observe_with
  observe_with-IsJustified true = run_observation-IsJustified
  observe_with-IsJustified false = tt

  execute_observation-IsJustified : IsJustified w cfg (execute_observation w cfg []).1
  unfolding execute_observation
  execute_observation-IsJustified =
      attempt-IsJustified create_runner (λ _. unavailable w cfg "runner creation")
        (observe_with w cfg w.observes) [] tt (λ good. observe_with-IsJustified w.observes)

  run_workflow-IsJustified :
      cfg.is_observation ≡ false
      → cfg.mode ≢ unsupported
      → IsJustified w cfg (run_workflow w cfg []).1
  unfolding run_workflow
  run_workflow-IsJustified no_observation supported =
      attempt_all-IsJustified (preparation w cfg) (run_mode w cfg cfg.mode) []
        ((λ c k. k), ((λ c k. k), ((λ c k. k), ((λ c k. k), ((λ c k. k), ((λ c k. k), tt)))))) tt
        (λ all. run_mode-IsJustified cfg.mode refl no_observation supported (all tt))

  execute_mode-IsJustified :
      (is_observation : Bool) (mode : Mode)
      → cfg.is_observation ≡ is_observation
      → cfg.mode ≡ mode
      → IsJustified w cfg (execute_mode w cfg is_observation mode []).1
  unfolding execute_mode
  execute_mode-IsJustified true mode o m = execute_observation-IsJustified
  execute_mode-IsJustified false unsupported o m = tt
  execute_mode-IsJustified false deploy o m = run_workflow-IsJustified o (λ u. cc)
  execute_mode-IsJustified false destroy o m = run_workflow-IsJustified o (λ u. cc)
  execute_mode-IsJustified false plan_only o m = run_workflow-IsJustified o (λ u. cc)

  -- A run applies only in deploy mode, right after a plan of the initialised configuration, destroys
  -- only in destroy mode, right after the initialisation, each only after the plan and all phases of the
  -- initialisation have succeeded, and does neither in an observation.
  pub execute_standard_mode-IsJustified : IsJustified w cfg (execute_standard_mode w cfg []).1
  unfolding execute_standard_mode
  execute_standard_mode-IsJustified = checked cfg.protocol_error
    where
      checked :
          (e : Option String)
          → IsJustified w cfg
              (elim e as (λ _. Outcome) [
                | some message ↦ (failed "RUNNER" message, [])
                | none ↦ execute_mode w cfg cfg.is_observation cfg.mode []
              ]).1
      checked none = execute_mode-IsJustified cfg.is_observation cfg.mode refl refl
      checked (some message) = tt
