-- ===== src/Runner/Commands/Guards.antt =====
-- The runner of an observation runs no command of its own, and any other runner does not observe
-- (internal/runner/base_runner.go, observation.go and runner_factory.go).
use platform_orchestrator_ru.Settings as Settings
use platform_orchestrator_ru.Runner.Commands.{
  CommandWorld, guarded, BaseRunner, History, run_version, Ran, run_init, run_plan, run_apply,
  run_destroy, run_output, output_metadata,
}
use platform_orchestrator_ru.Runner.Observe.{BaseRunner, Observed, observe, ObservationWorld}
use platform_orchestrator_ru.Base.{
  Bool, String, ◌≡◌, true, false, if◌then◌else◌, [], not, refl, ok, ◌||◌, with_ok, ◌⊎◌, Bool-cases,
  inl, sym, ◌∙◌, fail_if, inr, str_eq, ap, ok-injective,
}
use platform_orchestrator_ru.Runner.Factory.{create_runner, client_config_of}
use platform_orchestrator_ru.GatewayApi.Client.Create.{TlsLibrary, new_client}
use platform_orchestrator_ru.Settings.{
  StandardModeConfiguration, validate_observation_protocol, validate_mode,
}
use platform_orchestrator_ru.Runner.Plan.{PlanLibrary}

module _ (world : CommandWorld) (r : BaseRunner) (history : History) where
  -- No operation but Observe runs a command.
  pub record IsInert : Type 0 where
    pub version : (run_version world r history).commands ≡ history
    pub init : (run_init world r history).commands ≡ history
    pub plan : (run_plan world r history).commands ≡ history
    pub apply : (run_apply world r history).commands ≡ history
    pub destroy : (run_destroy world r history).commands ≡ history
    pub output : (run_output world r history).commands ≡ history
    pub metadata : (name : String) → (output_metadata world r name history).commands ≡ history

if_commands :
    {A : Type 0} (b : Bool) (x y : Ran A) (history : History)
    → b ≡ true
    → x.commands ≡ history
    → (if b then x else y).commands ≡ history
if_commands true x y history h e = e
if_commands false x y history h e = cc

guarded-commands :
    (world : CommandWorld) (r : BaseRunner) {A : Type 0} (message : String) (history : History)
    (ran : Ran A)
    → r.observation_only ≡ true
    → (guarded world r message history ran).commands ≡ history
unfolding guarded
guarded-commands world r message history ran h = if_commands _ _ _ history h refl

observation_only-IsInert :
    (world : CommandWorld) (r : BaseRunner) (history : History)
    → r.observation_only ≡ true
    → IsInert world r history
unfolding run_version run_init run_plan run_apply run_destroy run_output output_metadata
observation_only-IsInert world r history h = record {
  version = guarded-commands world r _ history _ h;
  init = guarded-commands world r _ history _ h;
  plan = guarded-commands world r _ history _ h;
  apply = guarded-commands world r _ history _ h;
  destroy = guarded-commands world r _ history _ h;
  output = guarded-commands world r _ history _ h;
  metadata = λ name. guarded-commands world r _ history _ h;
}

refused_steps :
    (b : Bool) (x y : Observed) → b ≡ true → x.steps ≡ [] → (if b then x else y).steps ≡ []
refused_steps true x y h e = e
refused_steps false x y h e = cc

not_observing : (a b : Bool) → a ≡ false → not a || b ≡ true
not_observing true b h = cc
not_observing false b h = refl

observe-refuses :
    (world : ObservationWorld) (lib : PlanLibrary) (r : BaseRunner)
    → r.observation_only ≡ false
    → (observe world lib r).steps ≡ []
unfolding observe
observe-refuses world lib r h = refused_steps _ _ _ (not_observing _ _ h) refl

created_observes :
    (lib : TlsLibrary) (c : StandardModeConfiguration) (r : BaseRunner)
    → create_runner lib c ≡ ok r
    → Settings.is_observation c ≡ r.observation_only
unfolding create_runner
created_observes lib c r h = with_ok Goal (validate_observation_protocol c) h λ _ _ h1.
    with_ok Goal (validate_mode c.mode) h1 λ _ _ h2.
      with_ok Goal (new_client lib (client_config_of c)) h2 λ _ _ h3.
        with_ok Goal
          (fail_if (not (str_eq c.iac_backend "terraform" || str_eq c.iac_backend "opentofu")) _) h3
          λ _ _ h4. ap (λ (runner : BaseRunner). runner.observation_only) (ok-injective h4)
  where
    Goal : Type 0
    Goal = Settings.is_observation c ≡ r.observation_only

-- The runner that is made for a configuration of an observation runs nothing in any operation but
-- Observe, and the runner of any other configuration runs nothing in Observe.
pub create_runner-IsInert :
    (tls : TlsLibrary) (c : StandardModeConfiguration) (r : BaseRunner) (world : CommandWorld)
    (observation_world : ObservationWorld) (lib : PlanLibrary) (history : History)
    → create_runner tls c ≡ ok r
    → ((Settings.is_observation c ≡ true) × IsInert world r history)
      ⊎ ((Settings.is_observation c ≡ false) × ((observe observation_world lib r).steps ≡ []))
create_runner-IsInert tls c r world observation_world lib history h =
    let same = created_observes tls c r h in
    elim (Bool-cases (Settings.is_observation c)) [
      | inl observes ↦
          inl (observes, observation_only-IsInert world r history (sym same ∙ observes))
      | inr other ↦ inr (other, observe-refuses observation_world lib r (sym same ∙ other))
    ]
