-- ===== src/Executor/Polling/Waits.antt =====
-- What the polling loop executes (internal/executor/remote_executor.go).
use platform_orchestrator_ru.Base.{
  ℕ, ◌+◌, List, [], ◌∷◌, ◌++◌, true, false, ◌≡◌, refl, ap, Bool, All, none, some,
}
use platform_orchestrator_ru.Executor.Remote.{Delivery}
use platform_orchestrator_ru.Executor.Polling.{
  Answer, Step, poll, gateway_error, execute, delivered, no_command, context_cancelled,
}

-- The answers after which the context has ended: no other stops the loop.
abbrev pub context_ends : Answer → Bool
context_ends context_cancelled = true
context_ends (gateway_error ends) = ends
context_ends _ = false

abbrev pub delivery_of : Answer → List Delivery
delivery_of (delivered delivery failure) = delivery ∷ []
delivery_of _ = []

-- The deliveries among the answers.
abbrev pub deliveries : List Answer → List Delivery
deliveries [] = []
deliveries (answer ∷ rest) = delivery_of answer ++ deliveries rest

-- The deliveries that some steps execute.
abbrev pub executed : List Step → List Delivery
executed [] = []
executed (execute delivery ∷ rest) = delivery ∷ executed rest
executed (_ ∷ rest) = executed rest

-- As long as the context has not ended, the loop executes every delivery among the answers, once and in
-- order, whatever errors the gateway and the executions have given in between; once it has ended, the
-- loop executes nothing more.
pub poll-executed :
    (failures : ℕ) (answers : List Answer) (ending : Answer) (later : List Answer)
    → All (λ answer. context_ends answer ≡ false) answers
    → context_ends ending ≡ true
    → (executed (poll failures answers) ≡ deliveries answers)
      × (executed (poll failures (answers ++ ending ∷ later)) ≡ deliveries answers)
unfolding poll
poll-executed failures [] no_command later h e = absurd (cc (e))
poll-executed failures [] context_cancelled later h e = (refl, refl)
poll-executed failures [] (gateway_error true) later h e = (refl, refl)
poll-executed failures [] (gateway_error false) later h e = absurd (cc (e))
poll-executed failures [] (delivered delivery failure) later h e = absurd (cc (e))
poll-executed failures (no_command ∷ rest) ending later h e =
    poll-executed 0 rest ending later h.1 e
poll-executed failures (context_cancelled ∷ rest) ending later h e = absurd (cc (h.0))
poll-executed failures (gateway_error true ∷ rest) ending later h e = absurd (cc (h.0))
poll-executed failures (gateway_error false ∷ rest) ending later h e =
    poll-executed (failures + 1) rest ending later h.1 e
poll-executed failures (delivered delivery none ∷ rest) ending later h e =
    let (all, stopped) = poll-executed 0 rest ending later h.1 e in
    (ap (◌∷◌ delivery) all, ap (◌∷◌ delivery) stopped)
poll-executed failures (delivered delivery (some message) ∷ rest) ending later h e =
    let (all, stopped) = poll-executed 0 rest ending later h.1 e in
    (ap (◌∷◌ delivery) all, ap (◌∷◌ delivery) stopped)
