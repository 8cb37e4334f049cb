-- ===== src/Executor/Polling.antt =====
-- The loop of `ExecuteRemoteMode` (internal/executor/remote_executor.go), over what the gateway answers
-- to each request for a command and the errors of `executeCommand`, which are logged.
pub mod Waits
use platform_orchestrator_ru.Base.{
  ℕ, ◌+◌, List, [], ◌∷◌, Bool, true, false, Option, none, some, String,
}
use platform_orchestrator_ru.Executor.Remote.{Delivery, retry_delay}

-- What `NextCommand` gives; an error of the gateway comes with whether the context ends the wait
-- after it, and a delivery with the error that its execution ends with, if any.
pub data Answer : Type 0 where
  no_command context_cancelled : Answer
  gateway_error : (ends : Bool) → Answer
  delivered : Delivery → (failure : Option String) → Answer

pub data Step : Type 0 where
  execute : Delivery → Step
  log_error : (message : String) → Step
  wait : (seconds : ℕ) → Step
  stop : Step

-- The steps of the loop with the number of consecutive failures so far.
unfoldable pub poll : ℕ → List Answer → List Step
poll failures [] = []
poll failures (no_command ∷ rest) = poll 0 rest
poll failures (context_cancelled ∷ rest) = stop ∷ []
poll failures (gateway_error true ∷ rest) = wait (retry_delay (failures + 1)) ∷ stop ∷ []
poll failures (gateway_error false ∷ rest) =
    wait (retry_delay (failures + 1)) ∷ poll (failures + 1) rest
poll failures (delivered delivery none ∷ rest) = execute delivery ∷ poll 0 rest
poll failures (delivered delivery (some message) ∷ rest) =
    execute delivery ∷ log_error message ∷ poll 0 rest
