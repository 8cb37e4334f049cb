-- ===== src/Executor/Remote/Backoff.antt =====
-- The delays of retries (internal/executor/remote_executor.go) against the gateway's bound on them
-- (internal/gateway/server.go).
use platform_orchestrator_ru.Base.{
  ◌≡◌, refl, ℕ, ◌≤◌, Bool-cases, ltb, inl, inr, arith, take, some, pos,
}
use platform_orchestrator_ru.Executor.Remote.{retry_delay}
use platform_orchestrator_ru.Gateway.Authentication.{ServerLibrary, Server, RetryRequest}
use platform_orchestrator_ru.Gateway.Http.{World, Trace, Request, decode_json, serve, Quiet-cases}
use platform_orchestrator_ru.Gateway.Commands.{retry_command}
use platform_orchestrator_ru.Gateway.Commands.Settle.{IsRefused}
use platform_orchestrator_ru.Gateway.Commands.Opened.{authenticate_agent-Quiet}

retry_delay-late : (attempt : ℕ) → 6 ≤ attempt → retry_delay attempt ≡ 64
unfolding retry_delay
retry_delay-late attempt h = elim (Bool-cases (ltb 6 attempt)) [
  | inl more ↦ rw more refl
  | inr at ↦ let e : attempt ≡ 6 = ground arith in rw e refl
]

module _ (w : World) (lib : ServerLibrary) (server : Server) (request : Request)
    (calls : Trace) where
  -- From the sixth attempt on, the gateway refuses the retries of `executeCommand`: it makes no
  -- backend call and answers 400 or 401, whatever receipt the request carries.
  pub retry_command-retry_delay :
      (body : RetryRequest) (attempt : ℕ)
      → lib.decode_retry_request (take 4096 request.body) ≡ some body
      → body.delay_seconds ≡ pos (retry_delay attempt)
      → 6 ≤ attempt
      → IsRefused calls (serve (retry_command w lib server request) calls)
  unfolding retry_command decode_json
  retry_command-retry_delay body attempt good same late =
      elim (Quiet-cases _ _ calls _ (authenticate_agent-Quiet w lib server request calls)) [
        | inr (r, e, q) ↦ rw (e, retry_command) (refl, q.0, q.1)
        | inl (_, e, _) ↦
            rw (e, good, retry_command, decode_json)
              (rw same (rw (retry_delay-late attempt late) (refl, omega arith, omega arith)))
      ]
