-- ===== src/Gateway/Commands/Opened.antt =====
-- How the handlers authenticate a request and open its receipt (internal/gateway/server.go).
use platform_orchestrator_ru.Base.{
  String, ◌≡◌, inl, inr, ◌≤◌, true, some, ok, arith, eq_iff, Result-cases,
}
use platform_orchestrator_ru.Gateway.Http.{World, Request, Trace, Response, Quiet}
use platform_orchestrator_ru.Gateway.Authentication.{
  ServerLibrary, Server, authenticate_agent, bearer, authorized,
}
use platform_orchestrator_ru.Gateway.Receipt.{ReceiptClaims, open_receipt}
use platform_orchestrator_ru.Gateway.Commands.{opened, open_receipt, receipt_matches, Response}

-- Authentication fails with 400 or 401.
abbrev pub Unauthenticated : Response → Type 0
Unauthenticated r = (400 ≤ r.status) × (r.status ≤ 401)

module _ (w : World) (lib : ServerLibrary) (server : Server) (request : Request)
    (calls : Trace) where
  pub authenticate_agent-Quiet :
      Quiet
        (λ _.
          (token : String) × (bearer w (w.fields request.authorization) ≡ some token)
          × (authorized w lib token request.organization_id request.runner_id ≡ true))
        Unauthenticated
        calls
        (authenticate_agent w lib server request calls)
  unfolding authenticate_agent
  authenticate_agent-Quiet = ground arith

  -- A receipt that a handler goes on with is sealed by this gateway for the request's command.
  pub record IsReceipt (receipt : String) (claims : ReceiptClaims) : Type 0 where
    pub opens : open_receipt lib.receipts server.receipts receipt (w.time calls) ≡ ok claims
    pub organization : claims.organization_id ≡ request.organization_id
    pub runner : claims.runner_id ≡ request.runner_id
    pub command : claims.command_id ≡ request.command_id

  pub opened-Quiet :
      (receipt : String)
      → Quiet
          (IsReceipt receipt)
          (λ r. r.status ≡ 400)
          calls
          (opened w lib server request receipt calls)
  unfolding opened receipt_matches
  opened-Quiet receipt =
      elim (Result-cases (open_receipt lib.receipts server.receipts receipt (w.time calls))) [
        | inl (claims, e) ↦
            rw (e, opened)
              (ground (
                arith,
                eq_iff claims.organization_id request.organization_id,
                eq_iff claims.runner_id request.runner_id,
                eq_iff claims.command_id request.command_id,
              ))
        | inr (message, e) ↦ rw (e, opened) (ground arith)
      ]
