-- ===== src/GatewayApi/Outbox/Sends.antt =====
-- What a delivery sends (internal/gatewayapi/client.go and outbox.go).
use platform_orchestrator_ru.Base.{
  Option, List, String, Result, err, some, Bytes, ok, Bool-cases, ◌++◌, str_eq, ◌∷◌, [], inl, ◌≡◌,
  ◌==◌, inr, arith, none, ap, refl,
}
use platform_orchestrator_ru.GatewayApi.Outbox.{
  OutboxLibrary, Client, flush_logs, deliver_operation, OutboxOperation,
}
use platform_orchestrator_ru.GatewayApi.Client.{
  ClientRequest, Client, Exchange, Reply, check_status, expect_status, or_return, send_logs,
  send_results, status_of, exchanged, ClientResponse, logs_request,
}
use platform_orchestrator_ru.GatewayApi.Outbox.Spec.{
  delivery_of, result_delivery, logs_delivery, or_none,
}

-- A delivery of the request, if there is one: an error without an exchange or with one, or the
-- acceptance of the request.
pub data Delivers (described : Option ClientRequest) (sent : List Exchange)
    : Reply (Unit {0}) → Type 0 where
  unsent : (e : String) → Delivers described sent (record { value = err e; sent = sent })
  refused :
      (e : String) (exchange : Exchange)
      → Delivers described sent (record { value = err e; sent = sent ++ exchange ∷ [] })
  delivered :
      (request : ClientRequest) (exchange : Exchange)
      → described ≡ some request
      → exchange.request ≡ request
      → exchange.status ≡ some 202
      → Delivers described sent (record { value = ok tt; sent = sent ++ exchange ∷ [] })

module _ (lib : OutboxLibrary) (c : Client) (sent : List Exchange) where
  checked-Delivers :
      (request : ClientRequest) (response : Option ClientResponse) (operation : String)
      → Delivers (some request) sent (record {
        value = check_status lib.client_library c response 202 operation;
        sent = sent ++ record { request = request; status = status_of response } ∷ [];
      })
  unfolding check_status status_of
  checked-Delivers request none operation = refused _ _
  checked-Delivers request (some response) operation = elim (Bool-cases (response.status == 202)) [
    | inl same ↦
        let e : response.status ≡ 202 = ground (arith, same) in
        rw same (delivered request _ refl refl (ap some e))
    | inr other ↦ rw other (refused _ _)
  ]

  expect_status-Delivers :
      (request : ClientRequest) (operation : String)
      → Delivers (some request) sent (expect_status lib.client_library c sent request 202 operation)
  unfolding expect_status exchanged
  expect_status-Delivers request operation = checked-Delivers request _ operation

  returning-Delivers :
      (request : Result ClientRequest) (operation : String)
      → Delivers (or_none request) sent (
          or_return lib.client_library c sent request
            λ r. expect_status lib.client_library c sent r 202 operation)
  unfolding or_return
  returning-Delivers (err e) operation = unsent e
  returning-Delivers (ok request) operation = expect_status-Delivers request operation

  send_logs-Delivers :
      (environment_id deployment_id token : String) (logs : Bytes)
      → Delivers
          (or_none (logs_request lib.client_library c environment_id deployment_id token logs))
          sent
          (send_logs lib.client_library c environment_id deployment_id token logs sent)
  unfolding send_logs
  send_logs-Delivers environment_id deployment_id token logs = returning-Delivers _ _

  pub send_results-Delivers :
      (operation : OutboxOperation) (results : Option Bytes)
      → Delivers (result_delivery lib c operation results) sent (
          send_results lib.client_library c operation.deployment_id operation.operation_token
            results sent)
  unfolding send_results result_delivery or_return
  send_results-Delivers operation none = unsent "marshal results"
  send_results-Delivers operation (some contents) = returning-Delivers _ _

  flush_logs-Delivers :
      (operation : OutboxOperation) (logs : Option Bytes)
      → Delivers (logs_delivery lib c operation logs) sent (flush_logs lib c operation logs sent)
  unfolding flush_logs logs_delivery
  flush_logs-Delivers operation none = unsent _
  flush_logs-Delivers operation (some logs) = send_logs-Delivers _ _ _ logs

  -- A spooled operation is delivered with the request that it describes.
  pub deliver_operation-Delivers :
      (operation : OutboxOperation)
      → Delivers (delivery_of lib c operation) sent (deliver_operation lib c operation sent)
  unfolding delivery_of deliver_operation
  deliver_operation-Delivers operation = elim (Bool-cases (str_eq operation.kind "result")) [
    | inl result ↦ rw result (send_results-Delivers operation _)
    | inr other ↦ elim (Bool-cases (str_eq operation.kind "logs")) [
      | inl logs ↦ rw (other, logs) (flush_logs-Delivers operation _)
      | inr unknown ↦ rw (other, unknown) (unsent _)
    ]
  ]
