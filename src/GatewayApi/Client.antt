-- ===== src/GatewayApi/Client.antt =====
-- internal/gatewayapi/client.go: the client of the runner gateway. The gateway answers by a function of
-- the exchanges made so far, so that every order of answers and failures is covered.
pub mod Create
use platform_orchestrator_ru.GatewayApi.Token.{TokenLibrary, sign_agent_token}
use platform_orchestrator_ru.Base.{
  ℕ, String, Option, Bytes, Result, List, ◌*◌, Bool, some, [], ◌+◌, str_append, ◌++◌, err,
  if◌then◌else◌, take, pos, or_fail, ◌>>=◌, ◌>>◌, ◌^◌, ℤ, ◌/◌, fail_if, ◌∷◌, ok, none, is_nil, not,
  ◌==◌, ◌||◌, ltb, str_eq, length,
}

abbrev pub max_bundle_bytes : ℕ
max_bundle_bytes = 64 * 2 ^ 20

-- A header that is not set is empty.
pub record ClientRequest : Type 0 where
  pub method : String
  pub url : String
  pub content_type : String
  pub authorization : String
  pub deployment_token_header : String
  pub body : Bytes

-- A response, and whether its body reads without an error.
pub record ClientResponse : Type 0 where
  pub status : ℕ
  pub body : Bytes
  pub body_reads : Bool

-- A request that was sent, and the status of the response if there was one.
pub record Exchange : Type 0 where
  pub request : ClientRequest
  pub status : Option ℕ

pub record CommandResponse : Type 0 where
  pub command : Bytes
  pub receipt : String
  pub attempt : ℕ
  pub lease_expires_at : ℕ

-- `url.PathEscape`, what http.NewRequestWithContext and encoding/json do, and the gateway.
pub record ClientLibrary : Type 0 where
  pub tokens : TokenLibrary
  pub path_escape : String → String
  pub valid_url : String → Bool
  pub decode_command : Bytes → Option CommandResponse
  pub marshal_receipt : String → Bytes
  pub marshal_retry : String → (delay_seconds : ℤ) → Bytes
  pub marshal_reject : (receipt reason : String) → Bytes
  pub answer : List Exchange → ClientRequest → Option ClientResponse

pub record Client : Type 0 where
  pub base_url : String
  pub organization_id : String
  pub runner_id : String
  pub private_key : Bytes

-- A result, with the exchanges made until then.
pub record Reply (A : Type 0) : Type 0 where
  pub value : Result A
  pub sent : List Exchange

unfoldable pub status_of : Option ClientResponse → Option ℕ
status_of none = none
status_of (some response) = some response.status

-- `bytes` of a request without a body.
abbrev no_body : Bytes
no_body = []

-- `delay.Round(time.Second) / time.Second`, which rounds halves up, of a delay that is not negative.
unfoldable pub rounded_seconds : ℕ → ℕ
rounded_seconds delay = (delay + 500_000_000) / 1_000_000_000

module _ (lib : ClientLibrary) (c : Client) where
  unfoldable pub runner_url : String → String
  runner_url suffix = str_append c.base_url (
      str_append "/v1/orgs/" (
        str_append (lib.path_escape c.organization_id)
          (str_append "/runners/" (str_append (lib.path_escape c.runner_id) suffix))))

  -- The Authorization header at the time `now`.
  unfoldable pub authorize_agent : (now : ℕ) → Result String
  authorize_agent now = do
    fail_if (is_nil c.private_key) "runner private key is required for agent requests"
    token ← sign_agent_token lib.tokens c.private_key c.organization_id c.runner_id now
    ok (str_append "Bearer " token)

  unfoldable pub exchanged : List Exchange → ClientRequest → List Exchange
  exchanged sent request =
      sent ++ record { request = request; status = status_of (lib.answer sent request) } ∷ []

  unfoldable pub check_status : Option ClientResponse → (expected : ℕ) → String → Result (Unit {0})
  check_status none expected operation = err "the gateway did not respond"
  check_status (some response) expected operation =
      fail_if (not (response.status == expected)) operation

  unfoldable pub expect_status :
      List Exchange → ClientRequest → (expected : ℕ) → String → Reply (Unit {0})
  expect_status sent request expected operation = record {
    value = check_status (lib.answer sent request) expected operation;
    sent = exchanged sent request;
  }

  -- `if err != nil { return err }` before a request is sent.
  unfoldable pub or_return : {A B : Type 0} → List Exchange → Result B → (B → Reply A) → Reply A
  or_return sent (err message) k = record { value = err message; sent = sent }
  or_return sent (ok b) k = k b

  unfoldable pub new_request : String → String → Bytes → Result ClientRequest
  new_request method url body =
      if lib.valid_url url
      then ok (record {
        method = method;
        url = url;
        content_type = "";
        authorization = "";
        deployment_token_header = "";
        body = body;
      })
      else err "invalid URL"

  unfoldable pub decode_response : ClientResponse → Result CommandResponse
  decode_response response = do
    fail_if (response.status == 204) "no runner command available"
    fail_if (not (response.status == 200)) "fetch runner command"
    command ←
        or_fail (lib.decode_command (take (16 * 2 ^ 20) response.body)) "decode runner command"
    fail_if (is_nil command.command || str_eq command.receipt "")
        "runner command response is incomplete"
    ok command

  unfoldable pub read_bundle : ClientResponse → Result Bytes
  read_bundle response =
      let contents = take (max_bundle_bytes + 1) response.body in
      do
        fail_if (not (response.status == 200)) "fetch deployment bundle"
        fail_if (not response.body_reads) "read deployment bundle"
        fail_if (ltb max_bundle_bytes (length contents))
            "deployment bundle exceeds the client limit"
        ok contents

  unfoldable pub decoded :
      {A : Type 0} → Option ClientResponse → (ClientResponse → Result A) → Result A
  decoded none decode = err "the gateway did not respond"
  decoded (some response) decode = decode response

  unfoldable pub fetch_command : (now : ℕ) → List Exchange → Reply CommandResponse
  fetch_command now sent =
      or_return sent (new_request "POST" (runner_url "/commands/next") no_body) λ request.
        or_return sent (authorize_agent now) λ header.
          let authorized = record request { authorization = header } in
          record {
            value = decoded (lib.answer sent authorized) decode_response;
            sent = exchanged sent authorized;
          }

  unfoldable pub command_action :
      (now : ℕ) (command_id action : String) → Bytes → List Exchange → Reply (Unit {0})
  command_action now command_id action body sent =
      or_return sent
        (new_request "POST"
          (runner_url (
            str_append "/commands/"
              (str_append (lib.path_escape command_id) (str_append "/" action))))
          body)
        λ request. or_return sent (authorize_agent now) λ header.
          expect_status sent
            (record request { content_type = "application/json"; authorization = header }) 204
            "persist runner command action"

  pub acknowledge_delivery :
      (now : ℕ) (command_id receipt : String) → List Exchange → Reply (Unit {0})
  acknowledge_delivery now command_id receipt =
      command_action now command_id "ack" (lib.marshal_receipt receipt)

  -- A delay that is not negative, in nanoseconds.
  pub retry_delivery :
      (now : ℕ) (command_id receipt : String) (delay : ℕ) → List Exchange → Reply (Unit {0})
  retry_delivery now command_id receipt delay =
      command_action now command_id "retry"
        (lib.marshal_retry receipt (pos (rounded_seconds delay)))

  pub reject_delivery :
      (now : ℕ) (command_id receipt reason : String) → List Exchange → Reply (Unit {0})
  reject_delivery now command_id receipt reason =
      command_action now command_id "reject" (lib.marshal_reject receipt reason)

  -- The event is given as its JSON, `none` where encoding/json fails.
  unfoldable pub publish_event : (now : ℕ) → Option Bytes → List Exchange → Reply (Unit {0})
  publish_event now event sent = or_return sent (or_fail event "marshal event") λ contents.
      or_return sent (new_request "POST" (runner_url "/events") contents) λ request.
        or_return sent (authorize_agent now) λ header.
          expect_status sent
            (record request { content_type = "application/json"; authorization = header }) 202
            "persist runner event"

  unfoldable pub fetch_bundle : (deployment_id token : String) → List Exchange → Reply Bytes
  fetch_bundle deployment_id token sent =
      or_return sent
        (new_request "GET"
          (runner_url
            (str_append "/deployments/" (str_append (lib.path_escape deployment_id) "/bundle")))
          no_body)
        λ request.
          let authorized = record request { deployment_token_header = token } in
          record {
            value = decoded (lib.answer sent authorized) read_bundle;
            sent = exchanged sent authorized;
          }

  -- The request of `PostResults`, if its URL is valid.
  unfoldable pub results_request : (deployment_id token : String) → Bytes → Result ClientRequest
  results_request deployment_id token contents = do
    request ←
        new_request "POST"
          (runner_url
            (str_append "/deployments/" (str_append (lib.path_escape deployment_id) "/results")))
          contents
    ok (record request { content_type = "application/json"; deployment_token_header = token })

  -- The results are given as their JSON, `none` where encoding/json fails.
  unfoldable pub send_results :
      (deployment_id token : String) → Option Bytes → List Exchange → Reply (Unit {0})
  send_results deployment_id token results sent =
      or_return sent (or_fail results "marshal results") λ contents.
        or_return sent (results_request deployment_id token contents)
          λ request. expect_status sent request 202 "persist deployment result"

  unfoldable pub logs_request :
      (environment_id deployment_id token : String) → Bytes → Result ClientRequest
  logs_request environment_id deployment_id token logs = do
    request ←
        new_request "PUT"
          (runner_url (
            str_append "/environments/" (
              str_append (lib.path_escape environment_id)
                (str_append "/deployments/" (str_append (lib.path_escape deployment_id) "/logs")))))
          logs
    ok (record request {
      content_type = "application/octet-stream";
      deployment_token_header = token;
    })

  unfoldable pub send_logs :
      (environment_id deployment_id token : String) → Bytes → List Exchange → Reply (Unit {0})
  send_logs environment_id deployment_id token logs sent =
      or_return sent (logs_request environment_id deployment_id token logs)
        λ request. expect_status sent request 202 "persist encrypted deployment logs"
