-- ===== src/Messaging.antt =====
-- The message types of golib/hmessaging that the runner exchanges, with the fields it uses. A zero
-- time is `none`.
use platform_orchestrator_ru.Base.{ℕ, String, Bytes, Option, Result}

pub record Message : Type 0 where
  pub id : String
  pub subject : String
  pub payload : Bytes
  pub created_at : ℕ
  pub expires_at : Option ℕ

pub record CommandEnvelope : Type 0 where
  pub protocol_version : String
  pub command_id : String
  pub organization_id : String
  pub runner_id : String
  pub deployment_id : String
  pub type : String
  pub expires_at : Option ℕ
  pub payload : Bytes

pub record EventEnvelope : Type 0 where
  pub protocol_version : String
  pub event_id : String
  pub command_id : String
  pub organization_id : String
  pub runner_id : String
  pub deployment_id : String
  pub type : String
  pub created_at : ℕ
  pub payload : Bytes

-- hmessaging's subjects and the JSON encodings of its envelopes.
pub record MessagingLibrary : Type 0 where
  pub protocol_version_v1 : String
  pub runner_command_subject : String → String → Option String
  pub runner_event_subject : String → String → String → Option String
  pub unmarshal_command : Bytes → Result CommandEnvelope
  pub unmarshal_event : Bytes → Option EventEnvelope
  pub marshal_event : EventEnvelope → Bytes
