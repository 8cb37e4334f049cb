-- ===== src/Gateway/Backend.antt =====
-- The acknowledgements of `NATSBackend` (internal/gateway/backend.go). A method works on the list of
-- NATS calls made so far, newest first, and what NATS answers is a function of that list.
pub mod DeadLetters
use platform_orchestrator_ru.Base.{
  ℕ, String, Bytes, List, ◌∷◌, Option, none, some, str_eq, str_append, min, ◌*◌, if◌then◌else◌,
  ◌==◌,
}
use platform_orchestrator_ru.Messaging.{Message}
use platform_orchestrator_ru.Gateway.Http.{CommandDelivery}
use platform_orchestrator_ru.GatewayApi.Token.{second}

-- `publish_message` is the durable publisher's call, with the reason in the dead letter's header;
-- `send` publishes an acknowledgement, and `flush` waits for it, in nanoseconds.
pub data NatsCall : Type 0 where
  publish_message : Message → (reason : String) → NatsCall
  send : (subject payload : String) → NatsCall
  flush : ℕ → NatsCall

abbrev pub Trace : Type 0
Trace = List NatsCall

-- A stored message, as JetStream returns it; `message_id` is its header, empty if it has none.
pub record RawMessage : Type 0 where
  pub message_id : String
  pub subject : String
  pub payload : Bytes
  pub time : ℕ

-- NATS, the time left until the context's deadline, and hmessaging's dead-letter subjects.
pub record Nats : Type 0 where
  pub answer : NatsCall → Trace → Option String
  pub time_left : Trace → Option ℕ
  pub context_error : Trace → Option String
  pub dead_letter_subject : String → Option String
  pub get_msg : ℕ → Option RawMessage
  pub sequence_id : ℕ → String
  pub format_nanoseconds : ℕ → String

-- The error that a method returns, if any, and the calls after it.
abbrev pub Outcome : Type 0
Outcome = Option String × Trace

abbrev pub flush_timeout : Option ℕ → ℕ
flush_timeout none = 5 * second
flush_timeout (some left) = min left (5 * second)

module _ (nats : Nats) where
  unfoldable pub flushed : Trace → Outcome
  flushed calls =
      let timeout = flush_timeout (nats.time_left calls) in
      if timeout == 0
      then (nats.context_error calls, calls)
      else (nats.answer (flush timeout) calls, flush timeout ∷ calls)

  unfoldable pub publish_acknowledgement : (subject payload : String) → Trace → Outcome
  publish_acknowledgement subject payload calls =
      if str_eq subject ""
      then (some "JetStream acknowledgement subject is empty", calls)
      else elim (nats.answer (send subject payload) calls) [
        | some e ↦ (some e, send subject payload ∷ calls)
        | none ↦ flushed (send subject payload ∷ calls)
      ]

  unfoldable pub acknowledge : (ack_subject : String) → Trace → Outcome
  acknowledge ack_subject = publish_acknowledgement ack_subject "+ACK"

  -- The delay is in seconds.
  unfoldable pub retry : (ack_subject : String) → (delay : ℕ) → Trace → Outcome
  retry ack_subject delay = publish_acknowledgement ack_subject (
      if delay == 0
      then "-NAK"
      else str_append "-NAK {\"delay\": "
          (str_append (nats.format_nanoseconds (delay * second)) "}"))

  unfoldable pub dead_letter : Message → (subject : String) → Message
  dead_letter message subject = record message {
    id = str_append message.id ":gateway-dlq";
    subject = subject;
    expires_at = none;
  }

  unfoldable pub reject : CommandDelivery → (cause : String) → Trace → Outcome
  reject delivery cause calls = elim (nats.dead_letter_subject delivery.message.subject) [
    | none ↦ (some "dead letter subject", calls)
    | some subject ↦
        let call = publish_message (dead_letter delivery.message subject) cause in
        elim (nats.answer call calls) [
          | some e ↦ (some e, call ∷ calls)
          | none ↦ publish_acknowledgement delivery.ack_subject "+TERM" (call ∷ calls)
        ]
  ]

  unfoldable pub stored_delivery : RawMessage → (ack_subject : String) → ℕ → CommandDelivery
  stored_delivery raw ack_subject stream_sequence = record {
    message = record {
      id = if str_eq raw.message_id "" then nats.sequence_id stream_sequence else raw.message_id;
      subject = raw.subject;
      payload = raw.payload;
      created_at = raw.time;
      expires_at = none;
    };
    attempts = 0;
    ack_subject = ack_subject;
    stream_sequence = stream_sequence;
  }

  unfoldable pub reject_receipt : (ack_subject : String) → ℕ → (cause : String) → Trace → Outcome
  reject_receipt ack_subject stream_sequence cause calls = elim (nats.get_msg stream_sequence) [
    | none ↦ (some "load rejected runner command", calls)
    | some raw ↦ reject (stored_delivery raw ack_subject stream_sequence) cause calls
  ]
