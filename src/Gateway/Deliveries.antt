-- ===== src/Gateway/Deliveries.antt =====
-- What `Fetch` of internal/natstransport/transport.go makes of a message of JetStream.
use platform_orchestrator_ru.Base.{
  some, none, String, Option, List, ℕ, Bytes, suc, str_append, if◌then◌else◌, [], str_eq, zero, ◌∷◌,
}
use platform_orchestrator_ru.Messaging.{Message}

-- The metadata of a message that JetStream delivers.
pub record Metadata : Type 0 where
  pub stream : String
  pub stream_sequence : ℕ
  pub delivered_times : ℕ
  pub timestamp : ℕ

pub record RawDelivery : Type 0 where
  pub subject : String
  pub payload : Bytes
  pub header : List (String × List String)
  pub reply : String
  pub metadata : Option Metadata

-- The message has no header of its own here; what is read of it comes from `header`.
pub record Delivery : Type 0 where
  pub message : Message
  pub header : List (String × List String)
  pub attempts : ℕ
  pub ack_subject : String
  pub stream_sequence : ℕ

pub data Received : Type 0 where
  timed_out : Received
  receive_failed : (message : String) → Received
  received : RawDelivery → Received

-- hmessaging's names of the headers, `time.Parse` for RFC 3339, and the decimal digits of a number.
pub record HeaderLibrary : Type 0 where
  pub header_created_at : String
  pub header_expires_at : String
  pub header_message_id : String
  pub parse_time : String → Option ℕ
  pub format_number : ℕ → String

-- The first value under a key, empty without one.
unfoldable pub header_get : String → List (String × List String) → String
header_get key [] = ""
header_get key ((name, []) ∷ rest) =
    let later = header_get key rest in if str_eq key name then "" else later
header_get key ((name, v ∷ values) ∷ rest) =
    let later = header_get key rest in if str_eq key name then v else later

unfoldable pub unless_zero : Option ℕ → Option ℕ
unless_zero none = none
unless_zero (some zero) = none
unless_zero (some (suc n)) = some (suc n)

unfoldable pub time_or : ℕ → Option ℕ → ℕ
time_or default none = default
time_or default (some t) = t

module _ (lib : HeaderLibrary) where
  -- The header's time, if it has one that parses.
  unfoldable pub header_time : String → List (String × List String) → Option ℕ
  header_time key header =
      let value = header_get key header in if str_eq value "" then none else lib.parse_time value

  unfoldable pub message_id_of : RawDelivery → Metadata → String
  message_id_of raw metadata =
      let id = header_get lib.header_message_id raw.header in
      if str_eq id ""
      then str_append "stream:"
          (str_append metadata.stream (str_append ":" (lib.format_number metadata.stream_sequence)))
      else id

  unfoldable pub delivery_of : RawDelivery → Metadata → Delivery
  delivery_of raw metadata = record {
    message = record {
      id = message_id_of raw metadata;
      subject = raw.subject;
      payload = raw.payload;
      created_at = time_or metadata.timestamp (header_time lib.header_created_at raw.header);
      expires_at = unless_zero (header_time lib.header_expires_at raw.header);
    };
    header = raw.header;
    attempts = metadata.delivered_times;
    ack_subject = raw.reply;
    stream_sequence = metadata.stream_sequence;
  }
