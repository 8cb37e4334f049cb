-- ===== src/Gateway/Transport.antt =====
-- internal/natstransport/transport.go: the connection to NATS and the pull consumers.
use platform_orchestrator_ru.Base.{
  ◌>>=◌, ◌>>◌, ok, err, some, none, ℤ, pos, negsuc, String, Option, List, ℕ, Bool, Result, Bytes,
  ◌*◌, not, fail_if, suc, str_append, or_fail, if◌then◌else◌, [], str_eq, zero, false, ◌∷◌, ◌||◌,
  true,
}
use platform_orchestrator_ru.Runner.Diagnostics.{split_on}
use platform_orchestrator_ru.Messaging.{MessagingLibrary}

-- A timeout is in nanoseconds.
pub record Config : Type 0 where
  pub url : String
  pub token : String
  pub credentials_file : String
  pub ca_file : String
  pub client_cert_file : String
  pub client_key_file : String
  pub name : String
  pub connect_timeout : ℤ

-- The parts of a `tls.Config` for TLS 1.2 or later.
pub record TlsConfig : Type 0 where
  pub root_cas : Option Bytes
  pub certificates : List Bytes

-- What hnats.Connect takes; the wait between reconnections, a second, and their number, without a limit,
-- are constants.
pub record ConnectionConfig : Type 0 where
  pub urls : List String
  pub name : String
  pub token : String
  pub credentials_file : String
  pub tls_config : Option TlsConfig
  pub connect_timeout : ℕ

-- `strings.TrimSpace`, the files, the certificates of a PEM file and a key pair of two files.
pub record TransportFiles : Type 0 where
  pub trim_space : String → String
  pub read_file : String → Option Bytes
  pub certificates_in : Bytes → Option Bytes
  pub load_key_pair : String → String → Option Bytes

unfoldable pub timeout_or_default : ℤ → ℕ
timeout_or_default (pos zero) = 10 * 1000000000
timeout_or_default (pos (suc n)) = suc n
timeout_or_default (negsuc n) = 10 * 1000000000

module _ (files : TransportFiles) where
  -- The pool of a CA file, if one is named.
  unfoldable pub root_cas_of : (ca_file : String) → Result (Option Bytes)
  root_cas_of String.[] = ok none
  root_cas_of (String.◌∷◌ c s) = do
    ca ← or_fail (files.read_file (String.◌∷◌ c s)) "read NATS CA"
    pool ← or_fail (files.certificates_in ca) "NATS_CA_FILE does not contain a PEM certificate"
    ok (some pool)

  unfoldable pub certificates_of : (cert_file key_file : String) → Result (List Bytes)
  certificates_of String.[] String.[] = ok []
  certificates_of String.[] (String.◌∷◌ c s) =
      err "both NATS_CLIENT_CERT_FILE and NATS_CLIENT_KEY_FILE are required for mTLS"
  certificates_of (String.◌∷◌ c s) String.[] =
      err "both NATS_CLIENT_CERT_FILE and NATS_CLIENT_KEY_FILE are required for mTLS"
  certificates_of (String.◌∷◌ c s) (String.◌∷◌ d t) = do
    certificate ←
        or_fail (files.load_key_pair (String.◌∷◌ c s) (String.◌∷◌ d t))
          "load NATS client certificate"
    ok (certificate ∷ [])

  unfoldable pub needs_tls : Config → Bool
  needs_tls config =
      not (str_eq config.ca_file "")
      || not (str_eq config.client_cert_file "")
      || not (str_eq config.client_key_file "")

  -- `Connect`, up to the call of hnats.Connect.
  unfoldable pub connect : Config → Result ConnectionConfig
  connect config = do
    fail_if (str_eq (files.trim_space config.url) "") "NATS_URL must not be empty"
    pool ← root_cas_of config.ca_file
    certificates ← certificates_of config.client_cert_file config.client_key_file
    let tls_config : Option TlsConfig =
        if needs_tls config
        then some (record { root_cas = pool; certificates = certificates })
        else none
    ok (record {
      urls = split_on b',' config.url;
      name = config.name;
      token = config.token;
      credentials_file = config.credentials_file;
      tls_config = tls_config;
      connect_timeout = timeout_or_default config.connect_timeout;
    })

-- A pull subscription of JetStream. Acknowledgements are explicit and manual; the time to wait for one is
-- in nanoseconds.
pub record Subscription : Type 0 where
  pub stream : String
  pub subject : String
  pub durable : String
  pub ack_wait : ℕ
  pub max_deliver : ℕ

-- JetStream's answers, hmessaging's name of the stream of commands, and SHA-256 in hexadecimal.
pub record JetStream : Type 0 where
  pub messaging : MessagingLibrary
  pub runner_commands_stream_name : String
  pub modern_context : Bool
  pub ensure_standard_streams : Bool
  pub legacy_context : Bool
  pub pull_subscribe : Subscription → Bool
  pub sha256_hex : String → String

abbrev pub default_ack_wait : ℕ
default_ack_wait = 2 * 60 * 1000000000

abbrev pub default_max_deliver : ℕ
default_max_deliver = 10

unfoldable pub first_chars : ℕ → String → String
first_chars zero s = String.[]
first_chars (suc n) String.[] = String.[]
first_chars (suc n) (String.◌∷◌ c s) = String.◌∷◌ c (first_chars n s)

module _ (js : JetStream) where
  -- The first 12 bytes of the hash are 24 hexadecimal digits.
  unfoldable pub durable_name : (organization_id runner_id : String) → String
  durable_name organization_id runner_id =
      str_append "runner-"
        (first_chars 24 (js.sha256_hex (str_append organization_id (str_append "\0" runner_id))))

  unfoldable pub subscribe : (stream subject durable : String) → Result Subscription
  subscribe stream subject durable =
      let subscription : Subscription = record {
        stream = stream;
        subject = subject;
        durable = durable;
        ack_wait = default_ack_wait;
        max_deliver = default_max_deliver;
      } in
      fail_if (not (js.pull_subscribe subscription)) "create consumer" >> ok subscription

  unfoldable pub bootstrap : Bool → Result (Unit {0})
  bootstrap false = ok tt
  bootstrap true = do
    fail_if (not js.modern_context) "create JetStream consumer"
    fail_if (not js.ensure_standard_streams) "ensure standard streams"

  unfoldable pub new_runner_consumer :
      (organization_id runner_id : String) (bootstrap_streams : Bool) → Result Subscription
  new_runner_consumer organization_id runner_id bootstrap_streams = do
    subject ←
        or_fail (js.messaging.runner_command_subject organization_id runner_id)
          "runner command subject"
    bootstrap bootstrap_streams
    fail_if (not js.legacy_context) "create legacy JetStream consumer adapter"
    subscribe js.runner_commands_stream_name subject (durable_name organization_id runner_id)

  unfoldable pub new_bound_consumer : (stream subject durable : String) → Result Subscription
  new_bound_consumer stream subject durable = do
    fail_if (str_eq stream "" || str_eq subject "" || str_eq durable "")
        "stream, subject, and durable consumer name are required"
    fail_if (not js.legacy_context) "create JetStream consumer"
    subscribe stream subject durable
