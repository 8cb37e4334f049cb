-- ===== src/Gateway/Configuration.antt =====
-- `NewServer` of internal/gateway/server.go: the checks of the configuration and its defaults. Whether a
-- backend and a resolver are given is a Boolean, and `now` is always given.
use platform_orchestrator_ru.Base.{
  ℕ, ℤ, pos, negsuc, String, Bytes, Bool, not, ◌&&◌, ◌||◌, Result, ok, ◌>>=◌, ◌>>◌, fail_if, str_eq,
  ◌==◌, if◌then◌else◌, ◌*◌,
}
use platform_orchestrator_ru.GatewayApi.Token.{second}
use platform_orchestrator_ru.Gateway.Receipt.{Aead, ReceiptLibrary, new_receipt_cipher}

pub record ServerConfig : Type 0 where
  pub base_path : String
  pub has_backend : Bool
  pub has_public_keys : Bool
  pub receipt_key : Bytes
  pub runner_token_salt : String
  pub fetch_wait : ℤ
  pub max_log_bytes : ℤ

pub record ServerSettings : Type 0 where
  pub base_path : String
  pub receipts : Aead
  pub runner_token_salt : String
  pub fetch_wait : ℕ
  pub max_log_bytes : ℕ

-- A setting, or its default if it is not positive.
unfoldable pub or_default : ℤ → ℕ → ℕ
or_default (pos n) default = if n == 0 then default else n
or_default (negsuc n) default = default

abbrev pub default_fetch_wait : ℕ
default_fetch_wait = 25 * second

abbrev pub default_max_log_bytes : ℕ
default_max_log_bytes = 16_777_216

-- `trim_slashes` and `starts_with_slash` are the calls of package strings.
unfoldable pub new_server :
    ReceiptLibrary
    → (trim_slashes : String → String) → (starts_with_slash : String → Bool) → ServerConfig
    → Result ServerSettings
new_server lib trim_slashes starts_with_slash config = do
  fail_if (not config.has_backend || not config.has_public_keys)
      "gateway backend and public key resolver are required"
  receipts ← new_receipt_cipher lib config.receipt_key
  fail_if (str_eq config.runner_token_salt "") "runner token salt is required"
  fail_if
      (not (str_eq (trim_slashes config.base_path) "")
        && not (starts_with_slash (trim_slashes config.base_path)))
      "gateway base path must be empty or start with a slash"
  ok (record {
    base_path = trim_slashes config.base_path;
    receipts = receipts;
    runner_token_salt = config.runner_token_salt;
    fetch_wait = or_default config.fetch_wait default_fetch_wait;
    max_log_bytes = or_default config.max_log_bytes default_max_log_bytes;
  })
