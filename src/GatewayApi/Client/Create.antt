-- ===== src/GatewayApi/Client/Create.antt =====
-- `NewClient` and `gatewayTLSConfig` of internal/gatewayapi/client.go. The client of net/http, with its
-- TLS configuration and its timeout, is a parameter of the model.
use platform_orchestrator_ru.Base.{
  ◌>>=◌, ◌>>◌, String, Bytes, Bool, Option, if◌then◌else◌, Result, code, str_eq, ok, ◌&&◌, or_fail,
  ◌==◌, fail_if, not, ◌||◌,
}
use platform_orchestrator_ru.GatewayApi.Client.{Client}

pub record ClientConfig : Type 0 where
  pub base_url : String
  pub organization_id : String
  pub runner_id : String
  pub private_key : Bytes
  pub ca_file : String
  pub client_cert_file : String
  pub client_key_file : String

pub record ParsedUrl : Type 0 where
  pub scheme : String
  pub host : String
  pub text : String

-- `url.Parse`, the files, and what crypto/x509 and crypto/tls read of them.
pub record TlsLibrary : Type 0 where
  pub parse_url : String → Option ParsedUrl
  pub read_ca : String → Option Bytes
  pub has_certificate : Bytes → Bool
  pub loads_key_pair : (cert_file key_file : String) → Bool

-- `strings.TrimRight(url, "/")`.
unfoldable pub trim_right_slashes : String → String
trim_right_slashes String.[] = String.[]
trim_right_slashes (String.◌∷◌ c s) =
    let rest = trim_right_slashes s in
    if code c == b'/' && str_eq rest "" then "" else String.◌∷◌ c rest

module _ (lib : TlsLibrary) where
  open lib use {parse_url, read_ca, has_certificate, loads_key_pair}

  unfoldable pub check_ca : String → Result (Unit {0})
  check_ca file = if str_eq file "" then ok tt else do
    contents ← or_fail (read_ca file) "read runner gateway CA"
    fail_if (not (has_certificate contents))
        "runner gateway CA file does not contain a PEM certificate"

  unfoldable pub gateway_tls_config : ClientConfig → Result (Unit {0})
  gateway_tls_config config = do
    check_ca config.ca_file
    if str_eq config.client_cert_file "" && str_eq config.client_key_file "" then ok tt else do
      fail_if (str_eq config.client_cert_file "" || str_eq config.client_key_file "")
          "both runner gateway client certificate and key files are required for mTLS"
      fail_if (not (loads_key_pair config.client_cert_file config.client_key_file))
          "load runner gateway client certificate"

  unfoldable pub new_client : ClientConfig → Result Client
  new_client config = do
    parsed ←
        or_fail (parse_url (trim_right_slashes config.base_url))
          "runner gateway URL must be an absolute HTTP or HTTPS URL"
    fail_if (str_eq parsed.scheme "" || str_eq parsed.host "")
        "runner gateway URL must be an absolute HTTP or HTTPS URL"
    fail_if (not (str_eq parsed.scheme "http") && not (str_eq parsed.scheme "https"))
        "runner gateway URL must use HTTP or HTTPS"
    gateway_tls_config config
    ok (record {
      base_url = parsed.text;
      organization_id = config.organization_id;
      runner_id = config.runner_id;
      private_key = config.private_key;
    })
