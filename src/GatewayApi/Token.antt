-- ===== src/GatewayApi/Token.antt =====
-- internal/gatewayapi/auth.go: the agent token, an EdDSA JWT. Times are counted in nanoseconds since
-- the epoch, as `time.Time` holds them, and the claims hold whole seconds.
pub mod Segments
pub mod Accepts
use platform_orchestrator_ru.Base.{
  ℕ, ◌+◌, ◌*◌, ◌/◌, String, Bytes, List, [], ◌∷◌, Option, none, some, Bool, true, false, not, ◌||◌,
  Char, code, Result, ok, err, ◌>>=◌, ◌>>◌, fail_if, or_fail, if◌then◌else◌, ◌==◌, ltb, leb, str_eq,
  str_append,
}

abbrev pub second : ℕ
second = 1_000_000_000

-- In seconds.
abbrev pub agent_token_lifetime : ℕ
agent_token_lifetime = 300

abbrev pub clock_skew : ℕ
clock_skew = 30 * second

abbrev pub authorization_audience : String
authorization_audience = "platform-orchestrator-runner-gateway"

pub record AgentTokenHeader : Type 0 where
  pub algorithm : String
  pub type : String
  pub key_id : String

pub record AgentTokenClaims : Type 0 where
  pub audience : String
  pub organization_id : String
  pub runner_id : String
  pub issued_at : ℕ
  pub expires_at : ℕ

pub record PemBlock : Type 0 where
  pub type : String
  pub bytes : Bytes

-- What x509 parses a key block into: an Ed25519 key, or a key of another algorithm.
pub data ParsedKey : Type 0 where
  ed25519 : Bytes → ParsedKey
  other_key : ParsedKey

-- The standard library's crypto and encoding packages.
pub record TokenLibrary : Type 0 where
  pub pem_decode : Bytes → Option PemBlock
  pub parse_pkcs8_private_key : Bytes → Option ParsedKey
  pub parse_pkix_public_key : Bytes → Option ParsedKey
  pub public_key : Bytes → Bytes
  pub sign : Bytes → String → Bytes
  pub verify : Bytes → String → Bytes → Bool
  pub sha256_hex : Bytes → String
  pub encode_url : Bytes → String
  pub decode_url : String → Option Bytes
  pub marshal_header : AgentTokenHeader → Bytes
  pub unmarshal_header : Bytes → Option AgentTokenHeader
  pub marshal_claims : AgentTokenClaims → Bytes
  pub unmarshal_claims : Bytes → Option AgentTokenClaims

abbrev cons_head : Char → List String → List String
cons_head c [] = (String.◌∷◌ c String.[]) ∷ []
cons_head c (s ∷ ss) = String.◌∷◌ c s ∷ ss

-- `strings.Split(text, ".")`
unfoldable pub split_dots : String → List String
split_dots String.[] = String.[] ∷ []
split_dots (String.◌∷◌ c s) =
    if code c == b'.' then String.[] ∷ split_dots s else cons_head c (split_dots s)

abbrev ed25519_key : ParsedKey → String → Result Bytes
ed25519_key (ed25519 key) message = ok key
ed25519_key other_key message = err message

-- A PEM block of the expected type.
abbrev typed_block : Option PemBlock → String → String → Result Bytes
typed_block none type message = err message
typed_block (some block) type message =
    if str_eq block.type type then ok block.bytes else err message

abbrev pub join_dot : String → String → String
join_dot a b = str_append a (String.◌∷◌ "." b)

module _ (lib : TokenLibrary) where
  open lib use {
    pem_decode, parse_pkcs8_private_key, parse_pkix_public_key, public_key, sign, verify,
    sha256_hex, encode_url, decode_url, marshal_header, unmarshal_header, marshal_claims,
    unmarshal_claims,
  }

  unfoldable pub parse_private_key : Bytes → Result Bytes
  parse_private_key private_key_pem = do
    bytes ←
        typed_block (pem_decode private_key_pem) "PRIVATE KEY"
          "private key is not a PKCS#8 PEM private key"
    parsed ← or_fail (parse_pkcs8_private_key bytes) "parse private key"
    ed25519_key parsed "private key is not Ed25519"

  unfoldable pub parse_public_key : Bytes → Result Bytes
  parse_public_key public_key_pem = do
    bytes ←
        typed_block (pem_decode public_key_pem) "PUBLIC KEY"
          "public key is not a PKIX PEM public key"
    parsed ← or_fail (parse_pkix_public_key bytes) "parse public key"
    ed25519_key parsed "public key is not Ed25519"

  unfoldable pub sign_agent_token : Bytes → String → String → ℕ → Result String
  sign_agent_token private_key_pem organization_id runner_id now = do
    private_key ← parse_private_key private_key_pem
    fail_if (str_eq organization_id "" || str_eq runner_id "")
        "organization and runner IDs are required"
    let header : AgentTokenHeader = record {
      algorithm = "EdDSA";
      type = "JWT";
      key_id = sha256_hex (public_key private_key);
    }
    let issued_at = now / second
    let claims : AgentTokenClaims = record {
      audience = authorization_audience;
      organization_id = organization_id;
      runner_id = runner_id;
      issued_at = issued_at;
      expires_at = issued_at + agent_token_lifetime;
    }
    let unsigned =
        join_dot (encode_url (marshal_header header)) (encode_url (marshal_claims claims))
    ok (join_dot unsigned (encode_url (sign private_key unsigned)))

  abbrev three_segments : List String → Result (String × String × String)
  three_segments (header ∷ claims ∷ signature ∷ []) = ok (header, claims, signature)
  three_segments _ = err "token must contain three segments"

  -- `now.Add(-clockSkew).Before(expiresAt)` with the skew added on the other side.
  unfoldable pub verify_agent_token : String → Bytes → String → String → ℕ → Result (Unit {0})
  verify_agent_token token public_key_pem organization_id runner_id now = do
    key ← parse_public_key public_key_pem
    (header_part, claims_part, signature_part) ← three_segments (split_dots token)
    header_bytes ← or_fail (decode_url header_part) "token header is not valid base64url"
    header ← or_fail (unmarshal_header header_bytes) "token header is not valid JSON"
    fail_if (not (str_eq header.algorithm "EdDSA") || not (str_eq header.type "JWT"))
        "token must use EdDSA JWT signing"
    claims_bytes ← or_fail (decode_url claims_part) "token claims are not valid base64url"
    claims ← or_fail (unmarshal_claims claims_bytes) "token claims are not valid JSON"
    signature ← or_fail (decode_url signature_part) "token signature is not valid base64url"
    fail_if (not (verify key (join_dot header_part claims_part) signature))
        "token signature is invalid"
    fail_if
        (not (str_eq claims.audience authorization_audience)
          || not (str_eq claims.organization_id organization_id)
          || not (str_eq claims.runner_id runner_id))
        "token identity or audience does not match the request"
    fail_if (not (claims.expires_at == claims.issued_at + agent_token_lifetime))
        "token lifetime is invalid"
    fail_if (ltb (now + clock_skew) (claims.issued_at * second)) "token is not valid yet"
    fail_if (not (ltb now (claims.expires_at * second + clock_skew))) "token has expired"
