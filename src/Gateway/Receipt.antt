-- ===== src/Gateway/Receipt.antt =====
-- internal/gateway/receipt.go: delivery receipts, sealed with AES-GCM.
pub mod Opens
use platform_orchestrator_ru.Base.{
  ℕ, ◌*◌, String, Bytes, List, ◌++◌, Option, none, some, Bool, not, ◌||◌, Result, ok, err, ◌>>=◌,
  ◌>>◌, fail_if, or_fail, ◌==◌, leb, ltb, str_eq, length, take, drop,
}
use platform_orchestrator_ru.GatewayApi.Token.{second}

pub record ReceiptClaims : Type 0 where
  pub organization_id : String
  pub runner_id : String
  pub command_id : String
  pub ack_subject : String
  pub stream_sequence : ℕ
  pub expires_at : ℕ

-- An AES-GCM instance under a fixed key, as crypto/cipher gives it.
pub record Aead : Type 0 where
  pub nonce_size : ℕ
  pub seal : Bytes → Bytes → Bytes
  pub open_sealed : Bytes → Bytes → Option Bytes

pub record ReceiptLibrary : Type 0 where
  pub new_gcm : Bytes → Option Aead
  pub encode_url : Bytes → String
  pub decode_url : String → Option Bytes
  pub marshal_claims : ReceiptClaims → Bytes
  pub unmarshal_claims : Bytes → Option ReceiptClaims

module _ (lib : ReceiptLibrary) where
  open lib use {new_gcm, encode_url, decode_url, marshal_claims, unmarshal_claims}

  pub new_receipt_cipher : Bytes → Result Aead
  new_receipt_cipher key = do
    fail_if (not (length key == 32)) "gateway receipt key must contain exactly 32 bytes"
    or_fail (new_gcm key) "create receipt cipher"

  -- The nonce is what `io.ReadFull(rand.Reader, nonce)` gives, `none` where it fails.
  unfoldable pub seal : Aead → Option Bytes → ReceiptClaims → Result String
  seal aead random claims = do
    nonce ← or_fail random "read nonce"
    ok (encode_url (nonce ++ aead.seal nonce (marshal_claims claims)))

  unfoldable pub open_receipt : Aead → String → ℕ → Result ReceiptClaims
  open_receipt aead receipt now = do
    sealed ← or_fail (decode_url receipt) "delivery receipt is not valid base64url"
    fail_if (ltb (length sealed) aead.nonce_size) "delivery receipt is truncated"
    plaintext ←
        or_fail (aead.open_sealed (take aead.nonce_size sealed) (drop aead.nonce_size sealed))
          "delivery receipt authentication failed"
    claims ← or_fail (unmarshal_claims plaintext) "decode delivery receipt"
    fail_if
        (str_eq claims.organization_id ""
          || str_eq claims.runner_id ""
          || str_eq claims.command_id ""
          || str_eq claims.ack_subject ""
          || claims.stream_sequence == 0)
        "delivery receipt is missing required claims"
    fail_if (leb (claims.expires_at * second) now) "delivery receipt has expired"
    ok claims
