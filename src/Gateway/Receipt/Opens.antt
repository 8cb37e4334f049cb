-- ===== src/Gateway/Receipt/Opens.antt =====
-- Sealing and opening delivery receipts (internal/gateway/receipt.go).
use platform_orchestrator_ru.Base.{
  ℕ, ◌*◌, ◌<◌, String, Bytes, ◌≡◌, ◌≢◌, ◌++◌, some, ok, arith, eq_iff, length, take, drop,
  take-append, drop-append, ltb-length-append, with_ok, or_fail, fail_if, ltb, ◌↔◌, Option, none,
  refl,
}
use platform_orchestrator_ru.GatewayApi.Token.{second}
use platform_orchestrator_ru.Gateway.Receipt.{
  ReceiptClaims, Aead, ReceiptLibrary, seal, open_receipt,
}

-- The documented behaviour of crypto/cipher, encoding/base64 and, on the claims, encoding/json.
pub record ReceiptLaws (lib : ReceiptLibrary) (aead : Aead) (claims : ReceiptClaims) : Type 0 where
  pub decode_encode : (b : Bytes) → lib.decode_url (lib.encode_url b) ≡ some b
  pub claims_round_trip : lib.unmarshal_claims (lib.marshal_claims claims) ≡ some claims
  pub open_seal :
      (nonce plaintext : Bytes)
      → length nonce ≡ aead.nonce_size
      → aead.open_sealed nonce (aead.seal nonce plaintext) ≡ some plaintext

-- The claims that `open` insists on.
pub record IsComplete (c : ReceiptClaims) : Type 0 where
  pub organization : c.organization_id ≢ ""
  pub runner : c.runner_id ≢ ""
  pub command : c.command_id ≢ ""
  pub subject : c.ack_subject ≢ ""
  pub sequence : c.stream_sequence ≢ 0

module _ (lib : ReceiptLibrary) (aead : Aead) (nonce : Bytes) (claims : ReceiptClaims)
    (laws : ReceiptLaws lib aead claims) (now : ℕ) where
  -- A sealed receipt with complete claims opens to them exactly until it expires.
  pub open_receipt-seal_iff :
      (receipt : String)
      → length nonce ≡ aead.nonce_size
      → IsComplete claims
      → seal lib aead (some nonce) claims ≡ ok receipt
      → (open_receipt lib aead receipt now ≡ ok claims) ↔ (now < claims.expires_at * second)
  unfolding seal open_receipt
  open_receipt-seal_iff receipt size complete sealed =
      rw
        (
          sealed_lem,
          open_receipt,
          laws.decode_encode (nonce ++ aead.seal nonce (lib.marshal_claims claims)),
          ← size,
          take-append nonce _,
          drop-append nonce _,
          ltb-length-append nonce _,
          laws.open_seal nonce (lib.marshal_claims claims) size,
          laws.claims_round_trip,
        )
        (ground (
          arith,
          eq_iff claims.organization_id "",
          eq_iff claims.runner_id "",
          eq_iff claims.command_id "",
          eq_iff claims.ack_subject "",
        ))
    where
      sealed_lem : receipt ≡ lib.encode_url (nonce ++ aead.seal nonce (lib.marshal_claims claims))
      sealed_lem = ground arith

module _ (lib : ReceiptLibrary) (aead : Aead) (receipt : String) (now : ℕ)
    (claims : ReceiptClaims) where
  -- A receipt that opens carries complete claims that have not expired.
  pub open_receipt_sound :
      open_receipt lib aead receipt now ≡ ok claims
      → IsComplete claims × (now < claims.expires_at * second)
  unfolding open_receipt
  open_receipt_sound e = with_ok Goal (or_fail (lib.decode_url receipt) _) e λ sealed _ e1.
      with_ok Goal (fail_if (ltb (length sealed) aead.nonce_size) _) e1 λ _ _ e2.
        with_ok Goal
          (or_fail (aead.open_sealed (take aead.nonce_size sealed) (drop aead.nonce_size sealed)) _)
          e2
          λ plaintext _ e3. with_ok Goal (or_fail (lib.unmarshal_claims plaintext) _) e3 λ c _ e4.
            ground (
              arith,
              eq_iff c.organization_id "",
              eq_iff c.runner_id "",
              eq_iff c.command_id "",
              eq_iff c.ack_subject "",
            )
    where
      Goal : Type 0
      Goal = IsComplete claims × (now < claims.expires_at * second)

-- A receipt is sealed under a nonce.
pub seal-random :
    (lib : ReceiptLibrary) (aead : Aead) (random : Option Bytes) (claims : ReceiptClaims)
    (receipt : String)
    → seal lib aead random claims ≡ ok receipt
    → (nonce : Bytes) × (random ≡ some nonce)
unfolding seal
seal-random lib aead none claims receipt e = absurd (ground arith)
seal-random lib aead (some nonce) claims receipt e = (nonce, refl)
