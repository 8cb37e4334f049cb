-- ===== src/Gateway/Tests.antt =====
-- Tokens and receipts at concrete inputs.
mod Server
mod Outbox
mod Keys
mod Transport
use platform_orchestrator_ru.Base.{
  String, List, [], ◌∷◌, ◌≡◌, refl, some, none, ok, err, true, false, Bytes, ℕ, zero, suc, ◌*◌,
  ◌++◌, if◌then◌else◌, ap, len, arith, Option, ◌↔◌, ◌<◌, eq_iff, ◌==◌,
}
use platform_orchestrator_ru.Unary.{
  encode, decode_from, same_bytes, same_bytes_refl, unary, decode-encode_lem,
}
use platform_orchestrator_ru.GatewayApi.Token.{
  TokenLibrary, AgentTokenHeader, AgentTokenClaims, second, authorization_audience, ed25519,
  parse_private_key, verify_agent_token, parse_public_key, sign_agent_token, split_dots,
}
use platform_orchestrator_ru.GatewayApi.Token.Accepts.{
  IsGenuine, TokenLaws, signed_header, signed_claims, verify-sign_iff, InWindow,
  verify_agent_token-IsGenuine,
}
use platform_orchestrator_ru.Gateway.Http.{World, Request}
use platform_orchestrator_ru.Messaging.{CommandEnvelope, Message}
use platform_orchestrator_ru.GatewayApi.Token.Segments.{NoDot}
use platform_orchestrator_ru.Gateway.Receipt.{
  ReceiptClaims, Aead, ReceiptLibrary, seal, open_receipt,
}
use platform_orchestrator_ru.Gateway.Receipt.Opens.{
  ReceiptLaws, IsComplete, open_receipt-seal_iff, open_receipt_sound,
}

abbrev token_header : AgentTokenHeader
token_header = record { algorithm = "EdDSA"; type = "JWT"; key_id = "key" }

abbrev token_claims : AgentTokenClaims
token_claims = signed_claims "org" "runner" 0

abbrev private_pem : Bytes
private_pem = 1 ∷ []

abbrev pub public_pem : Bytes
public_pem = 2 ∷ []

-- A signature is the key with the length of the text.
abbrev pub tokens : TokenLibrary
tokens = record {
  pem_decode = λ bytes. some (record {
    type = if same_bytes bytes (1 ∷ []) then "PRIVATE KEY" else "PUBLIC KEY";
    bytes = bytes;
  });
  parse_pkcs8_private_key = λ bytes. some (ed25519 []);
  parse_pkix_public_key = λ bytes. some (ed25519 []);
  public_key = λ key. key;
  sign = λ key text. key ++ len text ∷ [];
  verify = λ key text signature. same_bytes (key ++ len text ∷ []) signature;
  sha256_hex = λ bytes. "key";
  encode_url = encode;
  decode_url = λ text. some (decode_from 0 text);
  marshal_header = λ header. 1 ∷ [];
  unmarshal_header = λ bytes. some token_header;
  marshal_claims = λ claims. 2 ∷ [];
  unmarshal_claims = λ bytes. some token_claims;
}

abbrev pub agent_token : String
agent_token = "1-.11-.111111-"

unary-NoDot : (n : ℕ) (s : String) → NoDot s → NoDot (unary n s)
unfolding unary
unary-NoDot zero s h = (omega arith, h)
unary-NoDot (suc n) s h = (omega arith, unary-NoDot n s h)

encode-NoDot : (bytes : Bytes) → NoDot (encode bytes)
unfolding encode
encode-NoDot [] = tt
encode-NoDot (n ∷ rest) = unary-NoDot n (encode rest) (encode-NoDot rest)

tokens-TokenLaws : TokenLaws tokens (signed_header tokens []) (signed_claims "org" "runner" 0)
tokens-TokenLaws = record {
  decode_encode = λ bytes. ap some (decode-encode_lem bytes);
  encode-NoDot = encode-NoDot;
  header_round_trip = refl;
  claims_round_trip = refl;
  verify_sign = λ key text. same_bytes_refl (key ++ len text ∷ []);
}

verify-sign_iff_example :
    (verify_agent_token tokens agent_token public_pem "org" "runner" (100 * second) ≡ ok tt)
    ↔ InWindow 0 (100 * second)
unfolding parse_private_key parse_public_key sign_agent_token encode unary
verify-sign_iff_example =
    verify-sign_iff tokens [] private_pem public_pem "org" "runner" 0 tokens-TokenLaws agent_token
      (100 * second) refl refl refl

agent_token-verifies :
    verify_agent_token tokens agent_token public_pem "org" "runner" (100 * second) ≡ ok tt
unfolding verify_agent_token parse_public_key split_dots decode_from
agent_token-verifies = refl

verify_agent_token-IsGenuine_example :
    IsGenuine tokens agent_token public_pem "org" "runner" (100 * second)
verify_agent_token-IsGenuine_example =
    verify_agent_token-IsGenuine tokens agent_token public_pem "org" "runner" (100 * second)
      agent_token-verifies

abbrev pub receipt_claims : ReceiptClaims
receipt_claims = record {
  organization_id = "org";
  runner_id = "runner";
  command_id = "command";
  ack_subject = "ack";
  stream_sequence = 3;
  expires_at = 190;
}

abbrev pub unmark : Bytes → Option Bytes
unmark [] = none
unmark (mark ∷ plaintext) = if mark == 9 then some plaintext else none

-- A cipher that marks what it sealed.
abbrev pub cipher : Aead
cipher = record {
  nonce_size = 1;
  seal = λ nonce plaintext. 9 ∷ plaintext;
  open_sealed = λ nonce sealed. unmark sealed;
}

abbrev pub receipts : ReceiptLibrary
receipts = record {
  new_gcm = λ key. some cipher;
  encode_url = encode;
  decode_url = λ text. some (decode_from 0 text);
  marshal_claims = λ claims. 5 ∷ [];
  unmarshal_claims = λ bytes. some receipt_claims;
}

pub receipts-ReceiptLaws : ReceiptLaws receipts cipher receipt_claims
receipts-ReceiptLaws = record {
  decode_encode = λ bytes. ap some (decode-encode_lem bytes);
  claims_round_trip = refl;
  open_seal = λ nonce plaintext size. refl;
}

abbrev pub receipt_text : String
receipt_text = "1111-111111111-11111-"

receipt_claims-IsComplete : IsComplete receipt_claims
receipt_claims-IsComplete = record {
  organization = λ e. ground (arith, eq_iff "org" "");
  runner = λ e. ground (arith, eq_iff "runner" "");
  command = λ e. ground (arith, eq_iff "command" "");
  subject = λ e. ground (arith, eq_iff "ack" "");
  sequence = λ e. omega arith;
}

open_receipt-seal_iff_example :
    (open_receipt receipts cipher receipt_text (100 * second) ≡ ok receipt_claims)
    ↔ (100 * second < receipt_claims.expires_at * second)
unfolding seal encode unary
open_receipt-seal_iff_example =
    open_receipt-seal_iff receipts cipher (4 ∷ []) receipt_claims receipts-ReceiptLaws
      (100 * second) receipt_text refl receipt_claims-IsComplete refl

receipt_text-opens : open_receipt receipts cipher receipt_text (100 * second) ≡ ok receipt_claims
unfolding open_receipt decode_from
receipt_text-opens = refl
