-- ===== src/GatewayApi/Token/Accepts.antt =====
-- What `VerifyAgentToken` accepts (internal/gatewayapi/auth.go): the tokens of `SignAgentToken`
-- within their time window, and nothing that the key, the identity or the lifetime does not cover.
use text.Mathlib.TextLemmas.{cons-append, append_assoc}
use platform_orchestrator_ru.Base.{
  ℕ, ◌+◌, ◌*◌, ◌/◌, ◌≤◌, ◌<◌, String, Bytes, ◌≡◌, ◌↔◌, true, some, ok, arith, eq_iff, eq_refl,
  with_ok, or_fail, fail_if, not, ◌||◌, List, str_eq, ◌∷◌, [],
}
use platform_orchestrator_ru.GatewayApi.Token.{
  three_segments, TokenLibrary, AgentTokenHeader, AgentTokenClaims, second, agent_token_lifetime,
  clock_skew, authorization_audience, parse_private_key, parse_public_key, sign_agent_token,
  verify_agent_token, split_dots, join_dot,
}
use platform_orchestrator_ru.GatewayApi.Token.Segments.{NoDot, split_dots-join_dot-join_dot}

-- The documented behaviour of crypto/ed25519, encoding/base64 and, on a token's header and claims,
-- encoding/json.
pub record TokenLaws (lib : TokenLibrary) (header : AgentTokenHeader) (claims : AgentTokenClaims)
    : Type 0 where
  pub decode_encode : (b : Bytes) → lib.decode_url (lib.encode_url b) ≡ some b
  pub encode-NoDot : (b : Bytes) → NoDot (lib.encode_url b)
  pub header_round_trip : lib.unmarshal_header (lib.marshal_header header) ≡ some header
  pub claims_round_trip : lib.unmarshal_claims (lib.marshal_claims claims) ≡ some claims
  pub verify_sign :
      (key : Bytes) (text : String)
      → lib.verify (lib.public_key key) text (lib.sign key text) ≡ true

join_dot_assoc : (a b c : String) → join_dot (join_dot a b) c ≡ join_dot a (join_dot b c)
join_dot_assoc a b c = rw (append_assoc, cons-append)

abbrev pub signed_header : TokenLibrary → Bytes → AgentTokenHeader
signed_header lib key = record {
  algorithm = "EdDSA";
  type = "JWT";
  key_id = lib.sha256_hex (lib.public_key key);
}

abbrev pub signed_claims : String → String → ℕ → AgentTokenClaims
signed_claims organization_id runner_id now = record {
  audience = authorization_audience;
  organization_id = organization_id;
  runner_id = runner_id;
  issued_at = now / second;
  expires_at = now / second + agent_token_lifetime;
}

-- The window in which a token signed at `now` is accepted, in nanoseconds.
abbrev pub InWindow : ℕ → ℕ → Type 0
InWindow now later =
    (now / second * second ≤ later + clock_skew)
    × (later < (now / second + agent_token_lifetime) * second + clock_skew)

module _ (lib : TokenLibrary) (key private_key_pem public_key_pem : Bytes)
    (organization_id runner_id : String) (now : ℕ)
    (laws : TokenLaws lib
      (signed_header lib key)
      (signed_claims organization_id runner_id now)) where
  abbrev header_part : String
  header_part = lib.encode_url (lib.marshal_header (signed_header lib key))

  abbrev claims_part : String
  claims_part = lib.encode_url (lib.marshal_claims (signed_claims organization_id runner_id now))

  abbrev signature_part : String
  signature_part = lib.encode_url (lib.sign key (join_dot header_part claims_part))

  signed_token :
      (token : String)
      → parse_private_key lib private_key_pem ≡ ok key
      → sign_agent_token lib private_key_pem organization_id runner_id now ≡ ok token
      → token ≡ join_dot (join_dot header_part claims_part) signature_part
  unfolding sign_agent_token
  signed_token token k e = ground (arith, k, e)

  split_dots-signed :
      split_dots (join_dot (join_dot header_part claims_part) signature_part)
      ≡ header_part ∷ claims_part ∷ signature_part ∷ []
  split_dots-signed = rw (join_dot_assoc header_part claims_part signature_part) (
      split_dots-join_dot-join_dot header_part claims_part signature_part (laws.encode-NoDot _)
        (laws.encode-NoDot _) (laws.encode-NoDot _))

  -- A token that the runner signs verifies under its public key, for the same organization and runner,
  -- exactly from 30 seconds before its issue to 30 seconds after its lifetime of 300 seconds.
  pub verify-sign_iff :
      (token : String) (later : ℕ)
      → parse_private_key lib private_key_pem ≡ ok key
      → parse_public_key lib public_key_pem ≡ ok (lib.public_key key)
      → sign_agent_token lib private_key_pem organization_id runner_id now ≡ ok token
      → (verify_agent_token lib token public_key_pem organization_id runner_id later ≡ ok tt)
        ↔ InWindow now later
  unfolding verify_agent_token
  verify-sign_iff token later k p e =
      rw
        (
          signed_token token k e,
          verify_agent_token,
          p,
          split_dots-signed,
          laws.decode_encode (lib.marshal_header (signed_header lib key)),
          laws.header_round_trip,
          laws.decode_encode (lib.marshal_claims (signed_claims organization_id runner_id now)),
          laws.claims_round_trip,
          laws.decode_encode (lib.sign key (join_dot header_part claims_part)),
          laws.verify_sign key (join_dot header_part claims_part),
          eq_refl organization_id,
          eq_refl runner_id,
        )
        (ground arith)

three_segments-eq-ok :
    (lib : TokenLibrary) (segments : List String) (parts : String × String × String)
    → three_segments lib segments ≡ ok parts
    → segments ≡ parts.0 ∷ parts.1 ∷ parts.2 ∷ []
three_segments-eq-ok lib (header ∷ claims ∷ signature ∷ []) parts e = cc
three_segments-eq-ok lib _ parts e = cc

-- What an accepted token establishes.
pub record IsGenuine (lib : TokenLibrary) (token : String) (public_key_pem : Bytes)
    (organization_id runner_id : String) (now : ℕ) : Type 0 where
  pub key : Bytes
  pub header_part : String
  pub claims_part : String
  pub signature_part : String
  pub claims_bytes : Bytes
  pub signature : Bytes
  pub claims : AgentTokenClaims
  pub parsed : parse_public_key lib public_key_pem ≡ ok key
  pub parts : split_dots token ≡ header_part ∷ claims_part ∷ signature_part ∷ []
  pub claimed : lib.decode_url claims_part ≡ some claims_bytes
  pub decoded : lib.unmarshal_claims claims_bytes ≡ some claims
  pub signed : lib.decode_url signature_part ≡ some signature
  pub verified : lib.verify key (join_dot header_part claims_part) signature ≡ true
  pub audience : claims.audience ≡ authorization_audience
  pub organization : claims.organization_id ≡ organization_id
  pub runner : claims.runner_id ≡ runner_id
  pub lifetime : claims.expires_at ≡ claims.issued_at + agent_token_lifetime
  pub not_early : claims.issued_at * second ≤ now + clock_skew
  pub not_late : now < claims.expires_at * second + clock_skew

module _ (lib : TokenLibrary) (token : String) (public_key_pem : Bytes)
    (organization_id runner_id : String) (now : ℕ) where
  -- A token that is accepted is signed under the given key over its header and claims, and the claims
  -- name the gateway, this organization and this runner and a lifetime of 300 seconds around now.
  pub verify_agent_token-IsGenuine :
      verify_agent_token lib token public_key_pem organization_id runner_id now ≡ ok tt
      → IsGenuine lib token public_key_pem organization_id runner_id now
  unfolding verify_agent_token
  verify_agent_token-IsGenuine e =
      with_ok Goal (parse_public_key lib public_key_pem) e λ key parsed e1.
        with_ok Goal (three_segments lib (split_dots token)) e1 λ segments parts e2.
          with_ok Goal (or_fail (lib.decode_url segments.0) _) e2 λ header_bytes _ e3.
            with_ok Goal (or_fail (lib.unmarshal_header header_bytes) _) e3 λ header _ e4.
              with_ok Goal
                (fail_if (not (str_eq header.algorithm "EdDSA") || not (str_eq header.type "JWT"))
                  _)
                e4
                λ _ _ e5.
                  with_ok Goal (or_fail (lib.decode_url segments.1) _) e5 λ claims_bytes claimed e6.
                    with_ok Goal (or_fail (lib.unmarshal_claims claims_bytes) _) e6
                      λ claims decoded e7.
                        with_ok Goal (or_fail (lib.decode_url segments.2) _) e7
                          λ signature signed e8. record {
                            key = key;
                            header_part = segments.0;
                            claims_part = segments.1;
                            signature_part = segments.2;
                            claims_bytes = claims_bytes;
                            signature = signature;
                            claims = claims;
                            parsed = parsed;
                            parts = three_segments-eq-ok lib (split_dots token) segments parts;
                            claimed = ground arith;
                            decoded = ground arith;
                            signed = ground arith;
                            verified = ground arith;
                            audience =
                                ground (arith, eq_iff claims.audience authorization_audience);
                            organization =
                                ground (arith, eq_iff claims.organization_id organization_id);
                            runner = ground (arith, eq_iff claims.runner_id runner_id);
                            lifetime = ground arith;
                            not_early = ground arith;
                            not_late = ground arith;
                          }
    where
      Goal : Type 0
      Goal = IsGenuine lib token public_key_pem organization_id runner_id now
