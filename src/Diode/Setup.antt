-- ===== src/Diode/Setup.antt =====
-- The set-up of the relay: `loadPrivateKey`, `loadPublicKey`, `requireAbsolutePaths`, `readSequence` and
-- the defaults of `RunImporter` (internal/diode/relay.go). A file that cannot be read is `none`.
use platform_orchestrator_ru.Base.{
  ℕ, String, Bytes, List, [], ◌∷◌, Option, Result, ok, err, Bool, or_fail, fail_if, ◌>>=◌, ◌>>◌,
  not, if◌then◌else◌, all, str_eq,
}
use platform_orchestrator_ru.GatewayApi.Token.{ParsedKey, PemBlock, ed25519, other_key}

-- The file system, encoding/pem, crypto/x509, path/filepath and strconv.
pub record SetupLibrary : Type 0 where
  pub read_file : String → Option Bytes
  pub exists : String → Bool
  pub pem_decode : Bytes → Option PemBlock
  pub parse_pkcs8_private_key : Bytes → Option ParsedKey
  pub parse_pkix_public_key : Bytes → Option ParsedKey
  pub is_abs : String → Bool
  pub join : String → String → String
  pub parse_uint : Bytes → Option ℕ

abbrev only_ed25519 : ParsedKey → String → Result Bytes
only_ed25519 (ed25519 key) message = ok key
only_ed25519 other_key message = err message

pub record ImportPaths : Type 0 where
  pub input_dir : String
  pub processed_dir : String
  pub quarantine_dir : String
  pub ledger_path : String
  pub verify_key : String

module _ (lib : SetupLibrary) where
  unfoldable pub load_private_key : String → Result Bytes
  load_private_key path = do
    contents ← or_fail (lib.read_file path) "read signing key"
    block ← or_fail (lib.pem_decode contents) "signing key is not PEM"
    parsed ← or_fail (lib.parse_pkcs8_private_key block.bytes) "parse signing key"
    only_ed25519 parsed "signing key is not Ed25519"

  unfoldable pub load_public_key : String → Result Bytes
  load_public_key path = do
    contents ← or_fail (lib.read_file path) "read verification key"
    block ← or_fail (lib.pem_decode contents) "verification key is not PEM"
    parsed ← or_fail (lib.parse_pkix_public_key block.bytes) "parse verification key"
    only_ed25519 parsed "verification key is not Ed25519"

  unfoldable pub require_absolute_paths : List String → Result (Unit {0})
  require_absolute_paths paths = fail_if (not (all lib.is_abs paths)) "diode paths must be absolute"

  -- A missing ledger stands for 0; `parse_uint` trims the spaces and quotes.
  unfoldable pub read_sequence : String → Result ℕ
  read_sequence path =
      if not (lib.exists path)
      then ok 0
      else (or_fail (lib.read_file path) "read sequence" >>= λ contents.
          or_fail (lib.parse_uint contents) "parse sequence")

  -- The paths that `RunImporter` goes on with, and its key.
  unfoldable pub prepare_importer : ImportPaths → Result (ImportPaths × Bytes)
  prepare_importer paths = do
    require_absolute_paths (
        paths.input_dir
        ∷ paths.processed_dir
        ∷ paths.ledger_path
        ∷ paths.verify_key
        ∷ given paths.quarantine_dir)
    key ← load_public_key paths.verify_key
    ok (record paths { quarantine_dir = quarantine paths }, key)
    where
      given : String → List String
      given path = if str_eq path "" then [] else path ∷ []

      quarantine : ImportPaths → String
      quarantine paths =
          if str_eq paths.quarantine_dir ""
          then lib.join paths.processed_dir "quarantine"
          else paths.quarantine_dir
