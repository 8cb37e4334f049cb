-- ===== src/Vendor/Check.antt =====
-- `check` of scripts/vendorcheck/main.go: the whole disposition, over the files it reads.
pub mod Reviewed
use platform_orchestrator_ru.Base.{
  ok, ℕ, Option, String, Bool, Bytes, false, if◌then◌else◌, ◌==◌, Result, List, some, ◌&&◌, ◌>>=◌,
  leb, or_fail, code, ◌>>◌, fail_if, not, true, str_eq, ◌||◌, ltb, none, ◌*◌, ◌^◌, length,
}
use platform_orchestrator_ru.Vendor.Report.{
  Scanner, ReviewedArtifact, ReportLibrary, check_text, check_report,
}
use platform_orchestrator_ru.Vendor.Values.{JsonToken}
use platform_orchestrator_ru.Runner.Patterns.{all_chars, is_digit}
use platform_orchestrator_ru.Runner.Artifacts.{without_prefix}

pub record Policy : Type 0 where
  pub schema_version : ℕ
  pub release_family : String
  pub scanner : Scanner
  pub artifacts : String → Option ReviewedArtifact

pub record ElfHeader : Type 0 where
  pub machine : ℕ
  pub class : ℕ
  pub byte_order : ℕ

-- The embedded policy, the files, `os.Lstat` with whether the file is regular, debug/elf, SHA-256 in
-- hexadecimal, and the tokens of a json.Decoder over a file.
pub record VendorFiles : Type 0 where
  pub policy : Option Policy
  pub lstat : String → Option Bool
  pub open_elf : String → Option ElfHeader
  pub read_file : String → Option Bytes
  pub sha256_of : Bytes → String
  pub text_in : Bytes → String
  pub tokens_in : Bytes → List JsonToken
  pub ends_with : String → String → Bool
  pub contains : String → String → Bool
  pub report : ReportLibrary

-- `^v3\.2\.0(-rc\.[1-9][0-9]*)?$`
unfoldable pub is_reviewed_release : String → Bool
is_reviewed_release release = is_family (without_prefix "v3.2.0" release)
  where
    is_candidate : Option String → Bool
    is_candidate none = false
    is_candidate (some String.[]) = false
    is_candidate (some (String.◌∷◌ c s)) =
        leb b'1' (code c) && leb (code c) b'9' && all_chars is_digit s

    is_family : Option String → Bool
    is_family none = false
    is_family (some String.[]) = true
    is_family (some (String.◌∷◌ c s)) = is_candidate (without_prefix "-rc." (String.◌∷◌ c s))

-- The name of EM_X86_64 and of EM_AARCH64, empty for another machine.
unfoldable pub architecture : (machine : ℕ) → String
architecture machine = if machine == 62 then "amd64" else if machine == 183 then "arm64" else ""

unfoldable pub is_small_endian_64 : ElfHeader → Bool
is_small_endian_64 f = f.class == 2 && f.byte_order == 1

module _ (files : VendorFiles) where
  unfoldable pub check_binary : Policy → (binary : String) → Result ReviewedArtifact
  check_binary p binary = do
    regular ← or_fail (files.lstat binary) "vendor executable must be a regular file"
    fail_if (not regular) "vendor executable must be a regular file"
    f ← or_fail (files.open_elf binary) "open ELF"
    want ← or_fail (p.artifacts (architecture f.machine)) "unreviewed ELF platform"
    fail_if (not (is_small_endian_64 f)) "unreviewed ELF platform"
    input ← or_fail (files.read_file binary) "open vendor executable"
    fail_if (not (str_eq (files.sha256_of input) want.sha256))
        "official vendor executable hash differs"
    ok want

  unfoldable pub check : (release binary text_path text_exit json_path : String) → Result (Unit {0})
  check release binary text_path text_exit json_path = do
    p ← or_fail files.policy "decode policy"
    fail_if
        (not (p.schema_version == 1)
          || not (str_eq p.release_family "v3.2.0")
          || not (is_reviewed_release release))
        "release is outside the reviewed v3.2.0 family"
    want ← check_binary p binary
    text ← or_fail (files.read_file text_path) "read text report"
    check_text files.ends_with files.contains (files.text_in text) text_exit
    input ← or_fail (files.read_file json_path) "read scanner report"
    fail_if (ltb (32 * 2 ^ 20) (length input)) "scanner report exceeds bound"
    check_report files.report p.scanner want (files.tokens_in input)
