-- ===== src/Runner/Artifacts.antt =====
-- internal/runner/artifact_verification.go: the check of the manifest of module artifacts. The files are
-- as they are when the check runs.
use platform_orchestrator_ru.Base.{
  ◌>>=◌, ◌>>◌, String, List, [], ◌∷◌, none, some, ℕ, Bytes, Option, Bool, if◌then◌else◌, Result,
  code, false, is_some, str_eq, ok, ◌||◌, ◌==◌, len, not, ◌&&◌, err, leb, fail_if, or_fail,
}
use platform_orchestrator_ru.Runner.Patterns.{is_digit, all_chars}
use platform_orchestrator_ru.Runner.Bundle.{is_absolute}

pub record ArtifactRequirement : Type 0 where
  pub module_id : String
  pub version : String
  pub semantic_version : String
  pub migration_generation : String
  pub source : String
  pub artifact_digest : String

pub record ArtifactManifest : Type 0 where
  pub version : ℕ
  pub artifacts : List ArtifactRequirement

pub record DownloadedModule : Type 0 where
  pub key : String
  pub source : String
  pub version : String
  pub dir : String

-- What os.ReadFile gives.
pub data FileRead : Type 0 where
  not_exist unreadable : FileRead
  contents_of : Bytes → FileRead

-- The JSON codecs, net/url's form of a file path, and the file system.
pub record ArtifactFiles : Type 0 where
  pub manifest_file : FileRead
  pub modules_file : FileRead
  pub unmarshal_manifest : Bytes → Option ArtifactManifest
  pub unmarshal_modules : Bytes → Option (List DownloadedModule)
  pub file_url : String → String
  pub is_directory : String → Bool
  pub join_path : String → String → String

unfoldable pub is_lower_hex : ℕ → Bool
is_lower_hex d = is_digit d || leb b'a' d && leb d b'f'

-- The rest of the text after a prefix.
unfoldable pub without_prefix : String → String → Option String
without_prefix String.[] s = some s
without_prefix (String.◌∷◌ c prefix) String.[] = none
without_prefix (String.◌∷◌ c prefix) (String.◌∷◌ d s) =
    let rest = without_prefix prefix s in if code c == code d then rest else none

-- `^sha256:[0-9a-f]{64}$`
unfoldable pub is_digest : String → Bool
is_digest text = matches_digest (without_prefix "sha256:" text)
  where
    matches_digest : Option String → Bool
    matches_digest none = false
    matches_digest (some digits) = len digits == 64 && all_chars is_lower_hex digits

-- The text before and after the last `@`.
unfoldable pub cut_last_at : String → Option (String × String)
cut_last_at String.[] = none
cut_last_at (String.◌∷◌ c s) = cut_at (cut_last_at s)
  where
    cut_at : Option (String × String) → Option (String × String)
    cut_at (some (before, after)) = some (String.◌∷◌ c before, after)
    cut_at none = if code c == b'@' then some (String.[], s) else none

unfoldable pub split_registry_source : String → String × String
split_registry_source source = split_at_last (cut_last_at source)
  where
    split_at_last : Option (String × String) → String × String
    split_at_last none = (source, "")
    split_at_last (some parts) =
        if is_some (without_prefix "/" source) || is_some (without_prefix "git::" source)
        then (source, "")
        else parts

module _ (files : ArtifactFiles) (root : String) where
  unfoldable pub directory_of : DownloadedModule → String
  directory_of downloaded =
      if is_absolute downloaded.dir then downloaded.dir else files.join_path root downloaded.dir

  -- The number of `artifactDirectories`, whose order nothing reads.
  unfoldable pub has_directory : (source version : String) → List DownloadedModule → Bool
  has_directory source version [] = false
  has_directory source version (downloaded ∷ rest) =
      (not (str_eq downloaded.key "")
        && str_eq downloaded.source source
        && (str_eq version "" || str_eq downloaded.version version)
        && files.is_directory (directory_of downloaded))
      || has_directory source version rest

  unfoldable pub artifact_directories : ArtifactRequirement → List DownloadedModule → Bool
  artifact_directories requirement downloaded =
      let (source, version) = split_registry_source requirement.source in
      has_directory (if is_absolute source then files.file_url source else source) version
        downloaded

  unfoldable pub check_requirement : List DownloadedModule → ArtifactRequirement → Result (Unit {0})
  check_requirement downloaded requirement =
      if str_eq requirement.migration_generation "v0"
        && (not (str_eq requirement.semantic_version "")
            || not (str_eq requirement.artifact_digest ""))
      then err "migrated v0 must not declare invented SemVer or artifact digest metadata"
      else if str_eq requirement.source "inline"
      then fail_if (not (str_eq requirement.artifact_digest ""))
          "inline source must not declare an external artifact digest"
      else if not (str_eq requirement.artifact_digest "")
          && not (is_digest requirement.artifact_digest)
      then err
          "external artifact digest must be sha256 followed by 64 lowercase hexadecimal characters"
      else fail_if (not (artifact_directories requirement downloaded))
          "artifact was not downloaded by the IaC initializer"

  unfoldable pub check_requirements :
      List DownloadedModule → List ArtifactRequirement → Result (Unit {0})
  check_requirements downloaded [] = ok tt
  check_requirements downloaded (requirement ∷ rest) = do
    check_requirement downloaded requirement
    check_requirements downloaded rest

  unfoldable pub downloaded_modules : FileRead → Result (List DownloadedModule)
  downloaded_modules not_exist = ok []
  downloaded_modules unreadable = err "read downloaded module manifest"
  downloaded_modules (contents_of bytes) =
      or_fail (files.unmarshal_modules bytes) "decode downloaded module manifest"

  unfoldable pub verify_manifest_file : FileRead → Result (Unit {0})
  verify_manifest_file not_exist = ok tt
  verify_manifest_file unreadable = err "read module artifact manifest"
  verify_manifest_file (contents_of bytes) = do
    manifest ← or_fail (files.unmarshal_manifest bytes) "decode module artifact manifest"
    fail_if (not (manifest.version == 1)) "unsupported module artifact manifest version"
    downloaded ← downloaded_modules files.modules_file
    check_requirements downloaded manifest.artifacts

  unfoldable pub verify_artifact_manifest : Result (Unit {0})
  verify_artifact_manifest = verify_manifest_file files.manifest_file
