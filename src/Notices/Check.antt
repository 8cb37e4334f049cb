-- ===== src/Notices/Check.antt =====
-- `check` of scripts/noticecheck/main.go.
use platform_orchestrator_ru.Base.{
  ◌>>=◌, ◌>>◌, ok, err, some, none, [], ◌∷◌, String, Bool, List, Result, is_some, ℕ, str_eq, Option,
  all, fail_if, ◌&&◌, not, or_fail, if◌then◌else◌, ◌||◌, str_append, length, false, ◌==◌, suc, code,
  zero,
}
use platform_orchestrator_ru.Notices.{
  NoticeWorld, VendorSource, same, regular, ModuleOrigin, go_command, without_prefix, WalkEntry,
  git_blob,
}
use platform_orchestrator_ru.Notices.Modules.{
  GraphModule, Declaration, parse_graph, is_hex, declared_for, listing, parse_declarations,
}
use platform_orchestrator_ru.Runner.Artifacts.{without_prefix}
use platform_orchestrator_ru.Runner.Patterns.{is_letter, is_digit}
use platform_orchestrator_ru.Notices.Receipt.{at_key, receipt}
use platform_orchestrator_ru.Runner.Diagnostics.{split_on}

abbrev pub self : String
self = "github.com/stellwerk-labs/platform-orchestrator-runner"

unfoldable pub is_license_name : (upper_name : String) → Bool
is_license_name name =
    is_some (without_prefix "LICENSE" name)
    || is_some (without_prefix "LICENCE" name)
    || is_some (without_prefix "COPYING" name)

-- `^h1:[A-Za-z0-9+/]{43}=$`
unfoldable pub is_module_sum : String → Bool
is_module_sum sum = is_rest (without_prefix "h1:" sum)
  where
    is_base64 : ℕ → Bool
    is_base64 c = is_letter c || is_digit c || c == b'+' || c == b'/'

    is_tail : ℕ → String → Bool
    is_tail zero s = str_eq s "="
    is_tail (suc n) String.[] = false
    is_tail (suc n) (String.◌∷◌ c s) = is_base64 (code c) && is_tail n s

    is_rest : Option String → Bool
    is_rest none = false
    is_rest (some s) = is_tail 43 s

module _ (w : NoticeWorld) (bundle root arch : String) where
  unfoldable pub same_all : (pairs : List (String × String)) → Result (Unit {0})
  same_all [] = ok tt
  same_all ((target, source) ∷ rest) = same w (w.join_path bundle target) source >> same_all rest

  abbrev pub authoritative : List (String × String)
  authoritative =
      ("application/LICENSE", w.join_path root "LICENSE")
      ∷ ("go/LICENSE", w.join_path w.go_root "LICENSE")
      ∷ ("go/PATENTS", w.join_path w.go_root "PATENTS")
      ∷ ("opentofu/SOURCE.json", w.join_path root "scripts/release-notices/opentofu-source.json")
      ∷ []

  unfoldable pub is_vendor_source : VendorSource → Bool
  is_vendor_source vendor =
      str_eq vendor.version "1.13.2"
      && str_eq vendor.source_commit "765062032c46cacab116b36d714db098b806dede"
      && str_eq vendor.source_url
          (str_append "https://github.com/opentofu/opentofu/tree/" vendor.source_commit)
      && length vendor.notice_sha256 == 3

  unfoldable pub check_notices : VendorSource → (names : List String) → Result (Unit {0})
  check_notices vendor [] = ok tt
  check_notices vendor (name ∷ rest) = do
    content ← regular w (w.join_path (w.join_path bundle "opentofu") name)
    fail_if (not (str_eq (w.sha256_hex content) (at_key name vendor.notice_sha256)))
        "vendor notice differs from authenticated archive"
    check_notices vendor rest

  unfoldable pub check_vendor : Result (Unit {0})
  check_vendor = do
    source ← regular w (w.join_path bundle "opentofu/SOURCE.json")
    vendor ← or_fail (w.decode_source source) "invalid vendor source binding"
    fail_if (not (is_vendor_source vendor)) "invalid vendor source binding"
    check_notices vendor ("LICENSE" ∷ "README.md" ∷ "CHANGELOG.md" ∷ [])

  -- The walk of a module's notices: whether one is found.
  unfoldable pub find_notice : List (Option WalkEntry) → (found : Bool) → Result Bool
  find_notice [] found = ok found
  find_notice (none ∷ rest) found = err "walk"
  find_notice (some entry ∷ rest) found =
      let later =
        find_notice rest (found || entry.is_regular && is_license_name (w.to_upper entry.name)) in
      if entry.is_symlink then err "symlinked module notice" else later

  unfoldable pub is_origin : GraphModule → (sums : String) → ModuleOrigin → String → Bool
  is_origin m sums origin commit =
      str_eq origin.path m.path
      && str_eq origin.version m.version
      && not origin.replaced
      && is_hex 40 commit
      && is_module_sum origin.sum
      && w.contains (str_append "\n" sums) (
          str_append "\n" (
            str_append m.path (
              str_append " " (str_append m.version (str_append " " (str_append origin.sum "\n"))))))

  abbrev pub wanted : GraphModule → Declaration → (sum commit : String) → List (String × String)
  wanted m declaration sum commit =
      ("module", m.path)
      ∷ ("version", m.version)
      ∷ ("sourceCommit", commit)
      ∷ ("moduleSum", sum)
      ∷ ("licenseBlob", declaration.blob)
      ∷ ("licenseSHA256", declaration.sha256)
      ∷ ("spdx", declaration.spdx)
      ∷ []

  unfoldable pub has_fields : (actual want : List (String × String)) → Bool
  has_fields actual want = all (λ field. str_eq (at_key field.0 actual) field.1) want

  unfoldable pub check_provenance :
      GraphModule → Declaration → (sum commit : String) → Result (Unit {0})
  check_provenance m declaration sum commit = do
    content ← regular w (w.join_path (w.join_path bundle m.path) "LICENSE.provenance")
    actual ← receipt (w.receipt_tokens content)
    fail_if (not (length actual == 7)) "provenance field set differs"
    fail_if (not (has_fields actual (wanted m declaration sum commit)))
        "declared module provenance differs"

  unfoldable pub check_declared : (sums : String) → GraphModule → Declaration → Result (Unit {0})
  check_declared sums m declaration = do
    license ← regular w (w.join_path (w.join_path bundle m.path) "LICENSE")
    fail_if
        (not (str_eq (w.sha256_hex license) declaration.sha256)
          || not (str_eq (git_blob w license) declaration.blob))
        "declared license bytes differ"
    same w (w.join_path (w.join_path bundle m.path) "LICENSE") (w.join_path m.dir "LICENSE")
    metadata ←
        go_command w root arch
          ("mod" ∷ "download" ∷ "-json" ∷ str_append m.path (str_append "@" m.version) ∷ [])
    origin ← or_fail (w.decode_origin metadata) "unverified declared module provenance"
    commit ← or_fail origin.origin_hash "unverified declared module provenance"
    fail_if (not (is_origin m sums origin commit)) "unverified declared module provenance"
    check_provenance m declaration origin.sum commit

  unfoldable pub check_if_declared :
      (sums : String) → GraphModule → Option Declaration → Result (Unit {0})
  check_if_declared sums m none = ok tt
  check_if_declared sums m (some declaration) = check_declared sums m declaration

  unfoldable pub check_module :
      (sums : String) → List (String × Declaration) → GraphModule → Result (Unit {0})
  check_module sums declared m =
      if str_eq m.path self
      then ok tt
      else find_notice (w.walk_dir (w.join_path bundle m.path)) false >>= (λ found.
        fail_if (not found) "production dependency notice missing"
        >> check_if_declared sums m (declared_for m.path declared))

  unfoldable pub check_modules :
      (sums : String) → List (String × Declaration) → List GraphModule → Result (Unit {0})
  check_modules sums declared [] = ok tt
  check_modules sums declared (m ∷ rest) =
      check_module sums declared m >> check_modules sums declared rest

  unfoldable pub check_graph : Result (List GraphModule)
  check_graph = do
    graph ← go_command w root arch (
        "list" ∷ "-mod=readonly" ∷ "-deps" ∷ "-f"
        ∷ "{{with .Module}}{{.Path}}|{{.Version}}|{{.Dir}}{{end}}" ∷ "./cmd/runner" ∷ [])
    modules ← parse_graph (split_on b'\n' graph) []
    listed ← regular w (w.join_path bundle "modules.txt")
    fail_if (not (str_eq listed (listing w.sort_strings modules)))
        "production module closure differs"
    ok modules

  unfoldable pub check_notice_closure : Result (Unit {0})
  check_notice_closure = do
    fail_if (not (str_eq arch "amd64") && not (str_eq arch "arm64")) "unsupported target"
    fail_if (not (str_eq w.go_version "go1.26.10")) "unexpected notice verifier compiler"
    same_all authoritative
    check_vendor
    target ← regular w (w.join_path bundle "target.txt")
    fail_if (not (str_eq target (str_append "linux/" (str_append arch "\n")))) "wrong notice target"
    modules ← check_graph
    declarations ←
        or_fail (w.read_file (w.join_path root "scripts/declared-licenses.tsv")) "read declarations"
    declared ← parse_declarations (split_on b'\n' declarations) []
    sums ← or_fail (w.read_file (w.join_path root "go.sum")) "read go.sum"
    check_modules sums declared modules
