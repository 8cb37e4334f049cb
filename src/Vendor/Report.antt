-- ===== src/Vendor/Report.antt =====
-- scripts/vendorcheck/main.go: the scanner's reports, as `checkText` and `checkReport` read them.
pub mod Messages
pub mod Steps
pub mod Phases
pub mod Runs
pub mod Taken
pub mod Reading
pub mod Accepted
pub mod Exact
use platform_orchestrator_ru.Base.{
  ok, Result, String, ℕ, Option, List, ◌>>◌, none, some, Bool, if◌then◌else◌, ◌∷◌, fail_if, ◌>>=◌,
  str_eq, false, str_append, not, ◌&&◌, or_fail, ◌==◌, err, suc, ◌||◌, is_some, length, [], is_nil,
  ◌++◌, all, zero,
}
use platform_orchestrator_ru.Vendor.Values.{
  no_members, eof, failed, done, Value, Members, object, member, JsonToken, quoted, next_value,
}
use platform_orchestrator_ru.Runner.Json.{was_seen}
use platform_orchestrator_ru.Executor.Scheduling.{join_lines}

pub record ReviewedArtifact : Type 0 where
  pub sha256 : String
  pub go_version : String
  pub advisories : List String
  pub finding_count : ℕ
  pub findings_sha256 : String

-- The part of the policy that a report is compared with, besides the artifact.
pub record Scanner : Type 0 where
  pub scanner : String
  pub scanner_version : String

-- `json.Marshal` of a map, `sort.Strings`, and SHA-256 in hexadecimal.
pub record ReportLibrary : Type 0 where
  pub marshal : Members → Result String
  pub sort_strings : List String → List String
  pub sha256_hex : String → String

-- What `checkReport` has counted so far; `ids` and `osvs` are the keys of its two maps.
pub record ReportState : Type 0 where
  pub configs : ℕ
  pub sboms : ℕ
  pub findings : List String
  pub ids : List String
  pub osvs : List String

unfoldable pub field_of : String → Members → Option Value
field_of name no_members = none
field_of name (member key v ms) =
    let later = field_of name ms in if str_eq name key then some v else later

unfoldable pub text_of : Option Value → Option String
text_of (some (quoted s)) = some s
text_of _ = none

-- `body[name] == expected`
unfoldable pub has_text : Members → (name expected : String) → Bool
has_text body name expected = is_same (text_of (field_of name body))
  where
    is_same : Option String → Bool
    is_same none = false
    is_same (some s) = str_eq s expected

-- `id, ok := body[name].(string)`, `ok && id != ""`
unfoldable pub id_in : Members → (name : String) → Option String
id_in body name = nonempty (text_of (field_of name body))
  where
    nonempty : Option String → Option String
    nonempty none = none
    nonempty (some String.[]) = none
    nonempty (some (String.◌∷◌ c s)) = some (String.◌∷◌ c s)

unfoldable pub insert_id : String → List String → List String
insert_id id ids = if was_seen id ids then ids else id ∷ ids

unfoldable pub as_object : Value → Option Members
as_object (object ms) = some ms
as_object _ = none

-- go run gives the scanner's exit 3 as 1. `ends_with` and `contains` are `bytes`' functions.
unfoldable pub check_text :
    (ends_with contains : String → String → Bool) → (text status : String) → Result (Unit {0})
check_text ends_with contains text status =
    fail_if
      (not (str_eq status "1")
        || not (ends_with text "exit status 3\n")
        || not (contains text "=== Symbol Results ==="))
      "text scanner did not finish with its known finding status"

unfoldable pub is_reviewed_config : Scanner → Members → Bool
is_reviewed_config p body =
    has_text body "protocol_version" "v1.0.0"
    && has_text body "scanner_name" p.scanner
    && has_text body "scanner_version" p.scanner_version
    && has_text body "db" "https://vuln.go.dev"
    && has_text body "scan_mode" "binary"
    && has_text body "scan_level" "symbol"

module _ (lib : ReportLibrary) (p : Scanner) (want : ReviewedArtifact) where
  unfoldable pub receive_config : Members → ReportState → Result ReportState
  receive_config body s = do
    fail_if
        (not (suc s.configs == 1)
          || not (s.sboms == 0)
          || not (is_nil s.findings)
          || not (is_reviewed_config p body))
        "unreviewed scanner configuration"
    ok (record s { configs = suc s.configs })

  unfoldable pub receive_sbom : Members → ReportState → Result ReportState
  receive_sbom body s = do
    fail_if
        (not (s.configs == 1)
          || not (suc s.sboms == 1)
          || not (has_text body "go_version" want.go_version))
        "missing or changed scanner SBOM"
    ok (record s { sboms = suc s.sboms })

  unfoldable pub receive_finding : Members → ReportState → Result ReportState
  receive_finding body s = do
    id ← or_fail (id_in body "osv") "malformed scanner finding"
    fail_if (not (s.configs == 1) || not (s.sboms == 1)) "malformed scanner finding"
    finding ← lib.marshal body
    ok (record s { ids = insert_id id s.ids; findings = s.findings ++ finding ∷ [] })

  unfoldable pub receive_osv : Members → ReportState → Result ReportState
  receive_osv body s = do
    id ← or_fail (id_in body "id") "malformed advisory record"
    ok (record s { osvs = insert_id id s.osvs })

  unfoldable pub receive_progress : Members → ReportState → Result ReportState
  receive_progress body s = do
    fail_if (not (is_some (text_of (field_of "message" body)))) "malformed scanner progress"
    ok s

  unfoldable pub receive_kind : (kind : String) → Members → ReportState → Result ReportState
  receive_kind kind body s =
      if str_eq kind "config"
      then receive_config body s
      else if str_eq kind "SBOM"
      then receive_sbom body s
      else if str_eq kind "finding"
      then receive_finding body s
      else if str_eq kind "osv"
      then receive_osv body s
      else if str_eq kind "progress"
      then receive_progress body s
      else err "unknown scanner message"

  unfoldable pub receive_message : ReportState → Value → Result ReportState
  receive_message s (object (member kind value no_members)) = do
    fail_if (s.configs == 0 && not (str_eq kind "config")) "scanner configuration must be first"
    body ← or_fail (as_object value) "malformed scanner message body"
    receive_kind kind body s
  receive_message s _ = err "malformed scanner message"

  -- The loop, on fuel: every message takes a token.
  unfoldable pub read_messages : (fuel : ℕ) → ReportState → List JsonToken → Result ReportState
  read_messages zero s tokens = err "out of fuel"
  read_messages (suc fuel) s tokens = elim (next_value tokens) [
    | eof ↦ ok s
    | failed message ↦ err message
    | done v rest ↦ receive_message s v >>= (λ s'. read_messages fuel s' rest)
  ]

  unfoldable pub check_inventory : ReportState → Result (Unit {0})
  check_inventory s = do
    fail_if
        (not (s.configs == 1)
          || not (s.sboms == 1)
          || not (length s.findings == want.finding_count)
          || not (length s.ids == length want.advisories))
        "incomplete or changed finding inventory"
    fail_if (not (all (λ id. was_seen id s.ids && was_seen id s.osvs) want.advisories))
        "missing reviewed advisory"
    fail_if
        (not (
          str_eq (lib.sha256_hex (str_append (join_lines (lib.sort_strings s.findings)) "\n"))
            want.findings_sha256))
        "finding tuples differ from the reviewed inventory"
    ok tt

  unfoldable pub check_report : List JsonToken → Result (Unit {0})
  check_report tokens = do
    s ←
        read_messages (suc (length tokens))
          (record { configs = 0; sboms = 0; findings = []; ids = []; osvs = [] }) tokens
    check_inventory s
