-- ===== src/Vendor/Tests.antt =====
-- Tests of the vendor check, with the reports of one finding.
use platform_orchestrator_ru.Base.{
  ok, some, none, refl, List, ◌∷◌, ◌≡◌, is_ok, ◌++◌, if◌then◌else◌, true, [], take, ◌↔◌, str_eq,
  false, map, all, err,
}
use platform_orchestrator_ru.Vendor.Values.{
  no_members, member, object, quoted, open_object, text, close_object, scalar, Members, next_value,
  JsonToken, unique_value, failed, done, atom, comma_at_end,
}
use platform_orchestrator_ru.Vendor.Report.{
  Scanner, ReviewedArtifact, ReportLibrary, check_report, read_messages, receive_message,
  check_text, as_object, receive_kind, receive_config, is_reviewed_config, has_text, text_of,
  field_of, receive_progress, receive_sbom, receive_finding, receive_osv, id_in, check_inventory,
  insert_id,
}
use platform_orchestrator_ru.Vendor.Check.{
  Policy, VendorFiles, check, check_binary, is_reviewed_release, architecture, is_small_endian_64,
}
use platform_orchestrator_ru.Vendor.Check.Reviewed.{IsDisposition, check-IsReviewed}
use platform_orchestrator_ru.Vendor.Report.Messages.{
  Message, config, values_tokens, progress, message_value, sbom, finding, is_readable, osv,
  IsInventory,
}
use platform_orchestrator_ru.Vendor.Values.Written.{value_tokens, is_well_formed}
use platform_orchestrator_ru.Vendor.Values.Exact.{next_value_iff}
use platform_orchestrator_ru.Vendor.Report.Exact.{check_report_iff}
use platform_orchestrator_ru.Runner.Json.{was_seen}
use platform_orchestrator_ru.Runner.Artifacts.{without_prefix}
use platform_orchestrator_ru.Runner.Patterns.{all_chars, is_digit}
use platform_orchestrator_ru.Executor.Scheduling.{join_lines}

abbrev scanner : Scanner
scanner = record { scanner = "govulncheck"; scanner_version = "v1.9.0" }

abbrev artifact : ReviewedArtifact
artifact = record {
  sha256 = "hash";
  go_version = "go1.27.3";
  advisories = "GO-1" ∷ [];
  finding_count = 1;
  findings_sha256 = "{}\n";
}

-- A stand-in for the encoding, and a hash that is the identity.
abbrev library : ReportLibrary
library = record {
  marshal = λ body. ok "{}";
  sort_strings = λ lines. lines;
  sha256_hex = λ content. content;
}

abbrev setup_body : Members
setup_body = member "protocol_version" (quoted "v1.0.0") (
    member "scanner_name" (quoted "govulncheck") (
      member "scanner_version" (quoted "v1.9.0") (
        member "db" (quoted "https://vuln.go.dev") (
          member "scan_mode" (quoted "binary")
            (member "scan_level" (quoted "symbol") no_members)))))

abbrev reviewed_messages : List Message
reviewed_messages =
    config setup_body
    ∷ progress (member "message" (quoted "scanning") no_members)
    ∷ sbom (member "go_version" (quoted "go1.27.3") no_members)
    ∷ finding (member "osv" (quoted "GO-1") no_members)
    ∷ osv (member "id" (quoted "GO-1") no_members)
    ∷ []

abbrev reviewed_tokens : List JsonToken
reviewed_tokens = values_tokens (map message_value reviewed_messages)

accepts_reviewed : check_report library scanner artifact reviewed_tokens ≡ ok tt
unfolding check_report read_messages next_value unique_value was_seen receive_message as_object
    receive_kind receive_config is_reviewed_config has_text text_of field_of receive_progress
    receive_sbom receive_finding receive_osv id_in check_inventory insert_id join_lines
accepts_reviewed = refl

refuses_truncated : is_ok (check_report library scanner artifact (take 30 reviewed_tokens)) ≡ false
unfolding check_report read_messages next_value unique_value was_seen receive_message as_object
    receive_kind receive_config is_reviewed_config has_text text_of field_of receive_progress
    receive_sbom receive_finding receive_osv id_in check_inventory insert_id join_lines
refuses_truncated = refl

-- An object that is cut right after a comma ends a report without an error, at any depth.
accepts_cut :
    check_report library scanner artifact (
      reviewed_tokens
      ++ open_object ∷ text "finding" ∷ open_object ∷ text "osv" ∷ text "GO-2" ∷ comma_at_end ∷ [])
    ≡ ok tt
unfolding check_report read_messages next_value unique_value was_seen receive_message as_object
    receive_kind receive_config is_reviewed_config has_text text_of field_of receive_progress
    receive_sbom receive_finding receive_osv id_in check_inventory insert_id join_lines
accepts_cut = refl

refuses_second_sbom :
    check_report library scanner artifact
      (reviewed_tokens ++ value_tokens (message_value (sbom no_members)) [])
    ≡ err "missing or changed scanner SBOM"
unfolding check_report read_messages next_value unique_value was_seen receive_message as_object
    receive_kind receive_config is_reviewed_config has_text text_of field_of receive_progress
    receive_sbom receive_finding receive_osv id_in check_inventory insert_id join_lines
refuses_second_sbom = refl

check_report_iff_example : (check_report library scanner artifact reviewed_tokens ≡ ok tt) ↔ (
    (messages : List Message) × (reviewed_tokens ≡ values_tokens (map message_value messages))
    × (all (λ m. is_readable (message_value m)) messages ≡ true)
    × IsInventory library scanner artifact messages)
check_report_iff_example = check_report_iff library scanner artifact reviewed_tokens refl

abbrev twice : List JsonToken
twice = open_object ∷ text "a" ∷ scalar "1" ∷ text "a" ∷ scalar "2" ∷ close_object ∷ []

refuses_twice : next_value twice ≡ failed "duplicate JSON object key"
unfolding next_value unique_value was_seen
refuses_twice = refl

next_value_iff_example :
    (next_value twice ≡ done (object (member "a" (atom "1") (member "a" (atom "2") no_members))) [])
    ↔ ((twice ≡ value_tokens (object (member "a" (atom "1") (member "a" (atom "2") no_members))) [])
        × (is_well_formed (object (member "a" (atom "1") (member "a" (atom "2") no_members))) 64
            ≡ true))
next_value_iff_example =
    next_value_iff twice (object (member "a" (atom "1") (member "a" (atom "2") no_members))) []

abbrev policy : Policy
policy = record {
  schema_version = 1;
  release_family = "v3.2.0";
  scanner = scanner;
  artifacts = λ arch. if str_eq arch "amd64" then some artifact else none;
}

abbrev vendor_files : VendorFiles
vendor_files = record {
  policy = some policy;
  lstat = λ path. some true;
  open_elf = λ path. some (record { machine = 62; class = 2; byte_order = 1 });
  read_file = λ path. some (1 ∷ []);
  sha256_of = λ content. "hash";
  text_in = λ content. "exit status 3\n";
  tokens_in = λ content. reviewed_tokens;
  ends_with = λ s suffix. true;
  contains = λ s part. true;
  report = library;
}

accepts_release : check vendor_files "v3.2.0-rc.1" "tofu" "text" "1" "json" ≡ ok tt
unfolding check check_binary check_text is_reviewed_release architecture is_small_endian_64
    without_prefix all_chars is_digit check_report read_messages next_value unique_value was_seen
    receive_message as_object receive_kind receive_config is_reviewed_config has_text text_of
    field_of receive_progress receive_sbom receive_finding receive_osv id_in check_inventory
    insert_id join_lines
accepts_release = refl

refuses_release : is_ok (check vendor_files "v3.2.0-rc.0" "tofu" "text" "1" "json") ≡ false
unfolding check check_binary check_text is_reviewed_release architecture is_small_endian_64
    without_prefix all_chars is_digit check_report read_messages next_value unique_value was_seen
    receive_message as_object receive_kind receive_config is_reviewed_config has_text text_of
    field_of receive_progress receive_sbom receive_finding receive_osv id_in check_inventory
    insert_id join_lines
refuses_release = refl

check-IsReviewed_example : IsDisposition vendor_files "v3.2.0-rc.1" "tofu" "text" "1" "json"
check-IsReviewed_example =
    check-IsReviewed vendor_files "v3.2.0-rc.1" "tofu" "text" "1" "json" (λ input read. refl)
      accepts_release
