-- ===== src/Notices/Tests.antt =====
-- A run of the check of the notices on a release with one declared module.
use platform_orchestrator_ru.Base.{
  ok, err, some, ◌∷◌, [], refl, true, false, String, str_append, if◌then◌else◌, str_eq, ◌≡◌,
}
use platform_orchestrator_ru.Vendor.Values.{text, scalar, open_object, close_object}
use platform_orchestrator_ru.Notices.{
  NoticeWorld, command_environment, set_variable, without_variable, same, without_prefix, regular,
  go_command, git_blob,
}
use platform_orchestrator_ru.Notices.Receipt.{receipt, receipt_fields, lookup, at_key}
use platform_orchestrator_ru.Notices.Check.{
  check_notice_closure, same_all, check_vendor, is_vendor_source, check_notices, check_graph,
  check_modules, check_module, find_notice, is_license_name, check_if_declared, check_declared,
  is_origin, is_module_sum, check_provenance, has_fields,
}
use platform_orchestrator_ru.Notices.Closure.{IsClosed, check_notice_closure-IsClosed}
use platform_orchestrator_ru.Runner.Artifacts.{without_prefix, is_lower_hex}
use platform_orchestrator_ru.Runner.Diagnostics.{split_on}
use platform_orchestrator_ru.Runner.Bundle.{extend_first}
use platform_orchestrator_ru.Notices.Modules.{
  parse_graph, graph_module, set_module, listing, join_with, parse_declarations, is_comment,
  declaration_in, declared_for, is_hex,
}
use platform_orchestrator_ru.Runner.Patterns.{all_chars, is_digit, is_letter}

abbrev sixty_four : String
sixty_four = "0123456789abcdef0123456789abcdef0123456789abcdef0123456789abcdef"

abbrev forty : String
forty = "0123456789abcdef0123456789abcdef01234567"

abbrev module_sum : String
module_sum = "h1:0123456789012345678901234567890123456789012="

abbrev file_at : String → String
file_at path =
    if str_eq path "b/target.txt"
    then "linux/amd64\n"
    else if str_eq path "b/modules.txt"
    then "m|v1\n"
    else if str_eq path "r/scripts/declared-licenses.tsv"
    then str_append "# header\nm|EUPL-1.2|"
        (str_append sixty_four (str_append "|" (str_append forty "\n")))
    else "license"

-- The hashes are constants, and every file is regular.
abbrev notices : NoticeWorld
notices = record {
  lstat = λ path. some true;
  read_file = λ path. some (file_at path);
  walk_dir = λ path. some (record { name = "LICENSE"; is_symlink = false; is_regular = true }) ∷ [];
  go = λ root environment arguments. some "m|v1|d\n\n";
  environ = "GOFLAGS=-x" ∷ "HOME=/" ∷ [];
  go_version = "go1.26.10";
  go_root = "g";
  join_path = λ a b. str_append a (str_append "/" b);
  to_upper = λ s. s;
  sort_strings = λ lines. lines;
  sha256_hex = λ content. sixty_four;
  sha1_hex = λ content. forty;
  format_number = λ n. "7";
  decode_source = λ content. some (record {
    version = "1.13.2";
    source_commit = "765062032c46cacab116b36d714db098b806dede";
    source_url =
        "https://github.com/opentofu/opentofu/tree/765062032c46cacab116b36d714db098b806dede";
    notice_sha256 =
        ("LICENSE", sixty_four) ∷ ("README.md", sixty_four) ∷ ("CHANGELOG.md", sixty_four) ∷ [];
  });
  decode_origin = λ content. some (record {
    path = "m";
    version = "v1";
    sum = module_sum;
    replaced = false;
    origin_hash = some forty;
  });
  receipt_tokens = λ content.
      open_object
      ∷ text "module"
      ∷ text "m"
      ∷ text "version"
      ∷ text "v1"
      ∷ text "sourceCommit"
      ∷ text forty
      ∷ text "moduleSum"
      ∷ text module_sum
      ∷ text "licenseBlob"
      ∷ text forty
      ∷ text "licenseSHA256"
      ∷ text sixty_four
      ∷ text "spdx"
      ∷ text "EUPL-1.2"
      ∷ close_object
      ∷ [];
  contains = λ text part. true;
}

environment_lem :
    command_environment "amd64" notices.environ
    ≡ "HOME=/" ∷ "GOOS=linux" ∷ "GOARCH=amd64" ∷ "CGO_ENABLED=0" ∷ "GOWORK=off" ∷ "GOENV=off"
      ∷ "GOTOOLCHAIN=go1.26.10" ∷ "GOFLAGS=" ∷ "GOEXPERIMENT=" ∷ []
unfolding command_environment set_variable without_variable without_prefix
environment_lem = refl

refuses_twice_named :
    receipt (open_object ∷ text "a" ∷ text "b" ∷ text "a" ∷ scalar "null" ∷ close_object ∷ [])
    ≡ err "duplicate provenance key"
unfolding receipt receipt_fields lookup
refuses_twice_named = refl

accepts_closure : check_notice_closure notices "b" "r" "amd64" ≡ ok tt
unfolding check_notice_closure same_all same regular check_vendor is_vendor_source check_notices
    at_key lookup check_graph go_command command_environment set_variable without_variable
    without_prefix split_on extend_first parse_graph graph_module set_module listing join_with
    parse_declarations is_comment declaration_in declared_for is_hex all_chars is_lower_hex is_digit
    is_letter check_modules check_module find_notice is_license_name check_if_declared
    check_declared git_blob is_origin is_module_sum check_provenance receipt receipt_fields
    has_fields
accepts_closure = refl

check_notice_closure-IsClosed_example : IsClosed notices "b" "r" "amd64"
check_notice_closure-IsClosed_example =
    check_notice_closure-IsClosed notices "b" "r" "amd64" accepts_closure
