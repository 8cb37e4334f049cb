-- ===== src/Vendor/Check/Reviewed.antt =====
-- What the vendor check has found when it accepts a release (scripts/vendorcheck/main.go).
use platform_orchestrator_ru.Base.{
  with_ok, fail_if-ok, or_fail-some, ok, String, ◌≡◌, Bytes, or_fail, some, List, fail_if, true,
  not, length, ◌==◌, ◌≤◌, str_eq, ◌||◌, ok-injective, ltb, map, ◌∙◌, ◌*◌, ap, ◌^◌, all, not-not,
  eq_iff, Bool, arith, false, refl,
}
use platform_orchestrator_ru.Vendor.Report.{check_text, ReviewedArtifact}
use platform_orchestrator_ru.Vendor.Check.{
  VendorFiles, Policy, check_binary, check, check_text, ReviewedArtifact, ElfHeader,
  is_reviewed_release, is_small_endian_64, architecture,
}
use platform_orchestrator_ru.Vendor.Values.Ends.{is_whole}
use platform_orchestrator_ru.Vendor.Report.Messages.{
  Message, values_tokens, message_value, is_readable, IsInventory,
}
use platform_orchestrator_ru.Vendor.Report.Exact.{check_report_iff}

three_true : (a b c : Bool) → not a || not b || not c ≡ false → (a ≡ true) × (b ≡ true) × (c ≡ true)
three_true true true true h = (refl, refl, refl)
three_true true true false h = cc
three_true true false c h = cc
three_true false b c h = cc

-- The executable is a regular file for a reviewed 64-bit platform, with the reviewed hash.
abbrev IsReviewedBinary : VendorFiles → Policy → (binary : String) → ReviewedArtifact → Type 0
IsReviewedBinary files p binary want =
    (f : ElfHeader) × (input : Bytes) × (files.lstat binary ≡ some true)
    × (files.open_elf binary ≡ some f)
    × (is_small_endian_64 f ≡ true)
    × (p.artifacts (architecture f.machine) ≡ some want)
    × (files.read_file binary ≡ some input)
    × (files.sha256_of input ≡ want.sha256)

-- The report is at most 32 MiB, and it is the inventory of the artifact.
abbrev IsReviewedReport : VendorFiles → Policy → (json_path : String) → ReviewedArtifact → Type 0
IsReviewedReport files p json_path want =
    (input : Bytes) × (messages : List Message) × (files.read_file json_path ≡ some input)
    × (length input ≤ 33554432)
    × (files.tokens_in input ≡ values_tokens (map message_value messages))
    × (all (λ m. is_readable (message_value m)) messages ≡ true)
    × IsInventory files.report p.scanner want messages

-- The release is of the family v3.2.0, the executable and the report are the reviewed ones, and the text
-- report ends with the known status of the scanner.
abbrev pub IsDisposition :
    VendorFiles → (release binary text_path text_exit json_path : String) → Type 0
IsDisposition files release binary text_path text_exit json_path =
    (p : Policy) × (want : ReviewedArtifact) × (text : Bytes) × (files.policy ≡ some p)
    × (is_reviewed_release release ≡ true)
    × IsReviewedBinary files p binary want
    × (files.read_file text_path ≡ some text)
    × (text_exit ≡ "1")
    × (files.ends_with (files.text_in text) "exit status 3\n" ≡ true)
    × (files.contains (files.text_in text) "=== Symbol Results ===" ≡ true)
    × IsReviewedReport files p json_path want

module _ (files : VendorFiles) where
  binary_reviewed :
      (p : Policy) (binary : String) (want : ReviewedArtifact)
      → check_binary files p binary ≡ ok want
      → IsReviewedBinary files p binary want
  unfolding check_binary
  binary_reviewed p binary want h =
      with_ok _ (or_fail (files.lstat binary) "vendor executable must be a regular file") h
        λ regular e h1.
          with_ok _ (fail_if (not regular) "vendor executable must be a regular file") h1 λ u e1 h2.
            with_ok _ (or_fail (files.open_elf binary) "open ELF") h2 λ f e2 h3.
              with_ok _ (or_fail (p.artifacts (architecture f.machine)) "unreviewed ELF platform")
                h3
                λ found e3 h4.
                  with_ok _ (fail_if (not (is_small_endian_64 f)) "unreviewed ELF platform") h4
                    λ u' e4 h5.
                      with_ok _ (or_fail (files.read_file binary) "open vendor executable") h5
                        λ input e5 h6.
                          with_ok _
                            (fail_if (not (str_eq (files.sha256_of input) found.sha256))
                              "official vendor executable hash differs")
                            h6
                            λ u'' e6 same.
                              let want_is = ok-injective same in
                              (
                                f,
                                input,
                                or_fail-some _ _ e ∙ ap some (not-not _ (fail_if-ok _ _ e1)),
                                or_fail-some _ _ e2,
                                not-not _ (fail_if-ok _ _ e4),
                                or_fail-some _ _ e3 ∙ ap some want_is,
                                or_fail-some _ _ e5,
                                (eq_iff _ _).0 (not-not _ (fail_if-ok _ _ e6))
                                    ∙ ap (λ w. w.sha256) want_is,
                              )

  -- When the check accepts a release whose JSON report does not end right after a comma, its name is of the family v3.2.0, the executable is a regular
  -- file for a reviewed platform with the hash of the policy, the text report ends with the known
  -- status, and the JSON report is at most 32 MiB and the reviewed
  -- inventory.
  pub check-IsReviewed :
      (release binary text_path text_exit json_path : String)
      → ((input : Bytes)
          → files.read_file json_path ≡ some input
          → is_whole (files.tokens_in input) ≡ true)
      → check files release binary text_path text_exit json_path ≡ ok tt
      → IsDisposition files release binary text_path text_exit json_path
  unfolding check check_text
  check-IsReviewed release binary text_path text_exit json_path whole h =
      with_ok _ (or_fail files.policy "decode policy") h λ p e h1.
        with_ok _
          (fail_if
            (not (p.schema_version == 1)
              || not (str_eq p.release_family "v3.2.0")
              || not (is_reviewed_release release))
            "release is outside the reviewed v3.2.0 family")
          h1
          λ u e1 h2. with_ok _ (check_binary files p binary) h2 λ want e2 h3.
            with_ok _ (or_fail (files.read_file text_path) "read text report") h3 λ text e3 h4.
              with_ok _ (check_text files.ends_with files.contains (files.text_in text) text_exit)
                h4
                λ u' e4 h5.
                  with_ok _ (or_fail (files.read_file json_path) "read scanner report") h5
                    λ input e5 h6.
                      with_ok _
                        (fail_if (ltb (32 * 2 ^ 20) (length input)) "scanner report exceeds bound")
                        h6
                        λ u'' e6 h7.
                          let (messages, tokens_are, readable, inventory) =
                            (check_report_iff files.report p.scanner want (files.tokens_in input)
                                (whole input (or_fail-some _ _ e5))).0
                              h7 in
                          let (status, ended, shown) =
                            three_true (str_eq text_exit "1")
                              (files.ends_with (files.text_in text) "exit status 3\n")
                              (files.contains (files.text_in text) "=== Symbol Results ===")
                              (fail_if-ok _ _ e4) in
                          let (schema, family, named) =
                            three_true (p.schema_version == 1) (str_eq p.release_family "v3.2.0")
                              (is_reviewed_release release) (fail_if-ok _ _ e1) in
                          (
                            p,
                            want,
                            text,
                            or_fail-some _ _ e,
                            named,
                            binary_reviewed p binary want e2,
                            or_fail-some _ _ e3,
                            (eq_iff text_exit "1").0 status,
                            ended,
                            shown,
                            (
                              input,
                              messages,
                              or_fail-some _ _ e5,
                              ground (arith, fail_if-ok _ _ e6),
                              tokens_are,
                              readable,
                              inventory,
                            ),
                          )
