-- ===== src/Notices/Verified.antt =====
-- What the check of the notices has found of the modules (scripts/noticecheck/main.go).
use platform_orchestrator_ru.Base.{
  with_ok, fail_if-ok, ok, inl, inr, some, none, ◌∷◌, [], String, List, ◌≡◌, Option, true, or_fail,
  eq_iff, map, fail_if, not-not, Bool, All, all, not, any, ◌∙◌, ◌||◌, both_true, str_eq, ◌&&◌,
  length, ap, ok-injective, str_append, false, Bool-cases, ◌==◌, refl, arith, Option-cases,
  or_fail-some,
}
use mathlib.Core.Bool.{or_comm}
use platform_orchestrator_ru.Notices.{NoticeWorld, regular, same, WalkEntry, git_blob, go_command}
use platform_orchestrator_ru.Notices.Modules.{GraphModule, Declaration, declared_for}
use platform_orchestrator_ru.Notices.Check.{
  find_notice, has_fields, check_declared, self, check_provenance, is_origin, is_license_name,
  wanted, check_module, check_modules, check_if_declared,
}
use platform_orchestrator_ru.Notices.Receipt.{at_key, receipt}
use platform_orchestrator_ru.Notices.Regular.{
  or_split, HasReceipt, IsDeclared, IsNoticed, regular-IsRegular, two_true, same-IsRegular,
}

module _ (w : NoticeWorld) (bundle root arch : String) where
  found_more :
      (walk : List (Option WalkEntry)) (found : Bool)
      → find_notice w bundle root arch walk found ≡ ok true
      → (entries : List WalkEntry) × (walk ≡ map some entries)
        × (all (λ entry. not entry.is_symlink) entries ≡ true)
        × (found
              || any (λ entry. entry.is_regular && is_license_name (w.to_upper entry.name)) entries
            ≡ true)
  unfolding find_notice
  found_more [] found h = ([], refl, refl, or_comm found false ∙ ok-injective h)
  found_more (none ∷ rest) found h = cc
  found_more (some entry ∷ rest) found h = elim (Bool-cases entry.is_symlink) [
    | inl link ↦ absurd (cc (rw link at h))
    | inr plain ↦
        let (entries, walk_is, plains, seen) = found_more rest _ (rw plain at h) in
        (
          entry ∷ entries,
          ap (◌∷◌ (some entry)) walk_is,
          rw plain plains,
          or_split found (entry.is_regular && is_license_name (w.to_upper entry.name)) _ seen,
        )
  ]

  fields_lem :
      (actual want : List (String × String))
      → has_fields w bundle root arch actual want ≡ true
      → All (λ field. at_key field.0 actual ≡ field.1) want
  unfolding has_fields
  fields_lem actual [] h = tt
  fields_lem actual (field ∷ rest) h =
      let (here, later) = both_true _ _ h in ((eq_iff _ _).0 here, fields_lem actual rest later)

  provenance_lem :
      (m : GraphModule) (declaration : Declaration) (sum commit : String)
      → check_provenance w bundle root arch m declaration sum commit ≡ ok tt
      → HasReceipt w bundle root arch m declaration sum commit
  unfolding check_provenance
  provenance_lem m declaration sum commit h =
      let path = w.join_path (w.join_path bundle m.path) "LICENSE.provenance" in
      with_ok _ (regular w path) h λ content e h1.
        with_ok _ (receipt (w.receipt_tokens content)) h1 λ actual e1 h2.
          with_ok _ (fail_if (not (length actual == 7)) "provenance field set differs") h2
            λ u e2 h3. (
              content,
              actual,
              regular-IsRegular w bundle root arch path content e,
              e1,
              ground (arith, fail_if-ok _ _ e2),
              fields_lem actual (wanted w bundle root arch m declaration sum commit)
                  (not-not _ (fail_if-ok _ _ h3)),
            )

  declared_lem :
      (sums : String) (m : GraphModule) (declaration : Declaration)
      → check_declared w bundle root arch sums m declaration ≡ ok tt
      → IsDeclared w bundle root arch sums m declaration
  unfolding check_declared
  declared_lem sums m declaration h =
      let path = w.join_path (w.join_path bundle m.path) "LICENSE" in
      with_ok _ (regular w path) h λ license e h1.
        with_ok _
          (fail_if
            (not (str_eq (w.sha256_hex license) declaration.sha256)
              || not (str_eq (git_blob w license) declaration.blob))
            "declared license bytes differ")
          h1
          λ u e1 h2. with_ok _ (same w path (w.join_path m.dir "LICENSE")) h2 λ u1 e2 h3.
            with_ok _
              (go_command w root arch
                ("mod" ∷ "download" ∷ "-json" ∷ str_append m.path (str_append "@" m.version) ∷ []))
              h3
              λ metadata e3 h4.
                with_ok _
                  (or_fail (w.decode_origin metadata) "unverified declared module provenance") h4
                  λ origin e4 h5.
                    with_ok _ (or_fail origin.origin_hash "unverified declared module provenance")
                      h5
                      λ commit e5 h6.
                        with_ok _
                          (fail_if (not (is_origin w bundle root arch m sums origin commit))
                            "unverified declared module provenance")
                          h6
                          λ u2 e6 h7.
                            let (hash, blob) =
                              two_true (str_eq (w.sha256_hex license) declaration.sha256)
                                (str_eq (git_blob w license) declaration.blob)
                                (fail_if-ok _ _ e1) in
                            (
                              license,
                              metadata,
                              origin,
                              commit,
                              regular-IsRegular w bundle root arch path license e,
                              (eq_iff _ _).0 hash,
                              (eq_iff _ _).0 blob,
                              same-IsRegular w bundle root arch path (w.join_path m.dir "LICENSE")
                                  license e2 e,
                              e3,
                              or_fail-some (w.decode_origin metadata) _ e4,
                              or_fail-some origin.origin_hash _ e5,
                              not-not _ (fail_if-ok _ _ e6),
                              provenance_lem m declaration origin.sum commit h7,
                            )

  module_lem :
      (sums : String) (declared : List (String × Declaration)) (m : GraphModule)
      → check_module w bundle root arch sums declared m ≡ ok tt
      → IsNoticed w bundle root arch sums declared m
  unfolding check_module check_if_declared
  module_lem sums declared m h = elim (Bool-cases (str_eq m.path self)) [
    | inl own ↦ inl ((eq_iff _ _).0 own)
    | inr other ↦
        with_ok _ (find_notice w bundle root arch (w.walk_dir (w.join_path bundle m.path)) false)
          (rw other at h)
          λ found e h1.
            with_ok _ (fail_if (not found) "production dependency notice missing") h1 λ u e1 h2.
              let notice = found_more _ false (e ∙ ap ok (not-not _ (fail_if-ok _ _ e1))) in
              inr (
                notice,
                elim (Option-cases (declared_for m.path declared)) [
                  | inl absent ↦ inl absent
                  | inr (declaration, found_one) ↦
                      inr (
                        declaration,
                        found_one,
                        declared_lem sums m declaration (rw found_one at h2),
                      )
                ],
              )
  ]

  pub modules_lem :
      (sums : String) (declared : List (String × Declaration)) (modules : List GraphModule)
      → check_modules w bundle root arch sums declared modules ≡ ok tt
      → All (IsNoticed w bundle root arch sums declared) modules
  unfolding check_modules
  modules_lem sums declared [] h = tt
  modules_lem sums declared (m ∷ rest) h =
      with_ok _ (check_module w bundle root arch sums declared m) h
        λ u e h1. (module_lem sums declared m e, modules_lem sums declared rest h1)
