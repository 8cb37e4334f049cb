-- ===== src/Notices/Closure.antt =====
-- What the check of the notices has found of the whole release (scripts/noticecheck/main.go).
use platform_orchestrator_ru.Base.{
  with_ok, fail_if-ok, or_fail-some, ok, some, ◌∷◌, [], String, List, ◌≡◌, All, fail_if, not,
  str_append, str_eq, ◌&&◌, eq_iff, not-not, subst, ◌∙◌, ap, ok-injective, or_fail,
}
use platform_orchestrator_ru.Notices.{NoticeWorld, regular, same, go_command}
use platform_orchestrator_ru.Notices.Verified.{modules_lem}
use platform_orchestrator_ru.Notices.Regular.{
  IsRegular, regular-IsRegular, same-IsRegular, IsNoticed,
}
use platform_orchestrator_ru.Notices.Check.{
  same_all, check_graph, check_notice_closure, authoritative, check_vendor,
}
use platform_orchestrator_ru.Notices.Modules.{
  GraphModule, Declaration, listing, parse_graph, parse_declarations,
}
use platform_orchestrator_ru.Runner.Diagnostics.{split_on}

module _ (w : NoticeWorld) (bundle root arch : String) where
  -- The notices that come with the program, Go and OpenTofu are regular files with the contents of their
  -- sources.
  abbrev pub IsAuthentic : String × String → Type 0
  IsAuthentic (target, source) =
      (content : String) × IsRegular w (w.join_path bundle target) content
      × IsRegular w source content

  -- The listing of the release is that of the modules that the go command lists for the program on the
  -- target, and each of them has its notices.
  abbrev pub IsClosed : Type 0
  IsClosed =
      (modules : List GraphModule) × (declarations : String) × (declared : List
        (String × Declaration))
      × (sums : String) × All IsAuthentic (authoritative w bundle root arch)
      × IsRegular w (w.join_path bundle "target.txt") (str_append "linux/" (str_append arch "\n"))
      × (check_graph w bundle root arch ≡ ok modules)
      × IsRegular w (w.join_path bundle "modules.txt") (listing w.sort_strings modules)
      × (w.read_file (w.join_path root "scripts/declared-licenses.tsv") ≡ some declarations)
      × (parse_declarations (split_on b'\n' declarations) [] ≡ ok declared)
      × (w.read_file (w.join_path root "go.sum") ≡ some sums)
      × All (IsNoticed w bundle root arch sums declared) modules

  authentic_lem :
      (pairs : List (String × String))
      → same_all w bundle root arch pairs ≡ ok tt
      → All IsAuthentic pairs
  unfolding same_all same
  authentic_lem [] h = tt
  authentic_lem ((target, source) ∷ rest) h =
      let path = w.join_path bundle target in
      with_ok _ (same w path source) h λ u e h1. with_ok _ (regular w path) e λ content e1 e2. (
        (
          content,
          regular-IsRegular w bundle root arch path content e1,
          same-IsRegular w bundle root arch path source content e e1,
        ),
        authentic_lem rest h1,
      )

  listed_lem :
      (modules : List GraphModule)
      → check_graph w bundle root arch ≡ ok modules
      → IsRegular w (w.join_path bundle "modules.txt") (listing w.sort_strings modules)
  unfolding check_graph
  listed_lem modules h = with_ok _ (go_command w root arch _) h λ graph e h1.
      with_ok _ (parse_graph (split_on b'\n' graph) []) h1 λ parsed e1 h2.
        with_ok _ (regular w (w.join_path bundle "modules.txt")) h2 λ listed e2 h3.
          with_ok _
            (fail_if (not (str_eq listed (listing w.sort_strings parsed)))
              "production module closure differs")
            h3
            λ u e3 h4.
              let equal = (eq_iff _ _).0 (not-not _ (fail_if-ok _ _ e3)) in
              subst (IsRegular w (w.join_path bundle "modules.txt"))
                (equal ∙ ap (listing w.sort_strings) (ok-injective h4))
                (regular-IsRegular w bundle root arch _ listed e2)

  -- When the check accepts a release, the notices of the program, Go and OpenTofu's source are those of
  -- their sources, the target is named, the listing is that of the modules that the go command lists,
  -- and each module but the program's own has a notice, no symbolic link among its notices, and, if
  -- its license is declared, the declared license of its checked source and a receipt of just that.
  pub check_notice_closure-IsClosed : check_notice_closure w bundle root arch ≡ ok tt → IsClosed
  unfolding check_notice_closure
  check_notice_closure-IsClosed h =
      with_ok _
        (fail_if (not (str_eq arch "amd64") && not (str_eq arch "arm64")) "unsupported target") h
        λ u e h1.
          with_ok _
            (fail_if (not (str_eq w.go_version "go1.26.10")) "unexpected notice verifier compiler")
            h1
            λ u1 e1 h2.
              with_ok _ (same_all w bundle root arch (authoritative w bundle root arch)) h2
                λ u2 e2 h3. with_ok _ (check_vendor w bundle root arch) h3 λ u3 e3 h4.
                  with_ok _ (regular w (w.join_path bundle "target.txt")) h4 λ target e4 h5.
                    with_ok _
                      (fail_if (not (str_eq target (str_append "linux/" (str_append arch "\n"))))
                        "wrong notice target")
                      h5
                      λ u5 e5 h6. with_ok _ (check_graph w bundle root arch) h6 λ modules e6 h7.
                        with_ok _
                          (or_fail (w.read_file (w.join_path root "scripts/declared-licenses.tsv"))
                            "read declarations")
                          h7
                          λ declarations e7 h8.
                            with_ok _ (parse_declarations (split_on b'\n' declarations) []) h8
                              λ declared e8 h9.
                                with_ok _
                                  (or_fail (w.read_file (w.join_path root "go.sum")) "read go.sum")
                                  h9
                                  λ sums e9 h10.
                                    let named = (eq_iff _ _).0 (not-not _ (fail_if-ok _ _ e5)) in
                                    (
                                      modules,
                                      declarations,
                                      declared,
                                      sums,
                                      authentic_lem (authoritative w bundle root arch) e2,
                                      subst (IsRegular w (w.join_path bundle "target.txt")) named
                                          (regular-IsRegular w bundle root arch _ target e4),
                                      e6,
                                      listed_lem modules e6,
                                      or_fail-some _ _ e7,
                                      e8,
                                      or_fail-some _ _ e9,
                                      modules_lem w bundle root arch sums declared modules h10,
                                    )
