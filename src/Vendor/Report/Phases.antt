-- ===== src/Vendor/Report/Phases.antt =====
-- The phases of a report: before its configuration, before its SBOM and after it
-- (scripts/vendorcheck/main.go).
use platform_orchestrator_ru.Base.{
  with_ok, or_fail-some, fail_if-ok, inl, inr, refl, ok-injective, [], List, String, ◌≡◌, false, ok,
  true, fail_if, not, ◌⊎◌, ◌++◌, or_fail, ap, is_some, ◌∷◌, sym, ◌∙◌, not-not,
}
use mathlib.Core.List.{append-nil}
use platform_orchestrator_ru.Vendor.Values.{Members}
use platform_orchestrator_ru.Vendor.Report.{
  ReportLibrary, Scanner, ReviewedArtifact, receive_config, receive_sbom, ReportState,
  receive_finding, receive_osv, receive_progress, is_reviewed_config, has_text, id_in, text_of,
  field_of,
}
use platform_orchestrator_ru.Vendor.Report.Steps.{receive, must_wait, state, collect}
use platform_orchestrator_ru.Vendor.Report.Messages.{
  Message, kind_name, config, is_record, is_entry, marshal_all, advisories_in, findings_in, sbom,
  finding_ids_in, finding, ids_of, osv, progress,
}

module _ (lib : ReportLibrary) (p : Scanner) (want : ReviewedArtifact) where
  -- Before the configuration only the reviewed one is taken.
  pub first_step :
      (m : Message) (s' : ReportState)
      → must_wait lib p want (state 0 0 [] [] []) (kind_name m) ≡ false
      → receive lib p want m (state 0 0 [] [] []) ≡ ok s'
      → (setup : Members) × (m ≡ config setup)
        × (is_reviewed_config p setup ≡ true)
        × (s' ≡ state 1 0 [] [] [])
  unfolding receive receive_config
  first_step (config body) s' h e =
      with_ok _ (fail_if (not (is_reviewed_config p body)) "unreviewed scanner configuration") e
        λ u e' same. (body, refl, not-not _ (fail_if-ok _ _ e'), sym (ok-injective same))
  first_step (sbom body) s' h e = cc
  first_step (finding body) s' h e = cc
  first_step (osv body) s' h e = cc
  first_step (progress body) s' h e = cc

  -- Before the SBOM, the message is a record, or the SBOM itself.
  pub record_step :
      (m : Message) (s' : ReportState) (osvs : List String)
      → receive lib p want m (state 1 0 [] [] osvs) ≡ ok s'
      → ((is_record m ≡ true) × (s' ≡ state 1 0 [] [] (collect (advisories_in m) osvs)))
        ⊎ ((described : Members) × (m ≡ sbom described)
            × (has_text described "go_version" want.go_version ≡ true)
            × (s' ≡ state 1 1 [] [] osvs))
  unfolding receive receive_config receive_sbom receive_finding receive_osv receive_progress
  record_step (config body) s' osvs e = cc
  record_step (sbom body) s' osvs e =
      with_ok _
        (fail_if (not (has_text body "go_version" want.go_version))
          "missing or changed scanner SBOM")
        e λ u e' same. inr (body, refl, not-not _ (fail_if-ok _ _ e'), sym (ok-injective same))
  record_step (finding body) s' osvs e =
      with_ok _ (or_fail (id_in body "osv") "malformed scanner finding") e
        λ id e' rest. absurd (cc rest)
  record_step (osv body) s' osvs e =
      with_ok _ (or_fail (id_in body "id") "malformed advisory record") e λ id e' same.
        let found = or_fail-some _ _ e' in
        inl (
          ap is_some found,
          sym (ok-injective same) ∙ sym (ap (λ o. state 1 0 [] [] (collect (ids_of o) osvs)) found),
        )
  record_step (progress body) s' osvs e =
      with_ok _
        (fail_if (not (is_some (text_of (field_of "message" body)))) "malformed scanner progress") e
        λ u e' same. inl (not-not _ (fail_if-ok _ _ e'), sym (ok-injective same))

  -- After the SBOM, the message is an entry.
  pub entry_step :
      (m : Message) (s' : ReportState) (findings ids osvs : List String)
      → receive lib p want m (state 1 1 findings ids osvs) ≡ ok s'
      → (is_entry m ≡ true)
        × (texts : List String) × (marshal_all lib.marshal (findings_in m) ≡ ok texts)
        × (s'
            ≡ state 1 1
                (findings ++ texts)
                (collect (finding_ids_in m) ids)
                (collect (advisories_in m) osvs))
  unfolding receive receive_config receive_sbom receive_finding receive_osv receive_progress
  entry_step (config body) s' findings ids osvs e = cc
  entry_step (sbom body) s' findings ids osvs e = cc
  entry_step (finding body) s' findings ids osvs e =
      with_ok _ (or_fail (id_in body "osv") "malformed scanner finding") e λ id e' rest.
        with_ok _ (lib.marshal body) rest λ text made same.
          let found = or_fail-some _ _ e' in
          (
            ap is_some found,
            text ∷ [],
            rw made refl,
            sym (ok-injective same)
                ∙ sym (
                    ap (λ o. state 1 1 (findings ++ text ∷ []) (collect (ids_of o) ids) osvs)
                      found),
          )
  entry_step (osv body) s' findings ids osvs e =
      with_ok _ (or_fail (id_in body "id") "malformed advisory record") e λ id e' same.
        let found = or_fail-some _ _ e' in
        (
          ap is_some found,
          [],
          refl,
          sym (ok-injective same)
              ∙ sym (ap (λ o. state 1 1 findings ids (collect (ids_of o) osvs)) found)
              ∙ ap (λ fs. state 1 1 fs ids (collect (ids_of (id_in body "id")) osvs))
                  (sym (append-nil findings)),
        )
  entry_step (progress body) s' findings ids osvs e =
      with_ok _
        (fail_if (not (is_some (text_of (field_of "message" body)))) "malformed scanner progress") e
        λ u e' same. (
          not-not _ (fail_if-ok _ _ e'),
          [],
          refl,
          sym (ok-injective same) ∙ ap (λ fs. state 1 1 fs ids osvs) (sym (append-nil findings)),
        )
