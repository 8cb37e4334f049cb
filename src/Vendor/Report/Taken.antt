-- ===== src/Vendor/Report/Taken.antt =====
-- The vendor check takes the messages of a reviewed report (scripts/vendorcheck/main.go).
use platform_orchestrator_ru.Base.{
  with_ok, inl, inr, refl, ok-injective, map, Option-cases, Result, String, List, ◌++◌, ◌≡◌, ℕ,
  is_some, all, ok, true, ◌∷◌, sym, [], ◌∙◌, ap, both_true,
}
use mathlib.Core.List.{map-append, append-nil, append_assoc}
use platform_orchestrator_ru.Vendor.Values.{Members, Value}
use platform_orchestrator_ru.Vendor.Report.{
  ReportLibrary, Scanner, ReviewedArtifact, receive_osv, receive_progress, receive_finding,
  receive_config, Value, receive_sbom, id_in, is_reviewed_config, has_text, insert_id,
}
use platform_orchestrator_ru.Vendor.Report.Messages.{
  marshal_all, Message, is_record, is_entry, osv, findings_in, gather, message_value, ids_of,
  advisories_in, finding, finding_ids_in, config, sbom, progress,
}
use platform_orchestrator_ru.Vendor.Report.Steps.{receive, state, collect, receive_message-receive}
use platform_orchestrator_ru.Vendor.Report.Runs.{take_all, collect-append}

marshal_all-split :
    (marshal : Members → Result String) (bs cs : List Members) (ts : List String)
    → marshal_all marshal (bs ++ cs) ≡ ok ts
    → (us : List String) × (vs : List String) × (marshal_all marshal bs ≡ ok us)
      × (marshal_all marshal cs ≡ ok vs)
      × (ts ≡ us ++ vs)
marshal_all-split marshal [] cs ts h = ([], ts, refl, h, refl)
marshal_all-split marshal (b ∷ bs) cs ts h = with_ok _ (marshal b) h λ t e rest.
    with_ok _ (marshal_all marshal (bs ++ cs)) rest λ ts' e' same.
      let (us, vs, made, made', split) = marshal_all-split marshal bs cs ts' e' in
      (t ∷ us, vs, rw (e, made) refl, made', sym (ok-injective same) ∙ ap (◌∷◌ t) split)

module _ (lib : ReportLibrary) (p : Scanner) (want : ReviewedArtifact) where
  osv_taken :
      (body : Members) (c b : ℕ) (findings ids osvs : List String)
      → is_some (id_in body "id") ≡ true
      → receive lib p want (osv body) (state c b findings ids osvs)
        ≡ ok (state c b findings ids (collect (ids_of (id_in body "id")) osvs))
  unfolding receive receive_osv
  osv_taken body c b findings ids osvs h = elim (Option-cases (id_in body "id")) [
    | inl absent ↦ absurd (cc (absent, h))
    | inr (id, found) ↦ rw found refl
  ]

  record_taken :
      (m : Message) (osvs : List String)
      → is_record m ≡ true
      → receive lib p want m (state 1 0 [] [] osvs)
        ≡ ok (state 1 0 [] [] (collect (advisories_in m) osvs))
  unfolding receive receive_progress
  record_taken (config body) osvs h = cc
  record_taken (sbom body) osvs h = cc
  record_taken (finding body) osvs h = cc
  record_taken (osv body) osvs h = osv_taken body 1 0 [] [] osvs h
  record_taken (progress body) osvs h = rw h refl

  finding_taken :
      (body : Members) (findings ids osvs texts : List String)
      → is_some (id_in body "osv") ≡ true
      → marshal_all lib.marshal (body ∷ []) ≡ ok texts
      → receive lib p want (finding body) (state 1 1 findings ids osvs)
        ≡ ok (state 1 1 (findings ++ texts) (collect (ids_of (id_in body "osv")) ids) osvs)
  unfolding receive receive_finding
  finding_taken body findings ids osvs texts h made = elim (Option-cases (id_in body "osv")) [
    | inl absent ↦ absurd (cc (absent, h))
    | inr (id, found) ↦ with_ok _ (lib.marshal body) made λ text e same.
        rw (found, e)
          (ap (λ texts. ok (state 1 1 (findings ++ texts) (insert_id id ids) osvs))
            (ok-injective same))
  ]

  entry_taken :
      (m : Message) (findings ids osvs texts : List String)
      → is_entry m ≡ true
      → marshal_all lib.marshal (findings_in m) ≡ ok texts
      → receive lib p want m (state 1 1 findings ids osvs)
        ≡ ok (
            state 1 1
              (findings ++ texts)
              (collect (finding_ids_in m) ids)
              (collect (advisories_in m) osvs))
  unfolding receive receive_progress
  entry_taken (config body) findings ids osvs texts h made = cc
  entry_taken (sbom body) findings ids osvs texts h made = cc
  entry_taken (finding body) findings ids osvs texts h made =
      finding_taken body findings ids osvs texts h made
  entry_taken (osv body) findings ids osvs texts h made =
      osv_taken body 1 1 findings ids osvs h
      ∙ ap (λ fs. ok (state 1 1 fs ids (collect (ids_of (id_in body "id")) osvs)))
          (sym (append-nil findings) ∙ ap (λ ts. findings ++ ts) (ok-injective made))
  entry_taken (progress body) findings ids osvs texts h made = rw h (
      ap (λ fs. ok (state 1 1 fs ids osvs))
        (sym (append-nil findings) ∙ ap (λ ts. findings ++ ts) (ok-injective made)))

  entries_taken :
      (after : List Message) (findings ids osvs texts : List String)
      → all is_entry after ≡ true
      → marshal_all lib.marshal (gather findings_in after) ≡ ok texts
      → take_all lib p want (state 1 1 findings ids osvs) (map message_value after)
        ≡ ok (
            state 1 1
              (findings ++ texts)
              (collect (gather finding_ids_in after) ids)
              (collect (gather advisories_in after) osvs))
  unfolding take_all
  entries_taken [] findings ids osvs texts h made =
      ap (λ fs. ok (state 1 1 fs ids osvs))
        (sym (append-nil findings) ∙ ap (λ ts. findings ++ ts) (ok-injective made))
  entries_taken (m ∷ after) findings ids osvs texts h made =
      let (entry, entries) = both_true _ _ h in
      let (us, vs, here, later, split) =
        marshal_all-split lib.marshal (findings_in m) (gather findings_in after) texts made in
      rw
        (
          receive_message-receive lib p want (state 1 1 findings ids osvs) m refl,
          entry_taken m findings ids osvs us entry here,
        )
        (entries_taken after (findings ++ us) (collect (finding_ids_in m) ids)
            (collect (advisories_in m) osvs) vs entries later
          ∙ cc (
            split,
            append_assoc findings us vs,
            collect-append (finding_ids_in m) (gather finding_ids_in after) ids,
            collect-append (advisories_in m) (gather advisories_in after) osvs,
          ))

  records_taken :
      (before : List Message) (osvs : List String) (rest : List Value)
      → all is_record before ≡ true
      → take_all lib p want (state 1 0 [] [] osvs) (map message_value before ++ rest)
        ≡ take_all lib p want (state 1 0 [] [] (collect (gather advisories_in before) osvs)) rest
  unfolding take_all
  records_taken [] osvs rest h = refl
  records_taken (m ∷ before) osvs rest h =
      let (here, later) = both_true _ _ h in
      rw
        (receive_message-receive lib p want (state 1 0 [] [] osvs) m refl, record_taken m osvs here)
        (records_taken before (collect (advisories_in m) osvs) rest later
          ∙ ap (λ osvs. take_all lib p want (state 1 0 [] [] osvs) rest)
              (sym (collect-append (advisories_in m) (gather advisories_in before) osvs)))

  -- The reviewed configuration, records, the reviewed SBOM and entries are taken.
  pub report_taken :
      (setup : Members) (before : List Message) (described : Members) (after : List Message)
      (texts : List String)
      → is_reviewed_config p setup ≡ true
      → all is_record before ≡ true
      → has_text described "go_version" want.go_version ≡ true
      → all is_entry after ≡ true
      → marshal_all lib.marshal (gather findings_in after) ≡ ok texts
      → take_all lib p want
          (state 0 0 [] [] [])
          (map message_value (config setup ∷ before ++ sbom described ∷ after))
        ≡ ok (
            state 1 1 texts
              (collect (gather finding_ids_in after) [])
              (collect (gather advisories_in after) (collect (gather advisories_in before) [])))
  unfolding take_all receive receive_config receive_sbom
  report_taken setup before described after texts reviewed records version entries made =
      rw
        (
          receive_message-receive lib p want (state 0 0 [] [] []) (config setup) refl,
          reviewed,
          map-append message_value before (sbom described ∷ after),
          records_taken before [] (map message_value (sbom described ∷ after)) records,
          receive_message-receive lib p want
              (state 1 0 [] [] (collect (gather advisories_in before) [])) (sbom described) refl,
          version,
        )
        (entries_taken after [] [] (collect (gather advisories_in before) []) texts entries made)
