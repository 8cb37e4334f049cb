-- ===== src/Vendor/Report/Exact.antt =====
-- Which reports `checkReport` accepts (scripts/vendorcheck/main.go).
use platform_orchestrator_ru.Base.{
  length, with_ok, String, ◌&&◌, List, refl, map, ◌≡◌, all, ◌∷◌, ok, [], ◌++◌, sym, ap, ◌∙◌, true,
  suc, arith, ◌↔◌, subst, ◌>>=◌,
}
use mathlib.Core.List.{map-append}
use platform_orchestrator_ru.Vendor.Values.{Value, Members, JsonToken}
use platform_orchestrator_ru.Vendor.Values.Ends.{is_whole}
use platform_orchestrator_ru.Vendor.Report.Messages.{
  Message, gather, marshal_all, message_value, advisories_in, config, sbom, finding_ids_in,
  values_tokens, is_readable, is_record, IsInventory, is_entry, findings_in,
}
use platform_orchestrator_ru.Runner.Json.{was_seen}
use platform_orchestrator_ru.Vendor.Report.{
  ReportLibrary, Scanner, ReviewedArtifact, ReportState, check_inventory, check_report,
  is_reviewed_config, has_text, read_messages,
}
use platform_orchestrator_ru.Vendor.Report.Steps.{collect, state}
use platform_orchestrator_ru.Vendor.Report.Reading.{messages_read, length-collect, values_taken}
use platform_orchestrator_ru.Vendor.Report.Runs.{BeforeSbom, AfterSbom, whole_report, take_all}
use platform_orchestrator_ru.Vendor.Report.Taken.{report_taken}
use platform_orchestrator_ru.Vendor.Report.Accepted.{
  all-same, Complete, all-map, seen_once, digest_of, seen_anywhere, length-marshal_all,
  check_inventory-Complete, check_inventory-ok,
}

module _ (lib : ReportLibrary) (p : Scanner) (want : ReviewedArtifact) where
  -- The state after the messages of an inventory is complete exactly if its findings are the reviewed ones.
  abbrev final_state : (before after : List Message) (texts : List String) → ReportState
  final_state before after texts =
      state 1 1 texts (collect (gather finding_ids_in after) [])
        (collect (gather advisories_in after) (collect (gather advisories_in before) []))

  advisories_lem :
      (setup described : Members) (before after : List Message) (texts : List String)
      → all
          (λ id.
            was_seen id (final_state before after texts).ids
            && was_seen id (final_state before after texts).osvs)
          want.advisories
        ≡ all
            (λ id.
              was_seen id (gather finding_ids_in after)
              && was_seen id
                  (gather advisories_in (config setup ∷ before ++ sbom described ∷ after)))
            want.advisories
  advisories_lem setup described before after texts = all-same _ _ want.advisories λ id.
      rw (seen_once id (gather finding_ids_in after), seen_anywhere id setup described before after)
        refl

  accepted :
      (tokens : List JsonToken) (s : ReportState) (setup described : Members)
      (before after : List Message) (texts : List String) (vs : List Value)
      → tokens ≡ values_tokens vs
      → vs ≡ map message_value (config setup ∷ before ++ sbom described ∷ after)
      → all is_readable vs ≡ true
      → is_reviewed_config p setup ≡ true
      → all is_record before ≡ true
      → has_text described "go_version" want.go_version ≡ true
      → all is_entry after ≡ true
      → marshal_all lib.marshal (gather findings_in after) ≡ ok texts
      → s ≡ final_state before after texts
      → Complete lib p want s
      → (messages : List Message) × (tokens ≡ values_tokens (map message_value messages))
        × (all (λ m. is_readable (message_value m)) messages ≡ true)
        × IsInventory lib p want messages
  unfolding Complete digest_of
  accepted tokens s setup described before after texts vs read vs_are readable reviewed records
        version entries made s_is complete =
      let messages = config setup ∷ before ++ sbom described ∷ after in
      let (c, b, f, i, a, d) = subst (Complete lib p want) s_is complete in
      (
        messages,
        read ∙ ap values_tokens vs_are,
        sym (all-map is_readable messages) ∙ sym (ap (all is_readable) vs_are) ∙ readable,
        (
          setup,
          before,
          described,
          after,
          texts,
          refl,
          reviewed,
          records,
          version,
          entries,
          sym (length-marshal_all lib.marshal (gather findings_in after) texts made) ∙ f,
          omega (arith, i, length-collect (gather finding_ids_in after) []),
          sym (advisories_lem setup described before after texts) ∙ a,
          made,
          d,
        ),
      )

  inventory_read :
      (tokens : List JsonToken) (messages : List Message) (setup described : Members)
      (before after : List Message) (texts : List String)
      → tokens ≡ values_tokens (map message_value messages)
      → all (λ m. is_readable (message_value m)) messages ≡ true
      → messages ≡ config setup ∷ before ++ sbom described ∷ after
      → is_reviewed_config p setup ≡ true
      → all is_record before ≡ true
      → has_text described "go_version" want.go_version ≡ true
      → all is_entry after ≡ true
      → marshal_all lib.marshal (gather findings_in after) ≡ ok texts
      → read_messages lib p want (suc (length tokens)) (state 0 0 [] [] []) tokens
        ≡ ok (final_state before after texts)
  inventory_read tokens messages setup described before after texts tokens_are readable messages_are
        reviewed records version entries made =
      let vs = map message_value messages in
      ap (λ ts. read_messages lib p want (suc (length ts)) (state 0 0 [] [] []) ts) tokens_are
      ∙ values_taken lib p want vs (suc (length (values_tokens vs))) (state 0 0 [] [] [])
          (omega arith) (all-map is_readable messages ∙ readable)
      ∙ ap (λ ms. take_all lib p want (state 0 0 [] [] []) (map message_value ms)) messages_are
      ∙ report_taken lib p want setup before described after texts reviewed records version entries
          made

  -- The check accepts a report that does not end right after a comma exactly if it is the reviewed inventory: its tokens are those of messages,
  -- one after the other, that have no key twice and are nested at most 64 deep; they are the reviewed
  -- configuration, then advisories and progress, then the SBOM of the reviewed Go version, then
  -- findings, advisories and progress; the findings are as many as the policy says, they name as many
  -- advisories as it lists, each listed one is named and has its record, and the findings, sorted, have
  -- the reviewed hash.
  pub check_report_iff :
      (tokens : List JsonToken)
      → is_whole tokens ≡ true
      → (check_report lib p want tokens ≡ ok tt) ↔ (
          (messages : List Message) × (tokens ≡ values_tokens (map message_value messages))
          × (all (λ m. is_readable (message_value m)) messages ≡ true)
          × IsInventory lib p want messages)
  unfolding check_report BeforeSbom AfterSbom Complete digest_of
  check_report_iff tokens whole = (
    λ h.
        with_ok _ (read_messages lib p want (suc (length tokens)) (state 0 0 [] [] []) tokens) h
          λ s read done.
            let complete = check_inventory-Complete lib p want s done in
            let (vs, tokens_are, readable, taken) =
              messages_read lib p want _ _ tokens s whole read in
            let (setup, rest, vs_are, reviewed, later) =
              whole_report lib p want vs s taken complete.0 complete.1 in
            let (before, described, rest', rest_are, records, version, later') = later in
            let (after, texts, rest_are', entries, made, s_is) = later' in
            accepted tokens s setup described before after texts vs tokens_are
              (vs_are
                ∙ ap (λ vs. message_value (config setup) ∷ vs)
                    (rest_are
                      ∙ ap (λ vs. map message_value before ++ message_value (sbom described) ∷ vs)
                          rest_are'
                      ∙ sym (map-append message_value before (sbom described ∷ after))))
              readable reviewed records version entries made s_is complete,
    λ (messages, tokens_are, readable, inventory).
        let (
          setup, before, described, after, texts, messages_are, reviewed, records, version, entries,
          f, i, a, made, d,
        ) =
          inventory in
        ap (λ r. r >>= check_inventory lib p want)
          (inventory_read tokens messages setup described before after texts tokens_are readable
            messages_are reviewed records version entries made)
        ∙ check_inventory-ok lib p want (final_state before after texts) (
          refl,
          refl,
          length-marshal_all lib.marshal (gather findings_in after) texts made ∙ f,
          omega (arith, i, length-collect (gather finding_ids_in after) []),
          advisories_lem setup described before after texts
              ∙ ap
                  (λ ms.
                    all
                      (λ id.
                        was_seen id (gather finding_ids_in after)
                        && was_seen id (gather advisories_in ms))
                      want.advisories)
                  (sym messages_are)
              ∙ a,
          d,
        ),
  )
