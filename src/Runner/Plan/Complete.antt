-- ===== src/Runner/Plan/Complete.antt =====
-- What an accepted plan is (internal/runner/observation.go).
use platform_orchestrator_ru.Runner.Plan.{
  PlanLibrary, as_invalid, is_one_document, without_error, is_tool, says_complete,
  ObservationResult, ObservationPlan, ObservationPlanChange, Token, output_change_count,
  parse_observation_plan, invalid, max_observation_plan_bytes, is_version, json_object,
  nothing_deferred,
}
use platform_orchestrator_ru.Base.{
  Bool, Bytes, String, ℕ, Option, fail_if, List, ◌≡◌, ok, true, some, false, [], ◌⊎◌, none, refl,
  all, ◌∷◌, inl, inr, str_eq, ltb, length, arith, eq_iff, not, if◌then◌else◌, ◌||◌, err, with_ok,
  sym, ok-injective, or_fail, ◌==◌, len, ap, ◌∙◌, fail_if-ok, or_fail-some, not-not,
}
use platform_orchestrator_ru.Runner.Observation.{
  ObservationPlanChange, ObservationChange, sanitize_observation_changes, is_supported,
  valid_observation_actions,
}
use platform_orchestrator_ru.Runner.Json.{Token, validate_document}
use platform_orchestrator_ru.Runner.Json.Unique.{validate_document_iff}
use platform_orchestrator_ru.Runner.Observation.Sanitized.{
  reported, sanitize_observation_changes_lem,
}
use platform_orchestrator_ru.Runner.Patterns.{is_version}
use platform_orchestrator_ru.Runner.Json.Documents.{Json, tokens, is_unique}

-- The library read a plan from the data that says all that its result does.
pub record IsComplete (lib : PlanLibrary) (contents : Bytes) (tool : String)
    (result : ObservationResult) : Type 0 where
  pub plan : ObservationPlan
  pub unmarshalled : lib.unmarshal_plan contents ≡ some plan
  pub document : Json
  pub tokens_of_document : lib.read_tokens contents ≡ tokens document []
  pub unique_names : is_unique document ≡ true
  pub no_error : plan.errored ≡ some false
  pub complete : (plan.complete ≡ some true) ⊎ ((plan.complete ≡ none) × (tool ≡ "opentofu"))
  pub checks_passed : all (λ status. str_eq status "pass") plan.checks ≡ true
  pub observed : result.observed_changes ≡ reported (lib.format_id "observed") 1 plan.drift
  pub proposed : result.proposed_changes ≡ reported (lib.format_id "proposed") 1 plan.changes
  pub all_supported : (all is_supported plan.drift ≡ true) × (all is_supported plan.changes ≡ true)
  pub outputs : result.output_change_count ≡ output_change_count plan.outputs

valid_if :
    (more supported : Bool) (limit unsupported : String) {changes result : List ObservationChange}
    → as_invalid (if more then err limit else if supported then ok changes else err unsupported)
      ≡ ok result
    → (supported ≡ true) × (result ≡ changes)
unfolding as_invalid
valid_if true supported limit unsupported h = cc
valid_if false true limit unsupported h = (refl, sym (ok-injective h))
valid_if false false limit unsupported h = cc

sanitized :
    (format : ℕ → String) (changes : List ObservationPlanChange) (result : List ObservationChange)
    → as_invalid (sanitize_observation_changes format changes) ≡ ok result
    → (all is_supported changes ≡ true) × (result ≡ reported format 1 changes)
sanitized format changes result h =
    valid_if (ltb 2000 (length changes)) (all is_supported changes) _ _
      (rw (sanitize_observation_changes_lem format changes) at h)

document_of :
    (found : Option (List Token)) (eof : Bool) → is_one_document found eof ≡ true → found ≡ some []
unfolding is_one_document
document_of none eof h = cc
document_of (some []) eof h = refl
document_of (some (x ∷ xs)) eof h = cc

error_free : (errored : Option Bool) → without_error errored ≡ true → errored ≡ some false
unfolding without_error
error_free none h = cc
error_free (some true) h = cc
error_free (some false) h = refl

second_of : (a b : Bool) → a || b ≡ true → not a ≡ true → b ≡ true
second_of true b h n = cc
second_of false b h n = h

complete_of :
    (tool : String) (complete : Option Bool)
    → is_tool tool ≡ true
    → says_complete tool complete ≡ true
    → (complete ≡ some true) ⊎ ((complete ≡ none) × (tool ≡ "opentofu"))
unfolding is_tool says_complete
complete_of tool (some true) t h = inl refl
complete_of tool (some false) t h = cc
complete_of tool none t h = inr (refl, (eq_iff tool "opentofu").0 (second_of _ _ t h))

last_of_three : (a b c : Bool) → a || b || not c ≡ false → c ≡ true
last_of_three a b c h = ground arith

fourth_of_six : (a b c d e f : Bool) → a || b || c || not d || e || f ≡ false → d ≡ true
fourth_of_six a b c d e f h = ground arith

-- Every part of an accepted plan.
pub parse_observation_plan-IsComplete :
    (lib : PlanLibrary) (contents : Bytes) (tool : String) (result : ObservationResult)
    → parse_observation_plan lib contents tool ≡ ok result
    → IsComplete lib contents tool result
unfolding parse_observation_plan
parse_observation_plan-IsComplete lib contents tool result h =
    with_ok Goal
      (fail_if
        (length contents == 0
          || ltb max_observation_plan_bytes (length contents)
          || not (is_tool tool))
        invalid)
      h
      λ _ p1 h1.
        with_ok Goal
          (fail_if
            (not (
              is_one_document (validate_document (lib.read_tokens contents))
                (lib.ends_in_eof contents)))
            invalid)
          h1
          λ _ p2 h2. with_ok Goal (or_fail (lib.unmarshal_plan contents) invalid) h2 λ plan p3 h3.
            with_ok Goal
              (fail_if
                (not (str_eq plan.format_version "1.2")
                  || ltb 64 (len plan.version)
                  || not (is_version plan.version)
                  || not (without_error plan.errored)
                  || not (json_object plan.configuration)
                  || not (json_object plan.planned_values))
                invalid)
              h3
              λ _ p4 h4.
                with_ok Goal (fail_if (not (says_complete tool plan.complete)) invalid) h4
                  λ _ p5 h5.
                    with_ok Goal (fail_if (not (nothing_deferred plan.deferred)) invalid) h5
                      λ _ p6 h6.
                        with_ok Goal
                          (fail_if (not (all (λ status. str_eq status "pass") plan.checks)) invalid)
                          h6
                          λ _ p7 h7.
                            with_ok Goal
                              (as_invalid (
                                sanitize_observation_changes (lib.format_id "observed") plan.drift))
                              h7
                              λ drift p8 h8.
                                with_ok Goal
                                  (as_invalid (
                                    sanitize_observation_changes (lib.format_id "proposed")
                                      plan.changes))
                                  h8
                                  λ changes p9 h9.
                                    with_ok Goal
                                      (fail_if (ltb 1000000 (length plan.outputs)) invalid) h9
                                      λ _ p10 h10.
                                        with_ok Goal
                                          (fail_if
                                            (not (all valid_observation_actions plan.outputs))
                                            invalid)
                                          h10
                                          λ _ p11 h11.
                                            let found =
                                              document_of _ _ (not-not _ (fail_if-ok _ _ p2)) in
                                            let (document, tokens, unique) =
                                              (validate_document_iff (lib.read_tokens contents)
                                                  []).0
                                                found in
                                            let (drift_supported, drift_lem) =
                                              sanitized _ plan.drift drift p8 in
                                            let (changes_supported, changes_lem) =
                                              sanitized _ plan.changes changes p9 in
                                            let same = ok-injective h11 in
                                            record {
                                              plan = plan;
                                              unmarshalled = or_fail-some _ _ p3;
                                              document = document;
                                              tokens_of_document = tokens;
                                              unique_names = unique;
                                              no_error = error_free _ (
                                                  fourth_of_six
                                                    (not (str_eq plan.format_version "1.2"))
                                                    (ltb 64 (len plan.version))
                                                    (not (is_version plan.version))
                                                    (without_error plan.errored)
                                                    (not (json_object plan.configuration))
                                                    (not (json_object plan.planned_values))
                                                    (fail_if-ok _ _ p4));
                                              complete =
                                                  complete_of tool plan.complete
                                                    (last_of_three (length contents == 0)
                                                      (ltb max_observation_plan_bytes
                                                        (length contents))
                                                      (is_tool tool) (fail_if-ok _ _ p1))
                                                    (not-not _ (fail_if-ok _ _ p5));
                                              checks_passed = not-not _ (fail_if-ok _ _ p7);
                                              observed =
                                                  ap (λ (r : ObservationResult). r.observed_changes)
                                                    (sym same)
                                                  ∙ drift_lem;
                                              proposed =
                                                  ap (λ (r : ObservationResult). r.proposed_changes)
                                                    (sym same)
                                                  ∙ changes_lem;
                                              all_supported = (drift_supported, changes_supported);
                                              outputs =
                                                  ap
                                                    (λ (r : ObservationResult).
                                                      r.output_change_count)
                                                    (sym same);
                                            }
  where
    Goal : Type 0
    Goal = IsComplete lib contents tool result
