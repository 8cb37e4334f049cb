-- ===== src/Runner/Observation/Sanitized.antt =====
-- The sanitised changes are the supported changes without the no-ops, numbered
-- (internal/runner/observation.go).
use platform_orchestrator_ru.Base.{
  ℕ, String, List, ◌∷◌, ◌≡◌, suc, if◌then◌else◌, all, ok, [], ◌++◌, length, ◌+◌, err, ap, sym,
  Bool-cases, ◌≤◌, inr, arith, ltb, inl, refl, length-append, ◌∙◌, ok-injective,
}
use platform_orchestrator_ru.Runner.Observation.{
  sanitize_loop, ObservationPlanChange, ObservationChange, is_no_op, actions_of, is_supported,
  sanitize_observation_changes,
}
use mathlib.Core.List.{append-nil, append_assoc}

-- The changes that are reported, numbered from `n`.
abbrev pub reported : (ℕ → String) → ℕ → List ObservationPlanChange → List ObservationChange
reported format n [] = []
reported format n (change ∷ rest) =
    let later = reported format (suc n) rest in
    let same = reported format n rest in
    if is_no_op (actions_of change.change)
    then same
    else record {
      id = format n;
      resource_type = change.change_type;
      actions = actions_of change.change;
    }
      ∷ later

added_last :
    (format : ℕ → String) (result : List ObservationChange) (x : ObservationChange)
    (rest : List ObservationPlanChange)
    → (if all is_supported rest
        then ok ((result ++ x ∷ []) ++ reported format (length (result ++ x ∷ []) + 1) rest)
        else err "unsupported observation change")
      ≡ (if all is_supported rest
          then ok (result ++ x ∷ reported format (suc (length result + 1)) rest)
          else err "unsupported observation change")
added_last format result x rest =
    let e : length (result ++ x ∷ []) + 1 ≡ suc (length result + 1) =
      omega (arith, length-append result (x ∷ [])) in
    rw e (rw (append_assoc result (x ∷ []) (reported format (suc (length result + 1)) rest)) refl)

sanitize_loop_lem :
    (format : ℕ → String) (changes : List ObservationPlanChange) (result : List ObservationChange)
    → sanitize_loop format result changes ≡ (
        if all is_supported changes
        then ok (result ++ reported format (length result + 1) changes)
        else err "unsupported observation change")
unfolding sanitize_loop
sanitize_loop_lem format [] result = ap ok (sym (append-nil result))
sanitize_loop_lem format (change ∷ rest) result = elim (Bool-cases (is_supported change)) [
  | inr unsupported ↦ rw unsupported refl
  | inl supported ↦ elim (Bool-cases (is_no_op (actions_of change.change))) [
    | inl skips ↦ rw (supported, skips) (sanitize_loop_lem format rest result)
    | inr adds ↦
        rw (supported, adds) (sanitize_loop_lem format rest _ ∙ added_last format result _ rest)
  ]
]

length-reported :
    (format : ℕ → String) (n : ℕ) (changes : List ObservationPlanChange)
    → length (reported format n changes) ≤ length changes
length-reported format n [] = omega arith
length-reported format n (change ∷ rest) = elim (Bool-cases (is_no_op (actions_of change.change))) [
  | inl skips ↦ rw skips (omega (arith, length-reported format n rest))
  | inr adds ↦ rw adds (omega (arith, length-reported format (suc n) rest))
]

-- The sanitised changes are the reference: an error for more than 2000 changes or for an unsupported
-- one, and otherwise the changes that are not no-ops, in their order and numbered from 1.
pub sanitize_observation_changes_lem :
    (format : ℕ → String) (changes : List ObservationPlanChange)
    → sanitize_observation_changes format changes ≡ (
        if ltb 2000 (length changes)
        then err "too many observation changes"
        else if all is_supported changes
        then ok (reported format 1 changes)
        else err "unsupported observation change")
unfolding sanitize_observation_changes
sanitize_observation_changes_lem format changes = rw (sanitize_loop_lem format changes []) refl

-- At most 2000 changes are reported.
pub length-sanitize_observation_changes :
    (format : ℕ → String) (changes : List ObservationPlanChange) (result : List ObservationChange)
    → sanitize_observation_changes format changes ≡ ok result
    → length result ≤ 2000
length-sanitize_observation_changes format changes result h =
    let sanitized = sanitize_observation_changes_lem format changes in
    elim (Bool-cases (ltb 2000 (length changes))) [
      | inl more ↦ absurd (cc (h, sanitized, more))
      | inr fits ↦ elim (Bool-cases (all is_supported changes)) [
        | inl supported ↦
            let e : result ≡ reported format 1 changes =
              ok-injective (cc (h, sanitized, fits, supported)) in
            rw e (ground (arith, fits, length-reported format 1 changes))
        | inr unsupported ↦ absurd (cc (h, sanitized, fits, unsupported))
      ]
    ]
