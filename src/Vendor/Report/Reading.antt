-- ===== src/Vendor/Report/Reading.antt =====
-- The loop of `checkReport` reads values one after the other (scripts/vendorcheck/main.go).
use platform_orchestrator_ru.Base.{
  length, with_ok, inl, inr, Bool-cases, refl, List, Bool, String, ◌||◌, ◌∷◌, ◌<◌, ◌≡◌, ◌++◌, ◌+◌,
  str_eq, sym, ap, ◌∙◌, arith, subst, [], true, eq_iff, ℕ, false, ok, all, suc, both_true,
  Result-cases, zero,
}
use mathlib.Core.Bool.{or_comm, or_assoc, Bool}
use platform_orchestrator_ru.Vendor.Values.{Value, JsonToken, next_value, unique_value, eof}
use platform_orchestrator_ru.Vendor.Values.Written.{IsShort, value_tokens, value_size-IsShort}
use platform_orchestrator_ru.Vendor.Report.{
  insert_id, ReportLibrary, Scanner, ReviewedArtifact, read_messages, next_value, ReportState,
  receive_message, eof,
}
use platform_orchestrator_ru.Runner.Json.{was_seen}
use platform_orchestrator_ru.Vendor.Report.Steps.{collect}
use platform_orchestrator_ru.Vendor.Report.Messages.{distinct, values_tokens, is_readable}
use platform_orchestrator_ru.Vendor.Report.Runs.{take_all}
use platform_orchestrator_ru.Vendor.Values.Ends.{
  Reading-cases, next_value-eof, is_whole, value-is_whole,
}
use platform_orchestrator_ru.Vendor.Values.Exact.{next_value_iff}

shorter : (v : Value) (rest : List JsonToken) → length rest < length (value_tokens v rest)
unfolding IsShort
shorter v rest = omega (arith, value_size-IsShort v rest)

-- Inserting strings counts those that are new.
pub length-collect : (xs ids : List String) → length (collect xs ids) ≡ length ids + distinct xs ids
unfolding insert_id
length-collect [] ids = omega arith
length-collect (x ∷ xs) ids = elim (Bool-cases (was_seen x ids)) [
  | inl old ↦ rw old (length-collect xs ids)
  | inr new ↦ rw new (omega (arith, length-collect xs (x ∷ ids)))
]

was_seen-insert_id :
    (y x : String) (ids : List String)
    → was_seen y (insert_id x ids) ≡ (str_eq y x || was_seen y ids)
unfolding insert_id was_seen
was_seen-insert_id y x ids = elim (Bool-cases (was_seen x ids)) [
  | inr new ↦ rw new refl
  | inl old ↦ elim (Bool-cases (str_eq y x)) [
    | inl same ↦ rw (old, same) (subst (λ z. was_seen z ids ≡ true) (sym ((eq_iff y x).0 same)) old)
    | inr other ↦ rw (old, other) refl
  ]
]

pub was_seen-append :
    (y : String) (xs ys : List String) → was_seen y (xs ++ ys) ≡ (was_seen y xs || was_seen y ys)
unfolding was_seen
was_seen-append y [] ys = refl
was_seen-append y (x ∷ xs) ys =
    rw (was_seen-append y xs ys) (sym (or_assoc (str_eq y x) (was_seen y xs) (was_seen y ys)))

or_swap : (a b c : Bool) → (a || (b || c)) ≡ ((b || a) || c)
or_swap true b c = ap (λ x. x || c) (or_comm true b)
or_swap false b c = ap (λ x. x || c) (or_comm false b)

pub was_seen-collect :
    (y : String) (xs ids : List String)
    → was_seen y (collect xs ids) ≡ (was_seen y xs || was_seen y ids)
unfolding was_seen
was_seen-collect y [] ids = refl
was_seen-collect y (x ∷ xs) ids =
    was_seen-collect y xs (insert_id x ids)
    ∙ ap (λ b. was_seen y xs || b) (was_seen-insert_id y x ids)
    ∙ or_swap (was_seen y xs) (str_eq y x) (was_seen y ids)

nothing_left : next_value [] ≡ eof
unfolding next_value unique_value
nothing_left = refl

module _ (lib : ReportLibrary) (p : Scanner) (want : ReviewedArtifact) where
  -- What the loop reads are values, one after the other, and what it does is to take them in order.
  pub messages_read :
      (fuel : ℕ) (s : ReportState) (ts : List JsonToken) (s' : ReportState)
      → is_whole ts ≡ true
      → read_messages lib p want fuel s ts ≡ ok s'
      → (vs : List Value) × (ts ≡ values_tokens vs)
        × (all is_readable vs ≡ true)
        × (take_all lib p want s vs ≡ ok s')
  unfolding read_messages take_all
  messages_read zero s ts s' whole h = cc
  messages_read (suc fuel) s ts s' whole h = elim (Reading-cases (next_value ts)) [
    | inl ended ↦ ([], next_value-eof ts whole ended, refl, rw (ended, read_messages) at h)
    | inr (inl (message, e)) ↦ absurd (cc (rw (e, read_messages) at h))
    | inr (inr (v, rest, e)) ↦
        let (s_is, u) = (next_value_iff ts v rest).0 e in
        with_ok _ (receive_message lib p want s v) (rw (e, read_messages) at h) λ next taken more.
          let (vs, rest_is, us, all_taken) =
            messages_read fuel next rest s'
              (sym (value-is_whole v rest) ∙ ap is_whole (sym s_is) ∙ whole) more in
          (v ∷ vs, s_is ∙ ap (value_tokens v) rest_is, rw u us, rw taken all_taken)
  ]

  -- Values that can be read are taken in order, with fuel for their tokens.
  pub values_taken :
      (vs : List Value) (fuel : ℕ) (s : ReportState)
      → length (values_tokens vs) < fuel
      → all is_readable vs ≡ true
      → read_messages lib p want fuel s (values_tokens vs) ≡ take_all lib p want s vs
  unfolding read_messages take_all
  values_taken vs zero s h u = absurd (omega (arith, h))
  values_taken [] (suc fuel) s h u = rw (nothing_left, read_messages) refl
  values_taken (v ∷ vs) (suc fuel) s h u =
      let (here, later) = both_true _ _ u in
      rw ((next_value_iff _ v (values_tokens vs)).1 (refl, here), read_messages)
        (elim (Result-cases (receive_message lib p want s v)) [
          | inr (message, e) ↦ rw e refl
          | inl (next, e) ↦
              rw e
                (values_taken vs fuel next (omega (arith, h, shorter v (values_tokens vs))) later)
        ])
