-- ===== src/Vendor/Report/Accepted.antt =====
-- The inventory that `checkReport` checks at the end (scripts/vendorcheck/main.go).
use platform_orchestrator_ru.Base.{
  length, with_ok, fail_if-ok, not-not, String, Bool, ◌&&◌, ◌||◌, List, refl, ok-injective, map,
  Result, ◌≡◌, all, ◌∷◌, ok, [], str_append, ◌++◌, sym, fail_if, eq_refl, ap, ◌∙◌, true, not, suc,
  false, ◌==◌, str_eq, arith, eq_iff, ℕ,
}
use mathlib.Core.Bool.{or_comm}
use mathlib.Core.List.{append_assoc}
use platform_orchestrator_ru.Vendor.Values.{Value, Members}
use platform_orchestrator_ru.Vendor.Report.Messages.{
  Message, gather, marshal_all, message_value, advisories_in, config, sbom,
}
use platform_orchestrator_ru.Runner.Json.{was_seen}
use platform_orchestrator_ru.Vendor.Report.{
  ReportLibrary, Scanner, ReviewedArtifact, ReportState, check_inventory, join_lines,
}
use platform_orchestrator_ru.Vendor.Report.Steps.{collect}
use platform_orchestrator_ru.Vendor.Report.Reading.{was_seen-collect, was_seen-append}
use platform_orchestrator_ru.Executor.Scheduling.{join_lines}

pub all-same {ℓ} :
    {A : Type ℓ} (f g : A → Bool) (xs : List A) → ((x : A) → f x ≡ g x) → all f xs ≡ all g xs
all-same f g [] h = refl
all-same f g (x ∷ xs) h = rw (h x, all-same f g xs h) refl

pub all-map :
    (f : Value → Bool) (ms : List Message)
    → all f (map message_value ms) ≡ all (λ m. f (message_value m)) ms
all-map f [] = refl
all-map f (m ∷ ms) = rw (all-map f ms) refl

pub gather-append :
    (f : Message → List String) (xs ys : List Message)
    → gather f (xs ++ ys) ≡ gather f xs ++ gather f ys
gather-append f [] ys = refl
gather-append f (x ∷ xs) ys =
    rw (gather-append f xs ys) (sym (append_assoc (f x) (gather f xs) (gather f ys)))

pub length-marshal_all :
    (marshal : Members → Result String) (bodies : List Members) (texts : List String)
    → marshal_all marshal bodies ≡ ok texts
    → length texts ≡ length bodies
length-marshal_all marshal [] texts h = rw (sym (ok-injective h)) refl
length-marshal_all marshal (b ∷ bs) texts h = with_ok _ (marshal b) h λ t e rest.
    with_ok _ (marshal_all marshal bs) rest
      λ ts e' same. rw (sym (ok-injective same)) (ap suc (length-marshal_all marshal bs ts e'))

-- The advisories of a whole report are those before its SBOM and those after it.
pub seen_anywhere :
    (y : String) (setup described : Members) (before after : List Message)
    → was_seen y (collect (gather advisories_in after) (collect (gather advisories_in before) []))
      ≡ was_seen y (gather advisories_in (config setup ∷ before ++ sbom described ∷ after))
unfolding was_seen
seen_anywhere y setup described before after =
    was_seen-collect y (gather advisories_in after) (collect (gather advisories_in before) [])
    ∙ ap (λ b. was_seen y (gather advisories_in after) || b)
        (was_seen-collect y (gather advisories_in before) [] ∙ or_comm _ false)
    ∙ or_comm (was_seen y (gather advisories_in after)) (was_seen y (gather advisories_in before))
    ∙ sym (was_seen-append y (gather advisories_in before) (gather advisories_in after))
    ∙ ap (was_seen y) (sym (gather-append advisories_in before (sbom described ∷ after)))

pub seen_once : (y : String) (xs : List String) → was_seen y (collect xs []) ≡ was_seen y xs
unfolding was_seen
seen_once y xs = was_seen-collect y xs [] ∙ or_comm _ false

same_count : (n : ℕ) → n == n ≡ true
same_count n = ground arith

module _ (lib : ReportLibrary) (p : Scanner) (want : ReviewedArtifact) where
  unfoldable pub digest_of : List String → String
  digest_of texts = lib.sha256_hex (str_append (join_lines (lib.sort_strings texts)) "\n")

  unfoldable pub Complete : ReportState → Type 0
  Complete s =
      (s.configs ≡ 1)
      × (s.sboms ≡ 1)
      × (length s.findings ≡ want.finding_count)
      × (length s.ids ≡ length want.advisories)
      × (all (λ id. was_seen id s.ids && was_seen id s.osvs) want.advisories ≡ true)
      × (digest_of s.findings ≡ want.findings_sha256)

  pub check_inventory-Complete :
      (s : ReportState) → check_inventory lib p want s ≡ ok tt → Complete s
  unfolding check_inventory Complete digest_of
  check_inventory-Complete s h =
      with_ok _
        (fail_if
          (not (s.configs == 1)
            || not (s.sboms == 1)
            || not (length s.findings == want.finding_count)
            || not (length s.ids == length want.advisories))
          "incomplete or changed finding inventory")
        h
        λ u e h'.
          with_ok _
            (fail_if (not (all (λ id. was_seen id s.ids && was_seen id s.osvs) want.advisories))
              "missing reviewed advisory")
            h'
            λ u' e' h''.
              with_ok _
                (fail_if (not (str_eq (digest_of s.findings) want.findings_sha256))
                  "finding tuples differ from the reviewed inventory")
                h''
                λ u'' e'' _.
                  let counts = fail_if-ok _ _ e in
                  (
                    ground (arith, counts),
                    ground (arith, counts),
                    ground (arith, counts),
                    ground (arith, counts),
                    not-not _ (fail_if-ok _ _ e'),
                    (eq_iff _ _).0 (not-not _ (fail_if-ok _ _ e'')),
                  )

  pub check_inventory-ok : (s : ReportState) → Complete s → check_inventory lib p want s ≡ ok tt
  unfolding check_inventory Complete digest_of
  check_inventory-ok s (c, b, f, i, a, d) =
      rw
        (
          c,
          b,
          f,
          i,
          a,
          d,
          eq_refl want.findings_sha256,
          same_count want.finding_count,
          same_count (length want.advisories),
        )
        refl
