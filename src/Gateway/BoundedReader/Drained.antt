-- ===== src/Gateway/BoundedReader/Drained.antt =====
-- Reading a request body to its end through `boundedReader` (internal/gateway/server.go).
use platform_orchestrator_ru.Base.{
  ℕ, zero, suc, ◌-◌, ◌≡◌, refl, ◌≢◌, ◌<◌, ◌≤◌, Bytes, [], ◌∷◌, ◌++◌, Bool, false, ◌||◌, min, length,
  take, drop, leb, arith, Bool-cases, length-take, inl, inr, ap, not, is_nil, ◌⊎◌, ◌==◌, subst,
  if◌then◌else◌, sym,
}
use platform_orchestrator_ru.Gateway.BoundedReader.{read_all, read, BoundedReader, read_some, Read}

-- The pieces of a list that is cut first after at most `n` and then after `m` elements in all.
take-split :
    (n m : ℕ) (xs : Bytes)
    → n ≤ m
    → take n xs ++ take (m - length (take n xs)) (drop n xs) ≡ take m xs
take-split zero m xs h = let e : m - 0 ≡ m = omega arith in rw e
take-split (suc n) zero xs h = absurd (omega arith)
take-split (suc n) (suc m) [] h = let e : suc m - 0 ≡ suc m = omega arith in rw e
take-split (suc n) (suc m) (x ∷ xs) h =
    let e : suc m - suc (length (take n xs)) ≡ m - length (take n xs) = omega arith in
    rw e (ap (◌∷◌ x) (take-split n m xs (omega arith)))

take-nil : (n : ℕ) → ◌≡◌ {A = Bytes} (take n []) []
take-nil zero = refl
take-nil (suc n) = refl

length-drop : (n : ℕ) (xs : Bytes) → length (drop n xs) ≡ length xs - n
length-drop zero xs = omega arith
length-drop (suc n) [] = omega arith
length-drop (suc n) (x ∷ xs) = omega (arith, length-drop n xs)

abbrev pub IsDrained : BoundedReader → Bytes × BoundedReader → Type 0
IsDrained r result =
    (result.0 ≡ take r.remaining r.source)
    × (result.1.exceeded ≡ (r.exceeded || leb r.remaining (length r.source)))

-- A read of some bytes that uses the room up, or that leaves some, followed by the rest of the loop.
module _ (x : ℕ) (xs : Bytes) (remaining count : ℕ) (exceeded : Bool)
    (within : suc count ≤ remaining) where
  abbrev start : BoundedReader
  start = record { source = x ∷ xs; remaining = remaining; exceeded = exceeded }

  abbrev used : ℕ
  used = length (take (suc count) (x ∷ xs))

  abbrev full : Read
  full = record {
    bytes = take (suc count) (x ∷ xs);
    eof = false;
    reader = record {
      source = drop 1 (drop count xs);
      remaining = remaining - used;
      exceeded = exceeded || not (is_nil (drop count xs));
    };
  }

  abbrev partial : Read
  partial = record {
    bytes = take (suc count) (x ∷ xs);
    eof = false;
    reader = record { source = drop count xs; remaining = remaining - used; exceeded = exceeded };
  }

  full-IsDrained :
      (rest : Bytes × BoundedReader)
      → remaining - used ≡ 0
      → IsDrained full.reader rest
      → IsDrained start (full.bytes ++ rest.0, rest.1)
  full-IsDrained rest closed ih = (
    rw ih.0 (
        let whole = take-split (suc count) remaining (x ∷ xs) within in
        rw closed (rw closed at whole)),
    ground (arith, ih.1, length-take count xs),
  )

  partial-IsDrained :
      (rest : Bytes × BoundedReader)
      → remaining - used ≢ 0
      → IsDrained partial.reader rest
      → IsDrained start (partial.bytes ++ rest.0, rest.1)
  partial-IsDrained rest room ih = (
    rw ih.0 (take-split (suc count) remaining (x ∷ xs) within),
    ground (arith, ih.1, length-take count xs, length-drop count xs),
  )

  read_some_cases :
      ((read_some start (suc count) ≡ full) × (remaining - used ≡ 0))
      ⊎ ((read_some start (suc count) ≡ partial) × (remaining - used ≢ 0))
  unfolding read_some
  read_some_cases = elim (Bool-cases (remaining - used == 0)) [
    | inl closed ↦ inl (rw closed, ground arith)
    | inr room ↦ inr (rw room, ground arith)
  ]

module _ (fuel : ℕ) (sizes : ℕ → ℕ × ℕ)
    (ih : (r : BoundedReader) → length r.source < fuel → IsDrained r (read_all fuel sizes r)) where
  -- What the loop makes of one read.
  abbrev continued : Read → Bytes × BoundedReader
  continued one =
      if one.eof
      then (one.bytes, one.reader)
      else (one.bytes ++ (read_all fuel sizes one.reader).0, (read_all fuel sizes one.reader).1)

  read_some-IsDrained :
      (source : Bytes) (remaining count : ℕ) (exceeded : Bool)
      → suc count ≤ remaining
      → length source < suc fuel
      → let r : BoundedReader = record {
        source = source;
        remaining = remaining;
        exceeded = exceeded;
      } in
        IsDrained r (continued (read_some r (suc count)))
  unfolding read_some
  read_some-IsDrained [] remaining count exceeded within enough = ground (arith, take-nil remaining)
  read_some-IsDrained (x ∷ xs) remaining count exceeded within enough =
      elim (read_some_cases x xs remaining count exceeded within) [
        | inl (e, closed) ↦
            subst (λ one. IsDrained (start x xs remaining count exceeded within) (continued one))
              (sym e)
              (full-IsDrained x xs remaining count exceeded within
                (read_all fuel sizes (full x xs remaining count exceeded within).reader) closed
                (ih (full x xs remaining count exceeded within).reader
                  (omega (arith, length-drop count xs, length-drop 1 (drop count xs)))))
        | inr (e, room) ↦
            subst (λ one. IsDrained (start x xs remaining count exceeded within) (continued one))
              (sym e)
              (partial-IsDrained x xs remaining count exceeded within
                (read_all fuel sizes (partial x xs remaining count exceeded within).reader) room
                (ih (partial x xs remaining count exceeded within).reader
                  (omega (arith, length-drop count xs))))
      ]

-- Read to its end, a reader gives the body up to its limit, whatever the sizes of the reads, and
-- reports that the limit was exceeded exactly if the body fills it (or if it had been before).
pub read_all_lem :
    (fuel : ℕ) (sizes : ℕ → ℕ × ℕ) (r : BoundedReader)
    → length r.source < fuel
    → IsDrained r (read_all fuel sizes r)
unfolding read_all read
read_all_lem zero sizes r enough = absurd (omega arith)
read_all_lem (suc fuel) sizes r enough = elim (Bool-cases (r.remaining == 0)) [
  | inl closed ↦
      let e : r.remaining ≡ 0 = ground arith in
      rw (closed, read_all, read) (rw e (refl, ground arith))
  | inr room ↦
      let m = min (suc (sizes fuel).1) (min (suc (sizes fuel).0) r.remaining) in
      let pos : m ≡ suc (m - 1) = ground arith in
      rw (room, read_all, read)
        (subst (λ c. IsDrained r (continued fuel sizes (read_all_lem fuel sizes) (read_some r c)))
          (sym pos)
          (read_some-IsDrained fuel sizes (read_all_lem fuel sizes) r.source r.remaining (m - 1)
            r.exceeded (ground arith) enough))
]
