-- ===== src/Logs/Prefix.antt =====
-- What a limited buffer holds (internal/limitedlogsbuffer/limitedlogsbuffer.go).
use platform_orchestrator_ru.Base.{
  ℕ, zero, suc, ◌-◌, ◌≤◌, Bytes, List, [], ◌∷◌, ◌++◌, ◌≡◌, refl, none, length, take, arith,
  length-append, length-take, ap, Bool-cases, ltb, leb, inl, inr, sym, ◌∙◌, if◌then◌else◌, min,
}
use platform_orchestrator_ru.Logs.{
  LimitedLogsBuffer, Writer, new_limited_logs_buffer, fitting, write, write_all,
}

abbrev pub concat : List Bytes → Bytes
concat [] = []
concat (p ∷ ps) = p ++ concat ps

take_all : (n : ℕ) (xs : Bytes) → length xs ≤ n → take n xs ≡ xs
take_all zero [] h = refl
take_all zero (x ∷ xs) h = absurd (omega arith)
take_all (suc n) [] h = refl
take_all (suc n) (x ∷ xs) h = ap (◌∷◌ x) (take_all n xs (omega arith))

take-nil_lem : (n : ℕ) → ◌≡◌ {A = Bytes} (take n []) []
take-nil_lem zero = refl
take-nil_lem (suc n) = refl

-- A prefix of two lists, in two parts.
take_append : (n : ℕ) (xs ys : Bytes) → take n (xs ++ ys) ≡ take n xs ++ take (n - length xs) ys
take_append zero xs ys = let e : 0 - length xs ≡ 0 = omega arith in rw e refl
take_append (suc n) [] ys = let e : suc n - 0 ≡ suc n = omega arith in rw e refl
take_append (suc n) (x ∷ xs) ys =
    let e : suc n - suc (length xs) ≡ n - length xs = omega arith in
    rw e (ap (◌∷◌ x) (take_append n xs ys))

append_nil : (xs : Bytes) → xs ++ [] ≡ xs
append_nil [] = refl
append_nil (x ∷ xs) = ap (◌∷◌ x) (append_nil xs)

append_assoc : (xs ys zs : Bytes) → (xs ++ ys) ++ zs ≡ xs ++ (ys ++ zs)
append_assoc [] ys zs = refl
append_assoc (x ∷ xs) ys zs = ap (◌∷◌ x) (append_assoc xs ys zs)

fitting_lem :
    (buffer : LimitedLogsBuffer) (p : Bytes) → fitting buffer p ≡ take (buffer.limit - buffer.n) p
unfolding fitting
fitting_lem buffer p = elim (Bool-cases (ltb (buffer.limit - buffer.n) (length p))) [
  | inl long ↦ rw long refl
  | inr short ↦ rw short (sym (take_all (buffer.limit - buffer.n) p (ground arith)))
]

-- The documented behaviour of a writer that takes every slice whole, as a bytes.Buffer does.
abbrev pub TakesAll : Writer → Type 0
TakesAll writer = (held slice : Bytes) → writer held slice ≡ (length slice, none)

module _ (writer : Writer) (takes : TakesAll writer) where
  -- The buffer after a write: what it holds is counted, and is extended by the part that fits.
  write-written :
      (limit : ℕ) (written p : Bytes)
      → let buffer : LimitedLogsBuffer = record {
        limit = limit;
        n = length written;
        written = written;
      } in
        (write writer buffer p).1 ≡ record {
          limit = limit;
          n = length (written ++ take (limit - length written) p);
          written = written ++ take (limit - length written) p;
        }
  unfolding write
  write-written limit written p =
      let buffer : LimitedLogsBuffer = record {
        limit = limit;
        n = length written;
        written = written;
      } in
      let fit = fitting_lem buffer p in
      elim (Bool-cases (leb limit (length written))) [
        | inl closed ↦
            let e : limit - length written ≡ 0 = ground arith in
            rw closed (rw e (rw (append_nil written) refl))
        | inr room ↦
            let whole =
              take_all (length (take (limit - length written) p)) (take (limit - length written) p)
                (omega arith) in
            rw room (
              rw fit (
                rw (takes written (take (limit - length written) p))
                  (rw whole (rw (length-append written (take (limit - length written) p)) refl))))
      ]

  write_all-written :
      (limit : ℕ) (written : Bytes) (ps : List Bytes)
      → length written ≤ limit
      → (write_all writer
          (record { limit = limit; n = length written; written = written })
          ps).written
        ≡ written ++ take (limit - length written) (concat ps)
  unfolding write_all
  write_all-written limit written [] h =
      rw (take-nil_lem (limit - length written)) (sym (append_nil written))
  write_all-written limit written (p ∷ ps) h =
      let m = limit - length written in
      let kept = written ++ take m p in
      let count = length-append written (take m p) in
      let cut = length-take m p in
      let left : limit - length kept ≡ m - length p = omega (arith, count, cut) in
      ap (λ b. (write_all writer b ps).written) (write-written limit written p)
      ∙ (write_all-written limit kept ps (omega (arith, count, cut))
          ∙ rw left (
              rw (append_assoc written (take m p) (take (m - length p) (concat ps)))
                (ap (λ rest. written ++ rest) (sym (take_append m p (concat ps))))))

-- Over a writer that takes every slice whole, the buffer holds exactly the prefix of all that was
-- written, up to its limit, however the writes are cut.
pub write_all-prefix :
    (writer : Writer) (limit : ℕ) (ps : List Bytes)
    → TakesAll writer
    → (write_all writer (new_limited_logs_buffer limit) ps).written ≡ take limit (concat ps)
unfolding new_limited_logs_buffer
write_all-prefix writer limit ps takes =
    let e : limit - 0 ≡ limit = omega arith in
    rw (write_all-written writer takes limit [] ps (omega arith)) (rw e refl)

-- The count that a write returns: the whole length of the slice once the limit was reached, when
-- nothing is written, and otherwise the number of bytes that fit, also when that is less.
pub write-count :
    (writer : Writer) (buffer : LimitedLogsBuffer) (p : Bytes)
    → (write writer buffer p).0.0
      ≡ (if leb buffer.limit buffer.n then length p else min (buffer.limit - buffer.n) (length p))
unfolding write
write-count writer buffer p = elim (Bool-cases (leb buffer.limit buffer.n)) [
  | inl full ↦ rw full refl
  | inr room ↦ rw room (rw (fitting_lem buffer p) (length-take (buffer.limit - buffer.n) p))
]
