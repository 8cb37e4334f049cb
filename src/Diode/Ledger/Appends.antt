-- ===== src/Diode/Ledger/Appends.antt =====
-- Reading the ledger after an ID was appended (internal/diode/relay.go).
use platform_orchestrator_ru.Base.{
  ℕ, Bytes, List, [], ◌∷◌, ◌++◌, ◌≡◌, refl, ap, Bool-cases, All, ◌⊎◌, inl, ◌==◌, inr, is_nil, ◌≢◌,
  false, arith, sym,
}
use platform_orchestrator_ru.Diode.Ledger.{
  newline, split_lines, non_empty, read_processed, append_processed, extend,
}

++-assoc : {A : Type 0} (xs ys zs : List A) → (xs ++ ys) ++ zs ≡ xs ++ (ys ++ zs)
++-assoc [] ys zs = refl
++-assoc (x ∷ xs) ys zs = ap (◌∷◌ x) (++-assoc xs ys zs)

++-nil : {A : Type 0} (xs : List A) → xs ++ [] ≡ xs
++-nil [] = refl
++-nil (x ∷ xs) = ap (◌∷◌ x) (++-nil xs)

-- There is always a first line.
split_lines-cases :
    (xs : Bytes) → (line : Bytes) × (lines : List Bytes) × (split_lines xs ≡ line ∷ lines)
unfolding split_lines
split_lines-cases [] = ([], [], refl)
split_lines-cases (x ∷ xs) = elim (Bool-cases (x == newline)) [
  | inl ends ↦ ([], split_lines xs, rw ends refl)
  | inr goes ↦ let (line, lines, e) = split_lines-cases xs in (x ∷ line, lines, rw goes (rw e refl))
]

extend-append :
    (x : ℕ) (xs : Bytes) (lines : List Bytes)
    → extend x (split_lines xs ++ lines) ≡ extend x (split_lines xs) ++ lines
extend-append x xs lines = let (first, rest, e) = split_lines-cases xs in rw e refl

split_lines-append :
    (xs ys : Bytes) → split_lines (xs ++ newline ∷ ys) ≡ split_lines xs ++ split_lines ys
unfolding split_lines
split_lines-append [] ys = refl
split_lines-append (x ∷ xs) ys = elim (Bool-cases (x == newline)) [
  | inl ends ↦ rw ends (ap (◌∷◌ []) (split_lines-append xs ys))
  | inr goes ↦ rw goes (rw (split_lines-append xs ys) (extend-append x xs (split_lines ys)))
]

non_empty-append : (xs ys : List Bytes) → non_empty (xs ++ ys) ≡ non_empty xs ++ non_empty ys
unfolding non_empty
non_empty-append [] ys = refl
non_empty-append (x ∷ xs) ys = elim (Bool-cases (is_nil x)) [
  | inl none_left ↦ rw none_left (non_empty-append xs ys)
  | inr more ↦ rw more (ap (◌∷◌ x) (non_empty-append xs ys))
]

read_processed-append :
    (xs ys : Bytes) → read_processed (xs ++ newline ∷ ys) ≡ read_processed xs ++ read_processed ys
unfolding read_processed
read_processed-append xs ys =
    rw (split_lines-append xs ys) (non_empty-append (split_lines xs) (split_lines ys))

-- An ID that stands on a line of its own.
abbrev pub IsLine : Bytes → Type 0
IsLine id = All (λ x. x ≢ newline) id

split_lines-line : (id : Bytes) → IsLine id → split_lines id ≡ id ∷ []
unfolding split_lines
split_lines-line [] h = refl
split_lines-line (x ∷ xs) h =
    let goes : (x == newline) ≡ false = ground (arith, h.0) in
    rw goes (rw (split_lines-line xs h.1) refl)

-- A ledger that is empty or ends with a newline, as appending leaves it.
abbrev pub IsEnded : Bytes → Type 0
IsEnded contents = (contents ≡ []) ⊎ ((before : Bytes) × (contents ≡ before ++ newline ∷ []))

module _ (x : ℕ) (id : Bytes) where
  read_line : IsLine (x ∷ id) → read_processed ((x ∷ id) ++ newline ∷ []) ≡ (x ∷ id) ∷ []
  unfolding read_processed non_empty split_lines
  read_line h = rw (split_lines-append (x ∷ id) []) (rw (split_lines-line (x ∷ id) h) refl)

  -- Reading a ledger that was empty or ended with a newline, after a non-empty ID without a newline was
  -- appended to it, gives the IDs that it had before and that one, and the ledger ends with a newline again.
  pub read_processed-append_processed :
      (contents : Bytes)
      → IsEnded contents
      → IsLine (x ∷ id)
      → (read_processed (append_processed contents (x ∷ id))
          ≡ read_processed contents ++ ((x ∷ id) ∷ []))
        × IsEnded (append_processed contents (x ∷ id))
  unfolding append_processed read_processed non_empty split_lines
  read_processed-append_processed contents (inl fresh) h =
      rw fresh (rw (read_line h) refl, inr (x ∷ id, refl))
  read_processed-append_processed contents (inr (before, e)) h = (
    rw e (
        rw (++-assoc before (newline ∷ []) ((x ∷ id) ++ newline ∷ [])) (
          rw
            (
              read_processed-append before ((x ∷ id) ++ newline ∷ []),
              read_processed-append before [],
              read_line h,
            )
            (rw (++-nil (non_empty (split_lines before))) refl))),
    inr (contents ++ (x ∷ id), sym (++-assoc contents (x ∷ id) (newline ∷ []))),
  )
