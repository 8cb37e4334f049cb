-- ===== src/Vendor/Values/Ends.antt =====
-- In an input that does not end right after a comma, only its end, before a value, is `io.EOF` for
-- `uniqueValue` (scripts/vendorcheck/main.go).
use platform_orchestrator_ru.Base.{
  ◌∙◌, sym, ◌-◌, ◌≡◌, refl, Bool-cases, inl, inr, true, false, Bool, ℕ, List, suc, [], ◌∷◌, ltb, ap,
  String, zero, ◌⊎◌, ◌==◌, if◌then◌else◌, arith,
}
use platform_orchestrator_ru.Vendor.Values.Written.{value_tokens, members_tokens, elements_tokens}
use platform_orchestrator_ru.Vendor.Values.Readings.{HasRead}
use platform_orchestrator_ru.Vendor.Values.Sound.{value_read, fits_depth}
use platform_orchestrator_ru.Vendor.Values.{
  comma_at_end, Members, Elements, no_members, no_elements, eof, failed, done, malformed,
  open_object, open_array, close_object, close_array, scalar, text, Reading, unique_value,
  JsonToken, map_read, Value, next_value, and_read, within_depth, object, unique_members, array,
  unique_elements, quoted, atom, was_seen, member, element,
}
use platform_orchestrator_ru.Runner.Json.{was_seen}

module _ {A : Type 0} where
  abbrev is_eof : Reading A → Bool
  is_eof eof = true
  is_eof (failed message) = false
  is_eof (done a rest) = false

module _ {A B : Type 0} where
  and_read-eof :
      (r : Reading A) (k : A → List JsonToken → Reading B)
      → is_eof r ≡ false
      → ((a : A) (rest : List JsonToken) → r ≡ done a rest → is_eof (k a rest) ≡ false)
      → is_eof (and_read r k) ≡ false
  and_read-eof eof k h h' = cc
  and_read-eof (failed message) k h h' = refl
  and_read-eof (done a rest) k h h' = h' a rest refl

  map_read-eof : (f : A → B) (r : Reading A) → is_eof r ≡ false → is_eof (map_read f r) ≡ false
  map_read-eof f eof h = cc
  map_read-eof f (failed message) h = refl
  map_read-eof f (done a rest) h = refl

within_depth-eof :
    (depth : ℕ) (r : Reading Value) → is_eof r ≡ false → is_eof (within_depth depth r) ≡ false
within_depth-eof depth r h = elim (Bool-cases (ltb 64 depth)) [
  | inl deep ↦ rw deep refl
  | inr fits ↦ rw fits h
]

-- No comma of the input has nothing after it.
abbrev pub is_whole : List JsonToken → Bool
is_whole [] = true
is_whole (comma_at_end ∷ rest) = false
is_whole (_ ∷ rest) = is_whole rest

WholeValue : Value → Type 0
WholeValue v = (rest : List JsonToken) → is_whole (value_tokens v rest) ≡ is_whole rest

WholeMembers : Members → Type 0
WholeMembers ms = (rest : List JsonToken) → is_whole (members_tokens ms rest) ≡ is_whole rest

WholeElements : Elements → Type 0
WholeElements es = (rest : List JsonToken) → is_whole (elements_tokens es rest) ≡ is_whole rest

value_tokens-is_whole : (v : Value) → WholeValue v
unfolding WholeValue WholeMembers WholeElements
value_tokens-is_whole v = elim v as WholeValue WholeMembers WholeElements [
  | atom s ↦ λ rest. refl
  | quoted s ↦ λ rest. refl
  | object (ms → ih) ↦ λ rest. ih rest
  | array (es → ih) ↦ λ rest. ih rest
  | no_members ↦ λ rest. refl
  | member key (v → ih) (ms → ihs) ↦ λ rest. ih (members_tokens ms rest) ∙ ihs rest
  | no_elements ↦ λ rest. refl
  | element (v → ih) (es → ihs) ↦ λ rest. ih (elements_tokens es rest) ∙ ihs rest
]

pub value-is_whole :
    (v : Value) (rest : List JsonToken) → is_whole (value_tokens v rest) ≡ is_whole rest
unfolding WholeValue
value-is_whole v = value_tokens-is_whole v

-- What is left after a value of a whole input is whole.
rest-is_whole :
    (fuel depth : ℕ) (ts : List JsonToken) (v : Value) (rest : List JsonToken)
    → unique_value fuel depth ts ≡ done v rest
    → is_whole ts ≡ true
    → is_whole rest ≡ true
unfolding HasRead
rest-is_whole fuel depth ts v rest e h =
    let fits = fits_depth fuel depth ts e in
    let (s, u) = value_read fuel (64 - depth) depth ts rest v (omega (arith, fits)) e in
    sym (value-is_whole v rest) ∙ ap is_whole (sym s) ∙ h

element_continues :
    (fuel depth : ℕ) (ts : List JsonToken)
    → is_eof (unique_value fuel (suc depth) ts) ≡ false
    → is_whole ts ≡ true
    → ((rest : List JsonToken)
        → is_whole rest ≡ true
        → is_eof (unique_elements fuel (suc depth) rest) ≡ false)
    → is_eof (
        and_read
          (unique_value fuel (suc depth) ts)
          (λ v after. map_read (element v) (unique_elements fuel (suc depth) after)))
      ≡ false
element_continues fuel depth ts h whole h' = and_read-eof _ _ h λ v rest e.
    map_read-eof (element v) _ (h' rest (rest-is_whole fuel (suc depth) ts v rest e whole))

suc_positive : (n : ℕ) → suc n == 0 ≡ false
suc_positive n = ground arith

pub Reading-cases :
    {A : Type 0} (r : Reading A)
    → (r ≡ eof)
      ⊎ (((message : String) × (r ≡ failed message))
          ⊎ ((a : A) × (rest : List JsonToken) × (r ≡ done a rest)))
Reading-cases eof = inl refl
Reading-cases (failed message) = inr (inl (message, refl))
Reading-cases (done a rest) = inr (inr (a, rest, refl))

mutual
  unfolding unique_value

  value_continues :
      (fuel depth : ℕ) (ts : List JsonToken)
      → is_whole ts ≡ true
      → is_eof (unique_value fuel (suc depth) ts) ≡ false
  value_continues zero depth ts h = refl
  value_continues (suc fuel) depth [] h =
      within_depth-eof (suc depth) (if suc depth == 0 then eof else failed "unexpected EOF")
        (rw (suc_positive depth) refl)
  value_continues (suc fuel) depth (malformed ∷ ts) h =
      within_depth-eof (suc depth) (failed "syntax error") refl
  value_continues (suc fuel) depth (comma_at_end ∷ ts) h = cc
  value_continues (suc fuel) depth (open_object ∷ ts) h =
      within_depth-eof (suc depth) (map_read object (unique_members fuel (suc (suc depth)) [] ts))
        (map_read-eof object _ (members_continue fuel (suc depth) [] ts h))
  value_continues (suc fuel) depth (open_array ∷ ts) h =
      within_depth-eof (suc depth) (map_read array (unique_elements fuel (suc (suc depth)) ts))
        (map_read-eof array _ (elements_continue fuel (suc depth) ts h))
  value_continues (suc fuel) depth (close_object ∷ ts) h =
      within_depth-eof (suc depth) (failed "unexpected closing JSON delimiter") refl
  value_continues (suc fuel) depth (close_array ∷ ts) h =
      within_depth-eof (suc depth) (failed "unexpected closing JSON delimiter") refl
  value_continues (suc fuel) depth (text s ∷ ts) h =
      within_depth-eof (suc depth) (done (quoted s) ts) refl
  value_continues (suc fuel) depth (scalar s ∷ ts) h =
      within_depth-eof (suc depth) (done (atom s) ts) refl

  members_continue :
      (fuel depth : ℕ) (seen : List String) (ts : List JsonToken)
      → is_whole ts ≡ true
      → is_eof (unique_members fuel (suc depth) seen ts) ≡ false
  members_continue zero depth seen ts h = refl
  members_continue (suc fuel) depth seen [] h = refl
  members_continue (suc fuel) depth seen (close_object ∷ ts) h = refl
  members_continue (suc fuel) depth seen (text key ∷ ts) h = elim (Bool-cases (was_seen key seen)) [
    | inl old ↦ rw old refl
    | inr new ↦ rw new (
        and_read-eof _ _ (value_continues fuel depth ts h) λ v rest e.
          map_read-eof (member key v) _ (
            members_continue fuel depth (key ∷ seen) rest
              (rest-is_whole fuel (suc depth) ts v rest e h)))
  ]
  members_continue (suc fuel) depth seen (comma_at_end ∷ ts) h = cc
  members_continue (suc fuel) depth seen (malformed ∷ ts) h = refl
  members_continue (suc fuel) depth seen (open_object ∷ ts) h = refl
  members_continue (suc fuel) depth seen (open_array ∷ ts) h = refl
  members_continue (suc fuel) depth seen (close_array ∷ ts) h = refl
  members_continue (suc fuel) depth seen (scalar s ∷ ts) h = refl

  elements_continue :
      (fuel depth : ℕ) (ts : List JsonToken)
      → is_whole ts ≡ true
      → is_eof (unique_elements fuel (suc depth) ts) ≡ false
  elements_continue zero depth ts h = refl
  elements_continue (suc fuel) depth [] h = refl
  elements_continue (suc fuel) depth (close_object ∷ ts) h = refl
  elements_continue (suc fuel) depth (close_array ∷ ts) h = refl
  elements_continue (suc fuel) depth (comma_at_end ∷ ts) h = cc
  elements_continue (suc fuel) depth (malformed ∷ ts) h =
      element_continues fuel depth (malformed ∷ ts) (value_continues fuel depth (malformed ∷ ts) h)
        h (elements_continue fuel depth)
  elements_continue (suc fuel) depth (open_object ∷ ts) h =
      element_continues fuel depth (open_object ∷ ts)
        (value_continues fuel depth (open_object ∷ ts) h) h (elements_continue fuel depth)
  elements_continue (suc fuel) depth (open_array ∷ ts) h =
      element_continues fuel depth (open_array ∷ ts)
        (value_continues fuel depth (open_array ∷ ts) h) h (elements_continue fuel depth)
  elements_continue (suc fuel) depth (text s ∷ ts) h =
      element_continues fuel depth (text s ∷ ts) (value_continues fuel depth (text s ∷ ts) h) h
        (elements_continue fuel depth)
  elements_continue (suc fuel) depth (scalar s ∷ ts) h =
      element_continues fuel depth (scalar s ∷ ts) (value_continues fuel depth (scalar s ∷ ts) h) h
        (elements_continue fuel depth)

first_continues :
    (ts : List JsonToken) (token : JsonToken)
    → is_whole (token ∷ ts) ≡ true
    → is_eof (next_value (token ∷ ts)) ≡ false
unfolding unique_value next_value
first_continues ts malformed h = refl
first_continues ts comma_at_end h = cc
first_continues ts open_object h = map_read-eof object _ (members_continue _ 0 [] ts h)
first_continues ts open_array h = map_read-eof array _ (elements_continue _ 0 ts h)
first_continues ts close_object h = refl
first_continues ts close_array h = refl
first_continues ts (text s) h = refl
first_continues ts (scalar s) h = refl

-- A whole input has ended when there is no value.
pub next_value-eof : (ts : List JsonToken) → is_whole ts ≡ true → next_value ts ≡ eof → ts ≡ []
next_value-eof [] whole h = refl
next_value-eof (token ∷ ts) whole h = absurd (cc (first_continues ts token whole, ap is_eof h))
