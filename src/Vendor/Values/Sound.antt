-- ===== src/Vendor/Values/Sound.antt =====
-- What `uniqueValue` reads is a value whose objects have no key twice and that is not nested too deep
-- (scripts/vendorcheck/main.go).
use platform_orchestrator_ru.Base.{
  ℕ, zero, suc, ◌+◌, ◌≤◌, String, List, ◌∷◌, ◌≡◌, refl, true, false, ltb, arith, Bool-cases, inl,
  inr, ap, sym, subst, ◌==◌, [], Bool, if◌then◌else◌,
}
use platform_orchestrator_ru.Vendor.Values.{
  Value, Members, Elements, JsonToken, within_depth, and_read, map_read, done, was_seen, element,
  failed, member, eof, text, unique_value, unique_members, unique_elements, unless_exists, scalar,
  object, array, malformed, open_object, open_array, close_object, close_array, quoted, atom,
  comma_at_end,
}
use platform_orchestrator_ru.Runner.Json.{was_seen, text, scalar}
use platform_orchestrator_ru.Vendor.Values.Readings.{
  HasRead, HasMembers, HasElements, within_depth-done, and_read-done, map_read-done, first_element,
  first_member, done_value, done_rest,
}

-- What a reading of each kind gives, for each fuel.
abbrev pub ValueRead : ℕ → Type 0
ValueRead fuel =
    (n depth : ℕ) (ts rest : List JsonToken) (v : Value)
    → depth + n ≡ 64
    → unique_value fuel depth ts ≡ done v rest
    → HasRead n v ts rest

abbrev MembersRead : ℕ → Type 0
MembersRead fuel =
    (n depth : ℕ) (seen : List String) (ts rest : List JsonToken) (ms : Members)
    → depth + n ≡ 65
    → unique_members fuel depth seen ts ≡ done ms rest
    → HasMembers n seen ms ts rest

abbrev ElementsRead : ℕ → Type 0
ElementsRead fuel =
    (n depth : ℕ) (ts rest : List JsonToken) (es : Elements)
    → depth + n ≡ 65
    → unique_elements fuel depth ts ≡ done es rest
    → HasElements n es ts rest

pub fits_depth :
    (fuel depth : ℕ) (ts : List JsonToken) {v : Value} {rest : List JsonToken}
    → unique_value fuel depth ts ≡ done v rest
    → depth ≤ 64
unfolding unique_value
fits_depth zero depth ts h = cc
fits_depth (suc fuel) depth [] h = within_depth-done _ _ _ h λ fits e. fits
fits_depth (suc fuel) depth (malformed ∷ ts) h = within_depth-done _ _ _ h λ fits e. fits
fits_depth (suc fuel) depth (comma_at_end ∷ ts) h = within_depth-done _ _ _ h λ fits e. fits
fits_depth (suc fuel) depth (open_object ∷ ts) h = within_depth-done _ _ _ h λ fits e. fits
fits_depth (suc fuel) depth (open_array ∷ ts) h = within_depth-done _ _ _ h λ fits e. fits
fits_depth (suc fuel) depth (close_object ∷ ts) h = within_depth-done _ _ _ h λ fits e. fits
fits_depth (suc fuel) depth (close_array ∷ ts) h = within_depth-done _ _ _ h λ fits e. fits
fits_depth (suc fuel) depth (text s ∷ ts) h = within_depth-done _ _ _ h λ fits e. fits
fits_depth (suc fuel) depth (scalar s ∷ ts) h = within_depth-done _ _ _ h λ fits e. fits

element_read :
    (fuel n depth : ℕ) (ts : List JsonToken) {es : Elements} {rest : List JsonToken}
    → ValueRead fuel
    → ElementsRead fuel
    → depth + n ≡ 65
    → and_read
        (unique_value fuel depth ts)
        (λ v after. map_read (element v) (unique_elements fuel depth after))
      ≡ done es rest
    → HasElements n es ts rest
element_read fuel n depth ts {rest = rest} read reads e h = and_read-done _ _ h λ v mid here later.
    map_read-done _ (element v) _ later λ es' more same.
      subst (λ es. HasElements n es ts rest) (sym same)
        (first_element n depth v es' ts mid rest e (fits_depth fuel depth ts here)
          (λ m left. read m depth ts mid v left here) (reads n depth mid rest es' e more))

member_read :
    (fuel n depth : ℕ) (seen : List String) (key : String) (ts : List JsonToken) {ms : Members}
    {rest : List JsonToken}
    → ValueRead fuel
    → MembersRead fuel
    → depth + n ≡ 65
    → unless_exists (was_seen key seen) (
        and_read
          (unique_value fuel depth ts)
          (λ v after. map_read (member key v) (unique_members fuel depth (key ∷ seen) after)))
      ≡ done ms rest
    → HasMembers n seen ms (text key ∷ ts) rest
member_read fuel n depth seen key ts {rest = rest} read reads e h =
    elim (Bool-cases (was_seen key seen)) [
      | inl old ↦ absurd (cc (old, h))
      | inr new ↦ and_read-done _ _ (rw new at h) λ v mid here later.
          map_read-done _ (member key v) _ later λ ms' more same.
            subst (λ ms. HasMembers n seen ms (text key ∷ ts) rest) (sym same)
              (first_member n depth seen key v ms' ts mid rest e (fits_depth fuel depth ts here) new
                (λ m left. read m depth ts mid v left here)
                (reads n depth (key ∷ seen) mid rest ms' e more))
    ]

never_failed {ℓ} :
    (P : Type ℓ) (depth : ℕ) (message : String) {v : Value} {rest : List JsonToken}
    → within_depth depth (failed message) ≡ done v rest
    → P
never_failed P depth message h = elim (Bool-cases (ltb 64 depth)) [
  | inl deep ↦ absurd (cc (deep, h))
  | inr fits ↦ absurd (cc (fits, h))
]

at_end {ℓ} :
    (P : Type ℓ) (top : Bool) {v : Value} {rest : List JsonToken}
    → (if top then eof else failed "unexpected EOF") ≡ done v rest
    → P
at_end P true h = cc
at_end P false h = cc

mutual
  unfolding unique_value HasRead HasMembers HasElements

  pub value_read : (fuel : ℕ) → ValueRead fuel
  value_read zero n depth ts rest x e h = cc
  value_read (suc fuel) n depth [] rest x e h =
      within_depth-done _ depth (if depth == 0 then eof else failed "unexpected EOF") h
        λ fits h'. at_end _ (depth == 0) h'
  value_read (suc fuel) n depth (malformed ∷ ts) rest x e h = never_failed _ depth "syntax error" h
  value_read (suc fuel) n depth (comma_at_end ∷ ts) rest x e h =
      never_failed _ depth (if depth == 0 then "syntax error" else "unexpected EOF") h
  value_read (suc fuel) n depth (close_object ∷ ts) rest x e h =
      never_failed _ depth "unexpected closing JSON delimiter" h
  value_read (suc fuel) n depth (close_array ∷ ts) rest x e h =
      never_failed _ depth "unexpected closing JSON delimiter" h
  value_read (suc fuel) n depth (text s ∷ ts) rest x e h =
      within_depth-done _ depth (done (quoted s) ts) h λ fits h'.
        subst (λ v. HasRead n v (text s ∷ ts) rest) (done_value h')
          (ap (◌∷◌ (text s)) (done_rest h'), refl)
  value_read (suc fuel) n depth (scalar s ∷ ts) rest x e h =
      within_depth-done _ depth (done (atom s) ts) h λ fits h'.
        subst (λ v. HasRead n v (scalar s ∷ ts) rest) (done_value h')
          (ap (◌∷◌ (scalar s)) (done_rest h'), refl)
  value_read (suc fuel) n depth (open_object ∷ ts) rest x e h =
      within_depth-done _ depth (map_read object (unique_members fuel (suc depth) [] ts)) h
        λ fits h'. map_read-done _ object _ h' λ ms more same.
          let (s, u) = members_read fuel n (suc depth) [] ts rest ms (omega arith) more in
          subst (λ v. HasRead n v (open_object ∷ ts) rest) (sym same) (ap (◌∷◌ open_object) s, u)
  value_read (suc fuel) n depth (open_array ∷ ts) rest x e h =
      within_depth-done _ depth (map_read array (unique_elements fuel (suc depth) ts)) h λ fits h'.
        map_read-done _ array _ h' λ es more same.
          let (s, u) = elements_read fuel n (suc depth) ts rest es (omega arith) more in
          subst (λ v. HasRead n v (open_array ∷ ts) rest) (sym same) (ap (◌∷◌ open_array) s, u)

  members_read : (fuel : ℕ) → MembersRead fuel
  members_read zero n depth seen ts rest x e h = cc
  members_read (suc fuel) n depth seen [] rest x e h = cc
  members_read (suc fuel) n depth seen (close_object ∷ ts) rest x e h =
      subst (λ ms. HasMembers n seen ms (close_object ∷ ts) rest) (done_value h)
        (ap (◌∷◌ close_object) (done_rest h), refl)
  members_read (suc fuel) n depth seen (text key ∷ ts) rest x e h =
      member_read fuel n depth seen key ts (value_read fuel) (members_read fuel) e h
  members_read (suc fuel) n depth seen (comma_at_end ∷ ts) rest x e h = cc
  members_read (suc fuel) n depth seen (malformed ∷ ts) rest x e h = cc
  members_read (suc fuel) n depth seen (open_object ∷ ts) rest x e h = cc
  members_read (suc fuel) n depth seen (open_array ∷ ts) rest x e h = cc
  members_read (suc fuel) n depth seen (close_array ∷ ts) rest x e h = cc
  members_read (suc fuel) n depth seen (scalar s ∷ ts) rest x e h = cc

  elements_read : (fuel : ℕ) → ElementsRead fuel
  elements_read zero n depth ts rest x e h = cc
  elements_read (suc fuel) n depth [] rest x e h = cc
  elements_read (suc fuel) n depth (close_object ∷ ts) rest x e h = cc
  elements_read (suc fuel) n depth (close_array ∷ ts) rest x e h =
      subst (λ es. HasElements n es (close_array ∷ ts) rest) (done_value h)
        (ap (◌∷◌ close_array) (done_rest h), refl)
  elements_read (suc fuel) n depth (comma_at_end ∷ ts) rest x e h =
      element_read fuel n depth (comma_at_end ∷ ts) (value_read fuel) (elements_read fuel) e h
  elements_read (suc fuel) n depth (malformed ∷ ts) rest x e h =
      element_read fuel n depth (malformed ∷ ts) (value_read fuel) (elements_read fuel) e h
  elements_read (suc fuel) n depth (open_object ∷ ts) rest x e h =
      element_read fuel n depth (open_object ∷ ts) (value_read fuel) (elements_read fuel) e h
  elements_read (suc fuel) n depth (open_array ∷ ts) rest x e h =
      element_read fuel n depth (open_array ∷ ts) (value_read fuel) (elements_read fuel) e h
  elements_read (suc fuel) n depth (text s ∷ ts) rest x e h =
      element_read fuel n depth (text s ∷ ts) (value_read fuel) (elements_read fuel) e h
  elements_read (suc fuel) n depth (scalar s ∷ ts) rest x e h =
      element_read fuel n depth (scalar s ∷ ts) (value_read fuel) (elements_read fuel) e h
