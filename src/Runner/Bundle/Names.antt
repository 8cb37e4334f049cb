-- ===== src/Runner/Bundle/Names.antt =====
-- A cleaned path that does not begin outside its directory has only names (internal/runner/utils.go).
use platform_orchestrator_ru.Base.{
  String, List, [], ◌∷◌, Bool, true, false, not, str_eq, ◌≡◌, ◌||◌, ◌⊎◌, inr, arith, Bool-cases,
  all, inl, refl,
}
use platform_orchestrator_ru.Runner.Bundle.{
  step_back, clean_segments, reverse_onto, begins_outside, clean, is_absolute, split_slashes,
}

-- A segment that names an entry of its directory.
abbrev pub is_plain : String → Bool
is_plain segment = not (str_eq segment "" || str_eq segment "." || str_eq segment "..")

AllDots : List String → Type 0
AllDots [] = Unit
AllDots (segment ∷ rest) = (str_eq segment ".." ≡ true) × AllDots rest

-- A cleaned path, its last segment first: names, and below them steps out of the directory.
Climbs : List String → Type 0
Climbs [] = Unit
Climbs (segment ∷ rest) = ((is_plain segment ≡ true) × Climbs rest) ⊎ AllDots (segment ∷ rest)

step_back-Climbs :
    (rooted : Bool) (path : List String) → Climbs path → Climbs (step_back rooted path)
unfolding step_back Climbs AllDots
step_back-Climbs true [] h = tt
step_back-Climbs false [] h = inr (refl, tt)
step_back-Climbs rooted (last ∷ before) h = elim (Bool-cases (str_eq last "..")) [
  | inl dots ↦ rw dots (elim h [
    | inl (plain, rest) ↦ absurd (ground (arith, plain, dots))
    | inr all_dots ↦ inr (refl, all_dots)
  ])
  | inr other ↦ rw other (elim h [
    | inl (plain, rest) ↦ rest
    | inr (dots, all_dots) ↦ absurd (ground (arith, dots, other))
  ])
]

plain_name : (a b c : Bool) → a || b ≡ false → c ≡ false → not (a || b || c) ≡ true
plain_name a b c h h' = ground arith

clean_segments-Climbs :
    (rooted : Bool) (segments path : List String)
    → Climbs path
    → Climbs (clean_segments rooted path segments)
unfolding clean_segments Climbs
clean_segments-Climbs rooted [] path h = h
clean_segments-Climbs rooted (segment ∷ rest) path h =
    elim (Bool-cases (str_eq segment "" || str_eq segment ".")) [
      | inl skips ↦ rw skips (clean_segments-Climbs rooted rest path h)
      | inr names ↦ elim (Bool-cases (str_eq segment "..")) [
        | inl dots ↦
            rw (names, dots)
              (clean_segments-Climbs rooted rest (step_back rooted path)
                (step_back-Climbs rooted path h))
        | inr other ↦
            rw (names, other)
              (clean_segments-Climbs rooted rest (segment ∷ path) (
                inl (
                  plain_name (str_eq segment "") (str_eq segment ".") (str_eq segment "..") names
                      other,
                  h,
                )))
      ]
    ]

begins_outside-dots :
    (dots path : List String)
    → AllDots dots
    → begins_outside path ≡ true
    → begins_outside (reverse_onto dots path) ≡ true
unfolding reverse_onto begins_outside AllDots
begins_outside-dots [] path h outside = outside
begins_outside-dots (segment ∷ dots) path (h, hs) outside =
    begins_outside-dots dots (segment ∷ path) hs h

outside_first :
    (segment : String) (path : List String)
    → str_eq segment ".." ≡ true
    → begins_outside (segment ∷ path) ≡ true
unfolding begins_outside
outside_first segment path h = h

reverse_onto-plain :
    (path ready : List String)
    → Climbs path
    → all is_plain ready ≡ true
    → begins_outside (reverse_onto path ready) ≡ false
    → all is_plain (reverse_onto path ready) ≡ true
unfolding reverse_onto Climbs AllDots
reverse_onto-plain [] ready h plain inside = plain
reverse_onto-plain (segment ∷ path) ready (inl (name, h)) plain inside =
    reverse_onto-plain path (segment ∷ ready) h (rw (name, plain) refl) inside
reverse_onto-plain (segment ∷ path) ready (inr (dots, all_dots)) plain inside = absurd (
    ground (
      arith,
      inside,
      begins_outside-dots path (segment ∷ ready) all_dots (outside_first segment ready dots),
    ))

-- A cleaned path that does not begin outside has only names.
pub clean-plain :
    (name : String) → begins_outside (clean name) ≡ false → all is_plain (clean name) ≡ true
unfolding clean Climbs
clean-plain name inside =
    reverse_onto-plain _ [] (clean_segments-Climbs (is_absolute name) (split_slashes name) [] tt)
      refl inside
