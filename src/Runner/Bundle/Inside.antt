-- ===== src/Runner/Bundle/Inside.antt =====
-- Nothing of a bundle is written outside its folder (internal/runner/utils.go).
use platform_orchestrator_ru.Base.{
  String, List, Bool, ◌∷◌, inr, ◌≡◌, all, ◌||◌, true, Bool-cases, false, inl, arith, [], refl, ◌≢◌,
  ◌++◌, All, is_nil, ap, if◌then◌else◌, err, both_true,
}
use platform_orchestrator_ru.Runner.Bundle.{
  begins_outside, clean, is_absolute, FileAction, make_directories, parent, act, extract,
  unarchive_entries, unarchive_bundle_to_folder, write_entry, Unarchived, TarEntry, Archive,
  EntryType, escapes, directory_entry, relative_to, regular_entry, other_entry,
}
use platform_orchestrator_ru.Runner.Bundle.Names.{is_plain, clean-plain}

parent-append :
    (folder : List String) (name : String) (names : List String)
    → parent (folder ++ name ∷ names) ≡ folder ++ parent (name ∷ names)
unfolding parent
parent-append [] name names = refl
parent-append (segment ∷ []) name names = refl
parent-append (segment ∷ next ∷ rest) name names =
    ap (◌∷◌ segment) (parent-append (next ∷ rest) name names)

all-parent : (names : List String) → all is_plain names ≡ true → all is_plain (parent names) ≡ true
unfolding parent
all-parent [] h = refl
all-parent (name ∷ []) h = refl
all-parent (name ∷ next ∷ rest) h =
    let (plain, others) = both_true (is_plain name) (all is_plain (next ∷ rest)) h in
    rw (plain, all-parent (next ∷ rest) others) refl

first_false : (a b c : Bool) → a || b || c ≡ false → a ≡ false
first_false a b c h = ground arith

last_false : (a b c : Bool) → a || b || c ≡ false → c ≡ false
last_false a b c h = ground arith

not_empty : (names : List String) → is_nil names ≡ false → names ≢ []
not_empty [] h = cc
not_empty (name ∷ names) h = λ e. absurd (cc e)

cons_tail : {a b : String} {xs ys : List String} → a ∷ xs ≡ b ∷ ys → xs ≡ ys
cons_tail e = cc

module _ (folder : List String) where
  -- The path is the folder's, with names after it; a file has at least one.
  abbrev pub Below : List String → Type 0
  Below path = (names : List String) × (path ≡ folder ++ names) × (all is_plain names ≡ true)

  abbrev pub IsInside : FileAction → Type 0
  IsInside (make_directories path) = Below path
  IsInside (write_entry path mode contents) = Below path × (path ≢ folder)

  All-last :
      (done : List FileAction) (action : FileAction)
      → All IsInside done
      → IsInside action
      → All IsInside (done ++ action ∷ [])
  All-last [] action hs h = (h, tt)
  All-last (first ∷ done) action (f, hs) h = (f, All-last done action hs h)

  parent-Below :
      (names : List String)
      → all is_plain names ≡ true
      → names ≢ []
      → Below (parent (folder ++ names))
  parent-Below [] plain some_name = absurd (some_name refl)
  parent-Below (name ∷ names) plain some_name =
      (parent (name ∷ names), parent-append folder name names, all-parent (name ∷ names) plain)

  append_cancels : (folder' names : List String) → folder' ++ names ≡ folder' → names ≡ []
  append_cancels [] names e = e
  append_cancels (segment ∷ rest) names e = append_cancels rest names (cons_tail e)

  module _ (works : List FileAction → FileAction → Bool) where
    act-IsInside :
        (action : FileAction) (message : String) (done : List FileAction)
        (k : List FileAction → Unarchived)
        → IsInside action
        → All IsInside done
        → ((made : List FileAction) → All IsInside made → All IsInside (k made).actions)
        → All IsInside (act works folder action message done k).actions
    unfolding act
    act-IsInside action message done k inside before go = elim (Bool-cases (works done action)) [
      | inl succeeds ↦ rw succeeds (go _ (All-last done action before inside))
      | inr fails ↦ rw fails (All-last done action before inside)
    ]

    extract-IsInside :
        (entry : TarEntry) (entry_type : EntryType) (names : List String) (done : List FileAction)
        (k : List FileAction → Unarchived)
        → all is_plain names ≡ true
        → names ≢ []
        → All IsInside done
        → ((made : List FileAction) → All IsInside made → All IsInside (k made).actions)
        → All IsInside (extract works folder entry entry_type (folder ++ names) done k).actions
    unfolding extract
    extract-IsInside entry directory_entry names done k plain named before go =
        act-IsInside _ _ done k (names, refl, plain) before go
    extract-IsInside entry regular_entry names done k plain named before go =
        act-IsInside _ _ done _ (parent-Below names plain named) before λ made inside.
          act-IsInside _ _ made k ((names, refl, plain), λ e. named (append_cancels folder names e))
            inside go
    extract-IsInside entry other_entry names done k plain named before go = go done before

    unarchive_entries-IsInside :
        (entries : List TarEntry) (ends_well : Bool) (done : List FileAction)
        → All IsInside done
        → All IsInside (unarchive_entries works folder entries ends_well done).actions
    unfolding unarchive_entries
    unarchive_entries-IsInside [] ends_well done before = before
    unarchive_entries-IsInside (entry ∷ rest) ends_well done before =
        elim (Bool-cases (
          is_nil (clean entry.name)
          || is_absolute entry.name
          || begins_outside (clean entry.name))) [
            | inl refused ↦ rw refused before
            | inr accepted ↦
                elim (Bool-cases (escapes (relative_to folder (folder ++ clean entry.name)))) [
                  | inl refused ↦ rw (accepted, refused) before
                  | inr within ↦
                      rw (accepted, within)
                        (extract-IsInside entry entry.entry_type (clean entry.name) done _
                          (clean-plain entry.name (
                            last_false (is_nil (clean entry.name)) (is_absolute entry.name)
                              (begins_outside (clean entry.name)) accepted))
                          (not_empty (clean entry.name) (
                            first_false (is_nil (clean entry.name)) (is_absolute entry.name)
                              (begins_outside (clean entry.name)) accepted))
                          before (unarchive_entries-IsInside rest ends_well))
                ]
          ]

    opened_or_nothing :
        (opens : Bool) (r : Unarchived) (message : String)
        → All IsInside r.actions
        → All IsInside (if opens then r else record { error = err message; actions = [] }).actions
    opened_or_nothing true r message h = h
    opened_or_nothing false r message h = tt

    -- Every directory that is made and every file that is written, whatever the names of the entries
    -- are and whatever fails, has the path of the folder with names after it, none of them empty or a
    -- dot or two; a file is never the folder itself.
    pub unarchive_bundle_to_folder-IsInside :
        (archive : Archive) → All IsInside (unarchive_bundle_to_folder works folder archive).actions
    unfolding unarchive_bundle_to_folder
    unarchive_bundle_to_folder-IsInside archive =
        opened_or_nothing archive.gzip_opens _ _
          (unarchive_entries-IsInside archive.entries archive.ends_well [] tt)
