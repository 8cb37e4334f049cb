-- ===== src/Runner/Bundle.antt =====
-- `unarchiveBundleToFolder` of internal/runner/utils.go. A path is the list of its segments; the folder
-- is an absolute path without dots. The file system answers by a function of what was done before.
use platform_orchestrator_ru.Base.{
  String, Char, List, Bool, Option, Result, ℕ, ◌∷◌, false, [], some, true, if◌then◌else◌, ◌%◌,
  fail_if, Bytes, code, str_eq, none, ◌++◌, not, err, ◌==◌, ◌||◌, is_nil,
}
pub mod Names
pub mod Inside

pub data EntryType : Type 0 where
  directory_entry regular_entry other_entry : EntryType

pub record TarEntry : Type 0 where
  pub name : String
  pub entry_type : EntryType
  pub mode : ℕ
  pub contents : Bytes

-- What is done to the file system.
pub data FileAction : Type 0 where
  make_directories : (path : List String) → FileAction
  write_entry : (path : List String) (mode : ℕ) (contents : Bytes) → FileAction

-- What gzip and tar read: the entries, and whether they end without an error.
pub record Archive : Type 0 where
  pub gzip_opens : Bool
  pub entries : List TarEntry
  pub ends_well : Bool

-- `strings.Split(path, "/")`.
abbrev pub extend_first : Char → List String → List String
extend_first c [] = String.◌∷◌ c String.[] ∷ []
extend_first c (segment ∷ segments) = String.◌∷◌ c segment ∷ segments

unfoldable pub split_slashes : String → List String
split_slashes String.[] = String.[] ∷ []
split_slashes (String.◌∷◌ c s) =
    let rest = split_slashes s in if code c == b'/' then String.[] ∷ rest else extend_first c rest

unfoldable pub is_absolute : String → Bool
is_absolute String.[] = false
is_absolute (String.◌∷◌ c s) = code c == b'/'

-- One segment of a path after those of the cleaned path so far, the last of which comes first.
unfoldable pub step_back : (rooted : Bool) → List String → List String
step_back true [] = []
step_back false [] = ".." ∷ []
step_back rooted (last ∷ before) = if str_eq last ".." then ".." ∷ last ∷ before else before

unfoldable pub clean_segments : (rooted : Bool) → List String → List String → List String
clean_segments rooted path [] = path
clean_segments rooted path (segment ∷ rest) =
    let skipped = clean_segments rooted path rest in
    let back = clean_segments rooted (step_back rooted path) rest in
    let forth = clean_segments rooted (segment ∷ path) rest in
    if str_eq segment "" || str_eq segment "."
    then skipped
    else if str_eq segment ".."
    then back
    else forth

unfoldable pub reverse_onto : List String → List String → List String
reverse_onto [] path = path
reverse_onto (segment ∷ segments) path = reverse_onto segments (segment ∷ path)

-- `filepath.Clean`, as the segments of the cleaned path, which are none for ".".
unfoldable pub clean : String → List String
clean name = reverse_onto (clean_segments (is_absolute name) [] (split_slashes name)) []

-- The path is ".." or begins with "../".
unfoldable pub begins_outside : List String → Bool
begins_outside [] = false
begins_outside (segment ∷ segments) = str_eq segment ".."

-- `filepath.Rel(folder, target)` of a target below the folder.
unfoldable pub relative_to : (folder target : List String) → Option (List String)
relative_to [] target = some target
relative_to (segment ∷ folder) [] = none
relative_to (segment ∷ folder) (first ∷ target) =
    let rest = relative_to folder target in if str_eq segment first then rest else none

unfoldable pub escapes : Option (List String) → Bool
escapes none = true
escapes (some relative) = begins_outside relative

-- `filepath.Dir` of a path that has a segment.
unfoldable pub parent : List String → List String
parent [] = []
parent (segment ∷ []) = []
parent (segment ∷ next ∷ rest) = segment ∷ parent (next ∷ rest)

-- The result, and what was done.
pub record Unarchived : Type 0 where
  pub error : Result (Unit {0})
  pub actions : List FileAction

module _ (works : List FileAction → FileAction → Bool) (folder : List String) where
  -- An action, and what follows if it works. One that fails is still in the list.
  unfoldable pub act :
      FileAction → String → List FileAction → (List FileAction → Unarchived) → Unarchived
  act action message done k =
      if works done action
      then k (done ++ action ∷ [])
      else record { error = err message; actions = done ++ action ∷ [] }

  unfoldable pub extract :
      TarEntry
      → EntryType
      → List String
      → List FileAction
      → (List FileAction → Unarchived)
      → Unarchived
  extract entry directory_entry target done k =
      act (make_directories target) "failed to create directory" done k
  extract entry regular_entry target done k =
      act (make_directories (parent target)) "failed to create parent directories" done λ made.
        act (write_entry target (entry.mode % 512) entry.contents) "failed to write content" made k
  extract entry other_entry target done k = k done

  unfoldable pub unarchive_entries :
      List TarEntry → (ends_well : Bool) → List FileAction → Unarchived
  unarchive_entries [] ends_well done = record {
    error = fail_if (not ends_well) "failed to read tar header";
    actions = done;
  }
  unarchive_entries (entry ∷ rest) ends_well done =
      let name = clean entry.name in
      let target = folder ++ name in
      let extracted =
        extract entry entry.entry_type target done (unarchive_entries rest ends_well) in
      if is_nil name || is_absolute entry.name || begins_outside name
      then record { error = err "bundle entry escapes destination"; actions = done }
      else if escapes (relative_to folder target)
      then record { error = err "bundle entry escapes destination"; actions = done }
      else extracted

  unfoldable pub unarchive_bundle_to_folder : Archive → Unarchived
  unarchive_bundle_to_folder archive =
      if archive.gzip_opens
      then unarchive_entries archive.entries archive.ends_well []
      else record { error = err "failed to create gzip reader"; actions = [] }
