-- ===== src/Notices/Modules.antt =====
-- The graph of modules and the declared licenses that scripts/noticecheck/main.go reads. A map is a list with
-- one entry for a key, and the order of its entries is that in which the loops over it run.
use platform_orchestrator_ru.Base.{
  ok, err, some, none, [], ◌∷◌, String, List, ℕ, if◌then◌else◌, Option, Result, str_append, Bool,
  str_eq, map, len, is_some, true, ◌==◌, ◌||◌, code, ◌&&◌, not,
}
use platform_orchestrator_ru.Runner.Diagnostics.{split_on}
use platform_orchestrator_ru.Runner.Patterns.{all_chars}
use platform_orchestrator_ru.Runner.Artifacts.{is_lower_hex}

pub record GraphModule : Type 0 where
  pub path : String
  pub version : String
  pub dir : String

pub record Declaration : Type 0 where
  pub spdx : String
  pub sha256 : String
  pub blob : String

unfoldable pub set_module : GraphModule → List GraphModule → List GraphModule
set_module m [] = m ∷ []
set_module m (other ∷ rest) =
    let later = set_module m rest in if str_eq m.path other.path then m ∷ rest else other ∷ later

unfoldable pub graph_module : List String → Option GraphModule
graph_module (path ∷ version ∷ dir ∷ []) =
    some (record { path = path; version = version; dir = dir })
graph_module fields = none

unfoldable pub parse_graph : (lines : List String) → List GraphModule → Result (List GraphModule)
parse_graph [] modules = ok modules
parse_graph (String.[] ∷ rest) modules = parse_graph rest modules
parse_graph (String.◌∷◌ c s ∷ rest) modules = elim (graph_module (split_on b'|' (String.◌∷◌ c s))) [
  | none ↦ err "invalid Go graph"
  | some m ↦ parse_graph rest (set_module m modules)
]

unfoldable pub join_with : (separator : String) → List String → String
join_with separator [] = ""
join_with separator (s ∷ []) = s
join_with separator (s ∷ next ∷ rest) =
    str_append s (str_append separator (join_with separator (next ∷ rest)))

unfoldable pub listing : (sort_strings : List String → List String) → List GraphModule → String
listing sort_strings modules =
    str_append
      (join_with "\n"
        (sort_strings (map (λ m. str_append m.path (str_append "|" m.version)) modules)))
      "\n"

-- `^[0-9a-f]{n}$`
unfoldable pub is_hex : ℕ → String → Bool
is_hex n s = len s == n && all_chars is_lower_hex s

unfoldable pub declared_for : String → List (String × Declaration) → Option Declaration
declared_for path [] = none
declared_for path ((name, declaration) ∷ rest) =
    let later = declared_for path rest in if str_eq path name then some declaration else later

unfoldable pub declaration_in :
    List String → List (String × Declaration) → Option (String × Declaration)
declaration_in (path ∷ spdx ∷ sha256 ∷ blob ∷ []) declared =
    if is_some (declared_for path declared)
      || not (str_eq spdx "EUPL-1.2")
      || not (is_hex 64 sha256)
      || not (is_hex 40 blob)
    then none
    else some (path, record { spdx = spdx; sha256 = sha256; blob = blob })
declaration_in fields declared = none

unfoldable pub is_comment : String → Bool
is_comment String.[] = true
is_comment (String.◌∷◌ c s) = code c == b'#'

unfoldable pub parse_declarations :
    (lines : List String) → List (String × Declaration) → Result (List (String × Declaration))
parse_declarations [] declared = ok declared
parse_declarations (line ∷ rest) declared =
    if is_comment line
    then parse_declarations rest declared
    else elim (declaration_in (split_on b'|' line) declared) [
      | none ↦ err "invalid license declaration"
      | some entry ↦ parse_declarations rest (entry ∷ declared)
    ]
