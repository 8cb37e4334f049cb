-- ===== src/Diode/Ledger.antt =====
-- The importer's ledger: `readProcessed` and `appendProcessed` of internal/diode/relay.go, on the bytes
-- of the file; an ID is given by its bytes, and the map of IDs by their list.
pub mod Appends
use platform_orchestrator_ru.Base.{ℕ, Bytes, List, [], ◌∷◌, ◌++◌, is_nil, if◌then◌else◌, ◌==◌}

-- `"\n"`.
abbrev pub newline : ℕ
newline = 10

abbrev pub extend : ℕ → List Bytes → List Bytes
extend x [] = (x ∷ []) ∷ []
extend x (line ∷ lines) = (x ∷ line) ∷ lines

-- `strings.Split(data, "\n")`.
unfoldable pub split_lines : Bytes → List Bytes
split_lines [] = [] ∷ []
split_lines (x ∷ xs) =
    let lines = split_lines xs in if x == newline then [] ∷ lines else extend x lines

unfoldable pub non_empty : List Bytes → List Bytes
non_empty [] = []
non_empty (line ∷ lines) = let rest = non_empty lines in if is_nil line then rest else line ∷ rest

unfoldable pub read_processed : Bytes → List Bytes
read_processed contents = non_empty (split_lines contents)

unfoldable pub append_processed : Bytes → (id : Bytes) → Bytes
append_processed contents id = contents ++ (id ++ newline ∷ [])
