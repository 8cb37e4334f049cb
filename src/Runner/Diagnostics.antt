-- ===== src/Runner/Diagnostics.antt =====
-- internal/runner/base_runner.go, errors.go and utils.go: the run of a command of the tool, and what is
-- read from its output: the error, the summary of changes and the planned outputs.
use platform_orchestrator_ru.Base.{
  String, List, [], ◌∷◌, none, some, Bytes, ℕ, Bool, Option, if◌then◌else◌, code, ◌&&◌, str_eq,
  ◌++◌, ◌==◌, leb, not, ◌||◌, length,
}
use platform_orchestrator_ru.Diode.Ledger.{split_lines, newline}
use platform_orchestrator_ru.Runner.Artifacts.{ArtifactFiles, without_prefix}
use platform_orchestrator_ru.Runner.Outputs.{
  JsonValue, OutputChange, object_value, get_field, compact,
}
use platform_orchestrator_ru.Runner.Json.{and_then}
use platform_orchestrator_ru.Runner.Bundle.{extend_first}

abbrev pub History : Type 0
History = List (List String)

-- What `CombinedOutput` gives: the output and, after a failure, its error text.
pub record ToolRun : Type 0 where
  pub output : Bytes
  pub failure : Option Bytes

pub record IacChanges : Type 0 where
  pub added : ℕ
  pub changed : ℕ
  pub imported : ℕ
  pub removed : ℕ

-- A diagnostic of the tool's log; the context of a snippet and the file of a range may be absent.
pub record Diagnostic : Type 0 where
  pub is_error : Bool
  pub summary : String
  pub detail : String
  pub snippet_context : Option String
  pub snippet_code : String
  pub range_filename : Option String

pub record RunnerError : Type 0 where
  pub action : String
  pub summary : String
  pub detail : String
  pub entity_type : String
  pub entity_id : String
  pub entity_version : String
  pub code_hint : String

pub data CommandError : Type 0 where
  diagnosed : RunnerError → CommandError
  plain : String → CommandError

-- A result or an error, and the commands that were run.
pub data Either (A : Type 0) : Type 0 where
  failed : CommandError → Either A
  done : A → Either A

pub record Ran (A : Type 0) : Type 0 where
  pub outcome : Either A
  pub commands : History

-- JSON, `strconv.Unquote` and `strings.TrimSpace`; the tool; and the files after some commands.
pub record CommandWorld : Type 0 where
  pub unmarshal_diagnostic : Bytes → Option Diagnostic
  pub unmarshal_summary : Bytes → Option IacChanges
  pub unmarshal_output_changes : Bytes → Option (List (String × OutputChange))
  pub unmarshal_outputs : Bytes → Option (List (String × JsonValue))
  pub unquote : String → Option String
  pub trim_space : String → String
  pub run_process : History → List String → ToolRun
  pub artifact_files : History → ArtifactFiles

-- `strings.Split(text, separator)` for one character.
unfoldable pub split_on : ℕ → String → List String
split_on separator String.[] = String.[] ∷ []
split_on separator (String.◌∷◌ c s) =
    let rest = split_on separator s in
    if code c == separator then String.[] ∷ rest else extend_first c rest

unfoldable pub has_text : Diagnostic → Bool
has_text d = d.is_error && (not (str_eq d.summary "") || not (str_eq d.detail ""))

-- The module and version of a path `modules/<id>/<version>...`.
unfoldable pub module_of : List String → String × String
module_of (id ∷ version ∷ rest) = (id, version)
module_of _ = ("", "")

unfoldable pub in_modules : Option String → Option String
in_modules none = none
in_modules (some filename) = without_prefix "modules/" filename

-- The type, ID and version that the first word of the context and the file give.
unfoldable pub entity_in : String → Option String → String × String × String
entity_in word none = (word, "", "")
entity_in word (some path) =
    let (id, version) = module_of (split_on b'/' path) in ("module", id, version)

unfoldable pub entity : String → Option String → String × String × String
entity word filename =
    if str_eq word "provider" || str_eq word "module" || str_eq word "output"
    then (word, "", "")
    else entity_in word (in_modules filename)

unfoldable pub unquoted : Option String → String → String
unquoted none word = word
unquoted (some text) word = text

-- `v.(map[string]interface{})["value"]` of each output, `none` for the panic on another value.
unfoldable pub value_field : JsonValue → Option JsonValue
value_field (object_value fields) = some (get_field "value" fields)
value_field other = none

unfoldable pub values_of : List (String × JsonValue) → Option (List (String × JsonValue))
values_of [] = some []
values_of ((name, value) ∷ rest) =
    and_then (value_field value)
      λ found. and_then (values_of rest) λ found_later. some ((name, found) ∷ found_later)

-- The first of two results that there is.
unfoldable pub or_else {ℓ} : {A : Type ℓ} → Option A → Option A → Option A
or_else none b = b
or_else (some a) b = some a

module _ (world : CommandWorld) where
  -- The second word of the context names the entity, unless the file did.
  unfoldable pub entity_id_of : (found : String) → List String → String
  entity_id_of found (first ∷ second ∷ rest) =
      if str_eq found "" then unquoted (world.unquote second) second else found
  entity_id_of found _ = found

  unfoldable pub first_word : List String → String
  first_word [] = ""
  first_word (word ∷ rest) = word

  unfoldable pub runner_error : (action : String) → Diagnostic → Option String → RunnerError
  runner_error action d none = record {
    action = action;
    summary = d.summary;
    detail = d.detail;
    entity_type = "";
    entity_id = "";
    entity_version = "";
    code_hint = "";
  }
  runner_error action d (some context) =
      let words = split_on b' ' context in
      let (type, id, version) = entity (first_word words) d.range_filename in
      record {
        action = action;
        summary = d.summary;
        detail = d.detail;
        entity_type = type;
        entity_id = entity_id_of id words;
        entity_version = version;
        code_hint = world.trim_space d.snippet_code;
      }

  unfoldable pub error_in_line : String → Option Diagnostic → Option RunnerError
  error_in_line action none = none
  error_in_line action (some d) =
      if has_text d then some (runner_error action d d.snippet_context) else none

  -- The last line that is an error of the tool: a later line counts before an earlier one.
  unfoldable pub error_in_lines : String → List Bytes → Option RunnerError
  error_in_lines action [] = none
  error_in_lines action (line ∷ rest) =
      or_else (error_in_lines action rest) (error_in_line action (world.unmarshal_diagnostic line))

  unfoldable pub parse_error : (action : String) → (text : Bytes) → Option RunnerError
  parse_error action text = error_in_lines action (split_lines text)

  unfoldable pub command_error : (action : String) (text : Bytes) (message : String) → CommandError
  command_error action text message = or_plain (parse_error action text)
    where
      or_plain : Option RunnerError → CommandError
      or_plain none = plain message
      or_plain (some e) = diagnosed e

  -- A command and what follows its success; the error text is the output, a colon and the failure.
  unfoldable pub run_command :
      {A : Type 0} → (action : String) → History → List String → (History → Bytes → Ran A) → Ran A
  run_command action history arguments k =
      let run = world.run_process history arguments in
      elim run.failure [
        | none ↦ k (history ++ arguments ∷ []) run.output
        | some failure ↦ record {
          outcome =
              failed (command_error action (run.output ++ b':' ∷ b' ' ∷ failure) "failed to run");
          commands = history ++ arguments ∷ [];
        }
      ]

  -- `bufio.Scanner`, whose lines have less than 64 KiB; the first summary counts.
  unfoldable pub summary_in : Bytes → Option IacChanges
  summary_in [] = none
  summary_in (c ∷ line) = if c == b'{' then world.unmarshal_summary (c ∷ line) else none

  unfoldable pub scan_lines : List Bytes → Either IacChanges
  scan_lines [] = failed (plain "failed to find change summary in apply output")
  scan_lines (line ∷ rest) =
      let later = scan_lines rest in
      if leb 65536 (length line)
      then failed (plain "failed to read apply output")
      else found_or later (summary_in line)
    where
      found_or : Either IacChanges → Option IacChanges → Either IacChanges
      found_or later none = later
      found_or later (some changes) = done changes

  unfoldable pub scan_outputs : Bytes → Either IacChanges
  scan_outputs out = scan_lines (split_lines out)

  unfoldable pub compact_changes : List (String × OutputChange) → Option (List (String × JsonValue))
  compact_changes [] = some []
  compact_changes ((name, change) ∷ rest) =
      and_then (compact change)
        λ value. and_then (compact_changes rest) λ values. some ((name, value) ∷ values)

unfoldable pub extended : Option Bytes → Bytes → Option Bytes
extended none line = none
extended (some found) line = some (found ++ newline ∷ line)

-- The text from the last line that begins with a brace, if it is not the first.
unfoldable pub from_last_brace : Option Bytes → List Bytes → Option Bytes
from_last_brace found [] = found
from_last_brace found ([] ∷ rest) = from_last_brace (extended found []) rest
from_last_brace found ((c ∷ line) ∷ rest) =
    let here = from_last_brace (some (c ∷ line)) rest in
    let later = from_last_brace (extended found (c ∷ line)) rest in
    if c == b'{' then here else later
