-- ===== src/Notices.antt =====
-- scripts/noticecheck/main.go: the check of the notices in a release. Files, the go command, JSON, the
-- hashes and the walk of a directory are parameters; contents are strings.
pub mod Receipt
pub mod Modules
pub mod Check
pub mod Regular
pub mod Verified
pub mod Closure
mod Tests
use platform_orchestrator_ru.Base.{
  ◌>>=◌, ◌>>◌, ok, err, some, none, String, Bool, List, Option, str_append, Result, ℕ, len, or_fail,
  fail_if, ◌∷◌, ◌++◌, not, if◌then◌else◌, [], str_eq, is_some,
}
use platform_orchestrator_ru.Vendor.Values.{JsonToken}
use platform_orchestrator_ru.Runner.Artifacts.{without_prefix}

-- A file that the walk of a directory comes to.
pub record WalkEntry : Type 0 where
  pub name : String
  pub is_symlink : Bool
  pub is_regular : Bool

pub record VendorSource : Type 0 where
  pub version : String
  pub source_commit : String
  pub source_url : String
  pub notice_sha256 : List (String × String)

-- What `go mod download -json` prints; `replaced` is whether there is a replacement.
pub record ModuleOrigin : Type 0 where
  pub path : String
  pub version : String
  pub sum : String
  pub replaced : Bool
  pub origin_hash : Option String

-- `lstat` is whether a file is regular. A walk gives the entries in its order, `none` for an error. `go` runs
-- the command in a directory with an environment.
pub record NoticeWorld : Type 0 where
  pub lstat : String → Option Bool
  pub read_file : String → Option String
  pub walk_dir : String → List (Option WalkEntry)
  pub go : (root : String) (environment arguments : List String) → Option String
  pub environ : List String
  pub go_version : String
  pub go_root : String
  pub join_path : String → String → String
  pub to_upper : String → String
  pub sort_strings : List String → List String
  pub sha256_hex : String → String
  pub sha1_hex : String → String
  pub format_number : ℕ → String
  pub decode_source : String → Option VendorSource
  pub decode_origin : String → Option ModuleOrigin
  pub receipt_tokens : String → List JsonToken
  pub contains : (text part : String) → Bool

module _ (w : NoticeWorld) where
  unfoldable pub git_blob : String → String
  git_blob content =
      w.sha1_hex
        (str_append "blob " (str_append (w.format_number (len content)) (str_append "\0" content)))

  -- The contents of a regular file.
  unfoldable pub regular : (path : String) → Result String
  regular path = do
    is_regular ← or_fail (w.lstat path) "required regular notice missing"
    fail_if (not is_regular) "required regular notice missing"
    or_fail (w.read_file path) "read notice"

  unfoldable pub same : (first second : String) → Result (Unit {0})
  same first second = do
    a ← regular first
    b ← regular second
    fail_if (not (str_eq a b)) "notice differs from authoritative input"

-- `old` without the variables whose settings begin with the key.
unfoldable pub without_variable : (key : String) (environment : List String) → List String
without_variable key [] = []
without_variable key (old ∷ rest) =
    let later = without_variable key rest in
    if is_some (without_prefix key old) then later else old ∷ later

unfoldable pub set_variable : (key value : String) → List String → List String
set_variable key value environment =
    without_variable (str_append key "=") environment ++ str_append key (str_append "=" value) ∷ []

unfoldable pub command_environment : (arch : String) → List String → List String
command_environment arch environment = set_variable "GOEXPERIMENT" "" (
    set_variable "GOFLAGS" "" (
      set_variable "GOTOOLCHAIN" "go1.26.10" (
        set_variable "GOENV" "off" (
          set_variable "GOWORK" "off" (
            set_variable "CGO_ENABLED" "0"
              (set_variable "GOARCH" arch (set_variable "GOOS" "linux" environment)))))))

unfoldable pub go_command :
    NoticeWorld → (root arch : String) (arguments : List String) → Result String
go_command w root arch arguments =
    or_fail (w.go root (command_environment arch w.environ) arguments)
      "authoritative Go metadata failed"
