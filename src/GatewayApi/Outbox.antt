-- ===== src/GatewayApi/Outbox.antt =====
-- internal/gatewayapi/outbox.go: results and logs that the gateway did not accept, in files. The calls of
-- the file system succeed or fail by their number, so that every sequence of failures is covered. The
-- temporary file of a store, which no call reads, is left out of the directory.
pub mod Spec
pub mod Sends
pub mod Refines
pub mod Stores
pub mod Blocked
use Prim.Native.String.{compare}
use Prim.Native.Nat.{Ordering}
use platform_orchestrator_ru.Base.{
  String, List, Result, Bool, Bytes, Option, ◌∷◌, false, not, str_append, suc, ok, ℕ, none,
  if◌then◌else◌, str_eq, ◌&&◌, [], err, ◌++◌, some, ◌||◌, true,
}
use platform_orchestrator_ru.GatewayApi.Client.{
  ClientLibrary, Client, Exchange, Reply, send_results, send_logs,
}

pub record OutboxOperation : Type 0 where
  pub kind : String
  pub organization_id : String
  pub runner_id : String
  pub deployment_id : String
  pub environment_id : String
  pub operation_token : String
  pub content : Bytes

pub record OutboxFile : Type 0 where
  pub name : String
  pub is_dir : Bool
  pub contents : Bytes

-- encoding/json on operations, results and logs; the hash of a string in hexadecimal; and whether the
-- n-th call of the file system succeeds.
pub record OutboxLibrary : Type 0 where
  pub client_library : ClientLibrary
  pub marshal_operation : OutboxOperation → Option Bytes
  pub unmarshal_operation : Bytes → Option OutboxOperation
  pub marshal_raw : Bytes → Option Bytes
  pub marshal_logs : Bytes → Option Bytes
  pub unmarshal_logs : Bytes → Option Bytes
  pub sha256_hex_string : String → String
  pub disk_works : ℕ → Bool

pub record OutboxState : Type 0 where
  pub sent : List Exchange
  pub files : List OutboxFile
  pub disk_calls : ℕ

pub record Returned : Type 0 where
  pub error : Result (Unit {0})
  pub after : OutboxState

-- Files by their name.
unfoldable pub read_file : String → List OutboxFile → Option Bytes
read_file name [] = none
read_file name (file ∷ rest) =
    let later = read_file name rest in if str_eq name file.name then some file.contents else later

unfoldable pub remove_file : String → List OutboxFile → List OutboxFile
remove_file name [] = []
remove_file name (file ∷ rest) =
    let later = remove_file name rest in if str_eq name file.name then later else file ∷ later

unfoldable pub replace_file : String → Bytes → List OutboxFile → List OutboxFile
replace_file name contents files =
    remove_file name files ++ record { name = name; is_dir = false; contents = contents } ∷ []

-- `sort.Slice` of the entries by name.
unfoldable pub name_before : String → String → Bool
name_before left right = elim (compare left right) [ Ordering.lt ↦ true | _ ↦ false ]

unfoldable pub insert_entry : OutboxFile → List OutboxFile → List OutboxFile
insert_entry entry [] = entry ∷ []
insert_entry entry (first ∷ rest) =
    let inserted = insert_entry entry rest in
    if name_before first.name entry.name then first ∷ inserted else entry ∷ first ∷ rest

unfoldable pub sort_entries : List OutboxFile → List OutboxFile
sort_entries [] = []
sort_entries (entry ∷ rest) = insert_entry entry (sort_entries rest)

-- `strings.HasSuffix(name, ".json")`.
unfoldable pub is_json_name : String → Bool
is_json_name String.[] = false
is_json_name (String.◌∷◌ c s) =
    let later = is_json_name s in str_eq (String.◌∷◌ c s) ".json" || later

unfoldable pub is_spooled : OutboxFile → Bool
is_spooled entry = not entry.is_dir && is_json_name entry.name

-- The next call of the file system.
abbrev pub called : OutboxState → OutboxState
called s = record { sent = s.sent; files = s.files; disk_calls = suc s.disk_calls }

abbrev pub returned : Result (Unit {0}) → OutboxState → Returned
returned error s = record { error = error; after = s }

-- The state after exchanges with the gateway.
abbrev pub with_sent : OutboxState → List Exchange → OutboxState
with_sent s sent = record { sent = sent; files = s.files; disk_calls = s.disk_calls }

module _ (lib : OutboxLibrary) (c : Client) where
  open lib use {client_library}

  -- `hex(sha256(kind \x00 organization \x00 runner \x00 deployment)) + ".json"`
  unfoldable pub file_name : OutboxOperation → String
  file_name operation =
      str_append
        (lib.sha256_hex_string (
          str_append operation.kind (
            str_append "\0" (
              str_append operation.organization_id (
                str_append "\0"
                  (str_append operation.runner_id (str_append "\0" operation.deployment_id)))))))
        ".json"

  -- Calls of the file system that change no file that is read, until the first error.
  unfoldable pub call_disk : List String → OutboxState → (OutboxState → Returned) → Returned
  call_disk [] s k = k s
  call_disk (call ∷ calls) s k =
      let rest = call_disk calls (called s) k in
      if lib.disk_works s.disk_calls then rest else record { error = err call; after = called s }

  unfoldable pub renamed : String → Bytes → OutboxState → Returned
  renamed name contents s =
      call_disk ("sync directory" ∷ [])
        (record {
          sent = s.sent;
          files = replace_file name contents s.files;
          disk_calls = s.disk_calls;
        })
        (returned (ok tt))

  unfoldable pub store_contents : String → Option Bytes → OutboxState → Returned
  store_contents name none s = returned (err "marshal operation") s
  store_contents name (some contents) s =
      call_disk ("create temporary" ∷ "chmod" ∷ "write" ∷ "sync" ∷ "close" ∷ "rename" ∷ []) s
        (renamed name contents)

  unfoldable pub store : OutboxOperation → OutboxState → Returned
  store operation s = store_contents (file_name operation) (lib.marshal_operation operation) s

  -- What a failed delivery leaves to be done: to store the operation, if its content marshals.
  unfoldable pub or_store :
      Result (Unit {0})
      → List Exchange
      → Option Bytes
      → (Bytes → OutboxOperation)
      → OutboxState
      → Returned
  or_store (ok _) sent content operation s = returned (ok tt) (with_sent s sent)
  or_store (err message) sent none operation s = returned (err "marshal content") (with_sent s sent)
  or_store (err message) sent (some bytes) operation s = store (operation bytes) (with_sent s sent)

  unfoldable pub result_operation : (deployment_id token : String) → Bytes → OutboxOperation
  result_operation deployment_id token content = record {
    kind = "result";
    organization_id = c.organization_id;
    runner_id = c.runner_id;
    deployment_id = deployment_id;
    environment_id = "";
    operation_token = token;
    content = content;
  }

  unfoldable pub logs_operation :
      (environment_id deployment_id token : String) → Bytes → OutboxOperation
  logs_operation environment_id deployment_id token content = record {
    kind = "logs";
    organization_id = c.organization_id;
    runner_id = c.runner_id;
    deployment_id = deployment_id;
    environment_id = environment_id;
    operation_token = token;
    content = content;
  }

  -- The results are given as their JSON, `none` where encoding/json fails.
  unfoldable pub post_results_or_store :
      (deployment_id token : String) → Option Bytes → OutboxState → Returned
  post_results_or_store deployment_id token results s =
      let reply = send_results client_library c deployment_id token results s.sent in
      or_store reply.value reply.sent results (result_operation deployment_id token) s

  unfoldable pub put_logs_or_store :
      (environment_id deployment_id token : String) → Bytes → OutboxState → Returned
  put_logs_or_store environment_id deployment_id token logs s =
      let reply = send_logs client_library c environment_id deployment_id token logs s.sent in
      or_store reply.value reply.sent (lib.marshal_logs logs)
        (logs_operation environment_id deployment_id token) s

  unfoldable pub flush_logs : OutboxOperation → Option Bytes → List Exchange → Reply (Unit {0})
  flush_logs operation none sent = record {
    value = err "decode spooled encrypted logs";
    sent = sent;
  }
  flush_logs operation (some logs) sent =
      send_logs client_library c operation.environment_id operation.deployment_id
        operation.operation_token logs sent

  -- The `switch` on the kind.
  unfoldable pub deliver_operation : OutboxOperation → List Exchange → Reply (Unit {0})
  deliver_operation operation sent =
      if str_eq operation.kind "result"
      then send_results client_library c operation.deployment_id operation.operation_token
          (lib.marshal_raw operation.content) sent
      else if str_eq operation.kind "logs"
      then flush_logs operation (lib.unmarshal_logs operation.content) sent
      else record { value = err "unknown kind"; sent = sent }

  unfoldable pub foreign : OutboxOperation → Bool
  foreign operation =
      not (str_eq operation.organization_id c.organization_id)
      || not (str_eq operation.runner_id c.runner_id)

  -- After the delivery, the removal and the sync of the directory.
  unfoldable pub discharged :
      String → Result (Unit {0}) → List Exchange → OutboxState → (OutboxState → Returned) → Returned
  discharged name (err message) sent s k = returned (err message) (with_sent s sent)
  discharged name (ok _) sent s k = call_disk ("remove" ∷ []) (with_sent s sent) λ removed.
      call_disk ("sync directory" ∷ [])
        (record {
          sent = removed.sent;
          files = remove_file name removed.files;
          disk_calls = removed.disk_calls;
        })
        k

  unfoldable pub flush_operation :
      String → Option OutboxOperation → OutboxState → (OutboxState → Returned) → Returned
  flush_operation name none s k = returned (err "decode gateway outbox operation") s
  flush_operation name (some operation) s k =
      let reply = deliver_operation operation s.sent in
      if foreign operation
      then returned (err "operation belongs to another runner") s
      else discharged name reply.value reply.sent s k

  unfoldable pub flush_file :
      String → Option Bytes → OutboxState → (OutboxState → Returned) → Returned
  flush_file name none s k = returned (err "no such file") s
  flush_file name (some contents) s k = flush_operation name (lib.unmarshal_operation contents) s k

  unfoldable pub flush_entries : List OutboxFile → OutboxState → Returned
  flush_entries [] s = returned (ok tt) s
  flush_entries (entry ∷ rest) s =
      if not (is_spooled entry)
      then flush_entries rest s
      else call_disk ("read file" ∷ []) s
          λ read. flush_file entry.name (read_file entry.name read.files) read (flush_entries rest)

  unfoldable pub flush_outbox : OutboxState → Returned
  flush_outbox s =
      call_disk ("read directory" ∷ []) s λ listed. flush_entries (sort_entries listed.files) listed
