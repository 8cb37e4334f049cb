-- ===== src/Vendor/Report/Messages.antt =====
-- What the vendor check accepts: the messages of a report, and the inventory that they must make
-- (scripts/vendorcheck/main.go).
use platform_orchestrator_ru.Vendor.Values.{no_members, Members, Value, JsonToken}
use platform_orchestrator_ru.Base.{
  String, List, Bool, Option, is_some, [], ◌∷◌, ℕ, Result, some, suc, ok, ◌++◌, ◌≡◌, none, ◌>>=◌,
  if◌then◌else◌, false, true, all, length, ◌&&◌, str_append,
}
use platform_orchestrator_ru.Vendor.Report.{
  ReportLibrary, object, JsonToken, id_in, Scanner, member, text_of, ReviewedArtifact, field_of,
  was_seen, is_reviewed_config, has_text, join_lines,
}
use platform_orchestrator_ru.Vendor.Values.Written.{value_tokens, is_well_formed}
use platform_orchestrator_ru.Runner.Json.{was_seen}
use platform_orchestrator_ru.Executor.Scheduling.{join_lines}

pub data Message : Type 0 where
  config sbom finding osv progress : Members → Message

abbrev pub message_with : (kind : String) → Members → Value
message_with kind body = object (member kind (object body) no_members)

abbrev pub kind_name : Message → String
kind_name (config body) = "config"
kind_name (sbom body) = "SBOM"
kind_name (finding body) = "finding"
kind_name (osv body) = "osv"
kind_name (progress body) = "progress"

abbrev pub body_of : Message → Members
body_of (config body) = body
body_of (sbom body) = body
body_of (finding body) = body
body_of (osv body) = body
body_of (progress body) = body

abbrev pub message_value : Message → Value
message_value m = message_with (kind_name m) (body_of m)

-- The tokens of values, one after the other.
abbrev pub values_tokens : List Value → List JsonToken
values_tokens [] = []
values_tokens (v ∷ vs) = value_tokens v (values_tokens vs)

abbrev pub is_readable : Value → Bool
is_readable v = is_well_formed v 64

-- Advisories and progress, which may stand anywhere after the configuration.
abbrev pub is_record : Message → Bool
is_record (osv body) = is_some (id_in body "id")
is_record (progress body) = is_some (text_of (field_of "message" body))
is_record _ = false

-- Findings too, which stand after the SBOM.
abbrev pub is_entry : Message → Bool
is_entry (finding body) = is_some (id_in body "osv")
is_entry m = is_record m

abbrev pub findings_in : Message → List Members
findings_in (finding body) = body ∷ []
findings_in m = []

abbrev pub ids_of : Option String → List String
ids_of none = []
ids_of (some id) = id ∷ []

abbrev pub finding_ids_in : Message → List String
finding_ids_in (finding body) = ids_of (id_in body "osv")
finding_ids_in m = []

abbrev pub advisories_in : Message → List String
advisories_in (osv body) = ids_of (id_in body "id")
advisories_in m = []

abbrev pub gather {ℓ} : {A : Type ℓ} → (Message → List A) → List Message → List A
gather f [] = []
gather f (m ∷ ms) = f m ++ gather f ms

-- How many different strings the list has that are not among those seen.
abbrev pub distinct : List String → (seen : List String) → ℕ
distinct [] seen = 0
distinct (x ∷ xs) seen =
    let old = distinct xs seen in
    let new = suc (distinct xs (x ∷ seen)) in if was_seen x seen then old else new

abbrev pub marshal_all : (Members → Result String) → List Members → Result (List String)
marshal_all marshal [] = ok []
marshal_all marshal (body ∷ bodies) = do
  text ← marshal body
  texts ← marshal_all marshal bodies
  ok (text ∷ texts)

-- The messages are the reviewed configuration, then records, then the SBOM of the reviewed Go version,
-- then findings and records, and the findings are the reviewed ones.
abbrev pub IsInventory : ReportLibrary → Scanner → ReviewedArtifact → List Message → Type 0
IsInventory lib p want messages =
    (setup : Members) × (before : List Message) × (described : Members) × (after : List Message)
    × (texts : List String) × (messages ≡ config setup ∷ before ++ sbom described ∷ after)
    × (is_reviewed_config p setup ≡ true)
    × (all is_record before ≡ true)
    × (has_text described "go_version" want.go_version ≡ true)
    × (all is_entry after ≡ true)
    × (length (gather findings_in after) ≡ want.finding_count)
    × (distinct (gather finding_ids_in after) [] ≡ length want.advisories)
    × (all
          (λ id.
            was_seen id (gather finding_ids_in after)
            && was_seen id (gather advisories_in messages))
          want.advisories
        ≡ true)
    × (marshal_all lib.marshal (gather findings_in after) ≡ ok texts)
    × (lib.sha256_hex (str_append (join_lines (lib.sort_strings texts)) "\n")
        ≡ want.findings_sha256)
