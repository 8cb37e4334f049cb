-- ===== src/Vendor/Report/Steps.antt =====
-- What one message does to the state of the vendor check (scripts/vendorcheck/main.go).
use platform_orchestrator_ru.Base.{
  inl, inr, Bool-cases, ℕ, List, String, ◌∷◌, Result, [], ◌≡◌, ok, str_eq, eq_iff, Bool, ◌==◌,
  false, refl, ◌&&◌, not, with_ok, fail_if, fail_if-ok, subst,
}
use platform_orchestrator_ru.Vendor.Values.{
  no_members, object, array, atom, quoted, member, Members, Value,
}
use platform_orchestrator_ru.Vendor.Report.{
  ReportLibrary, Scanner, ReportState, ReviewedArtifact, insert_id, receive_kind, Members,
  receive_config, receive_sbom, receive_finding, receive_osv, receive_progress, receive_message,
  as_object, Value,
}
use platform_orchestrator_ru.Vendor.Report.Messages.{
  Message, config, sbom, message_with, message_value, finding, osv, progress, kind_name, body_of,
}

abbrev pub state : (configs sboms : ℕ) (findings ids osvs : List String) → ReportState
state c b findings ids osvs = record {
  configs = c;
  sboms = b;
  findings = findings;
  ids = ids;
  osvs = osvs;
}

-- The ids after some were inserted.
abbrev pub collect : List String → List String → List String
collect [] ids = ids
collect (x ∷ xs) ids = collect xs (insert_id x ids)

module _ (lib : ReportLibrary) (p : Scanner) (want : ReviewedArtifact) where
  -- The handler of a message's kind.
  unfoldable pub receive : Message → ReportState → Result ReportState
  receive (config body) s = receive_config lib p want body s
  receive (sbom body) s = receive_sbom lib p want body s
  receive (finding body) s = receive_finding lib p want body s
  receive (osv body) s = receive_osv lib p want body s
  receive (progress body) s = receive_progress lib p want body s

  kind_cases :
      (kind : String) (body : Members) (s s' : ReportState)
      → receive_kind lib p want kind body s ≡ ok s'
      → (m : Message) × (kind ≡ kind_name m) × (body ≡ body_of m) × (receive m s ≡ ok s')
  unfolding receive_kind receive
  kind_cases kind body s s' h = elim (Bool-cases (str_eq kind "config")) [
    | inl is ↦ (config body, (eq_iff _ _).0 is, refl, rw is at h)
    | inr n1 ↦ elim (Bool-cases (str_eq kind "SBOM")) [
      | inl is ↦ (sbom body, (eq_iff _ _).0 is, refl, rw (n1, is) at h)
      | inr n2 ↦ elim (Bool-cases (str_eq kind "finding")) [
        | inl is ↦ (finding body, (eq_iff _ _).0 is, refl, rw (n1, n2, is) at h)
        | inr n3 ↦ elim (Bool-cases (str_eq kind "osv")) [
          | inl is ↦ (osv body, (eq_iff _ _).0 is, refl, rw (n1, n2, n3, is) at h)
          | inr n4 ↦ elim (Bool-cases (str_eq kind "progress")) [
            | inl is ↦ (progress body, (eq_iff _ _).0 is, refl, rw (n1, n2, n3, n4, is) at h)
            | inr n5 ↦ absurd (cc (n1, n2, n3, n4, n5, h))
          ]
        ]
      ]
    ]
  ]

  -- Only a configuration comes first.
  abbrev pub must_wait : ReportState → (kind : String) → Bool
  must_wait s kind = s.configs == 0 && not (str_eq kind "config")

  body_cases :
      (s s' : ReportState) (kind : String) (body : Members)
      → receive_message lib p want s (message_with kind body) ≡ ok s'
      → (must_wait s kind ≡ false) × (receive_kind lib p want kind body s ≡ ok s')
  unfolding receive_message as_object
  body_cases s s' kind body h =
      with_ok _ (fail_if (must_wait s kind) "scanner configuration must be first") h
        λ u first rest. (fail_if-ok _ _ first, rest)

  -- A message that is taken is one of the five kinds, and its handler gives the state.
  pub message_cases :
      (s s' : ReportState) (v : Value)
      → receive_message lib p want s v ≡ ok s'
      → (m : Message) × (v ≡ message_value m)
        × (must_wait s (kind_name m) ≡ false)
        × (receive m s ≡ ok s')
  unfolding receive_message as_object
  message_cases s s' (object (member kind (object body) no_members)) h =
      let (first, rest) = body_cases s s' kind body h in
      let (m, k, b, taken) = kind_cases kind body s s' rest in
      (m, cc (k, b), subst (λ kind. must_wait s kind ≡ false) k first, taken)
  message_cases s s' (object (member kind (atom x) no_members)) h =
      with_ok _ (fail_if (must_wait s kind) "scanner configuration must be first") h
        λ u first e. absurd (cc e)
  message_cases s s' (object (member kind (quoted x) no_members)) h =
      with_ok _ (fail_if (must_wait s kind) "scanner configuration must be first") h
        λ u first e. absurd (cc e)
  message_cases s s' (object (member kind (array x) no_members)) h =
      with_ok _ (fail_if (must_wait s kind) "scanner configuration must be first") h
        λ u first e. absurd (cc e)
  message_cases s s' (object (member kind value (member other v ms))) h = cc
  message_cases s s' (object no_members) h = cc
  message_cases s s' (atom x) h = cc
  message_cases s s' (quoted x) h = cc
  message_cases s s' (array x) h = cc

  -- A message of a kind is handled so when it does not have to wait.
  pub receive_message-receive :
      (s : ReportState) (m : Message)
      → must_wait s (kind_name m) ≡ false
      → receive_message lib p want s (message_value m) ≡ receive m s
  unfolding receive_message as_object receive receive_kind
  receive_message-receive s (config body) h = rw h refl
  receive_message-receive s (sbom body) h = rw h refl
  receive_message-receive s (finding body) h = rw h refl
  receive_message-receive s (osv body) h = rw h refl
  receive_message-receive s (progress body) h = rw h refl
