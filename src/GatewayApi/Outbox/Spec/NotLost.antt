-- ===== src/GatewayApi/Outbox/Spec/NotLost.antt =====
-- No file of a spool is lost in any number of its steps (internal/gatewayapi/outbox.go).
use platform_orchestrator_ru.GatewayApi.Outbox.{
  read_file, replace_file, OutboxLibrary, String, remove_file, List, Bytes, Bool, OutboxFile,
  OutboxState,
}
use platform_orchestrator_ru.GatewayApi.Client.{ClientRequest, Client, Exchange}
use platform_orchestrator_ru.Base.{
  String, List, Bytes, Bool, some, ◌||◌, str_eq, ◌≡◌, none, false, ◌∙◌, ◌++◌, ◌⊎◌, ◌∷◌, eq_refl,
  true, Bool-cases, inl, [], refl, arith, inr, subst, eq_iff, ap, if◌then◌else◌, sym,
}
use platform_orchestrator_ru.GatewayApi.Outbox.Spec.{
  step_replaces, replaces, Accepted, SpoolStep, SpoolSteps, IsDelivered, stay, and_step, keep,
  discharge, send_request, call_file_system,
}

read_file-append :
    (name : String) (files files' : List OutboxFile)
    → read_file name files ≡ none
    → read_file name (files ++ files') ≡ read_file name files'
unfolding read_file
read_file-append name [] files' h = refl
read_file-append name (file ∷ rest) files' h = elim (Bool-cases (str_eq name file.name)) [
  | inl same ↦ absurd (ground (arith, h, same))
  | inr other ↦ rw other (read_file-append name rest files' (rw other at h))
]

read_file-append_some :
    (name : String) (files files' : List OutboxFile) (contents : Bytes)
    → read_file name files ≡ some contents
    → read_file name (files ++ files') ≡ some contents
unfolding read_file
read_file-append_some name [] files' contents h = cc
read_file-append_some name (file ∷ rest) files' contents h =
    elim (Bool-cases (str_eq name file.name)) [
      | inl same ↦ rw same (rw same at h)
      | inr other ↦ rw other (read_file-append_some name rest files' contents (rw other at h))
    ]

pub read_file-remove_file :
    (name : String) (files : List OutboxFile) → read_file name (remove_file name files) ≡ none
unfolding read_file remove_file
read_file-remove_file name [] = refl
read_file-remove_file name (file ∷ rest) = elim (Bool-cases (str_eq name file.name)) [
  | inl same ↦ rw same (read_file-remove_file name rest)
  | inr other ↦ rw other (rw other (read_file-remove_file name rest))
]

pub read_file-remove_other :
    (name removed : String) (files : List OutboxFile)
    → str_eq name removed ≡ false
    → read_file name (remove_file removed files) ≡ read_file name files
unfolding read_file remove_file
read_file-remove_other name removed [] h = refl
read_file-remove_other name removed (file ∷ rest) h = elim (Bool-cases (str_eq removed file.name)) [
  | inl same ↦
      let e : str_eq name file.name ≡ false =
        subst (λ other. str_eq name other ≡ false) ((eq_iff removed file.name).0 same) h in
      rw (same, e) (read_file-remove_other name removed rest h)
  | inr other ↦ rw other (
      ap (λ o. if str_eq name file.name then some file.contents else o)
        (read_file-remove_other name removed rest h))
]

-- A replaced file has the contents that replaced it.
pub read_file-replace_file :
    (name : String) (contents : Bytes) (files : List OutboxFile)
    → read_file name (replace_file name contents files) ≡ some contents
unfolding replace_file read_file
read_file-replace_file name contents files =
    read_file-append name (remove_file name files) _ (read_file-remove_file name files)
    ∙ (rw (eq_refl name) refl)

replace_other :
    (name kept : String) (contents' : Bytes) (files : List OutboxFile) {contents : Bytes}
    → str_eq name kept ≡ false
    → read_file name files ≡ some contents
    → read_file name (replace_file kept contents' files) ≡ some contents
unfolding replace_file
replace_other name kept contents' files other held =
    read_file-append_some name (remove_file kept files) _ _
      (read_file-remove_other name kept files other ∙ held)

Accepted-append :
    (request : ClientRequest) (sent sent' : List Exchange)
    → Accepted request sent
    → Accepted request (sent ++ sent')
Accepted-append request [] sent' a = elim a [ ]
Accepted-append request (exchange ∷ rest) sent' (inl here) = inl here
Accepted-append request (exchange ∷ rest) sent' (inr later) =
    inr (Accepted-append request rest sent' later)

some_same : {a b : Bytes} → some a ≡ some b → a ≡ b
some_same e = cc

false_or : (a b : Bool) → a || b ≡ false → (a ≡ false) × (b ≡ false)
false_or true b h = cc
false_or false b h = (refl, h)

module _ (lib : OutboxLibrary) (c : Client) where
  IsDelivered-later :
      (contents : Bytes) {s s' : OutboxState}
      → SpoolStep lib c s s'
      → IsDelivered lib c contents s.sent
      → IsDelivered lib c contents s'.sent
  IsDelivered-later contents (send_request s exchange) d = record {
    operation = d.operation;
    request = d.request;
    unmarshalled = d.unmarshalled;
    own = d.own;
    described = d.described;
    accepted = Accepted-append d.request s.sent (exchange ∷ []) d.accepted;
  }
  IsDelivered-later contents (call_file_system s) d = d
  IsDelivered-later contents (keep s name kept) d = d
  IsDelivered-later contents (discharge s name gone found delivered) d = d

  stays-IsDelivered :
      (contents : Bytes) {s s' : OutboxState}
      → SpoolSteps lib c s s'
      → IsDelivered lib c contents s.sent
      → IsDelivered lib c contents s'.sent
  stays-IsDelivered contents (stay s) d = d
  stays-IsDelivered contents (and_step step steps) d =
      stays-IsDelivered contents steps (IsDelivered-later contents step d)

  HeldOr : (name : String) (contents : Bytes) (s : OutboxState) → Type 0
  HeldOr name contents s =
      (read_file name s.files ≡ some contents) ⊎ IsDelivered lib c contents s.sent

  step-HeldOr :
      {s s' : OutboxState} (step : SpoolStep lib c s s') (name : String) (contents : Bytes)
      → read_file name s.files ≡ some contents
      → step_replaces lib c name step ≡ false
      → HeldOr name contents s'
  unfolding step_replaces HeldOr
  step-HeldOr (send_request s exchange) name contents held h = inl held
  step-HeldOr (call_file_system s) name contents held h = inl held
  step-HeldOr (keep s kept contents') name contents held h =
      inl (replace_other name kept contents' s.files h held)
  step-HeldOr (discharge s removed gone found delivered) name contents held h =
      elim (Bool-cases (str_eq name removed)) [
        | inl same ↦ inr (
            subst (λ bytes. IsDelivered lib c bytes s.sent)
              (some_same (
                sym found
                ∙ sym (ap (λ n. read_file n s.files) ((eq_iff name removed).0 same))
                ∙ held))
              delivered)
        | inr other ↦ inl (read_file-remove_other name removed s.files other ∙ held)
      ]

  -- However many steps a spool takes, a file is there with its contents, or the gateway has accepted
  -- the request that the contents describe, unless one of the steps replaced it.
  pub steps-HeldOr :
      {s s' : OutboxState} (steps : SpoolSteps lib c s s') (name : String) (contents : Bytes)
      → read_file name s.files ≡ some contents
      → replaces lib c name steps ≡ false
      → (read_file name s'.files ≡ some contents) ⊎ IsDelivered lib c contents s'.sent
  unfolding replaces HeldOr
  steps-HeldOr (stay s) name contents held h = inl held
  steps-HeldOr (and_step step steps) name contents held h =
      let (h0, h1) = false_or _ _ h in
      elim (step-HeldOr step name contents held h0) [
        | inl still ↦ steps-HeldOr steps name contents still h1
        | inr delivered ↦ inr (stays-IsDelivered contents steps delivered)
      ]

  -- What was accepted stays so.
  pub steps-Accepted :
      {s s' : OutboxState} (steps : SpoolSteps lib c s s') (request : ClientRequest)
      → Accepted request s.sent
      → Accepted request s'.sent
  steps-Accepted (stay s) request a = a
  steps-Accepted (and_step (send_request s exchange) steps) request a =
      steps-Accepted steps request (Accepted-append request s.sent (exchange ∷ []) a)
  steps-Accepted (and_step (call_file_system s) steps) request a = steps-Accepted steps request a
  steps-Accepted (and_step (keep s name kept) steps) request a = steps-Accepted steps request a
  steps-Accepted (and_step (discharge s name gone found delivered) steps) request a =
      steps-Accepted steps request a
