-- ===== src/GatewayApi/Outbox/Refines.antt =====
-- Every call of the outbox is steps of its spool (internal/gatewayapi/outbox.go).
use platform_orchestrator_ru.GatewayApi.Outbox.{
  OutboxLibrary, Client, OutboxState, call_disk, discharged, List, String, called, Returned,
  with_sent, read_file, OutboxOperation, remove_file, foreign, flush_operation, flush_file,
  flush_entries, flush_outbox, OutboxFile, is_spooled,
}
use platform_orchestrator_ru.GatewayApi.Client.{Client, ClientRequest, Exchange, Reply}
use platform_orchestrator_ru.GatewayApi.Outbox.Spec.{
  replaces, SpoolSteps, stay, step_replaces, and_step, call_file_system, IsDelivered, Accepted,
  send_request, discharge, delivery_of,
}
use platform_orchestrator_ru.Base.{
  List, String, ◌≡◌, Bytes, false, ◌∷◌, some, Bool-cases, refl, ◌++◌, [], inl, inr, ap, ◌∙◌, Option,
  subst, not, none, sym, Bool, eq_iff, ◌||◌, true,
}
use platform_orchestrator_ru.GatewayApi.Outbox.Sends.{
  Delivers, unsent, refused, delivered, deliver_operation-Delivers,
}

neither : (a b : Bool) → not a || not b ≡ false → (a ≡ true) × (b ≡ true)
neither true true h = (refl, refl)
neither true false h = cc
neither false b h = cc

module _ (lib : OutboxLibrary) (c : Client) where
  -- Steps that replace no file.
  abbrev pub Flushes : OutboxState → OutboxState → Type 0
  Flushes s s' =
      (steps : SpoolSteps lib c s s') × ((name : String) → replaces lib c name steps ≡ false)

  stays : (s : OutboxState) → Flushes s s
  unfolding replaces
  stays s = (stay s, λ name. refl)

  after_call : (s s' : OutboxState) → Flushes (called s) s' → Flushes s s'
  unfolding replaces step_replaces
  after_call s s' (steps, none_replaced) = (and_step (call_file_system s) steps, none_replaced)

  after_send :
      (s s' : OutboxState) (exchange : Exchange)
      → Flushes (with_sent s (s.sent ++ exchange ∷ [])) s'
      → Flushes s s'
  unfolding replaces step_replaces
  after_send s s' exchange (steps, none_replaced) =
      (and_step (send_request s exchange) steps, none_replaced)

  call_disk-Flushes :
      (calls : List String) (s : OutboxState) (k : OutboxState → Returned)
      → ((s' : OutboxState) → s'.sent ≡ s.sent → s'.files ≡ s.files → Flushes s' (k s').after)
      → Flushes s (call_disk lib c calls s k).after
  unfolding call_disk
  call_disk-Flushes [] s k rest = rest s refl refl
  call_disk-Flushes (call ∷ calls) s k rest = elim (Bool-cases (lib.disk_works s.disk_calls)) [
    | inl works ↦ rw works (after_call s _ (call_disk-Flushes calls (called s) k rest))
    | inr fails ↦ rw fails (after_call s _ (stays _))
  ]

  after_discharge :
      (s s' : OutboxState) (name : String) (contents : Bytes)
      → read_file name s.files ≡ some contents
      → IsDelivered lib c contents s.sent
      → Flushes
          (record { sent = s.sent; files = remove_file name s.files; disk_calls = s.disk_calls })
          s'
      → Flushes s s'
  unfolding replaces step_replaces
  after_discharge s s' name contents found accepted (steps, none_replaced) =
      (and_step (discharge s name contents found accepted) steps, none_replaced)

  pub Accepted-last :
      (request : ClientRequest) (sent : List Exchange) (exchange : Exchange)
      → exchange.request ≡ request
      → exchange.status ≡ some 202
      → Accepted request (sent ++ exchange ∷ [])
  Accepted-last request [] exchange same status = inl (same, status)
  Accepted-last request (first ∷ rest) exchange same status =
      inr (Accepted-last request rest exchange same status)

  discharged-Flushes :
      (name : String) (contents : Bytes) (operation : OutboxOperation) (s : OutboxState)
      (k : OutboxState → Returned) {reply : Reply (Unit {0})}
      → Delivers (delivery_of lib c operation) s.sent reply
      → read_file name s.files ≡ some contents
      → lib.unmarshal_operation contents ≡ some operation
      → (operation.organization_id ≡ c.organization_id) × (operation.runner_id ≡ c.runner_id)
      → ((s' : OutboxState) → Flushes s' (k s').after)
      → Flushes s (discharged lib c name reply.value reply.sent s k).after
  unfolding discharged
  discharged-Flushes name contents operation s k (unsent e) found read own rest = stays s
  discharged-Flushes name contents operation s k (refused e exchange) found read own rest =
      after_send s _ exchange (stays _)
  discharged-Flushes name contents operation s k (delivered request exchange described same status)
        found read own rest =
      after_send s _ exchange (
        call_disk-Flushes _ _ _ λ removed sent files.
          after_discharge removed _ name contents (ap (read_file name) files ∙ found)
            (subst (IsDelivered lib c contents) (sym sent) (record {
              operation = operation;
              request = request;
              unmarshalled = read;
              own = own;
              described = described;
              accepted = Accepted-last request s.sent exchange same status;
            }))
            (call_disk-Flushes _ _ _ λ s' _ _. rest s'))

  own_operation :
      (operation : OutboxOperation)
      → foreign lib c operation ≡ false
      → (operation.organization_id ≡ c.organization_id) × (operation.runner_id ≡ c.runner_id)
  unfolding foreign
  own_operation operation h =
      let (organization, runner) = neither _ _ h in
      (
        (eq_iff operation.organization_id c.organization_id).0 organization,
        (eq_iff operation.runner_id c.runner_id).0 runner,
      )

  flush_operation-Flushes :
      (name : String) (contents : Bytes) (found : Option OutboxOperation) (s : OutboxState)
      (k : OutboxState → Returned)
      → read_file name s.files ≡ some contents
      → lib.unmarshal_operation contents ≡ found
      → ((s' : OutboxState) → Flushes s' (k s').after)
      → Flushes s (flush_operation lib c name found s k).after
  unfolding flush_operation
  flush_operation-Flushes name contents none s k held read rest = stays s
  flush_operation-Flushes name contents (some operation) s k held read rest =
      elim (Bool-cases (foreign lib c operation)) [
        | inl other ↦ rw other (stays s)
        | inr own ↦ rw own (
            discharged-Flushes name contents operation s k
              (deliver_operation-Delivers lib c s.sent operation) held read
              (own_operation operation own) rest)
      ]

  flush_file-Flushes :
      (name : String) (found : Option Bytes) (s : OutboxState) (k : OutboxState → Returned)
      → read_file name s.files ≡ found
      → ((s' : OutboxState) → Flushes s' (k s').after)
      → Flushes s (flush_file lib c name found s k).after
  unfolding flush_file
  flush_file-Flushes name none s k held rest = stays s
  flush_file-Flushes name (some contents) s k held rest =
      flush_operation-Flushes name contents _ s k held refl rest

  flush_entries-Flushes :
      (entries : List OutboxFile) (s : OutboxState)
      → Flushes s (flush_entries lib c entries s).after
  unfolding flush_entries
  flush_entries-Flushes [] s = stays s
  flush_entries-Flushes (entry ∷ rest) s = elim (Bool-cases (not (is_spooled entry))) [
    | inl skipped ↦ rw skipped (flush_entries-Flushes rest s)
    | inr spooled ↦ rw spooled (
        call_disk-Flushes _ _ _
          λ read _ _. flush_file-Flushes entry.name _ read _ refl (flush_entries-Flushes rest))
  ]

  -- Whatever the gateway and the file system answer, Flush only sends requests and removes files whose
  -- requests the gateway has accepted: it is steps of the spool that replace no file.
  pub flush_outbox-Flushes : (s : OutboxState) → Flushes s (flush_outbox lib c s).after
  unfolding flush_outbox
  flush_outbox-Flushes s = call_disk-Flushes _ _ _ λ listed _ _. flush_entries-Flushes _ listed
