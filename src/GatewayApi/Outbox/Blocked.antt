-- ===== src/GatewayApi/Outbox/Blocked.antt =====
-- The first file that cannot be delivered keeps all others (internal/gatewayapi/outbox.go).
use platform_orchestrator_ru.GatewayApi.Outbox.{
  OutboxLibrary, Client, OutboxState, call_disk, discharged, flush_operation, flush_file,
  flush_outbox, Returned, List, String, flush_entries, OutboxOperation, OutboxFile, foreign,
  sort_entries, is_spooled, deliver_operation, read_file, called,
}
use platform_orchestrator_ru.GatewayApi.Client.{Client, Exchange}
use platform_orchestrator_ru.Base.{
  List, String, ◌≡◌, Result, Bytes, err, ℕ, some, ◌∷◌, ok, true, Bool-cases, ◌⊎◌, refl, inl, inr,
  subst, sym, [],
}

module _ (lib : OutboxLibrary) (c : Client) where
  -- Every file is still there, after an error.
  abbrev pub IsBlocked : OutboxState → Returned → Type 0
  IsBlocked s r = ((message : String) × (r.error ≡ err message)) × (r.after.files ≡ s.files)

  call_disk-IsBlocked :
      (s : OutboxState) (calls : List String) (s' : OutboxState) (k : OutboxState → Returned)
      → s'.files ≡ s.files
      → ((n : ℕ) → IsBlocked s (k (record { sent = s'.sent; files = s'.files; disk_calls = n })))
      → IsBlocked s (call_disk lib c calls s' k)
  unfolding call_disk
  call_disk-IsBlocked s [] s' k same go = go s'.disk_calls
  call_disk-IsBlocked s (call ∷ calls) s' k same go =
      elim (Bool-cases (lib.disk_works s'.disk_calls)) [
        | inl works ↦ rw works (call_disk-IsBlocked s calls (called s') k same go)
        | inr fails ↦ rw fails ((call, refl), same)
      ]

  discharged-IsBlocked :
      (s s' : OutboxState) (name e : String) (value : Result (Unit {0})) (sent : List Exchange)
      (k : OutboxState → Returned)
      → s'.files ≡ s.files
      → value ≡ err e
      → IsBlocked s (discharged lib c name value sent s' k)
  unfolding discharged
  discharged-IsBlocked s s' name e (err message) sent k same h = ((message, refl), same)
  discharged-IsBlocked s s' name e (ok u) sent k same h = cc

  flush_operation-IsBlocked :
      (s s' : OutboxState) (name e : String) (operation : OutboxOperation)
      (k : OutboxState → Returned)
      → s'.files ≡ s.files
      → (foreign lib c operation ≡ true)
        ⊎ ((deliver_operation lib c operation s'.sent).value ≡ err e)
      → IsBlocked s (flush_operation lib c name (some operation) s' k)
  unfolding flush_operation
  flush_operation-IsBlocked s s' name e operation k same (inl other) = rw other ((_, refl), same)
  flush_operation-IsBlocked s s' name e operation k same (inr refused) =
      elim (Bool-cases (foreign lib c operation)) [
        | inl other ↦ rw other ((_, refl), same)
        | inr own ↦ rw own (discharged-IsBlocked s s' name e _ _ k same refused)
      ]

  flush_file-IsBlocked :
      (s s' : OutboxState) (name e : String) (contents : Bytes) (operation : OutboxOperation)
      (k : OutboxState → Returned)
      → s'.files ≡ s.files
      → lib.unmarshal_operation contents ≡ some operation
      → (foreign lib c operation ≡ true)
        ⊎ ((deliver_operation lib c operation s'.sent).value ≡ err e)
      → IsBlocked s (flush_file lib c name (some contents) s' k)
  unfolding flush_file
  flush_file-IsBlocked s s' name e contents operation k same read refused =
      subst (λ found. IsBlocked s (flush_operation lib c name found s' k)) (sym read)
        (flush_operation-IsBlocked s s' name e operation k same refused)

  -- If the spooled file with the first name holds an operation of another runner, or one whose delivery
  -- fails, Flush is an error and leaves every file, whatever the others hold.
  pub flush_outbox-IsBlocked :
      (s : OutboxState) (entry : OutboxFile) (rest : List OutboxFile) (contents : Bytes)
      (operation : OutboxOperation) (e : String)
      → sort_entries s.files ≡ entry ∷ rest
      → is_spooled entry ≡ true
      → read_file entry.name s.files ≡ some contents
      → lib.unmarshal_operation contents ≡ some operation
      → (foreign lib c operation ≡ true)
        ⊎ ((deliver_operation lib c operation s.sent).value ≡ err e)
      → IsBlocked s (flush_outbox lib c s)
  unfolding flush_outbox flush_entries
  flush_outbox-IsBlocked s entry rest contents operation e first spooled held read refused =
      call_disk-IsBlocked s _ s _ refl λ n.
        subst
          (λ entries. IsBlocked s (
            flush_entries lib c entries
              (record { sent = s.sent; files = s.files; disk_calls = n })))
          (sym first)
          (rw spooled (
            call_disk-IsBlocked s _ (record { sent = s.sent; files = s.files; disk_calls = n }) _
              refl
              λ m.
                subst
                  (λ found. IsBlocked s (
                    flush_file lib c entry.name found
                      (record { sent = s.sent; files = s.files; disk_calls = m })
                      (flush_entries lib c rest)))
                  (sym held)
                  (flush_file-IsBlocked s
                    (record { sent = s.sent; files = s.files; disk_calls = m }) entry.name e
                    contents operation _ refl read refused)))
