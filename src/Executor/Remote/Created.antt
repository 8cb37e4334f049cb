-- ===== src/Executor/Remote/Created.antt =====
-- What an acknowledgement by `executeCommand` stands for (internal/executor/remote_executor.go).
use platform_orchestrator_ru.Base.{
  ◌≡◌, refl, false, String, true, arith, ok, [], inr, inl, str_append, Bool-cases, str_eq,
  Result-cases, subst, sym, eq_iff,
}
use platform_orchestrator_ru.Executor.Remote.{
  World, reject_with_event, reject_command, JobGateway, Delivery, CommandEnvelope, CreateJobCommand,
  handle_create_job, report, execute_command, execute_envelope, matches, has_expired, Outcome,
}
use platform_orchestrator_ru.Executor.Injection.{JobGateway}
use platform_orchestrator_ru.Messaging.{CommandEnvelope}
use platform_orchestrator_ru.Executor.Remote.Acknowledged.{
  acknowledges, reject_command-acknowledges, reject_with_event-acknowledges,
}
use platform_orchestrator_ru.Executor.Remote.Reported.{report-IsCreated, IsCreated}

module _ (w : World) (cfg : JobGateway) (delivery : Delivery) where
  abbrev Executes : CommandEnvelope → Outcome → Type 0
  Executes envelope result =
      acknowledges result.1 ≡ true
      → (command : CreateJobCommand) × (matches w cfg delivery envelope ≡ true)
        × (has_expired w cfg delivery envelope.expires_at [] ≡ false)
        × (envelope.type ≡ w.create_job_type)
        × (w.unmarshal_create_job envelope.payload ≡ ok command)
        × IsCreated w cfg delivery envelope command result.1

  reject_command-Executes :
      (envelope : CommandEnvelope) (cause : String)
      → Executes envelope (reject_command w envelope.command_id delivery.receipt cause [])
  unfolding acknowledges
  reject_command-Executes envelope cause a = absurd (
      cc (
        a,
        reject_command-acknowledges w cfg delivery envelope.command_id delivery.receipt cause []
            refl,
      ))

  reject_with_event-Executes :
      (envelope : CommandEnvelope) (code message : String)
      → Executes envelope (reject_with_event w envelope delivery.receipt code message [])
  unfolding acknowledges
  reject_with_event-Executes envelope code message a = absurd (
      cc (
        a,
        reject_with_event-acknowledges w cfg delivery envelope delivery.receipt code message []
            refl,
      ))

  module _ (envelope : CommandEnvelope) where
    abbrev executed : Outcome
    executed = execute_envelope w cfg delivery envelope []

    rejected :
        (cause : String)
        → executed ≡ reject_command w envelope.command_id delivery.receipt cause []
        → Executes envelope executed
    rejected cause e = subst (Executes envelope) (sym e) (reject_command-Executes envelope cause)

    rejected_with_event :
        (code message : String)
        → executed ≡ reject_with_event w envelope delivery.receipt code message []
        → Executes envelope executed
    rejected_with_event code message e =
        subst (Executes envelope) (sym e) (reject_with_event-Executes envelope code message)

    reported :
        (command : CreateJobCommand)
        → matches w cfg delivery envelope ≡ true
        → has_expired w cfg delivery envelope.expires_at [] ≡ false
        → str_eq envelope.type w.create_job_type ≡ true
        → w.unmarshal_create_job envelope.payload ≡ ok command
        → executed ≡ report w cfg delivery envelope command (handle_create_job w cfg command [])
        → Executes envelope executed
    reported command ours timely supported decoded e = subst (Executes envelope) (sym e) (λ a. (
      command,
      ours,
      timely,
      (eq_iff envelope.type w.create_job_type).0 supported,
      decoded,
      report-IsCreated w cfg delivery envelope command a,
    ))

  execute_envelope-Executes :
      (envelope : CommandEnvelope) → Executes envelope (execute_envelope w cfg delivery envelope [])
  unfolding execute_envelope
  execute_envelope-Executes envelope = elim (Bool-cases (matches w cfg delivery envelope)) [
    | inr foreign ↦
        rejected envelope "command envelope identity or protocol version does not match this runner"
          (rw foreign refl)
    | inl ours ↦ elim (Bool-cases (has_expired w cfg delivery envelope.expires_at [])) [
      | inl late ↦
          rejected_with_event envelope "COMMAND_EXPIRED" "command expired before execution"
            (rw (ours, late) refl)
      | inr timely ↦ elim (Bool-cases (str_eq envelope.type w.create_job_type)) [
        | inr unsupported ↦
            rejected envelope
              (str_append "unsupported runner command type " (w.quote envelope.type))
              (rw (ours, timely, unsupported) refl)
        | inl supported ↦ elim (Result-cases (w.unmarshal_create_job envelope.payload)) [
          | inr (message, e) ↦
              rejected envelope (str_append "decode command payload: " message)
                (rw (ours, timely, supported, e) refl)
          | inl (command, e) ↦
              reported envelope command ours timely supported e
                (rw (ours, timely, supported, e) refl)
        ]
      ]
    ]
  ]

  -- If `executeCommand` acknowledges a delivery, the command is a create-job command for this runner
  -- that had not expired, the cluster has accepted the creation of the job that it describes with the
  -- gateway's configuration injected, or answered that a job of that name was there already, and the
  -- gateway has accepted the event about it, in this order.
  pub execute_command-IsCreated :
      acknowledges (execute_command w cfg delivery []).1 ≡ true
      → (envelope : CommandEnvelope) × (command : CreateJobCommand) × (w.unmarshal_envelope
            delivery.command
          ≡ ok envelope)
        × (matches w cfg delivery envelope ≡ true)
        × (has_expired w cfg delivery envelope.expires_at [] ≡ false)
        × (envelope.type ≡ w.create_job_type)
        × (w.unmarshal_create_job envelope.payload ≡ ok command)
        × IsCreated w cfg delivery envelope command (execute_command w cfg delivery []).1
  unfolding execute_command acknowledges
  execute_command-IsCreated a = elim (Result-cases (w.unmarshal_envelope delivery.command)) [
    | inr (e, bad) ↦ absurd (
        ground (
          arith,
          a,
          bad,
          reject_command-acknowledges w cfg delivery "unknown" delivery.receipt
              (str_append "decode command envelope: " e) [] refl,
        ))
    | inl (envelope, good) ↦
        let same : execute_command w cfg delivery [] ≡ execute_envelope w cfg delivery envelope [] =
          rw (good, execute_command) refl in
        let (command, ours, timely, supported, decoded, done) =
          execute_envelope-Executes envelope (rw same at a) in
        (
          envelope,
          command,
          good,
          ours,
          timely,
          supported,
          decoded,
          subst (λ r. IsCreated w cfg delivery envelope command r.1) (sym same) done,
        )
  ]
