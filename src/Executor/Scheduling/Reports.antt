-- ===== src/Executor/Scheduling/Reports.antt =====
-- What the monitor of job scheduling reports (internal/executor/remote_executor.go).
use platform_orchestrator_ru.Base.{
  ℕ, zero, suc, String, List, [], ◌∷◌, ◌≡◌, ◌≢◌, refl, none, some, Bool, true, false, Bool-cases,
  inl, inr, Option, str_eq, arith, eq_iff, ◌⊎◌,
}
use platform_orchestrator_ru.Executor.Scheduling.{
  Watch, job_scheduling_state, monitor_job_scheduling, report_state,
}

module _ (watch : Watch) (job_id : String) where
  -- Reports of messages that an inspection gave; after one that the gateway took there is none.
  abbrev pub IsReported : List (String × Bool) → Type 0
  IsReported [] = Unit
  IsReported ((message, taken) ∷ rest) =
      (message ≢ "")
      × ((tick : ℕ) × (job_scheduling_state watch job_id tick ≡ some (message, true)))
      × ((taken ≡ false) ⊎ (rest ≡ []))
      × IsReported rest

  report_state-IsReported :
      (state : Option (String × Bool)) (tick : ℕ) (later : List (String × Bool))
      → job_scheduling_state watch job_id tick ≡ state
      → IsReported later
      → IsReported (report_state watch job_id state tick later)
  unfolding report_state
  report_state-IsReported none tick later e h = h
  report_state-IsReported (some (message, false)) tick later e h = h
  report_state-IsReported (some (message, true)) tick later e h =
      elim (Bool-cases (str_eq message "")) [
        | inl nothing ↦ rw (nothing, report_state, IsReported) tt
        | inr something ↦
            let named : message ≢ "" = λ same. ground (arith, something, eq_iff message "") in
            elim (Bool-cases (watch.publishes message tick)) [
              | inl taken ↦
                  rw (something, taken, report_state, IsReported) (named, (tick, e), inr refl, tt)
              | inr refused ↦
                  rw (something, refused, report_state, IsReported) (named, (tick, e), inl refl, h)
            ]
      ]

  pub monitor_job_scheduling-IsReported :
      (fuel tick : ℕ) → IsReported (monitor_job_scheduling watch job_id fuel tick)
  unfolding monitor_job_scheduling
  monitor_job_scheduling-IsReported zero tick = tt
  monitor_job_scheduling-IsReported (suc fuel) tick =
      let ih = monitor_job_scheduling-IsReported fuel (suc tick) in
      report_state-IsReported (job_scheduling_state watch job_id tick) tick _ refl
        (elim (Bool-cases (watch.stops tick)) [
          | inl stopped ↦ rw (stopped, IsReported) tt
          | inr going ↦ rw (going, IsReported) ih
        ])
