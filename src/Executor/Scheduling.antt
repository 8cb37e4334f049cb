-- ===== src/Executor/Scheduling.antt =====
-- `monitorJobScheduling` and `jobSchedulingState` of internal/executor/remote_executor.go. What the
-- cluster and the gateway answer is a function of the number of the inspection.
pub mod Reports
use platform_orchestrator_ru.Base.{
  ℕ, zero, suc, String, List, [], ◌∷◌, Option, none, some, Bool, true, false, ltb, is_nil, ◌||◌,
  str_append, if◌then◌else◌, not, str_eq,
}

pub record JobStatus : Type 0 where
  pub succeeded : ℕ
  pub failed : ℕ
  pub ready : Option ℕ

pub data PodPhase : Type 0 where
  pending running succeeded failed unknown : PodPhase

-- What `GetPodJob` answers.
pub data PodAnswer : Type 0 where
  pod : (name : String) → PodPhase → PodAnswer
  pod_not_found pod_error : PodAnswer

-- The answers of the cluster (`none` for an error), of the gateway to the publication of an error, and
-- whether the context or the timeout ends the wait after an inspection.
pub record Watch : Type 0 where
  pub check_job_status : ℕ → Option JobStatus
  pub get_pod_job : ℕ → PodAnswer
  pub get_object_warning_events : String → ℕ → Option (List String)
  pub publishes : String → ℕ → Bool
  pub stops : ℕ → Bool

abbrev pub is_positive : Option ℕ → Bool
is_positive none = false
is_positive (some n) = ltb 0 n

unfoldable pub has_started : JobStatus → Bool
has_started status = ltb 0 status.succeeded || ltb 0 status.failed || is_positive status.ready

unfoldable pub waits : PodPhase → Bool
waits pending = true
waits unknown = true
waits _ = false

-- `strings.Join(warnings, "\n")`.
unfoldable pub join_lines : List String → String
join_lines [] = ""
join_lines (line ∷ []) = line
join_lines (line ∷ lines) = str_append line (str_append "\n" (join_lines lines))

module _ (watch : Watch) (job_id : String) where
  -- The last part of `jobSchedulingState`: the message and whether the monitor is done.
  unfoldable pub warning_state : String → ℕ → Option (String × Bool)
  warning_state object_name tick = elim (watch.get_object_warning_events object_name tick) [
    | none ↦ none
    | some warnings ↦ if is_nil warnings then some ("", false) else some (join_lines warnings, true)
  ]

  unfoldable pub pod_state : PodAnswer → ℕ → Option (String × Bool)
  pod_state (pod name phase) tick = if waits phase then warning_state name tick else some ("", true)
  pod_state pod_not_found tick = warning_state job_id tick
  pod_state pod_error tick = none

  unfoldable pub job_scheduling_state : ℕ → Option (String × Bool)
  job_scheduling_state tick = elim (watch.check_job_status tick) [
    | none ↦ none
    | some status ↦
        if has_started status then some ("", true) else pod_state (watch.get_pod_job tick) tick
  ]

  -- The body of the loop after an inspection; `later` is what the loop reports if it goes on.
  unfoldable pub report_state :
      Option (String × Bool) → ℕ → (later : List (String × Bool)) → List (String × Bool)
  report_state none tick later = later
  report_state (some (message, false)) tick later = later
  report_state (some (message, true)) tick later =
      if str_eq message ""
      then []
      else if watch.publishes message tick
      then (message, true) ∷ []
      else (message, false) ∷ later

  -- What the monitor asks the gateway to publish from an inspection on, with the gateway's answers; on
  -- fuel for the inspections until the timeout.
  unfoldable pub monitor_job_scheduling : ℕ → ℕ → List (String × Bool)
  monitor_job_scheduling zero tick = []
  monitor_job_scheduling (suc fuel) tick =
      let rest = monitor_job_scheduling fuel (suc tick) in
      report_state (job_scheduling_state tick) tick (if watch.stops tick then [] else rest)
