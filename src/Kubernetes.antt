-- ===== src/Kubernetes.antt =====
-- internal/kubernetesjob/client.go: the client of the cluster's jobs. What the cluster answers is a function
-- of the number of the inspection.
pub mod Sorted
pub mod Warnings
mod Tests
use platform_orchestrator_ru.Base.{
  some, none, String, ℕ, Bool, List, str_append, str_eq, Option, ◌∷◌, if◌then◌else◌, map, [],
}
use mathlib.Core.List.{filter_map}
use platform_orchestrator_ru.Executor.Scheduling.{
  JobStatus, PodPhase, PodAnswer, pod, pod_not_found, pod_error, Watch,
}

-- An answer of the API, or of the client, with the errors that the callers tell apart.
pub data Answer (A : Type 0) : Type 0 where
  answer : A → Answer A
  not_found_error forbidden_error : Answer A
  other_error : (message : String) → Answer A

pub record Pod : Type 0 where
  pub name : String
  pub phase : PodPhase

-- The creation time is in seconds since the zero time, and `time_text` is how `%s` prints it in UTC.
pub record Event : Type 0 where
  pub creation_time : ℕ
  pub time_text : String
  pub type : String
  pub reason : String
  pub message : String

-- The API, and `slices.SortFunc` with the comparison that puts later creation times first.
pub record Cluster : Type 0 where
  pub get_job : (namespace job_name : String) → ℕ → Answer JobStatus
  pub list_pods : (namespace label_selector : String) → ℕ → Answer (List Pod)
  pub list_events : (namespace field_selector : String) → ℕ → Answer (List Event)
  pub sort_newest_first : List Event → List Event

unfoldable pub warning_text : Event → String
warning_text event =
    str_append event.time_text
      (str_append " - " (str_append event.reason (str_append " - " event.message)))

unfoldable pub is_warning : Event → Bool
is_warning event = str_eq event.type "Warning"

abbrev pub when {ℓ} : {A : Type ℓ} → (A → Bool) → A → Option A
when p a = if p a then some a else none

-- The values of a list that pass the test, as an append under an `if` in a loop keeps them.
abbrev pub keep {ℓ} : {A : Type ℓ} → (A → Bool) → List A → List A
keep p = filter_map (when p)

unfoldable pub first_pod : List Pod → Answer Pod
first_pod [] = not_found_error
first_pod (first ∷ rest) = answer first

module _ (cluster : Cluster) (namespace : String) where
  unfoldable pub check_job_status : (job_name : String) → ℕ → Answer JobStatus
  check_job_status job_name tick = elim (cluster.get_job namespace job_name tick) [
    | answer status ↦ answer status
    | not_found_error ↦ not_found_error
    | forbidden_error ↦ other_error "failed to retrieve job"
    | other_error message ↦ other_error "failed to retrieve job"
  ]

  unfoldable pub warnings_in : Answer (List Event) → Answer (List String)
  warnings_in (answer events) =
      answer (map warning_text (keep is_warning (cluster.sort_newest_first events)))
  warnings_in forbidden_error = forbidden_error
  warnings_in not_found_error = other_error "failed to retrieve events for object"
  warnings_in (other_error message) = other_error "failed to retrieve events for object"

  unfoldable pub get_object_warning_events : (object_name : String) → ℕ → Answer (List String)
  get_object_warning_events object_name tick =
      warnings_in
        (cluster.list_events namespace (str_append "involvedObject.name=" object_name) tick)

  unfoldable pub get_pod_job : (job_name : String) → ℕ → Answer Pod
  get_pod_job job_name tick =
      elim (cluster.list_pods namespace (str_append "job-name=" job_name) tick) [
        | answer pods ↦ first_pod pods
        | not_found_error ↦ not_found_error
        | forbidden_error ↦ forbidden_error
        | other_error message ↦ other_error "failed to list pods for job"
      ]

  -- The client as the monitor of job scheduling sees it.
  unfoldable pub pod_answer : Answer Pod → PodAnswer
  pod_answer (answer first) = pod first.name first.phase
  pod_answer not_found_error = pod_not_found
  pod_answer forbidden_error = pod_error
  pod_answer (other_error message) = pod_error

  abbrev pub given : {A : Type 0} → Answer A → Option A
  given (answer a) = some a
  given _ = none

  unfoldable pub watch_of :
      (job_id : String) (publishes : String → ℕ → Bool) (stops : ℕ → Bool) → Watch
  watch_of job_id publishes stops = record {
    check_job_status = λ tick. given (check_job_status job_id tick);
    get_pod_job = λ tick. pod_answer (get_pod_job job_id tick);
    get_object_warning_events =
        λ object_name tick. given (get_object_warning_events object_name tick);
    publishes = publishes;
    stops = stops;
  }
