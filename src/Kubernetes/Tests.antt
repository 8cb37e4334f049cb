-- ===== src/Kubernetes/Tests.antt =====
-- A run of the cluster's client at concrete inputs.
use platform_orchestrator_ru.Base.{◌∷◌, [], none, refl, true, false, All, List, ◌≡◌, subst, arith}
use mathlib.Core.List.{reverse, filter_map}
use mathlib.Core.List.Perm
use platform_orchestrator_ru.Kubernetes.{
  answer, Event, Cluster, watch_of, check_job_status, pod_answer, get_pod_job, first_pod,
  get_object_warning_events, warnings_in, is_warning, warning_text,
}
use platform_orchestrator_ru.Executor.Scheduling.{
  monitor_job_scheduling, report_state, job_scheduling_state, has_started, pod_state, warning_state,
  join_lines,
}
use platform_orchestrator_ru.Kubernetes.Warnings.{
  AllSorted, IsExplained, monitor_job_scheduling-IsExplained,
}
use platform_orchestrator_ru.Kubernetes.Sorted.{IsSorted}

abbrev scheduled : Event
scheduled = record {
  creation_time = 7;
  time_text = "t7";
  type = "Normal";
  reason = "Scheduled";
  message = "assigned";
}

abbrev failed_scheduling : Event
failed_scheduling = record {
  creation_time = 5;
  time_text = "t5";
  type = "Warning";
  reason = "FailedScheduling";
  message = "no nodes";
}

-- A cluster with a job that waits, and events that it lists in the order of their time.
abbrev waiting_cluster : Cluster
waiting_cluster = record {
  get_job = λ namespace job_name tick. answer (record { succeeded = 0; failed = 0; ready = none });
  list_pods = λ namespace label_selector tick. answer [];
  list_events = λ namespace field_selector tick. answer (failed_scheduling ∷ scheduled ∷ []);
  sort_newest_first = reverse;
}

two_events-IsSorted : IsSorted waiting_cluster (failed_scheduling ∷ scheduled ∷ [])
unfolding reverse
two_events-IsSorted = (Perm.swap failed_scheduling scheduled [], ((omega arith, tt), (tt, tt)))

same_events : (xs ys : List Event) → answer xs ≡ answer ys → xs ≡ ys
same_events xs ys e = cc

waiting-AllSorted : AllSorted waiting_cluster "runner"
waiting-AllSorted field_selector tick events e =
    subst (IsSorted waiting_cluster) (same_events _ _ e) two_events-IsSorted

reports_warning :
    monitor_job_scheduling
      (watch_of waiting_cluster "runner" "job" (λ message tick. true) (λ tick. false))
      "job"
      2
      0
    ≡ ("t5 - FailedScheduling - no nodes", true) ∷ []
unfolding monitor_job_scheduling report_state job_scheduling_state watch_of check_job_status
    has_started pod_state pod_answer get_pod_job first_pod warning_state get_object_warning_events
    warnings_in filter_map is_warning join_lines warning_text reverse
reports_warning = refl

monitor_job_scheduling-IsExplained_example :
    All
      (λ report.
        IsExplained waiting_cluster "runner" "job" (λ message tick. true) (λ tick. false) report.0)
      (monitor_job_scheduling
        (watch_of waiting_cluster "runner" "job" (λ message tick. true) (λ tick. false))
        "job"
        2
        0)
monitor_job_scheduling-IsExplained_example =
    monitor_job_scheduling-IsExplained waiting_cluster "runner" "job" (λ message tick. true)
      (λ tick. false) 2 0 waiting-AllSorted
