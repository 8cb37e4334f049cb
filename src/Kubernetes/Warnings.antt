-- ===== src/Kubernetes/Warnings.antt =====
-- The message of the monitor of job scheduling, made of the cluster's warnings (internal/kubernetesjob and
-- internal/executor/remote_executor.go).
use platform_orchestrator_ru.Base.{
  ◌∷◌, [], some, none, inl, inr, refl, true, false, All, List, Bool, String, ◌≡◌, Bool-cases, ℕ,
  str_append, Option, if◌then◌else◌, ◌≢◌, map, ◌⊎◌, is_nil, ap, Option-cases, subst, sym,
}
use mathlib.Core.List.Perm
use mathlib.Core.List.{Perm}
use platform_orchestrator_ru.Kubernetes.{
  answer, not_found_error, forbidden_error, other_error, Cluster, Event, keep,
  get_object_warning_events, given, is_warning, warning_text, warnings_in, Answer, watch_of, when,
  pod_answer, check_job_status, get_pod_job,
}
use platform_orchestrator_ru.Executor.Scheduling.{
  join_lines, Watch, warning_state, PodPhase, pod_state, job_scheduling_state,
  monitor_job_scheduling, PodAnswer, has_started, pod, waits, pod_error, pod_not_found,
}
use platform_orchestrator_ru.Executor.Scheduling.Reports.{
  IsReported, monitor_job_scheduling-IsReported,
}
use platform_orchestrator_ru.Kubernetes.Sorted.{IsNewestFirst, IsSorted, IsNewestFirst-keep}

started_message :
    {message : String}
    → ◌≡◌ {A = Option (String × Bool)} (some ("", true)) (some (message, true))
    → "" ≡ message
started_message e = cc

-- The message is made of the texts of all the warnings of an object, of which there is one, newest first.
abbrev pub IsWarning : Cluster → (namespace object_name : String) → ℕ → (message : String) → Type 0
IsWarning cluster namespace object_name tick message =
    (events : List Event) × (newest : List Event) × (cluster.list_events namespace
        (str_append "involvedObject.name=" object_name) tick
      ≡ answer events)
    × Perm newest (keep is_warning events)
    × IsNewestFirst newest
    × (newest ≢ [])
    × (message ≡ join_lines (map warning_text newest))

module _ (cluster : Cluster) (namespace : String) where
  -- SortFunc keeps its promise for all the events that the cluster lists.
  abbrev pub AllSorted : Type 0
  AllSorted =
      (field_selector : String) (tick : ℕ) (events : List Event)
      → cluster.list_events namespace field_selector tick ≡ answer events
      → IsSorted cluster events

  WarningsOf : (object_name : String) → ℕ → Option (List String) → Type 0
  WarningsOf object_name tick none = Unit
  WarningsOf object_name tick (some texts) =
      (events : List Event) × (newest : List Event) × (cluster.list_events namespace
          (str_append "involvedObject.name=" object_name) tick
        ≡ answer events)
      × Perm newest (keep is_warning events)
      × IsNewestFirst newest
      × (texts ≡ map warning_text newest)

  warnings_found :
      (object_name : String) (tick : ℕ) (listed : Answer (List Event))
      → AllSorted
      → cluster.list_events namespace (str_append "involvedObject.name=" object_name) tick ≡ listed
      → WarningsOf object_name tick (given cluster namespace (warnings_in cluster namespace listed))
  unfolding warnings_in WarningsOf
  warnings_found object_name tick not_found_error sorted e = tt
  warnings_found object_name tick forbidden_error sorted e = tt
  warnings_found object_name tick (other_error message) sorted e = tt
  warnings_found object_name tick (answer events) sorted e =
      let (permuted, newest) = sorted _ tick events e in
      (
        events,
        keep is_warning (cluster.sort_newest_first events),
        e,
        Perm.filter_map (when is_warning) permuted,
        IsNewestFirst-keep is_warning _ newest,
        refl,
      )

  module _ (job_id : String) (publishes : String → ℕ → Bool) (stops : ℕ → Bool) where
    abbrev watch : Watch
    watch = watch_of cluster namespace job_id publishes stops

    -- What an inspection reports.
    StateOf : (object_name : String) → ℕ → Option (String × Bool) → Type 0
    StateOf object_name tick none = Unit
    StateOf object_name tick (some (message, done)) =
        (message ≡ "") ⊎ IsWarning cluster namespace object_name tick message

    state_lem :
        (object_name : String) (tick : ℕ) (texts : List String)
        → WarningsOf object_name tick (some texts)
        → StateOf object_name tick
            (if is_nil texts then some ("", false) else some (join_lines texts, true))
    unfolding StateOf WarningsOf
    state_lem object_name tick [] h = inl refl
    state_lem object_name tick (text ∷ texts)
          (events, newest, listed, permuted, ordered, texts_are) =
        inr (
          events,
          newest,
          listed,
          permuted,
          ordered,
          λ nothing. absurd (cc (texts_are, ap (map warning_text) nothing)),
          ap join_lines texts_are,
        )

    warning_state-StateOf :
        (object_name : String) (tick : ℕ)
        → AllSorted
        → StateOf object_name tick (warning_state watch job_id object_name tick)
    unfolding warning_state watch_of StateOf WarningsOf get_object_warning_events
    warning_state-StateOf object_name tick sorted =
        let found = warnings_found object_name tick _ sorted refl in
        elim (Option-cases (
          given cluster namespace (get_object_warning_events cluster namespace object_name tick))) [
            | inl absent ↦ rw (absent, warning_state) tt
            | inr (texts, e) ↦
                rw (e, warning_state)
                  (state_lem object_name tick texts (subst (WarningsOf object_name tick) e found))
          ]

    -- An object whose warnings an inspection reads is the job, or the pod that it has.
    abbrev pub IsWatched : (object_name : String) → ℕ → Type 0
    IsWatched object_name tick =
        (object_name ≡ job_id)
        ⊎ ((phase : PodPhase) × (pod_answer cluster namespace
                (get_pod_job cluster namespace job_id tick)
              ≡ pod object_name phase))

    abbrev pub IsExplained : (message : String) → Type 0
    IsExplained message =
        (tick : ℕ) × (object_name : String) × IsWatched object_name tick
        × IsWarning cluster namespace object_name tick message

    explained :
        (object_name : String) (tick : ℕ) (message : String)
        → AllSorted
        → IsWatched object_name tick
        → message ≢ ""
        → warning_state watch job_id object_name tick ≡ some (message, true)
        → IsExplained message
    unfolding StateOf
    explained object_name tick message sorted watched something e =
        elim (subst (StateOf object_name tick) e (warning_state-StateOf object_name tick sorted)) [
          | inl nothing ↦ absurd (something nothing)
          | inr warning ↦ (tick, object_name, watched, warning)
        ]

    pod_state-IsExplained :
        (p : PodAnswer) (tick : ℕ) (message : String)
        → AllSorted
        → pod_answer cluster namespace (get_pod_job cluster namespace job_id tick) ≡ p
        → message ≢ ""
        → pod_state watch job_id p tick ≡ some (message, true)
        → IsExplained message
    unfolding pod_state
    pod_state-IsExplained pod_error tick message sorted same something e = cc
    pod_state-IsExplained pod_not_found tick message sorted same something e =
        explained job_id tick message sorted (inl refl) something e
    pod_state-IsExplained (pod name phase) tick message sorted same something e =
        elim (Bool-cases (waits phase)) [
          | inl waiting ↦
              explained name tick message sorted (inr (phase, same)) something (rw waiting at e)
          | inr going ↦ absurd (something (sym (started_message (rw going at e))))
        ]

    job_scheduling_state-IsExplained :
        (tick : ℕ) (message : String)
        → AllSorted
        → message ≢ ""
        → job_scheduling_state watch job_id tick ≡ some (message, true)
        → IsExplained message
    unfolding job_scheduling_state watch_of
    job_scheduling_state-IsExplained tick message sorted something e =
        elim (Option-cases
          (given cluster namespace (check_job_status cluster namespace job_id tick))) [
            | inl absent ↦ absurd (cc (rw (absent, job_scheduling_state) at e))
            | inr (status, found) ↦ elim (Bool-cases (has_started status)) [
              | inl started ↦ absurd (
                  something
                    (sym (started_message (rw (found, started, job_scheduling_state) at e))))
              | inr waiting ↦
                  pod_state-IsExplained _ tick message sorted refl something
                    (rw (found, waiting, job_scheduling_state) at e)
            ]
          ]

    reports_lem :
        (reports : List (String × Bool))
        → AllSorted
        → IsReported watch job_id reports
        → All (λ report. IsExplained report.0) reports
    reports_lem [] sorted h = tt
    reports_lem ((message, taken) ∷ rest) sorted (something, (tick, state), last, later) = (
      job_scheduling_state-IsExplained tick message sorted something state,
      reports_lem rest sorted later,
    )

    -- Every message that the monitor of job scheduling reports is the texts of all the warnings that the
    -- cluster listed, at some inspection, for the job or for its pod, with at least one warning and
    -- none after a newer one, if SortFunc sorts the events that the cluster lists.
    pub monitor_job_scheduling-IsExplained :
        (fuel tick : ℕ)
        → AllSorted
        → All (λ report. IsExplained report.0) (monitor_job_scheduling watch job_id fuel tick)
    monitor_job_scheduling-IsExplained fuel tick sorted =
        reports_lem (monitor_job_scheduling watch job_id fuel tick) sorted
          (monitor_job_scheduling-IsReported watch job_id fuel tick)
