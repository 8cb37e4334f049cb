-- ===== src/Kubernetes/Sorted.antt =====
-- The events of the cluster in the order of their creation (internal/kubernetesjob/client.go).
use platform_orchestrator_ru.Base.{◌∷◌, [], inl, inr, All, List, Bool, ◌≤◌, Bool-cases}
use mathlib.Core.List.{filter_map, Perm}
use platform_orchestrator_ru.Kubernetes.{Cluster, Event, keep}

-- No event is later than one before it.
abbrev pub IsNewestFirst : List Event → Type 0
IsNewestFirst [] = Unit
IsNewestFirst (event ∷ rest) =
    All (λ later. later.creation_time ≤ event.creation_time) rest × IsNewestFirst rest

-- What SortFunc promises of the events it is given.
abbrev pub IsSorted : Cluster → List Event → Type 0
IsSorted cluster events =
    Perm (cluster.sort_newest_first events) events
    × IsNewestFirst (cluster.sort_newest_first events)

All-keep : {A : Type 0} (p : A → Bool) (P : A → Type 0) (xs : List A) → All P xs → All P (keep p xs)
unfolding filter_map
All-keep p P [] h = tt
All-keep p P (a ∷ rest) (h, hs) = elim (Bool-cases (p a)) [
  | inl kept ↦ rw kept (h, All-keep p P rest hs)
  | inr left_out ↦ rw left_out (All-keep p P rest hs)
]

pub IsNewestFirst-keep :
    (p : Event → Bool) (events : List Event) → IsNewestFirst events → IsNewestFirst (keep p events)
unfolding filter_map
IsNewestFirst-keep p [] h = tt
IsNewestFirst-keep p (event ∷ rest) (h, hs) = elim (Bool-cases (p event)) [
  | inl kept ↦ rw kept (All-keep p _ rest h, IsNewestFirst-keep p rest hs)
  | inr left_out ↦ rw left_out (IsNewestFirst-keep p rest hs)
]
