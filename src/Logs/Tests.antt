-- ===== src/Logs/Tests.antt =====
-- Runs of the logs buffer at concrete inputs.
use platform_orchestrator_ru.Base.{
  ◌≡◌, refl, [], ◌∷◌, none, length, take, ◌-◌, if◌then◌else◌, leb, min,
}
use platform_orchestrator_ru.Logs.{
  Writer, LimitedLogsBuffer, write, write_all, new_limited_logs_buffer,
}
use platform_orchestrator_ru.Logs.Prefix.{concat, write_all-prefix, write-count}

abbrev memory : Writer
memory held slice = (length slice, none)

write_all-prefix_example :
    (write_all memory
      (new_limited_logs_buffer 3)
      ((1 ∷ 2 ∷ []) ∷ (3 ∷ 4 ∷ []) ∷ (5 ∷ []) ∷ [])).written
    ≡ take 3 (concat ((1 ∷ 2 ∷ []) ∷ (3 ∷ 4 ∷ []) ∷ (5 ∷ []) ∷ []))
write_all-prefix_example =
    write_all-prefix memory 3 ((1 ∷ 2 ∷ []) ∷ (3 ∷ 4 ∷ []) ∷ (5 ∷ []) ∷ []) (λ held slice. refl)

abbrev nearly_full : LimitedLogsBuffer
nearly_full = record { limit = 3; n = 2; written = 1 ∷ 2 ∷ [] }

write-count_example :
    (write memory nearly_full (3 ∷ 4 ∷ [])).0.0
    ≡ (if leb nearly_full.limit nearly_full.n then 2 else min (nearly_full.limit - nearly_full.n) 2)
write-count_example = write-count memory nearly_full (3 ∷ 4 ∷ [])
