-- ===== src/Logs.antt =====
-- `LimitedLogsBuffer` of internal/limitedlogsbuffer/limitedlogsbuffer.go. The mutex makes each `Write`
-- one step. The underlying writer is a parameter: it says how many bytes of a slice it takes, after
-- what it holds, and whether it reports an error.
mod Tests
pub mod Prefix
use platform_orchestrator_ru.Base.{
  ℕ, ◌+◌, ◌-◌, Bytes, List, [], ◌∷◌, ◌++◌, Option, String, none, length, take, ltb, leb,
  if◌then◌else◌,
}

pub record LimitedLogsBuffer : Type 0 where
  pub limit : ℕ
  pub n : ℕ
  pub written : Bytes

abbrev pub Writer : Type 0
Writer = (held slice : Bytes) → ℕ × Option String

unfoldable pub new_limited_logs_buffer : ℕ → LimitedLogsBuffer
new_limited_logs_buffer limit = record { limit = limit; n = 0; written = [] }

-- The part of a slice that still fits.
unfoldable pub fitting : LimitedLogsBuffer → Bytes → Bytes
fitting buffer p =
    if ltb (buffer.limit - buffer.n) (length p) then take (buffer.limit - buffer.n) p else p

-- `Write`: the count and the error returned, and the buffer after it.
unfoldable pub write : Writer → LimitedLogsBuffer → Bytes → (ℕ × Option String) × LimitedLogsBuffer
write writer buffer p = if leb buffer.limit buffer.n then ((length p, none), buffer) else (
  (length (fitting buffer p), (writer buffer.written (fitting buffer p)).1),
  record {
    limit = buffer.limit;
    n = buffer.n + (writer buffer.written (fitting buffer p)).0;
    written =
        buffer.written ++ take (writer buffer.written (fitting buffer p)).0 (fitting buffer p);
  },
)

-- Writes one after the other.
unfoldable pub write_all : Writer → LimitedLogsBuffer → List Bytes → LimitedLogsBuffer
write_all writer buffer [] = buffer
write_all writer buffer (p ∷ ps) = write_all writer (write writer buffer p).1 ps
