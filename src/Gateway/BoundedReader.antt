-- ===== src/Gateway/BoundedReader.antt =====
-- `boundedReader` of internal/gateway/server.go over a request body. An underlying read returns at
-- least one byte of what is left, and at most the buffer holds, or reports the end.
pub mod Drained
use platform_orchestrator_ru.Base.{
  ℕ, zero, suc, ◌+◌, ◌-◌, Bytes, [], ◌++◌, Bool, true, false, ◌||◌, min, length, take, drop, is_nil,
  not, ◌==◌, if◌then◌else◌,
}

pub record BoundedReader : Type 0 where
  pub source : Bytes
  pub remaining : ℕ
  pub exceeded : Bool

-- What one call of `Read` returns: the bytes read, and whether it reports the end.
pub record Read : Type 0 where
  pub bytes : Bytes
  pub eof : Bool
  pub reader : BoundedReader

-- The underlying reader returns `count` bytes of the source, fewer only at its end, with `io.EOF` when
-- nothing is left; the probe for one more byte consumes it.
unfoldable pub read_some : BoundedReader → ℕ → Read
read_some r count =
    let got = take count r.source in
    let rest = drop count r.source in
    let remaining = r.remaining - length got in
    if remaining == 0
    then record {
      bytes = got;
      eof = is_nil r.source;
      reader = record {
        source = drop 1 rest;
        remaining = remaining;
        exceeded = r.exceeded || not (is_nil rest);
      };
    }
    else record {
      bytes = got;
      eof = is_nil r.source;
      reader = record { source = rest; remaining = remaining; exceeded = r.exceeded };
    }

-- `Read` into a buffer of `suc buffer` bytes, where the underlying reader would return `suc chunk`.
unfoldable pub read : BoundedReader → (buffer chunk : ℕ) → Read
unfolding read_some
read r buffer chunk =
    if r.remaining == 0
    then record { bytes = []; eof = true; reader = record r { exceeded = true } }
    else read_some r (min (suc chunk) (min (suc buffer) r.remaining))

-- A consumer that reads to the end, on fuel; `sizes` gives the buffer and the chunk of each read.
unfoldable pub read_all : ℕ → (ℕ → ℕ × ℕ) → BoundedReader → Bytes × BoundedReader
read_all zero sizes r = ([], r)
read_all (suc fuel) sizes r =
    let one = read r (sizes fuel).0 (sizes fuel).1 in
    let rest = read_all fuel sizes one.reader in
    if one.eof then (one.bytes, one.reader) else (one.bytes ++ rest.0, rest.1)
