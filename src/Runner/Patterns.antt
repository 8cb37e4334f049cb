-- ===== src/Runner/Patterns.antt =====
-- The regular expressions of internal/runner/observation.go, matched by hand.
use platform_orchestrator_ru.Base.{
  ℕ, String, Option, none, some, Bool, true, false, leb, code, if◌then◌else◌, ◌&&◌, ◌==◌, ◌||◌, len,
}
use platform_orchestrator_ru.Runner.Json.{and_then}

unfoldable pub is_digit : ℕ → Bool
is_digit c = leb b'0' c && leb c b'9'

unfoldable pub is_letter : ℕ → Bool
is_letter c = leb b'A' c && leb c b'Z' || leb b'a' c && leb c b'z'

unfoldable pub all_chars : (ℕ → Bool) → String → Bool
all_chars p String.[] = true
all_chars p (String.◌∷◌ c s) = p (code c) && all_chars p s

unfoldable pub is_nonempty : String → Bool
is_nonempty String.[] = false
is_nonempty (String.◌∷◌ c s) = true

-- `^[A-Za-z][A-Za-z0-9_]{0,127}$`
unfoldable pub is_resource_type : String → Bool
is_resource_type String.[] = false
is_resource_type (String.◌∷◌ c s) =
    is_letter (code c)
    && leb (len s) 127
    && all_chars (λ d. is_letter d || is_digit d || d == b'_') s

-- What follows `[0-9]*`.
unfoldable pub skip_digits : String → String
skip_digits String.[] = String.[]
skip_digits (String.◌∷◌ c s) =
    let rest = skip_digits s in if is_digit (code c) then rest else String.◌∷◌ c s

-- What follows `[0-9]+`.
unfoldable pub after_number : String → Option String
after_number String.[] = none
after_number (String.◌∷◌ c s) = if is_digit (code c) then some (skip_digits s) else none

unfoldable pub after_dot : String → Option String
after_dot String.[] = none
after_dot (String.◌∷◌ c s) = if code c == b'.' then some s else none

-- `(?:[-+][0-9A-Za-z.-]+)?$`
unfoldable pub is_suffix : String → Bool
is_suffix String.[] = true
is_suffix (String.◌∷◌ c s) =
    (code c == b'-' || code c == b'+')
    && is_nonempty s
    && all_chars (λ d. is_letter d || is_digit d || d == b'.' || d == b'-') s

unfoldable pub is_matched : Option String → Bool
is_matched none = false
is_matched (some s) = is_suffix s

-- `^[0-9]+\.[0-9]+\.[0-9]+(?:[-+][0-9A-Za-z.-]+)?$`
unfoldable pub is_version : String → Bool
is_version s = is_matched (
    and_then (after_number s) λ after_major. and_then (after_dot after_major) λ minor.
      and_then (after_number minor) λ after_minor. and_then (after_dot after_minor) after_number)
