-- ===== src/Unary.antt =====
-- An encoding of bytes as text, which stands for base64 in concrete runs.
use platform_orchestrator_ru.Base.{
  ℕ, zero, suc, String, Bytes, [], ◌∷◌, code, if◌then◌else◌, ◌≡◌, Bool, ◌==◌, ◌+◌, true, arith,
  ◌&&◌, ap, false, refl,
}

-- A number in unary, ended by a dash.
unfoldable pub unary : ℕ → String → String
unary zero rest = String.◌∷◌ "-" rest
unary (suc n) rest = String.◌∷◌ "1" (unary n rest)

unfoldable pub encode : Bytes → String
encode [] = String.[]
encode (n ∷ rest) = unary n (encode rest)

unfoldable pub decode_from : ℕ → String → Bytes
decode_from n String.[] = []
decode_from n (String.◌∷◌ c s) =
    if code c == b'-' then n ∷ decode_from 0 s else decode_from (suc n) s

decode_from-unary :
    (n m : ℕ) (rest : String) → decode_from m (unary n rest) ≡ (m + n) ∷ decode_from 0 rest
unfolding decode_from unary
decode_from-unary zero m rest = let e : m + 0 ≡ m = omega arith in rw e refl
decode_from-unary (suc n) m rest =
    let e : suc m + n ≡ m + suc n = omega arith in rw (decode_from-unary n (suc m) rest) (rw e refl)

pub decode-encode_lem : (bytes : Bytes) → decode_from 0 (encode bytes) ≡ bytes
unfolding encode decode_from
decode-encode_lem [] = refl
decode-encode_lem (n ∷ rest) =
    let e : 0 + n ≡ n = omega arith in
    rw (decode_from-unary n 0 (encode rest)) (rw e (ap (◌∷◌ n) (decode-encode_lem rest)))

abbrev pub same_bytes : Bytes → Bytes → Bool
same_bytes [] [] = true
same_bytes (x ∷ xs) (y ∷ ys) = x == y && same_bytes xs ys
same_bytes _ _ = false

pub same_bytes_refl : (xs : Bytes) → same_bytes xs xs ≡ true
same_bytes_refl [] = refl
same_bytes_refl (x ∷ xs) = ground (arith, same_bytes_refl xs)
