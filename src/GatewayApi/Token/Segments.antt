-- ===== src/GatewayApi/Token/Segments.antt =====
-- The three dot-separated segments of a token (internal/gatewayapi/auth.go).
use text.Mathlib.TextLemmas.{nil-append, cons-append}
use platform_orchestrator_ru.Base.{String, code, ◌≡◌, refl, ◌≢◌, [], ◌∷◌, arith}
use platform_orchestrator_ru.GatewayApi.Token.{split_dots, join_dot}

abbrev pub NoDot : String → Type 0
NoDot String.[] = Unit
NoDot (String.◌∷◌ c s) = (code c ≢ b'.') × NoDot s

pub split_dots-NoDot : (s : String) → NoDot s → split_dots s ≡ s ∷ []
unfolding split_dots
split_dots-NoDot String.[] h = refl
split_dots-NoDot (String.◌∷◌ c s) h = ground (arith, split_dots-NoDot s h.1)

pub split_dots-join_dot : (a b : String) → NoDot a → split_dots (join_dot a b) ≡ a ∷ split_dots b
unfolding split_dots
split_dots-join_dot String.[] b h = rw nil-append refl
split_dots-join_dot (String.◌∷◌ c a) b h =
    rw cons-append (ground (arith, split_dots-join_dot a b h.1))

-- Cutting a token at its dots gives back the three segments that were joined.
pub split_dots-join_dot-join_dot :
    (a b c : String)
    → NoDot a
    → NoDot b
    → NoDot c
    → split_dots (join_dot a (join_dot b c)) ≡ a ∷ b ∷ c ∷ []
split_dots-join_dot-join_dot a b c ha hb hc =
    rw (split_dots-join_dot a (join_dot b c) ha, split_dots-join_dot b c hb, split_dots-NoDot c hc)
