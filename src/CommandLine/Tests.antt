-- ===== src/CommandLine/Tests.antt =====
-- Starts of the program at concrete inputs.
use platform_orchestrator_ru.CommandLine.{
  select_mode, decode_gateway_key, exit_code, named_mode, standard_mode_error, standard_mode,
  remote_mode,
}
use platform_orchestrator_ru.Base.{is_ok, [], some, err, ◌∷◌, ◌≡◌, ok, false, refl}

default_mode : select_mode "" [] ≡ ok standard_mode
unfolding select_mode named_mode
default_mode = refl

remote_with_url : select_mode "https://gateway" ("remote" ∷ []) ≡ ok (remote_mode "https://gateway")
unfolding select_mode named_mode
remote_with_url = refl

two_modes : is_ok (select_mode "" ("remote" ∷ "gateway" ∷ [])) ≡ false
unfolding select_mode
two_modes = refl

-- A key that the first encoding decodes to another length is refused without the second.
short_key : is_ok (decode_gateway_key (λ text. some (1 ∷ [])) (λ text. some (2 ∷ [])) "key") ≡ false
unfolding decode_gateway_key
short_key = refl

failed_results : exit_code (standard_mode_error (err "offline") (ok tt)) ≡ 1
unfolding exit_code standard_mode_error
failed_results = refl
