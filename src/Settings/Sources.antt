-- ===== src/Settings/Sources.antt =====
-- What an accepted configuration of the gateway has (internal/config/config.go).
use platform_orchestrator_ru.Base.{
  String, Bool, ◌≢◌, ◌≡◌, ℤ, not, str_eq, fail_if, ◌⊎◌, false, true, ok, ℕ, ◌||◌, pos, arith,
  eq_iff, Bool-cases, with_ok, refl, ◌&&◌, ◌≤◌, inr, inl, ok-injective, negsuc, fail_if-ok, ◌↔◌,
  some, Option, or_fail, ◌>>=◌, subst, or_fail-some, ◌∙◌, ap, none,
}
use platform_orchestrator_ru.Settings.{
  GatewayModeConfiguration, below, same_bool, validate_gateway_mode, above, uses_static_key,
  get_gateway_mode_configuration, SettingsLibrary, Environment,
}

-- One source of keys, a port and a limit of logs.
abbrev pub HasControlPlane : GatewayModeConfiguration → Type 0
HasControlPlane c =
    (c.control_plane_url ≢ "")
    × (c.static_organization_id ≡ "")
    × (c.static_runner_id ≡ "")
    × (c.static_public_key_file ≡ "")

abbrev pub HasStaticKey : GatewayModeConfiguration → Type 0
HasStaticKey c =
    (c.control_plane_url ≡ "")
    × (c.static_organization_id ≢ "")
    × (c.static_runner_id ≢ "")
    × (c.static_public_key_file ≢ "")

pub record IsUsable (c : GatewayModeConfiguration) : Type 0 where
  pub nats : c.nats_url ≢ ""
  pub one_source : HasControlPlane c ⊎ HasStaticKey c
  pub port : (n : ℕ) × (c.port ≡ pos n) × (1 ≤ n) × (n ≤ 65535)
  pub max_log_bytes : (n : ℕ) × (c.max_log_bytes ≡ pos n) × (1 ≤ n)

in_range :
    (port : ℤ)
    → below port 1 || above port 65535 ≡ false
    → (n : ℕ) × (port ≡ pos n) × (1 ≤ n) × (n ≤ 65535)
unfolding below above
in_range (pos n) h = (n, refl, ground (arith, h), ground (arith, h))
in_range (negsuc n) h = cc

at_least_one : (limit : ℤ) → below limit 1 ≡ false → (n : ℕ) × (limit ≡ pos n) × (1 ≤ n)
unfolding below
at_least_one (pos n) h = (n, refl, ground (arith, h))
at_least_one (negsuc n) h = cc

-- Exactly one source, and a static one is whole, on the tests for empty settings.
one_of :
    (control organization runner file : Bool)
    → same_bool (not control) (not organization || not runner || not file) ≡ false
    → (not organization || not runner || not file) && (organization || runner || file) ≡ false
    → ((control ≡ false) × (organization ≡ true) × (runner ≡ true) × (file ≡ true))
      ⊎ ((control ≡ true) × (organization ≡ false) × (runner ≡ false) × (file ≡ false))
unfolding same_bool
one_of true true true true h h' = cc
one_of true true true false h h' = cc
one_of true true false true h h' = cc
one_of true true false false h h' = cc
one_of true false true true h h' = cc
one_of true false true false h h' = cc
one_of true false false true h h' = cc
one_of true false false false h h' = inr (refl, refl, refl, refl)
one_of false true true true h h' = inl (refl, refl, refl, refl)
one_of false true true false h h' = cc
one_of false true false true h h' = cc
one_of false true false false h h' = cc
one_of false false true true h h' = cc
one_of false false true false h h' = cc
one_of false false false true h h' = cc
one_of false false false false h h' = cc

set : (s : String) → str_eq s "" ≡ false → s ≢ ""
set s h = λ e. ground (arith, h, (eq_iff s "").1 e)

unset : (s : String) → str_eq s "" ≡ true → s ≡ ""
unset s h = (eq_iff s "").0 h

is_set : (s : String) → s ≢ "" → str_eq s "" ≡ false
is_set s h = elim (Bool-cases (str_eq s "")) [
  | inl empty ↦ absurd (h (unset s empty))
  | inr other ↦ other
]

validate_gateway_mode-IsUsable :
    (c c' : GatewayModeConfiguration) → validate_gateway_mode c ≡ ok c' → (c ≡ c') × IsUsable c
unfolding validate_gateway_mode uses_static_key
validate_gateway_mode-IsUsable c c' h = with_ok Goal (fail_if (str_eq c.nats_url "") _) h λ _ p1 h1.
    with_ok Goal (fail_if (same_bool (not (str_eq c.control_plane_url "")) (uses_static_key c)) _)
      h1
      λ _ p2 h2.
        with_ok Goal
          (fail_if
            (uses_static_key c
              && (str_eq c.static_organization_id ""
                  || str_eq c.static_runner_id ""
                  || str_eq c.static_public_key_file ""))
            _)
          h2
          λ _ p3 h3. with_ok Goal (fail_if (below c.port 1 || above c.port 65535) _) h3 λ _ p4 h4.
            with_ok Goal (fail_if (below c.max_log_bytes 1) _) h4 λ _ p5 h5. (
              ok-injective h5,
              record {
                nats = set c.nats_url (fail_if-ok _ _ p1);
                one_source =
                    elim (one_of (str_eq c.control_plane_url "")
                      (str_eq c.static_organization_id "") (str_eq c.static_runner_id "")
                      (str_eq c.static_public_key_file "") (fail_if-ok _ _ p2)
                      (fail_if-ok _ _ p3)) [
                        | inl (control, organization, runner, file) ↦
                            inl (set _ control, unset _ organization, unset _ runner, unset _ file)
                        | inr (control, organization, runner, file) ↦
                            inr (unset _ control, set _ organization, set _ runner, set _ file)
                      ];
                port = in_range c.port (fail_if-ok _ _ p4);
                max_log_bytes = at_least_one c.max_log_bytes (fail_if-ok _ _ p5);
              },
            )
  where
    Goal : Type 0
    Goal = (c ≡ c') × IsUsable c

in_range_pos :
    (port : ℤ) (n : ℕ) → port ≡ pos n → 1 ≤ n → n ≤ 65535 → below port 1 || above port 65535 ≡ false
unfolding below above
in_range_pos port n e low high = rw e (ground (arith, low, high))

at_least_one_pos : (limit : ℤ) (n : ℕ) → limit ≡ pos n → 1 ≤ n → below limit 1 ≡ false
unfolding below
at_least_one_pos limit n e low = rw e (ground (arith, low))

empty_test : (s : String) → s ≡ "" → str_eq s "" ≡ true
empty_test s e = (eq_iff s "").1 e

sources_accepted :
    (c : GatewayModeConfiguration)
    → HasControlPlane c ⊎ HasStaticKey c
    → (same_bool (not (str_eq c.control_plane_url "")) (uses_static_key c) ≡ false)
      × (uses_static_key c
            && (str_eq c.static_organization_id ""
                || str_eq c.static_runner_id ""
                || str_eq c.static_public_key_file "")
          ≡ false)
unfolding uses_static_key same_bool
sources_accepted c (inl (control, organization, runner, file)) =
    rw (is_set _ control, empty_test _ organization, empty_test _ runner, empty_test _ file)
      (refl, refl)
sources_accepted c (inr (control, organization, runner, file)) =
    rw (empty_test _ control, is_set _ organization, is_set _ runner, is_set _ file) (refl, refl)

IsUsable-accepted : (c : GatewayModeConfiguration) → IsUsable c → validate_gateway_mode c ≡ ok c
unfolding validate_gateway_mode
IsUsable-accepted c u =
    let (source, whole) = sources_accepted c u.one_source in
    let (port, is_port, low, high) = u.port in
    let (limit, is_limit, positive) = u.max_log_bytes in
    rw
      (
        is_set c.nats_url u.nats,
        source,
        whole,
        in_range_pos c.port port is_port low high,
        at_least_one_pos c.max_log_bytes limit is_limit positive,
      )
      refl

-- GetGatewayModeConfiguration gives a configuration exactly if it is the one that envconfig reads and
-- has a URL of NATS, one source of keys, the control plane or all three static settings, a port from 1 to
-- 65535 and a positive limit of logs.
pub get_gateway_mode_configuration_iff :
    (lib : SettingsLibrary) (environment : Environment) (c : GatewayModeConfiguration)
    → (get_gateway_mode_configuration lib environment ≡ ok c)
      ↔ ((lib.process_gateway environment ≡ some c) × IsUsable c)
unfolding get_gateway_mode_configuration
get_gateway_mode_configuration_iff lib environment c = (
  λ h.
      with_ok ((lib.process_gateway environment ≡ some c) × IsUsable c)
        (or_fail (lib.process_gateway environment) "envconfig") h
        λ read processed h'.
          let (same, usable) = validate_gateway_mode-IsUsable read c h' in
          (
            or_fail-some (lib.process_gateway environment) _ processed ∙ ap some same,
            subst IsUsable same usable,
          ),
  λ (processed, usable). accepted_lem (lib.process_gateway environment) processed usable,
)
  where
    accepted_lem :
        (found : Option GatewayModeConfiguration)
        → found ≡ some c
        → IsUsable c
        → (or_fail found "envconfig" >>= validate_gateway_mode) ≡ ok c
    accepted_lem none e usable = cc
    accepted_lem (some read) e usable =
        subst (λ found. validate_gateway_mode found ≡ ok c) (cc e) (IsUsable-accepted c usable)
