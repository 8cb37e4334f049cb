-- ===== src/Executor/Injection/Upsert.antt =====
-- What a container sees in its environment after the injection (internal/executor/remote_executor.go).
use platform_orchestrator_ru.Base.{
  both_true, ◌||◌, String, List, [], ◌∷◌, Option, none, some, ◌≡◌, eq_iff, str_eq, eq_refl, false,
  if◌then◌else◌, Bool-cases, refl, inl, inr, arith, Bool, any, true, not, subst, ◌&&◌, ◌||◌,
}
use platform_orchestrator_ru.Executor.Injection.{
  EnvVar, set_variable, set_all, common_variables, inject_container, JobGateway, Container,
}

-- The value of the first entry of a name.
unfoldable pub first_of : String → List EnvVar → Option String
first_of name [] = none
first_of name (variable ∷ rest) =
    let others = first_of name rest in
    if str_eq variable.name name then some variable.value else others

set_variable-value :
    (env : List EnvVar) (variable : EnvVar)
    → first_of variable.name (set_variable env variable) ≡ some variable.value
unfolding first_of set_variable
set_variable-value [] variable = rw (eq_refl variable.name) refl
set_variable-value (existing ∷ rest) variable =
    elim (Bool-cases (str_eq existing.name variable.name)) [
      | inl same ↦ rw (same, set_variable, first_of) (rw (eq_refl variable.name) refl)
      | inr other ↦
          rw (other, set_variable, first_of) (rw (other) (set_variable-value rest variable))
    ]

set_variable-other :
    (env : List EnvVar) (variable : EnvVar) (name : String)
    → str_eq variable.name name ≡ false
    → first_of name (set_variable env variable) ≡ first_of name env
unfolding first_of set_variable
set_variable-other [] variable name h = rw h refl
set_variable-other (existing ∷ rest) variable name h =
    let ih = set_variable-other rest variable name h in
    ground (
      arith,
      eq_iff existing.name variable.name,
      eq_iff existing.name name,
      eq_iff variable.name name,
    )

-- Whether a name is that of one of the variables.
unfoldable pub names : String → List EnvVar → Bool
names name = any (λ variable. str_eq variable.name name)

set_all-other :
    (env variables : List EnvVar) (name : String)
    → names name variables ≡ false
    → first_of name (set_all env variables) ≡ first_of name env
unfolding set_all names
set_all-other env [] name h = refl
set_all-other env (variable ∷ rest) name h =
    rw (set_all-other (set_variable env variable) rest name (ground (arith, h)))
      (set_variable-other env variable name (ground (arith, h)))

-- No two of the variables have the same name.
unfoldable pub is_distinct : List EnvVar → Bool
is_distinct [] = true
is_distinct (variable ∷ rest) = not (names variable.name rest) && is_distinct rest

set_all-value :
    (env variables : List EnvVar) (name : String)
    → is_distinct variables ≡ true
    → names name variables ≡ true
    → first_of name (set_all env variables) ≡ first_of name variables
unfolding set_all names is_distinct first_of
set_all-value env [] name d h = cc
set_all-value env (variable ∷ rest) name d h = elim (Bool-cases (str_eq variable.name name)) [
  | inl same ↦
      let e : variable.name ≡ name = ground (arith, eq_iff variable.name name) in
      let absent : names name rest ≡ false = ground (arith, d) in
      rw same (
        rw (set_all-other (set_variable env variable) rest name absent) (
          subst (λ n. first_of n (set_variable env variable) ≡ some variable.value) e
            (set_variable-value env variable)))
  | inr other ↦
      rw other (
        set_all-value (set_variable env variable) rest name (ground (arith, d)) (ground (arith, h)))
]

common_variables-is_distinct : (cfg : JobGateway) → is_distinct (common_variables cfg) ≡ true
unfolding common_variables is_distinct names
common_variables-is_distinct cfg = elim (Bool-cases (str_eq cfg.outbox_pvc "")) [
  | inl no_pvc ↦ elim (Bool-cases (str_eq cfg.ca_secret "")) [
    | inl no_ca ↦ rw (no_pvc, no_ca) refl
    | inr ca ↦ rw (no_pvc, ca) refl
  ]
  | inr pvc ↦ elim (Bool-cases (str_eq cfg.ca_secret "")) [
    | inl no_ca ↦ rw (pvc, no_ca) refl
    | inr ca ↦ rw (pvc, ca) refl
  ]
]

inject_container-first :
    (cfg : JobGateway) (container : Container) (name : String)
    → first_of name (inject_container cfg container).env ≡ (
        if names name (common_variables cfg)
        then first_of name (common_variables cfg)
        else first_of name container.env)
unfolding inject_container
inject_container-first cfg container name = elim (Bool-cases (names name (common_variables cfg))) [
  | inl ours ↦ rw ours (
      set_all-value container.env (common_variables cfg) name (common_variables-is_distinct cfg)
        ours)
  | inr other ↦ rw other (set_all-other container.env (common_variables cfg) name other)
]

-- The value of the last entry of a name, which is the one that Kubernetes gives to the process.
unfoldable pub value_of : String → List EnvVar → Option String
value_of name [] = none
value_of name (variable ∷ rest) =
    if names name rest || not (str_eq variable.name name)
    then value_of name rest
    else some variable.value

-- Where no name stands twice, the first entry of a name is the last.
value_of-first_of :
    (env : List EnvVar) (name : String)
    → is_distinct env ≡ true
    → (value_of name env ≡ first_of name env)
unfolding value_of first_of is_distinct
value_of-first_of [] name h = refl
value_of-first_of (variable ∷ rest) name h = elim (Bool-cases (str_eq variable.name name)) [
  | inl same ↦
      let e : variable.name ≡ name = (eq_iff variable.name name).0 same in
      let absent : names name rest ≡ false =
        subst (λ n. names n rest ≡ false) e (ground (arith, h)) in
      rw (same, absent) refl
  | inr other ↦
      let ih = value_of-first_of rest name (ground (arith, h)) in ground (arith, other, ih)
]

set_variable-names :
    (env : List EnvVar) (variable : EnvVar) (name : String)
    → names name (set_variable env variable) ≡ str_eq variable.name name || names name env
unfolding set_variable names
set_variable-names [] variable name = ground arith
set_variable-names (existing ∷ rest) variable name =
    let ih = set_variable-names rest variable name in
    ground (
      arith,
      ih,
      eq_iff existing.name variable.name,
      eq_iff existing.name name,
      eq_iff variable.name name,
    )

set_variable-is_distinct :
    (env : List EnvVar) (variable : EnvVar)
    → is_distinct env ≡ true
    → is_distinct (set_variable env variable) ≡ true
unfolding set_variable is_distinct names
set_variable-is_distinct [] variable h = refl
set_variable-is_distinct (existing ∷ rest) variable h =
    elim (Bool-cases (str_eq existing.name variable.name)) [
      | inl same ↦
          let e : existing.name ≡ variable.name = (eq_iff existing.name variable.name).0 same in
          rw (same, is_distinct) (subst (λ n. not (names n rest) && is_distinct rest ≡ true) e h)
      | inr other ↦
          let (apart, later) = both_true (not (names existing.name rest)) (is_distinct rest) h in
          let ih = set_variable-is_distinct rest variable later in
          let names_more = set_variable-names rest variable existing.name in
          rw (other, is_distinct)
            (ground (
              arith,
              apart,
              ih,
              names_more,
              other,
              eq_iff existing.name variable.name,
              eq_iff variable.name existing.name,
            ))
    ]

set_all-is_distinct :
    (env variables : List EnvVar)
    → is_distinct env ≡ true
    → is_distinct (set_all env variables) ≡ true
unfolding set_all
set_all-is_distinct env [] h = h
set_all-is_distinct env (variable ∷ rest) h =
    set_all-is_distinct (set_variable env variable) rest (set_variable-is_distinct env variable h)

-- If no variable stands twice in the environment of a container, then in that of the injected container the
-- gateway's variables have the gateway's values, whatever the job specification said of them, and every
-- other name keeps its value.
pub inject_container-env :
    (cfg : JobGateway) (container : Container) (name : String)
    → is_distinct container.env ≡ true
    → value_of name (inject_container cfg container).env ≡ (
        if names name (common_variables cfg)
        then value_of name (common_variables cfg)
        else value_of name container.env)
unfolding inject_container
inject_container-env cfg container name h =
    rw
      (
        value_of-first_of (set_all container.env (common_variables cfg)) name
            (set_all-is_distinct container.env (common_variables cfg) h),
        value_of-first_of (common_variables cfg) name (common_variables-is_distinct cfg),
        value_of-first_of container.env name h,
      )
      (inject_container-first cfg container name)
