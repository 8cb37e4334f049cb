-- ===== src/Vendor/Report/Runs.antt =====
-- What the vendor check makes of the messages of a report (scripts/vendorcheck/main.go).
use platform_orchestrator_ru.Base.{
  with_ok, refl, ok-injective, map, List, Result, String, ◌≡◌, ◌++◌, ◌∷◌, ok, ◌∙◌, all, true, sym,
  ap, [], ◌>>=◌, subst, arith, inl, inr,
}
use mathlib.Core.List.{append-nil, append_assoc}
use platform_orchestrator_ru.Vendor.Values.{Members, Value}
use platform_orchestrator_ru.Vendor.Report.{
  ReportLibrary, Scanner, ReviewedArtifact, ReportState, Value, insert_id, receive_message,
  has_text, is_reviewed_config,
}
use platform_orchestrator_ru.Vendor.Report.Steps.{collect, state, message_cases}
use platform_orchestrator_ru.Vendor.Report.Messages.{
  marshal_all, Message, message_value, is_entry, findings_in, gather, finding_ids_in, advisories_in,
  sbom, is_record, config,
}
use platform_orchestrator_ru.Vendor.Report.Phases.{entry_step, record_step, first_step}

pub collect-append :
    (xs ys ids : List String) → collect (xs ++ ys) ids ≡ collect ys (collect xs ids)
collect-append [] ys ids = refl
collect-append (x ∷ xs) ys ids = collect-append xs ys (insert_id x ids)

marshal_all-append :
    (marshal : Members → Result String) (bs cs : List Members) (ts us : List String)
    → marshal_all marshal bs ≡ ok ts
    → marshal_all marshal cs ≡ ok us
    → marshal_all marshal (bs ++ cs) ≡ ok (ts ++ us)
marshal_all-append marshal [] cs ts us h h' = h' ∙ ap (λ ts. ok (ts ++ us)) (ok-injective h)
marshal_all-append marshal (b ∷ bs) cs ts us h h' = with_ok _ (marshal b) h λ t e rest.
    with_ok _ (marshal_all marshal bs) rest λ ts' e' same.
      rw (e, marshal_all-append marshal bs cs ts' us e' h')
        (ap (λ ts. ok (ts ++ us)) (ok-injective same))

module _ (lib : ReportLibrary) (p : Scanner) (want : ReviewedArtifact) where
  unfoldable pub take_all : ReportState → List Value → Result ReportState
  take_all s [] = ok s
  take_all s (v ∷ vs) = receive_message lib p want s v >>= (λ s'. take_all s' vs)

  -- The values after the SBOM are entries, and this is the state after them.
  unfoldable pub AfterSbom : (findings ids osvs : List String) → List Value → ReportState → Type 0
  AfterSbom findings ids osvs vs s' =
      (after : List Message) × (texts : List String) × (vs ≡ map message_value after)
      × (all is_entry after ≡ true)
      × (marshal_all lib.marshal (gather findings_in after) ≡ ok texts)
      × (s'
          ≡ state 1 1 (findings ++ texts) (collect (gather finding_ids_in after) ids)
              (collect (gather advisories_in after) osvs))

  after_more :
      (m : Message) (vs : List Value) (findings ids osvs texts : List String) (s' : ReportState)
      → is_entry m ≡ true
      → marshal_all lib.marshal (findings_in m) ≡ ok texts
      → AfterSbom
          (findings ++ texts)
          (collect (finding_ids_in m) ids)
          (collect (advisories_in m) osvs)
          vs
          s'
      → AfterSbom findings ids osvs (message_value m ∷ vs) s'
  unfolding AfterSbom
  after_more m vs findings ids osvs texts s' entry made
        (after, texts', vs_are, entries, made', s_is) =
      (
        m ∷ after,
        texts ++ texts',
        ap (◌∷◌ (message_value m)) vs_are,
        rw entry entries,
        marshal_all-append lib.marshal (findings_in m) _ texts texts' made made',
        s_is
            ∙ cc (
              append_assoc findings texts texts',
              collect-append (finding_ids_in m) (gather finding_ids_in after) ids,
              collect-append (advisories_in m) (gather advisories_in after) osvs,
            ),
      )

  after_sbom :
      (vs : List Value) (findings ids osvs : List String) (s' : ReportState)
      → take_all (state 1 1 findings ids osvs) vs ≡ ok s'
      → AfterSbom findings ids osvs vs s'
  unfolding take_all AfterSbom
  after_sbom [] findings ids osvs s' h = (
    [],
    [],
    refl,
    refl,
    refl,
    sym (ok-injective h) ∙ ap (λ fs. state 1 1 fs ids osvs) (sym (append-nil findings)),
  )
  after_sbom (v ∷ vs) findings ids osvs s' h =
      with_ok _ (receive_message lib p want (state 1 1 findings ids osvs) v) h λ s e rest.
        let (m, v_is, free, taken) = message_cases lib p want _ s v e in
        let (entry, texts, made, s_is) = entry_step lib p want m s findings ids osvs taken in
        subst (λ v. AfterSbom findings ids osvs (v ∷ vs) s') (sym v_is)
          (after_more m vs findings ids osvs texts s' entry made
            (after_sbom vs _ _ _ s' (subst (λ s. take_all s vs ≡ ok s') s_is rest)))

  -- The values after the configuration are records, the SBOM, and entries.
  unfoldable pub BeforeSbom : (osvs : List String) → List Value → ReportState → Type 0
  BeforeSbom osvs vs s' =
      (before : List Message) × (described : Members) × (rest : List Value) × (vs
        ≡ map message_value before ++ message_value (sbom described) ∷ rest)
      × (all is_record before ≡ true)
      × (has_text described "go_version" want.go_version ≡ true)
      × AfterSbom [] [] (collect (gather advisories_in before) osvs) rest s'

  before_more :
      (m : Message) (vs : List Value) (osvs : List String) (s' : ReportState)
      → is_record m ≡ true
      → BeforeSbom (collect (advisories_in m) osvs) vs s'
      → BeforeSbom osvs (message_value m ∷ vs) s'
  unfolding BeforeSbom
  before_more m vs osvs s' record_is (before, described, rest, vs_are, records, version, after) = (
    m ∷ before,
    described,
    rest,
    ap (◌∷◌ (message_value m)) vs_are,
    rw record_is records,
    version,
    subst (λ osvs. AfterSbom [] [] osvs rest s')
        (sym (collect-append (advisories_in m) (gather advisories_in before) osvs)) after,
  )

  before_sbom :
      (vs : List Value) (osvs : List String) (s' : ReportState)
      → take_all (state 1 0 [] [] osvs) vs ≡ ok s'
      → s'.sboms ≡ 1
      → BeforeSbom osvs vs s'
  unfolding take_all BeforeSbom
  before_sbom [] osvs s' h one = absurd (omega (arith, one, ap (λ s. s.sboms) (ok-injective h)))
  before_sbom (v ∷ vs) osvs s' h one =
      with_ok _ (receive_message lib p want (state 1 0 [] [] osvs) v) h λ s e rest.
        let (m, v_is, free, taken) = message_cases lib p want _ s v e in
        subst (λ v. BeforeSbom osvs (v ∷ vs) s') (sym v_is)
          (elim (record_step lib p want m s osvs taken) [
            | inl (record_is, s_is) ↦
                before_more m vs osvs s' record_is
                  (before_sbom vs _ s' (subst (λ s. take_all s vs ≡ ok s') s_is rest) one)
            | inr (described, m_is, version, s_is) ↦ (
              [],
              described,
              vs,
              ap (λ m. message_value m ∷ vs) m_is,
              refl,
              version,
              after_sbom vs [] [] osvs s' (subst (λ s. take_all s vs ≡ ok s') s_is rest),
            )
          ])

  -- A whole report begins with the reviewed configuration.
  pub whole_report :
      (vs : List Value) (s' : ReportState)
      → take_all (state 0 0 [] [] []) vs ≡ ok s'
      → s'.configs ≡ 1
      → s'.sboms ≡ 1
      → (setup : Members) × (rest : List Value) × (vs ≡ message_value (config setup) ∷ rest)
        × (is_reviewed_config p setup ≡ true)
        × BeforeSbom [] rest s'
  unfolding take_all
  whole_report [] s' h first one =
      absurd (omega (arith, first, ap (λ s. s.configs) (ok-injective h)))
  whole_report (v ∷ vs) s' h first one =
      with_ok _ (receive_message lib p want (state 0 0 [] [] []) v) h λ s e rest.
        let (m, v_is, free, taken) = message_cases lib p want _ s v e in
        let (setup, m_is, reviewed, s_is) = first_step lib p want m s free taken in
        (
          setup,
          vs,
          ap (λ v. v ∷ vs) (v_is ∙ ap message_value m_is),
          reviewed,
          before_sbom vs [] s' (subst (λ s. take_all s vs ≡ ok s') s_is rest) one,
        )
