-- ===== src/Reason/Dscr/Transparent.antt =====
-- Each step of the assessment that only extracts is the same with and without the cache.
use fin_docs_analysis_evals.Common.{
  string_eq, String, Option, none, some, List, [], ◌∷◌, Result, err,
}
use fin_docs_analysis_evals.Common.Dict.{lookup}
use fin_docs_analysis_evals.Reason.Formulas.{formulas, Formula}
use fin_docs_analysis_evals.Reason.Exec.{
  Code, evidence, metric_not_allowed, Exec, lift, optional, with_found, gather, ◌>>=◌,
}
use fin_docs_analysis_evals.Reason.Figure.{Figure}
use fin_docs_analysis_evals.Reason.Calculate.{extract_all, combine, with_formula, calculate}
use fin_docs_analysis_evals.Reason.DebtService.{
  schedule_names, service_names, schedule_valid, compare_total, term_valid, reconcile_schedule,
  on_complete, reconcile_annual_service,
}
use fin_docs_analysis_evals.Reason.Dscr.{Cache, extract, results_of}
use fin_docs_analysis_evals.Reason.Dscr.Simulation.{
  plain, Sim, extract-Sim, Sim-pure, Sim-lift, Sim-optional, Sim-bind,
}

module _ (direct : String → Result Code Figure) where
  abbrev bind :
      {A B : Type 0} (m : Exec Cache A) (p : Exec (Unit {0}) A) (f : A → Exec Cache B)
      (g : A → Exec (Unit {0}) B)
      → Sim direct m p
      → ((a : A) → Sim direct (f a) (g a))
      → Sim direct (m >>= f) (p >>= g)
  bind m p f g = Sim-bind direct f g m p

  extract_all-Sim :
      (names : List String)
      → Sim direct (extract_all (extract direct) names) (extract_all (plain direct) names)
  unfolding extract_all
  extract_all-Sim [] = Sim-pure direct []
  extract_all-Sim (n ∷ ns) =
      bind (extract direct n) (plain direct n) _ _ (extract-Sim direct n) (λ f.
        bind (extract_all (extract direct) ns) (extract_all (plain direct) ns) _ _
          (extract_all-Sim ns) (λ fs. Sim-pure direct (f ∷ fs)))

  pub calculate-Sim :
      (id policy_hash : String)
      → Sim direct
          (calculate id (extract direct) policy_hash)
          (calculate id (plain direct) policy_hash)
  unfolding calculate
  calculate-Sim id policy_hash = with (lookup id formulas)
    where
      with :
          (o : Option Formula)
          → Sim direct
              (with_formula id (extract direct) policy_hash o)
              (with_formula id (plain direct) policy_hash o)
      with none = Sim-lift direct (err (evidence metric_not_allowed))
      with (some f) =
          bind (extract_all (extract direct) f.operands) (extract_all (plain direct) f.operands) _ _
            (extract_all-Sim f.operands) (λ ops. Sim-lift direct (combine id policy_hash f ops))

  gather-Sim :
      (names : List String)
      → Sim direct (gather (extract direct) names) (gather (plain direct) names)
  unfolding gather
  gather-Sim [] = Sim-pure direct []
  gather-Sim (n ∷ ns) =
      bind (optional (extract direct n)) (optional (plain direct n)) _ _
        (Sim-optional direct (extract direct n) (plain direct n) (extract-Sim direct n))
        (λ o.
          bind (gather (extract direct) ns) (gather (plain direct) ns) _ _ (gather-Sim ns)
            (λ fs. Sim-pure direct (with_found o fs)))

  reconcile_schedule-Sim :
      (complete : List Figure)
      → Sim direct
          (reconcile_schedule (extract direct) complete)
          (reconcile_schedule (plain direct) complete)
  unfolding reconcile_schedule
  reconcile_schedule-Sim complete =
      bind (lift (schedule_valid complete)) (lift (schedule_valid complete)) _ _
        (Sim-lift direct (schedule_valid complete))
        (λ _.
          bind (optional (extract direct "debt_service_crore"))
            (optional (plain direct "debt_service_crore")) _ _
            (Sim-optional direct (extract direct "debt_service_crore")
              (plain direct "debt_service_crore") (extract-Sim direct "debt_service_crore"))
            (λ o. Sim-lift direct (compare_total o complete)))

  on_complete-Sim :
      (complete : List Figure)
      → Sim direct (on_complete (extract direct) complete) (on_complete (plain direct) complete)
  on_complete-Sim [] =
      bind (gather (extract direct) service_names) (gather (plain direct) service_names) _ _
        (gather-Sim service_names) (λ values. Sim-lift direct (term_valid values))
  on_complete-Sim (f ∷ fs) = reconcile_schedule-Sim (f ∷ fs)

  pub reconcile_annual_service-Sim :
      Sim direct
        (reconcile_annual_service (extract direct))
        (reconcile_annual_service (plain direct))
  unfolding reconcile_annual_service
  reconcile_annual_service-Sim =
      bind (gather (extract direct) schedule_names) (gather (plain direct) schedule_names) _ _
        (gather-Sim schedule_names) on_complete-Sim

  pub results_of-Sim :
      (policy_hash : String) (ids : List String)
      → Sim direct
          (results_of (extract direct) policy_hash ids)
          (results_of (plain direct) policy_hash ids)
  unfolding results_of
  results_of-Sim policy_hash [] = Sim-pure direct []
  results_of-Sim policy_hash (id ∷ ids) =
      bind (optional (calculate id (extract direct) policy_hash))
        (optional (calculate id (plain direct) policy_hash)) _ _
        (Sim-optional direct (calculate id (extract direct) policy_hash)
          (calculate id (plain direct) policy_hash) (calculate-Sim id policy_hash))
        (λ o.
          bind (results_of (extract direct) policy_hash ids)
            (results_of (plain direct) policy_hash ids) _ _ (results_of-Sim policy_hash ids)
            (λ rest. Sim-pure direct (with_found o rest)))
