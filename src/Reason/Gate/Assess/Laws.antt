-- ===== src/Reason/Gate/Assess/Laws.antt =====
-- Every metric that is asked for has its outcome, and no outcome invents a figure.
use fin_docs_analysis_evals.Common.{
  string_eq, ◌≤◌, ltb, String, ◌≡◌, refl, sym, ap, ◌∙◌, subst, Bool, true, false, none, some, List,
  [], ◌∷◌, length, length-take, Result, ok, err, if◌then◌else◌, bind-ok, bind-raise_if,
  ok_injective, arith,
}
use fin_docs_analysis_evals.Common.Dict.{lookup}
use fin_docs_analysis_evals.Ingest.Schema.{Provenance, Chunk}
use fin_docs_analysis_evals.Reason.Exec.{Code, Raised, evidence, key_error, value_error}
use fin_docs_analysis_evals.Reason.Figure.{SourceCitation, Figure}
use fin_docs_analysis_evals.Reason.Gate.Policy.{MetricRule, EvidencePolicy}
use fin_docs_analysis_evals.Reason.Gate.Sources.{Row, rule_for}
use fin_docs_analysis_evals.Reason.Gate.Assess.{
  FieldAssessment, Failure, permission_error, validation_error, status_of, is_scope_violation,
  refused_code, formula_ids, diagnose, candidates, supported_field, refused_field, assess_one,
  assess_metrics,
}

module _ (policy : EvidencePolicy) (cite : Provenance → SourceCitation)
    (rows_of : Chunk → MetricRule → Result Code (List Row)) (direct : String → Result Code Figure)
    (extract_figure : String → Result Raised Figure) where
  -- The outcome of a metric whose extraction gave `r`.
  pub data IsOutcome : Result Raised Figure → FieldAssessment → Type 0 where
    extracted :
        (f : Figure) (field : FieldAssessment)
        → field.outcome_figure ≡ some f
        → field.status ≡ "supported"
        → field.error_code ≡ none
        → IsOutcome (ok f) field
    refused :
        (code : Code) (field : FieldAssessment)
        → is_scope_violation code ≡ false
        → field.outcome_figure ≡ none
        → field.status ≡ status_of code
        → field.error_code ≡ some code
        → IsOutcome (err (evidence code)) field

  pub record IsAssessed (metric : String) (field : FieldAssessment) : Type 0 where
    pub of_metric : field.assessed_metric ≡ metric
    pub outcome : IsOutcome (extract_figure metric) field
    pub few_citations : length field.candidate_citations ≤ 20
    pub few_diagnostics : length field.operand_diagnostics ≤ 48

  -- One outcome for each metric, in their order.
  abbrev pub AreAssessed : List String → List FieldAssessment → Type 0
  AreAssessed [] [] = Unit
  AreAssessed [] (f ∷ fs) = ⊥
  AreAssessed (m ∷ ms) [] = ⊥
  AreAssessed (m ∷ ms) (f ∷ fs) = IsAssessed m f × AreAssessed ms fs

  refused_code-ok :
      (e : Raised) (code : Code)
      → refused_code e ≡ ok code
      → (e ≡ evidence code) × (is_scope_violation code ≡ false)
  refused_code-ok key_error code h = cc
  refused_code-ok value_error code h = cc
  refused_code-ok (evidence c) code h = by_test (is_scope_violation c) refl h
    where
      by_test :
          (b : Bool)
          → is_scope_violation c ≡ b
          → ◌≡◌ {A = Result Failure Code} (if b then err permission_error else ok c) (ok code)
          → (evidence c ≡ evidence code) × (is_scope_violation code ≡ false)
      by_test true e q = cc
      by_test false e q =
          subst (λ d. (evidence c ≡ evidence d) × (is_scope_violation d ≡ false))
            (ok_injective c code q) (refl, e)

  assess_one-IsAssessed :
      (chunks : List Chunk) (metric : String) (field : FieldAssessment)
      → assess_one policy cite rows_of direct extract_figure chunks metric (extract_figure metric)
        ≡ ok field
      → IsAssessed metric field
  unfolding assess_one
  assess_one-IsAssessed chunks metric field h = by_result (extract_figure metric) refl h
    where
      by_result :
          (r : Result Raised Figure)
          → extract_figure metric ≡ r
          → assess_one policy cite rows_of direct extract_figure chunks metric r ≡ ok field
          → IsAssessed metric field
      by_result (ok f) e q = subst (IsAssessed metric) (ok_injective _ field q) (record {
        of_metric = refl;
        outcome =
            subst
              (λ r.
                IsOutcome r (supported_field policy cite rows_of direct extract_figure metric f))
              (sym e) (extracted f _ refl refl refl);
        few_citations = omega arith;
        few_diagnostics = omega arith;
      })
      by_result (err x) e q =
          let (code, h1, k1) = bind-ok (refused_code x) _ field q in
          let ids =
            formula_ids policy cite rows_of direct extract_figure metric
              (lookup metric policy.calculations) in
          let (ds, h2, k2) =
            bind-ok (diagnose policy cite rows_of direct extract_figure metric ids) _ field k1 in
          let (h3, k3) = bind-raise_if (ltb 48 (length ds)) validation_error _ field k2 in
          let (is_evidence, no_violation) = refused_code-ok x code h1 in
          subst (IsAssessed metric) (ok_injective _ field k3) (record {
            of_metric = refl;
            outcome =
                subst
                  (λ r.
                    IsOutcome r (
                      refused_field policy cite rows_of direct extract_figure metric code chunks
                        ds))
                  (sym (e ∙ ap err is_evidence)) (refused code _ no_violation refl refl refl);
            few_citations = omega (
              arith,
              length-take 20 (
                  candidates policy cite rows_of direct extract_figure (rule_for policy metric)
                    chunks),
            );
            few_diagnostics = ground arith;
          })

  -- An assessment that returns has one outcome for each metric in order: the extracted figure with
  -- status supported, or no figure with the code of the refusal, which is not a scope violation;
  -- citations are 20 at most and diagnostics 48.
  pub assess_metrics-AreAssessed :
      (chunks : List Chunk) (metrics : List String) (fields : List FieldAssessment)
      → assess_metrics policy cite rows_of direct extract_figure chunks metrics ≡ ok fields
      → AreAssessed metrics fields
  unfolding assess_metrics
  assess_metrics-AreAssessed chunks [] fields h =
      subst (AreAssessed []) (ok_injective [] fields h) tt
  assess_metrics-AreAssessed chunks (m ∷ ms) fields h =
      let (field, h1, k1) =
        bind-ok (assess_one policy cite rows_of direct extract_figure chunks m (extract_figure m)) _
          fields h in
      let (rest, h2, k2) =
        bind-ok (assess_metrics policy cite rows_of direct extract_figure chunks ms) _ fields k1 in
      subst (AreAssessed (m ∷ ms)) (ok_injective (field ∷ rest) fields k2)
        (assess_one-IsAssessed chunks m field h1, assess_metrics-AreAssessed chunks ms rest h2)
