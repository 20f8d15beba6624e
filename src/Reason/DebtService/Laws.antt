-- ===== src/Reason/DebtService/Laws.antt =====
-- What the reconciliation of the annual debt service accepts.
use fin_docs_analysis_evals.Common.{
  string_eq, nat_eq, String, true, false, ◌≡◌, refl, ◌≢◌, Option, List, [], ◌∷◌, ◌==◌, any, Result,
  ok, err, arith, length,
}
use fin_docs_analysis_evals.Reason.Decimal.{total, zero_decimal, is_negative, is_nonpositive}
use fin_docs_analysis_evals.Reason.Exec.{
  Raised, evidence, metric_missing, Exec, unless_missing, with_found, gather,
}
use fin_docs_analysis_evals.Reason.Figure.{Figure}
use fin_docs_analysis_evals.Reason.DebtService.{
  one_key, amounts, compare_total, reconcile_schedule, on_complete, reconcile_annual_service,
}

-- An extraction with no state, from what each name gives.
abbrev pub reading : (String → Result Raised Figure) → String → Exec (Unit {0}) Figure
reading read name s = (read name, s)

module _ (read : String → Result Raised Figure) where
  on_complete_partial :
      (found : List Figure)
      → found ≢ []
      → length found ≢ 3
      → (on_complete (reading read) found tt).0 ≡ err (evidence metric_missing)
  unfolding reconcile_schedule
  on_complete_partial [] some_found not_all = absurd (some_found refl)
  on_complete_partial (f ∷ fs) some_found not_all =
      let short : (length (f ∷ fs) == 3) ≡ false = ground arith in rw short

  -- All three obligations are there, of one entity, period, basis and policy, with no negative
  -- amount and a positive total, and a total that is disclosed beside them is their sum.
  pub record IsReconciled (found : List Figure) : Type 0 where
    pub all_three : length found ≡ 3
    pub key : one_key found ≡ true
    pub none_negative : any is_negative (amounts found) ≡ false
    pub positive : is_nonpositive (total zero_decimal (amounts found)) ≡ false
    pub disclosed : Option Figure
    pub disclosed_read : unless_missing (read "debt_service_crore") ≡ ok disclosed
    pub disclosed_agrees : compare_total disclosed found ≡ ok tt

module _ (read : String → Result Raised Figure) (a b c : Option Figure) where
  abbrev three : List Figure
  three = with_found a (with_found b (with_found c []))

  gather-three :
      (x y z : String)
      → unless_missing (read x) ≡ ok a
      → unless_missing (read y) ≡ ok b
      → unless_missing (read z) ≡ ok c
      → gather (reading read) (x ∷ y ∷ z ∷ []) tt ≡ (ok three, tt)
  unfolding gather
  gather-three x y z ea eb ec = rw (ea, eb, ec)

  -- A schedule of obligations that is disclosed in part is refused as incomplete: the narrower
  -- disclosure is not consulted.
  pub partial_schedule_missing :
      unless_missing (read "all_loan_principal_due_crore") ≡ ok a
      → unless_missing (read "all_loan_interest_due_crore") ≡ ok b
      → unless_missing (read "additional_lease_service_crore") ≡ ok c
      → three ≢ []
      → length three ≢ 3
      → (reconcile_annual_service (reading read) tt).0 ≡ err (evidence metric_missing)
  unfolding reconcile_annual_service
  partial_schedule_missing ea eb ec some_found not_all =
      rw
        (gather-three "all_loan_principal_due_crore" "all_loan_interest_due_crore"
          "additional_lease_service_crore" ea eb ec)
        (on_complete_partial read three some_found not_all)
