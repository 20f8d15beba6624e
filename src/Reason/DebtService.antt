-- ===== src/Reason/DebtService.antt =====
-- `reconcile_annual_service` of src/findociq/reason/debt_service.py
pub mod Laws
use fin_docs_analysis_evals.Common.{
  string_eq, nat_eq, ℕ, String, Bool, true, false, not, ◌&&◌, ◌||◌, Option, none, some, List, [],
  ◌∷◌, map, ◌==◌, all, any, is_some, is_empty, length, Result, ok, err, if◌then◌else◌,
}
use fin_docs_analysis_evals.Reason.Decimal.{
  Decimal, add, total, zero_decimal, is_negative, is_nonpositive, same_value,
}
use fin_docs_analysis_evals.Reason.Exec.{
  Code, Raised, evidence, metric_missing, context_conflict, value_ambiguous, conflicting_values,
  value_error, Exec, pure, raise, lift, optional, gather, ◌>>=◌, ◌>>◌,
}
use fin_docs_analysis_evals.Reason.Figure.{EvidenceValidation, Figure, value_of, validation_of}
use fin_docs_analysis_evals.Reason.Calculate.{opt_eq, same_scope}

-- The key `(r.entity_hash, r.period, r.basis, r.policy_hash)`
abbrev pub same_key : EvidenceValidation → EvidenceValidation → Bool
same_key a b = same_scope a b && a.policy_hash == b.policy_hash

abbrev pub same_key_opt : Option EvidenceValidation → Option EvidenceValidation → Bool
same_key_opt (some a) (some b) = same_key a b
same_key_opt _ _ = false

-- No receipt is missing, and the set of their keys has one element.
abbrev pub one_key : List Figure → Bool
one_key [] = false
one_key (f ∷ fs) =
    is_some (validation_of f) && all (λ g. same_key_opt (validation_of f) (validation_of g)) fs

abbrev pub schedule_names : List String
schedule_names =
    "all_loan_principal_due_crore" ∷ "all_loan_interest_due_crore"
    ∷ "additional_lease_service_crore" ∷ []

abbrev pub service_names : List String
service_names = "debt_service_crore" ∷ "principal_due_crore" ∷ "term_interest_due_crore" ∷ []

abbrev pub amounts : List Figure → List Decimal
amounts fs = map value_of fs

abbrev pub reconciled : Figure → List Figure → Result Raised (Unit {0})
reconciled disclosed [] = err (evidence context_conflict)
reconciled disclosed (f ∷ fs) =
    if not (same_key_opt (validation_of disclosed) (validation_of f))
    then err (evidence context_conflict)
    else if not (same_value (value_of disclosed) (total zero_decimal (amounts (f ∷ fs))))
    then err (evidence conflicting_values)
    else ok tt

-- The `else` of the `try` that extracts the disclosed total.
abbrev pub compare_total : Option Figure → List Figure → Result Raised (Unit {0})
compare_total none complete = ok tt
compare_total (some disclosed) complete = reconciled disclosed complete

abbrev pub schedule_valid : List Figure → Result Raised (Unit {0})
schedule_valid complete =
    if not (length complete == 3)
    then err (evidence metric_missing)
    else if not (one_key complete)
    then err (evidence context_conflict)
    else if any is_negative (amounts complete)
        || is_nonpositive (total zero_decimal (amounts complete))
    then err (evidence value_ambiguous)
    else ok tt

-- `if complete:`
unfoldable pub reconcile_schedule :
    {S : Type 0} → (String → Exec S Figure) → List Figure → Exec S (Unit {0})
reconcile_schedule extract complete = do
  lift (schedule_valid complete)
  disclosed ← optional (extract "debt_service_crore")
  lift (compare_total disclosed complete)

abbrev pub term_sum_agrees : List Decimal → Bool
term_sum_agrees (all_service ∷ principal ∷ interest ∷ []) =
    not (is_nonpositive all_service)
    && not (is_negative principal)
    && not (is_negative interest)
    && same_value all_service (add principal interest)
term_sum_agrees _ = false

-- The narrower disclosure: nothing is checked unless all three amounts were found.
abbrev pub term_valid : List Figure → Result Raised (Unit {0})
term_valid values =
    if not (length values == 3)
    then ok tt
    else if not (one_key values)
    then err (evidence context_conflict)
    else if not (term_sum_agrees (amounts values))
    then err (evidence conflicting_values)
    else ok tt

abbrev pub on_complete : {S : Type 0} → (String → Exec S Figure) → List Figure → Exec S (Unit {0})
on_complete extract [] = do values ← gather extract service_names; lift (term_valid values)
on_complete extract (f ∷ fs) = reconcile_schedule extract (f ∷ fs)

unfoldable pub reconcile_annual_service :
    {S : Type 0} → (String → Exec S Figure) → Exec S (Unit {0})
unfolding gather reconcile_schedule
reconcile_annual_service extract = do
  complete ← gather extract schedule_names
  on_complete extract complete
