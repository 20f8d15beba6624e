-- ===== src/Reason/Dscr.antt =====
-- `calculate_dscr` of src/findociq/reason/dscr.py. What the gate reads from the chunks, its method
-- `_direct`, is the argument `direct`: it has no state, so one function of the name.
pub mod Simulation
pub mod Transparent
pub mod Probing
pub mod Laws
use fin_docs_analysis_evals.Common.{
  string_eq, nat_eq, ℕ, String, Bool, true, false, not, ◌&&◌, ◌||◌, Option, none, some, List, [],
  ◌∷◌, map, ◌==◌, all, any, is_some, is_empty, length, Result, ok, err, if◌then◌else◌,
}
use fin_docs_analysis_evals.Common.Dict.{Dict, lookup, insert}
use fin_docs_analysis_evals.Common.Int.{ℤ, pos, negsuc}
use fin_docs_analysis_evals.Reason.Decimal.{
  Decimal, total, zero_decimal, is_negative, is_nonpositive, same_value,
}
use fin_docs_analysis_evals.Reason.Formulas.{Formula, formulas}
use fin_docs_analysis_evals.Reason.Exec.{
  Code, Raised, evidence, key_error, value_error, metric_missing, metric_not_allowed,
  context_conflict, value_ambiguous, scope_violation, Exec, pure, raise, lift, unless_missing,
  optional, with_found, and_then, ◌>>=◌, ◌>>◌,
}
use fin_docs_analysis_evals.Reason.Figure.{Figure, value_of}
use fin_docs_analysis_evals.Reason.Calculate.{calculate}
use fin_docs_analysis_evals.Reason.DebtService.{reconcile_annual_service}

-- `cache[name]` is a figure, or the `EvidenceInsufficient` that its extraction raised.
abbrev pub Cache : Type 0
Cache = Dict String (Result Code Figure)

abbrev pub from_cache : Result Code Figure → Result Raised Figure
from_cache (ok f) = ok f
from_cache (err c) = err (evidence c)

module _ (direct : String → Result Code Figure) where
  abbrev pub cached : String → Option (Result Code Figure) → Exec Cache Figure
  cached name none cache = (from_cache (direct name), insert name (direct name) cache)
  cached name (some r) cache = (from_cache r, cache)

  -- The closure `extract(name)`.
  unfoldable pub extract : String → Exec Cache Figure
  extract name cache = cached name (lookup name cache) cache

abbrev pub is_zero : ℤ → Bool
is_zero (pos n) = n == 0
is_zero (negsuc n) = false

-- `zip(formula.operands, coefficients, strict=True)`, the names with a coefficient that is not zero
unfoldable pub weighted_names : List String → List ℤ → Result Raised (List String)
weighted_names [] [] = ok []
weighted_names (n ∷ ns) (c ∷ cs) = elim (weighted_names ns cs) [
  | ok rest ↦ ok (if is_zero c then rest else n ∷ rest)
  | err e ↦ err e
]
weighted_names _ _ = err value_error

abbrev pub or_key_error : Option Formula → Result Raised Formula
or_key_error none = err key_error
or_key_error (some f) = ok f

-- `FORMULAS[formula_id]`
abbrev pub formula_at : String → Result Raised Formula
formula_at id = or_key_error (lookup id formulas)

abbrev pub numerator_of : Formula → List ℤ
numerator_of f = f.numerator

abbrev pub denominator_of : Formula → List ℤ
denominator_of f = f.denominator

-- `except EvidenceInsufficient as error: if error.code == "evidence_scope_violation": raise`
abbrev pub unless_scope : Result Raised Figure → Result Raised (Unit {0})
unless_scope (ok f) = ok tt
unless_scope (err (evidence scope_violation)) = err (evidence scope_violation)
unless_scope (err (evidence c)) = ok tt
unless_scope (err e) = err e

abbrev pub tolerant : {S : Type 0} → Exec S Figure → Exec S (Unit {0})
tolerant m s = let (r, s') = m s in (unless_scope r, s')

module _ {S : Type 0} (extract : String → Exec S Figure) where
  unfoldable pub probe_names : List String → Exec S (Unit {0})
  probe_names [] = pure tt
  probe_names (n ∷ ns) = tolerant (extract n) >> probe_names ns

  -- One side of every formula that may be chosen.
  unfoldable pub probe_side : (Formula → List ℤ) → List String → Exec S (Unit {0})
  unfolding probe_names weighted_names
  probe_side side [] = pure tt
  probe_side side (id ∷ ids) =
      (do
        f ← lift (formula_at id)
        names ← lift (weighted_names f.operands (side f))
        probe_names names)
      >> probe_side side ids

-- `isinstance(result, EvidenceInsufficient) and result.code != "evidence_metric_missing"`
abbrev pub blocks : Result Code Figure → Result Raised (Unit {0})
blocks (ok f) = ok tt
blocks (err metric_missing) = ok tt
blocks (err c) = err (evidence c)

abbrev pub first_error :
    Result Raised (Unit {0}) → Result Raised (Unit {0}) → Result Raised (Unit {0})
first_error (err e) rest = err e
first_error (ok _) rest = rest

-- The first cached exception that is not a missing metric is raised.
abbrev pub blocking : Cache → Result Raised (Unit {0})
blocking [] = ok tt
blocking ((_, r) ∷ cache) = first_error (blocks r) (blocking cache)

abbrev pub found_next :
    Option (Result Code Figure) → Result Raised (List Decimal) → Result Raised (List Decimal)
found_next none rest = err key_error
found_next (some (ok f)) (ok rest) = ok (value_of f ∷ rest)
found_next (some (ok f)) (err e) = err e
found_next (some (err c)) rest = rest

-- `[cache[n] for n in names if not isinstance(cache[n], EvidenceInsufficient)]`
abbrev pub found_in : Cache → List String → Result Raised (List Decimal)
found_in cache [] = ok []
found_in cache (n ∷ ns) = found_next (lookup n cache) (found_in cache ns)

abbrev pub denominator_ok : List String → List Decimal → Result Raised (Unit {0})
denominator_ok names found =
    if any is_negative found
      || (length found == length names && is_nonpositive (total zero_decimal found))
    then err (evidence value_ambiguous)
    else ok tt

-- The body of the loop over the formulas: it reads the cache.
unfoldable pub denominator_check : String → Cache → Result Raised (Unit {0})
unfolding weighted_names
denominator_check id cache = and_then (formula_at id) λ f.
    and_then (weighted_names f.operands f.denominator)
      λ names. and_then (found_in cache names) (denominator_ok names)

unfoldable pub check_denominators : List String → Exec Cache (Unit {0})
unfolding denominator_check
check_denominators [] = pure tt
check_denominators (id ∷ ids) =
    (λ cache. (denominator_check id cache, cache)) >> check_denominators ids

-- The values that the formulas give, each missing one left out.
unfoldable pub results_of :
    {S : Type 0} → (String → Exec S Figure) → String → List String → Exec S (List Figure)
unfolding calculate
results_of extract policy_hash [] = pure []
results_of extract policy_hash (id ∷ ids) = do
  found ← optional (calculate id extract policy_hash)
  rest ← results_of extract policy_hash ids
  pure (with_found found rest)

abbrev pub agreed : List Figure → Result Raised Figure
agreed [] = err (evidence metric_missing)
agreed (f ∷ fs) =
    if all (λ g. same_value (value_of f) (value_of g)) fs
    then ok f
    else err (evidence context_conflict)

module _ (direct : String → Result Code Figure) (policy_hash : String) where
  -- After the choice of the formulas, on a cache.
  unfoldable pub assess : List String → Exec Cache Figure
  unfolding probe_side reconcile_annual_service check_denominators results_of extract
  assess choices = do
    probe_side (extract direct) numerator_of choices
    probe_side (extract direct) denominator_of choices
    (λ cache. (blocking cache, cache))
    reconcile_annual_service (extract direct)
    check_denominators choices
    _ ← optional (extract direct "dscr")
    results ← results_of (extract direct) policy_hash choices
    lift (agreed results)

abbrev pub alternatives : Option (List String) → List String
alternatives none = []
alternatives (some ids) = ids

-- `calculations.get("dscr")` and `calculation_alternatives.get("dscr", ())` of the policy.
unfoldable pub calculate_dscr :
    (String → Result Code Figure)
    → String
    → Option String
    → Option (List String)
    → Result Raised Figure
unfolding assess
calculate_dscr direct policy_hash none others = err (evidence metric_not_allowed)
calculate_dscr direct policy_hash (some primary) others =
    (assess direct policy_hash (primary ∷ alternatives others) []).0
