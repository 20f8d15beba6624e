-- ===== src/Reason/Dscr/Laws.antt =====
-- What a ratio rests on when `calculate_dscr` returns one.
use fin_docs_analysis_evals.Common.{
  string_eq, String, ◌≡◌, refl, ◌∙◌, subst, ◌⊎◌, inl, inr, Option, some, List, [], ◌∷◌, Result, ok,
  err, All, all, sym, Bool, true, false, if◌then◌else◌, arith,
}
use fin_docs_analysis_evals.Reason.Exec.{
  Code, Raised, evidence, context_conflict, metric_missing, scope_violation, Exec, lift, continue,
  unless_missing, optional, ◌>>=◌,
}
use fin_docs_analysis_evals.Reason.Figure.{Figure, value_of}
use fin_docs_analysis_evals.Reason.Decimal.{same_value}
use fin_docs_analysis_evals.Reason.DebtService.{reconcile_annual_service}
use fin_docs_analysis_evals.Reason.Dscr.{
  Cache, extract, numerator_of, denominator_of, probe_side, blocking, check_denominators,
  denominator_check, from_cache, results_of, agreed, alternatives, assess, calculate_dscr,
}
use fin_docs_analysis_evals.Reason.Dscr.Simulation.{plain, IsConsistent, extract-Sim, Sim-optional}
use fin_docs_analysis_evals.Reason.Dscr.Transparent.{reconcile_annual_service-Sim, results_of-Sim}
use fin_docs_analysis_evals.Reason.Dscr.Probing.{
  NotBlocking, IsCached, IsCached-Extends, Probed, IsFitting, all_names, probe_side-Probed,
  cached-NotBlocking,
}

-- A bind that returned: its first part returned, and then the rest did.
bind-ok :
    {S A B : Type 0} (out : Result Raised A × S) (f : A → Exec S B) (b : B)
    → (continue out.0 f out.1).0 ≡ ok b
    → (a : A) × (out.0 ≡ ok a) × ((f a out.1).0 ≡ ok b)
bind-ok (ok a, s) f b h = (a, refl, h)
bind-ok (err e, s) f b h = cc

-- The formula can be evaluated for the ratio on both sides.
abbrev pub IsChoice : String → Type 0
IsChoice id = IsFitting numerator_of id × IsFitting denominator_of id

abbrev numerators : (ids : List String) → All IsChoice ids → All (IsFitting numerator_of) ids
numerators [] h = tt
numerators (id ∷ ids) h = (h.0.0, numerators ids h.1)

abbrev denominators : (ids : List String) → All IsChoice ids → All (IsFitting denominator_of) ids
denominators [] h = tt
denominators (id ∷ ids) h = (h.0.1, denominators ids h.1)

-- What holds of the evidence when a ratio `f` is returned.
pub record IsSupported (direct : String → Result Code Figure) (policy_hash : String)
    (choices : List String) (f : Figure) : Type 0 where
  -- no operand of any formula is ambiguous, conflicting or stale
  pub numerators_clear : All (λ n. NotBlocking (direct n)) (all_names numerator_of choices)
  pub denominators_clear : All (λ n. NotBlocking (direct n)) (all_names denominator_of choices)
  -- nor is a disclosed ratio
  pub ratio_clear : NotBlocking (direct "dscr")
  -- the annual debt service is consistent
  pub reconciled : (reconcile_annual_service (plain direct) tt).0 ≡ ok tt
  -- the formulas that have all their operands agree, and `f` is the first of them
  pub others : List Figure
  pub evaluated : (results_of (plain direct) policy_hash choices tt).0 ≡ ok (f ∷ others)
  pub agree : All (λ g. same_value (value_of f) (value_of g) ≡ true) others

all-All : (p : Figure → Bool) (fs : List Figure) → all p fs ≡ true → All (λ g. p g ≡ true) fs
all-All p [] h = tt
all-All p (f ∷ fs) h = (ground arith, all-All p fs (ground arith))

agreed-ok :
    (rs : List Figure) (f : Figure)
    → agreed rs ≡ ok f
    → (others : List Figure) × (rs ≡ f ∷ others)
      × All (λ g. same_value (value_of f) (value_of g) ≡ true) others
agreed-ok [] f h = cc
agreed-ok (r ∷ rs) f h = by_test (all (λ g. same_value (value_of r) (value_of g)) rs) refl h
  where
    ok_first : ◌≡◌ {A = Result Raised Figure} (ok r) (ok f) → r ≡ f
    ok_first q = cc

    no_error : ◌≡◌ {A = Result Raised Figure} (err (evidence context_conflict)) (ok f) → ⊥
    no_error q = cc

    by_test :
        (b : Bool)
        → all (λ g. same_value (value_of r) (value_of g)) rs ≡ b
        → (if b then ok r else err (evidence context_conflict)) ≡ ok f
        → (others : List Figure) × (◌≡◌ {A = List Figure} (r ∷ rs) (f ∷ others))
          × All (λ g. same_value (value_of f) (value_of g) ≡ true) others
    by_test true same e = (
      rs,
      rw (ok_first e) refl,
      subst (λ x. All (λ g. same_value (value_of x) (value_of g) ≡ true) rs) (ok_first e)
          (all-All (λ g. same_value (value_of r) (value_of g)) rs same),
    )
    by_test false same e = absurd (no_error e)

module _ (direct : String → Result Code Figure) (policy_hash : String) (choices : List String) where
  from_results :
      (c : Cache) (f : Figure)
      → IsConsistent direct c
      → ((results_of (extract direct) policy_hash choices >>= λ rs. lift (agreed rs)) c).0 ≡ ok f
      → (rs : List Figure) × ((results_of (plain direct) policy_hash choices tt).0 ≡ ok rs)
        × (agreed rs ≡ ok f)
  from_results c f h e =
      let (rs, got, same) =
        bind-ok (results_of (extract direct) policy_hash choices c) (λ rs. lift (agreed rs)) f e in
      (rs, sym (results_of-Sim direct policy_hash choices c h).result ∙ got, same)

  from_ratio :
      (c : Cache) (f : Figure)
      → IsConsistent direct c
      → ((optional (extract direct "dscr") >>= λ _.
            results_of (extract direct) policy_hash choices >>= λ rs. lift (agreed rs))
          c).0
        ≡ ok f
      → NotBlocking (direct "dscr")
        × ((rs : List Figure) × ((results_of (plain direct) policy_hash choices tt).0 ≡ ok rs)
            × (agreed rs ≡ ok f))
  from_ratio c f h e =
      let run =
        Sim-optional direct (extract direct "dscr") (plain direct "dscr")
          (extract-Sim direct "dscr") c h in
      let (o, got, rest) =
        bind-ok (optional (extract direct "dscr") c)
          (λ _. results_of (extract direct) policy_hash choices >>= λ rs. lift (agreed rs)) f e in
      (
        ratio_clear (direct "dscr") o (sym run.result ∙ got),
        from_results (optional (extract direct "dscr") c).1 f run.consistent rest,
      )
    where
      ratio_clear :
          (r : Result Code Figure) (o : Option Figure)
          → unless_missing (from_cache r) ≡ ok o
          → NotBlocking r
      ratio_clear (ok f) o e = refl
      ratio_clear (err metric_missing) o e = refl
      ratio_clear (err c) o e = cc

keeps_after :
    (r : Result Raised (Unit {0})) (k : Exec Cache (Unit {0})) (c : Cache)
    → (k c).1 ≡ c
    → (continue r (λ _. k) c).1 ≡ c
keeps_after (ok u) k c h = h
keeps_after (err e) k c h = refl

check_denominators-keeps : (ids : List String) (c : Cache) → (check_denominators ids c).1 ≡ c
unfolding check_denominators
check_denominators-keeps [] c = refl
check_denominators-keeps (id ∷ ids) c =
    keeps_after (denominator_check id c) (check_denominators ids) c (check_denominators-keeps ids c)

module _ (direct : String → Result Code Figure) (policy_hash : String) (choices : List String)
    (f : Figure) where
  abbrev rest_of : Exec Cache Figure
  rest_of = reconcile_annual_service (extract direct) >>= λ _. check_denominators choices >>= λ _.
      optional (extract direct "dscr") >>= λ _.
      results_of (extract direct) policy_hash choices >>= λ rs. lift (agreed rs)

  from_cache_filled :
      (c : Cache)
      → IsConsistent direct c
      → blocking c ≡ ok tt
      → IsCached direct (all_names numerator_of choices) c
      → IsCached direct (all_names denominator_of choices) c
      → (rest_of c).0 ≡ ok f
      → IsSupported direct policy_hash choices f
  from_cache_filled c h clear nums dens e =
      let (_, done, e2) = bind-ok (reconcile_annual_service (extract direct) c) _ f e in
      let run = reconcile_annual_service-Sim direct c h in
      let (_, _, e3) =
        bind-ok (check_denominators choices (reconcile_annual_service (extract direct) c).1) _ f
          e2 in
      let same = check_denominators-keeps choices (reconcile_annual_service (extract direct) c).1 in
      let (ratio, found) =
        from_ratio direct policy_hash choices
          (check_denominators choices (reconcile_annual_service (extract direct) c).1).1 f
          (subst (IsConsistent direct) (sym same) run.consistent) e3 in
      let (rs, evaluated, first) = found in
      let (others, shape, agree) = agreed-ok rs f first in
      record {
        numerators_clear = cached-NotBlocking direct (all_names numerator_of choices) c clear nums;
        denominators_clear =
            cached-NotBlocking direct (all_names denominator_of choices) c clear dens;
        ratio_clear = ratio;
        reconciled = sym run.result ∙ done;
        others = others;
        evaluated =
            subst (λ fs. (results_of (plain direct) policy_hash choices tt).0 ≡ ok fs) shape
              evaluated;
        agree = agree;
      }

  Probed-ok :
      (ns : List String) (out : Result Raised (Unit {0}) × Cache) (c : Cache) (u : Unit {0})
      → Probed direct ns out c
      → out.0 ≡ ok u
      → IsCached direct ns out.1
  Probed-ok ns out c u p e = of_outcome p.outcome
    where
      of_outcome :
          ((out.0 ≡ ok tt) × IsCached direct ns out.1) ⊎ (out.0 ≡ err (evidence scope_violation))
          → IsCached direct ns out.1
      of_outcome (inl (_, all)) = all
      of_outcome (inr bad) = absurd (ok_ne_err (sym e ∙ bad))
        where
          ok_ne_err : ◌≡◌ {A = Result Raised (Unit {0})} (ok u) (err (evidence scope_violation)) → ⊥
          ok_ne_err q = cc

  assess-IsSupported :
      All IsChoice choices
      → (assess direct policy_hash choices []).0 ≡ ok f
      → IsSupported direct policy_hash choices f
  unfolding assess
  assess-IsSupported fits e =
      let nums =
        probe_side-Probed direct numerator_of choices [] (numerators choices fits) (λ n r p. cc) in
      let c1 = (probe_side (extract direct) numerator_of choices []).1 in
      let (u1, done1, e1) = bind-ok (probe_side (extract direct) numerator_of choices []) _ f e in
      let dens =
        probe_side-Probed direct denominator_of choices c1 (denominators choices fits)
          nums.consistent in
      let (u2, done2, e2) =
        bind-ok (probe_side (extract direct) denominator_of choices c1) _ f e1 in
      let c2 = (probe_side (extract direct) denominator_of choices c1).1 in
      let (u3, clear, e3) = bind-ok (blocking c2, c2) (λ _. rest_of) f e2 in
      let nums_in =
        Probed-ok (all_names numerator_of choices)
          (probe_side (extract direct) numerator_of choices []) [] u1 nums done1 in
      from_cache_filled c2 dens.consistent clear
        (IsCached-Extends direct (all_names numerator_of choices) c1 c2 dens.extends nums_in)
        (Probed-ok (all_names denominator_of choices)
          (probe_side (extract direct) denominator_of choices c1) c1 u2 dens done2)
        e3

-- When the formulas of the policy fit their operands, a ratio is returned only if no operand of any
-- of them, and no disclosed ratio, is
-- conflicting or ambiguous; the annual debt service reconciles; and every formula whose operands are
-- all there gives the same value, of which the result is the first. The cache changes nothing.
pub calculate_dscr-IsSupported :
    (direct : String → Result Code Figure) (policy_hash primary : String)
    (others : Option (List String)) (f : Figure)
    → All IsChoice (primary ∷ alternatives others)
    → calculate_dscr direct policy_hash (some primary) others ≡ ok f
    → IsSupported direct policy_hash (primary ∷ alternatives others) f
unfolding calculate_dscr
calculate_dscr-IsSupported direct policy_hash primary others f fits e =
    assess-IsSupported direct policy_hash (primary ∷ alternatives others) f fits e
