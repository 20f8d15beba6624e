-- ===== src/Reason/Dscr/Probing.antt =====
-- The first two loops of `calculate_dscr`: they fill the cache, and what they leave in it decides
-- whether the assessment goes on.
use fin_docs_analysis_evals.Common.{
  string_eq, String, ◌≡◌, refl, ◌∙◌, ap, subst, ◌⊎◌, inl, inr, Option, none, some, List, [], ◌∷◌,
  ◌++◌, ◌==◌, Result, ok, err, All, arith, Bool-cases, Option-cases, length, if◌then◌else◌,
  str_eq_refl,
}
use mathlib.Core.Option.{some-injective}
use fin_docs_analysis_evals.Common.Int.{ℤ}
use fin_docs_analysis_evals.Common.Dict.{lookup, lookup-insert}
use fin_docs_analysis_evals.Reason.Formulas.{formulas, Formula}
use fin_docs_analysis_evals.Reason.Exec.{
  Code, Raised, evidence, scope_violation, Exec, lift, continue, ◌>>=◌,
}
use fin_docs_analysis_evals.Reason.Figure.{Figure}
use fin_docs_analysis_evals.Reason.Dscr.{
  Cache, from_cache, extract, is_zero, weighted_names, formula_at, unless_scope, tolerant,
  probe_names, probe_side, blocks, first_error, blocking,
}
use fin_docs_analysis_evals.Reason.Dscr.Simulation.{IsConsistent, Extends, extract-Sim}

-- The names that the side weighs.
abbrev pub picked : List String → List ℤ → List String
picked (n ∷ ns) (c ∷ cs) = if is_zero c then picked ns cs else n ∷ picked ns cs
picked _ _ = []

pub weighted_names_lem :
    (ns : List String) (cs : List ℤ)
    → length cs ≡ length ns
    → weighted_names ns cs ≡ ok (picked ns cs)
unfolding weighted_names
weighted_names_lem [] [] h = refl
weighted_names_lem [] (c ∷ cs) h = absurd (omega arith)
weighted_names_lem (n ∷ ns) [] h = absurd (omega arith)
weighted_names_lem (n ∷ ns) (c ∷ cs) h = rw (weighted_names_lem ns cs (omega arith))

-- A figure, or a missing metric: no exception that stops the assessment.
abbrev pub NotBlocking : Result Code Figure → Type 0
NotBlocking r = blocks r ≡ ok tt

module _ (direct : String → Result Code Figure) where
  abbrev pub IsCached : List String → Cache → Type 0
  IsCached ns c = All (λ n. lookup n c ≡ some (direct n)) ns

  pub IsCached-Extends :
      (ns : List String) (c c' : Cache) → Extends direct c c' → IsCached ns c → IsCached ns c'
  IsCached-Extends [] c c' grow h = tt
  IsCached-Extends (n ∷ ns) c c' grow h = (grow n (direct n) h.0, IsCached-Extends ns c c' grow h.1)

  pub IsCached-append :
      (ms ns : List String) (c : Cache) → IsCached ms c → IsCached ns c → IsCached (ms ++ ns) c
  IsCached-append [] ns c hm hn = hn
  IsCached-append (m ∷ ms) ns c hm hn = (hm.0, IsCached-append ms ns c hm.1 hn)

  extract-cached :
      (n : String) (c : Cache)
      → IsConsistent direct c
      → lookup n (extract direct n c).1 ≡ some (direct n)
  unfolding extract
  extract-cached n c h = elim (Option-cases (lookup n c)) [
    | inl new ↦ rw new (rw (lookup-insert n n (direct n) c, str_eq_refl n))
    | inr (r, old) ↦ rw old (old ∙ ap some (h n r old))
  ]

  -- A loop of extractions: it caches every name, or a scope violation ends it.
  pub record Probed (ns : List String) (out : Result Raised (Unit {0}) × Cache) (c : Cache)
      : Type 0 where
    pub consistent : IsConsistent direct out.1
    pub extends : Extends direct c out.1
    pub outcome : ((out.0 ≡ ok tt) × IsCached ns out.1) ⊎ (out.0 ≡ err (evidence scope_violation))

  unless_scope_cases :
      (r : Result Code Figure)
      → (unless_scope (from_cache r) ≡ ok tt)
        ⊎ (unless_scope (from_cache r) ≡ err (evidence scope_violation))
  unless_scope_cases (ok f) = inl refl
  unless_scope_cases (err scope_violation) = inr refl
  unless_scope_cases (err c) = inl refl

  tolerant-Probed :
      (n : String) (c : Cache)
      → IsConsistent direct c
      → Probed (n ∷ []) (tolerant (extract direct n) c) c
  tolerant-Probed n c h =
      let run = extract-Sim direct n c h in
      record {
        consistent = run.consistent;
        extends = run.extends;
        outcome = of_cases (unless_scope_cases (direct n)) run.result (extract-cached n c h);
      }
    where
      of_cases :
          (unless_scope (from_cache (direct n)) ≡ ok tt)
            ⊎ (unless_scope (from_cache (direct n)) ≡ err (evidence scope_violation))
          → (extract direct n c).0 ≡ from_cache (direct n)
          → lookup n (extract direct n c).1 ≡ some (direct n)
          → ((unless_scope (extract direct n c).0 ≡ ok tt)
              × IsCached (n ∷ []) (extract direct n c).1)
            ⊎ (unless_scope (extract direct n c).0 ≡ err (evidence scope_violation))
      of_cases (inl go) e here = inl (rw e go, (here, tt))
      of_cases (inr stop) e here = inr (rw e stop)

  Probed-then :
      (ms ns : List String) (first : Result Raised (Unit {0}) × Cache) (k : Exec Cache (Unit {0}))
      (c : Cache)
      → Probed ms first c
      → ((c' : Cache) → IsConsistent direct c' → Probed ns (k c') c')
      → Probed (ms ++ ns) (continue first.0 (λ _. k) first.1) c
  Probed-then ms ns (err e, c') k c p rest = record {
    consistent = p.consistent;
    extends = p.extends;
    outcome = stopped p.outcome;
  }
    where
      stopped :
          ((◌≡◌ {A = Result Raised (Unit {0})} (err e) (ok tt)) × IsCached ms c')
            ⊎ (◌≡◌ {A = Result Raised (Unit {0})} (err e) (err (evidence scope_violation)))
          → ((◌≡◌ {A = Result Raised (Unit {0})} (err e) (ok tt)) × IsCached (ms ++ ns) c')
            ⊎ (◌≡◌ {A = Result Raised (Unit {0})} (err e) (err (evidence scope_violation)))
      stopped (inl (q, _)) = cc
      stopped (inr q) = inr q
  Probed-then ms ns (ok u, c') k c p rest =
      let q = rest c' p.consistent in
      record {
        consistent = q.consistent;
        extends = λ n r e. q.extends n r (p.extends n r e);
        outcome = joined (k c') p.outcome q.outcome q.extends;
      }
    where
      joined :
          (out : Result Raised (Unit {0}) × Cache)
          → ((◌≡◌ {A = Result Raised (Unit {0})} (ok u) (ok tt)) × IsCached ms c')
            ⊎ (◌≡◌ {A = Result Raised (Unit {0})} (ok u) (err (evidence scope_violation)))
          → ((out.0 ≡ ok tt) × IsCached ns out.1) ⊎ (out.0 ≡ err (evidence scope_violation))
          → Extends direct c' out.1
          → ((out.0 ≡ ok tt) × IsCached (ms ++ ns) out.1) ⊎ (out.0 ≡ err (evidence scope_violation))
      joined out (inr bad) q grow = cc
      joined out (inl (_, ms_in)) (inr e) grow = inr e
      joined out (inl (_, ms_in)) (inl (e, ns_in)) grow =
          inl (e, IsCached-append ms ns out.1 (IsCached-Extends ms c' out.1 grow ms_in) ns_in)

  pub probe_names-Probed :
      (ns : List String) (c : Cache)
      → IsConsistent direct c
      → Probed ns (probe_names (extract direct) ns c) c
  unfolding probe_names
  probe_names-Probed [] c h = record {
    consistent = h;
    extends = λ k r e. e;
    outcome = inl (refl, tt);
  }
  probe_names-Probed (n ∷ ns) c h =
      Probed-then (n ∷ []) ns (tolerant (extract direct n) c) (probe_names (extract direct) ns) c
        (tolerant-Probed n c h) (λ c' h'. probe_names-Probed ns c' h')

-- The formulas that a policy may choose for the ratio: of the table, with both sides fitting.
abbrev pub IsFitting : (Formula → List ℤ) → String → Type 0
IsFitting side id =
    (f : Formula) × (lookup id formulas ≡ some f) × (length (side f) ≡ length f.operands)

abbrev pub names_in : (Formula → List ℤ) → Option Formula → List String
names_in side none = []
names_in side (some f) = picked f.operands (side f)

-- The names that the side of the formula weighs.
abbrev pub side_names : (Formula → List ℤ) → String → List String
side_names side id = names_in side (lookup id formulas)

abbrev pub all_names : (Formula → List ℤ) → List String → List String
all_names side [] = []
all_names side (id ∷ ids) = side_names side id ++ all_names side ids

module _ (direct : String → Result Code Figure) (side : Formula → List ℤ) where
  probe_one :
      (id : String) (c : Cache)
      → IsFitting side id
      → IsConsistent direct c
      → Probed direct
          (side_names side id)
          ((lift (formula_at id) >>= λ f.
              lift (weighted_names f.operands (side f)) >>= probe_names (extract direct))
            c)
          c
  probe_one id c (f, known, fits) h =
      rw (known, weighted_names_lem f.operands (side f) fits)
        (probe_names-Probed direct (picked f.operands (side f)) c h)

  pub probe_side-Probed :
      (ids : List String) (c : Cache)
      → All (IsFitting side) ids
      → IsConsistent direct c
      → Probed direct (all_names side ids) (probe_side (extract direct) side ids c) c
  unfolding probe_side
  probe_side-Probed [] c fits h = record {
    consistent = h;
    extends = λ k r e. e;
    outcome = inl (refl, tt);
  }
  probe_side-Probed (id ∷ ids) c fits h =
      Probed-then direct (side_names side id) (all_names side ids)
        ((lift (formula_at id) >>= λ f.
            lift (weighted_names f.operands (side f)) >>= probe_names (extract direct))
          c)
        (probe_side (extract direct) side ids) c (probe_one id c fits.0 h)
        (λ c' h'. probe_side-Probed ids c' fits.1 h')

both_fine : (a b : Result Raised (Unit {0})) → first_error a b ≡ ok tt → (a ≡ ok tt) × (b ≡ ok tt)
both_fine (ok _) b h = (refl, h)
both_fine (err e) b h = cc

-- A cache that does not block has no blocking entry.
pub blocking-NotBlocking :
    (c : Cache) (n : String) (r : Result Code Figure)
    → blocking c ≡ ok tt
    → lookup n c ≡ some r
    → NotBlocking r
blocking-NotBlocking [] n r h e = cc
blocking-NotBlocking ((k, q) ∷ c) n r h e =
    let (here, rest) = both_fine (blocks q) (blocking c) h in
    elim (Bool-cases (k == n)) [
      | inl same ↦ subst NotBlocking (some-injective q r (rw same at e)) here
      | inr other ↦ blocking-NotBlocking c n r rest (rw other at e)
    ]

pub cached-NotBlocking :
    (direct : String → Result Code Figure) (ns : List String) (c : Cache)
    → blocking c ≡ ok tt
    → IsCached direct ns c
    → All (λ n. NotBlocking (direct n)) ns
cached-NotBlocking direct [] c h all = tt
cached-NotBlocking direct (n ∷ ns) c h all =
    (blocking-NotBlocking c n (direct n) h all.0, cached-NotBlocking direct ns c h all.1)
