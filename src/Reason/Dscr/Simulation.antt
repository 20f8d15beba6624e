-- ===== src/Reason/Dscr/Simulation.antt =====
-- The cache is transparent: an action on a cache of `direct` returns what the same action returns
-- with no cache, and only adds entries.
use fin_docs_analysis_evals.Common.{
  string_eq, String, ◌≡◌, refl, ◌∙◌, none, some, ◌==◌, Result, ok, err, arith, Option-cases, inl,
  inr, sym, ap, Bool-cases, subst,
}
use text.Mathlib.TextEquality.{eq_iff}
use fin_docs_analysis_evals.Common.Dict.{lookup, insert, lookup-insert}
use fin_docs_analysis_evals.Reason.Exec.{
  Code, Raised, Exec, pure, lift, continue, unless_missing, optional, ◌>>=◌,
}
use fin_docs_analysis_evals.Reason.Figure.{Figure}
use fin_docs_analysis_evals.Reason.DebtService.{}
use fin_docs_analysis_evals.Reason.Dscr.{Cache, from_cache, extract}

ok-injective : {A : Type 0} {a b : A} → ◌≡◌ {A = Result Raised A} (ok a) (ok b) → a ≡ b
ok-injective {a} e = ap (λ r. elim r [ ok x ↦ x | err _ ↦ a ]) e

err-injective : {A : Type 0} {d e : Raised} → ◌≡◌ {A = Result Raised A} (err d) (err e) → d ≡ e
err-injective {d} e = ap (λ r. elim r [ ok _ ↦ d | err x ↦ x ]) e

ok-ne-err : {A : Type 0} {a : A} {e : Raised} → ◌≡◌ {A = Result Raised A} (ok a) (err e) → ⊥
ok-ne-err p = cc

module _ (direct : String → Result Code Figure) where
  -- Extraction with no cache.
  abbrev pub plain : String → Exec (Unit {0}) Figure
  plain name s = (from_cache (direct name), s)

  -- Every entry is what `direct` says.
  abbrev pub IsConsistent : Cache → Type 0
  IsConsistent c = (n : String) (r : Result Code Figure) → lookup n c ≡ some r → r ≡ direct n

  abbrev pub Extends : Cache → Cache → Type 0
  Extends c c' = (n : String) (r : Result Code Figure) → lookup n c ≡ some r → lookup n c' ≡ some r

  -- An outcome on the cache, and the outcome with no cache.
  pub record Run {A : Type 0} (out : Result Raised A × Cache) (plain_out : Result Raised A)
      (c : Cache) : Type 0 where
    pub result : out.0 ≡ plain_out
    pub consistent : IsConsistent out.1
    pub extends : Extends c out.1

  abbrev pub Sim : {A : Type 0} → Exec Cache A → Exec (Unit {0}) A → Type 0
  Sim m p = (c : Cache) → IsConsistent c → Run (m c) (p tt).0 c

  insert-IsConsistent :
      (n : String) (c : Cache) → IsConsistent c → IsConsistent (insert n (direct n) c)
  insert-IsConsistent n c h k r e = elim (Bool-cases (n == k)) [
    | inl same ↦ ground (arith, same, eq_iff n k, lookup-insert n k (direct n) c)
    | inr other ↦ h k r (sym (rw other at (lookup-insert n k (direct n) c)) ∙ e)
  ]

  insert-Extends : (n : String) (c : Cache) → lookup n c ≡ none → Extends c (insert n (direct n) c)
  insert-Extends n c new k r e = elim (Bool-cases (n == k)) [
    | inl same ↦ ground (arith, same, eq_iff n k, ap (λ j. lookup j c) ((eq_iff n k).0 same))
    | inr other ↦ rw other at (lookup-insert n k (direct n) c) ∙ e
  ]

  pub extract-Sim : (n : String) → Sim (extract direct n) (plain n)
  unfolding extract
  extract-Sim n c h = elim (Option-cases (lookup n c)) [
    | inl new ↦ rw new (record {
      result = refl;
      consistent = insert-IsConsistent n c h;
      extends = insert-Extends n c new;
    })
    | inr (r, old) ↦
        rw old (record { result = ap from_cache (h n r old); consistent = h; extends = λ k q e. e })
  ]

  pub Sim-pure : {A : Type 0} (a : A) → Sim (pure a) (pure a)
  Sim-pure a c h = record { result = refl; consistent = h; extends = λ k q e. e }

  pub Sim-lift : {A : Type 0} (r : Result Raised A) → Sim (lift r) (lift r)
  Sim-lift r c h = record { result = refl; consistent = h; extends = λ k q e. e }

  pub Sim-optional :
      {A : Type 0} (m : Exec Cache A) (p : Exec (Unit {0}) A)
      → Sim m p
      → Sim (optional m) (optional p)
  Sim-optional m p sim c h = record {
    result = ap unless_missing (sim c h).result;
    consistent = (sim c h).consistent;
    extends = (sim c h).extends;
  }

  module _ {A B : Type 0} (f : A → Exec Cache B) (g : A → Exec (Unit {0}) B) where
    bind-Run :
        (out : Result Raised A × Cache) (q : Result Raised A × Unit {0}) (c : Cache)
        → Run out q.0 c
        → ((a : A) → Sim (f a) (g a))
        → Run (continue out.0 f out.1) (continue q.0 g q.1).0 c
    bind-Run (ok a, c') (ok b, tt) c run next =
        let same : a ≡ b = ok-injective run.result in
        let after : Run (f a c') (g b tt).0 c' =
          subst (λ x. Run (f a c') (g x tt).0 c') same (next a c' run.consistent) in
        record {
          result = after.result;
          consistent = after.consistent;
          extends = λ k r e. after.extends k r (run.extends k r e);
        }
    bind-Run (ok a, c') (err e, tt) c run next = absurd (ok-ne-err run.result)
    bind-Run (err e, c') (ok b, tt) c run next = absurd (ok-ne-err (sym run.result))
    bind-Run (err e, c') (err e', tt) c run next = record {
      result = ap err (err-injective run.result);
      consistent = run.consistent;
      extends = run.extends;
    }

    pub Sim-bind :
        (m : Exec Cache A) (p : Exec (Unit {0}) A)
        → Sim m p
        → ((a : A) → Sim (f a) (g a))
        → Sim (m >>= f) (p >>= g)
    Sim-bind m p sim next c h = bind-Run (m c) (p tt) c (sim c h) next
