-- ===== src/Reason/Gate/Selection/Choice.antt =====
-- The choice among the evidence keeps what all of it has.
use fin_docs_analysis_evals.Common.{
  string_eq, nat_eq, All-sorted, ℕ, String, ◌≡◌, refl, sym, subst, ◌∙◌, Bool, true, false, not,
  ◌&&◌, Option, none, some, List, [], ◌∷◌, all, keep, is_some, All, Result, ok, raise_if,
  if◌then◌else◌, bind-ok, ok_injective, arith,
}
use fin_docs_analysis_evals.Ingest.Schema.{Chunk}
use fin_docs_analysis_evals.Reason.Decimal.{Decimal}
use fin_docs_analysis_evals.Reason.Exec.{
  Raised, evidence, latest_period_missing, conflicting_values,
}
use fin_docs_analysis_evals.Reason.Gate.Policy.{MetricRule}
use fin_docs_analysis_evals.Reason.Gate.Basis.{BasisResolution}
use fin_docs_analysis_evals.Reason.Gate.Sources.{BasisInterpretation, Gate}
use fin_docs_analysis_evals.Reason.Gate.Direct.{Value, Evidence, same_period}
use fin_docs_analysis_evals.Reason.Gate.Selection.Rows.{Found}
use fin_docs_analysis_evals.Reason.Gate.Selection.{
  preferred, of_year, of_newest, newest, agrees, cited_before, head_of, unanimous, select,
}

module _ {ℓ} {A : Type 0} (P : A → Type ℓ) where
  All-keep : (p : A → Bool) (xs : List A) → All P xs → All P (keep p xs)
  All-keep p [] h = tt
  All-keep p (x ∷ xs) h = by_test (p x) (All-keep p xs h.1)
    where
      by_test : (b : Bool) → All P (keep p xs) → All P (if b then x ∷ keep p xs else keep p xs)
      by_test true k = (h.0, k)
      by_test false k = k

All-kept : {A : Type 0} (p : A → Bool) (xs : List A) → All (λ x. p x ≡ true) (keep p xs)
All-kept p [] = tt
All-kept p (x ∷ xs) = by_test (p x) refl (All-kept p xs)
  where
    by_test :
        (b : Bool)
        → p x ≡ b
        → All (λ y. p y ≡ true) (keep p xs)
        → All (λ y. p y ≡ true) (if b then x ∷ keep p xs else keep p xs)
    by_test true e k = (e, k)
    by_test false e k = k

pub same_period-eq : (a b : Option ℕ) → same_period a b ≡ true → a ≡ b
same_period-eq none none h = refl
same_period-eq none (some b) h = cc
same_period-eq (some a) none h = cc
same_period-eq (some a) (some b) h = ground (arith, nat_eq.same_iff a b)

module _ (g : Gate) (is_whole : Decimal → Bool) (region_of : Value → Result Raised Value)
    (resolve_link : BasisInterpretation
      → Chunk
      → List Chunk
      → Option ℕ
      → Result Raised BasisResolution) where
  All-preferred :
      (P : Evidence → Type 0) (ns es : List Evidence)
      → All P ns
      → All P es
      → All P (preferred g is_whole region_of resolve_link ns es)
  All-preferred P [] es h k = k
  All-preferred P (n ∷ ns) es h k = h

  module _ (P : Evidence → Type 0) (metric : String) where
    head_of-All :
        (es : List Evidence) (e : Evidence)
        → All P es
        → head_of g is_whole region_of resolve_link es ≡ ok e
        → P e
    head_of-All [] e h k = cc
    head_of-All (x ∷ es) e h k = subst P (ok_injective x e k) h.0

    unanimous-All :
        (es : List Evidence) (e : Evidence)
        → All P es
        → unanimous g is_whole region_of resolve_link metric es ≡ ok e
        → P e
    unanimous-All [] e h k = cc
    unanimous-All (x ∷ es) e h k =
        let (u, h1, k1) =
          bind-ok
            (raise_if (not (all (agrees g is_whole region_of resolve_link metric x) es))
              (evidence conflicting_values))
            _ e k in
        head_of-All _ e (All-sorted (cited_before g is_whole region_of resolve_link) P (x ∷ es) h)
          k1

    module _ (rule : MetricRule) (latest : Option ℕ) where
      -- It has the property, and it is of the latest year where the rule asks for a period.
      abbrev pub IsKept : Evidence → Type 0
      IsKept e = P e × (rule.require_period ≡ true → is_some latest ≡ true → e.period ≡ latest)

      All-pair :
          (year : ℕ) (es : List Evidence)
          → latest ≡ some year
          → All P es
          → All (λ e. same_period e.period (some year) ≡ true) es
          → All IsKept es
      All-pair year [] q h k = tt
      All-pair year (e ∷ es) q h k = (
        (h.0, λ _ _. same_period-eq e.period (some year) k.0 ∙ sym q),
        All-pair year es q h.1 k.1,
      )

      All-any_year :
          (es : List Evidence)
          → (rule.require_period ≡ true → is_some latest ≡ true → ⊥)
          → All P es
          → All IsKept es
      All-any_year [] no_year h = tt
      All-any_year (e ∷ es) no_year h =
          ((h.0, λ a b. absurd (no_year a b)), All-any_year es no_year h.1)

      of_year-All :
          (newest_year : Option ℕ) (es kept : List Evidence)
          → All P es
          → of_year g is_whole region_of resolve_link latest newest_year es ≡ ok kept
          → All IsKept kept
      of_year-All none es kept h k = cc
      of_year-All (some year) es kept h k =
          let (u, h1, k1) =
            bind-ok
              (raise_if (is_some latest && not (same_period latest (some year)))
                (evidence latest_period_missing))
              _ kept k in
          subst (All IsKept) (ok_injective _ kept k1)
            (by_latest (is_some latest) refl (same_period latest (some year)) refl h1)
        where
          kept-All : All P (keep (λ e. same_period e.period (some year)) es)
          kept-All = All-keep P (λ e. same_period e.period (some year)) es h

          by_latest :
              (b : Bool)
              → is_some latest ≡ b
              → (s : Bool) → same_period latest (some year) ≡ s
              → raise_if (b && not s) (evidence latest_period_missing) ≡ ok tt
              → All IsKept (keep (λ e. same_period e.period (some year)) es)
          by_latest false q s t r =
              All-any_year (keep (λ e. same_period e.period (some year)) es) (λ _ p. cc) kept-All
          by_latest true q false t r = cc
          by_latest true q true t r =
              All-pair year (keep (λ e. same_period e.period (some year)) es)
                (same_period-eq latest (some year) t) kept-All
                (All-kept (λ e. same_period e.period (some year)) es)

      of_newest-All :
          (es kept : List Evidence)
          → All P es
          → of_newest g is_whole region_of resolve_link rule latest es ≡ ok kept
          → All IsKept kept
      unfolding of_newest
      of_newest-All es kept h k = by_rule rule.require_period refl k
        where
          by_rule :
              (b : Bool)
              → rule.require_period ≡ b
              → ◌≡◌ {A = Result Raised (List Evidence)}
                  (if b
                    then of_year g is_whole region_of resolve_link latest (newest none es) es
                    else ok es)
                  (ok kept)
              → All IsKept kept
          by_rule true q m = of_year-All _ es kept h m
          by_rule false q m =
              subst (All IsKept) (ok_injective es kept m) (All-any_year es (λ p _. cc) h)

  -- What is chosen has what all the evidence has.
  pub select-All :
      (P : Evidence → Type 0) (metric : String) (rule : MetricRule) (latest : Option ℕ)
      (found : Found) (e : Evidence)
      → All P found.1
      → select g is_whole region_of resolve_link metric rule latest found ≡ ok e
      → IsKept P metric rule latest e
  unfolding select
  select-All P metric rule latest (older, []) e h k = cc
  select-All P metric rule latest (older, x ∷ es) e h k =
      let chosen =
        preferred g is_whole region_of resolve_link (keep (λ y. y.from_activities) (x ∷ es))
          (x ∷ es) in
      let (kept, h1, k1) =
        bind-ok (of_newest g is_whole region_of resolve_link rule latest chosen) _ e k in
      unanimous-All (IsKept P metric rule latest) metric kept e
        (of_newest-All P metric rule latest chosen kept
          (All-preferred P _ (x ∷ es) (All-keep P (λ y. y.from_activities) (x ∷ es) h) h) h1)
        k1
