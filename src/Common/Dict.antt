-- ===== src/Common/Dict.antt =====
-- A Python dict as an association list in insertion order.
use fin_docs_analysis_evals.Common.Tests.{if◌then◌else◌}
use fin_docs_analysis_evals.Common.Equality.{Key, ◌==◌}
use mathlib.Core.Path.{◌≡◌, refl, ap, subst}
use mathlib.Core.Option.{Option, none, some}
use mathlib.Core.List.{List, [], ◌∷◌}
use mathlib.Core.Bool.{Bool, true, false}
use fin_docs_analysis_evals.Common.Lists.{All}
use native.Mathlib.Omega.{arith}

abbrev pub Dict {ℓ} : Type ℓ → Type ℓ → Type ℓ
Dict K V = List (K × V)

module _ {ℓ} {K V : Type ℓ} ⦃key : Key K⦄ where
  -- `d.get(k)`
  abbrev pub lookup : K → Dict K V → Option V
  lookup k [] = none
  lookup k ((j, v) ∷ d) = if j == k then some v else lookup k d

  -- `d[k] = v`
  abbrev pub insert : K → V → Dict K V → Dict K V
  insert k v [] = (k, v) ∷ []
  insert k v ((j, w) ∷ d) = if j == k then (k, v) ∷ d else (j, w) ∷ insert k v d

  -- No key occurs twice.
  abbrev pub IsDict : Dict K V → Type ℓ
  IsDict [] = Unit
  IsDict ((j, _) ∷ d) = (lookup j d ≡ none) × IsDict d

module _ {ℓ} {K V : Type ℓ} ⦃key : Key K⦄ where
  pub lookup-insert :
      (k j : K) (v : V) (d : Dict K V)
      → lookup j (insert k v d) ≡ (if k == j then some v else lookup j d)
  lookup-insert k j v [] = refl
  lookup-insert k j v ((i, w) ∷ d) =
      ground (arith, key.same_iff k j, key.same_iff i k, key.same_iff i j, lookup-insert k j v d)

  pub insert-IsDict : (k : K) (v : V) (d : Dict K V) → IsDict d → IsDict (insert k v d)
  insert-IsDict k v [] h = (refl, tt)
  insert-IsDict k v ((i, w) ∷ d) h =
      ground
        (arith, key.same_iff i k, key.same_iff k i, insert-IsDict k v d h.1, lookup-insert k i v d)

module _ {K V : Type 0} ⦃key : Key K⦄ where
  module _ (P : K × V → Type 0) where
    same_entry :
        (i k : K) (other v : V)
        → i ≡ k
        → ◌≡◌ {A = Option V} (some other) (some v)
        → ◌≡◌ {A = K × V} (i, other) (k, v)
    same_entry i k other v e q = cc

    -- What holds of all the entries holds of the one that is found.
    pub All-lookup : (k : K) (d : Dict K V) (v : V) → All P d → lookup k d ≡ some v → P (k, v)
    All-lookup k [] v h q = cc
    All-lookup k ((i, other) ∷ d) v h q = by_key (i == k) refl q (λ r. All-lookup k d v h.1 r)
      where
        by_key :
            (b : Bool)
            → (i == k) ≡ b
            → (if b then some other else lookup k d) ≡ some v
            → (lookup k d ≡ some v → P (k, v))
            → P (k, v)
        by_key true e r later = subst P (same_entry i k other v ((key.same_iff i k).0 e) r) h.0
        by_key false e r later = later r

    pub All-insert : (k : K) (v : V) (d : Dict K V) → P (k, v) → All P d → All P (insert k v d)
    All-insert k v [] p h = (p, tt)
    All-insert k v ((i, other) ∷ d) p h = by_key (i == k) (All-insert k v d p h.1)
      where
        by_key :
            (b : Bool)
            → All P (insert k v d)
            → All P (if b then (k, v) ∷ d else (i, other) ∷ insert k v d)
        by_key true r = (p, h.1)
        by_key false r = (h.0, r)

  All-entries_cons :
      (k : K) (v : V) (d es : Dict K V)
      → lookup k d ≡ none
      → All (λ e. lookup e.0 d ≡ some e.1) es
      → All (λ e. lookup e.0 ((k, v) ∷ d) ≡ some e.1) es
  All-entries_cons k v d [] h q = tt
  All-entries_cons k v d (e ∷ es) h q = (
    ground (arith, key.same_iff k e.0, ap (λ j. lookup j d) {x = k} {y = e.0}),
    All-entries_cons k v d es h q.1,
  )

  -- The entries of a dict are found under their keys.
  pub All-entries : (d : Dict K V) → IsDict d → All (λ e. lookup e.0 d ≡ some e.1) d
  All-entries [] h = tt
  All-entries ((k, v) ∷ d) h =
      (ground (arith, key.same_iff k k), All-entries_cons k v d d h.0 (All-entries d h.1))
