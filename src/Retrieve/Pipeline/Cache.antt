-- ===== src/Retrieve/Pipeline/Cache.antt =====
-- The entries of the query cache after each of its operations.
use fin_docs_analysis_evals.Common.{
  codes_eq, ℕ, ◌+◌, ◌≤◌, ltb, ◌≡◌, refl, ap, ◌∙◌, Bool, true, false, not, ◌==◌, none, some, List,
  [], ◌∷◌, ◌++◌, keep, length, All, All-append, length-append, if◌then◌else◌, arith,
}
use fin_docs_analysis_evals.Common.Dict.{lookup, IsDict}
use fin_docs_analysis_evals.Ingest.Schema.{Text}
use fin_docs_analysis_evals.Retrieve.Keys.{Request, or_empty, cache_key, occurs, marker}
use fin_docs_analysis_evals.Retrieve.Keys.Laws.{cache_key-marker}
use fin_docs_analysis_evals.Retrieve.Pipeline.{
  RetrievalHit, QueryCache, without, store_last, evict, invalidate_application,
}

module _ {Score : Type 0} where
  pub lookup-without :
      (k j : Text) (c : QueryCache Score)
      → lookup j (without k c) ≡ (if k == j then none else lookup j c)
  lookup-without k j [] = ground arith
  lookup-without k j ((i, hits) ∷ c) = ground (
    arith,
    codes_eq.same_iff k j,
    codes_eq.same_iff i j,
    codes_eq.same_iff i k,
    lookup-without k j c,
  )

  pub lookup-append :
      (j k : Text) (hits : List (RetrievalHit Score)) (c : QueryCache Score)
      → lookup k c ≡ none
      → lookup j (c ++ ((k, hits) ∷ [])) ≡ (if k == j then some hits else lookup j c)
  lookup-append j k hits [] h = refl
  lookup-append j k hits ((i, other) ∷ c) h = ground (
    arith,
    codes_eq.same_iff k j,
    codes_eq.same_iff i j,
    codes_eq.same_iff i k,
    lookup-append j k hits c,
  )

  length-without : (k : Text) (c : QueryCache Score) → length (without k c) ≤ length c
  length-without k [] = omega arith
  length-without k ((i, hits) ∷ c) = ground (arith, length-without k c)

  length-without_found :
      (k : Text) (c : QueryCache Score) (hits : List (RetrievalHit Score))
      → lookup k c ≡ some hits
      → length (without k c) + 1 ≤ length c
  length-without_found k [] hits h = cc
  length-without_found k ((i, other) ∷ c) hits h =
      ground (arith, length-without k c, length-without_found k c hits)

  -- An entry that is used again does not make the cache larger.
  pub length-store_last :
      (k : Text) (c : QueryCache Score) (hits found : List (RetrievalHit Score))
      → lookup k c ≡ some found
      → length (store_last k hits c) ≤ length c
  length-store_last k c hits found h =
      omega (arith, length-append (without k c) ((k, hits) ∷ []), length-without_found k c found h)

  pub length-evict : (m : ℕ) (c : QueryCache Score) → length (evict m c) ≤ m
  unfolding evict
  length-evict m [] = omega arith
  length-evict m (e ∷ c) = ground (arith, length-evict m c)

  without-IsDict : (k : Text) (c : QueryCache Score) → IsDict c → IsDict (without k c)
  without-IsDict k [] h = tt
  without-IsDict k ((i, hits) ∷ c) h = ground (arith, lookup-without k i c, without-IsDict k c h.1)

  append-IsDict :
      (k : Text) (hits : List (RetrievalHit Score)) (c : QueryCache Score)
      → IsDict c
      → lookup k c ≡ none
      → IsDict (c ++ ((k, hits) ∷ []))
  append-IsDict k hits [] h q = (refl, tt)
  append-IsDict k hits ((i, other) ∷ c) h q = ground (
    arith,
    codes_eq.same_iff k i,
    codes_eq.same_iff i k,
    lookup-append i k hits c,
    append-IsDict k hits c h.1,
  )

  pub store_last-IsDict :
      (k : Text) (hits : List (RetrievalHit Score)) (c : QueryCache Score)
      → IsDict c
      → IsDict (store_last k hits c)
  store_last-IsDict k hits c h =
      append-IsDict k hits (without k c) (without-IsDict k c h)
        (ground (arith, codes_eq.same_iff k k, lookup-without k k c))

  pub evict-IsDict : (m : ℕ) (c : QueryCache Score) → IsDict c → IsDict (evict m c)
  unfolding evict
  evict-IsDict m [] h = tt
  evict-IsDict m (e ∷ c) h = ground (arith, evict-IsDict m c h.1)

  module _ (P : Text × List (RetrievalHit Score) → Type 0) where
    All-without : (k : Text) (c : QueryCache Score) → All P c → All P (without k c)
    All-without k [] h = tt
    All-without k (e ∷ c) h = by_test (e.0 == k) (All-without k c h.1)
      where
        by_test :
            (b : Bool) → All P (without k c) → All P (if b then without k c else e ∷ without k c)
        by_test true r = r
        by_test false r = (h.0, r)

    pub All-store_last :
        (k : Text) (hits : List (RetrievalHit Score)) (c : QueryCache Score)
        → P (k, hits)
        → All P c
        → All P (store_last k hits c)
    All-store_last k hits c p h =
        All-append P (without k c) ((k, hits) ∷ []) (All-without k c h) (p, tt)

    pub All-evict : (m : ℕ) (c : QueryCache Score) → All P c → All P (evict m c)
    unfolding evict
    All-evict m [] h = tt
    All-evict m (e ∷ c) h = by_test (ltb m (length (e ∷ c))) (All-evict m c h.1)
      where
        by_test : (b : Bool) → All P (evict m c) → All P (if b then evict m c else e ∷ c)
        by_test true r = r
        by_test false r = h

  -- The newest entry stays.
  lookup-evict :
      (m : ℕ) (k : Text) (hits : List (RetrievalHit Score)) (c : QueryCache Score)
      → 1 ≤ m
      → lookup k c ≡ none
      → lookup k (evict m (c ++ ((k, hits) ∷ []))) ≡ some hits
  unfolding evict
  lookup-evict m k hits [] pos h = ground (arith, codes_eq.same_iff k k)
  lookup-evict m k hits ((i, other) ∷ c) pos h =
      ground (arith, codes_eq.same_iff k k, lookup-append k k hits c, lookup-evict m k hits c pos)

  pub lookup-evict-store_last :
      (m : ℕ) (k : Text) (hits : List (RetrievalHit Score)) (c : QueryCache Score)
      → 1 ≤ m
      → lookup k (evict m (store_last k hits c)) ≡ some hits
  lookup-evict-store_last m k hits c pos =
      lookup-evict m k hits (without k c) pos
        (ground (arith, codes_eq.same_iff k k, lookup-without k k c))

  pub lookup-store_last :
      (k : Text) (hits : List (RetrievalHit Score)) (c : QueryCache Score)
      → lookup k (store_last k hits c) ≡ some hits
  lookup-store_last k hits c =
      ground
        (arith, codes_eq.same_iff k k, lookup-without k k c, lookup-append k k hits (without k c))

  -- No entry with the marker is left.
  lookup-invalidate :
      (a k : Text) (c : QueryCache Score)
      → occurs (marker a) k ≡ true
      → lookup k (invalidate_application a c) ≡ none
  unfolding invalidate_application
  lookup-invalidate a k [] h = refl
  lookup-invalidate a k ((i, hits) ∷ c) h = by_key (i == k) refl (lookup-invalidate a k c h)
    where
      rest : QueryCache Score
      rest = keep (λ e. not (occurs (marker a) e.0)) c

      dropped :
          (b : Bool)
          → b ≡ true
          → lookup k rest ≡ none
          → lookup k (if not b then (i, hits) ∷ rest else rest) ≡ none
      dropped true e r = r
      dropped false e r = cc

      kept :
          (b : Bool)
          → (i == k) ≡ false
          → lookup k rest ≡ none
          → lookup k (if b then (i, hits) ∷ rest else rest) ≡ none
      kept true e r = ground arith
      kept false e r = r

      by_key :
          (b : Bool)
          → (i == k) ≡ b
          → lookup k rest ≡ none
          → lookup k (if not (occurs (marker a) i) then (i, hits) ∷ rest else rest) ≡ none
      by_key true e r =
          dropped (occurs (marker a) i) (ap (occurs (marker a)) ((codes_eq.same_iff i k).0 e) ∙ h) r
      by_key false e r = kept (not (occurs (marker a) i)) e r

  -- An application that was dropped from the cache has no entry.
  pub lookup-invalidate_application :
      (r : Request) (c : QueryCache Score)
      → lookup (cache_key r) (invalidate_application (or_empty r.application) c) ≡ none
  lookup-invalidate_application r c =
      lookup-invalidate (or_empty r.application) (cache_key r) c (cache_key-marker r)
