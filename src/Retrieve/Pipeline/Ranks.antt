-- ===== src/Retrieve/Pipeline/Ranks.antt =====
-- The hits of a search are ranked from one on, and come from the store.
use fin_docs_analysis_evals.Common.{
  codes_eq, ℕ, suc, ◌+◌, String, ◌≡◌, refl, subst, Option, none, some, List, [], ◌∷◌, map, take,
  length, min, length-take, All, All-take, sorted, length-sorted, All-sorted, Has, inl, inr, Result,
  ok, bind-ok, ok_injective, arith,
}
use fin_docs_analysis_evals.Ingest.Schema.{Text, text_of}
use fin_docs_analysis_evals.Retrieve.Pipeline.{
  RetrievalStrategyConfig, RetrievalHit, Reranker, Adapters, SearchOptions, ranked_from,
  normalize_ranks, zip_strict, with_pair, reranked_from, scored_before, or_value_error, rerank,
  search, ranked_hits, fresh,
}

module _ {Score : Type 0} where
  -- The ranks count up from `n`.
  abbrev pub HasRanks : ℕ → List (RetrievalHit Score) → Type 0
  HasRanks n [] = Unit
  HasRanks n (h ∷ hits) = (h.rank ≡ n) × HasRanks (n + 1) hits

  -- Each chunk is that of a hit of the store.
  abbrev pub AreFrom : List (RetrievalHit Score) → List (RetrievalHit Score) → Type 0
  AreFrom found hits = All (λ h. (g : RetrievalHit Score) × Has g found × (h.chunk ≡ g.chunk)) hits

  ranked_from-HasRanks :
      (n : ℕ) (hits : List (RetrievalHit Score)) → HasRanks n (ranked_from n hits)
  ranked_from-HasRanks n [] = tt
  ranked_from-HasRanks n (h ∷ hits) = (refl, ranked_from-HasRanks (n + 1) hits)

  ranked_from-AreFrom :
      (n : ℕ) (found hits : List (RetrievalHit Score))
      → ((h : RetrievalHit Score) → Has h hits → Has h found)
      → AreFrom found (ranked_from n hits)
  ranked_from-AreFrom n found [] sub = tt
  ranked_from-AreFrom n found (h ∷ hits) sub =
      ((h, sub h (inl refl), refl), ranked_from-AreFrom (n + 1) found hits (λ g i. sub g (inr i)))

  length-ranked_from :
      (n : ℕ) (hits : List (RetrievalHit Score)) → length (ranked_from n hits) ≡ length hits
  length-ranked_from n [] = refl
  length-ranked_from n (h ∷ hits) = omega (arith, length-ranked_from (n + 1) hits)

  reranked_from-HasRanks :
      (name : String) (n : ℕ) (ps : List (Score × RetrievalHit Score))
      → HasRanks n (reranked_from name n ps)
  reranked_from-HasRanks name n [] = tt
  reranked_from-HasRanks name n (p ∷ ps) = (refl, reranked_from-HasRanks name (n + 1) ps)

  reranked_from-AreFrom :
      (name : String) (n : ℕ) (found : List (RetrievalHit Score))
      (ps : List (Score × RetrievalHit Score))
      → All (λ p. Has p.1 found) ps
      → AreFrom found (reranked_from name n ps)
  reranked_from-AreFrom name n found [] h = tt
  reranked_from-AreFrom name n found (p ∷ ps) h =
      ((p.1, h.0, refl), reranked_from-AreFrom name (n + 1) found ps h.1)

  length-reranked_from :
      (name : String) (n : ℕ) (ps : List (Score × RetrievalHit Score))
      → length (reranked_from name n ps) ≡ length ps
  length-reranked_from name n [] = refl
  length-reranked_from name n (p ∷ ps) = omega (arith, length-reranked_from name (n + 1) ps)

  some_eq :
      (a b : List (Score × RetrievalHit Score))
      → ◌≡◌ {A = Option (List (Score × RetrievalHit Score))} (some a) (some b)
      → a ≡ b
  some_eq a b h = cc

  zip_strict-All :
      (scores : List Score) (found hits : List (RetrievalHit Score))
      (ps : List (Score × RetrievalHit Score))
      → ((h : RetrievalHit Score) → Has h hits → Has h found)
      → zip_strict scores hits ≡ some ps
      → All (λ p. Has p.1 found) ps × (length ps ≡ length hits)
  zip_strict-All [] found [] ps sub h =
      subst (λ qs. All (λ p. Has p.1 found) qs × (length qs ≡ 0)) (some_eq [] ps h) (tt, refl)
  zip_strict-All [] found (g ∷ hits) ps sub h = cc
  zip_strict-All (s ∷ scores) found [] ps sub h = cc
  zip_strict-All (s ∷ scores) found (g ∷ hits) ps sub h =
      by_rest (zip_strict scores hits) h
        (λ qs. zip_strict-All scores found hits qs (λ k i. sub k (inr i)))
    where
      by_rest :
          (o : Option (List (Score × RetrievalHit Score)))
          → with_pair (s, g) o ≡ some ps
          → ((qs : List (Score × RetrievalHit Score))
              → o ≡ some qs
              → All (λ p. Has p.1 found) qs × (length qs ≡ length hits))
          → All (λ p. Has p.1 found) ps × (length ps ≡ suc (length hits))
      by_rest none q later = cc
      by_rest (some qs) q later =
          let (inside, long) = later qs refl in
          subst (λ rs. All (λ p. Has p.1 found) rs × (length rs ≡ suc (length hits)))
            (some_eq ((s, g) ∷ qs) ps q) ((sub g (inl refl), inside), omega (arith, long))

module _ {Embedding Error Score : Type 0} (config : RetrievalStrategyConfig)
    (adapters : Adapters Embedding Error Score) where
  abbrev pub may_rerank : Option (Reranker Error Score) → Option ℕ → ℕ → ℕ
  may_rerank (some reranker) (some k) n = min k n
  may_rerank _ _ n = n

  or_value_error-ok :
      {A : Type 0} (o : Option A) (a : A) → or_value_error config adapters o ≡ ok a → o ≡ some a
  or_value_error-ok none a h = cc
  or_value_error-ok (some b) a h = cc

  -- What the store gave, and what is made of it.
  pub record IsRanking (query : Text) (options : SearchOptions) (hits : List (RetrievalHit Score))
      : Type 0 where
    pub embedding : Embedding
    pub encoded : adapters.encode_query query ≡ ok embedding
    pub found : List (RetrievalHit Score)
    pub searched : search config adapters config.mode embedding options ≡ ok found
    pub ranks : HasRanks 1 hits
    pub from_store : AreFrom found hits
    pub count : length hits ≡ may_rerank adapters.reranker config.rerank_top_k (length found)

  abbrev IsFinished : List (RetrievalHit Score) → List (RetrievalHit Score) → ℕ → Type 0
  IsFinished found hits n = HasRanks 1 hits × AreFrom found hits × (length hits ≡ n)

  normalized :
      (found hits : List (RetrievalHit Score))
      → ◌≡◌ {A = Result Error (List (RetrievalHit Score))} (ok (normalize_ranks found)) (ok hits)
      → IsFinished found hits (length found)
  normalized found hits h =
      subst (λ hs. IsFinished found hs (length found)) (ok_injective _ hits h)
        (
          ranked_from-HasRanks 1 found,
          ranked_from-AreFrom 1 found found (λ g i. i),
          length-ranked_from 1 found,
        )

  ranked_hits-IsFinished :
      (o : Option (Reranker Error Score)) (k : Option ℕ) (query : Text)
      (found hits : List (RetrievalHit Score))
      → ranked_hits config adapters o k query found ≡ ok hits
      → IsFinished found hits (may_rerank o k (length found))
  unfolding rerank
  ranked_hits-IsFinished none none query found hits h = normalized found hits h
  ranked_hits-IsFinished none (some k) query found hits h = normalized found hits h
  ranked_hits-IsFinished (some reranker) none query found hits h = normalized found hits h
  ranked_hits-IsFinished (some reranker) (some k) query found hits h =
      let (scores, h1, k1) =
        bind-ok (reranker.scores query (map (λ g. text_of g.chunk) found)) _ hits h in
      let (pairs, h2, k2) =
        bind-ok (or_value_error config adapters (zip_strict scores found)) _ hits k1 in
      let (inside, long) =
        zip_strict-All scores found found pairs (λ g i. i)
          (or_value_error-ok (zip_strict scores found) pairs h2) in
      let best = take k (sorted (scored_before config adapters) pairs) in
      subst (λ hs. IsFinished found hs (min k (length found))) (ok_injective _ hits k2)
        (
          reranked_from-HasRanks reranker.model_name 1 best,
          reranked_from-AreFrom reranker.model_name 1 found best (
              All-take (λ p. Has p.1 found) k _
                (All-sorted (scored_before config adapters) (λ p. Has p.1 found) pairs inside)),
          omega (
            arith,
            long,
            length-reranked_from reranker.model_name 1 best,
            length-take k (sorted (scored_before config adapters) pairs),
            length-sorted (scored_before config adapters) pairs,
          ),
        )

  -- The hits of a search that was not cached are ranked 1, 2, … without a gap, each carries a chunk
  -- that the store found, and there are as many as the store gave, or as the reranker's limit lets.
  pub fresh-IsRanking :
      (query : Text) (options : SearchOptions) (hits : List (RetrievalHit Score))
      → fresh config adapters query options ≡ ok hits
      → IsRanking query options hits
  unfolding fresh
  fresh-IsRanking query options hits h =
      let (embedding, h1, k1) = bind-ok (adapters.encode_query query) _ hits h in
      let (found, h2, k2) =
        bind-ok (search config adapters config.mode embedding options) _ hits k1 in
      let (ranks, from_store, count) =
        ranked_hits-IsFinished adapters.reranker config.rerank_top_k query found hits k2 in
      record {
        embedding = embedding;
        encoded = h1;
        found = found;
        searched = h2;
        ranks = ranks;
        from_store = from_store;
        count = count;
      }
