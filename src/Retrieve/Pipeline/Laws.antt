-- ===== src/Retrieve/Pipeline/Laws.antt =====
-- The query cache changes no answer, and its hits are ranked.
use fin_docs_analysis_evals.Common.{
  codes_eq, ◌≡◌, refl, sym, ap, ◌∙◌, Bool, true, false, Option, none, some, List, [], All, is_empty,
  Result, ok, err, if◌then◌else◌,
}
use fin_docs_analysis_evals.Common.Dict.{lookup, All-lookup}
use fin_docs_analysis_evals.Ingest.Schema.{Text}
use fin_docs_analysis_evals.Ingest.Chunker.Split.{strip}
use fin_docs_analysis_evals.Retrieve.Keys.{Request, or_empty, cache_key}
use fin_docs_analysis_evals.Retrieve.Keys.Laws.{IsPlain, SameRequest, cache_key-injective}
use fin_docs_analysis_evals.Retrieve.Pipeline.{
  RetrievalStrategyConfig, RetrievalHit, Adapters, QueryCache, SearchOptions, options_of, fresh,
  remembered, answer, retrieve,
}
use fin_docs_analysis_evals.Retrieve.Pipeline.Cache.{All-store_last, All-evict}

module _ {Embedding Error Score : Type 0} (config : RetrievalStrategyConfig)
    (adapters : Adapters Embedding Error Score) where
  -- The answer to a request without the cache.
  abbrev pub found_for : Request → Result Error (List (RetrievalHit Score))
  found_for r = fresh config adapters r.query (options_of config adapters r)

  options_eq :
      (a b : Text) (ds es : List Text)
      → a ≡ b
      → ds ≡ es
      → ◌≡◌ {A = SearchOptions}
          (record { only_documents = ds; only_application = a })
          (record { only_documents = es; only_application = b })
  options_eq a b ds es p q = cc

  -- What is searched for depends on what is asked of the search only.
  found_for-SameRequest : (r s : Request) → SameRequest r s → found_for r ≡ found_for s
  found_for-SameRequest r s h =
      ap (λ q. fresh config adapters q (options_of config adapters r)) h.0
      ∙ ap (fresh config adapters s.query) (
          options_eq (or_empty r.application) (or_empty s.application) r.document_ids s.document_ids
            h.1 h.2)

  -- An entry holds the answer to each request that has its key.
  abbrev pub IsAnswer : Text × List (RetrievalHit Score) → Type 0
  IsAnswer (k, hits) = (s : Request) → IsPlain s → cache_key s ≡ k → found_for s ≡ ok hits

  abbrev pub IsSound : QueryCache Score → Type 0
  IsSound c = All IsAnswer c

  answer-IsSound :
      (r : Request) (c : QueryCache Score) (o : Option (List (RetrievalHit Score)))
      (new : Result Error (List (RetrievalHit Score)))
      → IsPlain r
      → IsSound c
      → lookup (cache_key r) c ≡ o
      → found_for r ≡ new
      → ((answer config adapters r o c).0 ≡ new) × IsSound (answer config adapters r o c).1
  answer-IsSound r c (some hits) new plain sound found e =
      let answers = All-lookup IsAnswer (cache_key r) c hits sound found in
      (sym (answers r plain refl) ∙ e, All-store_last IsAnswer (cache_key r) hits c answers sound)
  answer-IsSound r c none (err x) plain sound found e = rw e (refl, sound)
  answer-IsSound r c none (ok hits) plain sound found e = rw e (
    refl,
    All-evict IsAnswer config.cache_max_entries _ (
        All-store_last IsAnswer (cache_key r) hits c
          (λ s plain_s q. found_for-SameRequest s r (cache_key-injective s r plain_s plain q) ∙ e)
          sound),
  )

  -- On a cache whose entries are answers, a request with plain ids gets what it gets without a cache,
  -- a hit or not, and the entries stay answers.
  pub retrieve-IsTransparent :
      (r : Request) (c : QueryCache Score)
      → IsPlain r
      → IsSound c
      → ((retrieve config adapters r c).0 ≡ (retrieve config adapters r []).0)
        × IsSound (retrieve config adapters r c).1
  unfolding retrieve
  retrieve-IsTransparent r c plain sound = by_blank (is_empty (strip r.query))
    where
      by_result :
          (new : Result Error (List (RetrievalHit Score)))
          → (remembered config adapters (cache_key r) new []).0 ≡ new
      by_result (ok hits) = refl
      by_result (err x) = refl

      by_blank :
          (b : Bool)
          → ((if b
                then (err adapters.value_error, c)
                else answer config adapters r (lookup (cache_key r) c) c).0
              ≡ (if b then (err adapters.value_error, []) else answer config adapters r none []).0)
            × IsSound
                (if b
                  then (err adapters.value_error, c)
                  else answer config adapters r (lookup (cache_key r) c) c).1
      by_blank true = (refl, sound)
      by_blank false =
          let (same, stays) =
            answer-IsSound r c (lookup (cache_key r) c) (found_for r) plain sound refl refl in
          (same ∙ sym (by_result (found_for r)), stays)
