-- ===== src/Retrieve/Pipeline/Bounds.antt =====
-- The size of the query cache, what is remembered and what is dropped.
use fin_docs_analysis_evals.Common.{
  codes_eq, ◌≤◌, ◌≡◌, refl, ap, ◌∙◌, Bool, true, false, Option, none, some, List, [], length,
  is_empty, Result, ok, err, if◌then◌else◌, ok_injective, arith,
}
use fin_docs_analysis_evals.Common.Dict.{lookup, IsDict}
use fin_docs_analysis_evals.Ingest.Schema.{Text}
use fin_docs_analysis_evals.Ingest.Chunker.Split.{strip}
use fin_docs_analysis_evals.Retrieve.Keys.{Request, or_empty, cache_key}
use fin_docs_analysis_evals.Retrieve.Pipeline.{
  RetrievalStrategyConfig, RetrievalHit, Adapters, QueryCache, options_of, invalidate_application,
  fresh, remembered, answer, retrieve,
}
use fin_docs_analysis_evals.Retrieve.Pipeline.Cache.{
  length-store_last, length-evict, store_last-IsDict, evict-IsDict, lookup-evict-store_last,
  lookup-store_last, lookup-invalidate_application,
}

module _ {Embedding Error Score : Type 0} (config : RetrievalStrategyConfig)
    (adapters : Adapters Embedding Error Score) where
  -- No two entries have one key, and there are as many as the strategy allows at most.
  pub record IsCache (c : QueryCache Score) : Type 0 where
    pub keys : IsDict c
    pub size : length c ≤ config.cache_max_entries

  answer-IsCache :
      (r : Request) (c : QueryCache Score) (o : Option (List (RetrievalHit Score)))
      (new : Result Error (List (RetrievalHit Score)))
      → IsCache c
      → lookup (cache_key r) c ≡ o
      → fresh config adapters r.query (options_of config adapters r) ≡ new
      → IsCache (answer config adapters r o c).1
  answer-IsCache r c (some hits) new h found e = record {
    keys = store_last-IsDict (cache_key r) hits c h.keys;
    size = omega (arith, h.size, length-store_last (cache_key r) c hits hits found);
  }
  answer-IsCache r c none (err x) h found e = rw e h
  answer-IsCache r c none (ok hits) h found e = rw e (record {
    keys = evict-IsDict config.cache_max_entries _ (store_last-IsDict (cache_key r) hits c h.keys);
    size = length-evict config.cache_max_entries _;
  })

  -- Retrieving keeps the keys of the cache apart and the cache within its size, whether it hits,
  -- misses or fails.
  pub retrieve-IsCache :
      (r : Request) (c : QueryCache Score) → IsCache c → IsCache (retrieve config adapters r c).1
  unfolding retrieve
  retrieve-IsCache r c h = by_blank (is_empty (strip r.query))
    where
      by_blank :
          (b : Bool)
          → IsCache
              (if b
                then (err adapters.value_error, c)
                else answer config adapters r (lookup (cache_key r) c) c).1
      by_blank true = h
      by_blank false = answer-IsCache r c (lookup (cache_key r) c) _ h refl refl

  -- After the entries of an application are dropped, every request for it gets what it gets on an
  -- empty cache.
  pub retrieve-invalidate_application :
      (r : Request) (c : QueryCache Score)
      → (retrieve config adapters r (invalidate_application (or_empty r.application) c)).0
        ≡ (retrieve config adapters r []).0
  unfolding retrieve
  retrieve-invalidate_application r c = rw (lookup-invalidate_application r c) (
      by_blank (is_empty (strip r.query))
        (fresh config adapters r.query (options_of config adapters r)))
    where
      by_blank :
          (b : Bool) (new : Result Error (List (RetrievalHit Score)))
          → (if b
              then (err adapters.value_error, invalidate_application (or_empty r.application) c)
              else remembered config adapters
                  (cache_key r)
                  new
                  (invalidate_application (or_empty r.application) c)).0
            ≡ (if b
                then (err adapters.value_error, [])
                else remembered config adapters (cache_key r) new []).0
      by_blank true new = refl
      by_blank false (ok hits) = refl
      by_blank false (err x) = refl

  remembered-found :
      (key : Text) (new : Result Error (List (RetrievalHit Score))) (c : QueryCache Score)
      (hits : List (RetrievalHit Score))
      → 1 ≤ config.cache_max_entries
      → (remembered config adapters key new c).0 ≡ ok hits
      → lookup key (remembered config adapters key new c).1 ≡ some hits
  remembered-found key (err x) c hits pos h = cc
  remembered-found key (ok new) c hits pos h =
      lookup-evict-store_last config.cache_max_entries key new c pos
      ∙ ap some (ok_injective new hits h)

  -- What was returned is in the cache behind it.
  pub answer-found :
      (r : Request) (o : Option (List (RetrievalHit Score))) (c : QueryCache Score)
      (hits : List (RetrievalHit Score))
      → 1 ≤ config.cache_max_entries
      → (answer config adapters r o c).0 ≡ ok hits
      → lookup (cache_key r) (answer config adapters r o c).1 ≡ some hits
  answer-found r (some found) c hits pos h =
      lookup-store_last (cache_key r) found c ∙ ap some (ok_injective found hits h)
  answer-found r none c hits pos h =
      remembered-found (cache_key r) (fresh config adapters r.query (options_of config adapters r))
        c hits pos h

-- A request that was answered is answered the same when it is repeated, with whatever adapters.
pub retrieve_again :
    {Embedding Error Score : Type 0} (config : RetrievalStrategyConfig)
    (adapters later : Adapters Embedding Error Score) (r : Request) (c : QueryCache Score)
    (hits : List (RetrievalHit Score))
    → 1 ≤ config.cache_max_entries
    → (retrieve config adapters r c).0 ≡ ok hits
    → (retrieve config later r (retrieve config adapters r c).1).0 ≡ ok hits
unfolding retrieve
retrieve_again config adapters later r c hits pos h = by_blank (is_empty (strip r.query)) h
  where
    by_blank :
        (b : Bool)
        → (if b
            then (err adapters.value_error, c)
            else answer config adapters r (lookup (cache_key r) c) c).0
          ≡ ok hits
        → (if b
            then (
              err later.value_error,
              (if b
                  then (err adapters.value_error, c)
                  else answer config adapters r (lookup (cache_key r) c) c).1,
            )
            else answer config later r
                (lookup
                  (cache_key r)
                  (if b
                    then (err adapters.value_error, c)
                    else answer config adapters r (lookup (cache_key r) c) c).1)
                (if b
                  then (err adapters.value_error, c)
                  else answer config adapters r (lookup (cache_key r) c) c).1).0
          ≡ ok hits
    by_blank true q = cc
    by_blank false q =
        rw (answer-found config adapters r (lookup (cache_key r) c) c hits pos q) refl
