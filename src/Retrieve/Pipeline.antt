-- ===== src/Retrieve/Pipeline.antt =====
-- src/findociq/retrieve/pipeline.py: the strategy, the query cache and the ranks of the hits. The
-- embedder, the store and the reranker are parameters, and so are the numbers that they score with.
-- Spans of the observer and the release of models are left out: they change no result.
pub mod Cache
pub mod Laws
pub mod Bounds
pub mod Ranks
use fin_docs_analysis_evals.Common.{
  codes_eq, ℕ, ◌+◌, ltb, leb, String, Bool, true, false, not, ◌&&◌, ◌||◌, ◌==◌, Option, none, some,
  List, [], ◌∷◌, ◌++◌, map, keep, take, length, is_empty, is_some, sorted, Result, ok, err, ◌>>=◌,
  ◌>>◌, raise_if, if◌then◌else◌,
}
use fin_docs_analysis_evals.Common.Dict.{Dict, lookup}
use fin_docs_analysis_evals.Ingest.Schema.{Text, Chunk, text_of}
use fin_docs_analysis_evals.Ingest.Chunker.Split.{strip}
use fin_docs_analysis_evals.Retrieve.Keys.{Request, or_empty, cache_key, occurs, marker}

pub data Mode : Type 0 where
  dense hybrid_rrf : Mode

pub record RetrievalStrategyConfig : Type 0 where
  pub name : String
  pub mode : Mode
  pub retrieve_top_k : ℕ
  pub rerank_top_k : Option ℕ
  pub prefetch_top_k : ℕ
  pub rrf_k : ℕ
  pub cache_max_entries : ℕ

pub data ConfigError : Type 0 where
  name_required limits_not_positive bad_rerank_top_k bad_cache_size reranker_required : ConfigError

abbrev pub bad_rerank : RetrievalStrategyConfig → Option ℕ → Bool
bad_rerank config none = false
bad_rerank config (some k) = not (ltb 0 k && leb k config.retrieve_top_k)

abbrev pub is_blank_name : String → Bool
is_blank_name String.[] = true
is_blank_name (String.◌∷◌ c s) = false

-- `RetrievalStrategyConfig.__post_init__`; the mode is one of the two by its type.
unfoldable pub check_strategy : RetrievalStrategyConfig → Result ConfigError (Unit {0})
check_strategy config =
    raise_if (is_blank_name config.name) name_required
    >> (raise_if (leb config.retrieve_top_k 0 || leb config.prefetch_top_k 0 || leb config.rrf_k 0)
          limits_not_positive
        >> (raise_if (bad_rerank config config.rerank_top_k) bad_rerank_top_k
            >> raise_if (leb config.cache_max_entries 0) bad_cache_size))

-- `RetrievalHit`
pub record RetrievalHit (Score : Type 0) : Type 0 where
  pub chunk : Chunk
  pub score : Score
  pub rank : ℕ
  pub method : String
  pub retrieval_score : Option Score

pub record Reranker (Error Score : Type 0) : Type 0 where
  pub model_name : String
  pub scores : Text → List Text → Result Error (List Score)

-- `search_options` of a search, where an empty value is left out.
pub record SearchOptions : Type 0 where
  pub only_documents : List Text
  pub only_application : Text

-- The adapters of a pipeline; `value_error` is the exception of the pipeline's own checks.
pub record Adapters (Embedding Error Score : Type 0) : Type 0 where
  pub value_error : Error
  pub encode_query : Text → Result Error Embedding
  pub dense_search : Embedding → ℕ → SearchOptions → Result Error (List (RetrievalHit Score))
  -- limit, prefetch limit and `rrf_k`
  pub hybrid_search :
      Embedding → ℕ → ℕ → ℕ → SearchOptions → Result Error (List (RetrievalHit Score))
  pub reranker : Option (Reranker Error Score)
  -- `a < b` on scores
  pub score_lt : Score → Score → Bool

-- The constructor's check.
abbrev pub check_pipeline :
    {Embedding Error Score : Type 0}
    → RetrievalStrategyConfig
    → Adapters Embedding Error Score
    → Result ConfigError (Unit {0})
check_pipeline config adapters =
    raise_if (is_some config.rerank_top_k && not (is_some adapters.reranker)) reranker_required

-- `_cache`: the entries from the least to the most recently used
abbrev pub QueryCache : Type 0 → Type 0
QueryCache Score = Dict Text (List (RetrievalHit Score))

module _ {Score : Type 0} where
  abbrev pub without : Text → QueryCache Score → QueryCache Score
  without key [] = []
  without key ((k, hits) ∷ entries) =
      let rest = without key entries in if k == key then rest else (k, hits) ∷ rest

  -- `cache[key] = hits` and `cache.move_to_end(key)`
  abbrev pub store_last : Text → List (RetrievalHit Score) → QueryCache Score → QueryCache Score
  store_last key hits entries = without key entries ++ ((key, hits) ∷ [])

  -- `while len(cache) > maximum: cache.popitem(last=False)`
  unfoldable pub evict : ℕ → QueryCache Score → QueryCache Score
  evict maximum [] = []
  evict maximum (e ∷ entries) =
      let rest = evict maximum entries in
      if ltb maximum (length (e ∷ entries)) then rest else e ∷ entries

  -- `invalidate_application`
  unfoldable pub invalidate_application : Text → QueryCache Score → QueryCache Score
  invalidate_application application entries =
      keep (λ e. not (occurs (marker application) e.0)) entries

  abbrev pub ranked_from : ℕ → List (RetrievalHit Score) → List (RetrievalHit Score)
  ranked_from n [] = []
  ranked_from n (h ∷ hits) =
      record {
        chunk = h.chunk;
        score = h.score;
        rank = n;
        method = h.method;
        retrieval_score = h.retrieval_score;
      }
      ∷ ranked_from (n + 1) hits

  -- `_normalize_ranks`
  abbrev pub normalize_ranks : List (RetrievalHit Score) → List (RetrievalHit Score)
  normalize_ranks hits = ranked_from 1 hits

  abbrev pub with_pair :
      Score × RetrievalHit Score
      → Option (List (Score × RetrievalHit Score))
      → Option (List (Score × RetrievalHit Score))
  with_pair p none = none
  with_pair p (some ps) = some (p ∷ ps)

  -- `zip(scores, hits, strict=True)`
  abbrev pub zip_strict :
      List Score → List (RetrievalHit Score) → Option (List (Score × RetrievalHit Score))
  zip_strict [] [] = some []
  zip_strict [] (h ∷ hits) = none
  zip_strict (s ∷ scores) [] = none
  zip_strict (s ∷ scores) (h ∷ hits) = with_pair (s, h) (zip_strict scores hits)

  abbrev pub reranked_from :
      String → ℕ → List (Score × RetrievalHit Score) → List (RetrievalHit Score)
  reranked_from name n [] = []
  reranked_from name n ((s, h) ∷ ps) =
      record { chunk = h.chunk; score = s; rank = n; method = name; retrieval_score = some h.score }
      ∷ reranked_from name (n + 1) ps

module _ {Embedding Error Score : Type 0} (config : RetrievalStrategyConfig)
    (adapters : Adapters Embedding Error Score) where
  -- Higher scores first, then the ranks of the search.
  abbrev pub scored_before : Score × RetrievalHit Score → Score × RetrievalHit Score → Bool
  scored_before (s, h) (t, i) =
      adapters.score_lt t s || (not (adapters.score_lt s t) && ltb h.rank i.rank)

  abbrev pub or_value_error : {A : Type 0} → Option A → Result Error A
  or_value_error none = err adapters.value_error
  or_value_error (some a) = ok a

  -- `_rerank`
  unfoldable pub rerank :
      Reranker Error Score
      → ℕ
      → Text
      → List (RetrievalHit Score)
      → Result Error (List (RetrievalHit Score))
  unfolding sorted
  rerank reranker k query hits = do
    scores ← reranker.scores query (map (λ h. text_of h.chunk) hits)
    pairs ← or_value_error (zip_strict scores hits)
    ok (reranked_from reranker.model_name 1 (take k (sorted scored_before pairs)))

  abbrev pub options_of : Request → SearchOptions
  options_of r = record {
    only_documents = r.document_ids;
    only_application = or_empty r.application;
  }

  abbrev pub search : Mode → Embedding → SearchOptions → Result Error (List (RetrievalHit Score))
  search dense embedding options = adapters.dense_search embedding config.retrieve_top_k options
  search hybrid_rrf embedding options =
      adapters.hybrid_search embedding config.retrieve_top_k config.prefetch_top_k config.rrf_k
        options

  abbrev pub ranked_hits :
      Option (Reranker Error Score)
      → Option ℕ
      → Text
      → List (RetrievalHit Score)
      → Result Error (List (RetrievalHit Score))
  ranked_hits none k query hits = ok (normalize_ranks hits)
  ranked_hits (some reranker) none query hits = ok (normalize_ranks hits)
  ranked_hits (some reranker) (some k) query hits = rerank reranker k query hits

  -- The part of `retrieve` behind a cache miss.
  unfoldable pub fresh : Text → SearchOptions → Result Error (List (RetrievalHit Score))
  unfolding rerank
  fresh query options = do
    embedding ← adapters.encode_query query
    hits ← search config.mode embedding options
    ranked_hits adapters.reranker config.rerank_top_k query hits

  abbrev pub remembered :
      Text
      → Result Error (List (RetrievalHit Score))
      → QueryCache Score
      → Result Error (List (RetrievalHit Score)) × QueryCache Score
  remembered key (err e) cache = (err e, cache)
  remembered key (ok results) cache =
      (ok results, evict config.cache_max_entries (store_last key results cache))

  abbrev pub answer :
      Request
      → Option (List (RetrievalHit Score))
      → QueryCache Score
      → Result Error (List (RetrievalHit Score)) × QueryCache Score
  answer r (some hits) cache = (ok hits, store_last (cache_key r) hits cache)
  answer r none cache = remembered (cache_key r) (fresh r.query (options_of r)) cache

  -- `retrieve`, with the cache before and after.
  unfoldable pub retrieve :
      Request → QueryCache Score → Result Error (List (RetrievalHit Score)) × QueryCache Score
  unfolding fresh evict
  retrieve r cache =
      if is_empty (strip r.query)
      then (err adapters.value_error, cache)
      else answer r (lookup (cache_key r) cache) cache
