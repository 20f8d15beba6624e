-- ===== src/Retrieve/Examples.antt =====
-- The theorems of the retrieval layer at concrete inputs: two chunks, scored by numbers.
use fin_docs_analysis_evals.Common.{
  codes_eq, string_eq, nat_eq, ℕ, ◌+◌, ◌-◌, ltb, String, ◌≡◌, refl, false, none, some, List, [],
  ◌∷◌, Result, ok, arith,
}
use fin_docs_analysis_evals.Ingest.Schema.{Text, Metadata, Chunk, text_chunk}
use fin_docs_analysis_evals.Retrieve.Keys.{Request, or_empty, cache_key}
use fin_docs_analysis_evals.Retrieve.Keys.Laws.{IsPlain, SameRequest, cache_key-injective}
use fin_docs_analysis_evals.Retrieve.Pipeline.{
  dense, RetrievalStrategyConfig, RetrievalHit, Adapters, QueryCache, invalidate_application,
  retrieve, fresh,
}
use fin_docs_analysis_evals.Retrieve.Pipeline.Laws.{IsSound, retrieve-IsTransparent}
use fin_docs_analysis_evals.Retrieve.Pipeline.Bounds.{
  IsCache, retrieve-IsCache, retrieve-invalidate_application,
}
use fin_docs_analysis_evals.Retrieve.Fusion.{Numbers, reciprocal_rank_fusion}
use fin_docs_analysis_evals.Retrieve.Fusion.Output.{IsFusion, reciprocal_rank_fusion-IsFusion}

abbrev plain_metadata : Metadata
plain_metadata = record {
  block_kind = none;
  part = none;
  table_name = none;
  atomic = false;
  page_spanning = false;
  parts = none;
  continued = false;
  config_hash = none;
  application_id = none;
}

abbrev named_chunk : String → Chunk
named_chunk name = text_chunk (record {
  text_id = name;
  body = 65 ∷ [];
  text_provenance = [];
  text_metadata = plain_metadata;
})

abbrev hit_of : String → ℕ → ℕ → RetrievalHit ℕ
hit_of name s r = record {
  chunk = named_chunk name;
  score = s;
  rank = r;
  method = "dense";
  retrieval_score = none;
}

abbrev two_hits : List (RetrievalHit ℕ)
two_hits = hit_of "a" 7 1 ∷ hit_of "b" 5 2 ∷ []

abbrev test_strategy : RetrievalStrategyConfig
test_strategy = record {
  name = "dense";
  mode = dense;
  retrieve_top_k = 2;
  rerank_top_k = some 1;
  prefetch_top_k = 2;
  rrf_k = 60;
  cache_max_entries = 1;
}

abbrev by_place : Text → List Text → Result String (List ℕ)
by_place query texts = ok (1 ∷ 2 ∷ [])

abbrev test_adapters : Adapters Text String ℕ
test_adapters = record {
  value_error = "value error";
  encode_query = λ q. ok q;
  dense_search = λ e k options. ok two_hits;
  hybrid_search = λ e k p r options. ok [];
  reranker = some (record { model_name = "m"; scores = by_place });
  score_lt = ltb;
}

abbrev test_request : Request
test_request = record {
  query = 81 ∷ [];
  application = some (65 ∷ []);
  document_ids = (68 ∷ []) ∷ [];
}

-- The answer to every request.
abbrev best_hit : RetrievalHit ℕ
best_hit = record {
  chunk = named_chunk "b";
  score = 2;
  rank = 1;
  method = "m";
  retrieval_score = some 5;
}

abbrev filled : QueryCache ℕ
filled = (cache_key test_request, best_hit ∷ []) ∷ []

test_request-IsPlain : IsPlain test_request
test_request-IsPlain = record {
  application_free = ((λ q. omega arith), tt);
  ids_plain = ((refl, ((λ q. omega arith), tt), ((λ q. omega arith), tt)), tt);
}

filled-IsSound : IsSound test_strategy test_adapters filled
unfolding fresh
filled-IsSound = ((λ s p q. refl), tt)

retrieve-IsTransparent_example :
    ((retrieve test_strategy test_adapters test_request filled).0
      ≡ (retrieve test_strategy test_adapters test_request []).0)
    × IsSound test_strategy test_adapters
        (retrieve test_strategy test_adapters test_request filled).1
retrieve-IsTransparent_example =
    retrieve-IsTransparent test_strategy test_adapters test_request filled test_request-IsPlain
      filled-IsSound

filled-IsCache : IsCache test_strategy test_adapters filled
filled-IsCache = record { keys = (refl, tt); size = omega arith }

retrieve-IsCache_example :
    IsCache test_strategy test_adapters (retrieve test_strategy test_adapters test_request filled).1
retrieve-IsCache_example =
    retrieve-IsCache test_strategy test_adapters test_request filled filled-IsCache

retrieve-invalidate_application_example :
    (retrieve test_strategy test_adapters test_request (
      invalidate_application
        (or_empty test_request.application)
        ((cache_key test_request, []) ∷ []))).0
    ≡ (retrieve test_strategy test_adapters test_request []).0
retrieve-invalidate_application_example =
    retrieve-invalidate_application test_strategy test_adapters test_request
      ((cache_key test_request, []) ∷ [])

cache_key-injective_example : SameRequest test_request test_request
cache_key-injective_example =
    cache_key-injective test_request test_request test_request-IsPlain test_request-IsPlain refl

-- A decreasing function in place of the reciprocal.
abbrev test_numbers : Numbers ℕ
test_numbers = record { reciprocal = λ n. 200 - n; plus = λ a b. a + b; less = ltb }

abbrev fused_hits : List (RetrievalHit ℕ)
fused_hits =
    record {
      chunk = named_chunk "b";
      score = 277;
      rank = 1;
      method = "hybrid_rrf";
      retrieval_score = some 5;
    }
    ∷ record {
      chunk = named_chunk "a";
      score = 139;
      rank = 2;
      method = "hybrid_rrf";
      retrieval_score = some 7;
    }
    ∷ []

hits_fused :
    reciprocal_rank_fusion test_numbers (two_hits ∷ (hit_of "b" 9 1 ∷ []) ∷ []) 60 none
    ≡ ok fused_hits
unfolding reciprocal_rank_fusion
hits_fused = refl

reciprocal_rank_fusion-IsFusion_example :
    IsFusion test_numbers 60 (two_hits ∷ (hit_of "b" 9 1 ∷ []) ∷ []) none fused_hits
reciprocal_rank_fusion-IsFusion_example =
    reciprocal_rank_fusion-IsFusion test_numbers 60 (two_hits ∷ (hit_of "b" 9 1 ∷ []) ∷ []) none
      fused_hits hits_fused
