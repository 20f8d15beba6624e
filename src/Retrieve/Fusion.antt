-- ===== src/Retrieve/Fusion.antt =====
-- src/findociq/retrieve/hybrid.py: reciprocal rank fusion. The floating point numbers of the scores are
-- parameters, with the operations that the code uses.
pub mod Laws
pub mod Filed
pub mod Output
use fin_docs_analysis_evals.Common.{
  string_eq, nat_eq, ℕ, ◌+◌, ltb, leb, String, Bool, true, false, not, ◌&&◌, ◌||◌, Option, none,
  some, List, [], ◌∷◌, map, take, sorted, Result, ok, err, ◌>>=◌, ◌>>◌, raise_if, if◌then◌else◌,
}
use fin_docs_analysis_evals.Common.Dict.{Dict, lookup, insert}
use fin_docs_analysis_evals.Ingest.Schema.{id_of}
use fin_docs_analysis_evals.Retrieve.Pipeline.{RetrievalHit}

pub data FusionError : Type 0 where
  k_not_positive limit_not_positive : FusionError

-- What is kept for a chunk: its first hit, its score and when it was first seen.
pub record Fused (Score : Type 0) : Type 0 where
  pub hit : RetrievalHit Score
  pub summed : Score
  pub seen : ℕ

pub record Numbers (Score : Type 0) : Type 0 where
  -- `1.0 / n`
  pub reciprocal : ℕ → Score
  pub plus : Score → Score → Score
  -- `a < b`
  pub less : Score → Score → Bool

module _ {Score : Type 0} (numbers : Numbers Score) where
  -- `fused` and `first_seen`
  abbrev pub Fusion : Type 0
  Fusion = Dict String (Fused Score) × ℕ

  abbrev pub merged : RetrievalHit Score → Score → Fusion → Option (Fused Score) → Fusion
  merged h contribution (fused, first_seen) none = (
    insert (id_of h.chunk) (record { hit = h; summed = contribution; seen = first_seen }) fused,
    first_seen + 1,
  )
  merged h contribution (fused, first_seen) (some old) = (
    insert (id_of h.chunk)
        (record { hit = old.hit; summed = numbers.plus old.summed contribution; seen = old.seen })
        fused,
    first_seen,
  )

  abbrev pub fuse_hit : ℕ → ℕ → RetrievalHit Score → Fusion → Fusion
  fuse_hit k rank h f = merged h (numbers.reciprocal (k + rank)) f (lookup (id_of h.chunk) f.0)

  -- The loop over one list, from a rank on.
  unfoldable pub fuse_list : ℕ → ℕ → List (RetrievalHit Score) → Fusion → Fusion
  fuse_list k rank [] f = f
  fuse_list k rank (h ∷ hits) f = fuse_list k (rank + 1) hits (fuse_hit k rank h f)

  unfoldable pub fuse_lists : ℕ → List (List (RetrievalHit Score)) → Fusion → Fusion
  unfolding fuse_list
  fuse_lists k [] f = f
  fuse_lists k (hits ∷ lists) f = fuse_lists k lists (fuse_list k 1 hits f)

  -- `key=lambda value: (-value[1], value[2])`
  abbrev pub fused_before : Fused Score → Fused Score → Bool
  fused_before a b =
      numbers.less b.summed a.summed || (not (numbers.less a.summed b.summed) && ltb a.seen b.seen)

  abbrev pub or_score : Option Score → Score → Score
  or_score none s = s
  or_score (some t) s = t

  abbrev pub hits_from : ℕ → List (Fused Score) → List (RetrievalHit Score)
  hits_from n [] = []
  hits_from n (f ∷ fs) =
      record {
        chunk = f.hit.chunk;
        score = f.summed;
        rank = n;
        method = "hybrid_rrf";
        retrieval_score = some (or_score f.hit.retrieval_score f.hit.score);
      }
      ∷ hits_from (n + 1) fs

  abbrev pub within : {A : Type 0} → Option ℕ → List A → List A
  within none xs = xs
  within (some n) xs = take n xs

  abbrev pub bad_limit : Option ℕ → Bool
  bad_limit none = false
  bad_limit (some n) = leb n 0

  -- `reciprocal_rank_fusion`
  unfoldable pub reciprocal_rank_fusion :
      List (List (RetrievalHit Score))
      → ℕ
      → Option ℕ
      → Result FusionError (List (RetrievalHit Score))
  unfolding fuse_lists sorted
  reciprocal_rank_fusion lists k limit = do
    raise_if (leb k 0) k_not_positive
    raise_if (bad_limit limit) limit_not_positive
    ok (
        hits_from 1
          (within limit (sorted fused_before (map (λ e. e.1) (fuse_lists k lists ([], 0)).0))))
