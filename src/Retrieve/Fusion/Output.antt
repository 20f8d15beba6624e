-- ===== src/Retrieve/Fusion/Output.antt =====
-- What a fusion gives: every chunk of the lists once, with the sum over its places.
use fin_docs_analysis_evals.Common.{
  string_eq, nat_eq, ℕ, ◌+◌, String, leb, ◌≡◌, refl, sym, ap, subst, ◌∙◌, true, Option, none, some,
  List, [], ◌∷◌, ◌==◌, All, All-take, any, sorted, All-sorted, any-sorted, apart, apart-sorted, ok,
  bind-raise_if, ok_injective, arith,
}
use fin_docs_analysis_evals.Common.Dict.{Dict, lookup, All-entries}
use fin_docs_analysis_evals.Ingest.Schema.{id_of}
use fin_docs_analysis_evals.Retrieve.Pipeline.{RetrievalHit}
use fin_docs_analysis_evals.Retrieve.Pipeline.Ranks.{HasRanks}
use fin_docs_analysis_evals.Retrieve.Fusion.{
  k_not_positive, limit_not_positive, Fused, Numbers, fuse_lists, fused_before, hits_from, within,
  bad_limit, reciprocal_rank_fusion,
}
use fin_docs_analysis_evals.Retrieve.Fusion.Laws.{places, view, view-fuse_lists}
use fin_docs_analysis_evals.Retrieve.Fusion.Filed.{
  same_chunk_id, same_fused, IsFiled, fuse_lists-IsFiled, values, apart-values, apart-take,
  apart-hits_from, hits_from-HasRanks, any-hits_from, any-values,
}

module _ {Score : Type 0} (numbers : Numbers Score) where
  module _ (k : ℕ) (lists : List (List (RetrievalHit Score))) where
    -- The fused value carries the first hit of its chunk and the sum over the chunk's places.
    abbrev IsSummed : Fused Score → Type 0
    IsSummed f = places numbers k (id_of f.hit.chunk) lists none ≡ some (f.hit, f.summed)

    -- A hit of the result stands for all the places of its chunk.
    pub record IsPlaced (h : RetrievalHit Score) : Type 0 where
      pub first : RetrievalHit Score
      pub summed : places numbers k (id_of h.chunk) lists none ≡ some (first, h.score)
      pub same_chunk : h.chunk ≡ first.chunk

    All-values :
        (d es : Dict String (Fused Score))
        → ((id : String) → view numbers (lookup id d) ≡ places numbers k id lists none)
        → All (λ e. id_of e.1.hit.chunk ≡ e.0) es
        → All (λ e. lookup e.0 d ≡ some e.1) es
        → All IsSummed (values numbers es)
    All-values d [] views own found = tt
    All-values d (e ∷ es) views own found = (
      ap (λ id. places numbers k id lists none) own.0
          ∙ (sym (views e.0) ∙ ap (view numbers) found.0),
      All-values d es views own.1 found.1,
    )

    All-hits_from :
        (n : ℕ) (fs : List (Fused Score)) → All IsSummed fs → All IsPlaced (hits_from numbers n fs)
    All-hits_from n [] h = tt
    All-hits_from n (f ∷ fs) h =
        (record { first = f.hit; summed = h.0; same_chunk = refl }, All-hits_from (n + 1) fs h.1)

    pub record IsFusion (limit : Option ℕ) (hits : List (RetrievalHit Score)) : Type 0 where
      pub ranks : HasRanks 1 hits
      pub once : apart same_chunk_id hits ≡ true
      pub placed : All IsPlaced hits
      pub complete :
          limit ≡ none
          → (id : String) (p : RetrievalHit Score × Score) → places numbers k id lists none ≡ some p
          → any (λ h. id_of h.chunk == id) hits ≡ true

    All-within :
        (limit : Option ℕ) (fs : List (Fused Score))
        → All IsSummed fs
        → All IsSummed (within numbers limit fs)
    All-within none fs h = h
    All-within (some n) fs h = All-take IsSummed n fs h

    apart-within :
        (limit : Option ℕ) (fs : List (Fused Score))
        → apart same_fused fs ≡ true
        → apart same_fused (within numbers limit fs) ≡ true
    apart-within none fs h = h
    apart-within (some n) fs h = apart-take numbers n fs h

    same_fused_symmetric : (a b : Fused Score) → same_fused a b ≡ same_fused b a
    unfolding same_fused
    same_fused_symmetric a b = ground (
      arith,
      string_eq.same_iff (id_of a.hit.chunk) (id_of b.hit.chunk),
      string_eq.same_iff (id_of b.hit.chunk) (id_of a.hit.chunk),
    )

    abbrev fused_values : List (Fused Score)
    fused_values = values numbers (fuse_lists numbers k lists ([], 0)).0

    filed : IsFiled numbers (fuse_lists numbers k lists ([], 0)).0
    filed = fuse_lists-IsFiled numbers k lists ([], 0) (record { keys = tt; own = tt })

    seen_as :
        (o : Option (Fused Score)) (p : RetrievalHit Score × Score)
        → view numbers o ≡ some p
        → (f : Fused Score) × (o ≡ some f)
    seen_as none p h = cc
    seen_as (some f) p h = (f, refl)

    fused-IsFusion :
        (limit : Option ℕ)
        → IsFusion limit (
            hits_from numbers 1 (within numbers limit (sorted (fused_before numbers) fused_values)))
    fused-IsFusion limit =
        let d = (fuse_lists numbers k lists ([], 0)).0 in
        let views = λ (id : String). view-fuse_lists numbers k id lists ([], 0) in
        record {
          ranks = hits_from-HasRanks numbers 1 _;
          once =
              apart-hits_from numbers 1 _
              ∙ apart-within limit _ (
                  apart-sorted same_fused (fused_before numbers) same_fused_symmetric fused_values
                  ∙ apart-values numbers d filed.keys filed.own);
          placed = All-hits_from 1 _ (
              All-within limit _ (
                All-sorted (fused_before numbers) IsSummed fused_values
                  (All-values d d views filed.own (All-entries d filed.keys))));
          complete = λ q id p h.
              let (f, found) = seen_as (lookup id d) p (views id ∙ h) in
              ap
                (λ l.
                  any (λ h. id_of h.chunk == id)
                    (hits_from numbers 1
                      (within numbers l (sorted (fused_before numbers) fused_values))))
                q
              ∙ (any-hits_from numbers id 1 _
                  ∙ (any-sorted (fused_before numbers) (λ f. id_of f.hit.chunk == id) fused_values
                      ∙ any-values numbers id d f filed.own found));
        }

    -- A fusion that returns ranks its hits from one on and has no chunk twice; each hit carries the
    -- chunk of its first place and the sum of the chunk's reciprocal ranks over all the lists, and
    -- without a limit no chunk is lost.
    pub reciprocal_rank_fusion-IsFusion :
        (limit : Option ℕ) (hits : List (RetrievalHit Score))
        → reciprocal_rank_fusion numbers lists k limit ≡ ok hits
        → IsFusion limit hits
    unfolding reciprocal_rank_fusion
    reciprocal_rank_fusion-IsFusion limit hits h =
        let (h1, k1) = bind-raise_if (leb k 0) k_not_positive _ hits h in
        let (h2, k2) = bind-raise_if (bad_limit numbers limit) limit_not_positive _ hits k1 in
        subst (IsFusion limit) (ok_injective _ hits k2) (fused-IsFusion limit)
