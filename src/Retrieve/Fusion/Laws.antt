-- ===== src/Retrieve/Fusion/Laws.antt =====
-- The score of a chunk is the sum over its places in the lists.
use fin_docs_analysis_evals.Common.{
  string_eq, nat_eq, ℕ, ◌+◌, String, ◌≡◌, refl, sym, ap, ◌∙◌, Bool, true, false, Option, none, some,
  List, [], ◌∷◌, ◌==◌, if◌then◌else◌,
}
use fin_docs_analysis_evals.Common.Dict.{lookup, lookup-insert}
use fin_docs_analysis_evals.Ingest.Schema.{id_of}
use fin_docs_analysis_evals.Retrieve.Pipeline.{RetrievalHit}
use fin_docs_analysis_evals.Retrieve.Fusion.{
  Fused, Numbers, Fusion, merged, fuse_hit, fuse_list, fuse_lists,
}

module _ {Score : Type 0} (numbers : Numbers Score) where
  -- The first hit of a chunk and the sum so far, after one more contribution.
  abbrev pub add_place :
      RetrievalHit Score × Score
      → Option (RetrievalHit Score × Score)
      → Option (RetrievalHit Score × Score)
  add_place (h, c) none = some (h, c)
  add_place (h, c) (some (g, s)) = some (g, numbers.plus s c)

  abbrev pub add_if :
      Bool
      → RetrievalHit Score × Score
      → Option (RetrievalHit Score × Score)
      → Option (RetrievalHit Score × Score)
  add_if b p o = if b then add_place p o else o

  -- The reference: the places of one chunk in a list, and in all the lists, are summed in order.
  abbrev pub places_in :
      ℕ
      → String
      → ℕ
      → List (RetrievalHit Score)
      → Option (RetrievalHit Score × Score)
      → Option (RetrievalHit Score × Score)
  places_in k id rank [] o = o
  places_in k id rank (h ∷ hits) o =
      places_in k id (rank + 1) hits
        (add_if (id_of h.chunk == id) (h, numbers.reciprocal (k + rank)) o)

  abbrev pub places :
      ℕ
      → String
      → List (List (RetrievalHit Score))
      → Option (RetrievalHit Score × Score)
      → Option (RetrievalHit Score × Score)
  places k id [] o = o
  places k id (hits ∷ lists) o = places k id lists (places_in k id 1 hits o)

  abbrev pub view : Option (Fused Score) → Option (RetrievalHit Score × Score)
  view none = none
  view (some f) = some (f.hit, f.summed)

  view-if :
      (b : Bool) (f : Fused Score) (o : Option (Fused Score))
      → view (if b then some f else o) ≡ (if b then some (f.hit, f.summed) else view o)
  view-if true f o = refl
  view-if false f o = refl

  view-merged :
      (id : String) (h : RetrievalHit Score) (c : Score) (f : Fusion numbers)
      (o : Option (Fused Score))
      → lookup (id_of h.chunk) f.0 ≡ o
      → view (lookup id (merged numbers h c f o).0)
        ≡ add_if (id_of h.chunk == id) (h, c) (view (lookup id f.0))
  view-merged id h c (fused, n) none e =
      rw (lookup-insert (id_of h.chunk) id (record { hit = h; summed = c; seen = n }) fused)
        (by_id (id_of h.chunk == id) refl)
    where
      by_id :
          (b : Bool)
          → (id_of h.chunk == id) ≡ b
          → view (if b then some (record { hit = h; summed = c; seen = n }) else lookup id fused)
            ≡ add_if b (h, c) (view (lookup id fused))
      by_id true q =
          ap (λ o. add_place (h, c) (view o))
            (sym e ∙ ap (λ k. lookup k fused) ((string_eq.same_iff (id_of h.chunk) id).0 q))
      by_id false q = refl
  view-merged id h c (fused, n) (some old) e =
      rw
        (lookup-insert (id_of h.chunk) id
          (record { hit = old.hit; summed = numbers.plus old.summed c; seen = old.seen }) fused)
        (by_id (id_of h.chunk == id) refl)
    where
      by_id :
          (b : Bool)
          → (id_of h.chunk == id) ≡ b
          → view (
              if b
              then some
                  (record { hit = old.hit; summed = numbers.plus old.summed c; seen = old.seen })
              else lookup id fused)
            ≡ add_if b (h, c) (view (lookup id fused))
      by_id true q =
          ap (λ o. add_place (h, c) (view o))
            (sym e ∙ ap (λ k. lookup k fused) ((string_eq.same_iff (id_of h.chunk) id).0 q))
      by_id false q = refl

  view-fuse_list :
      (k : ℕ) (id : String) (rank : ℕ) (hits : List (RetrievalHit Score)) (f : Fusion numbers)
      → view (lookup id (fuse_list numbers k rank hits f).0)
        ≡ places_in k id rank hits (view (lookup id f.0))
  unfolding fuse_list
  view-fuse_list k id rank [] f = refl
  view-fuse_list k id rank (h ∷ hits) f =
      view-fuse_list k id (rank + 1) hits (fuse_hit numbers k rank h f)
      ∙ ap (places_in k id (rank + 1) hits)
          (view-merged id h (numbers.reciprocal (k + rank)) f (lookup (id_of h.chunk) f.0) refl)

  pub view-fuse_lists :
      (k : ℕ) (id : String) (lists : List (List (RetrievalHit Score))) (f : Fusion numbers)
      → view (lookup id (fuse_lists numbers k lists f).0) ≡ places k id lists (view (lookup id f.0))
  unfolding fuse_lists
  view-fuse_lists k id [] f = refl
  view-fuse_lists k id (hits ∷ lists) f =
      view-fuse_lists k id lists (fuse_list numbers k 1 hits f)
      ∙ ap (places k id lists) (view-fuse_list k id 1 hits f)
