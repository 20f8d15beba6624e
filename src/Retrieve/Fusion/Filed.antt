-- ===== src/Retrieve/Fusion/Filed.antt =====
-- The values of a fusion: each chunk is filed under its own id, once.
use fin_docs_analysis_evals.Common.{
  string_eq, nat_eq, ℕ, ◌+◌, suc, zero, String, ◌≡◌, refl, sym, subst, Bool, true, not, ◌&&◌,
  Option, none, some, List, [], ◌∷◌, ◌==◌, All, map, take, all, any, apart, arith,
}
use fin_docs_analysis_evals.Common.Dict.{
  Dict, lookup, IsDict, insert-IsDict, All-lookup, All-insert,
}
use fin_docs_analysis_evals.Ingest.Schema.{id_of}
use fin_docs_analysis_evals.Retrieve.Pipeline.{RetrievalHit}
use fin_docs_analysis_evals.Retrieve.Pipeline.Ranks.{HasRanks}
use fin_docs_analysis_evals.Retrieve.Fusion.{
  Fused, Numbers, Fusion, merged, fuse_hit, fuse_list, fuse_lists, hits_from,
}

module _ {Score : Type 0} where
  -- Two hits of one chunk.
  abbrev pub same_chunk_id : RetrievalHit Score → RetrievalHit Score → Bool
  same_chunk_id g h = id_of g.chunk == id_of h.chunk

  unfoldable pub same_fused : Fused Score → Fused Score → Bool
  same_fused a b = id_of a.hit.chunk == id_of b.hit.chunk

module _ {Score : Type 0} (numbers : Numbers Score) where
  -- Each chunk is filed under its own id, once.
  pub record IsFiled (d : Dict String (Fused Score)) : Type 0 where
    pub keys : IsDict d
    pub own : All (λ e. id_of e.1.hit.chunk ≡ e.0) d

  merged-IsFiled :
      (h : RetrievalHit Score) (c : Score) (f : Fusion numbers) (o : Option (Fused Score))
      → lookup (id_of h.chunk) f.0 ≡ o
      → IsFiled f.0
      → IsFiled (merged numbers h c f o).0
  merged-IsFiled h c (fused, n) none e i = record {
    keys = insert-IsDict (id_of h.chunk) _ fused i.keys;
    own = All-insert (λ x. id_of x.1.hit.chunk ≡ x.0) (id_of h.chunk) _ fused refl i.own;
  }
  merged-IsFiled h c (fused, n) (some old) e i = record {
    keys = insert-IsDict (id_of h.chunk) _ fused i.keys;
    own =
        All-insert (λ x. id_of x.1.hit.chunk ≡ x.0) (id_of h.chunk) _ fused
          (All-lookup (λ x. id_of x.1.hit.chunk ≡ x.0) (id_of h.chunk) fused old i.own e) i.own;
  }

  fuse_list-IsFiled :
      (k rank : ℕ) (hits : List (RetrievalHit Score)) (f : Fusion numbers)
      → IsFiled f.0
      → IsFiled (fuse_list numbers k rank hits f).0
  unfolding fuse_list
  fuse_list-IsFiled k rank [] f i = i
  fuse_list-IsFiled k rank (h ∷ hits) f i =
      fuse_list-IsFiled k (rank + 1) hits (fuse_hit numbers k rank h f)
        (merged-IsFiled h (numbers.reciprocal (k + rank)) f (lookup (id_of h.chunk) f.0) refl i)

  pub fuse_lists-IsFiled :
      (k : ℕ) (lists : List (List (RetrievalHit Score))) (f : Fusion numbers)
      → IsFiled f.0
      → IsFiled (fuse_lists numbers k lists f).0
  unfolding fuse_lists
  fuse_lists-IsFiled k [] f i = i
  fuse_lists-IsFiled k (hits ∷ lists) f i =
      fuse_lists-IsFiled k lists (fuse_list numbers k 1 hits f) (fuse_list-IsFiled k 1 hits f i)

  -- The values of a dict in which each is filed under its own id.
  abbrev pub values : Dict String (Fused Score) → List (Fused Score)
  values d = map (λ e. e.1) d

  all-other :
      (a : Fused Score) (d : Dict String (Fused Score))
      → lookup (id_of a.hit.chunk) d ≡ none
      → All (λ e. id_of e.1.hit.chunk ≡ e.0) d
      → all (λ b. not (same_fused a b)) (values d) ≡ true
  unfolding same_fused
  all-other a [] h own = refl
  all-other a ((k, v) ∷ d) h own = ground (
    arith,
    string_eq.same_iff k (id_of a.hit.chunk),
    own.0,
    string_eq.same_iff (id_of a.hit.chunk) (id_of v.hit.chunk),
    all-other a d,
  )

  pub apart-values :
      (d : Dict String (Fused Score))
      → IsDict d
      → All (λ e. id_of e.1.hit.chunk ≡ e.0) d
      → apart same_fused (values d) ≡ true
  apart-values [] h own = refl
  apart-values ((k, v) ∷ d) h own = ground (
    arith,
    all-other v d (subst (λ j. lookup j d ≡ none) (sym own.0) h.0) own.1,
    apart-values d h.1 own.1,
  )

  all-take :
      {A : Type 0} (p : A → Bool) (n : ℕ) (xs : List A) → all p xs ≡ true → all p (take n xs) ≡ true
  all-take p zero xs h = refl
  all-take p (suc n) [] h = refl
  all-take p (suc n) (x ∷ xs) h = ground (arith, all-take p n xs)

  pub apart-take :
      (n : ℕ) (xs : List (Fused Score))
      → apart same_fused xs ≡ true
      → apart same_fused (take n xs) ≡ true
  apart-take zero xs h = refl
  apart-take (suc n) [] h = refl
  apart-take (suc n) (x ∷ xs) h =
      ground (arith, apart-take n xs, all-take (λ y. not (same_fused x y)) n xs)

  all-hits_from :
      (a : Fused Score) (n : ℕ) (fs : List (Fused Score))
      → all (λ h. not (id_of a.hit.chunk == id_of h.chunk)) (hits_from numbers n fs)
        ≡ all (λ b. not (same_fused a b)) fs
  unfolding same_fused
  all-hits_from a n [] = refl
  all-hits_from a n (f ∷ fs) = ground (arith, all-hits_from a (n + 1) fs)

  pub apart-hits_from :
      (n : ℕ) (fs : List (Fused Score))
      → apart same_chunk_id (hits_from numbers n fs) ≡ apart same_fused fs
  apart-hits_from n [] = refl
  apart-hits_from n (f ∷ fs) = both (all-hits_from f (n + 1) fs) (apart-hits_from (n + 1) fs)
    where
      both : {a b c d : Bool} → a ≡ c → b ≡ d → (a && b) ≡ (c && d)
      both p q = cc

  pub hits_from-HasRanks : (n : ℕ) (fs : List (Fused Score)) → HasRanks n (hits_from numbers n fs)
  hits_from-HasRanks n [] = tt
  hits_from-HasRanks n (f ∷ fs) = (refl, hits_from-HasRanks (n + 1) fs)

  pub any-hits_from :
      (id : String) (n : ℕ) (fs : List (Fused Score))
      → any (λ h. id_of h.chunk == id) (hits_from numbers n fs)
        ≡ any (λ f. id_of f.hit.chunk == id) fs
  any-hits_from id n [] = refl
  any-hits_from id n (f ∷ fs) = ground (arith, any-hits_from id (n + 1) fs)

  pub any-values :
      (id : String) (d : Dict String (Fused Score)) (f : Fused Score)
      → All (λ e. id_of e.1.hit.chunk ≡ e.0) d
      → lookup id d ≡ some f
      → any (λ a. id_of a.hit.chunk == id) (values d) ≡ true
  any-values id [] f own h = cc
  any-values id ((k, v) ∷ d) f own h = ground (
    arith,
    string_eq.same_iff k id,
    string_eq.same_iff (id_of v.hit.chunk) id,
    own.0,
    any-values id d f own.1,
  )
