-- ===== src/Reason/Gate/Selection/Grouping.antt =====
-- The chunks of a document are among those that were given.
use fin_docs_analysis_evals.Common.{
  string_eq, nat_eq, String, ◌≡◌, sym, subst, ◌⊎◌, inl, inr, Bool, true, false, ◌==◌, Option, none,
  some, List, [], ◌∷◌, ◌++◌, Has, ok, if◌then◌else◌, bind-ok, ok_injective,
}
use fin_docs_analysis_evals.Common.Dict.{lookup}
use fin_docs_analysis_evals.Ingest.Schema.{Chunk}
use fin_docs_analysis_evals.Reason.Exec.{}
use fin_docs_analysis_evals.Reason.Gate.Profile.{sole}
use fin_docs_analysis_evals.Reason.Gate.Basis.{documents_of}
use fin_docs_analysis_evals.Reason.Gate.Sources.{
  Gate, Documents, add_chunk, add_owned, group_documents, chunks_of,
}

Has-append : {A : Type 0} (xs : List A) (x a : A) → Has a (xs ++ (x ∷ [])) → Has a xs ⊎ (x ≡ a)
Has-append [] x a (inl e) = inr e
Has-append [] x a (inr h) = absurd h
Has-append (y ∷ xs) x a (inl e) = inl (inl e)
Has-append (y ∷ xs) x a (inr h) = moved (Has-append xs x a h)
  where
    moved : Has a xs ⊎ (x ≡ a) → ((y ≡ a) ⊎ Has a xs) ⊎ (x ≡ a)
    moved (inl k) = inl (inr k)
    moved (inr k) = inr k

module _ (g : Gate) where
  -- The chunks under a name after a chunk was added.
  Has-add_chunk :
      (d e : String) (c x : Chunk) (docs : Documents)
      → Has c (chunks_of g (lookup d (add_chunk e x docs)))
      → Has c (chunks_of g (lookup d docs)) ⊎ (x ≡ c)
  Has-add_chunk d e c x [] = by_name (e == d)
    where
      by_name : (b : Bool) → Has c (chunks_of g (if b then some (x ∷ []) else none)) → ⊥ ⊎ (x ≡ c)
      by_name true (inl k) = inr k
      by_name true (inr k) = absurd k
      by_name false k = absurd k
  Has-add_chunk d e c x ((f, cs) ∷ docs) = by_owner (f == e) (Has-add_chunk d e c x docs)
    where
      here :
          (b : Bool)
          → Has c (chunks_of g (if b then some (cs ++ (x ∷ [])) else lookup d docs))
          → Has c (chunks_of g (if b then some cs else lookup d docs)) ⊎ (x ≡ c)
      here true h = Has-append cs x c h
      here false h = inl h

      later :
          (b : Bool)
          → (Has c (chunks_of g (lookup d (add_chunk e x docs)))
              → Has c (chunks_of g (lookup d docs)) ⊎ (x ≡ c))
          → Has c (chunks_of g (if b then some cs else lookup d (add_chunk e x docs)))
          → Has c (chunks_of g (if b then some cs else lookup d docs)) ⊎ (x ≡ c)
      later true k h = inl h
      later false k h = k h

      by_owner :
          (b : Bool)
          → (Has c (chunks_of g (lookup d (add_chunk e x docs)))
              → Has c (chunks_of g (lookup d docs)) ⊎ (x ≡ c))
          → Has c (
              chunks_of g
                (lookup d (if b then (f, cs ++ (x ∷ [])) ∷ docs else (f, cs) ∷ add_chunk e x docs)))
          → Has c (chunks_of g (lookup d ((f, cs) ∷ docs))) ⊎ (x ≡ c)
      by_owner true k h = here (f == d) h
      by_owner false k h = later (f == d) k h

  -- The chunks of a document are among those that were grouped.
  pub Has-group_documents :
      (cs : List Chunk) (start docs : Documents) (d : String) (c : Chunk)
      → group_documents cs start ≡ ok docs
      → Has c (chunks_of g (lookup d docs))
      → Has c (chunks_of g (lookup d start)) ⊎ Has c cs
  unfolding group_documents
  Has-group_documents [] start docs d c h k =
      inl (subst (λ m. Has c (chunks_of g (lookup d m))) (sym (ok_injective start docs h)) k)
  Has-group_documents (x ∷ cs) start docs d c h k =
      let (next, h1, k1) = bind-ok (add_owned (sole (documents_of x)) x start) _ docs h in
      after next (sole (documents_of x)) h1 (Has-group_documents cs next docs d c k1 k)
    where
      placed :
          Has c (chunks_of g (lookup d start)) ⊎ (x ≡ c)
          → Has c (chunks_of g (lookup d start)) ⊎ ((x ≡ c) ⊎ Has c cs)
      placed (inl i) = inl i
      placed (inr i) = inr (inl i)

      after :
          (next : Documents) (o : Option String)
          → add_owned o x start ≡ ok next
          → Has c (chunks_of g (lookup d next)) ⊎ Has c cs
          → Has c (chunks_of g (lookup d start)) ⊎ ((x ≡ c) ⊎ Has c cs)
      after next none e i = cc
      after next (some owner) e (inr i) = inr (inr i)
      after next (some owner) e (inl i) = placed (
          Has-add_chunk d owner c x start
            (subst (λ m. Has c (chunks_of g (lookup d m))) (sym (ok_injective _ next e)) i))
