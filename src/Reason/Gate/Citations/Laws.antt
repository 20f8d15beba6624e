-- ===== src/Reason/Gate/Citations/Laws.antt =====
-- A citation is grounded in the closest of the allowed ones.
use fin_docs_analysis_evals.Common.{
  string_eq, nat_eq, ◌≡◌, refl, subst, ◌⊎◌, inl, inr, Bool, true, false, Option, none, some, List,
  [], ◌∷◌, keep, Has, if◌then◌else◌,
}
use fin_docs_analysis_evals.Reason.Figure.{BoundingBox, SourceCitation}
use fin_docs_analysis_evals.Reason.Gate.Citations.{
  fraction_lt, bbox_iou, on_same_page, best_match, minimum_iou, accepted_match, best_of,
  ground_citation_within, ground_citation,
}

-- An entry that a filter keeps is an entry of the list, and passes the test.
pub Has-keep :
    {A : Type 0} (p : A → Bool) (xs : List A) (a : A) → Has a (keep p xs) → Has a xs × (p a ≡ true)
Has-keep p [] a h = absurd h
Has-keep {A} p (x ∷ xs) a h = by_test (p x) refl (Has-keep p xs a) h
  where
    by_test :
        (b : Bool)
        → p x ≡ b
        → (Has a (keep p xs) → Has a xs × (p a ≡ true))
        → Has a (if b then x ∷ keep p xs else keep p xs)
        → ((x ≡ a) ⊎ Has a xs) × (p a ≡ true)
    by_test true e rest (inl q) = (inl q, subst (λ y. p y ≡ true) q e)
    by_test true e rest (inr k) = let (there, holds) = rest k in (inr there, holds)
    by_test false e rest k = let (there, holds) = rest k in (inr there, holds)

Has-best_match :
    (box : BoundingBox) (best : SourceCitation) (cs : List SourceCitation)
    → Has (best_match box best cs) (best ∷ cs)
unfolding best_match
Has-best_match box best [] = inl refl
Has-best_match box best (c ∷ cs) =
    by_test (fraction_lt (bbox_iou box best.bbox) (bbox_iou box c.bbox))
      (Has-best_match box best cs) (Has-best_match box c cs)
  where
    by_test :
        (b : Bool)
        → Has (best_match box best cs) (best ∷ cs)
        → Has (best_match box c cs) (c ∷ cs)
        → Has (best_match box (if b then c else best) cs) (best ∷ (c ∷ cs))
    by_test true old new = inr new
    by_test false (inl q) new = inl q
    by_test false (inr h) new = inr (inr h)

-- What a grounded citation is.
pub record IsGrounded (citation : SourceCitation) (candidates : List SourceCitation)
    (best : SourceCitation) : Type 0 where
  pub allowed : Has best candidates
  pub same_document_page : on_same_page citation best ≡ true
  pub overlaps : fraction_lt (bbox_iou citation.bbox best.bbox) minimum_iou ≡ false

-- A citation that is grounded is one of the candidates, on the page of the given one, and overlaps
-- its box by 95 percent at least.
pub ground_citation-IsGrounded :
    (citation : SourceCitation) (candidates : List SourceCitation) (best : SourceCitation)
    → ground_citation citation candidates ≡ some best
    → IsGrounded citation candidates best
unfolding ground_citation ground_citation_within accepted_match
ground_citation-IsGrounded citation candidates best e =
    of_kept (keep (on_same_page citation) candidates)
      (λ b. Has-keep (on_same_page citation) candidates b) e
  where
    of_test :
        (c : SourceCitation) (b : Bool)
        → fraction_lt (bbox_iou citation.bbox c.bbox) minimum_iou ≡ b
        → Has c candidates × (on_same_page citation c ≡ true)
        → (if b then none else some c) ≡ some best
        → IsGrounded citation candidates best
    of_test c true close known q = cc
    of_test c false close known q =
        subst (IsGrounded citation candidates) (injective q)
          (record { allowed = known.0; same_document_page = known.1; overlaps = close })
      where
        injective : ◌≡◌ {A = Option SourceCitation} (some c) (some best) → c ≡ best
        injective q = cc

    of_kept :
        (kept : List SourceCitation)
        → ((b : SourceCitation) → Has b kept → Has b candidates × (on_same_page citation b ≡ true))
        → best_of minimum_iou citation kept ≡ some best
        → IsGrounded citation candidates best
    of_kept [] known q = cc
    of_kept (c ∷ cs) known q =
        of_test (best_match citation.bbox c cs) _ refl
          (known (best_match citation.bbox c cs) (Has-best_match citation.bbox c cs)) q
