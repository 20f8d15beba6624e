-- ===== src/Reason/Gate/Citations.antt =====
-- Citations of src/findociq/reason/schema.py. Coordinates are thousandths of a point, and the overlap
-- of two boxes is an exact fraction.
pub mod Laws
use fin_docs_analysis_evals.Common.{
  string_eq, nat_eq, ℕ, ◌+◌, ◌-◌, ◌*◌, min, max, ltb, String, Bool, ◌&&◌, ◌==◌, Option, none, some,
  List, [], ◌∷◌, keep, if◌then◌else◌,
}
use fin_docs_analysis_evals.Reason.Figure.{BoundingBox, SourceCitation}

-- A numerator and a denominator.
abbrev pub Fraction : Type 0
Fraction = ℕ × ℕ

abbrev pub fraction_lt : Fraction → Fraction → Bool
fraction_lt (a, b) (c, d) = ltb (a * d) (c * b)

-- `max(0.0, y - x)` of a side
abbrev pub area : BoundingBox → ℕ
area b = (b.x1 - b.x0) * (b.y1 - b.y0)

abbrev pub intersection : BoundingBox → BoundingBox → ℕ
intersection a b = (min a.x1 b.x1 - max a.x0 b.x0) * (min a.y1 b.y1 - max a.y0 b.y0)

abbrev pub union : BoundingBox → BoundingBox → ℕ
union a b = area a + area b - intersection a b

-- `_bbox_iou`
unfoldable pub bbox_iou : BoundingBox → BoundingBox → Fraction
bbox_iou a b = if union a b == 0 then (0, 1) else (intersection a b, union a b)

abbrev pub on_same_page : SourceCitation → SourceCitation → Bool
on_same_page c d = d.document_id == c.document_id && d.page_number == c.page_number

-- `max(…, key=…)`: the first of the greatest
unfoldable pub best_match : BoundingBox → SourceCitation → List SourceCitation → SourceCitation
unfolding bbox_iou
best_match box best [] = best
best_match box best (c ∷ cs) =
    best_match box (if fraction_lt (bbox_iou box best.bbox) (bbox_iou box c.bbox) then c else best)
      cs

-- `minimum_iou = 0.95`
abbrev pub minimum_iou : Fraction
minimum_iou = (95, 100)

unfoldable pub accepted_match : Fraction → SourceCitation → SourceCitation → Option SourceCitation
unfolding bbox_iou
accepted_match minimum citation best =
    if fraction_lt (bbox_iou citation.bbox best.bbox) minimum then none else some best

abbrev pub best_of : Fraction → SourceCitation → List SourceCitation → Option SourceCitation
best_of minimum citation [] = none
best_of minimum citation (c ∷ cs) = accepted_match minimum citation (best_match citation.bbox c cs)

-- `ground_citation` with a `minimum_iou`; `none` is its `ValueError`
unfoldable pub ground_citation_within :
    Fraction → SourceCitation → List SourceCitation → Option SourceCitation
unfolding best_match accepted_match
ground_citation_within minimum citation candidates =
    best_of minimum citation (keep (on_same_page citation) candidates)

-- `ground_citation`
unfoldable pub ground_citation : SourceCitation → List SourceCitation → Option SourceCitation
unfolding ground_citation_within
ground_citation citation candidates = ground_citation_within minimum_iou citation candidates

abbrev pub same_citation : SourceCitation → SourceCitation → Bool
same_citation c d =
    c.document_id == d.document_id
    && c.page_number == d.page_number
    && c.bbox.x0 == d.bbox.x0
    && c.bbox.y0 == d.bbox.y0
    && c.bbox.x1 == d.bbox.x1
    && c.bbox.y1 == d.bbox.y1
