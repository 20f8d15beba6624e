-- ===== src/Retrieve/Keys/Laws.antt =====
-- Requests with the same key are the same request.
use fin_docs_analysis_evals.Common.{
  nat_eq, ℕ, ◌≡◌, ◌≢◌, refl, sym, ap, ◌∙◌, true, false, List, [], ◌∷◌, ◌++◌, All, is_empty, arith,
}
use fin_docs_analysis_evals.Ingest.Schema.{Text}
use fin_docs_analysis_evals.Ingest.Chunker.Blocks.{join_with}
use fin_docs_analysis_evals.Retrieve.Keys.{
  Request, or_empty, bar, cache_key, begins, occurs, marker,
}

-- The text does not have the character.
abbrev pub IsFree : ℕ → Text → Type 0
IsFree n s = All (λ c. c ≢ n) s

-- A document's id is not empty, and has neither a NUL nor a bar.
abbrev pub IsPlainId : Text → Type 0
IsPlainId d = (is_empty d ≡ false) × IsFree 0 d × IsFree 124 d

-- An application and the documents are named by ids that the key can hold.
pub record IsPlain (r : Request) : Type 0 where
  pub application_free : IsFree 0 (or_empty r.application)
  pub ids_plain : All IsPlainId r.document_ids

-- What the search is asked for: no application and an empty one are the same.
abbrev pub SameRequest : Request → Request → Type 0
SameRequest r s =
    (r.query ≡ s.query)
    × (or_empty r.application ≡ or_empty s.application)
    × (r.document_ids ≡ s.document_ids)

first_eq : (a b : ℕ) (s t : Text) → ◌≡◌ {A = Text} (a ∷ s) (b ∷ t) → a ≡ b
first_eq a b s t h = cc

rest_eq : (a b : ℕ) (s t : Text) → ◌≡◌ {A = Text} (a ∷ s) (b ∷ t) → s ≡ t
rest_eq a b s t h = cc

not_free : (n : ℕ) (s t u : Text) → IsFree n u → u ≡ s ++ (n ∷ t) → ⊥
not_free n [] t [] free h = cc
not_free n [] t (c ∷ u) free h = free.0 (first_eq c n u t h)
not_free n (d ∷ s) t [] free h = cc
not_free n (d ∷ s) t (c ∷ u) free h = not_free n s t u free.1 (rest_eq c d u (s ++ (n ∷ t)) h)

-- The last separator divides a text in one way.
last_separator :
    (n : ℕ) (s t u v : Text)
    → IsFree n u
    → IsFree n v
    → s ++ (n ∷ u) ≡ t ++ (n ∷ v)
    → (s ≡ t) × (u ≡ v)
last_separator n [] [] u v free_u free_v h = (refl, rest_eq n n u v h)
last_separator n [] (d ∷ t) u v free_u free_v h =
    absurd (not_free n t v u free_u (rest_eq n d u (t ++ (n ∷ v)) h))
last_separator n (c ∷ s) [] u v free_u free_v h =
    absurd (not_free n s u v free_v (sym (rest_eq c n (s ++ (n ∷ u)) v h)))
last_separator n (c ∷ s) (d ∷ t) u v free_u free_v h =
    let (k, l) =
      last_separator n s t u v free_u free_v (rest_eq c d (s ++ (n ∷ u)) (t ++ (n ∷ v)) h) in
    (cc, l)

-- The first separator divides a text in one way.
first_separator :
    (n : ℕ) (s t u v : Text)
    → IsFree n s
    → IsFree n t
    → s ++ (n ∷ u) ≡ t ++ (n ∷ v)
    → (s ≡ t) × (u ≡ v)
first_separator n [] [] u v free_s free_t h = (refl, rest_eq n n u v h)
first_separator n [] (d ∷ t) u v free_s free_t h =
    absurd (free_t.0 (sym (first_eq n d u (t ++ (n ∷ v)) h)))
first_separator n (c ∷ s) [] u v free_s free_t h =
    absurd (free_s.0 (first_eq c n (s ++ (n ∷ u)) v h))
first_separator n (c ∷ s) (d ∷ t) u v free_s free_t h =
    let (k, l) =
      first_separator n s t u v free_s.1 free_t.1 (rest_eq c d (s ++ (n ∷ u)) (t ++ (n ∷ v)) h) in
    (cc, l)

append-IsFree : (n : ℕ) (s t : Text) → IsFree n s → IsFree n t → IsFree n (s ++ t)
append-IsFree n [] t free_s free_t = free_t
append-IsFree n (c ∷ s) t free_s free_t = (free_s.0, append-IsFree n s t free_s.1 free_t)

join_with-IsFree : (ds : List Text) → All IsPlainId ds → IsFree 0 (join_with bar ds)
join_with-IsFree [] h = tt
join_with-IsFree (d ∷ []) h = h.0.1
join_with-IsFree (d ∷ (e ∷ ds)) h =
    append-IsFree 0 d (124 ∷ join_with bar (e ∷ ds)) h.0.1
      ((λ q. omega arith), join_with-IsFree (e ∷ ds) h.1)

join_injective :
    (ds es : List Text)
    → All IsPlainId ds
    → All IsPlainId es
    → join_with bar ds ≡ join_with bar es
    → ds ≡ es
join_injective [] [] h k q = refl
join_injective [] (([]) ∷ es) h k q = cc
join_injective [] ((c ∷ e) ∷ []) h k q = cc
join_injective [] ((c ∷ e) ∷ (f ∷ es)) h k q = cc
join_injective (([]) ∷ ds) [] h k q = cc
join_injective ((c ∷ d) ∷ []) [] h k q = cc
join_injective ((c ∷ d) ∷ (f ∷ ds)) [] h k q = cc
join_injective (d ∷ []) (e ∷ []) h k q = cc
join_injective (d ∷ []) (e ∷ (f ∷ es)) h k q =
    absurd (not_free 124 e (join_with bar (f ∷ es)) d h.0.2 q)
join_injective (d ∷ (f ∷ ds)) (e ∷ []) h k q =
    absurd (not_free 124 d (join_with bar (f ∷ ds)) e k.0.2 (sym q))
join_injective (d ∷ (f ∷ ds)) (e ∷ (g ∷ es)) h k q =
    let (a, b) =
      first_separator 124 d e (join_with bar (f ∷ ds)) (join_with bar (g ∷ es)) h.0.2 k.0.2 q in
    let c = join_injective (f ∷ ds) (g ∷ es) h.1 k.1 b in cc

append_assoc : (s t u : Text) → (s ++ t) ++ u ≡ s ++ (t ++ u)
append_assoc [] t u = refl
append_assoc (c ∷ s) t u = ap (λ v. c ∷ v) (append_assoc s t u)

-- Two requests with plain ids have the same key only when they ask the same of the search: the
-- query may have any characters.
pub cache_key-injective :
    (r s : Request) → IsPlain r → IsPlain s → cache_key r ≡ cache_key s → SameRequest r s
cache_key-injective r s h k q =
    let a = or_empty r.application in
    let b = or_empty s.application in
    let i = join_with bar r.document_ids in
    let j = join_with bar s.document_ids in
    let (front, ids) =
      last_separator 0 (r.query ++ (0 ∷ a)) (s.query ++ (0 ∷ b)) i j
        (join_with-IsFree r.document_ids h.ids_plain) (join_with-IsFree s.document_ids k.ids_plain)
        (append_assoc r.query (0 ∷ a) (0 ∷ i) ∙ (q ∙ sym (append_assoc s.query (0 ∷ b) (0 ∷ j)))) in
    let (same_query, same_application) =
      last_separator 0 r.query s.query a b h.application_free k.application_free front in
    (
      same_query,
      same_application,
      join_injective r.document_ids s.document_ids h.ids_plain k.ids_plain ids,
    )

begins_append : (p s t : Text) → s ≡ p ++ t → begins p s ≡ true
begins_append [] s t h = refl
begins_append (c ∷ p) [] t h = cc
begins_append (c ∷ p) (d ∷ s) t h = ground (
  arith,
  nat_eq.same_iff c d,
  first_eq d c s (p ++ t) h,
  begins_append p s t (rest_eq d c s (p ++ t) h),
)

occurs_first : (p t : Text) → occurs p (p ++ t) ≡ true
occurs_first [] [] = refl
occurs_first [] (c ∷ t) = refl
occurs_first (c ∷ p) t = ground (arith, begins_append (c ∷ p) (c ∷ (p ++ t)) t refl)

occurs_within : (p s t : Text) → occurs p (s ++ (p ++ t)) ≡ true
occurs_within p [] t = occurs_first p t
occurs_within p (c ∷ s) t = ground (arith, occurs_within p s t)

-- The key of a request has the marker of its application.
pub cache_key-marker : (r : Request) → occurs (marker (or_empty r.application)) (cache_key r) ≡ true
cache_key-marker r =
    let a = or_empty r.application in
    let j = join_with bar r.document_ids in
    ap (λ t. occurs (marker a) (r.query ++ (0 ∷ t))) (sym (append_assoc a (0 ∷ []) j))
    ∙ occurs_within (marker a) r.query j
