-- ===== src/Security/Postgres/Laws.antt =====
-- The production registry: it counts rows, and its answers are those of a look at each document.
use fin_docs_analysis_evals.Common.{
  string_eq, pair_eq, nat_eq, str_lt, sorted, ℕ, ◌+◌, ◌≤◌, String, ◌≡◌, refl, ◌≢◌, sym, ◌∙◌, Bool,
  true, false, not, ◌&&◌, ◌||◌, Option, none, some, List, [], ◌∷◌, ◌==◌, all, is_empty, contains,
  ok, length, if◌then◌else◌, arith, inl, inr, Bool-cases, str_eq_refl, subst,
}
use text.Mathlib.TextEquality.{eq_iff}
use fin_docs_analysis_evals.Common.Dict.{Dict, lookup, insert, lookup-insert, IsDict, insert-IsDict}
use fin_docs_analysis_evals.Security.Record.{DocumentRecord}
use fin_docs_analysis_evals.Security.Registry.{Key, key_of, is_owned}
use fin_docs_analysis_evals.Security.Postgres.{
  Database, refreshed, upsert, register, owned_rows, distinct, owns, mark, returned, keep_first,
  key_list, delete_application,
}

abbrev count : (String → Bool) → List String → ℕ
count f [] = 0
count f (x ∷ xs) = (if f x then 1 else 0) + count f xs

abbrev IsDistinct : List String → Type 0
IsDistinct [] = Unit
IsDistinct (x ∷ xs) = (contains x xs ≡ false) × IsDistinct xs

dup_seen :
    (x y : String) (xs : List String)
    → contains y xs ≡ true
    → contains x xs ≡ (y == x || contains x xs)
dup_seen x y xs dup = elim (Bool-cases (y == x)) [
  | inl same ↦ rw same (subst (λ k. contains k xs ≡ true) ((eq_iff y x).0 same) dup)
  | inr other ↦ rw other
]

contains-distinct : (x : String) (xs : List String) → contains x (distinct xs) ≡ contains x xs
contains-distinct x [] = refl
contains-distinct x (y ∷ xs) = elim (Bool-cases (contains y xs)) [
  | inl dup ↦ rw (dup, contains-distinct x xs) (dup_seen x y xs dup)
  | inr new ↦ rw (new, contains-distinct x xs)
]

distinct-IsDistinct : (xs : List String) → IsDistinct (distinct xs)
distinct-IsDistinct [] = tt
distinct-IsDistinct (y ∷ xs) = elim (Bool-cases (contains y xs)) [
  | inl dup ↦ rw dup (distinct-IsDistinct xs)
  | inr new ↦ rw new (rw (contains-distinct y xs) new, distinct-IsDistinct xs)
]

count-ext :
    (f g : String → Bool) (xs : List String) → ((d : String) → g d ≡ f d) → count g xs ≡ count f xs
count-ext f g [] h = refl
count-ext f g (x ∷ xs) h = rw (h x, count-ext f g xs h)

count-none : (xs : List String) → count (λ _. false) xs ≡ 0
count-none [] = refl
count-none (x ∷ xs) = omega (arith, count-none xs)

-- One more row: the tests agree but at the row's document, which had none before.
count-point :
    (f g : String → Bool) (d : String) (b : Bool) (xs : List String)
    → ((x : String) → g x ≡ (if d == x then b else f x))
    → f d ≡ false
    → IsDistinct xs
    → count g xs ≡ (if contains d xs && b then 1 else 0) + count f xs
count-point f g d b [] h none_before distinct = refl
count-point f g d b (x ∷ xs) h none_before distinct = elim (Bool-cases (d == x)) [
  | inl same ↦
      let e : d ≡ x = (eq_iff d x).0 same in
      ground (
        arith,
        h x,
        same,
        (eq_iff d x).0 same,
        str_eq_refl x,
        subst (λ k. f k ≡ false) e none_before,
        count-point f g d b xs h none_before distinct.1,
        subst (λ k. contains k xs ≡ false) (sym e) distinct.0,
      )
  | inr other ↦
      ground
        (arith, h x, other, eq_iff x d, eq_iff d x, count-point f g d b xs h none_before distinct.1)
]

-- The count of the rows is the count of the documents that are owned.
owned_rows-eq-count :
    (app ph : String) (ids : List String) (m : Dict Key DocumentRecord)
    → IsDict m
    → owned_rows app ids ph m ≡ count (λ d. is_owned ph (lookup (app, d) m)) (distinct ids)
owned_rows-eq-count app ph ids [] h = sym (count-none (distinct ids))
owned_rows-eq-count app ph ids (((owner, d), r) ∷ m) h = elim (Bool-cases (owner == app)) [
  | inl same ↦
      let none_before : lookup (app, d) m ≡ none =
        subst (λ k. lookup {K = Key} (k, d) m ≡ none) ((eq_iff owner app).0 same) h.0 in
      ground (
        arith,
        same,
        count-point (λ x. is_owned ph (lookup (app, x) m))
            (λ x. is_owned ph (lookup (app, x) (((owner, d), r) ∷ m))) d
            (r.state == "active" && r.policy_hash == ph) (distinct ids) (λ x. ground (arith, same))
            (rw none_before) (distinct-IsDistinct ids),
        contains-distinct d ids,
        owned_rows-eq-count app ph ids m h.1,
      )
  | inr other ↦ ground (
    arith,
    other,
    count-ext (λ x. is_owned ph (lookup (app, x) m))
        (λ x. is_owned ph (lookup (app, x) (((owner, d), r) ∷ m))) (distinct ids)
        (λ x. ground (arith, other)),
    owned_rows-eq-count app ph ids m h.1,
  )
]

count-le-length : (f : String → Bool) (xs : List String) → count f xs ≤ length xs
count-le-length f [] = omega arith
count-le-length f (x ∷ xs) = ground (arith, count-le-length f xs)

count-all : (f : String → Bool) (xs : List String) → (count f xs == length xs) ≡ all f xs
count-all f [] = refl
count-all f (x ∷ xs) = ground (arith, count-le-length f xs, count-all f xs)

all-of_contains :
    (f : String → Bool) (x : String) (xs : List String)
    → contains x xs ≡ true
    → all f xs ≡ (f x && all f xs)
all-of_contains f x [] h = cc
all-of_contains f x (y ∷ xs) h = elim (Bool-cases (y == x)) [
  | inl same ↦ rw (← (eq_iff y x).0 same) (ground arith)
  | inr other ↦ ground (arith, all-of_contains f x xs (rw other at h))
]

all-distinct : (f : String → Bool) (xs : List String) → all f (distinct xs) ≡ all f xs
all-distinct f [] = refl
all-distinct f (x ∷ xs) = elim (Bool-cases (contains x xs)) [
  | inl dup ↦ rw (dup, all-distinct f xs) (all-of_contains f x xs dup)
  | inr new ↦ rw (new, all-distinct f xs)
]

-- The count of distinct rows says exactly that each requested document is active for the
-- application under the policy, as the in-memory registry has it.
pub owns-eq-all :
    (app ph : String) (ids : List String) (db : Database)
    → IsDict db.documents
    → owns app ids ph db
      ≡ (if is_empty ids then false else all (λ d. is_owned ph (lookup (app, d) db.documents)) ids)
unfolding owns
owns-eq-all app ph ids db h = rw (
  owned_rows-eq-count app ph ids db.documents h,
  count-all (λ d. is_owned ph (lookup (app, d) db.documents)) (distinct ids),
  all-distinct (λ d. is_owned ph (lookup (app, d) db.documents)) ids,
)

upsert_known :
    (r old : DocumentRecord) (o : Option DocumentRecord)
    → o ≡ some old
    → old.sha256 ≡ r.sha256
    → upsert o r ≡ some (refreshed old r)
upsert_known r old none e same = ground arith
upsert_known r old (some x) e same = ground (arith, eq_iff x.sha256 r.sha256)

-- Registering known content again under another policy succeeds, and the row keeps the old policy:
-- the application does not own the document under the new one.
pub register_keeps_policy :
    (r old : DocumentRecord) (db : Database)
    → IsDict db.documents
    → lookup (key_of r) db.documents ≡ some old
    → old.sha256 ≡ r.sha256
    → old.policy_hash ≢ r.policy_hash
    → ((register r db).0 ≡ ok tt)
      × (owns r.application_id (r.document_id ∷ []) r.policy_hash (register r db).1 ≡ false)
unfolding register
register_keeps_policy r old db h found same differ =
    rw (upsert_known r old (lookup (key_of r) db.documents) found same) (
      refl,
      owns-eq-all r.application_id r.policy_hash (r.document_id ∷ [])
            (record db { documents = insert (key_of r) (refreshed old r) db.documents })
            (insert-IsDict (key_of r) (refreshed old r) db.documents h)
          ∙ rw
              (
                lookup-insert (key_of r) (key_of r) (refreshed old r) db.documents,
                str_eq_refl r.application_id,
                str_eq_refl r.document_id,
              )
              (ground (arith, eq_iff old.policy_hash r.policy_hash)),
    )

returned-mark : (app : String) (m : Dict Key DocumentRecord) → returned app (mark app m) ≡ []
returned-mark app [] = refl
returned-mark app (((owner, d), r) ∷ m) =
    elim (Bool-cases (owner == app && not (r.state == "deleted"))) [
      | inl hit ↦ rw hit (ground (arith, returned-mark app m))
      | inr miss ↦ rw (miss, miss) (returned-mark app m)
    ]

keep_first-known :
    (app : String) (new hashes : Dict String String) (receipts : Dict String (Dict String String))
    → lookup app receipts ≡ some hashes
    → keep_first app new receipts ≡ receipts
keep_first-known app new hashes receipts known = rw known

nonempty : {A : Type 0} (xs : List A) → xs ≢ [] → is_empty xs ≡ false
nonempty [] h = absurd (h refl)
nonempty (x ∷ xs) h = refl

-- A stored receipt is never replaced: a deletion that removes documents is answered by its ids, and
-- the same deletion repeated by the older receipt.
pub delete_application_repeats_receipt :
    (app : String) (hashes : Dict String String) (db : Database)
    → lookup app db.deletion_receipts ≡ some hashes
    → returned app db.documents ≢ []
    → ((delete_application app db).0 ≡ sorted str_lt (key_list (returned app db.documents)))
      × ((delete_application app (delete_application app db).1).0 ≡ sorted str_lt (key_list hashes))
unfolding delete_application
delete_application_repeats_receipt app hashes db known some_left = (
  rw (nonempty (returned app db.documents) some_left),
  rw (
    returned-mark app db.documents,
    keep_first-known app (returned app db.documents) hashes db.deletion_receipts known,
    keep_first-known app [] hashes db.deletion_receipts known,
    known,
  ),
)
