-- ===== src/Security/Registry/Deletion.antt =====
-- `delete_application`: what it marks, what it leaves alone, and its receipts.
use fin_docs_analysis_evals.Common.{
  string_eq, pair_eq, String, ◌≡◌, refl, ◌≢◌, Bool, true, false, not, ◌&&◌, Option, none, some,
  List, [], ◌∷◌, ◌==◌, all, arith, inl, inr, Bool-cases, pair_beq, pair_beq_iff, str_eq_refl, subst,
  ◌∙◌,
}
use text.Mathlib.TextEquality.{eq_iff}
use fin_docs_analysis_evals.Common.Dict.{Dict, lookup, IsDict, insert-IsDict}
use fin_docs_analysis_evals.Security.Record.{DocumentRecord}
use fin_docs_analysis_evals.Security.Registry.{
  Key, Registry, is_owned, owns, live_ids, mark_deleted, mark_one, mark_found, mark_all, receipt_of,
  delete_application,
}
use fin_docs_analysis_evals.Security.Registry.Laws.{record_of, mark_if, listed, lookup-mark_all}

abbrev is_live : Option DocumentRecord → Bool
is_live none = false
is_live (some r) = not (r.state == "deleted")

same_key : {a b c d : String} → a ≡ c → b ≡ d → ◌≡◌ {A = Key} (a, b) (c, d)
same_key p q = λ i. (p i, q i)

listed-live_ids :
    (app d : String) (m : Dict Key DocumentRecord)
    → IsDict m
    → listed d (live_ids app m) ≡ is_live (lookup (app, d) m)
listed-live_ids app d [] h = refl
listed-live_ids app d (((owner, d'), r) ∷ m) h = elim (Bool-cases (pair_beq (owner, d') (app, d))) [
  | inl same ↦
      let gone : lookup (app, d) m ≡ none =
        subst (λ k. lookup k m ≡ none) ((pair_beq_iff (owner, d') (app, d)).0 same) h.0 in
      ground (arith, same, gone, listed-live_ids app d m h.1, eq_iff owner app, eq_iff d' d)
  | inr other ↦ ground (arith, other, listed-live_ids app d m h.1, eq_iff owner app, eq_iff d' d)
]

-- Marking what is not live changes nothing.
mark_if-is_live : (b : Bool) (o : Option DocumentRecord) → mark_if (b && is_live o) o ≡ mark_if b o
mark_if-is_live b none = refl
mark_if-is_live b (some r) = ground (arith, eq_iff r.state "deleted")

delete_marks :
    (app own d : String) (m : Dict Key DocumentRecord)
    → IsDict m
    → lookup (own, d) (mark_all app (live_ids app m) m) ≡ mark_if (app == own) (lookup (own, d) m)
delete_marks app own d m h =
    rw (lookup-mark_all app (live_ids app m) own d m) (elim (Bool-cases (app == own)) [
      | inl same ↦
          rw (same, listed-live_ids app d m h, (eq_iff app own).0 same)
            (mark_if-is_live true (lookup (own, d) m))
      | inr other ↦ rw other
    ])

-- Deleting an application marks every document of it as deleted, and no document of another.
pub record_of-delete_application :
    (app own d : String) (s : Registry)
    → IsDict s.records
    → record_of (delete_application app s).1 own d ≡ mark_if (app == own) (record_of s own d)
unfolding delete_application
record_of-delete_application app own d s h = delete_marks app own d s.records h

not_owned :
    (b : Bool) (ph : String) (o : Option DocumentRecord) → is_owned ph (mark_if true o) ≡ false
not_owned b ph none = refl
not_owned b ph (some r) = ground arith

mark_if-false : (o : Option DocumentRecord) → mark_if false o ≡ o
mark_if-false none = refl
mark_if-false (some r) = refl

-- After its deletion an application owns nothing.
pub owns-delete_application :
    (app ph : String) (ids : List String) (s : Registry)
    → IsDict s.records
    → owns app ids ph (delete_application app s).1 ≡ false
unfolding owns
owns-delete_application app ph [] s h = refl
owns-delete_application app ph (d ∷ ids) s h = rw (
  record_of-delete_application app app d s h,
  str_eq_refl app,
  not_owned true ph (record_of s app d),
)

all-owned_other :
    (app own ph : String) (ids : List String) (s : Registry)
    → IsDict s.records
    → app ≢ own
    → all (λ d. is_owned ph (record_of (delete_application app s).1 own d)) ids
      ≡ all (λ d. is_owned ph (record_of s own d)) ids
all-owned_other app own ph [] s h ne = refl
all-owned_other app own ph (d ∷ ids) s h ne =
    let differs : (app == own) ≡ false = ground (arith, eq_iff app own) in
    rw (
      record_of-delete_application app own d s h,
      differs,
      mark_if-false (record_of s own d),
      all-owned_other app own ph ids s h ne,
    )

-- Deleting one application leaves what another owns as it was.
pub owns-delete_application_ne :
    (app own ph : String) (ids : List String) (s : Registry)
    → IsDict s.records
    → app ≢ own
    → owns own ids ph (delete_application app s).1 ≡ owns own ids ph s
unfolding owns
owns-delete_application_ne app own ph [] s h ne = refl
owns-delete_application_ne app own ph (d ∷ ids) s h ne = all-owned_other app own ph (d ∷ ids) s h ne

mark_all-IsDict :
    (app : String) (ids : List String) (m : Dict Key DocumentRecord)
    → IsDict m
    → IsDict (mark_all app ids m)
mark_all-IsDict app [] m h = h
mark_all-IsDict app (d ∷ ids) m h =
    mark_all-IsDict app ids (mark_one app d m) (mark_found-IsDict (lookup (app, d) m))
  where
    mark_found-IsDict : (o : Option DocumentRecord) → IsDict (mark_found (app, d) o m)
    mark_found-IsDict none = h
    mark_found-IsDict (some r) = insert-IsDict (app, d) (mark_deleted r) m h

pub delete_application-IsDict :
    (app : String) (s : Registry) → IsDict s.records → IsDict (delete_application app s).1.records
unfolding delete_application
delete_application-IsDict app s h = mark_all-IsDict app (live_ids app s.records) s.records h

empty_of_unlisted : (xs : List String) → ((d : String) → listed d xs ≡ false) → xs ≡ []
empty_of_unlisted [] h = refl
empty_of_unlisted (x ∷ xs) h = ground (arith, h x, str_eq_refl x)

is_live-marked : (o : Option DocumentRecord) → is_live (mark_if true o) ≡ false
is_live-marked none = refl
is_live-marked (some r) = refl

live_ids-after :
    (app : String) (s : Registry)
    → IsDict s.records
    → live_ids app (delete_application app s).1.records ≡ []
live_ids-after app s h = empty_of_unlisted (live_ids app (delete_application app s).1.records) (λ d.
    listed-live_ids app d (delete_application app s).1.records (delete_application-IsDict app s h)
    ∙ rw (record_of-delete_application app app d s h, str_eq_refl app)
        (is_live-marked (record_of s app d)))

again :
    (app : String) (s : Registry)
    → live_ids app s.records ≡ []
    → delete_application app s ≡ (receipt_of (lookup app s.deletion_receipts), s)
unfolding delete_application
again app s h = rw h

reply_is_receipt :
    (app : String) (s : Registry)
    → receipt_of (lookup app (delete_application app s).1.deletion_receipts)
      ≡ (delete_application app s).0
unfolding delete_application
reply_is_receipt app s = refl

-- A second deletion replies what the first did, and changes nothing.
pub delete_application_idem :
    (app : String) (s : Registry)
    → IsDict s.records
    → let (ids, s') = delete_application app s in delete_application app s' ≡ (ids, s')
delete_application_idem app s h =
    again app (delete_application app s).1 (live_ids-after app s h) ∙ rw (reply_is_receipt app s)
