-- ===== src/Security/DocumentSets.antt =====
-- src/findociq/security/document_sets.py: `freeze` and `DocumentSetStore`.
pub mod Laws
use fin_docs_analysis_evals.Common.{
  string_eq, str_lt, sorted, String, Bool, true, false, not, ◌&&◌, ◌||◌, Option, none, some, List,
  [], ◌∷◌, ◌==◌, contains, length, leb, is_empty, Result, ok, err, if◌then◌else◌,
}
use fin_docs_analysis_evals.Common.Dict.{Dict, lookup, insert}
use fin_docs_analysis_evals.Security.Record.{is_digest}

pub record DocumentSet : Type 0 where
  pub set_owner : String
  pub document_ids : List String
  pub policy : String
  pub set_id : String

pub data SetError : Type 0 where
  invalid_set scope_violation : SetError

-- `set(document_ids)`; the order does not matter, since it is sorted
abbrev pub distinct : List String → List String
distinct [] = []
distinct (d ∷ ds) = let rest = distinct ds in if contains d rest then rest else d ∷ rest

-- The validation of `DocumentSet(…)`.
unfoldable pub validated_set : DocumentSet → Result SetError DocumentSet
validated_set s =
    if not (is_empty s.document_ids)
      && leb (length s.document_ids) 10000
      && is_digest s.policy
      && is_digest s.set_id
    then ok s
    else err invalid_set

abbrev pub same_ids : List String → List String → Bool
same_ids [] [] = true
same_ids (a ∷ xs) (b ∷ ys) = a == b && same_ids xs ys
same_ids _ _ = false

abbrev pub same_set : DocumentSet → DocumentSet → Bool
same_set a b =
    a.set_owner == b.set_owner
    && same_ids a.document_ids b.document_ids
    && a.policy == b.policy
    && a.set_id == b.set_id

-- The rows: the columns `set_id` and `application_id`, and the set that the payload encodes.
abbrev pub Store : Type 0
Store = Dict String (String × DocumentSet)

-- `canonical_hash` is SHA-256 of the canonical JSON of the application, the ids and the policy.
module _ (canonical_hash : String → List String → String → String) where
  unfoldable pub freeze : String → List String → String → Result SetError DocumentSet
  unfolding validated_set
  freeze application_id document_ids policy_hash =
      let ids = sorted str_lt (distinct document_ids) in
      validated_set (record {
        set_owner = application_id;
        document_ids = ids;
        policy = policy_hash;
        set_id = canonical_hash application_id ids policy_hash;
      })

  -- `INSERT … ON CONFLICT (set_id) DO NOTHING`
  abbrev pub insert_new : DocumentSet → Option (String × DocumentSet) → Store → Store
  insert_new s none store = insert s.set_id (s.set_owner, s) store
  insert_new s (some _) store = store

  unfoldable pub put :
      (String → List String → String → Bool)
      → DocumentSet
      → Store
      → Result SetError DocumentSet × Store
  put owns s store =
      if not (owns s.set_owner s.document_ids s.policy)
      then (err scope_violation, store)
      else (ok s, insert_new s (lookup s.set_id store) store)

  abbrev pub is_frozen_as : DocumentSet → Result SetError DocumentSet → Result SetError Bool
  is_frozen_as s (ok t) = ok (same_set t s)
  is_frozen_as s (err e) = err e

  abbrev pub granted : DocumentSet → Bool → Result SetError DocumentSet
  granted s true = ok s
  granted s false = err scope_violation

  abbrev pub granted_if : Bool → DocumentSet → Result SetError Bool → Result SetError DocumentSet
  granted_if owned s (err e) = err e
  granted_if owned s (ok frozen) = granted s (frozen && owned)

  abbrev pub checked :
      (String → List String → String → Bool)
      → String
      → String
      → DocumentSet
      → Result SetError DocumentSet
  checked owns application_id policy_hash s =
      if not (s.policy == policy_hash)
      then err scope_violation
      else granted_if (owns application_id s.document_ids policy_hash) s
          (is_frozen_as s (freeze s.set_owner s.document_ids s.policy))

  abbrev pub found_row :
      (String → List String → String → Bool)
      → String
      → String
      → Option (String × DocumentSet)
      → Result SetError DocumentSet
  found_row owns application_id policy_hash none = err scope_violation
  found_row owns application_id policy_hash (some (owner, s)) =
      if owner == application_id
      then checked owns application_id policy_hash s
      else err scope_violation

  unfoldable pub get :
      (String → List String → String → Bool)
      → String
      → String
      → String
      → Store
      → Result SetError DocumentSet
  get owns set_id application_id policy_hash store =
      found_row owns application_id policy_hash (lookup set_id store)
