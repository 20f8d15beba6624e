-- ===== src/Security/DocumentSets/Laws.antt =====
-- What a stored set of documents gives access to.
use fin_docs_analysis_evals.Common.{
  string_eq, String, ◌≡◌, refl, Bool, true, false, not, ◌&&◌, Option, none, some, List, [], ◌∷◌,
  ◌==◌, Result, ok, err, if◌then◌else◌, str_eq_refl, subst,
}
use text.Mathlib.TextEquality.{eq_iff}
use fin_docs_analysis_evals.Common.Dict.{lookup, lookup-insert}
use fin_docs_analysis_evals.Security.DocumentSets.{
  DocumentSet, SetError, scope_violation, Store, same_ids, same_set, freeze, put, get, granted,
  granted_if, is_frozen_as, checked, found_row,
}

same_ids_refl : (ids : List String) → same_ids ids ids ≡ true
same_ids_refl [] = refl
same_ids_refl (d ∷ ds) = rw (str_eq_refl d, same_ids_refl ds) refl

same_set_refl : (s : DocumentSet) → same_set s s ≡ true
same_set_refl s =
    rw
      (
        str_eq_refl s.set_owner,
        same_ids_refl s.document_ids,
        str_eq_refl s.policy,
        str_eq_refl s.set_id,
      )
      refl

module _ (canonical_hash : String → List String → String → String)
    (owns : String → List String → String → Bool) where
  -- A frozen set that is put under a new id and whose documents are owned is read back by its owner.
  pub get-put :
      (s : DocumentSet) (store : Store)
      → freeze canonical_hash s.set_owner s.document_ids s.policy ≡ ok s
      → owns s.set_owner s.document_ids s.policy ≡ true
      → lookup s.set_id store ≡ none
      → get canonical_hash owns s.set_id s.set_owner s.policy (put canonical_hash owns s store).1
        ≡ ok s
  unfolding get put
  get-put s store frozen owned new =
      rw
        (
          owned,
          new,
          lookup-insert s.set_id s.set_id (s.set_owner, s) store,
          str_eq_refl s.set_id,
          str_eq_refl s.set_owner,
          str_eq_refl s.policy,
          owned,
          frozen,
          same_set_refl s,
        )
        refl

  -- A set that is read has all its documents owned by the reader under the policy, and is of that
  -- policy.
  pub get-owned :
      (set_id application_id policy_hash : String) (store : Store) (s : DocumentSet)
      → get canonical_hash owns set_id application_id policy_hash store ≡ ok s
      → (owns application_id s.document_ids policy_hash ≡ true) × (s.policy ≡ policy_hash)
  unfolding get
  get-owned set_id application_id policy_hash store s e = by_row (lookup set_id store) e
    where
      by_granted :
          (t : DocumentSet) (owned frozen : Bool)
          → granted canonical_hash t (frozen && owned) ≡ ok s
          → (owned ≡ true) × (t ≡ s)
      by_granted t true true e = (refl, injective e)
        where
          injective : ◌≡◌ {A = Result SetError DocumentSet} (ok t) (ok s) → t ≡ s
          injective q = cc
      by_granted t true false e = cc
      by_granted t false true e = cc
      by_granted t false false e = cc

      by_frozen :
          (t : DocumentSet) (owned : Bool) (r : Result SetError Bool)
          → granted_if canonical_hash owned t r ≡ ok s
          → (owned ≡ true) × (t ≡ s)
      by_frozen t owned (ok frozen) e = by_granted t owned frozen e
      by_frozen t owned (err f) e = cc

      by_checks :
          (t : DocumentSet) (b : Bool)
          → (t.policy == policy_hash) ≡ b
          → (if not b
              then err scope_violation
              else granted_if canonical_hash (owns application_id t.document_ids policy_hash) t (
                  is_frozen_as canonical_hash t
                    (freeze canonical_hash t.set_owner t.document_ids t.policy)))
            ≡ ok s
          → (owns application_id s.document_ids policy_hash ≡ true) × (s.policy ≡ policy_hash)
      by_checks t true same e =
          let (owned, is) = by_frozen t _ _ e in
          (
            subst (λ u. owns application_id u.document_ids policy_hash ≡ true) is owned,
            subst (λ u. u.policy ≡ policy_hash) is ((eq_iff t.policy policy_hash).0 same),
          )
      by_checks t false same e = cc

      by_owner :
          (t : DocumentSet) (b : Bool)
          → (if b
              then checked canonical_hash owns application_id policy_hash t
              else err scope_violation)
            ≡ ok s
          → (owns application_id s.document_ids policy_hash ≡ true) × (s.policy ≡ policy_hash)
      by_owner t true e = by_checks t (t.policy == policy_hash) refl e
      by_owner t false e = cc

      by_row :
          (row : Option (String × DocumentSet))
          → found_row canonical_hash owns application_id policy_hash row ≡ ok s
          → (owns application_id s.document_ids policy_hash ≡ true) × (s.policy ≡ policy_hash)
      by_row none e = cc
      by_row (some (owner, t)) e = by_owner t (owner == application_id) e
