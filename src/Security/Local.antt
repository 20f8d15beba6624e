-- ===== src/Security/Local.antt =====
-- `LocalDocumentRegistry` of src/findociq/security/local_registry.py. A row is keyed by its two columns
-- and holds the record that its payload encodes.
use fin_docs_analysis_evals.Common.{
  string_eq, pair_eq, str_lt, sorted, String, ◌≡◌, refl, Bool, false, not, ◌&&◌, none, some, List,
  [], ◌∷◌, ◌==◌, contains, all, is_empty, Result, ok, err, if◌then◌else◌, arith, Bool-cases, inl,
  inr, pair_beq, pair_beq_iff, subst,
}
use text.Mathlib.TextEquality.{eq_iff}
use fin_docs_analysis_evals.Common.Dict.{Dict, lookup, insert, IsDict}
use fin_docs_analysis_evals.Security.Record.{DocumentRecord, RegistryError, conflict}
use fin_docs_analysis_evals.Security.Registry.{Key, key_of, conflicts, is_owned, mark_deleted}

abbrev pub Rows : Type 0
Rows = Dict Key DocumentRecord

unfoldable pub register : DocumentRecord → Rows → Result RegistryError (Unit {0}) × Rows
register r rows =
    if conflicts (lookup (key_of r) rows) r
    then (err conflict, rows)
    else (ok tt, insert (key_of r) r rows)

-- The ids of the active records of the application under the policy.
abbrev pub active_ids : String → String → Rows → List String
active_ids app policy_hash [] = []
active_ids app policy_hash (((owner, d), r) ∷ rows) =
    let rest = active_ids app policy_hash rows in
    if owner == app && is_owned policy_hash (some r) then r.document_id ∷ rest else rest

-- `set(document_ids) <= {…}`
unfoldable pub owns : String → List String → String → Rows → Bool
owns app document_ids policy_hash rows =
    if is_empty document_ids
    then false
    else all (λ d. contains d (active_ids app policy_hash rows)) document_ids

-- The ids of the rows of the application, deleted before or not.
abbrev pub ids_of : String → Rows → List String
ids_of app [] = []
ids_of app (((owner, d), r) ∷ rows) =
    let rest = ids_of app rows in if owner == app then r.document_id ∷ rest else rest

-- The `UPDATE` of one document.
abbrev pub mark_row : String → String → Rows → Rows
mark_row app d [] = []
mark_row app d (((owner, e), r) ∷ rows) =
    let rest = mark_row app d rows in
    if owner == app && e == d then ((owner, e), mark_deleted r) ∷ rest else ((owner, e), r) ∷ rest

abbrev pub mark_rows : String → List String → Rows → Rows
mark_rows app [] rows = rows
mark_rows app (d ∷ ds) rows = mark_rows app ds (mark_row app d rows)

unfoldable pub delete_application : String → Rows → List String × Rows
delete_application app rows =
    let ids = ids_of app rows in (sorted str_lt ids, mark_rows app ids rows)

-- The document of each record is the one of its key.
abbrev pub IsKeyed : Rows → Type 0
IsKeyed [] = Unit
IsKeyed (((owner, d), r) ∷ rows) = (r.document_id ≡ d) × IsKeyed rows

not_listed :
    (app d policy_hash : String) (rows : Rows)
    → IsKeyed rows
    → lookup (app, d) rows ≡ none
    → contains d (active_ids app policy_hash rows) ≡ false
not_listed app d policy_hash [] k h = refl
not_listed app d policy_hash (((owner, e), r) ∷ rows) k h =
    ground (arith, k.0, eq_iff owner app, eq_iff e d, not_listed app d policy_hash rows k.1)

contains-active_ids :
    (app d policy_hash : String) (rows : Rows)
    → IsDict rows
    → IsKeyed rows
    → contains d (active_ids app policy_hash rows) ≡ is_owned policy_hash (lookup (app, d) rows)
contains-active_ids app d policy_hash [] h k = refl
contains-active_ids app d policy_hash (((owner, e), r) ∷ rows) h k =
    elim (Bool-cases (pair_beq (owner, e) (app, d))) [
      | inl same ↦
          let gone : lookup (app, d) rows ≡ none =
            subst (λ key. lookup key rows ≡ none) ((pair_beq_iff (owner, e) (app, d)).0 same) h.0 in
          ground (
            arith,
            same,
            k.0,
            eq_iff owner app,
            eq_iff e d,
            not_listed app d policy_hash rows k.1 gone,
          )
      | inr other ↦ ground (
        arith,
        other,
        k.0,
        eq_iff owner app,
        eq_iff e d,
        contains-active_ids app d policy_hash rows h.1 k.1,
      )
    ]

all_same :
    (p q : String → Bool) (ds : List String) → ((d : String) → p d ≡ q d) → all p ds ≡ all q ds
all_same p q [] h = refl
all_same p q (d ∷ ds) h = rw (h d, all_same p q ds h) refl

-- Where no key occurs twice, and each record is filed under its own document, the local registry owns
-- documents exactly when each one is active for the application under the policy, as in the
-- in-memory registry.
pub local_owns-eq-all :
    (app : String) (ids : List String) (policy_hash : String) (rows : Rows)
    → IsDict rows
    → IsKeyed rows
    → owns app ids policy_hash rows
      ≡ (not (is_empty ids) && all (λ d. is_owned policy_hash (lookup (app, d) rows)) ids)
unfolding owns
local_owns-eq-all app [] policy_hash rows h k = refl
local_owns-eq-all app (d ∷ ds) policy_hash rows h k =
    all_same (λ e. contains e (active_ids app policy_hash rows))
      (λ e. is_owned policy_hash (lookup (app, e) rows)) (d ∷ ds)
      λ e. contains-active_ids app e policy_hash rows h k
