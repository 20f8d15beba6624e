-- ===== src/Security/Registry.antt =====
-- `InMemoryDocumentRegistry` and `PostgresSecurityStore` of src/findociq/security/registry.py.
-- The lock makes each method atomic, so a method is one function on the whole state.
pub mod Laws
pub mod Deletion
pub mod History
use fin_docs_analysis_evals.Common.{
  string_eq, pair_eq, str_lt, sorted, ℕ, ◌+◌, ◌*◌, String, Bool, true, false, not, ◌&&◌, Option,
  none, some, List, [], ◌∷◌, ◌==◌, all, is_empty, Result, ok, err, if◌then◌else◌,
}
use fin_docs_analysis_evals.Common.Dict.{Dict, lookup, insert}
use fin_docs_analysis_evals.Security.Record.{DocumentRecord, RegistryError, conflict, validated}

abbrev pub Key : Type 0
Key = String × String

pub record Registry : Type 0 where
  pub retention_days : ℕ
  pub records : Dict Key DocumentRecord
  pub deletion_receipts : Dict String (List String)

abbrev pub ticks_per_day : ℕ
ticks_per_day = 86400000000

-- `InMemoryDocumentRegistry(retention_days)`
abbrev pub empty : ℕ → Registry
empty days = record { retention_days = days; records = []; deletion_receipts = [] }

-- `record`; `now` is the reading of the clock.
unfoldable pub new_record :
    ℕ → Registry → String → String → String → String → Result RegistryError DocumentRecord
unfolding validated
new_record now s application_id document_id sha256 policy_hash = validated (record {
  application_id = application_id;
  document_id = document_id;
  sha256 = sha256;
  state = "active";
  policy_hash = policy_hash;
  retained_until = now + s.retention_days * ticks_per_day;
})

abbrev pub key_of : DocumentRecord → Key
key_of r = (r.application_id, r.document_id)

-- `existing is not None and existing.sha256 != record.sha256`
abbrev pub conflicts : Option DocumentRecord → DocumentRecord → Bool
conflicts none r = false
conflicts (some existing) r = not (existing.sha256 == r.sha256)

unfoldable pub register : DocumentRecord → Registry → Result RegistryError (Unit {0}) × Registry
register r s =
    if conflicts (lookup (key_of r) s.records) r
    then (err conflict, s)
    else (ok tt, record s { records = insert (key_of r) r s.records })

abbrev pub is_owned : String → Option DocumentRecord → Bool
is_owned policy_hash none = false
is_owned policy_hash (some r) = r.state == "active" && r.policy_hash == policy_hash

unfoldable pub owns : String → List String → String → Registry → Bool
owns application_id document_ids policy_hash s =
    if is_empty document_ids
    then false
    else all (λ d. is_owned policy_hash (lookup (application_id, d) s.records)) document_ids

-- The ids that the application still has, in the order of the dict.
abbrev pub live_ids : String → Dict Key DocumentRecord → List String
live_ids app [] = []
live_ids app (((owner, d), r) ∷ m) =
    let rest = live_ids app m in
    if owner == app && not (r.state == "deleted") then d ∷ rest else rest

abbrev pub mark_deleted : DocumentRecord → DocumentRecord
mark_deleted r = record r { state = "deleted" }

abbrev pub mark_found :
    Key → Option DocumentRecord → Dict Key DocumentRecord → Dict Key DocumentRecord
mark_found key none m = m
mark_found key (some r) m = insert key (mark_deleted r) m

-- `self._records[key] = self._records[key].model_copy(update={"state": "deleted"})`
abbrev pub mark_one : String → String → Dict Key DocumentRecord → Dict Key DocumentRecord
mark_one app d m = mark_found (app, d) (lookup (app, d) m) m

-- The loop over `document_ids`.
abbrev pub mark_all : String → List String → Dict Key DocumentRecord → Dict Key DocumentRecord
mark_all app [] m = m
mark_all app (d ∷ ds) m = mark_all app ds (mark_one app d m)

abbrev pub receipt_of : Option (List String) → List String
receipt_of none = []
receipt_of (some ids) = ids

unfoldable pub delete_application : String → Registry → List String × Registry
delete_application app s =
    let ids = live_ids app s.records in
    let receipts =
      if is_empty ids
      then s.deletion_receipts
      else insert app (sorted str_lt ids) s.deletion_receipts in
    (
      receipt_of (lookup app receipts),
      record s { records = mark_all app ids s.records; deletion_receipts = receipts },
    )
