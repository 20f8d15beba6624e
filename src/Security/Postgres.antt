-- ===== src/Security/Postgres.antt =====
-- `PostgresSecurityStore` of src/findociq/security/registry.py: the three tables that its
-- statements name, and one function for each transaction. `now` is the server's clock.
pub mod Laws
use fin_docs_analysis_evals.Common.{
  string_eq, pair_eq, nat_eq, str_lt, sorted, ℕ, ◌+◌, String, Bool, true, false, not, ◌&&◌, Option,
  none, some, List, [], ◌∷◌, map, ◌==◌, all, is_empty, is_some, contains, Result, ok, err, leb, ltb,
  length, max, keep, if◌then◌else◌,
}
use fin_docs_analysis_evals.Common.Dict.{Dict, lookup, insert}
use fin_docs_analysis_evals.Security.Record.{DocumentRecord, RegistryError, conflict}
use fin_docs_analysis_evals.Security.Replay
use fin_docs_analysis_evals.Security.Registry.{Key, key_of}

pub record Database : Type 0 where
  pub documents : Dict Key DocumentRecord
  -- for each application the hashes of the artifacts, by document id
  pub deletion_receipts : Dict String (Dict String String)
  -- the expiry of each token
  pub jwt_replay : Dict String ℕ

-- The row that `ON CONFLICT … DO UPDATE SET state = …, retained_until = GREATEST(…)` leaves.
abbrev pub refreshed : DocumentRecord → DocumentRecord → DocumentRecord
refreshed old new = record old {
  state = new.state;
  retained_until = max old.retained_until new.retained_until;
}

-- No row is written where the hashes differ, so `rowcount` is 0 and the transaction raises.
abbrev pub upsert : Option DocumentRecord → DocumentRecord → Option DocumentRecord
upsert none new = some new
upsert (some old) new = if old.sha256 == new.sha256 then some (refreshed old new) else none

abbrev pub write :
    Option DocumentRecord → Key → Database → Result RegistryError (Unit {0}) × Database
write none key db = (err conflict, db)
write (some row) key db = (ok tt, record db { documents = insert key row db.documents })

unfoldable pub register : DocumentRecord → Database → Result RegistryError (Unit {0}) × Database
register r db = write (upsert (lookup (key_of r) db.documents) r) (key_of r) db

-- The rows of the count: `(application_id, document_id)` is the primary key, so they are distinct.
abbrev pub owned_rows : String → List String → String → Dict Key DocumentRecord → ℕ
owned_rows app ids policy_hash [] = 0
owned_rows app ids policy_hash (((owner, d), r) ∷ m) =
    let rest = owned_rows app ids policy_hash m in
    if owner == app && contains d ids && r.state == "active" && r.policy_hash == policy_hash
    then 1 + rest
    else rest

-- `set(document_ids)`
abbrev pub distinct : List String → List String
distinct [] = []
distinct (x ∷ xs) = let rest = distinct xs in if contains x xs then rest else x ∷ rest

unfoldable pub owns : String → List String → String → Database → Bool
owns app ids policy_hash db =
    if is_empty ids
    then false
    else owned_rows app ids policy_hash db.documents == length (distinct ids)

-- `DELETE … WHERE expires_at <= now()`, then the insertion, which a live row prevents: the steps of
-- the in-memory ledger.
unfoldable pub consume : String → ℕ → ℕ → Database → Bool × Database
unfolding Replay.consume
consume jti expires_at now db =
    let (fresh, rows) = Replay.consume jti expires_at now db.jwt_replay in
    (fresh, record db { jwt_replay = rows })

-- `UPDATE … SET state = 'deleted' WHERE application_id = … AND state != 'deleted'`
abbrev pub mark : String → Dict Key DocumentRecord → Dict Key DocumentRecord
mark app [] = []
mark app (((owner, d), r) ∷ m) =
    (
      (owner, d),
      if owner == app && not (r.state == "deleted") then record r { state = "deleted" } else r,
    )
    ∷ mark app m

-- `RETURNING document_id, sha256`
abbrev pub returned : String → Dict Key DocumentRecord → Dict String String
returned app [] = []
returned app (((owner, d), r) ∷ m) =
    let rest = returned app m in
    if owner == app && not (r.state == "deleted") then (d, r.sha256) ∷ rest else rest

-- `ON CONFLICT (application_id) DO NOTHING`
abbrev pub keep_first :
    String
    → Dict String String
    → Dict String (Dict String String)
    → Dict String (Dict String String)
keep_first app hashes receipts =
    if is_some (lookup app receipts) then receipts else insert app hashes receipts

abbrev pub stored : Option (Dict String String) → Dict String String
stored none = []
stored (some hashes) = hashes

abbrev pub key_list : Dict String String → List String
key_list [] = []
key_list ((d, _) ∷ m) = d ∷ key_list m

unfoldable pub delete_application : String → Database → List String × Database
delete_application app db =
    let hashes = returned app db.documents in
    let receipts = keep_first app hashes db.deletion_receipts in
    (
      sorted str_lt (key_list (if is_empty hashes then stored (lookup app receipts) else hashes)),
      record db { documents = mark app db.documents; deletion_receipts = receipts },
    )
