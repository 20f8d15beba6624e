-- ===== src/Security/Registry/History.antt =====
-- Any sequence of registrations and deletions of the in-memory registry.
use fin_docs_analysis_evals.Common.{
  string_eq, pair_eq, String, ◌≡◌, false, Option, none, some, List, [], ◌∷◌, ◌==◌, arith, inl, inr,
  Bool-cases, pair_beq, pair_beq_iff, ◌∙◌,
}
use text.Mathlib.TextEquality.{eq_iff}
use fin_docs_analysis_evals.Common.Dict.{lookup, lookup-insert, IsDict, insert-IsDict}
use fin_docs_analysis_evals.Security.Record.{DocumentRecord}
use fin_docs_analysis_evals.Security.Registry.{
  Registry, key_of, conflicts, register, delete_application,
}
use fin_docs_analysis_evals.Security.Registry.Laws.{record_of}
use fin_docs_analysis_evals.Security.Registry.Deletion.{
  record_of-delete_application, delete_application-IsDict,
}

pub data Op : Type 0 where
  register_op : DocumentRecord → Op
  delete_op : String → Op

abbrev pub step : Op → Registry → Registry
step (register_op r) s = (register r s).1
step (delete_op app) s = (delete_application app s).1

abbrev pub run : List Op → Registry → Registry
run [] s = s
run (op ∷ ops) s = run ops (step op s)

pub register-IsDict :
    (r : DocumentRecord) (s : Registry) → IsDict s.records → IsDict (register r s).1.records
unfolding register
register-IsDict r s h = elim (Bool-cases (conflicts (lookup (key_of r) s.records) r)) [
  | inl bad ↦ rw bad h
  | inr fine ↦ rw fine (insert-IsDict (key_of r) r s.records h)
]

step-IsDict : (op : Op) (s : Registry) → IsDict s.records → IsDict (step op s).records
step-IsDict (register_op r) s h = register-IsDict r s h
step-IsDict (delete_op app) s h = delete_application-IsDict app s h

-- The key is registered with this content.
abbrev pub HasContent : Registry → String → String → String → Type 0
HasContent s app d sha = (r : DocumentRecord) × (record_of s app d ≡ some r) × (r.sha256 ≡ sha)

fine_content :
    (r old : DocumentRecord) (app d : String) (o : Option DocumentRecord)
    → conflicts o r ≡ false
    → o ≡ some old
    → r.sha256 ≡ old.sha256
fine_content r old app d none fine e = ground arith
fine_content r old app d (some x) fine e = ground (arith, eq_iff x.sha256 r.sha256)

register-HasContent :
    (r : DocumentRecord) (s : Registry) (app d sha : String)
    → HasContent s app d sha
    → HasContent (register r s).1 app d sha
unfolding register
register-HasContent r s app d sha (old, found, same) =
    elim (Bool-cases (conflicts (lookup (key_of r) s.records) r)) [
      | inl bad ↦ rw bad (old, found, same)
      | inr fine ↦ rw fine (elim (Bool-cases (pair_beq (key_of r) (app, d))) [
        | inl here ↦
            let key : key_of r ≡ (app, d) = (pair_beq_iff (key_of r) (app, d)).0 here in
            (
              r,
              rw (lookup-insert (key_of r) (app, d) r s.records, here),
              fine_content r old app d (lookup (key_of r) s.records) fine (rw key found) ∙ same,
            )
        | inr there ↦ (old, rw (lookup-insert (key_of r) (app, d) r s.records, there) found, same)
      ])
    ]

delete-HasContent :
    (del : String) (s : Registry) (app d sha : String)
    → IsDict s.records
    → HasContent s app d sha
    → HasContent (delete_application del s).1 app d sha
delete-HasContent del s app d sha h (old, found, same) = elim (Bool-cases (del == app)) [
  | inl hit ↦ (
    record old { state = "deleted" },
    rw (record_of-delete_application del app d s h, hit, found),
    same,
  )
  | inr miss ↦ (old, rw (record_of-delete_application del app d s h, miss, found), same)
]

-- Once a document is registered, its content hash never changes, whatever is registered or deleted
-- afterwards.
pub run-HasContent :
    (ops : List Op) (s : Registry) (app d sha : String)
    → IsDict s.records
    → HasContent s app d sha
    → HasContent (run ops s) app d sha
run-HasContent [] s app d sha h c = c
run-HasContent (register_op r ∷ ops) s app d sha h c =
    run-HasContent ops (register r s).1 app d sha (register-IsDict r s h)
      (register-HasContent r s app d sha c)
run-HasContent (delete_op del ∷ ops) s app d sha h c =
    run-HasContent ops (delete_application del s).1 app d sha (delete_application-IsDict del s h)
      (delete-HasContent del s app d sha h c)
