-- ===== src/Security/Registry/Laws.antt =====
-- What the operations of the in-memory registry do to each document.
use fin_docs_analysis_evals.Common.{
  string_eq, pair_eq, String, ◌≡◌, refl, Bool, true, false, ◌&&◌, Option, none, some, List, [], ◌∷◌,
  ◌==◌, ok, err, if◌then◌else◌, arith, ◌⊎◌, inl, inr, Bool-cases, Option-cases, pair_beq,
  pair_beq_iff,
}
use fin_docs_analysis_evals.Common.Dict.{Dict, lookup, lookup-insert}
use fin_docs_analysis_evals.Security.Record.{DocumentRecord, conflict}
use fin_docs_analysis_evals.Security.Registry.{
  Key, Registry, key_of, conflicts, register, mark_deleted, mark_one, mark_all,
}

-- The record that the application has for the document.
abbrev pub record_of : Registry → String → String → Option DocumentRecord
record_of s app d = lookup (app, d) s.records

-- A registration that is accepted is found under its key and nothing else changes; one of another
-- content under a registered key is refused and changes nothing.
pub register_lem :
    (r : DocumentRecord) (s : Registry) (app d : String)
    → let old = lookup (key_of r) s.records in
      ((conflicts old r ≡ true) × (register r s ≡ (err conflict, s)))
      ⊎ ((conflicts old r ≡ false)
          × ((register r s).0 ≡ ok tt)
          × (record_of (register r s).1 app d
              ≡ (if key_of r == (app, d) then some r else record_of s app d))
          × ((register r s).1.deletion_receipts ≡ s.deletion_receipts))
unfolding register
register_lem r s app d = elim (Bool-cases (conflicts (lookup (key_of r) s.records) r)) [
  | inl bad ↦ inl (bad, rw bad)
  | inr fine ↦ inr (fine, rw fine, rw fine (lookup-insert (key_of r) (app, d) r s.records), rw fine)
]

abbrev pub mark_if : Bool → Option DocumentRecord → Option DocumentRecord
mark_if b none = none
mark_if b (some r) = if b then some (mark_deleted r) else some r

mark_if_twice :
    (a b c : Bool) (o : Option DocumentRecord)
    → mark_if (a && c) (mark_if (a && b) o) ≡ mark_if (a && (if b then true else c)) o
mark_if_twice a b c none = refl
mark_if_twice a b c (some r) = ground arith

-- `d in ids`
abbrev pub listed : String → List String → Bool
listed d [] = false
listed d (x ∷ xs) = if x == d then true else listed d xs

lookup-mark_step :
    (app d : String) (key : Key) (m : Dict Key DocumentRecord)
    → lookup key (mark_one app d m) ≡ mark_if ((app, d) == key) (lookup key m)
lookup-mark_step app d key m = elim (Option-cases (lookup (app, d) m)) [
  | inl missing ↦ rw missing (elim (Bool-cases (pair_beq (app, d) key)) [
    | inl same ↦ rw (same, ← (pair_beq_iff (app, d) key).0 same, missing)
    | inr other ↦ rw other (elim (Option-cases (lookup key m)) [ inl e ↦ rw e | inr (r, e) ↦ rw e ])
  ])
  | inr (r, found) ↦ rw found (
      rw (lookup-insert (app, d) key (mark_deleted r) m)
        (elim (Bool-cases (pair_beq (app, d) key)) [
          | inl same ↦ rw (same, ← (pair_beq_iff (app, d) key).0 same, found)
          | inr other ↦
              rw other (elim (Option-cases (lookup key m)) [ inl e ↦ rw e | inr (r, e) ↦ rw e ])
        ]))
]

-- The loop of `delete_application` marks exactly the listed documents of the application.
pub lookup-mark_all :
    (app : String) (ids : List String) (own d : String) (m : Dict Key DocumentRecord)
    → lookup (own, d) (mark_all app ids m)
      ≡ mark_if (app == own && listed d ids) (lookup (own, d) m)
lookup-mark_all app [] own d m = elim (Option-cases (lookup (own, d) m)) [
  | inl e ↦ rw e
  | inr (r, e) ↦ rw e (ground arith)
]
lookup-mark_all app (x ∷ ids) own d m =
    rw (lookup-mark_all app ids own d (mark_one app x m), lookup-mark_step app x (own, d) m)
      (mark_if_twice (app == own) (x == d) (listed d ids) (lookup (own, d) m))
