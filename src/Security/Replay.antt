-- ===== src/Security/Replay.antt =====
-- `InMemoryReplayLedger` of src/findociq/security/auth.py. A time is a number of microseconds.
use fin_docs_analysis_evals.Common.{
  string_eq, ℕ, String, ◌≡◌, Bool, true, false, some, List, [], ◌∷◌, ◌==◌, is_some, ltb, keep,
  if◌then◌else◌, arith, ◌<◌, ◌≤◌, Bool-cases, inl, inr,
}
use text.Mathlib.TextEquality.{eq_iff}
use fin_docs_analysis_evals.Common.Dict.{Dict, lookup, insert, lookup-insert}

abbrev pub Ledger : Type 0
Ledger = Dict String ℕ

-- `{key: value for key, value in self._entries.items() if value > now}`
abbrev pub purge : ℕ → Ledger → Ledger
purge now entries = keep (λ (e : String × ℕ). ltb now e.1) entries

unfoldable pub consume : String → ℕ → ℕ → Ledger → Bool × Ledger
consume jti expires_at now entries =
    let live = purge now entries in
    if is_some (lookup jti live) then (false, live) else (true, insert jti expires_at live)

-- Some entry of the token outlives `now`.
abbrev pub Holds : String → ℕ → Ledger → Type 0
Holds jti until entries = (e : ℕ) × (lookup jti entries ≡ some e) × (until ≤ e)

purge-Holds :
    (jti : String) (until now : ℕ) (entries : Ledger)
    → now < until
    → Holds jti until entries
    → Holds jti until (purge now entries)
purge-Holds jti until now [] lt (e, found, long) = (e, found, long)
purge-Holds jti until now ((k, v) ∷ entries) lt (e, found, long) = elim (Bool-cases (k == jti)) [
  | inl here ↦ (e, ground arith, long)
  | inr there ↦
      let (e', found', long') = purge-Holds jti until now entries lt (e, ground arith, long) in
      (e', ground arith, long')
]

-- While a token has not expired, no consumption by anybody makes the ledger forget it.
pub consume-Holds :
    (jti other : String) (until expires_at now : ℕ) (entries : Ledger)
    → now < until
    → Holds jti until entries
    → Holds jti until (consume other expires_at now entries).1
unfolding consume
consume-Holds jti other until expires_at now entries lt h =
    let (e, found, long) = purge-Holds jti until now entries lt h in
    elim (Bool-cases (is_some (lookup other (purge now entries)))) [
      | inl seen ↦ rw seen (e, found, long)
      | inr new ↦ rw new (
        e,
        rw (lookup-insert other jti expires_at (purge now entries))
            (ground (arith, eq_iff other jti)),
        long,
      )
    ]

consumed-Holds :
    (jti : String) (expires_at now : ℕ) (entries : Ledger)
    → (consume jti expires_at now entries).0 ≡ true
    → Holds jti expires_at (consume jti expires_at now entries).1
unfolding consume
consumed-Holds jti expires_at now entries h =
    elim (Bool-cases (is_some (lookup jti (purge now entries)))) [
      | inl seen ↦ absurd (ground arith)
      | inr new ↦ rw new (
        expires_at,
        rw (lookup-insert jti jti expires_at (purge now entries)) (ground (arith, eq_iff jti jti)),
        omega arith,
      )
    ]

held_refused :
    (jti : String) (until expires_at now : ℕ) (entries : Ledger)
    → now < until
    → Holds jti until entries
    → (consume jti expires_at now entries).0 ≡ false
unfolding consume
held_refused jti until expires_at now entries lt h =
    let (e, found, long) = purge-Holds jti until now entries lt h in rw found

-- What other tokens consume between two uses: token, expiry and time of the call.
abbrev pub consume_all : List (String × ℕ × ℕ) → Ledger → Ledger
consume_all [] entries = entries
consume_all ((jti, expires_at, now) ∷ rest) entries =
    consume_all rest (consume jti expires_at now entries).1

abbrev pub AllBefore : ℕ → List (String × ℕ × ℕ) → Type 0
AllBefore until [] = Unit
AllBefore until ((_, _, now) ∷ rest) = (now < until) × AllBefore until rest

consume_all-Holds :
    (jti : String) (until : ℕ) (calls : List (String × ℕ × ℕ)) (entries : Ledger)
    → AllBefore until calls
    → Holds jti until entries
    → Holds jti until (consume_all calls entries)
consume_all-Holds jti until [] entries before h = h
consume_all-Holds jti until ((other, expires_at, now) ∷ rest) entries before h =
    consume_all-Holds jti until rest (consume other expires_at now entries).1 before.1
      (consume-Holds jti other until expires_at now entries before.0 h)

-- A token that was consumed is refused until it expires, whatever is consumed in between.
pub consume_once :
    (jti : String) (expires_at again now later : ℕ) (calls : List (String × ℕ × ℕ))
    (entries : Ledger)
    → (consume jti expires_at now entries).0 ≡ true
    → AllBefore expires_at calls
    → later < expires_at
    → (consume jti again later (consume_all calls (consume jti expires_at now entries).1)).0 ≡ false
consume_once jti expires_at again now later calls entries first before lt =
    held_refused jti expires_at again later
      (consume_all calls (consume jti expires_at now entries).1) lt
      (consume_all-Holds jti expires_at calls (consume jti expires_at now entries).1 before
        (consumed-Holds jti expires_at now entries first))
