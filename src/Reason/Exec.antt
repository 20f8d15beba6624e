-- ===== src/Reason/Exec.antt =====
-- Extraction may raise, and may write to a cache: an action on a state that returns or raises. What
-- was written before a raise stays written.
use fin_docs_analysis_evals.Common.{String, Option, none, some, List, [], ◌∷◌, Result, ok, err}

-- The codes of `EvidenceInsufficient` that this part of the program raises or tells apart; any
-- other code of the source is `other_code`.
pub data Code : Type 0 where
  metric_missing metric_not_allowed context_conflict value_ambiguous conflicting_values : Code
  scope_violation latest_period_missing : Code
  other_code : String → Code

-- An exception: `EvidenceInsufficient` with its code, or one that no handler here catches.
pub data Raised : Type 0 where
  evidence : Code → Raised
  key_error value_error : Raised

abbrev pub Exec : Type 0 → Type 0 → Type 0
Exec S A = S → Result Raised A × S

abbrev pub raise : {S A : Type 0} → Raised → Exec S A
raise e cache = (err e, cache)

abbrev pub pure : {S A : Type 0} → A → Exec S A
pure value cache = (ok value, cache)

-- An action that leaves the cache as it is.
abbrev pub lift : {S A : Type 0} → Result Raised A → Exec S A
lift result cache = (result, cache)

-- The next step of a computation without state.
abbrev pub and_then : {A B : Type 0} → Result Raised A → (A → Result Raised B) → Result Raised B
and_then (ok value) next = next value
and_then (err e) next = err e

module _ {S B : Type 0} where
  abbrev pub continue : {A : Type 0} → Result Raised A → (A → Exec S B) → Exec S B
  continue (err e) next cache = (err e, cache)
  continue (ok value) next cache = next value cache

infixl 5 ◌>>=◌ ◌>>◌
abbrev pub ◌>>=◌ : {S A B : Type 0} → Exec S A → (A → Exec S B) → Exec S B
◌>>=◌ first next cache = let (result, after) = first cache in continue result next after

abbrev pub ◌>>◌ : {S B : Type 0} → Exec S (Unit {0}) → Exec S B → Exec S B
first >> second = first >>= λ _. second

-- `except EvidenceInsufficient as error: if error.code != "evidence_metric_missing": raise`, where
-- a missing metric is noted by `none`.
abbrev pub unless_missing : {A : Type 0} → Result Raised A → Result Raised (Option A)
unless_missing (ok a) = ok (some a)
unless_missing (err (evidence metric_missing)) = ok none
unless_missing (err e) = err e

abbrev pub optional : {S A : Type 0} → Exec S A → Exec S (Option A)
optional m s = let (r, s') = m s in (unless_missing r, s')

abbrev pub with_found : {A : Type 0} → Option A → List A → List A
with_found none xs = xs
with_found (some a) xs = a ∷ xs

-- The values that are not missing, in order.
unfoldable pub gather : {S A : Type 0} → (String → Exec S A) → List String → Exec S (List A)
gather extract [] = pure []
gather extract (name ∷ names) = do
  found ← optional (extract name)
  rest ← gather extract names
  pure (with_found found rest)
