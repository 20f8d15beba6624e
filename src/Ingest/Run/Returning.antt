-- ===== src/Ingest/Run/Returning.antt =====
-- What holds of the value that an action returns.
use fin_docs_analysis_evals.Common.{◌≡◌, refl, subst, Result, ok, err}
use fin_docs_analysis_evals.Ingest.Run.{Failure, Process, Run, resume, done, from_result, ◌>>=◌}

abbrev pub Returns : {A : Type 0} → (A → Type 0) → Run A → Type 0
Returns {A = A} P m = (p : Process) (a : A) → (m p).0 ≡ ok a → P a

ok_injective : {A : Type 0} (a b : A) → ◌≡◌ {A = Result Failure A} (ok a) (ok b) → a ≡ b
ok_injective a b q = cc

resume-Returns :
    {A B : Type 0} (P : B → Type 0) (r : Result Failure A) (k : A → Run B) (q : Process) (b : B)
    → ((a : A) → r ≡ ok a → Returns P (k a))
    → (resume r k q).0 ≡ ok b
    → P b
resume-Returns P (ok a) k q b h e = h a refl q b e
resume-Returns P (err f) k q b h e = cc

pub bind-Returns :
    {A B : Type 0} (P : B → Type 0) (m : Run A) (k : A → Run B)
    → ((a : A) → Returns P (k a))
    → Returns P (m >>= k)
bind-Returns P m k h p b e = resume-Returns P (m p).0 k (m p).1 b (λ a _. h a) e

-- The continuation may use what holds of the first action's value.
pub bind-Returns-Returns :
    {A B : Type 0} (Q : A → Type 0) (P : B → Type 0) (m : Run A) (k : A → Run B)
    → Returns Q m
    → ((a : A) → Q a → Returns P (k a))
    → Returns P (m >>= k)
bind-Returns-Returns Q P m k first h p b e =
    resume-Returns P (m p).0 k (m p).1 b (λ a got. h a (first p a got)) e

pub from_result-Returns :
    {A : Type 0} (r : Result Failure A) → Returns (λ a. r ≡ ok a) (from_result r)
from_result-Returns r p a e = e

pub done-Returns : {A : Type 0} (P : A → Type 0) (a : A) → P a → Returns P (done a)
done-Returns {A = A} P a h p b e = go b (ok_injective a b e)
  where
    go : (b : A) → a ≡ b → P b
    go b q = subst P q h
