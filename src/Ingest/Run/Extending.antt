-- ===== src/Ingest/Run/Extending.antt =====
-- Actions that only add to what was done before.
use fin_docs_analysis_evals.Common.{
  Bool, true, false, ◌≡◌, refl, ◌∙◌, ap, List, [], ◌∷◌, ◌++◌, Result, ok, err,
}
use fin_docs_analysis_evals.Ingest.Run.{Effect, Failure, Process, Run, resume, raise_when, ◌>>=◌}

-- `q` has done all that `p` has, and then more.
abbrev pub Extends : Process → Process → Type 0
Extends p q = (later : List Effect) × (q.effects ≡ later ++ p.effects)

abbrev pub IsExtending : {A : Type 0} → Run A → Type 0
IsExtending m = (p : Process) → Extends p (m p).1

append_assoc : (xs ys zs : List Effect) → xs ++ (ys ++ zs) ≡ (xs ++ ys) ++ zs
append_assoc [] ys zs = refl
append_assoc (x ∷ xs) ys zs = ap (λ l. x ∷ l) (append_assoc xs ys zs)

pub Extends-trans : (p q r : Process) → Extends p q → Extends q r → Extends p r
Extends-trans p q r (a, e) (b, f) = (b ++ a, f ∙ ap (λ l. b ++ l) e ∙ append_assoc b a p.effects)

pub resume-Extends :
    {A B : Type 0} (r : Result Failure A) (k : A → Run B) (p : Process)
    → ((a : A) → IsExtending (k a))
    → Extends p (resume r k p).1
resume-Extends (ok a) k p h = h a p
resume-Extends (err e) k p h = ([], refl)

pub bind-IsExtending :
    {A B : Type 0} (m : Run A) (k : A → Run B)
    → IsExtending m
    → ((a : A) → IsExtending (k a))
    → IsExtending (m >>= k)
bind-IsExtending m k hm hk p =
    Extends-trans p (m p).1 (resume (m p).0 k (m p).1).1 (hm p)
      (resume-Extends (m p).0 k (m p).1 hk)

pub raise_when-IsExtending : (c : Bool) (e : Failure) → IsExtending (raise_when c e)
raise_when-IsExtending true e p = ([], refl)
raise_when-IsExtending false e p = ([], refl)
