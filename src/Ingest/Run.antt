-- ===== src/Ingest/Run.antt =====
-- Actions of the ingestion service (src/findociq/api/ingestion.py, src/findociq/ingest/gpu_lease.py)
-- on what the process has done so far.
pub mod Extending
pub mod Returning
use fin_docs_analysis_evals.Common.{
  String, Bool, Option, none, some, List, ◌∷◌, Result, ok, err, if◌then◌else◌,
}

pub data Method : Type 0 where
  get post : Method

-- What the process does outside itself, and what it reports to the caller.
pub data Effect : Type 0 where
  http : Method → String → Effect
  emit : String → Effect
  -- the file that is stored, and its state
  store : String → String → Effect
  scan : String → Effect
  parse : String → Effect
  embed : List String → Effect
  upsert : List String → Effect
  release_models : Effect

pub data Failure : Type 0 where
  gpu_lease_error : Failure
  ingestion_error : String → Failure
  -- any other exception of the code outside
  other_error : String → Failure
  -- `ExceptionGroup`
  error_group : Failure → Failure → Failure

-- The effects, the latest first, and the flag `_batch_sleeping`.
pub record Process : Type 0 where
  pub effects : List Effect
  pub batch_sleeping : Bool

abbrev pub Run : Type 0 → Type 0
Run A = Process → Result Failure A × Process

abbrev pub perform : Effect → Run (Unit {0})
perform e p = (ok tt, record p { effects = e ∷ p.effects })

abbrev pub set_batch_sleeping : Bool → Run (Unit {0})
set_batch_sleeping b p = (ok tt, record p { batch_sleeping = b })

abbrev pub fail : {A : Type 0} → Failure → Run A
fail e p = (err e, p)

abbrev pub done : {A : Type 0} → A → Run A
done a p = (ok a, p)

abbrev pub from_result : {A : Type 0} → Result Failure A → Run A
from_result r p = (r, p)

abbrev pub resume : {A B : Type 0} → Result Failure A → (A → Run B) → Run B
resume (err e) k p = (err e, p)
resume (ok a) k p = k a p

infixl 5 ◌>>=◌ ◌>>◌
abbrev pub ◌>>=◌ : {A B : Type 0} → Run A → (A → Run B) → Run B
◌>>=◌ m k p = let (r, q) = m p in resume r k q

abbrev pub ◌>>◌ : {B : Type 0} → Run (Unit {0}) → Run B → Run B
m >> k = m >>= λ _. k

-- The outcome `r` of a body that left `q`, after the clean-up `k`, which may fail itself.
abbrev pub after_cleanup :
    {A : Type 0} → Result Failure A → Result Failure (Unit {0}) → Result Failure A
after_cleanup r (ok _) = r
after_cleanup r (err e) = err e

-- `try: m finally: k`; an exception of `k` takes the place of the outcome.
abbrev pub finally : {A : Type 0} → Run A → Run (Unit {0}) → Run A
finally m k p = let (r, q) = m p in let (s, q') = k q in (after_cleanup r s, q')

abbrev pub unless_given : {A : Type 0} → Option A → Run (Unit {0}) → Run (Unit {0})
unless_given none m = m
unless_given (some _) m = done tt

abbrev pub raise_when : Bool → Failure → Run (Unit {0})
raise_when c e = if c then fail e else done tt
