-- ===== src/Ingest/GpuLease/Returning.antt =====
-- What a batch under the lease of src/findociq/ingest/gpu_lease.py returns, its body returned.
use fin_docs_analysis_evals.Common.{string_eq, Bool, true, false, ◌≡◌, Result, ok, err}
use fin_docs_analysis_evals.Ingest.Run.{
  Failure, Run, finally, after_cleanup, set_batch_sleeping, ◌>>◌,
}
use fin_docs_analysis_evals.Ingest.Run.Returning.{Returns, bind-Returns}
use fin_docs_analysis_evals.Ingest.GpuLease.{
  GpuLeaseConfig, Requester, sleep, leased, ingestion_batch, both_failed, restored,
}

pub finally-Returns :
    {A : Type 0} (P : A → Type 0) (m : Run A) (k : Run (Unit {0}))
    → Returns P m
    → Returns P (finally m k)
finally-Returns {A = A} P m k h p a e = h p a (of_cleanup (m p).0 (k (m p).1).0 e)
  where
    of_cleanup :
        (r : Result Failure A) (s : Result Failure (Unit {0})) → after_cleanup r s ≡ ok a → r ≡ ok a
    of_cleanup r (ok u) e = e
    of_cleanup r (err f) e = cc

pub ingestion_batch-Returns :
    {A : Type 0} (P : A → Type 0) (requester : Requester) (config : GpuLeaseConfig) (body : Run A)
    → Returns P body
    → Returns P (ingestion_batch requester config body)
unfolding ingestion_batch restored
ingestion_batch-Returns {A = A} P requester config body h = by_flag config.enabled
  where
    of_wake :
        (r : Result Failure A) (w : Result Failure (Unit {0})) (a : A)
        → both_failed r w ≡ ok a
        → r ≡ ok a
    of_wake (ok b) (ok u) a e = e
    of_wake (err f) (ok u) a e = cc
    of_wake (ok b) (err g) a e = cc
    of_wake (err f) (err g) a e = cc

    by_flag : (b : Bool) → Returns P (leased requester b body)
    by_flag false = h
    by_flag true =
        bind-Returns P (sleep requester) (λ _. set_batch_sleeping true >> restored requester body)
          λ u.
            bind-Returns P (set_batch_sleeping true) (λ _. restored requester body)
              λ v p a e. h p a (of_wake _ _ a e)
