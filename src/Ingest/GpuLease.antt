-- ===== src/Ingest/GpuLease.antt =====
-- `VllmGpuLease` of src/findociq/ingest/gpu_lease.py. The lock is re-entrant and held for the whole of
-- a batch; one thread is modelled.
pub mod Laws
pub mod Returning
use fin_docs_analysis_evals.Common.{
  ℕ, String, Bool, true, false, not, ◌||◌, Option, none, some, List, [], ◌∷◌, Result, ok, err,
  if◌then◌else◌,
}
use fin_docs_analysis_evals.Ingest.Run.{
  Method, get, post, Effect, http, Failure, gpu_lease_error, error_group, Process, Run, perform,
  fail, done, from_result, set_batch_sleeping, ◌>>=◌, ◌>>◌, raise_when, finally,
}

-- What `_sleep_state` tells apart of a reply.
pub data Payload : Type 0 where
  boolean : Bool → Payload
  -- an object, and its `is_sleeping` where that is a Boolean
  object : Option Bool → Payload
  other_payload : Payload

pub record GpuLeaseConfig : Type 0 where
  pub enabled : Bool
  pub base_url : String
  pub timeout_seconds : ℕ

-- `GpuRequester`: the reply to a request, which may depend on all that was done before; `none` is an
-- exception of the request.
abbrev pub Requester : Type 0
Requester = List Effect → Method → String → Option Payload

abbrev pub reply : Option Payload → Result Failure Payload
reply none = err gpu_lease_error
reply (some payload) = ok payload

abbrev pub sleep_flag : Payload → Result Failure Bool
sleep_flag (boolean b) = ok b
sleep_flag (object (some b)) = ok b
sleep_flag (object none) = err gpu_lease_error
sleep_flag other_payload = err gpu_lease_error

abbrev pub both_failed :
    {A : Type 0} → Result Failure A → Result Failure (Unit {0}) → Result Failure A
both_failed r (ok _) = r
both_failed (ok a) (err w) = err w
both_failed (err e) (err w) = err (error_group e w)

module _ (requester : Requester) where
  -- `_call`
  unfoldable pub call : Method → String → Run Payload
  call method path p =
      (reply (requester p.effects method path), record p { effects = http method path ∷ p.effects })

  unfoldable pub sleep_state : Run Bool
  sleep_state = call get "/is_sleeping" >>= λ payload. from_result (sleep_flag payload)

  -- `_sleep`; the configured level is always 1
  unfoldable pub sleep : Run (Unit {0})
  sleep = call post "/sleep?level=1" >>= λ _.
      sleep_state >>= λ asleep. raise_when (not asleep) gpu_lease_error

  -- `_wake`
  unfoldable pub wake : Run (Unit {0})
  wake = call post "/wake_up" >>= λ _. sleep_state >>= λ asleep.
      raise_when asleep gpu_lease_error >> (call get "/health" >>= λ _. done tt)

  -- The `try` of `ingestion_batch`.
  unfoldable pub restored : {A : Type 0} → Run A → Run A
  restored body p =
      let (r, q) = body p in
      let (w, q') = wake q in (both_failed r w, record q' { batch_sleeping = false })

  -- `if not self.config.enabled:` first
  abbrev pub leased : {A : Type 0} → Bool → Run A → Run A
  leased false body = body
  leased true body = sleep >> (set_batch_sleeping true >> restored body)

  -- `with lease.ingestion_batch(): body`
  unfoldable pub ingestion_batch : {A : Type 0} → GpuLeaseConfig → Run A → Run A
  ingestion_batch config body = leased config.enabled body

  -- `_wake`, the body and, whatever it did, `_sleep`
  abbrev pub awake : {A : Type 0} → Run A → Run A
  awake body = wake >> finally body sleep

  -- `with lease.generation_fallback(): body`
  unfoldable pub generation_fallback : {A : Type 0} → GpuLeaseConfig → Run A → Run A
  generation_fallback config body p =
      if not config.enabled || not p.batch_sleeping then body p else awake body p
