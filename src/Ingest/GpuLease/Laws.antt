-- ===== src/Ingest/GpuLease/Laws.antt =====
-- The lease gives the GPU back.
use fin_docs_analysis_evals.Common.{String, true, false, ◌≡◌, refl, List, [], ◌∷◌, ◌++◌, ok}
use fin_docs_analysis_evals.Ingest.Run.{
  Method, get, post, Effect, http, gpu_lease_error, Process, Run, done, from_result, raise_when,
  ◌>>=◌, ◌>>◌,
}
use fin_docs_analysis_evals.Ingest.Run.Extending.{
  IsExtending, resume-Extends, bind-IsExtending, raise_when-IsExtending,
}
use fin_docs_analysis_evals.Ingest.GpuLease.{
  GpuLeaseConfig, Requester, Payload, reply, sleep_flag, call, sleep_state, sleep, wake, restored,
  ingestion_batch, leased,
}

module _ (requester : Requester) where
  call-IsExtending : (m : Method) (path : String) → IsExtending (call requester m path)
  unfolding call
  call-IsExtending m path p = (http m path ∷ [], refl)

  sleep_state-IsExtending : IsExtending (sleep_state requester)
  unfolding sleep_state
  sleep_state-IsExtending =
      bind-IsExtending (call requester get "/is_sleeping")
        (λ payload. from_result (sleep_flag payload)) (call-IsExtending get "/is_sleeping")
        (λ payload p. ([], refl))

  -- After the first request of `_wake`.
  abbrev woken : Payload → Run (Unit {0})
  woken _ = sleep_state requester >>= λ asleep.
      raise_when asleep gpu_lease_error >> (call requester get "/health" >>= λ _. done tt)

  woken-IsExtending : (payload : Payload) → IsExtending (woken payload)
  woken-IsExtending payload =
      bind-IsExtending (sleep_state requester) _ sleep_state-IsExtending λ asleep.
        bind-IsExtending (raise_when asleep gpu_lease_error) _
          (raise_when-IsExtending asleep gpu_lease_error)
          λ u.
            bind-IsExtending (call requester get "/health") _ (call-IsExtending get "/health")
              λ payload p. ([], refl)

  wake-requests :
      (p : Process)
      → (later : List Effect) × ((wake requester p).1.effects
          ≡ later ++ (http post "/wake_up" ∷ p.effects))
  unfolding wake call
  wake-requests p =
      resume-Extends (reply (requester p.effects post "/wake_up")) woken
        (record p { effects = http post "/wake_up" ∷ p.effects }) woken-IsExtending

  -- With the lease enabled and the model server put to sleep, whatever the body of a batch does, the
  -- request after its last effect wakes the server up, and the lease no longer counts it as asleep.
  pub ingestion_batch-wakes :
      {A : Type 0} (config : GpuLeaseConfig) (body : Run A) (p asleep : Process)
      → config.enabled ≡ true
      → sleep requester p ≡ (ok tt, asleep)
      → ((later : List Effect) × ((ingestion_batch requester config body p).1.effects
            ≡ later
              ++ (http post "/wake_up"
                  ∷ (body (record asleep { batch_sleeping = true })).1.effects)))
        × ((ingestion_batch requester config body p).1.batch_sleeping ≡ false)
  unfolding ingestion_batch restored
  ingestion_batch-wakes config body p asleep on slept =
      rw (on, leased, slept)
        (wake-requests (body (record asleep { batch_sleeping = true })).1, refl)
