-- ===== src/Ingest/Activity.antt =====
-- `IngestionActivityRegistry` of src/findociq/api/activity.py; its lock makes each method atomic.
pub mod Laws
use fin_docs_analysis_evals.Common.{
  string_eq, ℕ, suc, ◌+◌, ◌-◌, ltb, leb, String, Bool, true, false, not, ◌&&◌, Option, none, some,
  List, [], ◌∷◌, ◌++◌, ◌==◌, length, drop, keep, is_some, if◌then◌else◌,
}
use fin_docs_analysis_evals.Common.Dict.{Dict, lookup, insert}
use fin_docs_analysis_evals.Reason.Calculate.{truthy}

pub record ActivityEvent : Type 0 where
  pub sequence : ℕ
  pub stage : String
  pub message : String

pub data ActivityStatus : Type 0 where
  pending running completed failed : ActivityStatus

pub record Activity : Type 0 where
  pub max_batches : ℕ
  pub max_events_per_batch : ℕ
  pub events : Dict String (List ActivityEvent)
  pub statuses : Dict String ActivityStatus
  pub sequences : Dict String ℕ
  pub applications : Dict String String

-- `d.pop(k, None)`
abbrev pub pop : {V : Type 0} → String → Dict String V → Dict String V
pop k [] = []
pop k ((j, v) ∷ d) = let rest = pop k d in if j == k then rest else (j, v) ∷ rest

abbrev pub evict : String → Activity → Activity
evict oldest s = record s {
  events = pop oldest s.events;
  statuses = pop oldest s.statuses;
  sequences = pop oldest s.sequences;
  applications = pop oldest s.applications;
}

-- `none` is the `StopIteration` of `next(iter({}))`, when no batch is allowed at all.
abbrev pub evict_first : Dict String (List ActivityEvent) → Activity → Option Activity
evict_first [] s = none
evict_first ((oldest, _) ∷ rest) s = some (evict oldest s)

abbrev pub with_room : String → Activity → Option Activity
with_room batch_id s =
    if not (is_some (lookup batch_id s.events)) && leb s.max_batches (length s.events)
    then evict_first s.events s
    else some s

abbrev pub set_application : String → Option String → Dict String String → Dict String String
set_application batch_id none d = d
set_application batch_id (some app) d = if app == "" then d else insert batch_id app d

abbrev pub started : String → Option String → Option Activity → Option Activity
started batch_id application_id none = none
started batch_id application_id (some s) = some (record s {
  events = insert batch_id [] s.events;
  statuses = insert batch_id running s.statuses;
  sequences = insert batch_id 0 s.sequences;
  applications = set_application batch_id application_id s.applications;
})

unfoldable pub start : String → Option String → Activity → Option Activity
start batch_id application_id s = started batch_id application_id (with_room batch_id s)

abbrev pub application_of : String → Activity → Option String
application_of batch_id s = lookup batch_id s.applications

abbrev pub events_or_none : Option (List ActivityEvent) → List ActivityEvent
events_or_none none = []
events_or_none (some es) = es

abbrev pub or_zero : Option ℕ → ℕ
or_zero none = 0
or_zero (some n) = n

abbrev pub set_default : String → Dict String ActivityStatus → Dict String ActivityStatus
set_default batch_id d = if is_some (lookup batch_id d) then d else insert batch_id running d

-- `del events[: len(events) - limit]` when there are more than `limit`
abbrev pub latest : ℕ → List ActivityEvent → List ActivityEvent
latest limit es = if ltb limit (length es) then drop (length es - limit) es else es

unfoldable pub report : String → String → String → Activity → Activity
report batch_id stage message s =
    let sequence = or_zero (lookup batch_id s.sequences) + 1 in
    let event : ActivityEvent = record { sequence = sequence; stage = stage; message = message } in
    record s {
      events =
          insert batch_id
            (latest s.max_events_per_batch
              (events_or_none (lookup batch_id s.events) ++ (event ∷ [])))
            s.events;
      statuses = set_default batch_id s.statuses;
      sequences = insert batch_id sequence s.sequences;
    }

unfoldable pub finish : String → ActivityStatus → Activity → Activity
finish batch_id status s = record s { statuses = insert batch_id status s.statuses }

pub record Snapshot : Type 0 where
  pub status : ActivityStatus
  pub shown : List ActivityEvent
  pub last_sequence : ℕ

abbrev pub last_of : List ActivityEvent → ℕ
last_of [] = 0
last_of (e ∷ []) = e.sequence
last_of (e ∷ (f ∷ es)) = last_of (f ∷ es)

abbrev pub or_pending : Option ActivityStatus → ActivityStatus
or_pending none = pending
or_pending (some s) = s

abbrev pub snapshot_of : ℕ → ActivityStatus → Option (List ActivityEvent) → Option Snapshot
snapshot_of after status none = none
snapshot_of after status (some es) = some (record {
  status = status;
  shown = keep (λ e. ltb after e.sequence) es;
  last_sequence = last_of es;
})

unfoldable pub snapshot : String → ℕ → Activity → Option Snapshot
snapshot batch_id after s =
    snapshot_of after (or_pending (lookup batch_id s.statuses)) (lookup batch_id s.events)
