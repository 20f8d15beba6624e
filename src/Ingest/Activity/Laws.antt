-- ===== src/Ingest/Activity/Laws.antt =====
-- Progress is numbered, bounded and kept apart.
use fin_docs_analysis_evals.Common.{
  string_eq, ℕ, ◌-◌, ◌≤◌, ◌≡◌, refl, String, false, Option, none, some, List, ◌==◌, length,
  length-drop, arith,
}
use fin_docs_analysis_evals.Common.Dict.{lookup, lookup-insert}
use fin_docs_analysis_evals.Ingest.Activity.{ActivityEvent, Activity, latest, report, Snapshot}

pub length-latest : (limit : ℕ) (es : List ActivityEvent) → length (latest limit es) ≤ limit
length-latest limit es = ground (arith, length-drop (length es - limit) es)

abbrev pub last_shown : Option Snapshot → Option ℕ
last_shown none = none
last_shown (some s) = some s.last_sequence

-- A report on one batch leaves what is shown of another as it was.
pub snapshot-report_ne :
    (batch_id other stage message : String) (after : ℕ) (s : Activity)
    → (batch_id == other) ≡ false
    → lookup other (report batch_id stage message s).events ≡ lookup other s.events
unfolding report
snapshot-report_ne batch_id other stage message after s h =
    rw (lookup-insert batch_id other _ s.events, h) refl
