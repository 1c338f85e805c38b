-- ===== src/Proctor/Tests.antt =====
-- socket/proctorService.ts run on the sample attempt, and its theorems at concrete inputs.
use test_platform.Base.{ℕ, ◌≡◌, refl, false, none, some, List, [], ◌∷◌}
use test_platform.Redis.Memory.{Cells, Groups}
use test_platform.Platform.{Attempt}
use test_platform.Platform.Memory.{Rows, Queue, table}
use test_platform.Platform.Sample.{attempt, app}
use test_platform.Proctor.{
  tab_leave, tab_return, paste_attempt, pos, negsuc, ProctorEventData, Monitor, is_high,
  get_severity, update_integrity_counters, get_violation_count, record_event, log_proctor_event,
  calculate_integrity_score, get_integrity_summary,
}
use test_platform.Proctor.Counters.{run_reports}

proctoring : Unit {0}
unfolding get_severity update_integrity_counters get_violation_count record_event log_proctor_event
    run_reports calculate_integrity_score get_integrity_summary
proctoring = tt

abbrev quiet : Monitor Cells Groups Rows Queue
quiet = record { app = app; events = []; warnings = []; published = [] }

abbrev leaves : ProctorEventData
leaves = record {
  attempt_id = 7;
  event_type = some tab_leave;
  duration = none;
  paste_length = none;
  is_multiline = none;
}

abbrev returns : ProctorEventData
returns = record leaves { event_type = some tab_return; duration = some (pos 100000) }

abbrev pastes : ProctorEventData
pastes = record leaves { event_type = some paste_attempt; paste_length = some 40 }

-- The candidate leaves, returns and pastes, and somebody else reports too.
abbrev reports : List (ℕ × ℕ × ProctorEventData)
reports = (2000, 1, leaves) ∷ (3000, 2, leaves) ∷ (4000, 1, returns) ∷ (5000, 1, pastes) ∷ []

abbrev after : Attempt
after = record attempt { tab_exits = 1; total_out_of_window_seconds = 86400; paste_attempts = 1 }

tests :
    (table.find 7 (run_reports table reports quiet).app.attempts ≡ some after)
    × ((run_reports table reports quiet).published
        ≡ (7, paste_attempt, 1) ∷ (7, tab_return, 1) ∷ (7, tab_leave, 1) ∷ [])
    × ((log_proctor_event table 2000 1 (record leaves { event_type = none }) quiet)
        ≡ (false, quiet))
    × (table.find 7
          (log_proctor_event table 2000 1
            (record returns { duration = some (negsuc 4) })
            quiet).1.app.attempts
        ≡ some attempt)
    × (get_severity paste_attempt 1 ≡ is_high)
    × (calculate_integrity_score (record attempt { tab_exits = 3; paste_attempts = 2 }) ≡ 55)
    × (calculate_integrity_score after ≡ 0)
unfolding proctoring
tests = (refl, refl, refl, refl, refl, refl, refl)
