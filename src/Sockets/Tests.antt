-- ===== src/Sockets/Tests.antt =====
-- The handlers of socket/examHandlers.ts run on the sample attempt and a second one of another candidate,
-- and their theorems at concrete inputs.
use test_platform.Base.{
  ℕ, Bool, ◌||◌, ◌==◌, ◌≤◌, ◌≡◌, refl, true, false, none, some, List, [], ◌∷◌, arith, is_some, All,
}
use test_platform.Redis.Keys.{candidate}
use test_platform.Redis.Memory.{strings, sets, Cells, Groups}
use test_platform.Platform.{Attempt, set_files}
use test_platform.Platform.Memory.{Rows, Queue, table, streams}
use test_platform.Platform.Sample.{new_files, outside, challenge, exam_of, attempt, bare}
use test_platform.Presence.{
  forget_socket, remove_session, check_other, check_others, add_session, track_session,
  update_session_activity,
}
use test_platform.Autosave.{
  save_to_buffer, read_buffer, write_back, flush_to_database, flush_attempts, flush_all_dirty,
}
use test_platform.Timers.{is_timer_handled, end_time_of, start_timer}
use test_platform.Attempts.{submit}
use test_platform.Attempts.Runs.{IsOpenFor}
use test_platform.Attempts.Writes.{submitted_row, submitted_files}
use test_platform.Proctor.{
  paste_attempt, ProctorEventData, update_integrity_counters, get_violation_count, record_event,
  log_proctor_event,
}
use test_platform.Sockets.{
  Socket, Session, set_app, attempt_of_user, enter_room, attempt_join, code_save, code_flush,
  proctor_event, attempt_leave, monitor_join, monitor_leave, disconnect, refresh_user,
}
use test_platform.Sockets.Events.{
  Message, joins, saves, flushes, reports, disconnects, refreshes, is_of, time_of, step, run,
}
use test_platform.Sockets.Ownership.{Owns}
use test_platform.Sockets.Isolation.{IsUntouched, run-IsUntouched}
use test_platform.Sockets.Joining.{attempt_join-second_tab}
use test_platform.Sockets.Replaced.{code_save-submitted}

handlers : Unit {0}
unfolding forget_socket remove_session check_other check_others add_session track_session
    update_session_activity save_to_buffer read_buffer write_back flush_to_database flush_attempts
    flush_all_dirty is_timer_handled end_time_of start_timer update_integrity_counters
    get_violation_count record_event log_proctor_event attempt_of_user enter_room attempt_join
    code_save code_flush proctor_event attempt_leave monitor_join monitor_leave disconnect
    refresh_user step run
handlers = tt

abbrev theirs : Attempt
theirs = record attempt { id = 9; candidate_id = 2 }

abbrev tab : Socket
tab = record {
  id = 20;
  user_id = 1;
  role = candidate;
  attempt_id = none;
  monitoring_exam_id = none;
  rooms = [];
}

abbrev second_tab : Socket
second_tab = record tab { id = 21 }

abbrev connected : Session Cells Groups Rows Queue
connected = record {
  socket = tab;
  monitor = record {
    app = bare ((7, attempt) ∷ (9, theirs) ∷ []);
    events = [];
    warnings = [];
    published = [];
  };
}

abbrev pastes : ProctorEventData
pastes = record {
  attempt_id = 7;
  event_type = some paste_attempt;
  duration = none;
  paste_length = some 40;
  is_multiline = none;
}

-- Joins the own attempt and not the other's, saves, flushes, pastes, goes, and gets the token of user 3.
abbrev messages : List Message
messages =
    joins 2000 50 9
    ∷ joins 3000 50 7
    ∷ saves 4000 7 new_files
    ∷ saves 4500 9 outside
    ∷ flushes 5000 7
    ∷ reports 6000 pastes
    ∷ disconnects 7000
    ∷ refreshes 7500 (some (record { user_id = 3; email = 13; role = candidate }))
    ∷ []

abbrev after : Attempt
after = record attempt { files = some new_files; paste_attempts = 1; tab_exits = 1 }

tests :
    (table.find 7
        (run strings sets table streams exam_of 600 messages connected).monitor.app.attempts
      ≡ some after)
    × ((code_save strings sets table streams exam_of 4000 600 7 new_files connected).0 ≡ false)
    × ((monitor_join strings sets table streams exam_of 3 connected).0 ≡ false)
unfolding handlers
tests = (refl, refl, refl)

in_time : All (λ e. time_of e ≤ 8000) messages
in_time = (
  omega arith,
  (
    omega arith,
    (omega arith, (omega arith, (omega arith, (omega arith, (omega arith, (omega arith, tt)))))),
  ),
)

abbrev both_users : ℕ → Bool
both_users u = u == 1 || u == 3

within : All (λ e. is_of both_users e ≡ true) messages
within = (refl, (refl, (refl, (refl, (refl, (refl, (refl, (refl, tt))))))))

run-IsUntouched_example :
    Owns strings sets table streams exam_of 600 both_users
      (run strings sets table streams exam_of 600 messages connected)
    × IsUntouched strings sets table streams exam_of 600 8000 9 connected
        (run strings sets table streams exam_of 600 messages connected)
run-IsUntouched_example =
    run-IsUntouched strings sets table streams exam_of 600 both_users messages 8000 9 connected refl
      tt in_time within (λ u known. ground arith)

joined : is_some (attempt_join strings sets table streams exam_of 3000 600 50 7 connected).0 ≡ true
unfolding handlers
joined = refl

attempt_join-second_tab_example :
    (attempt_join strings sets table streams exam_of 5000 600 51 7 (record {
      socket = second_tab;
      monitor = (attempt_join strings sets table streams exam_of 3000 600 50 7 connected).1.monitor;
    })).0
    ≡ none
attempt_join-second_tab_example =
    attempt_join-second_tab strings sets table streams exam_of 3000 5000 600 50 51 7 connected
      second_tab joined (omega arith) (omega arith) (omega arith) refl

-- The socket of an attempt that it has joined.
abbrev writing : Session Cells Groups Rows Queue
writing = record connected { socket = record tab { attempt_id = some 7 } }

open_sample : IsOpenFor strings sets table streams exam_of 1 7 attempt writing.monitor.app
open_sample = (refl, refl, refl)

code_save-submitted_example :
    let submitted =
      (submit strings sets table streams exam_of 90000 30 1 7 none writing.monitor.app).1 in
    let (saved, s') =
      code_save strings sets table streams exam_of 91000 600 7 outside
        (set_app strings sets table streams exam_of submitted writing) in
    let before =
      submitted_files strings sets table streams exam_of 90000 7 none attempt writing.monitor.app in
    (saved ≡ true)
    × (table.find 7 (flush_all_dirty strings sets table 91000 s'.monitor.app).1.attempts
        ≡ some (set_files outside (submitted_row 90000 before attempt)))
code_save-submitted_example =
    code_save-submitted strings sets table streams exam_of 90000 91000 600 30 1 7 none outside
      attempt challenge writing open_sample refl refl
