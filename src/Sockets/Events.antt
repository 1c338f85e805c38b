-- ===== src/Sockets/Events.antt =====
-- The messages that a socket sends to the handlers of socket/examHandlers.ts, and the refresh of its
-- token, in the order in which they
-- arrive.
use test_platform.Base.{arith, ℕ, ◌≡◌, Bool, true, Option, none, some, List, [], ◌∷◌}
use test_platform.Redis.{Strings, Sets}
use test_platform.Redis.Keys.{Files}
use test_platform.Platform.{Exam, AttemptTable, Streams}
use test_platform.Tokens.{TokenPayload}
use test_platform.Proctor.{ProctorEventData}
use test_platform.Sockets.{
  Session, attempt_join, code_save, code_flush, proctor_event, attempt_leave, monitor_join,
  monitor_leave, disconnect, refresh_user, enter_room,
}

-- Each with its time; a join also with the identifier of a job.
pub data Message : Type 0 where
  joins : ℕ → ℕ → ℕ → Message
  saves : ℕ → ℕ → Files → Message
  flushes : ℕ → ℕ → Message
  reports : ℕ → ProctorEventData → Message
  leaves : ℕ → ℕ → Message
  starts_monitoring : ℕ → Message
  stops_monitoring : ℕ → Message
  disconnects : ℕ → Message
  refreshes : ℕ → Option TokenPayload → Message

abbrev pub time_of : Message → ℕ
time_of (joins now job_id id) = now
time_of (saves now id files) = now
time_of (flushes now id) = now
time_of (reports now report) = now
time_of (leaves now id) = now
time_of (starts_monitoring exam_id) = 0
time_of (stops_monitoring exam_id) = 0
time_of (disconnects now) = now
time_of (refreshes now token) = now

-- The token of a refresh is one of these users'.
abbrev pub is_of : (ℕ → Bool) → Message → Bool
is_of users (refreshes now (some k)) = users k.user_id
is_of users _ = true

module _ {A B T Q : Type 0} (kv : Strings A) (ss : Sets B) (table : AttemptTable T)
    (streams : Streams Q) (exam_of : ℕ → Option Exam) (timeout : ℕ) where
  unfoldable pub step : Message → Session A B T Q → Session A B T Q
  step (joins now job_id id) s =
      (attempt_join kv ss table streams exam_of now timeout job_id id s).1
  step (saves now id files) s = (code_save kv ss table streams exam_of now timeout id files s).1
  step (flushes now id) s = (code_flush kv ss table streams exam_of now id s).1
  step (reports now report) s = (proctor_event kv ss table streams exam_of now report s).1
  step (leaves now id) s = attempt_leave kv ss table streams exam_of now id s
  step (starts_monitoring exam_id) s = (monitor_join kv ss table streams exam_of exam_id s).1
  step (stops_monitoring exam_id) s = monitor_leave kv ss table streams exam_of exam_id s
  step (disconnects now) s = disconnect kv ss table streams exam_of now s
  step (refreshes now token) s = refresh_user kv ss table streams exam_of now token s

  unfoldable pub run : List Message → Session A B T Q → Session A B T Q
  run [] s = s
  run (e ∷ es) s = run es (step e s)

  -- A socket of one of these users stays with them, if its refreshes do.
  pub user-step :
      (users : ℕ → Bool) (e : Message) (s : Session A B T Q)
      → is_of users e ≡ true
      → users s.socket.user_id ≡ true
      → users (step e s).socket.user_id ≡ true
  unfolding step attempt_join enter_room code_save code_flush proctor_event attempt_leave
      monitor_join monitor_leave disconnect refresh_user
  user-step users (joins now job_id id) s within h = ground arith
  user-step users (saves now id files) s within h = ground arith
  user-step users (flushes now id) s within h = ground arith
  user-step users (reports now report) s within h = h
  user-step users (leaves now id) s within h = h
  user-step users (starts_monitoring exam_id) s within h = ground arith
  user-step users (stops_monitoring exam_id) s within h = h
  user-step users (disconnects now) s within h = ground arith
  user-step users (refreshes now none) s within h = ground arith
  user-step users (refreshes now (some k)) s within h = within
