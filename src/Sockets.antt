-- ===== src/Sockets.antt =====
-- apps/api/src/socket/examHandlers.ts, and `auth:refresh` of socket/index.ts: what a socket of a candidate, or of somebody who monitors an
-- exam, asks for. A handler is one step. The timeout of a session and the identifier of a job, which the
-- end of a timer may draw, are arguments.
pub mod Events
pub mod Frame
pub mod Joining
pub mod Ownership
pub mod Isolation
pub mod Replaced
pub mod Tests
use test_platform.Base.{
  ℕ, Bool, true, false, ◌&&◌, Option, none, some, List, [], ◌∷◌, if◌then◌else◌, ◌==◌, not, same_id,
}
use test_platform.Redis.{Strings, Sets, Store}
use test_platform.Redis.Keys.{Files, Role, candidate, admin, reviewer}
use test_platform.Platform.{Attempt, Exam, AttemptTable, Streams, App, status_eq, in_progress}
use test_platform.Tokens.{TokenPayload}
use test_platform.Presence.{track_session, remove_session, update_session_activity}
use test_platform.Autosave.{save_to_buffer, flush_to_database}
use test_platform.Timers.{start_timer}
use test_platform.Attempts.{is_in_progress}
use test_platform.Proctor.{Monitor, ProctorEventData, tab_leave, log_proctor_event}

pub data Room : Type 0 where
  attempt_room monitor_room : ℕ → Room

abbrev pub room_eq : Room → Room → Bool
room_eq (attempt_room a) (attempt_room b) = a == b
room_eq (monitor_room a) (monitor_room b) = a == b
room_eq _ _ = false

abbrev pub leave_room : Room → List Room → List Room
leave_room x [] = []
leave_room x (r ∷ rs) = let rest = leave_room x rs in if room_eq x r then rest else r ∷ rest

-- What the end of a connection reports.
abbrev pub departure : ℕ → ProctorEventData
departure attempt_id = record {
  attempt_id = attempt_id;
  event_type = some tab_leave;
  duration = none;
  paste_length = none;
  is_multiline = none;
}

-- A socket, with the user of its token and `socket.data`.
pub record Socket : Type 0 where
  pub id : ℕ
  pub user_id : ℕ
  pub role : Role
  pub attempt_id : Option ℕ
  pub monitoring_exam_id : Option ℕ
  pub rooms : List Room

-- One instance of the server with one of its sockets.
pub record Session (A B T Q : Type 0) : Type 0 where
  pub socket : Socket
  pub monitor : Monitor A B T Q

module _ {A B T Q : Type 0} (kv : Strings A) (ss : Sets B) (table : AttemptTable T)
    (streams : Streams Q) (exam_of : ℕ → Option Exam) where
  abbrev pub set_app : App A B T Q → Session A B T Q → Session A B T Q
  set_app app s = record s { monitor = record s.monitor { app = app } }

  abbrev pub set_store : Store A B → Session A B T Q → Session A B T Q
  set_store r s = set_app (record s.monitor.app { store = r }) s

  -- The query of `attempt:join`: the attempt, if it is the user's.
  unfoldable pub attempt_of_user : ℕ → ℕ → T → Option Attempt
  attempt_of_user attempt_id user_id attempts = elim (table.find attempt_id attempts) [
    | none ↦ none
    | some a ↦ if a.candidate_id == user_id then some a else none
  ]

  -- `attempt:join` once the session is tracked. Without its exam the arguments of `startTimer` throw.
  unfoldable pub enter_room :
      ℕ → ℕ → ℕ → Attempt → Session A B T Q → Option Attempt × Session A B T Q
  enter_room now job_id attempt_id a s =
      let joined : Session A B T Q = record s {
        socket = record s.socket {
          attempt_id = some attempt_id;
          rooms = attempt_room attempt_id ∷ s.socket.rooms;
        };
      } in
      elim (exam_of a.exam_id) [
        | none ↦ (none, joined)
        | some e ↦ (
          some a,
          set_app
              (start_timer kv ss table streams exam_of now job_id attempt_id a.started_at
                e.time_limit e.scheduled_end_at joined.monitor.app)
              joined,
        )
      ]

  -- `attempt:join`: the attempt whose data is answered, or a refusal.
  unfoldable pub attempt_join : ℕ → ℕ → ℕ → ℕ → Session A B T Q → Option Attempt × Session A B T Q
  attempt_join now timeout job_id attempt_id s =
      elim (attempt_of_user attempt_id s.socket.user_id s.monitor.app.attempts) [
        | none ↦ (none, s)
        | some a ↦
            if is_in_progress a
            then (let (can_join, r) =
                  track_session kv ss now timeout attempt_id s.socket.id s.socket.user_id
                    s.monitor.app.store in
                if can_join
                then enter_room now job_id attempt_id a (set_store r s)
                else (none, set_store r s))
            else (none, s)
      ]

  -- `code:save`. A message without an attempt, which its type does not allow, is left out.
  unfoldable pub code_save : ℕ → ℕ → ℕ → Files → Session A B T Q → Bool × Session A B T Q
  code_save now timeout attempt_id files s =
      if same_id s.socket.attempt_id (some attempt_id)
      then (let app = save_to_buffer kv ss table now attempt_id files s.monitor.app in
          (
            true,
            set_store (update_session_activity kv ss now timeout attempt_id s.socket.id app.store)
                (set_app app s),
          ))
      else (false, s)

  -- `code:flush`.
  unfoldable pub code_flush : ℕ → ℕ → Session A B T Q → Bool × Session A B T Q
  code_flush now attempt_id s =
      if same_id s.socket.attempt_id (some attempt_id)
      then (true, set_app (flush_to_database kv ss table now attempt_id s.monitor.app).1 s)
      else (false, s)

  -- `proctor:event`.
  unfoldable pub proctor_event : ℕ → ProctorEventData → Session A B T Q → Bool × Session A B T Q
  proctor_event now report s =
      let (success, m) = log_proctor_event table now s.socket.user_id report s.monitor in
      (success, record s { monitor = m })

  -- `attempt:leave`.
  unfoldable pub attempt_leave : ℕ → ℕ → Session A B T Q → Session A B T Q
  attempt_leave now attempt_id s =
      set_store (remove_session kv ss now attempt_id s.socket.id s.monitor.app.store) (record s {
        socket = record s.socket {
          attempt_id = none;
          rooms = leave_room (attempt_room attempt_id) s.socket.rooms;
        };
      })

  -- `exam:monitor:join` and `exam:monitor:leave`.
  unfoldable pub monitor_join : ℕ → Session A B T Q → Bool × Session A B T Q
  monitor_join exam_id s = elim s.socket.role [
    | candidate ↦ (false, s)
    | _ ↦ (
      true,
      record s {
        socket = record s.socket {
          monitoring_exam_id = some exam_id;
          rooms = monitor_room exam_id ∷ s.socket.rooms;
        };
      },
    )
  ]

  unfoldable pub monitor_leave : ℕ → Session A B T Q → Session A B T Q
  monitor_leave exam_id s = record s {
    socket = record s.socket {
      monitoring_exam_id = none;
      rooms = leave_room (monitor_room exam_id) s.socket.rooms;
    };
  }

  -- `disconnect`, which is logged as a departure from the window.
  unfoldable pub disconnect : ℕ → Session A B T Q → Session A B T Q
  disconnect now s = elim s.socket.attempt_id [
    | none ↦ s
    | some attempt_id ↦
        (proctor_event now (departure attempt_id)
          (set_store (remove_session kv ss now attempt_id s.socket.id s.monitor.app.store) s)).1
  ]

  -- `auth:refresh` of socket/index.ts, with what the verification of the new token gives: the socket gets the
  -- user of the token, whoever that is, and keeps its attempt; without a valid token it is disconnected.
  unfoldable pub refresh_user : ℕ → Option TokenPayload → Session A B T Q → Session A B T Q
  refresh_user now (some k) s = record s {
    socket = record s.socket { user_id = k.user_id; role = k.role };
  }
  refresh_user now none s = disconnect now s
