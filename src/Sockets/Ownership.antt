-- ===== src/Sockets/Ownership.antt =====
-- The attempt that a socket of socket/examHandlers.ts holds is its user's, or an earlier one's.
use mathlib.Core.Option
use test_platform.Base.{ℕ, ◌≡◌, refl, ◌∙◌, Bool, true, ap, ◌⊎◌, inl, inr, Option, none, some, arith}
use test_platform.Redis.{Strings, Sets}
use test_platform.Redis.Keys.{Buffered}
use test_platform.Platform.{Attempt, Exam, AttemptTable, Streams, App}
use test_platform.Autosave.{save_to_buffer, read_buffer, flush_to_database}
use test_platform.Autosave.Laws.{flush_to_database_lem, with_buffer}
use test_platform.Proctor.{
  EventType, tab_leave, tab_return, fullscreen_exit, fullscreen_enter, paste_attempt,
  ProctorEventData, Monitor, updates, record_event, log_proctor_event, validated_duration,
}
use test_platform.Proctor.Counters.{find-update_integrity_counters, log_proctor_event-cases}
use test_platform.Sockets.{
  Session, attempt_of_user, attempt_join, enter_room, code_save, code_flush, proctor_event,
  attempt_leave, monitor_join, monitor_leave, disconnect, refresh_user,
}
use test_platform.Sockets.Events.{
  Message, joins, saves, flushes, reports, leaves, starts_monitoring, stops_monitoring, disconnects,
  refreshes, step,
}
use test_platform.Sockets.Frame.{start_timer-attempts}

abbrev pub candidate_of : Option Attempt → Option ℕ
candidate_of none = none
candidate_of (some a) = some a.candidate_id

candidate-updates :
    (e : EventType) (d : Option ℕ) (o : Option Attempt)
    → candidate_of (Option.map (updates e d) o) ≡ candidate_of o
candidate-updates e d none = refl
candidate-updates tab_leave d (some a) = refl
candidate-updates tab_return d (some a) = refl
candidate-updates fullscreen_exit d (some a) = refl
candidate-updates fullscreen_enter d (some a) = refl
candidate-updates paste_attempt d (some a) = refl

candidate-with_buffer :
    (b : Option Buffered) (o : Option Attempt) → candidate_of (with_buffer b o) ≡ candidate_of o
candidate-with_buffer none o = refl
candidate-with_buffer (some b) none = refl
candidate-with_buffer (some b) (some a) = refl

module _ {A B T Q : Type 0} (kv : Strings A) (ss : Sets B) (table : AttemptTable T)
    (streams : Streams Q) (exam_of : ℕ → Option Exam) (timeout : ℕ) where
  abbrev pub row : ℕ → Session A B T Q → Option Attempt
  row x s = table.find x s.monitor.app.attempts

  abbrev pub IsOwned : (ℕ → Bool) → Option ℕ → Session A B T Q → Type 0
  IsOwned users none s = Unit
  IsOwned users (some id) s = (u : ℕ) × (candidate_of (row id s) ≡ some u) × (users u ≡ true)

  -- The attempt that a socket holds, if it holds one, is one of these users'.
  abbrev pub Owns : (ℕ → Bool) → Session A B T Q → Type 0
  Owns users s = IsOwned users s.socket.attempt_id s

  candidate-record_event :
      (now x : ℕ) (report : ProctorEventData) (e : EventType) (m : Monitor A B T Q)
      → candidate_of (table.find x (record_event table now report e m).app.attempts)
        ≡ candidate_of (table.find x m.app.attempts)
  unfolding record_event
  candidate-record_event now x report e m =
      let d = validated_duration report.duration in
      ground (
        arith,
        find-update_integrity_counters table report.attempt_id x e d m.app.attempts,
        candidate-updates e d (table.find x m.app.attempts),
      )

  candidate-log_proctor_event :
      (now user_id x : ℕ) (report : ProctorEventData) (m : Monitor A B T Q)
      → candidate_of (table.find x (log_proctor_event table now user_id report m).1.app.attempts)
        ≡ candidate_of (table.find x m.app.attempts)
  candidate-log_proctor_event now user_id x report m =
      elim (log_proctor_event-cases table now user_id report m) [
        | inl same ↦ rw same
        | inr (e, a, there, own, recorded) ↦ rw recorded (candidate-record_event now x report e m)
      ]

  candidate-flush :
      (now id x : ℕ) (app : App A B T Q)
      → candidate_of (table.find x (flush_to_database kv ss table now id app).1.attempts)
        ≡ candidate_of (table.find x app.attempts)
  candidate-flush now id x app = ground (
    arith,
    (flush_to_database_lem kv ss table now now id x app).1,
    candidate-with_buffer (read_buffer kv ss table now id app) (table.find x app.attempts),
  )

  enter_room-attempts :
      (now job_id id : ℕ) (a : Attempt) (s : Session A B T Q)
      → (enter_room kv ss table streams exam_of now job_id id a s).1.monitor.app.attempts
        ≡ s.monitor.app.attempts
  unfolding enter_room
  enter_room-attempts now job_id id a s =
      grind (arith, start_timer-attempts kv ss table streams exam_of)

  pub attempt_join-attempts :
      (now job_id id : ℕ) (s : Session A B T Q)
      → (attempt_join kv ss table streams exam_of now timeout job_id id s).1.monitor.app.attempts
        ≡ s.monitor.app.attempts
  unfolding attempt_join
  attempt_join-attempts now job_id id s = grind (arith, enter_room-attempts)

  candidate-disconnect :
      (now x : ℕ) (s : Session A B T Q)
      → candidate_of (row x (disconnect kv ss table streams exam_of now s)) ≡ candidate_of (row x s)
  unfolding disconnect proctor_event
  candidate-disconnect now x s = grind (arith, candidate-log_proctor_event)

  -- No message gives an attempt to another candidate.
  pub candidate-step :
      (e : Message) (x : ℕ) (s : Session A B T Q)
      → candidate_of (row x (step kv ss table streams exam_of timeout e s)) ≡ candidate_of (row x s)
  unfolding step code_save code_flush proctor_event attempt_leave monitor_join monitor_leave
      save_to_buffer refresh_user
  candidate-step (joins now job_id id) x s =
      ap (λ ts. candidate_of (table.find x ts)) (attempt_join-attempts now job_id id s)
  candidate-step (saves now id files) x s = ground arith
  candidate-step (flushes now id) x s = ground (arith, candidate-flush now id x s.monitor.app)
  candidate-step (reports now report) x s =
      candidate-log_proctor_event now s.socket.user_id x report s.monitor
  candidate-step (leaves now id) x s = refl
  candidate-step (starts_monitoring exam_id) x s = ground arith
  candidate-step (stops_monitoring exam_id) x s = refl
  candidate-step (disconnects now) x s = candidate-disconnect now x s
  candidate-step (refreshes now none) x s = candidate-disconnect now x s
  candidate-step (refreshes now (some k)) x s = refl

  attempt_join-held :
      (now job_id id : ℕ) (s : Session A B T Q)
      → let s' = (attempt_join kv ss table streams exam_of now timeout job_id id s).1 in
        (s'.socket.attempt_id ≡ s.socket.attempt_id)
        ⊎ ((s'.socket.attempt_id ≡ some id) × (candidate_of (row id s) ≡ some s.socket.user_id))
  unfolding attempt_join enter_room attempt_of_user
  attempt_join-held now job_id id s = ground arith

  held-step :
      (e : Message) (s : Session A B T Q)
      → let s' = step kv ss table streams exam_of timeout e s in
        (s'.socket.attempt_id ≡ s.socket.attempt_id)
        ⊎ (s'.socket.attempt_id ≡ none)
        ⊎ ((id : ℕ) × (s'.socket.attempt_id ≡ some id)
            × (candidate_of (row id s) ≡ some s.socket.user_id))
  unfolding step code_save code_flush proctor_event attempt_leave monitor_join monitor_leave
      disconnect refresh_user
  held-step (joins now job_id id) s = elim (attempt_join-held now job_id id s) [
    | inl same ↦ inl same
    | inr (held, own) ↦ inr (inr (id, held, own))
  ]
  held-step (saves now id files) s = inl (ground arith)
  held-step (flushes now id) s = inl (ground arith)
  held-step (reports now report) s = inl refl
  held-step (leaves now id) s = inr (inl refl)
  held-step (starts_monitoring exam_id) s = inl (ground arith)
  held-step (stops_monitoring exam_id) s = inl refl
  held-step (disconnects now) s = inl (ground arith)
  held-step (refreshes now none) s = inl (ground arith)
  held-step (refreshes now (some k)) s = inl refl

  IsOwned-step :
      (users : ℕ → Bool) (o : Option ℕ) (e : Message) (s : Session A B T Q)
      → IsOwned users o s
      → IsOwned users o (step kv ss table streams exam_of timeout e s)
  IsOwned-step users none e s w = tt
  IsOwned-step users (some id) e s w = (w.0, candidate-step e id s ∙ w.1, w.2)

  pub Owns-step :
      (users : ℕ → Bool) (e : Message) (s : Session A B T Q)
      → users s.socket.user_id ≡ true
      → Owns users s
      → Owns users (step kv ss table streams exam_of timeout e s)
  unfolding step
  Owns-step users e s member w = elim (held-step e s) [
    | inl same ↦ rw same (IsOwned-step users s.socket.attempt_id e s w)
    | inr (inl gone) ↦ rw gone tt
    | inr (inr (id, held, own)) ↦
        rw held (IsOwned-step users (some id) e s (s.socket.user_id, own, member))
  ]
