-- ===== src/Sockets/Isolation.antt =====
-- A socket of socket/examHandlers.ts works for its users alone: other users' attempts stay as they are.
use test_platform.Base.{
  ℕ, ◌≤◌, ◌≡◌, ◌≢◌, refl, ◌∙◌, ap, inl, inr, Bool, true, false, Option, none, some, List, [], ◌∷◌,
  arith, ◌==◌, same_id, All, Option-cases,
}
use test_platform.Redis.{Strings, Sets}
use test_platform.Redis.Keys.{Files, Buffered, buffered, autosave}
use test_platform.Platform.{Attempt, Exam, AttemptTable, Streams}
use test_platform.Autosave.{
  autosave_ttl, save_to_buffer, read_buffer, flush_to_database, write_back,
}
use test_platform.Autosave.Laws.{flush_to_database_lem}
use test_platform.Presence.{remove_session}
use test_platform.Proctor.{ProctorEventData, record_event, validated_duration}
use test_platform.Proctor.Counters.{find-update_integrity_counters, log_proctor_event-cases}
use test_platform.Sockets.{
  set_store, departure, Session, attempt_join, enter_room, code_save, code_flush, proctor_event,
  attempt_leave, monitor_join, monitor_leave, disconnect, refresh_user,
}
use test_platform.Sockets.Events.{
  Message, joins, saves, flushes, reports, leaves, starts_monitoring, stops_monitoring, disconnects,
  refreshes, is_of, time_of, step, run, user-step,
}
use test_platform.Sockets.Frame.{
  saved_at, saved-remove_session, saved-track_session, saved-update_session_activity,
  saved-start_timer,
}
use test_platform.Sockets.Ownership.{
  candidate_of, row, IsOwned, Owns, candidate-step, Owns-step, attempt_join-attempts,
}

module _ {A B T Q : Type 0} (kv : Strings A) (ss : Sets B) (table : AttemptTable T)
    (streams : Streams Q) (exam_of : ℕ → Option Exam) (timeout : ℕ) where
  -- Between two states, the row of an attempt and its buffer as it reads at a time.
  abbrev pub IsUntouched : ℕ → ℕ → Session A B T Q → Session A B T Q → Type 0
  IsUntouched t x s s' =
      (row kv ss table streams exam_of timeout x s' ≡ row kv ss table streams exam_of timeout x s)
      × (saved_at kv ss t x s'.monitor.app.store ≡ saved_at kv ss t x s.monitor.app.store)

  owned-other :
      (users : ℕ → Bool) (o : Option ℕ) (id x : ℕ) (s : Session A B T Q)
      → IsOwned kv ss table streams exam_of timeout users o s
      → same_id o (some id) ≡ true
      → ((u : ℕ)
          → users u ≡ true
          → candidate_of (row kv ss table streams exam_of timeout x s) ≢ some u)
      → (x == id) ≡ false
  owned-other users none id x s w same other = cc
  owned-other users (some i) id x s w same other = ground (arith, other w.0 w.2, w.1)

  saved-enter_room :
      (t now job_id id x : ℕ) (a : Attempt) (s : Session A B T Q)
      → now ≤ t
      → saved_at kv ss t x
          (enter_room kv ss table streams exam_of now job_id id a s).1.monitor.app.store
        ≡ saved_at kv ss t x s.monitor.app.store
  unfolding enter_room
  saved-enter_room t now job_id id x a s order =
      grind (arith, saved-start_timer kv ss table streams exam_of)

  saved-attempt_join :
      (t now job_id id x : ℕ) (s : Session A B T Q)
      → now ≤ t
      → saved_at kv ss t x
          (attempt_join kv ss table streams exam_of now timeout job_id id s).1.monitor.app.store
        ≡ saved_at kv ss t x s.monitor.app.store
  unfolding attempt_join
  saved-attempt_join t now job_id id x s order = grind (
    arith,
    saved-enter_room,
    saved-track_session kv ss t now timeout id s.socket.id s.socket.user_id x s.monitor.app.store,
  )

  code_save-IsUntouched :
      (users : ℕ → Bool) (t now id x : ℕ) (files : Files) (s : Session A B T Q)
      → Owns kv ss table streams exam_of timeout users s
      → ((u : ℕ)
          → users u ≡ true
          → candidate_of (row kv ss table streams exam_of timeout x s) ≢ some u)
      → IsUntouched t x s (code_save kv ss table streams exam_of now timeout id files s).1
  unfolding code_save save_to_buffer
  code_save-IsUntouched users t now id x files s w other =
      let next = save_to_buffer kv ss table now id files s.monitor.app in
      let b : Buffered = record { files = files; updated_at = now } in
      let apart = owned-other users s.socket.attempt_id id x s w in
      (
        ground arith,
        ground (
          arith,
          apart,
          saved-update_session_activity kv ss t now timeout id s.socket.id x next.store,
          kv.get-set_ex t now (autosave x) (autosave id) (buffered b) autosave_ttl
              s.monitor.app.store.strings,
        ),
      )

  code_flush-IsUntouched :
      (users : ℕ → Bool) (t now id x : ℕ) (s : Session A B T Q)
      → Owns kv ss table streams exam_of timeout users s
      → ((u : ℕ)
          → users u ≡ true
          → candidate_of (row kv ss table streams exam_of timeout x s) ≢ some u)
      → IsUntouched t x s (code_flush kv ss table streams exam_of now id s).1
  unfolding code_flush flush_to_database write_back
  code_flush-IsUntouched users t now id x s w other =
      let apart = owned-other users s.socket.attempt_id id x s w in
      let b = read_buffer kv ss table now id s.monitor.app in
      (
        ground (arith, apart, (flush_to_database_lem kv ss table now now id x s.monitor.app).1),
        ground arith,
      )

  proctor_event-IsUntouched :
      (t now x : ℕ) (report : ProctorEventData) (s : Session A B T Q)
      → candidate_of (row kv ss table streams exam_of timeout x s) ≢ some s.socket.user_id
      → IsUntouched t x s (proctor_event kv ss table streams exam_of now report s).1
  unfolding proctor_event record_event
  proctor_event-IsUntouched t now x report s other =
      elim (log_proctor_event-cases table now s.socket.user_id report s.monitor) [
        | inl same ↦ rw same (refl, refl)
        | inr (e, a, there, own, recorded) ↦
            let d = validated_duration report.duration in
            rw recorded (
              ground (
                arith,
                find-update_integrity_counters table report.attempt_id x e d s.monitor.app.attempts,
              ),
              refl,
            )
      ]

  disconnect-IsUntouched :
      (t now x : ℕ) (s : Session A B T Q)
      → candidate_of (row kv ss table streams exam_of timeout x s) ≢ some s.socket.user_id
      → IsUntouched t x s (disconnect kv ss table streams exam_of now s)
  unfolding disconnect
  disconnect-IsUntouched t now x s other = elim (Option-cases s.socket.attempt_id) [
    | inl idle ↦ (ground (arith, idle), ground (arith, idle))
    | inr (id, held) ↦
        let r = remove_session kv ss now id s.socket.id s.monitor.app.store in
        let left = set_store kv ss table streams exam_of r s in
        let after = proctor_event-IsUntouched t now x (departure id) left other in
        let kept = saved-remove_session kv ss t now id s.socket.id x s.monitor.app.store in
        (ground (arith, held, after.0), ground (arith, held, after.1, kept))
  ]

  step-IsUntouched :
      (users : ℕ → Bool) (e : Message) (t x : ℕ) (s : Session A B T Q)
      → users s.socket.user_id ≡ true
      → Owns kv ss table streams exam_of timeout users s
      → time_of e ≤ t
      → ((u : ℕ)
          → users u ≡ true
          → candidate_of (row kv ss table streams exam_of timeout x s) ≢ some u)
      → IsUntouched t x s (step kv ss table streams exam_of timeout e s)
  unfolding step attempt_leave monitor_join monitor_leave refresh_user
  step-IsUntouched users (joins now job_id id) t x s member w order other = (
    ap (table.find x) (attempt_join-attempts kv ss table streams exam_of timeout now job_id id s),
    saved-attempt_join t now job_id id x s order,
  )
  step-IsUntouched users (saves now id files) t x s member w order other =
      code_save-IsUntouched users t now id x files s w other
  step-IsUntouched users (flushes now id) t x s member w order other =
      code_flush-IsUntouched users t now id x s w other
  step-IsUntouched users (reports now report) t x s member w order other =
      proctor_event-IsUntouched t now x report s (other s.socket.user_id member)
  step-IsUntouched users (leaves now id) t x s member w order other =
      (refl, saved-remove_session kv ss t now id s.socket.id x s.monitor.app.store)
  step-IsUntouched users (starts_monitoring exam_id) t x s member w order other =
      (ground arith, ground arith)
  step-IsUntouched users (stops_monitoring exam_id) t x s member w order other = (refl, refl)
  step-IsUntouched users (disconnects now) t x s member w order other =
      disconnect-IsUntouched t now x s (other s.socket.user_id member)
  step-IsUntouched users (refreshes now none) t x s member w order other =
      disconnect-IsUntouched t now x s (other s.socket.user_id member)
  step-IsUntouched users (refreshes now (some k)) t x s member w order other = (refl, refl)

  -- Whatever messages a socket sends, with the fields that their types demand, in whatever order,
  -- `auth:refresh` with the token of another user included. Let `users` be its user and those of the tokens that it refreshes with: if the attempt that it
  -- holds is one of theirs, so it is afterwards, and the row of every attempt of any other candidate is as it
  -- was, and so are the files buffered for it.
  pub run-IsUntouched :
      (users : ℕ → Bool) (es : List Message) (t x : ℕ) (s : Session A B T Q)
      → users s.socket.user_id ≡ true
      → Owns kv ss table streams exam_of timeout users s
      → All (λ e. time_of e ≤ t) es
      → All (λ e. is_of users e ≡ true) es
      → ((u : ℕ)
          → users u ≡ true
          → candidate_of (row kv ss table streams exam_of timeout x s) ≢ some u)
      → Owns kv ss table streams exam_of timeout users
          (run kv ss table streams exam_of timeout es s)
        × IsUntouched t x s (run kv ss table streams exam_of timeout es s)
  unfolding run
  run-IsUntouched users [] t x s member w order within other = (w, (refl, refl))
  run-IsUntouched users (e ∷ es) t x s member w order within other =
      let s' = step kv ss table streams exam_of timeout e s in
      let first = step-IsUntouched users e t x s member w order.0 other in
      let rest =
        run-IsUntouched users es t x s'
          (user-step kv ss table streams exam_of timeout users e s within.0 member)
          (Owns-step kv ss table streams exam_of timeout users e s member w) order.1 within.1
          (λ u known.
            rw (candidate-step kv ss table streams exam_of timeout e x s) (other u known)) in
      (rest.0, (rest.1.0 ∙ first.0, rest.1.1 ∙ first.1))
