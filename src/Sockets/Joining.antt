-- ===== src/Sockets/Joining.antt =====
-- When socket/examHandlers.ts lets a socket join an attempt, and that a candidate's second tab is refused.
use test_platform.Base.{
  ℕ, ◌+◌, ◌*◌, ◌≤◌, ◌<◌, ◌≡◌, ◌≢◌, ◌↔◌, refl, inl, inr, Bool, true, false, Option, none, some, List,
  [], ◌∷◌, arith, any, is_some, Option-cases,
}
use test_platform.Redis.{Strings, Sets, Store}
use test_platform.Redis.Keys.{presence, presence_set}
use test_platform.Platform.{Attempt, Exam, AttemptTable, Streams, App}
use test_platform.Attempts.{is_in_progress}
use test_platform.Presence.{track_session}
use test_platform.Presence.Exclusion.{blocks, track_session_lem, track_session_excludes}
use test_platform.Timers.{start_timer}
use test_platform.Sockets.{Socket, Session, attempt_of_user, enter_room, attempt_join}
use test_platform.Sockets.Frame.{get-start_timer}

module _ {A B T Q : Type 0} (kv : Strings A) (ss : Sets B) (table : AttemptTable T)
    (streams : Streams Q) (exam_of : ℕ → Option Exam) where
  -- Another socket has an active session of the user for the attempt.
  abbrev pub is_elsewhere : ℕ → ℕ → ℕ → Socket → Store A B → Bool
  is_elsewhere now timeout id socket r =
      any (blocks kv ss now timeout id socket.id socket.user_id r)
        (ss.smembers now (presence_set id) r.sets)

  -- A socket joins an attempt exactly if it is an attempt in progress of the socket's user, whose exam
  -- is there, and no other socket has an active session of the user for it.
  pub attempt_join_iff :
      (now timeout job_id id : ℕ) (s : Session A B T Q)
      → (is_some (attempt_join kv ss table streams exam_of now timeout job_id id s).0 ≡ true) ↔ (
          (a : Attempt) × (e : Exam) × (table.find id s.monitor.app.attempts ≡ some a)
          × (a.candidate_id ≡ s.socket.user_id)
          × (is_in_progress a ≡ true)
          × (exam_of a.exam_id ≡ some e)
          × (is_elsewhere now timeout id s.socket s.monitor.app.store ≡ false))
  unfolding attempt_join enter_room attempt_of_user
  attempt_join_iff now timeout job_id id s =
      let answer =
        track_session_lem kv ss now timeout id s.socket.id s.socket.user_id s.monitor.app.store in
      (
        (λ h. elim (Option-cases (table.find id s.monitor.app.attempts)) [
          | inl gone ↦ ground (arith, gone, h)
          | inr (a, there) ↦ elim (Option-cases (exam_of a.exam_id)) [
            | inl no_exam ↦ ground (arith, there, no_exam, h)
            | inr (e, exam) ↦ (
              a,
              e,
              there,
              ground (arith, there, h),
              ground (arith, there, h),
              exam,
              ground (arith, there, h, answer),
            )
          ]
        ]),
        λ w. ground (arith, w, answer),
      )

  -- What a successful join leaves in Redis, where a start of the timer has come after the session.
  tracked_by_join :
      (now timeout job_id id : ℕ) (s : Session A B T Q)
      → is_some (attempt_join kv ss table streams exam_of now timeout job_id id s).0 ≡ true
      → let tracked =
          track_session kv ss now timeout id s.socket.id s.socket.user_id s.monitor.app.store in
        (tracked.0 ≡ true)
        × (a : Attempt) × (e : Exam) × (attempt_join kv ss table streams exam_of now timeout job_id
              id s).1.monitor.app
            ≡ start_timer kv ss table streams exam_of now job_id id a.started_at e.time_limit
                e.scheduled_end_at
                (record s.monitor.app { store = tracked.1 })
  unfolding attempt_join enter_room attempt_of_user
  tracked_by_join now timeout job_id id s h =
      elim (Option-cases (table.find id s.monitor.app.attempts)) [
        | inl gone ↦ ground (arith, gone, h)
        | inr (a, there) ↦ elim (Option-cases (exam_of a.exam_id)) [
          | inl no_exam ↦ ground (arith, there, no_exam, h)
          | inr (e, exam) ↦ (ground (arith, there, h), a, e, ground (arith, there, exam, h))
        ]
      ]

  any_same : (p q : ℕ → Bool) (ids : List ℕ) → ((x : ℕ) → p x ≡ q x) → any p ids ≡ any q ids
  any_same p q [] same = refl
  any_same p q (x ∷ ids) same = ground (arith, same x, any_same p q ids same)

  is_elsewhere-start_timer :
      (t now timeout job_id id started_at time_limit : ℕ) (scheduled : Option ℕ) (socket : Socket)
      (app : App A B T Q)
      → now ≤ t
      → is_elsewhere t timeout id socket
          (start_timer kv ss table streams exam_of now job_id id started_at time_limit scheduled
            app).store
        ≡ is_elsewhere t timeout id socket app.store
  is_elsewhere-start_timer t now timeout job_id id started_at time_limit scheduled socket app
        order =
      let app' =
        start_timer kv ss table streams exam_of now job_id id started_at time_limit scheduled app in
      let frame = λ (x : ℕ).
        get-start_timer kv ss table streams exam_of t now job_id id started_at time_limit scheduled
          (presence id x) app order refl refl in
      let others = ss.smembers t (presence_set id) app.store.sets in
      rw (frame 0).1 (
        any_same (blocks kv ss t timeout id socket.id socket.user_id app'.store)
          (blocks kv ss t timeout id socket.id socket.user_id app.store) others
          (λ x. ground (arith, (frame x).0)))

  -- While the session of a join lasts, a second socket of the same user is refused for the attempt.
  pub attempt_join-second_tab :
      (now t timeout job_id job_id' id : ℕ) (s : Session A B T Q) (other : Socket)
      → is_some (attempt_join kv ss table streams exam_of now timeout job_id id s).0 ≡ true
      → now ≤ t
      → t < now + timeout * 1000
      → s.socket.id ≢ other.id
      → other.user_id ≡ s.socket.user_id
      → (attempt_join kv ss table streams exam_of t timeout job_id' id (record {
        socket = other;
        monitor = (attempt_join kv ss table streams exam_of now timeout job_id id s).1.monitor;
      })).0
        ≡ none
  attempt_join-second_tab now t timeout job_id job_id' id s other joined order early different
        same =
      let tracked =
        track_session kv ss now timeout id s.socket.id s.socket.user_id s.monitor.app.store in
      let (let_in, a, e, state) = tracked_by_join now timeout job_id id s joined in
      let excluded =
        track_session_excludes kv ss now t timeout id s.socket.id other.id s.socket.user_id
          s.monitor.app.store let_in order early different in
      let answer = track_session_lem kv ss t timeout id other.id other.user_id tracked.1 in
      let same_store =
        is_elsewhere-start_timer t now timeout job_id id a.started_at e.time_limit
          e.scheduled_end_at other (record s.monitor.app { store = tracked.1 }) order in
      let second : Session A B T Q = record {
        socket = other;
        monitor = (attempt_join kv ss table streams exam_of now timeout job_id id s).1.monitor;
      } in
      elim (Option-cases (attempt_join kv ss table streams exam_of t timeout job_id' id second).0) [
        | inl refused ↦ refused
        | inr (b, entered) ↦
            let w = (attempt_join_iff t timeout job_id' id second).0 (rw entered refl) in
            ground (arith, w.6, excluded, answer, same_store, state, same)
      ]
