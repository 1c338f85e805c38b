-- ===== src/Sockets/Frame.antt =====
-- What the handlers of socket/examHandlers.ts leave alone: the buffers of lib/autosave-buffer.ts, where
-- they only track sessions or start timers.
use test_platform.Base.{ℕ, ◌≤◌, ◌≡◌, refl, false, Option, List, [], ◌∷◌, arith}
use test_platform.Redis.{Strings, Sets, Store}
use test_platform.Redis.Keys.{
  presence, presence_set, PresenceData, presence_data, autosave, Key, key_eq, timer, timer_handled,
  Value,
}
use test_platform.Platform.{Exam, AttemptTable, Streams, App}
use test_platform.Presence.{
  forget_socket, remove_session, check_other, check_others, add_session, track_session,
  update_session_activity,
}
use test_platform.Timers.{start_timer, stop_timer, mark_timer_handled}
use test_platform.Timers.Expiry.{handle_timer_expired_lem}

module _ {A B : Type 0} (kv : Strings A) (ss : Sets B) where
  -- The text under the key of a buffer.
  abbrev pub saved_at : ℕ → ℕ → Store A B → Option Value
  saved_at t x r = kv.get t (autosave x) r.strings

  pub saved-remove_session :
      (t now a s x : ℕ) (r : Store A B)
      → saved_at t x (remove_session kv ss now a s r) ≡ saved_at t x r
  unfolding remove_session forget_socket
  saved-remove_session t now a s x r =
      ground (arith, kv.get-del t (autosave x) (presence a s) r.strings)

  saved-check_other :
      (t now timeout a s u other x : ℕ) (r : Store A B)
      → saved_at t x (check_other kv ss now timeout a s u other r).1 ≡ saved_at t x r
  unfolding check_other remove_session forget_socket
  saved-check_other t now timeout a s u other x r =
      ground (arith, kv.get-del t (autosave x) (presence a other) r.strings)

  saved-check_others :
      (t now timeout a s u x : ℕ) (ids : List ℕ) (r : Store A B)
      → saved_at t x (check_others kv ss now timeout a s u ids r).1 ≡ saved_at t x r
  unfolding check_others
  saved-check_others t now timeout a s u x [] r = refl
  saved-check_others t now timeout a s u x (i ∷ ids) r =
      let next = (check_other kv ss now timeout a s u i r).1 in
      ground (
        arith,
        saved-check_other t now timeout a s u i x r,
        saved-check_others t now timeout a s u x ids next,
      )

  pub saved-track_session :
      (t now timeout a s u x : ℕ) (r : Store A B)
      → saved_at t x (track_session kv ss now timeout a s u r).1 ≡ saved_at t x r
  unfolding track_session add_session
  saved-track_session t now timeout a s u x r =
      let ids = ss.smembers now (presence_set a) r.sets in
      let left = (check_others kv ss now timeout a s u ids r).1 in
      let d : PresenceData = record {
        socket_id = s;
        user_id = u;
        attempt_id = a;
        last_active = now;
      } in
      ground (
        arith,
        saved-check_others t now timeout a s u x ids r,
        kv.get-set_ex t now (autosave x) (presence a s) (presence_data d) timeout left.strings,
      )

  pub saved-update_session_activity :
      (t now timeout a s x : ℕ) (r : Store A B)
      → saved_at t x (update_session_activity kv ss now timeout a s r) ≡ saved_at t x r
  unfolding update_session_activity
  saved-update_session_activity t now timeout a s x r = grind (arith, kv.get-set_ex)

module _ {A B T Q : Type 0} (kv : Strings A) (ss : Sets B) (table : AttemptTable T)
    (streams : Streams Q) (exam_of : ℕ → Option Exam) where
  pub start_timer-attempts :
      (now job_id id started_at time_limit : ℕ) (scheduled : Option ℕ) (app : App A B T Q)
      → (start_timer kv ss table streams exam_of now job_id id started_at time_limit scheduled
          app).attempts
        ≡ app.attempts
  unfolding start_timer
  start_timer-attempts now job_id id started_at time_limit scheduled app =
      ground (arith, handle_timer_expired_lem kv ss table streams exam_of now job_id id app)

  -- A start of a timer writes the timer's keys alone.
  pub get-start_timer :
      (t now job_id id started_at time_limit : ℕ) (scheduled : Option ℕ) (k : Key)
      (app : App A B T Q)
      → now ≤ t
      → key_eq k (timer id) ≡ false
      → key_eq k (timer_handled id) ≡ false
      → let app' =
          start_timer kv ss table streams exam_of now job_id id started_at time_limit scheduled
            app in
        (kv.get t k app'.store.strings ≡ kv.get t k app.store.strings)
        × (app'.store.sets ≡ app.store.sets)
  unfolding start_timer stop_timer mark_timer_handled
  get-start_timer t now job_id id started_at time_limit scheduled k app order a b = (
    grind (
      arith,
      kv.get-expire,
      kv.get-set,
      kv.get-set_ex,
      kv.get-del,
      handle_timer_expired_lem kv ss table streams exam_of now job_id id app,
    ),
    ground (arith, handle_timer_expired_lem kv ss table streams exam_of now job_id id app),
  )

  pub saved-start_timer :
      (t now job_id id x started_at time_limit : ℕ) (scheduled : Option ℕ) (app : App A B T Q)
      → now ≤ t
      → saved_at kv ss t x
          (start_timer kv ss table streams exam_of now job_id id started_at time_limit scheduled
            app).store
        ≡ saved_at kv ss t x app.store
  saved-start_timer t now job_id id x started_at time_limit scheduled app order =
      (get-start_timer t now job_id id started_at time_limit scheduled (autosave x) app order refl
        refl).0
