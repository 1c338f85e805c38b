-- ===== src/Timers/Expiry.antt =====
-- What happens in socket/timerService.ts when a timer runs out, and after a timer is stopped for good.
use test_platform.Base.{
  ℕ, ◌+◌, ◌*◌, ◌≤◌, ◌<◌, ◌≡◌, refl, true, false, Option, some, List, [], ◌∷◌, ◌++◌, arith,
}
use test_platform.Redis.{Strings, Sets}
use test_platform.Redis.Keys.{timer, timer_lock, timer_handled, flag}
use test_platform.Platform.{Exam, AttemptTable, Streams, timer_tick, Interval, App}
use test_platform.Timers.{
  handled_ttl, seconds_until, other_intervals, runs, is_timer_handled, mark_timer_handled,
  stop_timer, delete_lock, stop_timer_permanently, send, handle_timer_expired, start_timer, tick,
  resume_timer,
}

runs-other_intervals : (id : ℕ) (is : List Interval) → runs id (other_intervals id is) ≡ false
runs-other_intervals id [] = refl
runs-other_intervals id (i ∷ is) = ground (arith, runs-other_intervals id is)

module _ {A B T Q : Type 0} (kv : Strings A) (ss : Sets B) (table : AttemptTable T)
    (streams : Streams Q) (exam_of : ℕ → Option Exam) where
  handled_after_mark :
      (t now id : ℕ) (app : App A B T Q)
      → t < now + handled_ttl * 1000
      → kv.get t
          (timer_handled id)
          (mark_timer_handled kv ss table streams exam_of now id app).store.strings
        ≡ some flag
  unfolding mark_timer_handled
  handled_after_mark t now id app early = ground (
    arith,
    kv.get-set_ex t now (timer_handled id) (timer_handled id) flag handled_ttl app.store.strings,
  )

  -- The handler of an expiry marks the timer as handled, finds its own mark, and stops: it does
  -- nothing but mark and stop the timer. The attempt is neither submitted nor queued for grading, and
  -- its clients are not told, whatever the state.
  pub handle_timer_expired_lem :
      (now job_id id : ℕ) (app : App A B T Q)
      → let app' = handle_timer_expired kv ss table streams exam_of now job_id id app in
        (app'
          ≡ stop_timer kv ss table streams exam_of id
              (mark_timer_handled kv ss table streams exam_of now id app))
        × (app'.attempts ≡ app.attempts)
        × (app'.queue ≡ app.queue)
        × (app'.sent ≡ app.sent)
  unfolding handle_timer_expired stop_timer mark_timer_handled
  handle_timer_expired_lem now job_id id app =
      let seen = handled_after_mark now now id app (omega arith) in
      (
        rw (seen, handle_timer_expired),
        rw (seen, handle_timer_expired),
        rw (seen, handle_timer_expired),
        rw (seen, handle_timer_expired),
      )

  -- A timer that was stopped for good stays so for an hour: neither a start nor a resumption does
  -- anything.
  pub stop_timer_permanently_lem :
      (now t job_id id started_at time_limit : ℕ) (scheduled : Option ℕ) (app : App A B T Q)
      → t < now + handled_ttl * 1000
      → let app' = stop_timer_permanently kv ss table streams exam_of now id app in
        (runs id app'.intervals ≡ false)
        × (start_timer kv ss table streams exam_of t job_id id started_at time_limit scheduled app'
            ≡ app')
        × (resume_timer kv ss table streams exam_of t job_id id app' ≡ (false, app'))
  unfolding stop_timer_permanently delete_lock stop_timer start_timer resume_timer is_timer_handled
      mark_timer_handled
  stop_timer_permanently_lem now t job_id id started_at time_limit scheduled app early =
      let s = (mark_timer_handled kv ss table streams exam_of now id app).store.strings in
      let marked = handled_after_mark t now id app early in
      let unlocked = kv.get-del t (timer_handled id) (timer_lock id) (kv.del (timer id) s) in
      let stopped = kv.get-del t (timer_handled id) (timer id) s in
      (
        runs-other_intervals id app.intervals,
        ground (arith, marked, unlocked, stopped),
        ground (arith, marked, unlocked, stopped),
      )

  -- The callback before the end: it tells the clients the whole seconds that are left, and changes
  -- nothing else.
  pub tick_before_end :
      (now job_id : ℕ) (i : Interval) (app : App A B T Q)
      → runs i.attempt_id app.intervals ≡ true
      → is_timer_handled kv ss table streams exam_of now i.attempt_id app ≡ false
      → now + 1000 ≤ i.end_time
      → tick kv ss table streams exam_of now job_id i app ≡ record app {
        sent = app.sent ++ timer_tick i.attempt_id (seconds_until now i.end_time) ∷ [];
      }
  unfolding tick send
  tick_before_end now job_id i app running fresh left = ground arith

  -- What an expiry leaves: stopped, marked, and the rest as it was.
  stopped_for_good :
      (now t job_id later_id id started_at time_limit : ℕ) (scheduled : Option ℕ)
      (app : App A B T Q)
      → t < now + handled_ttl * 1000
      → let app' = handle_timer_expired kv ss table streams exam_of now job_id id app in
        (runs id app'.intervals ≡ false)
        × (start_timer kv ss table streams exam_of t later_id id started_at time_limit scheduled
              app'
            ≡ app')
  unfolding start_timer is_timer_handled stop_timer
  stopped_for_good now t job_id later_id id started_at time_limit scheduled app early =
      let marked = mark_timer_handled kv ss table streams exam_of now id app in
      let seen = handled_after_mark t now id app early in
      let kept = kv.get-del t (timer_handled id) (timer id) marked.store.strings in
      rw (handle_timer_expired_lem now job_id id app).0
        (runs-other_intervals id marked.intervals, ground (arith, seen, kept))

  tick_ended :
      (now job_id : ℕ) (i : Interval) (app : App A B T Q)
      → runs i.attempt_id app.intervals ≡ true
      → is_timer_handled kv ss table streams exam_of now i.attempt_id app ≡ false
      → i.end_time < now + 1000
      → tick kv ss table streams exam_of now job_id i app
        ≡ handle_timer_expired kv ss table streams exam_of now job_id i.attempt_id (
            stop_timer kv ss table streams exam_of i.attempt_id (
              mark_timer_handled kv ss table streams exam_of now i.attempt_id
                (send kv ss table streams exam_of (timer_tick i.attempt_id 0) app)))
  unfolding tick
  tick_ended now job_id i app running fresh over =
      let none_left : seconds_until now i.end_time ≡ 0 = omega arith in
      rw (running, fresh, none_left, tick)

  -- The callback in the last second or later: the interval ends and the timer is marked for an hour,
  -- in which no start brings it back, while the attempt keeps its status and its files and no job is
  -- queued.
  pub tick_at_end :
      (now t job_id later_id started_at time_limit : ℕ) (scheduled : Option ℕ) (i : Interval)
      (app : App A B T Q)
      → runs i.attempt_id app.intervals ≡ true
      → is_timer_handled kv ss table streams exam_of now i.attempt_id app ≡ false
      → i.end_time < now + 1000
      → t < now + handled_ttl * 1000
      → let app' = tick kv ss table streams exam_of now job_id i app in
        (app'.attempts ≡ app.attempts)
        × (app'.queue ≡ app.queue)
        × (runs i.attempt_id app'.intervals ≡ false)
        × (start_timer kv ss table streams exam_of t later_id i.attempt_id started_at time_limit
              scheduled app'
            ≡ app')
  unfolding stop_timer mark_timer_handled send
  tick_at_end now t job_id later_id started_at time_limit scheduled i app running fresh over early =
      let before = stop_timer kv ss table streams exam_of i.attempt_id (
        mark_timer_handled kv ss table streams exam_of now i.attempt_id
          (send kv ss table streams exam_of (timer_tick i.attempt_id 0) app)) in
      let ended = handle_timer_expired_lem now job_id i.attempt_id before in
      let (gone, shut) =
        stopped_for_good now t job_id later_id i.attempt_id started_at time_limit scheduled before
          early in
      rw (tick_ended now job_id i app running fresh over) (ended.1, ended.2, gone, shut)
