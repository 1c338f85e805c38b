-- ===== src/Timers/Clock.antt =====
-- The times of socket/timerService.ts: the end of a timer, what is left of it, and its resumption on
-- another instance of the server.
use test_platform.Base.{
  ℕ, ◌+◌, ◌*◌, ◌≤◌, ◌<◌, ◌≡◌, refl, ◌⊎◌, true, false, Option, none, some, List, [], ◌∷◌, ◌∙◌, All,
  arith,
}
use test_platform.Redis.{Strings, Sets}
use test_platform.Redis.Keys.{timer, timer_meta, Value}
use test_platform.Platform.{Exam, AttemptTable, Streams, Interval, App}
use test_platform.Timers.{
  seconds_until, runs, is_timer_handled, end_time_of, timer_ttl, start_timer, get_timer_meta,
  get_remaining_time, resume_timer, tick, send,
}

module _ {A B T Q : Type 0} (kv : Strings A) (ss : Sets B) (table : AttemptTable T)
    (streams : Streams Q) (exam_of : ℕ → Option Exam) where
  abbrev ends : ℕ → ℕ → Option ℕ → ℕ
  ends = end_time_of kv ss table streams exam_of

  -- A timer ends with the attempt's own time limit or with the exam's window, whichever is first: it
  -- ends by both, and with one of them.
  pub end_time_of_lem :
      (started_at time_limit window : ℕ)
      → 0 < window
      → (ends started_at time_limit (some window) ≤ started_at + time_limit * 60 * 1000)
        × (ends started_at time_limit (some window) ≤ window)
        × ((ends started_at time_limit (some window) ≡ started_at + time_limit * 60 * 1000)
            ⊎ (ends started_at time_limit (some window) ≡ window))
        × (ends started_at time_limit none ≡ started_at + time_limit * 60 * 1000)
  unfolding end_time_of
  end_time_of_lem started_at time_limit window h = (ground arith, ground arith, ground arith, refl)

  -- The entry that a started timer has in Redis outlives its end by five minutes.
  started_meta :
      (now t job_id id started_at time_limit : ℕ) (scheduled : Option ℕ) (app : App A B T Q)
      → is_timer_handled kv ss table streams exam_of now id app ≡ false
      → runs id app.intervals ≡ false
      → now < ends started_at time_limit scheduled
      → now ≤ t
      → t < ends started_at time_limit scheduled + 300 * 1000
      → get_timer_meta kv ss table streams exam_of t id (
          start_timer kv ss table streams exam_of now job_id id started_at time_limit scheduled app)
        ≡ some (record {
          attempt_id = id;
          started_at = started_at;
          end_time = ends started_at time_limit scheduled;
          time_limit = time_limit;
          scheduled_end_at = scheduled;
        })
  unfolding start_timer get_timer_meta
  started_meta now t job_id id started_at time_limit scheduled app fresh idle ahead order early =
      let meta : Value = timer_meta (record {
        attempt_id = id;
        started_at = started_at;
        end_time = ends started_at time_limit scheduled;
        time_limit = time_limit;
        scheduled_end_at = scheduled;
      }) in
      let ttl = timer_ttl kv ss table streams exam_of now (ends started_at time_limit scheduled) in
      let lives : t < now + ttl * 1000 = omega arith in
      ground (
        arith,
        lives,
        kv.get-expire t now (timer id) (timer id) ttl (kv.set (timer id) meta app.store.strings),
        kv.get-set now (timer id) (timer id) meta app.store.strings,
      )

  ends-le :
      (started_at time_limit : ℕ) (scheduled : Option ℕ)
      → ends started_at time_limit scheduled ≤ started_at + time_limit * 60 * 1000
  unfolding end_time_of
  ends-le started_at time_limit none = omega arith
  ends-le started_at time_limit (some e) = ground arith

  -- The calls of an interval at times, in this order; `job_id` is drawn if one of them ends the timer.
  abbrev pub ticks : List ℕ → ℕ → Interval → App A B T Q → App A B T Q
  ticks [] job_id i app = app
  ticks (u ∷ us) job_id i app = ticks us job_id i (tick kv ss table streams exam_of u job_id i app)

  store-tick :
      (u job_id : ℕ) (i : Interval) (app : App A B T Q)
      → u + 1000 ≤ i.end_time
      → (tick kv ss table streams exam_of u job_id i app).store ≡ app.store
  unfolding tick send
  store-tick u job_id i app h = ground arith

  store-ticks :
      (us : List ℕ) (job_id : ℕ) (i : Interval) (app : App A B T Q)
      → All (λ u. u + 1000 ≤ i.end_time) us
      → (ticks us job_id i app).store ≡ app.store
  store-ticks [] job_id i app h = refl
  store-ticks (u ∷ us) job_id i app h =
      store-ticks us job_id i (tick kv ss table streams exam_of u job_id i app) h.1
      ∙ store-tick u job_id i app h.0

  -- While a started timer runs, up to the last second before its end, in which its interval stops it:
  -- whenever the interval has been called in between, `getRemainingTime` gives the whole seconds to the end,
  -- one at least, which are never more than the time limit once the attempt has started.
  pub start_timer-remaining :
      (now t job_id later_id id started_at time_limit : ℕ) (scheduled : Option ℕ) (us : List ℕ)
      (app : App A B T Q)
      → is_timer_handled kv ss table streams exam_of now id app ≡ false
      → runs id app.intervals ≡ false
      → now < ends started_at time_limit scheduled
      → now ≤ t
      → t + 1000 ≤ ends started_at time_limit scheduled
      → All (λ u. u + 1000 ≤ ends started_at time_limit scheduled) us
      → started_at ≤ t
      → let left = seconds_until t (ends started_at time_limit scheduled) in
        (get_remaining_time kv ss table streams exam_of t id (
            ticks us later_id
              (record { attempt_id = id; end_time = ends started_at time_limit scheduled })
              (start_timer kv ss table streams exam_of now job_id id started_at time_limit scheduled
                app))
          ≡ some left)
        × (1 ≤ left)
        × (left ≤ time_limit * 60)
  unfolding get_remaining_time get_timer_meta
  start_timer-remaining now t job_id later_id id started_at time_limit scheduled us app fresh idle
        ahead order early calls begun =
      (
        rw
            (
              store-ticks us later_id
                  (record { attempt_id = id; end_time = ends started_at time_limit scheduled })
                  (start_timer kv ss table streams exam_of now job_id id started_at time_limit
                    scheduled app)
                  calls,
              started_meta now t job_id id started_at time_limit scheduled app fresh idle ahead
                  order (omega arith),
              get_remaining_time,
            )
            refl,
        omega arith,
        omega (arith, ends-le started_at time_limit scheduled),
      )

  start_timer_of_runs :
      (t job_id id started_at time_limit : ℕ) (scheduled : Option ℕ) (app : App A B T Q)
      → runs id app.intervals ≡ true
      → start_timer kv ss table streams exam_of t job_id id started_at time_limit scheduled app
        ≡ app
  unfolding start_timer
  start_timer_of_runs t job_id id started_at time_limit scheduled app running = ground arith

  runs-start_timer :
      (now job_id id started_at time_limit : ℕ) (scheduled : Option ℕ) (app : App A B T Q)
      → now < ends started_at time_limit scheduled
      → is_timer_handled kv ss table streams exam_of now id app ≡ false
      → runs id
          (start_timer kv ss table streams exam_of now job_id id started_at time_limit scheduled
            app).intervals
        ≡ true
  unfolding start_timer
  runs-start_timer now job_id id started_at time_limit scheduled app ahead fresh = ground arith

  -- A timer that is started before its end, and not marked as handled, runs; a further start, at any
  -- time while it runs on this instance, changes nothing.
  pub start_timer_twice :
      (now t job_id later_id id started_at time_limit : ℕ) (scheduled : Option ℕ)
      (app : App A B T Q)
      → now < ends started_at time_limit scheduled
      → is_timer_handled kv ss table streams exam_of now id app ≡ false
      → let app' =
          start_timer kv ss table streams exam_of now job_id id started_at time_limit scheduled
            app in
        (runs id app'.intervals ≡ true)
        × (start_timer kv ss table streams exam_of t later_id id started_at time_limit scheduled
              app'
            ≡ app')
  start_timer_twice now t job_id later_id id started_at time_limit scheduled app ahead fresh =
      let running =
        runs-start_timer now job_id id started_at time_limit scheduled app ahead fresh in
      (running, start_timer_of_runs t later_id id started_at time_limit scheduled _ running)

  -- A timer that was started on one instance goes on, on an instance where it does not run, with the
  -- same end: `other` shares the stores of the first.
  pub start-resume :
      (now t job_id later_id id started_at time_limit : ℕ) (scheduled : Option ℕ)
      (app : App A B T Q) (here : List Interval)
      → is_timer_handled kv ss table streams exam_of now id app ≡ false
      → runs id app.intervals ≡ false
      → runs id here ≡ false
      → now ≤ t
      → t + 1000 ≤ ends started_at time_limit scheduled
      → let app' =
          start_timer kv ss table streams exam_of now job_id id started_at time_limit scheduled
            app in
        let other : App A B T Q = record app' { intervals = here } in
        is_timer_handled kv ss table streams exam_of t id other ≡ false
        → resume_timer kv ss table streams exam_of t later_id id other ≡ (
          true,
          record other {
            intervals =
                record { attempt_id = id; end_time = ends started_at time_limit scheduled } ∷ here;
          },
        )
  unfolding resume_timer get_timer_meta
  start-resume now t job_id later_id id started_at time_limit scheduled app here fresh idle away
        order left unhandled =
      ground (
        arith,
        unhandled,
        started_meta now t job_id id started_at time_limit scheduled app fresh idle,
      )
