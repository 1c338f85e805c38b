-- ===== src/Timers.antt =====
-- apps/api/src/socket/timerService.ts: the timers of attempts, with their state in Redis. The time is
-- an argument, and a call is one step. A callback of an interval is `tick`, at the time it runs.
-- `formatTime` and the counts of timers are left out.
pub mod Expiry
pub mod Clock
pub mod Tests
use test_platform.Base.{
  ℕ, ◌+◌, ◌-◌, ◌*◌, ◌/◌, Bool, true, false, ◌||◌, not, Option, none, some, List, [], ◌∷◌, ◌++◌,
  if◌then◌else◌, ◌==◌, leb, min, any, is_some, or_else,
}
use test_platform.Redis.{Strings, Sets, Store}
use test_platform.Redis.Keys.{
  timer, timer_lock, timer_handled, Files, TimerMeta, flag, timer_meta, parse_timer,
}
use test_platform.Platform.{
  Status, in_progress, submitted, grading, Attempt, Challenge, Exam, AttemptTable, GradingJob,
  Streams, Event, timer_tick, timer_expired, Interval, App, status_eq, set_status,
}
use test_platform.Autosave.{get_from_buffer, flush_to_database}
use test_platform.Grading.{add_grading_job}

abbrev pub handled_ttl : ℕ
handled_ttl = 3600

-- The job of a submission, with its limits.
abbrev pub submission_job : Attempt → Challenge → Files → GradingJob
submission_job a c files = record {
  attempt_id = a.id;
  files = files;
  public_tests = c.public_tests;
  hidden_tests = c.hidden_tests;
  dependencies = c.dependencies;
  node_version = c.node_version;
  time_limit = 120;
  memory_limit = 512;
  runner = c.runner;
  challenge_id = c.id;
  is_preview = false;
}

-- `bufferedFiles || attempt.files || {}`.
abbrev pub files_to_grade : Option Files → Attempt → Files
files_to_grade buffered a = elim (or_else buffered a.files) [ none ↦ [] | some f ↦ f ]

abbrev pub challenge_of : Option Exam → Option Challenge
challenge_of none = none
challenge_of (some e) = e.challenge

-- The whole seconds until a time, and 0 after it.
abbrev pub seconds_until : ℕ → ℕ → ℕ
seconds_until now end = (end - now) / 1000

abbrev pub other_intervals : ℕ → List Interval → List Interval
other_intervals id [] = []
other_intervals id (i ∷ is) =
    if i.attempt_id == id then other_intervals id is else i ∷ other_intervals id is

abbrev pub runs : ℕ → List Interval → Bool
runs id = any (λ i. i.attempt_id == id)

module _ {A B T Q : Type 0} (kv : Strings A) (ss : Sets B) (table : AttemptTable T)
    (streams : Streams Q) (exam_of : ℕ → Option Exam) where
  unfoldable pub is_timer_handled : ℕ → ℕ → App A B T Q → Bool
  is_timer_handled now id app = is_some (kv.get now (timer_handled id) app.store.strings)

  unfoldable pub mark_timer_handled : ℕ → ℕ → App A B T Q → App A B T Q
  mark_timer_handled now id app = record app {
    store = record app.store {
      strings = kv.set_ex now (timer_handled id) flag handled_ttl app.store.strings;
    };
  }

  unfoldable pub stop_timer : ℕ → App A B T Q → App A B T Q
  stop_timer id app = record app {
    intervals = other_intervals id app.intervals;
    store = record app.store { strings = kv.del (timer id) app.store.strings };
  }

  unfoldable pub delete_lock : ℕ → App A B T Q → App A B T Q
  delete_lock id app = record app {
    store = record app.store { strings = kv.del (timer_lock id) app.store.strings };
  }

  unfoldable pub stop_timer_permanently : ℕ → ℕ → App A B T Q → App A B T Q
  stop_timer_permanently now id app = delete_lock id (stop_timer id (mark_timer_handled now id app))

  unfoldable pub send : Event → App A B T Q → App A B T Q
  send e app = record app { sent = app.sent ++ e ∷ [] }

  unfoldable pub update_attempt : ℕ → (Attempt → Attempt) → App A B T Q → App A B T Q
  update_attempt id f app = record app { attempts = table.update id f app.attempts }

  -- The end of the `try` block of `handleTimerExpired`. Without a challenge the arguments of
  -- `addGradingJob` throw, after the status is written, and the `catch` ends the block.
  unfoldable pub submit_expired : ℕ → ℕ → ℕ → Attempt → App A B T Q → App A B T Q
  submit_expired now job_id id a app =
      let flushed = (flush_to_database kv ss table now id app).1 in
      let files = files_to_grade (get_from_buffer kv ss table now id flushed) a in
      let marked =
        update_attempt id (λ x. record x { status = submitted; submitted_at = some now }) flushed in
      elim (challenge_of (exam_of a.exam_id)) [
        | none ↦ marked
        | some c ↦
            update_attempt id (set_status grading)
              (add_grading_job streams now job_id (submission_job a c files) marked)
      ]

  -- The `try` block of `handleTimerExpired`.
  unfoldable pub auto_submit_expired : ℕ → ℕ → ℕ → App A B T Q → App A B T Q
  auto_submit_expired now job_id id app =
      let told = send (timer_expired id) app in
      elim (table.find id told.attempts) [
        | none ↦ stop_timer id told
        | some a ↦
            if status_eq a.status in_progress
            then submit_expired now job_id id a told
            else stop_timer id told
      ]

  unfoldable pub handle_timer_expired : ℕ → ℕ → ℕ → App A B T Q → App A B T Q
  handle_timer_expired now job_id id app =
      let marked = mark_timer_handled now id app in
      if is_some (kv.get now (timer_handled id) marked.store.strings)
      then stop_timer id marked
      else let (acquired, strings') = kv.set_nx now (timer_lock id) flag 60 marked.store.strings in
        let locked = record marked { store = record marked.store { strings = strings' } } in
        if not acquired
        then stop_timer id locked
        else stop_timer id
            (delete_lock id (auto_submit_expired now job_id id (mark_timer_handled now id locked)))

  -- The earlier of the individual end and the end of the exam's window. A window that ends at time 0
  -- counts as none.
  unfoldable pub end_time_of : ℕ → ℕ → Option ℕ → ℕ
  end_time_of started_at time_limit none = started_at + time_limit * 60 * 1000
  end_time_of started_at time_limit (some e) =
      if e == 0
      then started_at + time_limit * 60 * 1000
      else min (started_at + time_limit * 60 * 1000) e

  -- The time to live of the timer's entry in seconds: `Math.ceil` of the rest, and five minutes.
  abbrev pub timer_ttl : ℕ → ℕ → ℕ
  timer_ttl now end = (end - now + 999) / 1000 + 300

  unfoldable pub start_timer : ℕ → ℕ → ℕ → ℕ → ℕ → Option ℕ → App A B T Q → App A B T Q
  start_timer now job_id id started_at time_limit scheduled app =
      if is_timer_handled now id app || runs id app.intervals
      then app
      else let end = end_time_of started_at time_limit scheduled in
        if leb end now then handle_timer_expired now job_id id app else record app {
          store = record app.store {
            strings = kv.expire now (timer id) (timer_ttl now end) (
                kv.set (timer id)
                  (timer_meta (record {
                    attempt_id = id;
                    started_at = started_at;
                    end_time = end;
                    time_limit = time_limit;
                    scheduled_end_at = scheduled;
                  }))
                  app.store.strings);
          };
          intervals = record { attempt_id = id; end_time = end } ∷ app.intervals;
        }

  -- A callback of the interval. Its guard drops it if the interval is gone from the map.
  unfoldable pub tick : ℕ → ℕ → Interval → App A B T Q → App A B T Q
  tick now job_id i app =
      if not (runs i.attempt_id app.intervals) || is_timer_handled now i.attempt_id app
      then app
      else let remaining = seconds_until now i.end_time in
        let told = send (timer_tick i.attempt_id remaining) app in
        if remaining == 0
        then handle_timer_expired now job_id i.attempt_id
            (stop_timer i.attempt_id (mark_timer_handled now i.attempt_id told))
        else told

  unfoldable pub get_timer_meta : ℕ → ℕ → App A B T Q → Option TimerMeta
  get_timer_meta now id app = elim (kv.get now (timer id) app.store.strings) [
    | none ↦ none
    | some v ↦ parse_timer v
  ]

  unfoldable pub get_remaining_time : ℕ → ℕ → App A B T Q → Option ℕ
  get_remaining_time now id app = elim (get_timer_meta now id app) [
    | none ↦ none
    | some m ↦ some (seconds_until now m.end_time)
  ]

  unfoldable pub resume_timer : ℕ → ℕ → ℕ → App A B T Q → Bool × App A B T Q
  resume_timer now job_id id app =
      if is_timer_handled now id app
      then (false, app)
      else if runs id app.intervals
      then (true, app)
      else elim (get_timer_meta now id app) [
        | none ↦ (false, app)
        | some m ↦
            if seconds_until now m.end_time == 0
            then (false, handle_timer_expired now job_id id (mark_timer_handled now id app))
            else (
              true,
              record app {
                intervals = record { attempt_id = id; end_time = m.end_time } ∷ app.intervals;
              },
            )
      ]

  unfoldable pub stop_all_local_timers : App A B T Q → App A B T Q
  stop_all_local_timers app = record app { intervals = [] }
