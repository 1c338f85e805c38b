-- ===== src/Attempts/Writes.antt =====
-- The writes of `POST /:id/submit` of routes/attempts.ts, one after the other: the timer, the buffer, the row and
-- the queue.
use test_platform.Base.{
  ℕ, ◌≡◌, refl, ◌∙◌, false, Option, some, List, [], ◌∷◌, ◌++◌, arith, ◌==◌, if◌then◌else◌,
  Option-cases, Bool-cases, inl, inr,
}
use test_platform.Redis.{Strings, Sets}
use test_platform.Redis.Keys.{Files, timer, timer_lock, timer_handled, autosave, flag}
use test_platform.Platform.{
  Attempt, Exam, AttemptTable, Streams, App, grading, set_status, GradingJob, Interval, Stream,
  stream_eq,
}
use test_platform.Autosave.{
  get_from_buffer, read_buffer, write_back, flush_to_database, clear_buffer,
}
use test_platform.Autosave.Laws.{with_buffer, flush_to_database_lem}
use test_platform.Grading.{add_grading_job, stream_of}
use test_platform.Grading.Laws.{add_grading_job_lem}
use test_platform.Timers.{
  update_attempt, stop_timer_permanently, stop_timer, mark_timer_handled, delete_lock, runs,
  handled_ttl, other_intervals,
}
use test_platform.Attempts.{final_files, mark_submitted}

-- The row as a submission leaves it.
abbrev pub submitted_row : ℕ → Files → Attempt → Attempt
submitted_row now files a = record a {
  status = grading;
  submitted_at = some now;
  files = some files;
}

module _ {A B T Q : Type 0} (kv : Strings A) (ss : Sets B) (table : AttemptTable T)
    (streams : Streams Q) (exam_of : ℕ → Option Exam) where
  read-stop_timer_permanently :
      (now t id x : ℕ) (app : App A B T Q)
      → read_buffer kv ss table t x (stop_timer_permanently kv ss table streams exam_of now id app)
        ≡ read_buffer kv ss table t x app
  unfolding read_buffer stop_timer_permanently stop_timer mark_timer_handled delete_lock
  read-stop_timer_permanently now t id x app =
      let s = kv.set_ex now (timer_handled id) flag handled_ttl app.store.strings in
      ground (
        arith,
        kv.get-del t (autosave x) (timer_lock id) (kv.del (timer id) s),
        kv.get-del t (autosave x) (timer id) s,
        kv.get-set_ex t now (autosave x) (timer_handled id) flag handled_ttl app.store.strings,
      )

  -- The state in which a submission writes the row.
  abbrev pub flushed : ℕ → ℕ → App A B T Q → App A B T Q
  flushed now id app =
      (flush_to_database kv ss table now id
        (stop_timer_permanently kv ss table streams exam_of now id app)).1

  stop-frame :
      (now id : ℕ) (app : App A B T Q)
      → let app' = stop_timer_permanently kv ss table streams exam_of now id app in
        (app'.attempts ≡ app.attempts) × (app'.queue ≡ app.queue) × (app'.sent ≡ app.sent)
  unfolding stop_timer_permanently stop_timer mark_timer_handled delete_lock
  stop-frame now id app = (refl, refl, refl)

  flush-queue :
      (now id : ℕ) (app : App A B T Q)
      → (flush_to_database kv ss table now id app).1.queue ≡ app.queue
  unfolding flush_to_database write_back
  flush-queue now id app = ground arith

  pub flush-intervals :
      (now id : ℕ) (app : App A B T Q)
      → (flush_to_database kv ss table now id app).1.intervals ≡ app.intervals
  unfolding flush_to_database write_back
  flush-intervals now id app = ground arith

  pub find-flushed :
      (now id x : ℕ) (app : App A B T Q)
      → table.find x (flushed now id app).attempts ≡ (
          if x == id
          then with_buffer (read_buffer kv ss table now id app) (table.find x app.attempts)
          else table.find x app.attempts)
  find-flushed now id x app =
      let before = stop_timer_permanently kv ss table streams exam_of now id app in
      let row = (flush_to_database_lem kv ss table now now id x before).1 in
      ground (arith, row, read-stop_timer_permanently now now id id app, (stop-frame now id app).0)

  -- The files that a submission grades: those of the request, or else of the buffer, or else of the row.
  abbrev pub submitted_files : ℕ → ℕ → Option Files → Attempt → App A B T Q → Files
  submitted_files now id given a app = final_files given (get_from_buffer kv ss table now id app) a

  pub files-flushed :
      (now id : ℕ) (app : App A B T Q)
      → get_from_buffer kv ss table now id (flushed now id app)
        ≡ get_from_buffer kv ss table now id app
  unfolding get_from_buffer
  files-flushed now id app =
      let before = stop_timer_permanently kv ss table streams exam_of now id app in
      ground (
        arith,
        (flush_to_database_lem kv ss table now now id id before).3,
        read-stop_timer_permanently now now id id app,
      )

  -- What a submission does to the state in which the buffer is flushed.
  abbrev pub accepted : ℕ → ℕ → ℕ → GradingJob → Files → App A B T Q → App A B T Q
  accepted now job_id id job files app = clear_buffer kv ss table now id (
      update_attempt kv ss table streams exam_of id (set_status grading) (
        add_grading_job streams now job_id job
          (update_attempt kv ss table streams exam_of id (mark_submitted now files) app)))

  pub accepted-frame :
      (now job_id id : ℕ) (job : GradingJob) (files : Files) (app : App A B T Q)
      → let app' = accepted now job_id id job files app in
        (app'.queue ≡ (add_grading_job streams now job_id job app).queue)
        × (app'.intervals ≡ app.intervals)
        × (app'.attempts
            ≡ table.update id
                (set_status grading)
                (table.update id (mark_submitted now files) app.attempts))
  unfolding clear_buffer update_attempt add_grading_job
  accepted-frame now job_id id job files app = (refl, refl, refl)

  -- The rows that a submission leaves.
  pub find-accepted :
      (now job_id id x : ℕ) (job : GradingJob) (files : Files) (a : Attempt) (app : App A B T Q)
      → table.find id app.attempts ≡ some a
      → table.find x (accepted now job_id id job files (flushed now id app)).attempts
        ≡ (if x == id then some (submitted_row now files a) else table.find x app.attempts)
  find-accepted now job_id id x job files a app found =
      let before = (flushed now id app).attempts in
      let first = table.find-update id x (mark_submitted now files) before in
      let marked = table.update id (mark_submitted now files) before in
      let second = table.find-update id x (set_status grading) marked in
      let here = find-flushed now id x app in
      let frame = (accepted-frame now job_id id job files (flushed now id app)).2 in
      elim (Bool-cases (x == id)) [
        | inl e ↦ elim (Option-cases (read_buffer kv ss table now id app)) [
          | inl none_there ↦ ground (arith, first, second, here, frame, found)
          | inr (b, there) ↦ ground (arith, first, second, here, frame, found)
        ]
        | inr e ↦ ground (arith, first, second, here, frame)
      ]

  not_running : (id : ℕ) (is : List Interval) → runs id (other_intervals id is) ≡ false
  not_running id [] = refl
  not_running id (i ∷ is) = ground (arith, not_running id is)

  pub stop-intervals :
      (now id : ℕ) (app : App A B T Q)
      → runs id (stop_timer_permanently kv ss table streams exam_of now id app).intervals ≡ false
  unfolding stop_timer_permanently stop_timer mark_timer_handled delete_lock
  stop-intervals now id app = not_running id app.intervals

  -- The queue after the writes of a submission, whatever the row is by then.
  pub accepted-queue :
      (now job_id id : ℕ) (job : GradingJob) (files : Files) (app : App A B T Q) (s : Stream)
      → streams.entries s (accepted now job_id id job files (flushed now id app)).queue ≡ (
          if stream_eq s (stream_of job)
          then streams.entries s app.queue ++ (job_id, job) ∷ []
          else streams.entries s app.queue)
  accepted-queue now job_id id job files app s =
      let app' = flushed now id app in
      let stopped = stop_timer_permanently kv ss table streams exam_of now id app in
      let flushed_queue : app'.queue ≡ app.queue =
        flush-queue now id stopped ∙ (stop-frame now id app).1 in
      ground (
        arith,
        (accepted-frame now job_id id job files app').0,
        flushed_queue,
        (add_grading_job_lem streams now job_id 0 s job app').0,
      )
