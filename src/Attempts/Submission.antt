-- ===== src/Attempts/Submission.antt =====
-- `POST /:id/submit` of routes/attempts.ts: what one submission does, and that there is no second.
use test_platform.Base.{
  ℕ, ◌≡◌, refl, false, Option, none, some, [], ◌∷◌, ◌++◌, arith, ◌==◌, ok, api_error, if◌then◌else◌,
  ==_refl,
}
use test_platform.Redis.{Strings, Sets}
use test_platform.Redis.Keys.{Files}
use test_platform.Platform.{
  Attempt, Challenge, Exam, AttemptTable, Streams, App, high, low, grading, set_status,
}
use test_platform.Autosave.{get_from_buffer, clear_buffer}
use test_platform.Autosave.Laws.{is_dirty, clear_buffer_lem}
use test_platform.Grading.{add_grading_job}
use test_platform.Timers.{
  submission_job, challenge_of, update_attempt, stop_timer_permanently, runs,
}
use test_platform.Attempts.{own_attempt, submit_attempt, submit, mark_submitted}
use test_platform.Attempts.Runs.{IsOpenFor, own_attempt_of}
use test_platform.Attempts.Writes.{
  submitted_row, submitted_files, flushed, accepted-frame, find-accepted, stop-intervals,
  accepted-queue, files-flushed, flush-intervals,
}

module _ {A B T Q : Type 0} (kv : Strings A) (ss : Sets B) (table : AttemptTable T)
    (streams : Streams Q) (exam_of : ℕ → Option Exam) where
  submit_attempt-ok :
      (now job_id id : ℕ) (given : Option Files) (a : Attempt) (c : Challenge) (app : App A B T Q)
      → challenge_of (exam_of a.exam_id) ≡ some c
      → let files = submitted_files kv ss table streams exam_of now id given a app in
        let marked =
          update_attempt kv ss table streams exam_of id
            (mark_submitted now files)
            (flushed kv ss table streams exam_of now id app) in
        submit_attempt kv ss table streams exam_of now job_id id given a app ≡ (
          ok job_id,
          clear_buffer kv ss table now id (
              update_attempt kv ss table streams exam_of id
                (set_status grading)
                (add_grading_job streams now job_id (submission_job a c files) marked)),
        )
  unfolding submit_attempt
  submit_attempt-ok now job_id id given a c app present =
      rw (present, submit_attempt, files-flushed kv ss table streams exam_of now id app) refl

  pub submit_attempt-queue :
      (now job_id id : ℕ) (given : Option Files) (a : Attempt) (c : Challenge) (app : App A B T Q)
      → challenge_of (exam_of a.exam_id) ≡ some c
      → let result = submit_attempt kv ss table streams exam_of now job_id id given a app in
        (result.0 ≡ ok job_id)
        × (streams.entries high result.1.queue
            ≡ streams.entries high app.queue
              ++ (
                job_id,
                submission_job a c (submitted_files kv ss table streams exam_of now id given a app),
              )
                ∷ [])
  submit_attempt-queue now job_id id given a c app present =
      let files = submitted_files kv ss table streams exam_of now id given a app in
      rw (submit_attempt-ok now job_id id given a c app present) (
        refl,
        accepted-queue kv ss table streams exam_of now job_id id (submission_job a c files) files
            app high,
      )

  -- A submission for an attempt in progress of the user who submits. The row has the time, the files
  -- and the status GRADING, and every other row is as it was. One job with these files goes to the end
  -- of the stream of submissions, none to that of previews. No timer runs for the attempt, its buffer
  -- is empty and it waits for no flush.
  pub submit_lem :
      (now job_id user_id id : ℕ) (given : Option Files) (a : Attempt) (c : Challenge)
      (app : App A B T Q)
      → IsOpenFor kv ss table streams exam_of user_id id a app
      → challenge_of (exam_of a.exam_id) ≡ some c
      → let result = submit kv ss table streams exam_of now job_id user_id id given app in
        let files = submitted_files kv ss table streams exam_of now id given a app in
        (result.0 ≡ ok job_id)
        × ((x : ℕ)
            → table.find x result.1.attempts
              ≡ (if x == id then some (submitted_row now files a) else table.find x app.attempts))
        × (streams.entries high result.1.queue
            ≡ streams.entries high app.queue ++ (job_id, submission_job a c files) ∷ [])
        × (streams.entries low result.1.queue ≡ streams.entries low app.queue)
        × (runs id result.1.intervals ≡ false)
        × (get_from_buffer kv ss table now id result.1 ≡ none)
        × (is_dirty kv ss table now id result.1 ≡ false)
  unfolding submit get_from_buffer
  submit_lem now job_id user_id id given a c app w present =
      let files = submitted_files kv ss table streams exam_of now id given a app in
      let job = submission_job a c files in
      let app' = flushed kv ss table streams exam_of now id app in
      let stopped = stop_timer_permanently kv ss table streams exam_of now id app in
      let frame = accepted-frame kv ss table streams exam_of now job_id id job files app' in
      let flushed_runs = flush-intervals kv ss table streams exam_of now id stopped in
      let final = update_attempt kv ss table streams exam_of id (set_status grading) (
        add_grading_job streams now job_id job
          (update_attempt kv ss table streams exam_of id (mark_submitted now files) app')) in
      let cleared = clear_buffer_lem kv ss table now id id final in
      rw
        (
          own_attempt_of kv ss table streams exam_of user_id id a app w,
          submit,
          submit_attempt-ok now job_id id given a c app present,
        )
        (
          refl,
          (λ x. find-accepted kv ss table streams exam_of now job_id id x job files a app w.0),
          accepted-queue kv ss table streams exam_of now job_id id job files app high,
          accepted-queue kv ss table streams exam_of now job_id id job files app low,
          ground
              (arith, frame.1, flushed_runs, stop-intervals kv ss table streams exam_of now id app),
          ground (arith, cleared.0),
          ground (arith, cleared.1),
        )

  -- After a submission that succeeds, a further one for the attempt, by anyone, at any time and with any
  -- files, is refused with 400, or with 403 to another user, and changes nothing.
  pub submit_twice :
      (now job_id user_id id : ℕ) (given : Option Files) (a : Attempt) (c : Challenge)
      (later later_job other_id : ℕ) (other : Option Files) (app : App A B T Q)
      → IsOpenFor kv ss table streams exam_of user_id id a app
      → challenge_of (exam_of a.exam_id) ≡ some c
      → let done = (submit kv ss table streams exam_of now job_id user_id id given app).1 in
        submit kv ss table streams exam_of later later_job other_id id other done
        ≡ ((if other_id == user_id then api_error 400 else api_error 403), done)
  unfolding submit own_attempt
  submit_twice now job_id user_id id given a c later later_job other_id other app w present =
      let row = (submit_lem now job_id user_id id given a c app w present).1 id in
      ground (arith, row, ==_refl id)
