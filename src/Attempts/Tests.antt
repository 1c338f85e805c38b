-- ===== src/Attempts/Tests.antt =====
-- The routes of routes/attempts.ts, and the queue that they fill, at concrete inputs.
use test_platform.Base.{
  List, ◌+◌, ℕ, ◌<◌, ◌≡◌, refl, ◌↔◌, true, false, Option, none, some, [], ◌∷◌, ◌++◌, arith, ◌==◌,
  length, Reply, ok, api_error, is_ok, if◌then◌else◌, All,
}
use test_platform.Redis.Keys.{Files}
use test_platform.Redis.Memory.{strings, sets, Cells, Groups}
use test_platform.Platform.{App, high, low}
use test_platform.Platform.Memory.{table, streams, Rows, Queue}
use test_platform.Platform.Sample.{
  old_files, new_files, outside, challenge, exam, exam_of, attempt, bare, app,
}
use test_platform.Autosave.{
  save_to_buffer, read_buffer, get_from_buffer, write_back, flush_to_database, flush_attempts,
  flush_all_dirty, clear_buffer,
}
use test_platform.Autosave.Laws.{is_dirty}
use test_platform.Grading.{add_grading_job}
use test_platform.Timers.{
  submission_job, runs, update_attempt, mark_timer_handled, stop_timer, delete_lock,
  stop_timer_permanently,
}
use test_platform.Attempts.{
  Started, created, new_attempt, before_window, after_window, create_attempt, start_published,
  start_attempt, own_attempt, save_files, release_lock, run_locked, run_tests, preview_graded,
  submit_attempt, submit,
}
use test_platform.Attempts.Paths.{
  split_slash, path_valid, paths_valid, IsContained, paths_valid-IsContained,
}
use test_platform.Attempts.Start.{own_attempts, start_attempt_iff, start_attempt-in_progress}
use test_platform.Attempts.Runs.{IsOpenFor, run_tests_excludes}
use test_platform.Autosave.Refinement.{
  Operation, saves, flushes_all, IsSteady, latest, shown, perform, run,
}
use test_platform.Attempts.Concurrent.{
  Submission, submit_both, files_of, between, submit_both-queue,
}
use test_platform.Attempts.Latest.{or_empty, submit-latest}
use test_platform.Attempts.Writes.{submitted_row, submitted_files}
use test_platform.Attempts.Submission.{submit_lem, submit_twice}

routes : Unit {0}
unfolding create_attempt start_published start_attempt own_attempt save_files release_lock
    run_locked run_tests preview_graded submit_attempt submit split_slash path_valid paths_valid
    save_to_buffer read_buffer get_from_buffer write_back flush_to_database clear_buffer
    add_grading_job update_attempt mark_timer_handled stop_timer delete_lock stop_timer_permanently
routes = tt

abbrev start : ℕ → App Cells Groups Rows Queue → Reply Started × App Cells Groups Rows Queue
start now = start_attempt strings sets table streams exam_of now 8 1 3

abbrev send_in :
    ℕ → Option Files → App Cells Groups Rows Queue → Reply ℕ × App Cells Groups Rows Queue
send_in user_id given = submit strings sets table streams exam_of 90000 30 user_id 7 given

paths_test : (paths_valid new_files ≡ true) × (paths_valid outside ≡ false)
unfolding routes
paths_test = (refl, refl)

save_test :
    ((save_files strings sets table streams exam_of 5 1 7 new_files app).0 ≡ ok tt)
    × ((save_files strings sets table streams exam_of 5 1 7 outside app).0 ≡ api_error 400)
    × ((save_files strings sets table streams exam_of 5 2 7 new_files app).0 ≡ api_error 403)
    × ((save_files strings sets table streams exam_of 5 1 9 new_files app).0 ≡ api_error 404)
unfolding routes
save_test = (refl, refl, refl, refl)

submit_test :
    ((send_in 1 none app).0 ≡ ok 30)
    × ((send_in 2 none app).0 ≡ api_error 403)
    × ((send_in 1 none (send_in 1 none app).1).0 ≡ api_error 400)
unfolding routes
submit_test = (refl, refl, refl)

paths_valid-IsContained_example : All (λ file. IsContained file.0) new_files
paths_valid-IsContained_example = paths_valid-IsContained new_files paths_test.0

start_attempt_iff_example :
    let result = start 600 (bare []) in
    ((is_ok result.0 ≡ true) ↔ (
      (exam.is_published ≡ true)
      × (before_window 600 exam ≡ false)
      × (after_window 600 exam ≡ false)
      × (length (own_attempts strings sets table streams exam_of 3 1 (bare [])) < 1)))
    × (result ≡ (
        if is_ok result.0
        then (
          ok (created (new_attempt 600 8 3 1 old_files)),
          record (bare []) { attempts = table.insert (new_attempt 600 8 3 1 old_files) [] },
        )
        else (result.0, bare [])))
start_attempt_iff_example =
    start_attempt_iff strings sets table streams exam_of 600 8 1 exam challenge (bare []) refl refl

start_attempt-in_progress_example : start 600 app ≡ (api_error 400, app)
start_attempt-in_progress_example =
    start_attempt-in_progress strings sets table streams exam_of 600 8 1 exam attempt app refl refl
      refl refl refl refl

open_sample : IsOpenFor strings sets table streams exam_of 1 7 attempt app
open_sample = (refl, refl, refl)

abbrev ran : Reply ℕ × App Cells Groups Rows Queue
ran = run_tests strings sets table streams exam_of 60000 20 1 7 app

ran_ok : is_ok ran.0 ≡ true
unfolding routes
ran_ok = refl

run_tests_excludes_example :
    run_tests strings sets table streams exam_of 70000 21 2 7 ran.1 ≡ (api_error 429, ran.1)
run_tests_excludes_example =
    run_tests_excludes strings sets table streams exam_of 60000 70000 20 21 1 2 7 app (omega arith)
      ran_ok

-- Somebody else asks for a run.
abbrev stranger : Reply ℕ × App Cells Groups Rows Queue
stranger = run_tests strings sets table streams exam_of 60000 20 2 7 app

stranger_refused : stranger.0 ≡ api_error 403
unfolding routes
stranger_refused = refl

submit_lem_example :
    let files = submitted_files strings sets table streams exam_of 90000 7 none attempt app in
    ((send_in 1 none app).0 ≡ ok 30)
    × ((x : ℕ)
        → table.find x (send_in 1 none app).1.attempts ≡ (
            if x == 7 then some (submitted_row 90000 files attempt) else table.find x app.attempts))
    × (streams.entries high (send_in 1 none app).1.queue
        ≡ streams.entries high app.queue ++ (30, submission_job attempt challenge files) ∷ [])
    × (streams.entries low (send_in 1 none app).1.queue ≡ streams.entries low app.queue)
    × (runs 7 (send_in 1 none app).1.intervals ≡ false)
    × (get_from_buffer strings sets table 90000 7 (send_in 1 none app).1 ≡ none)
    × (is_dirty strings sets table 90000 7 (send_in 1 none app).1 ≡ false)
submit_lem_example =
    submit_lem strings sets table streams exam_of 90000 30 1 7 none attempt challenge app
      open_sample refl

submit_twice_example :
    submit strings sets table streams exam_of 90001 31 1 7 (some new_files) (send_in 1 none app).1
    ≡ (api_error 400, (send_in 1 none app).1)
submit_twice_example =
    submit_twice strings sets table streams exam_of 90000 30 1 7 none attempt challenge 90001 31 1
      (some new_files) app open_sample refl

-- A save that is flushed, and a save that is not.
abbrev operations : List Operation
operations = saves 10 7 old_files ∷ flushes_all 20 ∷ saves 30 7 new_files ∷ []

abbrev written : App Cells Groups Rows Queue
written = run strings sets table operations app

app-IsSteady : IsSteady strings sets table 90000 7 app
unfolding routes
app-IsSteady d = refl

open_written : IsOpenFor strings sets table streams exam_of 1 7 attempt written
unfolding routes run perform flush_attempts flush_all_dirty
open_written = (refl, refl, refl)

submit-latest_example :
    streams.entries high
      (submit strings sets table streams exam_of 90000 30 1 7 none written).1.queue
    ≡ streams.entries high written.queue
      ++ (
        30,
        submission_job attempt challenge
            (or_empty (latest operations 7 (shown strings sets table 90000 7 app))),
      )
        ∷ []
submit-latest_example =
    submit-latest strings sets table streams exam_of operations 90000 30 1 7 attempt challenge app
      ((omega arith, omega arith), (omega arith, ((omega arith, omega arith), tt))) app-IsSteady
      open_written refl

abbrev double : ℕ → Submission
double id = record { now = 90000 + id; job_id = id; given = none }

submit_both-queue_example :
    let (first, second, after) =
      submit_both strings sets table streams exam_of 1 7 (double 30) (double 31) app in
    let of = files_of strings sets table streams exam_of 7 in
    (first ≡ ok 30)
    × (second ≡ ok 31)
    × (streams.entries high after.queue ≡ (
        (streams.entries high app.queue
          ++ (30, submission_job attempt challenge (of (double 30) attempt app)) ∷ [])
        ++ (
          31,
          submission_job attempt challenge (
              of
                (double 31)
                attempt
                (between strings sets table streams exam_of 7 (double 30) attempt app)),
        )
          ∷ []))
submit_both-queue_example =
    submit_both-queue strings sets table streams exam_of 1 7 (double 30) (double 31) attempt
      challenge app open_sample refl
