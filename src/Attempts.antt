-- ===== src/Attempts.antt =====
-- apps/api/src/routes/attempts.ts: starting an attempt, saving its files, running the public tests and
-- submitting. A handler runs after `authenticate` and its rate limiter, with the user's identifier; its
-- body has passed its Zod schema. Times and identifiers that it draws are arguments. A handler is one
-- step.
pub mod Paths
pub mod Start
pub mod Runs
pub mod Writes
pub mod Submission
pub mod Latest
pub mod Concurrent
pub mod Tests
use test_platform.Base.{
  ℕ, ◌+◌, ◌*◌, Bool, true, false, ◌&&◌, ◌||◌, not, Option, none, some, List, [], ◌∷◌, ◌++◌,
  if◌then◌else◌, ◌==◌, ltb, leb, length, find?, or_else, Reply, ok, api_error,
}
use test_platform.Redis.{Strings, Sets, Store}
use test_platform.Redis.Keys.{Files, grading_lock, text}
use test_platform.Platform.{
  Status, in_progress, submitted, grading, Attempt, Challenge, Exam, AttemptTable, GradingJob,
  Streams, App, status_eq, set_status,
}
use test_platform.Autosave.{get_from_buffer, flush_to_database, save_to_buffer, clear_buffer}
use test_platform.Grading.{add_grading_job}
use test_platform.Timers.{
  submission_job, files_to_grade, challenge_of, update_attempt, stop_timer_permanently,
}
use Paths.{paths_valid}

-- The answer of `POST /attempts`: an old attempt that goes on, or a new one.
pub data Started : Type 0 where
  resumed : Attempt → Started
  created : Attempt → Started

-- The row that an insert makes, with the defaults of the table.
abbrev pub new_attempt : ℕ → ℕ → ℕ → ℕ → Files → Attempt
new_attempt now id exam_id user_id files = record {
  id = id;
  exam_id = exam_id;
  candidate_id = user_id;
  status = in_progress;
  started_at = now;
  submitted_at = none;
  files = some files;
  public_score = none;
  hidden_score = none;
  total_public = none;
  total_hidden = none;
  grading_logs = none;
  graded_at = none;
  tab_exits = 0;
  total_out_of_window_seconds = 0;
  fullscreen_exits = 0;
  paste_attempts = 0;
}

-- The window of a scheduled exam is open at a time.
abbrev pub before_window : ℕ → Exam → Bool
before_window now e = elim e.scheduled_start_at [ none ↦ false | some t ↦ ltb now t ]

abbrev pub after_window : ℕ → Exam → Bool
after_window now e = elim e.scheduled_end_at [ none ↦ false | some t ↦ leb t now ]

abbrev pub belongs : ℕ → ℕ → Attempt → Bool
belongs exam_id user_id a = a.exam_id == exam_id && a.candidate_id == user_id

abbrev pub is_in_progress : Attempt → Bool
is_in_progress a = status_eq a.status in_progress

-- The preview job of `POST /:id/run-tests`.
abbrev pub preview_job : Attempt → Challenge → Files → GradingJob
preview_job a c files = record (submission_job a c files) {
  hidden_tests = [];
  time_limit = 60;
  is_preview = true;
}

-- The row of a submission.
abbrev pub mark_submitted : ℕ → Files → Attempt → Attempt
mark_submitted now files x = record x {
  status = submitted;
  submitted_at = some now;
  files = some files;
}

-- `data.files || bufferedFiles || attempt.files || {}`.
abbrev pub final_files : Option Files → Option Files → Attempt → Files
final_files given buffered a = files_to_grade (or_else given buffered) a

module _ {A B T Q : Type 0} (kv : Strings A) (ss : Sets B) (table : AttemptTable T)
    (streams : Streams Q) (exam_of : ℕ → Option Exam) where
  -- The end of `POST /attempts`. Reading the files of a missing challenge throws.
  unfoldable pub create_attempt : ℕ → ℕ → ℕ → Exam → App A B T Q → Reply Started × App A B T Q
  create_attempt now id user_id e app = elim e.challenge [
    | none ↦ (api_error 500, app)
    | some c ↦
        let a : Attempt = new_attempt now id e.id user_id c.starter_files in
        (ok (created a), record app { attempts = table.insert a app.attempts })
  ]

  unfoldable pub start_published : ℕ → ℕ → ℕ → Exam → App A B T Q → Reply Started × App A B T Q
  start_published now id user_id e app =
      if before_window now e
      then (api_error 403, app)
      else if after_window now e
      then (api_error 403, app)
      else let existing = table.select (belongs e.id user_id) app.attempts in
        if leb e.max_attempts (length existing)
        then (api_error 400, app)
        else elim (find? is_in_progress existing) [
          | some a ↦ (ok (resumed a), app)
          | none ↦ create_attempt now id user_id e app
        ]

  unfoldable pub start_attempt : ℕ → ℕ → ℕ → ℕ → App A B T Q → Reply Started × App A B T Q
  start_attempt now id user_id exam_id app = elim (exam_of exam_id) [
    | none ↦ (api_error 404, app)
    | some e ↦ if e.is_published then start_published now id user_id e app else (api_error 404, app)
  ]

  -- The three tests that the handlers for an attempt share, in their order.
  unfoldable pub own_attempt : ℕ → ℕ → App A B T Q → Reply Attempt
  own_attempt user_id attempt_id app = elim (table.find attempt_id app.attempts) [
    | none ↦ api_error 404
    | some a ↦
        if a.candidate_id == user_id
        then if is_in_progress a then ok a else api_error 400
        else api_error 403
  ]

  -- `PUT /:id/files`.
  unfoldable pub save_files : ℕ → ℕ → ℕ → Files → App A B T Q → Reply (Unit {0}) × App A B T Q
  save_files now user_id attempt_id files app = elim (own_attempt user_id attempt_id app) [
    | api_error code ↦ (api_error code, app)
    | ok a ↦
        if paths_valid files
        then (ok tt, save_to_buffer kv ss table now attempt_id files app)
        else (api_error 400, app)
  ]

  unfoldable pub release_lock : ℕ → App A B T Q → App A B T Q
  release_lock attempt_id app = record app {
    store = record app.store { strings = kv.del (grading_lock attempt_id) app.store.strings };
  }

  -- `POST /:id/run-tests` with the lock held. Every refusal releases it.
  unfoldable pub run_locked : ℕ → ℕ → ℕ → ℕ → App A B T Q → Reply ℕ × App A B T Q
  run_locked now job_id user_id attempt_id app = elim (own_attempt user_id attempt_id app) [
    | api_error code ↦ (api_error code, release_lock attempt_id (release_lock attempt_id app))
    | ok a ↦
        let files = files_to_grade (get_from_buffer kv ss table now attempt_id app) a in
        elim (challenge_of (exam_of a.exam_id)) [
          | none ↦ (api_error 500, release_lock attempt_id app)
          | some c ↦ (ok job_id, add_grading_job streams now job_id (preview_job a c files) app)
        ]
  ]

  unfoldable pub run_tests : ℕ → ℕ → ℕ → ℕ → App A B T Q → Reply ℕ × App A B T Q
  run_tests now job_id user_id attempt_id app =
      let (acquired, strings') =
        kv.set_nx now (grading_lock attempt_id) (text now) 90 app.store.strings in
      if acquired
      then run_locked now job_id user_id attempt_id
          (record app { store = record app.store { strings = strings' } })
      else (api_error 429, app)

  -- `handleGradingComplete` of socket/index.ts for the result of a preview.
  unfoldable pub preview_graded : ℕ → App A B T Q → App A B T Q
  preview_graded = release_lock

  -- `POST /:id/submit` behind its tests. A missing challenge throws after the status is written.
  unfoldable pub submit_attempt :
      ℕ → ℕ → ℕ → Option Files → Attempt → App A B T Q → Reply ℕ × App A B T Q
  submit_attempt now job_id attempt_id given a app =
      let stopped = stop_timer_permanently kv ss table streams exam_of now attempt_id app in
      let flushed = (flush_to_database kv ss table now attempt_id stopped).1 in
      let files = final_files given (get_from_buffer kv ss table now attempt_id flushed) a in
      let marked =
        update_attempt kv ss table streams exam_of attempt_id (mark_submitted now files) flushed in
      elim (challenge_of (exam_of a.exam_id)) [
        | none ↦ (api_error 500, marked)
        | some c ↦ (
          ok job_id,
          clear_buffer kv ss table now attempt_id (
              update_attempt kv ss table streams exam_of attempt_id (set_status grading)
                (add_grading_job streams now job_id (submission_job a c files) marked)),
        )
      ]

  unfoldable pub submit : ℕ → ℕ → ℕ → ℕ → Option Files → App A B T Q → Reply ℕ × App A B T Q
  submit now job_id user_id attempt_id given app = elim (own_attempt user_id attempt_id app) [
    | api_error code ↦ (api_error code, app)
    | ok a ↦ submit_attempt now job_id attempt_id given a app
  ]
