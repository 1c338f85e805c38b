-- ===== src/Scheduler.antt =====
-- apps/api/src/lib/exam-scheduler.ts: the periodic cycle that submits the attempts that nobody
-- submitted. The identifier of the job of an attempt, drawn at random, is `job_of`. The rows of the
-- table `exams` are an argument. The warm-up of containers, which only publishes a message, the
-- timer that calls the cycle and `getSchedulerStatus` are left out.
pub mod Closing
pub mod Sweep
pub mod Windows
pub mod Fallback
pub mod Cycle
pub mod Tests
use test_platform.Base.{
  ℕ, ◌+◌, ◌*◌, Bool, true, false, ◌&&◌, not, Option, none, some, List, [], ◌∷◌, if◌then◌else◌, ◌==◌,
  ltb, leb, length, is_some, map,
}
use test_platform.Redis.{Strings, Sets, Store}
use test_platform.Redis.Keys.{scheduler_lock, processed, attempt_lock, flag, text, Files}
use test_platform.Platform.{
  in_progress, submitted, grading, Attempt, Challenge, Exam, AttemptTable, Streams, timer_expired,
  App, status_eq, set_status,
}
use test_platform.Autosave.{get_from_buffer, flush_to_database}
use test_platform.Grading.{add_grading_job}
use test_platform.Timers.{submission_job, files_to_grade, send, update_attempt}
use test_platform.Attempts.{is_in_progress, mark_submitted}

abbrev pub day : ℕ
day = 24 * 60 * 60

-- The window of an exam ended in the last 24 hours.
abbrev pub window_expired : ℕ → Exam → Bool
window_expired now e = elim e.scheduled_end_at [
  | none ↦ false
  | some t ↦ leb t now && leb now (t + day * 1000)
]

abbrev pub window_end : Exam → ℕ
window_end e = elim e.scheduled_end_at [ none ↦ 0 | some t ↦ t ]

-- More than a minute has passed since the time limit of the attempt.
abbrev pub overdue : ℕ → Attempt → Exam → Bool
overdue now a e = ltb (a.started_at + e.time_limit * 60 * 1000 + 60 * 1000) now

abbrev pub open_of : ℕ → Attempt → Bool
open_of exam_id a = a.exam_id == exam_id && is_in_progress a

-- The exams whose window has ended.
abbrev pub expired_exams : ℕ → List Exam → List Exam
expired_exams now [] = []
expired_exams now (e ∷ es) =
    if window_expired now e then e ∷ expired_exams now es else expired_exams now es

module _ {A B T Q : Type 0} (kv : Strings A) (ss : Sets B) (table : AttemptTable T)
    (streams : Streams Q) (exam_of : ℕ → Option Exam) where
  unfoldable pub auto_submit_attempt : ℕ → (ℕ → ℕ) → Attempt → Exam → App A B T Q → App A B T Q
  auto_submit_attempt now job_of a e app =
      let told = send kv ss table streams exam_of (timer_expired a.id) app in
      let flushed = (flush_to_database kv ss table now a.id told).1 in
      let files = files_to_grade (get_from_buffer kv ss table now a.id flushed) a in
      let marked =
        update_attempt kv ss table streams exam_of a.id (mark_submitted now files) flushed in
      elim e.challenge [
        | none ↦ marked
        | some c ↦
            update_attempt kv ss table streams exam_of a.id (set_status grading)
              (add_grading_job streams now (job_of a.id) (submission_job a c files) marked)
      ]

  unfoldable pub submit_attempts : ℕ → (ℕ → ℕ) → Exam → List Attempt → App A B T Q → App A B T Q
  submit_attempts now job_of e [] app = app
  submit_attempts now job_of e (a ∷ rest) app =
      submit_attempts now job_of e rest (auto_submit_attempt now job_of a e app)

  unfoldable pub mark_processed : ℕ → Exam → App A B T Q → App A B T Q
  mark_processed now e app = record app {
    store = record app.store {
      strings = kv.set_ex now (processed e.id (window_end e)) flag day app.store.strings;
    };
  }

  -- The query of the cycle: each exam whose window has ended, with its attempts in progress.
  unfoldable pub expired_with_attempts : ℕ → List Exam → App A B T Q → List (Exam × List Attempt)
  expired_with_attempts now exams app =
      map (λ e. (e, table.select (open_of e.id) app.attempts)) (expired_exams now exams)

  -- One round of the loop over the exams.
  unfoldable pub process_exam : ℕ → (ℕ → ℕ) → Exam → List Attempt → App A B T Q → App A B T Q
  process_exam now job_of e attempts app =
      if is_some (kv.get now (processed e.id (window_end e)) app.store.strings)
      then app
      else if length attempts == 0
      then mark_processed now e app
      else mark_processed now e (submit_attempts now job_of e attempts app)

  unfoldable pub process_expired :
      ℕ → (ℕ → ℕ) → List (Exam × List Attempt) → App A B T Q → App A B T Q
  process_expired now job_of [] app = app
  process_expired now job_of ((e, attempts) ∷ rest) app =
      process_expired now job_of rest (process_exam now job_of e attempts app)

  -- One attempt of the fallback, which may be overdue.
  unfoldable pub submit_overdue : ℕ → (ℕ → ℕ) → Attempt → App A B T Q → App A B T Q
  submit_overdue now job_of a app = elim (exam_of a.exam_id) [
    | none ↦ app
    | some e ↦
        if overdue now a e
        then (let (acquired, strings') =
              kv.set_nx now (attempt_lock a.id) flag 300 app.store.strings in
            if acquired
            then auto_submit_attempt now job_of a e
                (record app { store = record app.store { strings = strings' } })
            else app)
        else app
  ]

  unfoldable pub submit_all_overdue : ℕ → (ℕ → ℕ) → List Attempt → App A B T Q → App A B T Q
  submit_all_overdue now job_of [] app = app
  submit_all_overdue now job_of (a ∷ rest) app =
      submit_all_overdue now job_of rest (submit_overdue now job_of a app)

  unfoldable pub unlock_scheduler : App A B T Q → App A B T Q
  unlock_scheduler app = record app {
    store = record app.store { strings = kv.del scheduler_lock app.store.strings };
  }

  unfoldable pub run_locked_cycle : ℕ → (ℕ → ℕ) → List Exam → App A B T Q → App A B T Q
  run_locked_cycle now job_of exams app =
      let swept = process_expired now job_of (expired_with_attempts now exams app) app in
      submit_all_overdue now job_of (table.select is_in_progress swept.attempts) swept

  unfoldable pub run_scheduler_cycle : ℕ → ℕ → (ℕ → ℕ) → List Exam → App A B T Q → App A B T Q
  run_scheduler_cycle now pid job_of exams app =
      let (acquired, strings') = kv.set_nx now scheduler_lock (text pid) 60 app.store.strings in
      if acquired
      then unlock_scheduler (
          run_locked_cycle now job_of exams
            (record app { store = record app.store { strings = strings' } }))
      else app

  -- `none` where the code throws `Exam not found`.
  unfoldable pub process_exam_end : ℕ → (ℕ → ℕ) → ℕ → App A B T Q → Option ℕ × App A B T Q
  process_exam_end now job_of exam_id app = elim (exam_of exam_id) [
    | none ↦ (none, app)
    | some e ↦
        let attempts = table.select (open_of e.id) app.attempts in
        (some (length attempts), submit_attempts now job_of e attempts app)
  ]
