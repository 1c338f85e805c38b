-- ===== src/Scheduler/Closing.antt =====
-- What the scheduler of lib/exam-scheduler.ts closes, and what one automatic submission does.
use mathlib.Core.Option
use mathlib.Core.List.{append-nil}
use test_platform.Base.{
  sym, List, ℕ, ◌≡◌, refl, ◌∙◌, ap, inl, inr, Bool, true, false, ◌||◌, not, Option, none, some, [],
  ◌∷◌, ◌++◌, arith, if◌then◌else◌, ◌==◌, is_some, Option-cases,
}
use test_platform.Redis.{Strings, Sets}
use test_platform.Redis.Keys.{Files}
use test_platform.Platform.{
  submitted, grading, Attempt, Challenge, Exam, AttemptTable, Streams, GradingJob, high,
  timer_expired, App, set_status,
}
use test_platform.Autosave.{get_from_buffer, read_buffer, write_back, flush_to_database}
use test_platform.Autosave.Laws.{with_buffer, flush_to_database_lem}
use test_platform.Grading.{add_grading_job}
use test_platform.Grading.Laws.{add_grading_job_lem}
use test_platform.Timers.{submission_job, files_to_grade, send, update_attempt}
use test_platform.Attempts.{is_in_progress, mark_submitted}
use test_platform.Scheduler.{auto_submit_attempt}

-- The row of an automatic submission.
abbrev pub auto_row : ℕ → Files → Option Challenge → Attempt → Attempt
auto_row now files c a = record a {
  status = if is_some c then grading else submitted;
  submitted_at = some now;
  files = some files;
}

abbrev pub closed_row : Option Attempt → Bool
closed_row none = true
closed_row (some a) = not (is_in_progress a)

module _ {A B T Q : Type 0} (kv : Strings A) (ss : Sets B) (table : AttemptTable T)
    (streams : Streams Q) (exam_of : ℕ → Option Exam) where
  -- No row with this key is in progress.
  abbrev pub is_closed : ℕ → App A B T Q → Bool
  is_closed id app = closed_row (table.find id app.attempts)

  abbrev pub auto_files : ℕ → Attempt → App A B T Q → Files
  auto_files now a app = files_to_grade (get_from_buffer kv ss table now a.id app) a

  -- The state in which an automatic submission writes the row.
  abbrev flushed : ℕ → Attempt → App A B T Q → App A B T Q
  flushed now a app =
      (flush_to_database kv ss table now a.id
        (send kv ss table streams exam_of (timer_expired a.id) app)).1

  find-flushed :
      (now x : ℕ) (a : Attempt) (app : App A B T Q)
      → table.find x (flushed now a app).attempts ≡ (
          if x == a.id
          then with_buffer (read_buffer kv ss table now a.id app) (table.find x app.attempts)
          else table.find x app.attempts)
  unfolding send read_buffer
  find-flushed now x a app =
      (flush_to_database_lem kv ss table now now a.id x
        (send kv ss table streams exam_of (timer_expired a.id) app)).1

  files-flushed :
      (now : ℕ) (a : Attempt) (app : App A B T Q)
      → get_from_buffer kv ss table now a.id (flushed now a app)
        ≡ get_from_buffer kv ss table now a.id app
  unfolding get_from_buffer send read_buffer
  files-flushed now a app = ground (
    arith,
    (flush_to_database_lem kv ss table now now a.id a.id
        (send kv ss table streams exam_of (timer_expired a.id) app)).3,
  )

  -- The two writes of the row, the second of which is left out without a challenge.
  find-written :
      (now x id : ℕ) (files : Files) (b : Option Challenge) (t : T)
      → let once = table.update id (mark_submitted now files) t in
        (table.find x (if is_some b then table.update id (set_status grading) once else once) ≡ (
          if x == id then Option.map (auto_row now files b) (table.find x t) else table.find x t))
  find-written now x id files b t =
      let first = table.find-update id x (mark_submitted now files) t in
      let once = table.update id (mark_submitted now files) t in
      let second = table.find-update id x (set_status grading) once in
      elim (Option-cases (table.find x t)) [
        | inl e ↦ ground (arith, first, second, e)
        | inr (a, e) ↦ ground (arith, first, second, e)
      ]

  auto_submit_attempt-written :
      (now : ℕ) (job_of : ℕ → ℕ) (a : Attempt) (e : Exam) (app : App A B T Q)
      → let before = (flushed now a app).attempts in
        let once = table.update a.id (mark_submitted now (auto_files now a app)) before in
        (auto_submit_attempt kv ss table streams exam_of now job_of a e app).attempts
        ≡ (if is_some e.challenge then table.update a.id (set_status grading) once else once)
  unfolding auto_submit_attempt update_attempt add_grading_job
  auto_submit_attempt-written now job_of a e app = elim (Option-cases e.challenge) [
    | inl h ↦ rw (h, auto_submit_attempt, files-flushed now a app) refl
    | inr (c, h) ↦ rw (h, auto_submit_attempt, files-flushed now a app) refl
  ]

  auto_submit_attempt-row :
      (now x : ℕ) (job_of : ℕ → ℕ) (a : Attempt) (e : Exam) (app : App A B T Q)
      → table.find x (auto_submit_attempt kv ss table streams exam_of now job_of a e app).attempts
        ≡ (if x == a.id
            then Option.map
                (auto_row now (auto_files now a app) e.challenge)
                (table.find x app.attempts)
            else table.find x app.attempts)
  auto_submit_attempt-row now x job_of a e app =
      let files = auto_files now a app in
      let here = find-flushed now x a app in
      let written = find-written now x a.id files e.challenge (flushed now a app).attempts in
      let cases = auto_submit_attempt-written now job_of a e app in
      elim (Option-cases (table.find x app.attempts)) [
        | inl none_there ↦ elim (Option-cases (read_buffer kv ss table now a.id app)) [
          | inl u ↦ ground (arith, here, written, cases, none_there, u)
          | inr (b, u) ↦ ground (arith, here, written, cases, none_there, u)
        ]
        | inr (r, there) ↦ elim (Option-cases (read_buffer kv ss table now a.id app)) [
          | inl u ↦ ground (arith, here, written, cases, there, u)
          | inr (b, u) ↦ ground (arith, here, written, cases, there, u)
        ]
      ]

  -- After an automatic submission its attempt is closed; another is closed if it was before.
  pub closed-auto_submit_attempt :
      (now x : ℕ) (job_of : ℕ → ℕ) (a : Attempt) (e : Exam) (app : App A B T Q)
      → is_closed x (auto_submit_attempt kv ss table streams exam_of now job_of a e app)
        ≡ (x == a.id || is_closed x app)
  closed-auto_submit_attempt now x job_of a e app =
      let row = auto_submit_attempt-row now x job_of a e app in
      elim (Option-cases (table.find x app.attempts)) [
        | inl none_there ↦ ground (arith, row, none_there)
        | inr (r, there) ↦ ground (arith, row, there)
      ]

  -- A submission by the scheduler leaves every row alone that it does not close.
  pub row-auto_submit_attempt :
      (now x : ℕ) (job_of : ℕ → ℕ) (a : Attempt) (e : Exam) (app : App A B T Q)
      → (x == a.id) ≡ false
      → table.find x (auto_submit_attempt kv ss table streams exam_of now job_of a e app).attempts
        ≡ table.find x app.attempts
  row-auto_submit_attempt now x job_of a e app other =
      ground (arith, auto_submit_attempt-row now x job_of a e app)

  pub strings-auto_submit_attempt :
      (now : ℕ) (job_of : ℕ → ℕ) (a : Attempt) (e : Exam) (app : App A B T Q)
      → (auto_submit_attempt kv ss table streams exam_of now job_of a e app).store.strings
        ≡ app.store.strings
  unfolding auto_submit_attempt update_attempt add_grading_job send flush_to_database write_back
  strings-auto_submit_attempt now job_of a e app = ground arith

  queue-flushed :
      (now : ℕ) (a : Attempt) (app : App A B T Q) → (flushed now a app).queue ≡ app.queue
  unfolding send flush_to_database write_back
  queue-flushed now a app = ground arith

  queue-auto_submit_attempt :
      (now : ℕ) (job_of : ℕ → ℕ) (a : Attempt) (e : Exam) (c : Challenge) (app : App A B T Q)
      → e.challenge ≡ some c
      → (auto_submit_attempt kv ss table streams exam_of now job_of a e app).queue
        ≡ (add_grading_job streams now
            (job_of a.id)
            (submission_job a c (auto_files now a app))
            app).queue
  unfolding auto_submit_attempt update_attempt add_grading_job
  queue-auto_submit_attempt now job_of a e c app h =
      rw (h, auto_submit_attempt, files-flushed now a app, queue-flushed now a app) refl

  queue-auto_submit_none :
      (now : ℕ) (job_of : ℕ → ℕ) (a : Attempt) (e : Exam) (app : App A B T Q)
      → e.challenge ≡ none
      → (auto_submit_attempt kv ss table streams exam_of now job_of a e app).queue ≡ app.queue
  unfolding auto_submit_attempt update_attempt send flush_to_database write_back
  queue-auto_submit_none now job_of a e app h = rw (h, auto_submit_attempt) (ground arith)

  -- The jobs of a submission by the scheduler.
  abbrev pub auto_jobs : ℕ → Attempt → Files → Option Challenge → List (ℕ × GradingJob)
  auto_jobs job_id a files none = []
  auto_jobs job_id a files (some c) = (job_id, submission_job a c files) ∷ []

  -- What the scheduler's submission of one attempt does. The row gets the files of the buffer, or else
  -- its own, the time, and the status GRADING, or SUBMITTED if the exam has no challenge; the other
  -- rows stay. With a challenge one job with these files goes to the end of the stream of submissions,
  -- without one none does. None of this depends on the status that the row has by then.
  pub auto_submit_attempt_lem :
      (now x : ℕ) (job_of : ℕ → ℕ) (a : Attempt) (e : Exam) (app : App A B T Q)
      → let app' = auto_submit_attempt kv ss table streams exam_of now job_of a e app in
        let files = auto_files now a app in
        (table.find x app'.attempts ≡ (
          if x == a.id
          then Option.map (auto_row now files e.challenge) (table.find x app.attempts)
          else table.find x app.attempts))
        × (streams.entries high app'.queue
            ≡ streams.entries high app.queue ++ auto_jobs (job_of a.id) a files e.challenge)
  auto_submit_attempt_lem now x job_of a e app =
      let files = auto_files now a app in
      let jobs = λ (o : Option Challenge).
        streams.entries high app.queue ++ auto_jobs (job_of a.id) a files o in
      (
        auto_submit_attempt-row now x job_of a e app,
        elim (Option-cases e.challenge) [
          | inl h ↦
              ap (streams.entries high) (queue-auto_submit_none now job_of a e app h)
              ∙ sym (append-nil (streams.entries high app.queue))
              ∙ ap jobs (sym h)
          | inr (c, h) ↦
              ap (streams.entries high) (queue-auto_submit_attempt now job_of a e c app h)
              ∙ (add_grading_job_lem streams now (job_of a.id) 0 high (submission_job a c files)
                  app).0
              ∙ ap jobs (sym h)
        ],
      )
