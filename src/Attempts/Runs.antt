-- ===== src/Attempts/Runs.antt =====
-- `PUT /:id/files` and `POST /:id/run-tests` of routes/attempts.ts: who may save, and the lock of a run.
use test_platform.Base.{
  ℕ, ◌+◌, ◌*◌, ◌<◌, ◌≡◌, refl, ◌≢◌, ◌↔◌, Bool, true, false, Option, none, some, [], ◌∷◌, ◌++◌,
  arith, Reply, ok, api_error, is_ok, is_some, if◌then◌else◌, Option-cases, inl, inr,
}
use test_platform.Redis.{Strings, Sets}
use test_platform.Redis.Keys.{Files, grading_lock, text}
use test_platform.Platform.{
  Attempt, Challenge, Exam, AttemptTable, Streams, App, high, low, GradingJob,
}
use test_platform.Autosave.{save_to_buffer, get_from_buffer}
use test_platform.Grading.{add_grading_job}
use test_platform.Grading.Laws.{add_grading_job_lem}
use test_platform.Timers.{files_to_grade, challenge_of}
use test_platform.Attempts.{
  is_in_progress, preview_job, own_attempt, save_files, release_lock, run_locked, run_tests,
  preview_graded,
}
use test_platform.Attempts.Paths.{paths_valid}

module _ {A B T Q : Type 0} (kv : Strings A) (ss : Sets B) (table : AttemptTable T)
    (streams : Streams Q) (exam_of : ℕ → Option Exam) where
  -- The attempt is there, is the user's, and is in progress.
  abbrev pub IsOpenFor : ℕ → ℕ → Attempt → App A B T Q → Type 0
  IsOpenFor user_id attempt_id a app =
      (table.find attempt_id app.attempts ≡ some a)
      × (a.candidate_id ≡ user_id)
      × (is_in_progress a ≡ true)

  pub own_attempt_inv :
      (user_id attempt_id : ℕ) (a : Attempt) (app : App A B T Q)
      → own_attempt kv ss table streams exam_of user_id attempt_id app ≡ ok a
      → IsOpenFor user_id attempt_id a app
  unfolding own_attempt
  own_attempt_inv user_id attempt_id a app h =
      elim (Option-cases (table.find attempt_id app.attempts)) [
        | inl e ↦ cc (rw (e, own_attempt) at h)
        | inr (b, e) ↦ (ground (arith, e, h), ground (arith, e, h), ground (arith, e, h))
      ]

  pub own_attempt_of :
      (user_id attempt_id : ℕ) (a : Attempt) (app : App A B T Q)
      → IsOpenFor user_id attempt_id a app
      → own_attempt kv ss table streams exam_of user_id attempt_id app ≡ ok a
  unfolding own_attempt
  own_attempt_of user_id attempt_id a app w = ground (arith, w.0)

  -- Files are saved exactly for an attempt in progress of the user who saves, with valid paths, and go
  -- to the buffer as they are; otherwise nothing changes.
  pub save_files_iff :
      (now user_id attempt_id : ℕ) (files : Files) (app : App A B T Q)
      → let result = save_files kv ss table streams exam_of now user_id attempt_id files app in
        ((is_ok result.0 ≡ true)
          ↔ ((a : Attempt) × IsOpenFor user_id attempt_id a app × (paths_valid files ≡ true)))
        × (result.1
            ≡ (if is_ok result.0 then save_to_buffer kv ss table now attempt_id files app else app))
  unfolding save_files
  save_files_iff now user_id attempt_id files app = (
    (to _ refl, λ w. ground (arith, own_attempt_of user_id attempt_id w.0 app w.1)),
    ground arith,
  )
    where
      to :
          (o : Reply Attempt)
          → own_attempt kv ss table streams exam_of user_id attempt_id app ≡ o
          → is_ok (save_files kv ss table streams exam_of now user_id attempt_id files app).0 ≡ true
          → (a : Attempt) × IsOpenFor user_id attempt_id a app × (paths_valid files ≡ true)
      to (api_error code) e h = cc (rw (e, save_files) at h)
      to (ok a) e h = (a, own_attempt_inv user_id attempt_id a app e, ground (arith, e, h))

  -- The state in which a run that holds the lock goes on.
  abbrev locked : ℕ → ℕ → App A B T Q → App A B T Q
  locked now attempt_id app = record app {
    store = record app.store {
      strings = (kv.set_nx now (grading_lock attempt_id) (text now) 90 app.store.strings).1;
    };
  }

  abbrev lock_of : ℕ → ℕ → App A B T Q → Bool
  lock_of now attempt_id app = is_some (kv.get now (grading_lock attempt_id) app.store.strings)

  run_tests_cases :
      (now job_id user_id attempt_id : ℕ) (app : App A B T Q)
      → run_tests kv ss table streams exam_of now job_id user_id attempt_id app ≡ (
          if lock_of now attempt_id app
          then (api_error 429, app)
          else run_locked kv ss table streams exam_of now job_id user_id attempt_id
              (locked now attempt_id app))
  unfolding run_tests
  run_tests_cases now job_id user_id attempt_id app =
      ground (arith, kv.set_nx-answer now (grading_lock attempt_id) (text now) 90 app.store.strings)

  add_grading_job_frame :
      (now job_id : ℕ) (job : GradingJob) (app : App A B T Q)
      → (add_grading_job streams now job_id job app).attempts ≡ app.attempts
  unfolding add_grading_job
  add_grading_job_frame now job_id job app = refl

  run_locked_store :
      (now job_id user_id attempt_id : ℕ) (app : App A B T Q)
      → let result = run_locked kv ss table streams exam_of now job_id user_id attempt_id app in
        is_ok result.0 ≡ true → result.1.store ≡ app.store
  unfolding run_locked add_grading_job
  run_locked_store now job_id user_id attempt_id app h = ground arith

  run_locked_refused :
      (now t job_id user_id attempt_id : ℕ) (app : App A B T Q)
      → let result = run_locked kv ss table streams exam_of now job_id user_id attempt_id app in
        is_ok result.0 ≡ false → kv.get t (grading_lock attempt_id) result.1.store.strings ≡ none
  unfolding run_locked release_lock
  run_locked_refused now t job_id user_id attempt_id app h =
      let k = grading_lock attempt_id in
      let s = app.store.strings in ground (arith, kv.get-del t k k s, kv.get-del t k k (kv.del k s))

  -- A run of the public tests for an open attempt, with no run before it in progress: one job without
  -- the hidden tests goes to the end of the stream of previews, no job to that of submissions, and no
  -- attempt changes.
  pub run_tests_open :
      (now job_id user_id attempt_id : ℕ) (a : Attempt) (c : Challenge) (app : App A B T Q)
      → IsOpenFor user_id attempt_id a app
      → challenge_of (exam_of a.exam_id) ≡ some c
      → kv.get now (grading_lock attempt_id) app.store.strings ≡ none
      → let result = run_tests kv ss table streams exam_of now job_id user_id attempt_id app in
        (result.0 ≡ ok job_id)
        × ((files : Files) × (streams.entries low result.1.queue
              ≡ streams.entries low app.queue ++ (job_id, preview_job a c files) ∷ [])
            × ((preview_job a c files).hidden_tests ≡ []))
        × (streams.entries high result.1.queue ≡ streams.entries high app.queue)
        × (result.1.attempts ≡ app.attempts)
  unfolding run_locked
  run_tests_open now job_id user_id attempt_id a c app w has_challenge free =
      let at = locked now attempt_id app in
      let files = files_to_grade (get_from_buffer kv ss table now attempt_id at) a in
      let job = preview_job a c files in
      let found = own_attempt_of user_id attempt_id a at w in
      let low_side = (add_grading_job_lem streams now job_id 0 low job at).0 in
      let high_side = (add_grading_job_lem streams now job_id 0 high job at).0 in
      rw (run_tests_cases now job_id user_id attempt_id app, free, found, has_challenge, run_locked)
        (refl, (files, low_side, refl), high_side, add_grading_job_frame now job_id job at)

  -- While a run is in progress, for ninety seconds, no other is started for the attempt, whoever asks:
  -- the answer is 429 and nothing changes.
  pub run_tests_excludes :
      (now t job_id later_id user_id other_id attempt_id : ℕ) (app : App A B T Q)
      → t < now + 90 * 1000
      → let result = run_tests kv ss table streams exam_of now job_id user_id attempt_id app in
        is_ok result.0 ≡ true
        → run_tests kv ss table streams exam_of t later_id other_id attempt_id result.1
          ≡ (api_error 429, result.1)
  run_tests_excludes now t job_id later_id user_id other_id attempt_id app early h =
      let k = grading_lock attempt_id in
      let cases = run_tests_cases now job_id user_id attempt_id app in
      let kept = run_locked_store now job_id user_id attempt_id (locked now attempt_id app) in
      ground (
        arith,
        cases,
        kept,
        run_tests_cases t later_id other_id attempt_id
            (run_tests kv ss table streams exam_of now job_id user_id attempt_id app).1,
        kv.get-set_nx t now k k (text now) 90 app.store.strings,
        kv.get-set_ex t now k k (text now) 90 app.store.strings,
      )

  -- A run that is refused for another reason than a run in progress leaves the lock free, at any time,
  -- so the next request is not refused for it.
  pub run_tests_releases :
      (now t job_id user_id attempt_id : ℕ) (app : App A B T Q)
      → let result = run_tests kv ss table streams exam_of now job_id user_id attempt_id app in
        is_ok result.0 ≡ false
        → result.0 ≢ api_error 429
        → kv.get t (grading_lock attempt_id) result.1.store.strings ≡ none
  run_tests_releases now t job_id user_id attempt_id app h other = ground (
    arith,
    run_tests_cases now job_id user_id attempt_id app,
    run_locked_refused now t job_id user_id attempt_id (locked now attempt_id app),
  )

  -- The result of a preview frees the lock.
  preview_graded-releases :
      (t attempt_id : ℕ) (app : App A B T Q)
      → kv.get t
          (grading_lock attempt_id)
          (preview_graded kv ss table streams exam_of attempt_id app).store.strings
        ≡ none
  unfolding preview_graded release_lock
  preview_graded-releases t attempt_id app =
      let k = grading_lock attempt_id in ground (arith, kv.get-del t k k app.store.strings)
