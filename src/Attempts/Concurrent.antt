-- ===== src/Attempts/Concurrent.antt =====
-- Two submissions of one attempt by `POST /:id/submit` of routes/attempts.ts whose tests both run before
-- either writes: the handler awaits the database between its tests and its writes.
use test_platform.Base.{ℕ, ◌≡◌, ◌∙◌, ap, Option, some, [], ◌∷◌, ◌++◌, Reply, ok, api_error}
use test_platform.Redis.{Strings, Sets}
use test_platform.Redis.Keys.{Files}
use test_platform.Platform.{Attempt, Challenge, Exam, AttemptTable, Streams, App, high}
use test_platform.Timers.{challenge_of, submission_job}
use test_platform.Attempts.{own_attempt, submit_attempt}
use test_platform.Attempts.Runs.{IsOpenFor, own_attempt_of}
use test_platform.Attempts.Writes.{submitted_files}
use test_platform.Attempts.Submission.{submit_attempt-queue}

-- One request: its time, the identifier of its job, and its files.
pub record Submission : Type 0 where
  pub now : ℕ
  pub job_id : ℕ
  pub given : Option Files

module _ {A B T Q : Type 0} (kv : Strings A) (ss : Sets B) (table : AttemptTable T)
    (streams : Streams Q) (exam_of : ℕ → Option Exam) where
  -- The first request's tests, the second's tests, the first's writes, the second's writes.
  unfoldable pub submit_both :
      ℕ → ℕ → Submission → Submission → App A B T Q → Reply ℕ × Reply ℕ × App A B T Q
  submit_both user_id id p q app = elim (own_attempt kv ss table streams exam_of user_id id app) [
    | api_error code ↦ (api_error code, api_error code, app)
    | ok a ↦
        let (first, app1) =
          submit_attempt kv ss table streams exam_of p.now p.job_id id p.given a app in
        let (second, app2) =
          submit_attempt kv ss table streams exam_of q.now q.job_id id q.given a app1 in
        (first, second, app2)
  ]

  -- The state between the writes of the two.
  abbrev pub between : ℕ → Submission → Attempt → App A B T Q → App A B T Q
  between id p a app =
      (submit_attempt kv ss table streams exam_of p.now p.job_id id p.given a app).1

  abbrev pub files_of : ℕ → Submission → Attempt → App A B T Q → Files
  files_of id p a app = submitted_files kv ss table streams exam_of p.now id p.given a app

  -- Two requests of the user for one attempt in progress, that overlap, both succeed, and the attempt is
  -- queued for grading twice: with the files that each of them finds when it writes.
  pub submit_both-queue :
      (user_id id : ℕ) (p q : Submission) (a : Attempt) (c : Challenge) (app : App A B T Q)
      → IsOpenFor kv ss table streams exam_of user_id id a app
      → challenge_of (exam_of a.exam_id) ≡ some c
      → let (first, second, after) = submit_both user_id id p q app in
        (first ≡ ok p.job_id)
        × (second ≡ ok q.job_id)
        × (streams.entries high after.queue
            ≡ (streams.entries high app.queue
                ++ (p.job_id, submission_job a c (files_of id p a app)) ∷ [])
              ++ (q.job_id, submission_job a c (files_of id q a (between id p a app))) ∷ [])
  unfolding submit_both
  submit_both-queue user_id id p q a c app w present =
      let first =
        submit_attempt-queue kv ss table streams exam_of p.now p.job_id id p.given a c app
          present in
      let second =
        submit_attempt-queue kv ss table streams exam_of q.now q.job_id id q.given a c
          (between id p a app) present in
      rw (own_attempt_of kv ss table streams exam_of user_id id a app w, submit_both)
        (
          first.0,
          second.0,
          second.1
              ∙ ap
                  (λ es.
                    es
                    ++ (q.job_id, submission_job a c (files_of id q a (between id p a app))) ∷ [])
                  first.1,
        )
