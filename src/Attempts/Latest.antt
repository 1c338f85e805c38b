-- ===== src/Attempts/Latest.antt =====
-- What `POST /api/attempts/:id/submit` grades after any saves and flushes: the last saved version.
use test_platform.Base.{
  ℕ, ◌≡◌, refl, sym, ◌∙◌, ap, Option, none, some, List, [], ◌∷◌, ◌++◌, All, Option-cases, inl, inr,
  or_else,
}
use test_platform.Redis.{Strings, Sets}
use test_platform.Redis.Keys.{Files}
use test_platform.Platform.{Attempt, Challenge, Exam, AttemptTable, Streams, App, high}
use test_platform.Autosave.{get_from_buffer}
use test_platform.Autosave.Refinement.{
  Operation, IsRecent, IsSteady, latest, shown, row_files, run, run-latest,
}
use test_platform.Timers.{challenge_of, submission_job, files_to_grade}
use test_platform.Attempts.{submit}
use test_platform.Attempts.Runs.{IsOpenFor}
use test_platform.Attempts.Submission.{submit_lem}

-- `files || {}`.
abbrev pub or_empty : Option Files → Files
or_empty none = []
or_empty (some files) = files

files_to_grade-or_empty :
    (b : Option Files) (a : Attempt)
    → files_to_grade b a ≡ or_empty (or_else b (row_files (some a)))
files_to_grade-or_empty none a = elim (Option-cases a.files) [
  | inl e ↦ rw e refl
  | inr (f, e) ↦ rw e refl
]
files_to_grade-or_empty (some files) a = refl

module _ {A B T Q : Type 0} (kv : Strings A) (ss : Sets B) (table : AttemptTable T)
    (streams : Streams Q) (exam_of : ℕ → Option Exam) where
  -- After whatever saves and flushes of the attempt came, in whatever order, none of them later than the
  -- submission: a submission without files of its own, for an attempt in progress of the user whose exam
  -- has a challenge, queues one job, with the files of the last save, or else those that the attempt had
  -- before. Every save is still buffered at the time, and no buffer of the attempt lapsed until then.
  pub submit-latest :
      (os : List Operation) (t job_id user_id id : ℕ) (a : Attempt) (c : Challenge)
      (app : App A B T Q)
      → All (IsRecent t) os
      → IsSteady kv ss table t id app
      → let written = run kv ss table os app in
        IsOpenFor kv ss table streams exam_of user_id id a written
        → challenge_of (exam_of a.exam_id) ≡ some c
        → streams.entries high
            (submit kv ss table streams exam_of t job_id user_id id none written).1.queue
          ≡ streams.entries high written.queue
            ++ (job_id, submission_job a c (or_empty (latest os id (shown kv ss table t id app))))
              ∷ []
  submit-latest os t job_id user_id id a c app recent steady own present =
      let written = run kv ss table os app in
      let sent =
        submit_lem kv ss table streams exam_of t job_id user_id id none a c written own present in
      sent.2
      ∙ ap (λ v. streams.entries high written.queue ++ (job_id, submission_job a c v) ∷ [])
          (files_to_grade-or_empty (get_from_buffer kv ss table t id written) a
            ∙ ap (λ r. or_empty (or_else (get_from_buffer kv ss table t id written) (row_files r)))
                (sym own.0)
            ∙ ap or_empty (run-latest kv ss table os t id app recent steady))
