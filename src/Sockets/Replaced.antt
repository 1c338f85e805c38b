-- ===== src/Sockets/Replaced.antt =====
-- What `code:save` of socket/examHandlers.ts can do to an attempt that is submitted: the handler looks at
-- neither the status of the attempt nor the paths of the files.
use test_platform.Base.{ℕ, ◌≡◌, Option, some, true, arith, ==_refl}
use test_platform.Redis.{Strings, Sets}
use test_platform.Redis.Keys.{Files}
use test_platform.Platform.{Attempt, Challenge, Exam, AttemptTable, Streams, set_files}
use test_platform.Timers.{challenge_of}
use test_platform.Autosave.{save_to_buffer, flush_all_dirty, read_buffer}
use test_platform.Autosave.Laws.{save_to_buffer_lem, flush_all_dirty_lem, is_dirty}
use test_platform.Attempts.{submit}
use test_platform.Attempts.Runs.{IsOpenFor}
use test_platform.Attempts.Writes.{submitted_row, submitted_files}
use test_platform.Attempts.Submission.{submit_lem}
use test_platform.Presence.{update_session_activity}
use test_platform.Sockets.Frame.{saved-update_session_activity}
use test_platform.Sockets.{Session, set_app, code_save}

module _ {A B T Q : Type 0} (kv : Strings A) (ss : Sets B) (table : AttemptTable T)
    (streams : Streams Q) (exam_of : ℕ → Option Exam) where
  -- A save by a socket that holds the attempt: the buffer has the files, the attempt waits for a flush,
  -- and the rows are as they were.
  code_save_lem :
      (t timeout id : ℕ) (files : Files) (s : Session A B T Q)
      → s.socket.attempt_id ≡ some id
      → let (saved, s') = code_save kv ss table streams exam_of t timeout id files s in
        (saved ≡ true)
        × (read_buffer kv ss table t id s'.monitor.app
            ≡ some (record { files = files; updated_at = t }))
        × (is_dirty kv ss table t id s'.monitor.app ≡ true)
        × (s'.monitor.app.attempts ≡ s.monitor.app.attempts)
  unfolding code_save update_session_activity read_buffer save_to_buffer
  code_save_lem t timeout id files s held =
      let next = save_to_buffer kv ss table t id files s.monitor.app in
      let saved = save_to_buffer_lem kv ss table t t id id files s.monitor.app in
      let kept = saved-update_session_activity kv ss t t timeout id s.socket.id id next.store in
      (
        ground (arith, held, ==_refl id),
        ground (arith, held, ==_refl id, saved.0, kept),
        ground (arith, held, ==_refl id, saved.1),
        ground (arith, held, ==_refl id),
      )

  -- After a submission the socket that still holds the attempt saves other files, with any paths, and
  -- the next flush puts them in the row in place of the submitted ones.
  pub code_save-submitted :
      (now t timeout job_id user_id id : ℕ) (given : Option Files) (files : Files) (a : Attempt)
      (c : Challenge) (s : Session A B T Q)
      → IsOpenFor kv ss table streams exam_of user_id id a s.monitor.app
      → challenge_of (exam_of a.exam_id) ≡ some c
      → s.socket.attempt_id ≡ some id
      → let submitted =
          (submit kv ss table streams exam_of now job_id user_id id given s.monitor.app).1 in
        let (saved, s') =
          code_save kv ss table streams exam_of t timeout id files
            (set_app kv ss table streams exam_of submitted s) in
        let before = submitted_files kv ss table streams exam_of now id given a s.monitor.app in
        (saved ≡ true)
        × (table.find id (flush_all_dirty kv ss table t s'.monitor.app).1.attempts
            ≡ some (set_files files (submitted_row now before a)))
  code_save-submitted now t timeout job_id user_id id given files a c s in_progress_there present
        held =
      let submission =
        submit_lem kv ss table streams exam_of now job_id user_id id given a c s.monitor.app
          in_progress_there present in
      let after =
        (submit kv ss table streams exam_of now job_id user_id id given s.monitor.app).1 in
      let handed = set_app kv ss table streams exam_of after s in
      let (done, buffer, dirty, rows) = code_save_lem t timeout id files handed held in
      let flushed =
        flush_all_dirty_lem kv ss table t id
          (code_save kv ss table streams exam_of t timeout id files handed).1.monitor.app in
      (done, ground (arith, flushed.0, buffer, dirty, rows, submission.1 id, ==_refl id))
