-- ===== src/Scheduler/Cycle.antt =====
-- `runSchedulerCycle` of lib/exam-scheduler.ts: no attempt that is due stays open.
use mathlib.Core.List.{Memᴰ}
use mathlib.Core.List.Memᴰ.{head, tail}
use test_platform.Base.{
  ℕ, ◌≡◌, refl, sym, ◌∙◌, ap, ◌⊎◌, inl, inr, true, false, Option, none, some, List, [], ◌∷◌, arith,
  is_some, Bool-cases, ==_refl,
}
use test_platform.Redis.{Strings, Sets}
use test_platform.Redis.Keys.{scheduler_lock, processed, attempt_lock, text, Key, key_eq}
use test_platform.Platform.{Attempt, Exam, AttemptTable, Streams, App}
use test_platform.Attempts.{is_in_progress}
use test_platform.Scheduler.{
  window_expired, window_end, overdue, open_of, expired_exams, expired_with_attempts,
  process_expired, unlock_scheduler, run_locked_cycle, run_scheduler_cycle,
}
use test_platform.Scheduler.Closing.{is_closed}
use test_platform.Scheduler.Sweep.{is_processed}
use test_platform.Scheduler.Windows.{Spares-process_expired, get-process_expired, expired_closes}
use test_platform.Scheduler.Fallback.{closed-submit_all_overdue, overdue_closes}

module _ {A B T Q : Type 0} (kv : Strings A) (ss : Sets B) (table : AttemptTable T)
    (streams : Streams Q) (exam_of : ℕ → Option Exam) where
  mem_of_expired :
      (now : ℕ) (e : Exam) (es : List Exam)
      → Memᴰ e es
      → window_expired now e ≡ true
      → Memᴰ e (expired_exams now es)
  mem_of_expired now e [] m h = elim m [ ]
  mem_of_expired now e (e' ∷ es) (head same) h =
      let open_window : window_expired now e' ≡ true = ap (window_expired now) (sym same) ∙ h in
      rw (open_window) (head same)
  mem_of_expired now e (e' ∷ es) (tail m) h =
      let rest = mem_of_expired now e es m h in
      elim (Bool-cases (window_expired now e')) [
        | inl shut ↦ rw (shut) (tail rest)
        | inr unshut ↦ rw (unshut) rest
      ]

  -- An attempt that the cycle must close: its exam's window has ended and the end is not processed, or
  -- its time limit is over by more than a minute and nobody holds its lock.
  abbrev pub IsDue : ℕ → List Exam → Attempt → Exam → App A B T Q → Type 0
  IsDue now exams a e app =
      (Memᴰ e exams
        × (e.id ≡ a.exam_id)
        × (window_expired now e ≡ true)
        × (is_processed kv ss table streams exam_of now e app ≡ false))
      ⊎ ((exam_of a.exam_id ≡ some e)
          × (overdue now a e ≡ true)
          × (kv.get now (attempt_lock a.id) app.store.strings ≡ none))

  due_closes :
      (now : ℕ) (job_of : ℕ → ℕ) (exams : List Exam) (a : Attempt) (e : Exam) (app : App A B T Q)
      → table.find a.id app.attempts ≡ some a
      → is_in_progress a ≡ true
      → IsDue now exams a e app
      → is_closed kv ss table streams exam_of a.id
          (run_locked_cycle kv ss table streams exam_of now job_of exams app)
        ≡ true
  unfolding run_locked_cycle expired_with_attempts
  due_closes now job_of exams a e app found still (inl (m, ids, shut, fresh)) =
      closed-submit_all_overdue kv ss table streams exam_of now a.id job_of _ _ (
        expired_closes kv ss table streams exam_of now a.id job_of app.attempts
          (expired_exams now exams) e a app (mem_of_expired now e exams m shut)
          (table.mem-select (open_of e.id) a.id a app.attempts found (ground (arith, ==_refl e.id)))
          refl fresh)
  due_closes now job_of exams a e app found still (inr (here, late, free)) =
      let pairs = expired_with_attempts kv ss table streams exam_of now exams app in
      let swept = process_expired kv ss table streams exam_of now job_of pairs app in
      elim (Spares-process_expired kv ss table streams exam_of now a.id job_of pairs app) [
        | inl c ↦ closed-submit_all_overdue kv ss table streams exam_of now a.id job_of _ _ c
        | inr kept ↦
            overdue_closes kv ss table streams exam_of now job_of _ a e swept
              (table.mem-select is_in_progress a.id a swept.attempts (kept ∙ found) still) here late
              (get-process_expired kv ss table streams exam_of now a.id job_of pairs app ∙ free)
      ]

  get_locked :
      (now pid : ℕ) (k : Key) (app : App A B T Q)
      → key_eq k scheduler_lock ≡ false
      → kv.get now k (kv.set_nx now scheduler_lock (text pid) 60 app.store.strings).1
        ≡ kv.get now k app.store.strings
  get_locked now pid k app other = ground (
    arith,
    kv.get-set_nx now now k scheduler_lock (text pid) 60 app.store.strings,
    kv.get-set_ex now now k scheduler_lock (text pid) 60 app.store.strings,
  )

  IsDue-locked :
      (now pid : ℕ) (exams : List Exam) (a : Attempt) (e : Exam) (app : App A B T Q)
      → IsDue now exams a e app
      → let s = (kv.set_nx now scheduler_lock (text pid) 60 app.store.strings).1 in
        let locked : App A B T Q = record app { store = record app.store { strings = s } } in
        IsDue now exams a e locked
  IsDue-locked now pid exams a e app (inl (m, ids, shut, fresh)) = inl (
    m,
    ids,
    shut,
    ap is_some (get_locked now pid (processed e.id (window_end e)) app refl) ∙ fresh,
  )
  IsDue-locked now pid exams a e app (inr (here, late, free)) =
      inr (here, late, get_locked now pid (attempt_lock a.id) app refl ∙ free)

  -- A cycle of the scheduler that gets its lock closes every attempt in progress that is due, and its
  -- lock is free when it ends.
  pub run_scheduler_cycle_closes :
      (now t pid : ℕ) (job_of : ℕ → ℕ) (exams : List Exam) (a : Attempt) (e : Exam)
      (app : App A B T Q)
      → kv.get now scheduler_lock app.store.strings ≡ none
      → table.find a.id app.attempts ≡ some a
      → is_in_progress a ≡ true
      → IsDue now exams a e app
      → let app' = run_scheduler_cycle kv ss table streams exam_of now pid job_of exams app in
        (is_closed kv ss table streams exam_of a.id app' ≡ true)
        × (kv.get t scheduler_lock app'.store.strings ≡ none)
  unfolding run_scheduler_cycle unlock_scheduler
  run_scheduler_cycle_closes now t pid job_of exams a e app free found still due =
      let s = (kv.set_nx now scheduler_lock (text pid) 60 app.store.strings).1 in
      let locked : App A B T Q = record app { store = record app.store { strings = s } } in
      let closed =
        due_closes now job_of exams a e locked found still
          (IsDue-locked now pid exams a e app due) in
      let done = run_locked_cycle kv ss table streams exam_of now job_of exams locked in
      let answer = kv.set_nx-answer now scheduler_lock (text pid) 60 app.store.strings in
      (
        ground (arith, answer, free, closed),
        ground (arith, answer, free, kv.get-del t scheduler_lock scheduler_lock done.store.strings),
      )
