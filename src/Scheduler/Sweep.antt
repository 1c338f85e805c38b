-- ===== src/Scheduler/Sweep.antt =====
-- The cycle of lib/exam-scheduler.ts: which attempts are closed when it ends.
use mathlib.Core.List.{Memᴰ}
use mathlib.Core.List.Memᴰ.{head, tail}
use test_platform.Base.{
  ℕ, ◌≡◌, refl, ◌∙◌, ◌⊎◌, inl, inr, Bool, true, false, ◌&&◌, ◌||◌, not, Option, List, [], ◌∷◌,
  arith, ◌==◌, length, is_some, any, Bool-cases,
}
use test_platform.Redis.{Strings, Sets}
use test_platform.Redis.Keys.{processed, flag, Key, key_eq}
use test_platform.Platform.{Attempt, Exam, AttemptTable, Streams, App}
use test_platform.Scheduler.{
  day, window_end, auto_submit_attempt, submit_attempts, mark_processed, process_exam,
}
use test_platform.Scheduler.Closing.{
  is_closed, closed-auto_submit_attempt, row-auto_submit_attempt, strings-auto_submit_attempt,
}

module _ {A B T Q : Type 0} (kv : Strings A) (ss : Sets B) (table : AttemptTable T)
    (streams : Streams Q) (exam_of : ℕ → Option Exam) where
  -- A step that closes a row or leaves it alone.
  abbrev pub Spares : ℕ → App A B T Q → App A B T Q → Type 0
  Spares x app app' =
      (is_closed kv ss table streams exam_of x app' ≡ true)
      ⊎ (table.find x app'.attempts ≡ table.find x app.attempts)

  closed-submit_attempts :
      (now x : ℕ) (job_of : ℕ → ℕ) (e : Exam) (rows : List Attempt) (app : App A B T Q)
      → is_closed kv ss table streams exam_of x
          (submit_attempts kv ss table streams exam_of now job_of e rows app)
        ≡ (any (λ a. x == a.id) rows || is_closed kv ss table streams exam_of x app)
  unfolding submit_attempts
  closed-submit_attempts now x job_of e [] app = refl
  closed-submit_attempts now x job_of e (a ∷ rows) app =
      let next = auto_submit_attempt kv ss table streams exam_of now job_of a e app in
      ground (
        arith,
        closed-submit_attempts now x job_of e rows next,
        closed-auto_submit_attempt kv ss table streams exam_of now x job_of a e app,
      )

  strings-submit_attempts :
      (now : ℕ) (job_of : ℕ → ℕ) (e : Exam) (rows : List Attempt) (app : App A B T Q)
      → (submit_attempts kv ss table streams exam_of now job_of e rows app).store.strings
        ≡ app.store.strings
  unfolding submit_attempts
  strings-submit_attempts now job_of e [] app = refl
  strings-submit_attempts now job_of e (a ∷ rows) app =
      strings-submit_attempts now job_of e rows
        (auto_submit_attempt kv ss table streams exam_of now job_of a e app)
      ∙ strings-auto_submit_attempt kv ss table streams exam_of now job_of a e app

  row-submit_attempts :
      (now x : ℕ) (job_of : ℕ → ℕ) (e : Exam) (rows : List Attempt) (app : App A B T Q)
      → any (λ a. x == a.id) rows ≡ false
      → table.find x (submit_attempts kv ss table streams exam_of now job_of e rows app).attempts
        ≡ table.find x app.attempts
  unfolding submit_attempts
  row-submit_attempts now x job_of e [] app h = refl
  row-submit_attempts now x job_of e (a ∷ rows) app h =
      row-submit_attempts now x job_of e rows
        (auto_submit_attempt kv ss table streams exam_of now job_of a e app) (ground arith)
      ∙ row-auto_submit_attempt kv ss table streams exam_of now x job_of a e app (ground arith)

  pub has_of_mem :
      (x : ℕ) (a : Attempt) (rows : List Attempt)
      → Memᴰ a rows
      → a.id ≡ x
      → any (λ b. x == b.id) rows ≡ true
  has_of_mem x a [] m same = elim m [ ]
  has_of_mem x a (b ∷ rows) (head e) same = ground (arith, e)
  has_of_mem x a (b ∷ rows) (tail m) same = ground (arith, has_of_mem x a rows m same)

  empty_of_length :
      (x : ℕ) (rows : List Attempt) → (length rows == 0) ≡ true → any (λ b. x == b.id) rows ≡ false
  empty_of_length x [] h = refl
  empty_of_length x (a ∷ rows) h = ground arith

  -- Whether the loop has been through an exam's end.
  abbrev pub is_processed : ℕ → Exam → App A B T Q → Bool
  is_processed now e app = is_some (kv.get now (processed e.id (window_end e)) app.store.strings)

  pub closed-process_exam :
      (now x : ℕ) (job_of : ℕ → ℕ) (e : Exam) (rows : List Attempt) (app : App A B T Q)
      → is_closed kv ss table streams exam_of x
          (process_exam kv ss table streams exam_of now job_of e rows app)
        ≡ (not (is_processed now e app) && any (λ a. x == a.id) rows
            || is_closed kv ss table streams exam_of x app)
  unfolding process_exam mark_processed
  closed-process_exam now x job_of e rows app =
      ground (arith, closed-submit_attempts now x job_of e rows app, empty_of_length x rows)

  pub row-process_exam :
      (now x : ℕ) (job_of : ℕ → ℕ) (e : Exam) (rows : List Attempt) (app : App A B T Q)
      → Spares x app (process_exam kv ss table streams exam_of now job_of e rows app)
  unfolding process_exam mark_processed
  row-process_exam now x job_of e rows app =
      let closed = closed-submit_attempts now x job_of e rows app in
      elim (Bool-cases (any (λ a. x == a.id) rows)) [
        | inl h ↦ elim (Bool-cases (is_processed now e app)) [
          | inl p ↦ inr (ground (arith, p))
          | inr p ↦ inl (ground (arith, h, p, closed, empty_of_length x rows))
        ]
        | inr h ↦ inr (ground (arith, row-submit_attempts now x job_of e rows app h))
      ]

  -- The loop writes no key but the marks of exams that it goes through.
  pub get-process_exam :
      (now : ℕ) (k : Key) (job_of : ℕ → ℕ) (e : Exam) (rows : List Attempt) (app : App A B T Q)
      → key_eq k (processed e.id (window_end e)) ≡ false
      → kv.get now k (process_exam kv ss table streams exam_of now job_of e rows app).store.strings
        ≡ kv.get now k app.store.strings
  unfolding process_exam mark_processed
  get-process_exam now k job_of e rows app other = ground (
    arith,
    strings-submit_attempts now job_of e rows app,
    kv.get-set_ex now now k (processed e.id (window_end e)) flag day app.store.strings,
  )
