-- ===== src/Scheduler/Windows.antt =====
-- The loop over the exams in `runSchedulerCycle` of lib/exam-scheduler.ts.
use mathlib.Core.List.{Memᴰ}
use mathlib.Core.List.Memᴰ.{head, tail}
use test_platform.Base.{
  ℕ, ◌≡◌, refl, sym, ◌∙◌, ap, ◌⊎◌, inl, inr, true, false, Option, List, [], ◌∷◌, arith, ◌==◌, map,
  any, Bool-cases,
}
use test_platform.Redis.{Strings, Sets}
use test_platform.Redis.Keys.{processed, attempt_lock, key_eq}
use test_platform.Platform.{Attempt, Exam, AttemptTable, Streams, App}
use test_platform.Scheduler.{window_end, open_of, process_exam, process_expired}
use test_platform.Scheduler.Closing.{is_closed}
use test_platform.Scheduler.Sweep.{
  Spares, is_processed, closed-process_exam, row-process_exam, get-process_exam, has_of_mem,
}

module _ {A B T Q : Type 0} (kv : Strings A) (ss : Sets B) (table : AttemptTable T)
    (streams : Streams Q) (exam_of : ℕ → Option Exam) where
  abbrev pub queried : T → List Exam → List (Exam × List Attempt)
  queried t = map (λ e. (e, table.select (open_of e.id) t))

  closed-process_expired :
      (now x : ℕ) (job_of : ℕ → ℕ) (es : List (Exam × List Attempt)) (app : App A B T Q)
      → is_closed kv ss table streams exam_of x app ≡ true
      → is_closed kv ss table streams exam_of x
          (process_expired kv ss table streams exam_of now job_of es app)
        ≡ true
  unfolding process_expired
  closed-process_expired now x job_of [] app h = h
  closed-process_expired now x job_of ((e, rows) ∷ es) app h =
      closed-process_expired now x job_of es
        (process_exam kv ss table streams exam_of now job_of e rows app)
        (ground (arith, closed-process_exam kv ss table streams exam_of now x job_of e rows app))

  pub Spares-process_expired :
      (now x : ℕ) (job_of : ℕ → ℕ) (es : List (Exam × List Attempt)) (app : App A B T Q)
      → Spares kv ss table streams exam_of x app
          (process_expired kv ss table streams exam_of now job_of es app)
  unfolding process_expired
  Spares-process_expired now x job_of [] app = inr refl
  Spares-process_expired now x job_of ((e, rows) ∷ es) app =
      let next = process_exam kv ss table streams exam_of now job_of e rows app in
      elim (row-process_exam kv ss table streams exam_of now x job_of e rows app) [
        | inl c ↦ inl (closed-process_expired now x job_of es next c)
        | inr same ↦ elim (Spares-process_expired now x job_of es next) [
          | inl c ↦ inl c
          | inr kept ↦ inr (kept ∙ same)
        ]
      ]

  pub get-process_expired :
      (now id : ℕ) (job_of : ℕ → ℕ) (es : List (Exam × List Attempt)) (app : App A B T Q)
      → kv.get now
          (attempt_lock id)
          (process_expired kv ss table streams exam_of now job_of es app).store.strings
        ≡ kv.get now (attempt_lock id) app.store.strings
  unfolding process_expired
  get-process_expired now id job_of [] app = refl
  get-process_expired now id job_of ((e, rows) ∷ es) app =
      get-process_expired now id job_of es
        (process_exam kv ss table streams exam_of now job_of e rows app)
      ∙ get-process_exam kv ss table streams exam_of now (attempt_lock id) job_of e rows app refl

  round_closes :
      (now x : ℕ) (job_of : ℕ → ℕ) (t : T) (e e' : Exam) (a : Attempt) (app : App A B T Q)
      → Memᴰ a (table.select (open_of e.id) t)
      → a.id ≡ x
      → is_processed kv ss table streams exam_of now e app ≡ false
      → e'.id ≡ e.id
      → window_end e' ≡ window_end e
      → is_closed kv ss table streams exam_of x (
          process_exam kv ss table streams exam_of now job_of e'
            (table.select (open_of e'.id) t)
            app)
        ≡ true
  round_closes now x job_of t e e' a app m same fresh ids ends =
      let rows = table.select (open_of e'.id) t in
      let there : any (λ b. x == b.id) rows ≡ true =
        rw (ids)
          (has_of_mem kv ss table streams exam_of x a (table.select (open_of e.id) t) m same) in
      let unseen : is_processed kv ss table streams exam_of now e' app ≡ false =
        rw (ids, ends) fresh in
      ground (
        arith,
        there,
        unseen,
        closed-process_exam kv ss table streams exam_of now x job_of e' rows app,
      )

  -- The round of one exam closes the attempts of an exam, or does not go through its end.
  exam_round :
      (now x : ℕ) (job_of : ℕ → ℕ) (t : T) (e e' : Exam) (a : Attempt) (app : App A B T Q)
      → Memᴰ a (table.select (open_of e.id) t)
      → a.id ≡ x
      → is_processed kv ss table streams exam_of now e app ≡ false
      → let next =
          process_exam kv ss table streams exam_of now job_of e'
            (table.select (open_of e'.id) t)
            app in
        (is_closed kv ss table streams exam_of x next ≡ true)
        ⊎ (is_processed kv ss table streams exam_of now e next ≡ false)
  exam_round now x job_of t e e' a app m same fresh =
      let k = processed e.id (window_end e) in
      elim (Bool-cases (key_eq k (processed e'.id (window_end e')))) [
        | inl h ↦
            inl (round_closes now x job_of t e e' a app m same fresh (ground arith) (ground arith))
        | inr h ↦ inr (
            ground (
              arith,
              get-process_exam kv ss table streams exam_of now k job_of e'
                  (table.select (open_of e'.id) t) app h,
            ))
      ]

  pub expired_closes :
      (now x : ℕ) (job_of : ℕ → ℕ) (t : T) (es : List Exam) (e : Exam) (a : Attempt)
      (app : App A B T Q)
      → Memᴰ e es
      → Memᴰ a (table.select (open_of e.id) t)
      → a.id ≡ x
      → is_processed kv ss table streams exam_of now e app ≡ false
      → is_closed kv ss table streams exam_of x
          (process_expired kv ss table streams exam_of now job_of (queried t es) app)
        ≡ true
  unfolding process_expired
  expired_closes now x job_of t [] e a app m n same fresh = elim m [ ]
  expired_closes now x job_of t (e' ∷ es) e a app (head h) n same fresh =
      closed-process_expired now x job_of (queried t es) _ (
        round_closes now x job_of t e e' a app n same fresh (ap (λ y. y.id) (sym h))
          (ap window_end (sym h)))
  expired_closes now x job_of t (e' ∷ es) e a app (tail m) n same fresh =
      elim (exam_round now x job_of t e e' a app n same fresh) [
        | inl c ↦ closed-process_expired now x job_of (queried t es) _ c
        | inr still ↦ expired_closes now x job_of t es e a _ m n same still
      ]
