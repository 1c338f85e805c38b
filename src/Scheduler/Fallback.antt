-- ===== src/Scheduler/Fallback.antt =====
-- The fallback of `runSchedulerCycle` of lib/exam-scheduler.ts: time limits that are over.
use mathlib.Core.List.{Memᴰ}
use mathlib.Core.List.Memᴰ.{head, tail}
use test_platform.Base.{
  ℕ, ◌≡◌, sym, ◌⊎◌, inl, inr, true, Option, none, some, List, [], ◌∷◌, arith, ◌==◌, Bool-cases,
  Option-cases, ==_refl,
}
use test_platform.Redis.{Strings, Sets}
use test_platform.Redis.Keys.{attempt_lock, flag}
use test_platform.Platform.{Attempt, Exam, AttemptTable, Streams, App}
use test_platform.Scheduler.{overdue, submit_overdue, submit_all_overdue}
use test_platform.Scheduler.Closing.{
  is_closed, closed-auto_submit_attempt, strings-auto_submit_attempt,
}

module _ {A B T Q : Type 0} (kv : Strings A) (ss : Sets B) (table : AttemptTable T)
    (streams : Streams Q) (exam_of : ℕ → Option Exam) where
  closed-submit_overdue :
      (now x : ℕ) (job_of : ℕ → ℕ) (a : Attempt) (app : App A B T Q)
      → is_closed kv ss table streams exam_of x app ≡ true
      → is_closed kv ss table streams exam_of x
          (submit_overdue kv ss table streams exam_of now job_of a app)
        ≡ true
  unfolding submit_overdue
  closed-submit_overdue now x job_of a app h = elim (Option-cases (exam_of a.exam_id)) [
    | inl e ↦ rw (e, submit_overdue) h
    | inr (e, found) ↦
        let s = (kv.set_nx now (attempt_lock a.id) flag 300 app.store.strings).1 in
        ground (
          arith,
          found,
          closed-auto_submit_attempt kv ss table streams exam_of now x job_of a e
              (record app { store = record app.store { strings = s } }),
        )
  ]

  pub closed-submit_all_overdue :
      (now x : ℕ) (job_of : ℕ → ℕ) (rows : List Attempt) (app : App A B T Q)
      → is_closed kv ss table streams exam_of x app ≡ true
      → is_closed kv ss table streams exam_of x
          (submit_all_overdue kv ss table streams exam_of now job_of rows app)
        ≡ true
  unfolding submit_all_overdue
  closed-submit_all_overdue now x job_of [] app h = h
  closed-submit_all_overdue now x job_of (a ∷ rows) app h =
      closed-submit_all_overdue now x job_of rows _ (closed-submit_overdue now x job_of a app h)

  -- One attempt of the fallback: it is closed if it is overdue and nobody holds its lock.
  overdue_round :
      (now : ℕ) (job_of : ℕ → ℕ) (a : Attempt) (e : Exam) (app : App A B T Q)
      → exam_of a.exam_id ≡ some e
      → overdue now a e ≡ true
      → kv.get now (attempt_lock a.id) app.store.strings ≡ none
      → is_closed kv ss table streams exam_of a.id
          (submit_overdue kv ss table streams exam_of now job_of a app)
        ≡ true
  unfolding submit_overdue
  overdue_round now job_of a e app found late free =
      let s = (kv.set_nx now (attempt_lock a.id) flag 300 app.store.strings).1 in
      ground (
        arith,
        found,
        ==_refl a.id,
        kv.set_nx-answer now (attempt_lock a.id) flag 300 app.store.strings,
        closed-auto_submit_attempt kv ss table streams exam_of now a.id job_of a e
            (record app { store = record app.store { strings = s } }),
      )

  -- Another attempt of the fallback keeps the lock free, or has the same key and closes the row.
  other_round :
      (now x : ℕ) (job_of : ℕ → ℕ) (b : Attempt) (app : App A B T Q)
      → kv.get now (attempt_lock x) app.store.strings ≡ none
      → let next = submit_overdue kv ss table streams exam_of now job_of b app in
        (is_closed kv ss table streams exam_of x next ≡ true)
        ⊎ (kv.get now (attempt_lock x) next.store.strings ≡ none)
  unfolding submit_overdue
  other_round now x job_of b app free = elim (Option-cases (exam_of b.exam_id)) [
    | inl e ↦ inr (rw (e, submit_overdue) free)
    | inr (e, found) ↦ elim (Bool-cases (overdue now b e)) [
      | inr early ↦ inr (rw (found, submit_overdue, early) free)
      | inl late ↦ elim (Bool-cases (x == b.id)) [
        | inl same ↦
            let id : b.id ≡ x = ground arith in
            inl (rw (sym id) (overdue_round now job_of b e app found late (rw (id) free)))
        | inr other ↦
            let s = (kv.set_nx now (attempt_lock b.id) flag 300 app.store.strings).1 in
            inr (
              ground (
                arith,
                found,
                late,
                kv.get-set_nx now now (attempt_lock x) (attempt_lock b.id) flag 300
                    app.store.strings,
                kv.get-set_ex now now (attempt_lock x) (attempt_lock b.id) flag 300
                    app.store.strings,
                strings-auto_submit_attempt kv ss table streams exam_of now job_of b e
                    (record app { store = record app.store { strings = s } }),
              ))
      ]
    ]
  ]

  pub overdue_closes :
      (now : ℕ) (job_of : ℕ → ℕ) (rows : List Attempt) (a : Attempt) (e : Exam) (app : App A B T Q)
      → Memᴰ a rows
      → exam_of a.exam_id ≡ some e
      → overdue now a e ≡ true
      → kv.get now (attempt_lock a.id) app.store.strings ≡ none
      → is_closed kv ss table streams exam_of a.id
          (submit_all_overdue kv ss table streams exam_of now job_of rows app)
        ≡ true
  unfolding submit_all_overdue
  overdue_closes now job_of [] a e app m found late free = elim m [ ]
  overdue_closes now job_of (b ∷ rows) a e app (head h) found late free =
      closed-submit_all_overdue now a.id job_of rows _
        (rw (sym h) (overdue_round now job_of a e app found late free))
  overdue_closes now job_of (b ∷ rows) a e app (tail m) found late free =
      elim (other_round now a.id job_of b app free) [
        | inl c ↦ closed-submit_all_overdue now a.id job_of rows _ c
        | inr still ↦ overdue_closes now job_of rows a e _ m found late still
      ]
