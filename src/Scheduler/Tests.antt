-- ===== src/Scheduler/Tests.antt =====
-- The scheduler of lib/exam-scheduler.ts at concrete inputs.
use mathlib.Core.List.Memᴰ.{head}
use test_platform.Base.{ℕ, ◌+◌, ◌≡◌, refl, inl, true, false, none, some, [], ◌∷◌}
use test_platform.Redis.Keys.{scheduler_lock}
use test_platform.Redis.Memory.{strings, sets, Cells, Groups}
use test_platform.Platform.{App}
use test_platform.Platform.Memory.{table, streams, Rows, Queue}
use test_platform.Platform.Sample.{exam, exam_of, attempt, app}
use test_platform.Autosave.{
  save_to_buffer, read_buffer, get_from_buffer, write_back, flush_to_database,
}
use test_platform.Grading.{add_grading_job}
use test_platform.Timers.{send, update_attempt}
use test_platform.Scheduler.{
  auto_submit_attempt, submit_attempts, mark_processed, expired_with_attempts, process_exam,
  process_expired, submit_overdue, submit_all_overdue, unlock_scheduler, run_locked_cycle,
  run_scheduler_cycle, process_exam_end,
}
use test_platform.Scheduler.Closing.{is_closed}
use test_platform.Scheduler.Cycle.{run_scheduler_cycle_closes}

scheduler : Unit {0}
unfolding auto_submit_attempt submit_attempts mark_processed expired_with_attempts process_exam
    process_expired submit_overdue submit_all_overdue unlock_scheduler run_locked_cycle
    run_scheduler_cycle process_exam_end save_to_buffer read_buffer get_from_buffer write_back
    flush_to_database add_grading_job send update_attempt
scheduler = tt

abbrev cycle : ℕ → App Cells Groups Rows Queue → App Cells Groups Rows Queue
cycle now = run_scheduler_cycle strings sets table streams exam_of now 99 (λ i. i + 100) (exam ∷ [])

-- Too early, past the time limit, and past the window.
cycle_tests :
    (is_closed strings sets table streams exam_of 7 (cycle 3600000 app) ≡ false)
    × (is_closed strings sets table streams exam_of 7 (cycle 3661001 app) ≡ true)
    × (is_closed strings sets table streams exam_of 7 (cycle 9000000 app) ≡ true)
    × ((process_exam_end strings sets table streams exam_of 5 (λ i. i) 3 app).0 ≡ some 1)
    × ((process_exam_end strings sets table streams exam_of 5 (λ i. i) 4 app).0 ≡ none)
unfolding scheduler
cycle_tests = (refl, refl, refl, refl, refl)

run_scheduler_cycle_closes_example :
    (is_closed strings sets table streams exam_of 7 (cycle 9000001 app) ≡ true)
    × (strings.get 9000002 scheduler_lock (cycle 9000001 app).store.strings ≡ none)
run_scheduler_cycle_closes_example =
    run_scheduler_cycle_closes strings sets table streams exam_of 9000001 9000002 99 (λ i. i + 100)
      (exam ∷ []) attempt exam app refl refl refl (inl (head refl, refl, refl, refl))
