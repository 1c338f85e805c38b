-- ===== src/Proctor/Score.antt =====
-- The integrity score of socket/proctorService.ts: its range, when it is full, and that events only
-- lower it.
use test_platform.Base.{
  ℕ, ◌≤◌, ◌<◌, ◌≡◌, ◌↔◌, inl, inr, Option, some, List, [], ◌∷◌, arith, ◌==◌, Bool-cases,
}
use test_platform.Platform.{Attempt, AttemptTable}
use test_platform.Proctor.{
  EventType, tab_leave, tab_return, fullscreen_exit, fullscreen_enter, paste_attempt,
  ProctorEventData, Monitor, validated_duration, updates, record_event, log_proctor_event,
  calculate_integrity_score,
}
use test_platform.Proctor.Counters.{
  find-update_integrity_counters, log_proctor_event-cases, run_reports,
}

-- The score is between 0 and 100, and it is 100 exactly if no violation is counted and the candidate was
-- away for less than half a minute.
pub calculate_integrity_score_lem :
    (a : Attempt)
    → (calculate_integrity_score a ≤ 100)
      × ((calculate_integrity_score a ≡ 100) ↔ (
          (a.tab_exits ≡ 0)
          × (a.fullscreen_exits ≡ 0)
          × (a.paste_attempts ≡ 0)
          × a.total_out_of_window_seconds < 30))
unfolding calculate_integrity_score
calculate_integrity_score_lem a =
    (omega arith, ((λ h. (omega arith, omega arith, omega arith, omega arith)), λ h. omega arith))

updates-score :
    (e : EventType) (d : Option ℕ) (a : Attempt)
    → calculate_integrity_score (updates e d a) ≤ calculate_integrity_score a
unfolding calculate_integrity_score
updates-score tab_leave d a = omega arith
updates-score tab_return d a = omega arith
updates-score fullscreen_exit d a = omega arith
updates-score fullscreen_enter d a = omega arith
updates-score paste_attempt d a = omega arith

module _ {A B T Q : Type 0} (table : AttemptTable T) where
  record_event-score :
      (now x : ℕ) (report : ProctorEventData) (e : EventType) (a : Attempt) (m : Monitor A B T Q)
      → table.find x m.app.attempts ≡ some a
      → (b : Attempt) × (table.find x (record_event table now report e m).app.attempts ≡ some b)
        × (calculate_integrity_score b ≤ calculate_integrity_score a)
  unfolding record_event
  record_event-score now x report e a m there =
      let d = validated_duration report.duration in
      let row = find-update_integrity_counters table report.attempt_id x e d m.app.attempts in
      elim (Bool-cases (x == report.attempt_id)) [
        | inl same ↦ (updates e d a, ground (arith, row, same, there), updates-score e d a)
        | inr other ↦ (a, ground (arith, row, other, there), omega arith)
      ]

  log_proctor_event-score :
      (now user_id x : ℕ) (report : ProctorEventData) (a : Attempt) (m : Monitor A B T Q)
      → table.find x m.app.attempts ≡ some a
      → (b : Attempt) × (table.find x (log_proctor_event table now user_id report m).1.app.attempts
          ≡ some b)
        × (calculate_integrity_score b ≤ calculate_integrity_score a)
  log_proctor_event-score now user_id x report a m there =
      elim (log_proctor_event-cases table now user_id report m) [
        | inl same ↦ (a, rw same there, omega arith)
        | inr (e, b, here, own, recorded) ↦
            rw recorded (record_event-score now x report e a m there)
      ]

  -- No report, nor any sequence of them, raises the score of an attempt.
  pub run_reports-score :
      (reports : List (ℕ × ℕ × ProctorEventData)) (x : ℕ) (a : Attempt) (m : Monitor A B T Q)
      → table.find x m.app.attempts ≡ some a
      → (b : Attempt) × (table.find x (run_reports table reports m).app.attempts ≡ some b)
        × (calculate_integrity_score b ≤ calculate_integrity_score a)
  unfolding run_reports
  run_reports-score [] x a m there = (a, there, omega arith)
  run_reports-score ((now, user_id, report) ∷ rest) x a m there =
      let (b, found, le) = log_proctor_event-score now user_id x report a m there in
      let (c, last, le') =
        run_reports-score rest x b (log_proctor_event table now user_id report m).1 found in
      (c, last, omega (arith, le, le'))
