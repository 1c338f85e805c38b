-- ===== src/Proctor/Counters.antt =====
-- The counters of an attempt against the table of events that socket/proctorService.ts keeps.
use test_platform.Base.{
  ℕ, ◌+◌, ◌*◌, ◌≤◌, ◌≡◌, refl, ◌⊎◌, inl, inr, false, ◌&&◌, Option, none, some, List, [], ◌∷◌, arith,
  ◌==◌, if◌then◌else◌, Bool-cases, Option-cases,
}
use mathlib.Core.Option
use test_platform.Platform.{Attempt, AttemptTable, in_progress, status_eq}
use test_platform.Proctor.{
  EventType, tab_leave, tab_return, fullscreen_exit, fullscreen_enter, paste_attempt, event_eq,
  ProctorEventData, ProctorEvent, Monitor, seconds_away, has_updates, updates,
  update_integrity_counters, record_event, log_proctor_event,
}

-- How often the events have a type, for an attempt.
abbrev pub counted : EventType → ℕ → List ProctorEvent → ℕ
counted e id [] = 0
counted e id (v ∷ vs) =
    let rest = counted e id vs in
    if id == v.attempt_id && event_eq e v.event_type then rest + 1 else rest

-- The seconds that the returns to the window report, for an attempt.
abbrev pub seconds_returned : ℕ → List ProctorEvent → ℕ
seconds_returned id [] = 0
seconds_returned id (v ∷ vs) =
    let rest = seconds_returned id vs in
    if id == v.attempt_id && event_eq tab_return v.event_type
    then rest + seconds_away v.duration
    else rest

-- The counters of a row are those of its events, and a return adds a day at most.
abbrev pub IsCounted : ℕ → Option Attempt → List ProctorEvent → Type 0
IsCounted id none events = Unit
IsCounted id (some a) events =
    (a.tab_exits ≡ counted tab_leave id events)
    × (a.fullscreen_exits ≡ counted fullscreen_exit id events)
    × (a.paste_attempts ≡ counted paste_attempt id events)
    × (a.total_out_of_window_seconds ≡ seconds_returned id events)
    × (seconds_returned id events ≤ 86400 * counted tab_return id events)

idle-updates :
    (e : EventType) (d : Option ℕ) (a : Attempt)
    → has_updates e d ≡ false
    → Option.map (updates e d) (some a) ≡ some a
idle-updates tab_leave d a h = cc
idle-updates tab_return d a h = ground arith
idle-updates fullscreen_exit d a h = cc
idle-updates fullscreen_enter d a h = refl
idle-updates paste_attempt d a h = cc

pub find-update_integrity_counters :
    {T : Type 0} (table : AttemptTable T) (id x : ℕ) (e : EventType) (d : Option ℕ) (attempts : T)
    → table.find x (update_integrity_counters table id e d attempts) ≡ (
        if x == id then Option.map (updates e d) (table.find x attempts) else table.find x attempts)
unfolding update_integrity_counters
find-update_integrity_counters table id x e d attempts =
    elim (Option-cases (table.find x attempts)) [
      | inl e' ↦ ground (arith, e', table.find-update id x (updates e d) attempts)
      | inr (a, e') ↦
          ground (arith, e', table.find-update id x (updates e d) attempts, idle-updates e d a)
    ]

module _ {A B T Q : Type 0} (table : AttemptTable T) where
  abbrev pub Counted : Monitor A B T Q → Type 0
  Counted m = (x : ℕ) → IsCounted x (table.find x m.app.attempts) m.events

  -- A report is recorded, for an attempt in progress of its sender, or changes nothing.
  pub log_proctor_event-cases :
      (now user_id : ℕ) (report : ProctorEventData) (m : Monitor A B T Q)
      → ((log_proctor_event table now user_id report m).1 ≡ m)
        ⊎ ((e : EventType) × (a : Attempt) × (table.find report.attempt_id m.app.attempts ≡ some a)
            × (a.candidate_id ≡ user_id)
            × ((log_proctor_event table now user_id report m).1
                ≡ record_event table now report e m))
  unfolding log_proctor_event record_event
  log_proctor_event-cases now user_id report m =
      elim (Option-cases (table.find report.attempt_id m.app.attempts)) [
        | inl gone ↦ inl (rw (gone, log_proctor_event) refl)
        | inr (a, there) ↦
            elim (Bool-cases (a.candidate_id == user_id && status_eq a.status in_progress)) [
              | inr refused ↦ inl (rw (there, refused, log_proctor_event) refl)
              | inl own ↦ elim (Option-cases report.event_type) [
                | inl unknown ↦ inl (rw (there, own, unknown, log_proctor_event) refl)
                | inr (e, known) ↦ inr (
                  e,
                  a,
                  there,
                  ground (arith, own),
                  rw (there, own, known, log_proctor_event) refl,
                )
              ]
            ]
      ]

  -- Reports that arrive one after the other, each with its time and its sender.
  unfoldable pub run_reports : List (ℕ × ℕ × ProctorEventData) → Monitor A B T Q → Monitor A B T Q
  run_reports [] m = m
  run_reports ((now, user_id, report) ∷ rest) m =
      run_reports rest (log_proctor_event table now user_id report m).1
