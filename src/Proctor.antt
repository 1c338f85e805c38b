-- ===== src/Proctor.antt =====
-- apps/api/src/socket/proctorService.ts: the events of an attempt that the browser reports, with the
-- counters in the attempt's row and the score made of them. A duration is a whole number of either
-- sign; the columns hold whole numbers, and their 32 bits are not modelled. A call is one step.
pub mod Counters
pub mod Score
pub mod Tests
use test_platform.Base.{
  ℕ, ◌+◌, ◌-◌, ◌*◌, ◌/◌, Bool, true, false, Option, none, some, List, [], ◌∷◌, if◌then◌else◌, leb,
  ◌==◌, min, ◌&&◌, not,
}
use test_platform.Platform.{Attempt, AttemptTable, App, status_eq, in_progress}

-- `eventTypeEnum`.
pub data EventType : Type 0 where
  tab_leave tab_return fullscreen_exit fullscreen_enter paste_attempt : EventType

abbrev pub event_eq : EventType → EventType → Bool
event_eq tab_leave tab_leave = true
event_eq tab_return tab_return = true
event_eq fullscreen_exit fullscreen_exit = true
event_eq fullscreen_enter fullscreen_enter = true
event_eq paste_attempt paste_attempt = true
event_eq _ _ = false

-- A whole number that a client sends.
pub data ℤ : Type 0 where
  pos negsuc : ℕ → ℤ

-- `ProctorEventData`. An event type that is not in the enum of the database is `none`.
pub record ProctorEventData : Type 0 where
  pub attempt_id : ℕ
  pub event_type : Option EventType
  pub duration : Option ℤ
  pub paste_length : Option ℕ
  pub is_multiline : Option Bool

-- A row of `proctor_events`.
pub record ProctorEvent : Type 0 where
  pub attempt_id : ℕ
  pub event_type : EventType
  pub timestamp : ℕ
  pub duration : Option ℕ
  pub paste_length : Option ℕ
  pub is_multiline : Option Bool

pub data Severity : Type 0 where
  is_low is_medium is_high : Severity

-- The message `proctor:warning` to the room of an attempt.
pub record Warning : Type 0 where
  pub attempt_id : ℕ
  pub event_type : EventType
  pub count : ℕ
  pub severity : Severity

-- The state: an instance of the server, the table of events with the newest first, the warnings sent
-- and the messages published (attempt, event, count), newest first too.
pub record Monitor (A B T Q : Type 0) : Type 0 where
  pub app : App A B T Q
  pub events : List ProctorEvent
  pub warnings : List Warning
  pub published : List (ℕ × EventType × ℕ)

-- `duration ? Math.min(Math.max(0, duration), 86400) : undefined`.
abbrev pub validated_duration : Option ℤ → Option ℕ
validated_duration none = none
validated_duration (some (negsuc n)) = some 0
validated_duration (some (pos n)) = if n == 0 then none else some (min n 86400)

-- A duration where a missing one counts as 0.
abbrev pub seconds_away : Option ℕ → ℕ
seconds_away none = 0
seconds_away (some d) = d

-- Whether `updateIntegrityCounters` has anything to update, and what.
abbrev pub has_updates : EventType → Option ℕ → Bool
has_updates tab_return d = not (seconds_away d == 0)
has_updates fullscreen_enter d = false
has_updates _ d = true

abbrev pub updates : EventType → Option ℕ → Attempt → Attempt
updates tab_leave d a = record a { tab_exits = a.tab_exits + 1 }
updates tab_return d a = record a {
  total_out_of_window_seconds = a.total_out_of_window_seconds + seconds_away d;
}
updates fullscreen_exit d a = record a { fullscreen_exits = a.fullscreen_exits + 1 }
updates fullscreen_enter d a = a
updates paste_attempt d a = record a { paste_attempts = a.paste_attempts + 1 }

abbrev pub violation_count : EventType → Attempt → ℕ
violation_count tab_leave a = a.tab_exits
violation_count tab_return a = a.tab_exits
violation_count fullscreen_exit a = a.fullscreen_exits
violation_count fullscreen_enter a = a.fullscreen_exits
violation_count paste_attempt a = a.paste_attempts

unfoldable pub get_severity : EventType → ℕ → Severity
get_severity paste_attempt count = is_high
get_severity _ count = if leb 5 count then is_high else if leb 3 count then is_medium else is_low

-- Whether `WARNING_MESSAGES` has a text for the event.
abbrev pub has_warning : EventType → Bool
has_warning tab_return = false
has_warning fullscreen_enter = false
has_warning _ = true

module _ {T : Type 0} (table : AttemptTable T) where
  unfoldable pub update_integrity_counters : ℕ → EventType → Option ℕ → T → T
  update_integrity_counters id e d attempts =
      if has_updates e d then table.update id (updates e d) attempts else attempts

  unfoldable pub get_violation_count : ℕ → EventType → T → ℕ
  get_violation_count id e attempts = elim (table.find id attempts) [
    | none ↦ 0
    | some a ↦ violation_count e a
  ]

module _ {A B T Q : Type 0} (table : AttemptTable T) where
  -- `logProctorEvent` behind its tests.
  unfoldable pub record_event : ℕ → ProctorEventData → EventType → Monitor A B T Q → Monitor A B T Q
  record_event now report e m =
      let d = validated_duration report.duration in
      let attempts = update_integrity_counters table report.attempt_id e d m.app.attempts in
      let count = get_violation_count table report.attempt_id e attempts in
      record {
        app = record m.app { attempts = attempts };
        events =
            record {
              attempt_id = report.attempt_id;
              event_type = e;
              timestamp = now;
              duration = d;
              paste_length = report.paste_length;
              is_multiline = report.is_multiline;
            }
            ∷ m.events;
        warnings =
            if has_warning e
            then record {
              attempt_id = report.attempt_id;
              event_type = e;
              count = count;
              severity = get_severity e count;
            }
              ∷ m.warnings
            else m.warnings;
        published = (report.attempt_id, e, count) ∷ m.published;
      }

  -- Whether the call returns, and the state after it: the database refuses an unknown event type.
  unfoldable pub log_proctor_event :
      ℕ → ℕ → ProctorEventData → Monitor A B T Q → Bool × Monitor A B T Q
  log_proctor_event now user_id report m = elim (table.find report.attempt_id m.app.attempts) [
    | none ↦ (true, m)
    | some a ↦
        if a.candidate_id == user_id && status_eq a.status in_progress
        then elim report.event_type [
          | none ↦ (false, m)
          | some e ↦ (true, record_event now report e m)
        ]
        else (true, m)
  ]

-- `calculateIntegrityScore`. The terms are never negative, so that cutting off at 0 at every step is
-- cutting off at the end.
unfoldable pub calculate_integrity_score : Attempt → ℕ
calculate_integrity_score a =
    100
    - a.tab_exits * 5
    - a.fullscreen_exits * 10
    - a.paste_attempts * 15
    - a.total_out_of_window_seconds / 30 * 2

-- `getIntegritySummary`.
pub record IntegritySummary : Type 0 where
  pub tab_exits : ℕ
  pub total_out_of_window_seconds : ℕ
  pub fullscreen_exits : ℕ
  pub paste_attempts : ℕ
  pub total_violations : ℕ
  pub integrity_score : ℕ

unfoldable pub get_integrity_summary :
    {T : Type 0} → AttemptTable T → ℕ → T → Option IntegritySummary
get_integrity_summary table id attempts = elim (table.find id attempts) [
  | none ↦ none
  | some a ↦ some (record {
    tab_exits = a.tab_exits;
    total_out_of_window_seconds = a.total_out_of_window_seconds;
    fullscreen_exits = a.fullscreen_exits;
    paste_attempts = a.paste_attempts;
    total_violations = a.tab_exits + a.fullscreen_exits + a.paste_attempts;
    integrity_score = calculate_integrity_score a;
  })
]
