-- ===== src/Presence/Tests.antt =====
-- socket/presenceService.ts run on the server in memory, and its theorems at concrete inputs.
use test_platform.Base.{◌≡◌, refl, true, false, arith}
use test_platform.Redis.{Store}
use test_platform.Redis.Keys.{presence, presence_set, presence_data}
use test_platform.Redis.Memory.{empty, Cells, Groups, strings, sets}
use test_platform.Presence.{
  forget_socket, remove_session, check_other, check_others, add_session, track_session,
  update_session_activity, delete_sessions, clear_all_sessions,
}
use test_platform.Presence.Exclusion.{track_session_excludes}

tracking : Unit {0}
unfolding forget_socket remove_session check_other check_others add_session track_session
    update_session_activity delete_sessions clear_all_sessions
tracking = tt

-- User 1 opens attempt 4 in socket 20, at time 5, with a timeout of 30 seconds.
abbrev opened : Store Cells Groups
opened = record {
  strings =
      strings.set_ex 5 (presence 4 20)
        (presence_data (record { socket_id = 20; user_id = 1; attempt_id = 4; last_active = 5 })) 30
        empty.strings;
  sets = sets.expire 5 (presence_set 4) 90 (sets.sadd 5 (presence_set 4) 20 empty.sets);
}

tracks : track_session strings sets 5 30 4 20 1 empty ≡ (true, opened)
unfolding tracking
tracks = refl

-- A second tab is refused, another user's is not, and after a heartbeat the first tab lasts longer.
tests :
    ((track_session strings sets 6 30 4 21 1 opened).0 ≡ false)
    × ((track_session strings sets 6 30 4 21 2 opened).0 ≡ true)
    × ((track_session strings sets 30004 30 4 21 1 opened).0 ≡ false)
    × ((track_session strings sets 30005 30 4 21 1 opened).0 ≡ true)
    × ((track_session strings sets 30006 30 4 21 1
          (update_session_activity strings sets 20000 30 4 20 opened)).0
        ≡ false)
    × ((track_session strings sets 6 30 4 21 1 (clear_all_sessions strings sets 5 4 opened)).0
        ≡ true)
unfolding tracking
tests = (refl, refl, refl, refl, refl, refl)

tracked : (track_session strings sets 5 30 4 20 1 empty).0 ≡ true
unfolding tracking
tracked = refl

track_session_excludes_example :
    (track_session strings sets 9 30 4 21 1 (track_session strings sets 5 30 4 20 1 empty).1).0
    ≡ false
track_session_excludes_example =
    track_session_excludes strings sets 5 9 30 4 20 21 1 empty tracked (omega arith) (omega arith)
      (omega arith)
