-- ===== src/Sessions/Tests.antt =====
-- lib/session-cache.ts run on the server in memory, and its theorems at concrete inputs.
use test_platform.Base.{◌≡◌, refl, none, some, [], ◌∷◌}
use test_platform.Redis.{Store}
use test_platform.Redis.Keys.{session, user_sessions, candidate, SessionData, session_data}
use test_platform.Redis.Memory.{empty, Cells, Groups, strings, sets}
use test_platform.Sessions.{
  create_session, get_session, validate_session, invalidate_session, invalidate_all_user_sessions,
  get_user_sessions, collect_sessions, delete_sessions, get_cached_login, set_cached_login,
  remove_cached_login,
}

sessions : Unit {0}
unfolding create_session get_session validate_session invalidate_session
    invalidate_all_user_sessions get_user_sessions collect_sessions delete_sessions get_cached_login
    set_cached_login remove_cached_login
sessions = tt

abbrev ann_session : SessionData
ann_session = record {
  user_id = 1;
  email = 11;
  role = candidate;
  password_hash = 5 ∷ 6 ∷ [];
  created_at = 3;
  last_accessed_at = 3;
  user_agent = none;
  ip = some 9;
}

abbrev one : Store Cells Groups
one = record {
  strings = strings.set_ex 3 (session 40) (session_data ann_session) 604800 empty.strings;
  sets = sets.expire 3 (user_sessions 1) 604800 (sets.sadd 3 (user_sessions 1) 40 empty.sets);
}

create_test : create_session strings sets 3 40 1 11 candidate (5 ∷ 6 ∷ []) none (some 9) empty ≡ one
unfolding sessions
create_test = refl

session_tests :
    ((validate_session strings sets 4 40 (5 ∷ 6 ∷ []) one).0
      ≡ some (record ann_session { last_accessed_at = 4 }))
    × ((get_user_sessions strings sets 4 1 one).0
        ≡ record ann_session { last_accessed_at = 4 } ∷ [])
    × ((invalidate_all_user_sessions strings sets 4 1 one).0 ≡ 1)
    × ((get_cached_login strings sets 4 11 (set_cached_login strings sets 4 11 41 one)).0 ≡ none)
unfolding sessions
session_tests = (refl, refl, refl, refl)
