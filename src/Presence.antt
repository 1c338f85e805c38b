-- ===== src/Presence.antt =====
-- apps/api/src/socket/presenceService.ts: the open tabs of an attempt, kept in Redis, so that a
-- candidate has one. The timeout of a session, `SESSION_TIMEOUT` in seconds, is an argument, and so is
-- the time; a call is one step. The counts of sessions, which only scan, are left out.
pub mod Exclusion
pub mod Tests
use test_platform.Base.{
  ℕ, ◌+◌, ◌*◌, Bool, true, false, Option, none, some, List, [], ◌∷◌, if◌then◌else◌, ltb, ◌==◌,
  is_some,
}
use test_platform.Redis.{Strings, Sets, Store}
use test_platform.Redis.Keys.{presence, presence_set, PresenceData, presence_data, parse_presence}

-- `now - session.lastActive < SESSION_TIMEOUT * 1000`, over the integers.
abbrev pub is_active : ℕ → ℕ → PresenceData → Bool
is_active now timeout d = ltb now (d.last_active + timeout * 1000)

module _ {A B : Type 0} (kv : Strings A) (ss : Sets B) where
  unfoldable pub forget_socket : ℕ → ℕ → ℕ → Store A B → Store A B
  forget_socket now attempt_id socket_id r = record r {
    sets = ss.srem now (presence_set attempt_id) socket_id r.sets;
  }

  unfoldable pub remove_session : ℕ → ℕ → ℕ → Store A B → Store A B
  unfolding forget_socket
  remove_session now attempt_id socket_id r = record (forget_socket now attempt_id socket_id r) {
    strings = kv.del (presence attempt_id socket_id) r.strings;
  }

  -- One round of the loop of `trackSession`: whether it refuses, and the store with what is stale
  -- removed.
  unfoldable pub check_other : ℕ → ℕ → ℕ → ℕ → ℕ → ℕ → Store A B → Bool × Store A B
  check_other now timeout attempt_id socket_id user_id other r =
      if other == socket_id
      then (false, r)
      else elim (kv.get now (presence attempt_id other) r.strings) [
        | none ↦ (false, forget_socket now attempt_id other r)
        | some v ↦ elim (parse_presence v) [
          | none ↦ (false, remove_session now attempt_id other r)
          | some d ↦
              if is_active now timeout d
              then (d.user_id == user_id, r)
              else (false, remove_session now attempt_id other r)
        ]
      ]

  unfoldable pub check_others : ℕ → ℕ → ℕ → ℕ → ℕ → List ℕ → Store A B → Bool × Store A B
  check_others now timeout attempt_id socket_id user_id [] r = (false, r)
  check_others now timeout attempt_id socket_id user_id (other ∷ others) r =
      let (refused, r') = check_other now timeout attempt_id socket_id user_id other r in
      let rest = check_others now timeout attempt_id socket_id user_id others r' in
      if refused then (true, r') else rest

  unfoldable pub add_session : ℕ → ℕ → ℕ → ℕ → ℕ → Store A B → Store A B
  add_session now timeout attempt_id socket_id user_id r = record {
    strings =
        kv.set_ex now (presence attempt_id socket_id)
          (presence_data (record {
            socket_id = socket_id;
            user_id = user_id;
            attempt_id = attempt_id;
            last_active = now;
          }))
          timeout r.strings;
    sets =
        ss.expire now (presence_set attempt_id) (timeout + 60)
          (ss.sadd now (presence_set attempt_id) socket_id r.sets);
  }

  -- Whether the session is tracked.
  unfoldable pub track_session : ℕ → ℕ → ℕ → ℕ → ℕ → Store A B → Bool × Store A B
  track_session now timeout attempt_id socket_id user_id r =
      let others = ss.smembers now (presence_set attempt_id) r.sets in
      let (refused, r') = check_others now timeout attempt_id socket_id user_id others r in
      if refused
      then (false, r')
      else (true, add_session now timeout attempt_id socket_id user_id r')

  -- The heartbeat.
  unfoldable pub update_session_activity : ℕ → ℕ → ℕ → ℕ → Store A B → Store A B
  update_session_activity now timeout attempt_id socket_id r =
      elim (kv.get now (presence attempt_id socket_id) r.strings) [
        | none ↦ r
        | some v ↦ elim (parse_presence v) [
          | none ↦ r
          | some d ↦ record r {
            strings =
                kv.set_ex now (presence attempt_id socket_id)
                  (presence_data (record d { last_active = now })) timeout r.strings;
          }
        ]
      ]

  -- The loop of `clearAllSessions`.
  unfoldable pub delete_sessions : ℕ → List ℕ → A → A
  delete_sessions attempt_id [] s = s
  delete_sessions attempt_id (id ∷ ids) s =
      delete_sessions attempt_id ids (kv.del (presence attempt_id id) s)

  unfoldable pub clear_all_sessions : ℕ → ℕ → Store A B → Store A B
  clear_all_sessions now attempt_id r = record {
    strings =
        delete_sessions attempt_id (ss.smembers now (presence_set attempt_id) r.sets) r.strings;
    sets = ss.del (presence_set attempt_id) r.sets;
  }
