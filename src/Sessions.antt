-- ===== src/Sessions.antt =====
-- apps/api/src/lib/session-cache.ts: login sessions in Redis. The session's identifier, drawn at
-- random there, and the time are arguments. Only this file's code writes the keys `session:<id>`
-- with one identifier, so a value of another shape is read as no session.
pub mod Laws
pub mod Tests
use test_platform.Base.{
  ℕ, ◌*◌, Bool, Option, none, some, List, [], ◌∷◌, ◌++◌, if◌then◌else◌, length, take, text_eq, ◌==◌,
}
use test_platform.Redis.{Strings, Sets, Store}
use test_platform.Redis.Keys.{
  session, login_cache, user_sessions, Role, SessionData, text, session_data, parse_session,
  parse_text,
}

abbrev pub session_ttl_seconds : ℕ
session_ttl_seconds = 7 * 24 * 60 * 60

-- The part of a password hash that a session keeps.
abbrev pub hash_prefix : List ℕ → List ℕ
hash_prefix = take 20

module _ {A B : Type 0} (kv : Strings A) (ss : Sets B) where
  unfoldable pub create_session :
      ℕ → ℕ → ℕ → ℕ → Role → List ℕ → Option ℕ → Option ℕ → Store A B → Store A B
  create_session now session_id user_id email role password_hash user_agent ip r = record {
    strings =
        kv.set_ex now (session session_id)
          (session_data (record {
            user_id = user_id;
            email = email;
            role = role;
            password_hash = hash_prefix password_hash;
            created_at = now;
            last_accessed_at = now;
            user_agent = user_agent;
            ip = ip;
          }))
          session_ttl_seconds r.strings;
    sets =
        ss.expire now (user_sessions user_id) session_ttl_seconds
          (ss.sadd now (user_sessions user_id) session_id r.sets);
  }

  -- The session with its new access time, which is stored again with a full time to live.
  unfoldable pub get_session : ℕ → ℕ → Store A B → Option SessionData × Store A B
  get_session now session_id r = elim (kv.get now (session session_id) r.strings) [
    | none ↦ (none, r)
    | some v ↦ elim (parse_session v) [
      | none ↦ (none, r)
      | some d ↦
          let touched : SessionData = record d { last_accessed_at = now } in
          (
            some touched,
            record r {
              strings =
                  kv.set_ex now (session session_id) (session_data touched) session_ttl_seconds
                    r.strings;
            },
          )
    ]
  ]

  unfoldable pub invalidate_session : ℕ → ℕ → Store A B → Store A B
  invalidate_session now session_id r =
      let (found, r') = get_session now session_id r in
      record {
        strings = kv.del (session session_id) r'.strings;
        sets = elim found [
          | none ↦ r'.sets
          | some d ↦ ss.srem now (user_sessions d.user_id) session_id r'.sets
        ];
      }

  unfoldable pub validate_session : ℕ → ℕ → List ℕ → Store A B → Option SessionData × Store A B
  validate_session now session_id current_hash r =
      let (found, r') = get_session now session_id r in
      elim found [
        | none ↦ (none, r')
        | some d ↦
            if text_eq d.password_hash (hash_prefix current_hash)
            then (some d, r')
            else (none, invalidate_session now session_id r')
      ]

  -- The commands that the pipeline of `invalidateAllUserSessions` collects.
  unfoldable pub delete_sessions : List ℕ → A → A
  delete_sessions [] s = s
  delete_sessions (id ∷ ids) s = delete_sessions ids (kv.del (session id) s)

  unfoldable pub invalidate_all_user_sessions : ℕ → ℕ → Store A B → ℕ × Store A B
  invalidate_all_user_sessions now user_id r =
      let ids = ss.smembers now (user_sessions user_id) r.sets in
      if length ids == 0 then (0, r) else (
        length ids,
        record {
          strings = delete_sessions ids r.strings;
          sets = ss.del (user_sessions user_id) r.sets;
        },
      )

  -- The loop of `getUserSessions`: the sessions found, in the order of the identifiers.
  unfoldable pub collect_sessions : ℕ → List ℕ → Store A B → List SessionData × Store A B
  collect_sessions now [] r = ([], r)
  collect_sessions now (id ∷ ids) r =
      let (found, r') = get_session now id r in
      let (rest, r'') = collect_sessions now ids r' in
      (elim found [ none ↦ rest | some d ↦ d ∷ rest ], r'')

  unfoldable pub get_user_sessions : ℕ → ℕ → Store A B → List SessionData × Store A B
  get_user_sessions now user_id r =
      collect_sessions now (ss.smembers now (user_sessions user_id) r.sets) r

  -- A stale entry of the index is removed.
  unfoldable pub get_cached_login : ℕ → ℕ → Store A B → Option (ℕ × SessionData) × Store A B
  get_cached_login now email r = elim (kv.get now (login_cache email) r.strings) [
    | none ↦ (none, r)
    | some v ↦ elim (parse_text v) [
      | none ↦ (none, r)
      | some session_id ↦
          let (found, r') = get_session now session_id r in
          elim found [
            | none ↦ (none, record r' { strings = kv.del (login_cache email) r'.strings })
            | some d ↦ (some (session_id, d), r')
          ]
    ]
  ]

  unfoldable pub set_cached_login : ℕ → ℕ → ℕ → Store A B → Store A B
  set_cached_login now email session_id r = record r {
    strings = kv.set_ex now (login_cache email) (text session_id) session_ttl_seconds r.strings;
  }

  unfoldable pub remove_cached_login : ℕ → Store A B → Store A B
  remove_cached_login email r = record r { strings = kv.del (login_cache email) r.strings }
