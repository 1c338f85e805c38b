-- ===== src/Sessions/Laws.antt =====
-- Sessions: what is read back, the sliding window, and what each invalidation leaves.
use test_platform.Base.{
  ℕ, ◌+◌, ◌*◌, ◌<◌, ◌≡◌, refl, false, none, some, List, [], ◌∷◌, arith, has_of_empty, if◌then◌else◌,
  has, text_eq,
}
use test_platform.Redis.{Strings, Sets, Store}
use test_platform.Redis.Keys.{session, login_cache, user_sessions, SessionData, text, session_data}
use test_platform.Sessions.{
  session_ttl_seconds, hash_prefix, get_session, invalidate_session, validate_session,
  delete_sessions, invalidate_all_user_sessions, get_cached_login,
}

module _ {A B : Type 0} (kv : Strings A) (ss : Sets B) where
  -- A session that is read is given back with its access time set, and lives for seven days more.
  pub get_session_twice :
      (now t id : ℕ) (d : SessionData) (r : Store A B)
      → kv.get now (session id) r.strings ≡ some (session_data d)
      → t < now + session_ttl_seconds * 1000
      → ((get_session kv ss now id r).0 ≡ some (record d { last_accessed_at = now }))
        × ((get_session kv ss t id (get_session kv ss now id r).1).0
            ≡ some (record d { last_accessed_at = t }))
  unfolding get_session
  get_session_twice now t id d r e early = (
    rw (e, get_session),
    ground (
      arith,
      e,
      kv.get-set_ex t now (session id) (session id)
          (session_data (record d { last_accessed_at = now })) session_ttl_seconds r.strings,
    ),
  )

  invalidate_session-get :
      (now t id : ℕ) (r : Store A B)
      → kv.get t (session id) (invalidate_session kv ss now id r).strings ≡ none
  unfolding invalidate_session
  invalidate_session-get now t id r =
      ground (arith, kv.get-del t (session id) (session id) (get_session kv ss now id r).1.strings)

  -- A session made under another password is refused and deleted: after a change of the password,
  -- which changes the kept part of its hash, no session of before is valid at any time.
  pub validate_session_changed :
      (now t id : ℕ) (d : SessionData) (current : List ℕ) (r : Store A B)
      → kv.get now (session id) r.strings ≡ some (session_data d)
      → text_eq d.password_hash (hash_prefix current) ≡ false
      → ((validate_session kv ss now id current r).0 ≡ none)
        × (kv.get t (session id) (validate_session kv ss now id current r).1.strings ≡ none)
  unfolding validate_session get_session
  validate_session_changed now t id d current r e changed =
      ground (arith, e, invalidate_session-get now t id (get_session kv ss now id r).1)

  pub get-delete_sessions :
      (t x : ℕ) (ids : List ℕ) (s : A)
      → kv.get t (session x) (delete_sessions kv ss ids s)
        ≡ (if has x ids then none else kv.get t (session x) s)
  unfolding delete_sessions
  get-delete_sessions t x [] s = refl
  get-delete_sessions t x (id ∷ ids) s = ground (
    arith,
    get-delete_sessions t x ids (kv.del (session id) s),
    kv.get-del t (session x) (session id) s,
  )

  -- After `invalidateAllUserSessions` no session in the user's set is left, every session outside it
  -- is as it was, and the set is empty.
  pub invalidate_all_user_sessions_lem :
      (now t u x : ℕ) (r : Store A B)
      → (kv.get t (session x) (invalidate_all_user_sessions kv ss now u r).1.strings ≡ (
          if has x (ss.smembers now (user_sessions u) r.sets)
          then none
          else kv.get t (session x) r.strings))
        × (has x (
              ss.smembers now (user_sessions u) (invalidate_all_user_sessions kv ss now u r).1.sets)
            ≡ false)
  unfolding invalidate_all_user_sessions
  invalidate_all_user_sessions_lem now t u x r = ground (
    arith,
    has_of_empty x (ss.smembers now (user_sessions u) r.sets),
    get-delete_sessions t x (ss.smembers now (user_sessions u) r.sets) r.strings,
    ss.smembers-del now (user_sessions u) (user_sessions u) x r.sets,
  )

  -- What the index of logins gives: the session that it names, if that session is there.
  pub get_cached_login_found :
      (now email id : ℕ) (d : SessionData) (r : Store A B)
      → kv.get now (login_cache email) r.strings ≡ some (text id)
      → kv.get now (session id) r.strings ≡ some (session_data d)
      → (get_cached_login kv ss now email r).0 ≡ some (id, record d { last_accessed_at = now })
  unfolding get_cached_login get_session
  get_cached_login_found now email id d r e e' = ground (arith, e, e')

  pub get_cached_login-none :
      (now email : ℕ) (r : Store A B)
      → kv.get now (login_cache email) r.strings ≡ none
      → get_cached_login kv ss now email r ≡ (none, r)
  unfolding get_cached_login
  get_cached_login-none now email r e = rw (e, get_cached_login)
