-- ===== src/Accounts/Passwords.antt =====
-- What a login in routes/auth.ts checks. On the slow path the password decides. On the fast path,
-- that of a cached session, it is not looked at.
use test_platform.Base.{
  if◌then◌else◌, ℕ, ◌≡◌, ◌↔◌, Bool, true, ◌&&◌, not, none, some, List, arith, api_error, is_ok,
  text_eq_refl, ◌≢◌,
}
use test_platform.Redis.{Strings, Sets, Store}
use test_platform.Redis.Keys.{candidate, session, login_cache, SessionData, text, session_data}
use test_platform.Tokens.{TokenPayload, Jwt, revoke_all_user_tokens}
use test_platform.Sessions.{hash_prefix, remove_cached_login, invalidate_all_user_sessions}
use test_platform.Sessions.Laws.{get_cached_login_found, get_cached_login-none}
use test_platform.Accounts.{User, UserTable, Bcrypt, approved, role_eq, is_approved}
use test_platform.Accounts.Routes.{LoginRequest, establish_session, login, logout_all}

module _ {U A B Token : Type 0} (users : UserTable U) (bcrypt : Bcrypt) (kv : Strings A)
    (ss : Sets B) (access jwt : Jwt Token) where
  abbrev pub may_log_in : User → Bool
  may_log_in user =
      not (not (role_eq user.role candidate) && not (is_approved user.approval_status))

  -- An account of an admin or a reviewer that is not approved is refused, whatever the password, and
  -- the refusal leaves no session and no token.
  pub login_needs_approval :
      (q : LoginRequest) (user : User) (u : U) (r : Store A B)
      → users.find_email q.email u ≡ some user
      → user.role ≢ candidate
      → user.approval_status ≢ approved
      → login users bcrypt kv ss access jwt q u r ≡ (api_error 403, r)
  unfolding login
  login_needs_approval q user u r e staff waiting = ground arith

  -- Where no login of the address is cached, the password decides: a login succeeds exactly if
  -- bcrypt accepts the password, for an account that may log in, and a refused one changes nothing.
  pub login_slow_iff :
      (q : LoginRequest) (user : User) (u : U) (r : Store A B)
      → users.find_email q.email u ≡ some user
      → kv.get q.now (login_cache q.email) r.strings ≡ none
      → let result = login users bcrypt kv ss access jwt q u r in
        ((is_ok result.0 ≡ true)
          ↔ ((may_log_in user ≡ true) × (bcrypt.compare q.password user.password ≡ true)))
        × ((if is_ok result.0 then r else result.1) ≡ r)
  unfolding login establish_session
  login_slow_iff q user u r e uncached =
      let miss = get_cached_login-none kv ss q.now q.email r uncached in
      ((λ h. ground (arith, miss), λ h. ground (arith, miss)), ground (arith, miss))

  -- The fast path: while the index names a session whose kept part of the hash is the account's, a
  -- login for the address succeeds with every password, and answers with that session.
  pub login_cached_any_password :
      (q : LoginRequest) (user : User) (id : ℕ) (d : SessionData) (u : U) (r : Store A B)
      → users.find_email q.email u ≡ some user
      → may_log_in user ≡ true
      → kv.get q.now (login_cache q.email) r.strings ≡ some (text id)
      → kv.get q.now (session id) r.strings ≡ some (session_data d)
      → d.password_hash ≡ hash_prefix user.password
      → (password : List ℕ)
      → is_ok (login users bcrypt kv ss access jwt (record q { password = password }) u r).0 ≡ true
  unfolding login establish_session
  login_cached_any_password q user id d u r e may index stored same password = ground (
    arith,
    e,
    get_cached_login_found kv ss q.now q.email id d r index stored,
    text_eq_refl (hash_prefix user.password),
  )

  -- After `POST /logout-all` a login for the user's address needs the right password again.
  pub login_after_logout_all :
      (q : LoginRequest) (claims : TokenPayload) (user : User) (now : ℕ) (scanned : List ℕ) (u : U)
      (r : Store A B)
      → users.find_email q.email u ≡ some user
      → q.email ≡ claims.email
      → is_ok
          (login users bcrypt kv ss access jwt q u
            (logout_all users bcrypt kv ss access jwt now claims scanned r)).0
        ≡ true
      → bcrypt.compare q.password user.password ≡ true
  unfolding logout_all remove_cached_login
  login_after_logout_all q claims user now scanned u r e same h =
      let before =
        (invalidate_all_user_sessions kv ss now claims.user_id
          (revoke_all_user_tokens kv ss access jwt now claims.user_id scanned r)).1.strings in
      let cleared = kv.get-del q.now (login_cache q.email) (login_cache claims.email) before in
      ((login_slow_iff q user u _ e (ground (arith, cleared))).0.0 h).1
