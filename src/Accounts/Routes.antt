-- ===== src/Accounts/Routes.antt =====
-- The routes of apps/api/src/routes/auth.ts. Identifiers that the handlers draw and the time are
-- arguments; the body of a request has passed its Zod schema. That `JWT_SECRET` is configured is
-- assumed, so `generateToken` of middleware/auth.ts signs under the secret of the access tokens.
use test_platform.Base.{
  ℕ, ◌*◌, Bool, not, ◌&&◌, Option, none, some, List, if◌then◌else◌, text_eq, Reply, ok, api_error,
}
use test_platform.Redis.{Strings, Sets, Store}
use test_platform.Redis.Keys.{Role, candidate}
use test_platform.Tokens.{
  TokenPayload, Jwt, generate_access_token, generate_refresh_token, verify_access_token,
  rotate_refresh_token, revoke_refresh_token, revoke_all_user_tokens,
}
use test_platform.Sessions.{
  hash_prefix, create_session, get_cached_login, set_cached_login, remove_cached_login,
  invalidate_all_user_sessions,
}
use test_platform.Accounts.{User, UserTable, Bcrypt, role_eq, is_approved, new_account}

-- `generateToken` signs for `7d`.
abbrev pub token_expiry_seconds : ℕ
token_expiry_seconds = 7 * 24 * 60 * 60

abbrev pub payload_of : User → TokenPayload
payload_of user = record { user_id = user.id; email = user.email; role = user.role }

-- What a login answers: its tokens and its session.
pub record LoginData (Token : Type 0) : Type 0 where
  pub user : User
  pub token : Token
  pub access_token : Token
  pub refresh_token : Token
  pub session_id : ℕ

-- What a registration answers.
pub record RegisterData (Token : Type 0) : Type 0 where
  pub user : User
  pub token : Token
  pub access_token : Token
  pub refresh_token : Token

-- A request to register, with the identifiers that the handler and the table draw and the flag of the
-- environment.
pub record Registration : Type 0 where
  pub now : ℕ
  pub id : ℕ
  pub email : ℕ
  pub password : List ℕ
  pub name : ℕ
  pub role : Option Role
  pub bootstrap : Bool
  pub token_id : ℕ
  pub family_id : ℕ

-- A request to log in, with the identifiers that the handler draws.
pub record LoginRequest : Type 0 where
  pub now : ℕ
  pub email : ℕ
  pub password : List ℕ
  pub user_agent : Option ℕ
  pub ip : Option ℕ
  pub new_session_id : ℕ
  pub token_id : ℕ
  pub family_id : ℕ

module _ {U A B Token : Type 0} (users : UserTable U) (bcrypt : Bcrypt) (kv : Strings A)
    (ss : Sets B) (access jwt : Jwt Token) where
  -- The token that older clients use.
  unfoldable pub generate_token : ℕ → TokenPayload → Token
  generate_token now p =
      access.sign now (record { payload = p; refresh_claims = none }) token_expiry_seconds

  -- `req.user`, or the refusal; the argument is the token of a header that starts with `Bearer `. The
  -- claims of a refresh token are not looked at.
  unfoldable pub authenticate : ℕ → Option Token → Reply TokenPayload
  authenticate now none = api_error 401
  authenticate now (some token) = elim (verify_access_token kv ss access jwt now token) [
    | none ↦ api_error 401
    | some claims ↦ ok claims
  ]

  -- The fast and the slow path: the session to answer with.
  unfoldable pub establish_session : LoginRequest → User → Store A B → Reply ℕ × Store A B
  establish_session q user r =
      let (cached, r') = get_cached_login kv ss q.now q.email r in
      let slow : Reply ℕ × Store A B =
        if bcrypt.compare q.password user.password
        then (
          ok q.new_session_id,
          set_cached_login kv ss q.now q.email q.new_session_id (
              create_session kv ss q.now q.new_session_id user.id user.email user.role user.password
                q.user_agent q.ip r'),
        )
        else (api_error 401, r') in
      elim cached [
        | none ↦ slow
        | some (session_id, d) ↦
            if text_eq d.password_hash (hash_prefix user.password)
            then (ok session_id, r')
            else slow
      ]

  unfoldable pub login : LoginRequest → U → Store A B → Reply (LoginData Token) × Store A B
  login q u r = elim (users.find_email q.email u) [
    | none ↦ (api_error 401, r)
    | some user ↦
        if not (role_eq user.role candidate) && not (is_approved user.approval_status)
        then (api_error 403, r)
        else let (established, r') = establish_session q user r in
          elim established [
            | api_error code ↦ (api_error code, r')
            | ok session_id ↦
                let (refresh_token, r'') =
                  generate_refresh_token kv ss access jwt q.now q.token_id q.family_id
                    (payload_of user) r' in
                (
                  ok (record {
                    user = user;
                    token = generate_token q.now (payload_of user);
                    access_token = generate_access_token kv ss access jwt q.now (payload_of user);
                    refresh_token = refresh_token;
                    session_id = session_id;
                  }),
                  r'',
                )
          ]
  ]

  -- `POST /register`. Every new account gets tokens, a pending one too.
  unfoldable pub register :
      Registration → U → Store A B → Reply (RegisterData Token) × U × Store A B
  register q u r = elim (users.find_email q.email u) [
    | some _ ↦ (api_error 400, u, r)
    | none ↦
        let user : User =
          new_account users bcrypt q.now q.bootstrap q.id q.email q.password q.name q.role u in
        let (refresh_token, r') =
          generate_refresh_token kv ss access jwt q.now q.token_id q.family_id (payload_of user)
            r in
        (
          ok (record {
            user = user;
            token = generate_token q.now (payload_of user);
            access_token = generate_access_token kv ss access jwt q.now (payload_of user);
            refresh_token = refresh_token;
          }),
          users.insert user u,
          r',
        )
  ]

  -- `POST /refresh`; the body may lack the token.
  unfoldable pub refresh_tokens :
      ℕ → ℕ → Option Token → Store A B → Reply (Token × Token) × Store A B
  refresh_tokens now new_id none r = (api_error 400, r)
  refresh_tokens now new_id (some token) r =
      let (tokens, r') = rotate_refresh_token kv ss access jwt now new_id token r in
      (elim tokens [ none ↦ api_error 401 | some pair ↦ ok pair ], r')

  -- `POST /logout`. It always succeeds; the session's identifier in the body is not used.
  unfoldable pub logout : ℕ → Option Token → Option ℕ → Store A B → Store A B
  logout now token email r =
      let r' : Store A B = elim token [
        | none ↦ r
        | some k ↦ (revoke_refresh_token kv ss access jwt now k r).1
      ] in
      elim email [ none ↦ r' | some e ↦ remove_cached_login kv ss e r' ]

  -- `POST /logout-all`; the list is what the scan of the refresh tokens gives. The eviction of the
  -- user's sockets, a message on a channel, is left out.
  unfoldable pub logout_all : ℕ → TokenPayload → List ℕ → Store A B → Store A B
  logout_all now user scanned r =
      remove_cached_login kv ss user.email
        (invalidate_all_user_sessions kv ss now user.user_id
          (revoke_all_user_tokens kv ss access jwt now user.user_id scanned r)).1
