-- ===== src/Accounts/Access.antt =====
-- What the decisions of routes/admin-users.ts mean for the guards of middleware/auth.ts, and what the
-- tokens of routes/auth.ts open.
use mathlib.Core.Option
use test_platform.Base.{
  ℕ, ◌/◌, ◌+◌, ◌*◌, ◌<◌, ◌≡◌, ◌≢◌, ◌↔◌, inl, inr, true, false, ◌&&◌, none, some, List, [], ◌∷◌,
  arith, ◌==◌, if◌then◌else◌, ok, api_error, is_ok, Option-cases, ==_refl, ltb,
}
use test_platform.Redis.{Strings, Sets, Store}
use test_platform.Redis.Keys.{Role, admin, candidate}
use test_platform.Tokens.{
  TokenPayload, Claims, Jwt, generate_access_token, generate_refresh_token, verify_access_token,
  access_token_expiry_seconds, refresh_token_expiry_seconds, refresh_claims_of,
}
use test_platform.Accounts.{
  User, UserTable, Bcrypt, approved, rejected, require_role, check_approval,
}
use test_platform.Accounts.Routes.{
  LoginRequest, LoginData, payload_of, login, authenticate, generate_token, token_expiry_seconds,
}
use test_platform.Accounts.Admin.{
  decide, set_role, approve_user, reject_user, change_role, as_admin,
}

module _ {U : Type 0} (users : UserTable U) where
  -- An approval succeeds exactly if an approved admin asks for it, for an account other than the
  -- admin's own that exists and is not approved. It then changes that account's row alone, which is
  -- approved by the admin; an approval that is refused changes nothing.
  pub approve_user_iff :
      (now id j : ℕ) (claims : TokenPayload) (u : U)
      → let result = as_admin users (λ actor. approve_user users now actor id) claims u in
        ((is_ok result.0 ≡ true) ↔ (
          (is_ok (require_role users (admin ∷ []) (some claims) u) ≡ true)
          × (id ≢ claims.user_id)
          × ((x : User) × (users.find_id id u ≡ some x) × (x.approval_status ≢ approved))))
        × (users.find_id j result.1 ≡ (
            if is_ok result.0 && j == id
            then Option.map (decide approved now claims.user_id) (users.find_id j u)
            else users.find_id j u))
  unfolding as_admin approve_user
  approve_user_iff now id j claims u = elim (Option-cases (users.find_id id u)) [
    | inl e ↦ ((λ h. ground (arith, e), λ w. ground (arith, e)), ground (arith, e))
    | inr (x, e) ↦ (
      (
        (λ h. (ground (arith, e), ground (arith, e), (x, e, ground (arith, e)))),
        λ w. ground (arith, e, w),
      ),
      ground (arith, e, users.find_id-update id j (decide approved now claims.user_id) u),
    )
  ]

  -- A rejection takes effect at once: with whatever token of an admin or a reviewer that the account
  -- has, no guarded route lets it in from then on.
  pub reject_user_locks_out :
      (now : ℕ) (claims old : TokenPayload) (roles : List Role) (u : U)
      → let result = as_admin users (λ actor. reject_user users now actor old.user_id) claims u in
        is_ok result.0 ≡ true
        → old.role ≢ candidate
        → is_ok (require_role users roles (some old) result.1) ≡ false
  unfolding as_admin reject_user require_role check_approval
  reject_user_locks_out now claims old roles u done staff =
      let id = old.user_id in
      elim (Option-cases (users.find_id id u)) [
        | inl e ↦ ground (arith, e)
        | inr (x, e) ↦ ground (
          arith,
          e,
          ==_refl id,
          users.find_id-update id id (decide rejected now claims.user_id) u,
        )
      ]

  -- A candidate who is made an admin or a reviewer is let in nowhere with the new role, until somebody
  -- approves the account.
  change_role-promoted :
      (actor : ℕ) (role : Role) (claims : TokenPayload) (x : User) (roles : List Role) (u : U)
      → users.find_id claims.user_id u ≡ some x
      → claims.user_id ≢ actor
      → x.role ≡ candidate
      → role ≢ candidate
      → claims.role ≢ candidate
      → is_ok (
          require_role users roles
            (some claims)
            (change_role users actor claims.user_id (some role) u).1)
        ≡ false
  unfolding change_role require_role check_approval
  change_role-promoted actor role claims x roles u found other was made staff =
      let id = claims.user_id in
      let row = users.find_id-update id id (set_role role) u in
      ground (arith, found, row, ==_refl id)

  -- An approved admin or reviewer keeps, after any change of the role, what the tokens of before open:
  -- the guard goes by the role in the token.
  pub change_role-require_role :
      (actor : ℕ) (role : Role) (old : TokenPayload) (x : User) (roles : List Role) (u : U)
      → users.find_id old.user_id u ≡ some x
      → old.user_id ≢ actor
      → x.role ≢ candidate
      → x.approval_status ≡ approved
      → require_role users roles (some old) (change_role users actor old.user_id (some role) u).1
        ≡ require_role users roles (some old) u
  unfolding change_role require_role check_approval
  change_role-require_role actor role old x roles u found other was fine =
      let id = old.user_id in
      let row = users.find_id-update id id (set_role role) u in
      ground (arith, found, row, ==_refl id)

module _ {U A B Token : Type 0} (users : UserTable U) (bcrypt : Bcrypt) (kv : Strings A)
    (ss : Sets B) (access jwt : Jwt Token) where
  login_tokens :
      (q : LoginRequest) (user : User) (d : LoginData Token) (u : U) (r : Store A B)
      → users.find_email q.email u ≡ some user
      → (login users bcrypt kv ss access jwt q u r).0 ≡ ok d
      → (d.access_token ≡ generate_access_token kv ss access jwt q.now (payload_of user))
        × (d.token ≡ generate_token users bcrypt kv ss access jwt q.now (payload_of user))
        × (d.refresh_token
            ≡ jwt.sign q.now
                (refresh_claims_of (payload_of user) q.token_id q.family_id)
                refresh_token_expiry_seconds)
  unfolding login generate_refresh_token
  login_tokens q user d u r found done = ground (arith, found)

  authenticate-sign :
      (t now ttl : ℕ) (c : Claims)
      → authenticate users bcrypt kv ss access jwt t (some (access.sign now c ttl))
        ≡ (if ltb (t / 1000) (now / 1000 + ttl) then ok c.payload else api_error 401)
  unfolding authenticate verify_access_token
  authenticate-sign t now ttl c = ground (arith, access.verify-sign t now c ttl)

  -- The tokens that a login answers with authenticate the account that logged in, and it alone: the
  -- access token for a day, the token for older clients for a week.
  pub login-authenticate :
      (q : LoginRequest) (user : User) (t : ℕ) (d : LoginData Token) (u : U) (r : Store A B)
      → users.find_email q.email u ≡ some user
      → (login users bcrypt kv ss access jwt q u r).0 ≡ ok d
      → let check = authenticate users bcrypt kv ss access jwt t in
        (check (some d.access_token) ≡ (
          if ltb (t / 1000) (q.now / 1000 + access_token_expiry_seconds)
          then ok (payload_of user)
          else api_error 401))
        × (check (some d.token) ≡ (
            if ltb (t / 1000) (q.now / 1000 + token_expiry_seconds)
            then ok (payload_of user)
            else api_error 401))
  unfolding generate_access_token generate_token
  login-authenticate q user t d u r found done =
      let made = login_tokens q user d u r found done in
      let plain : Claims = record { payload = payload_of user; refresh_claims = none } in
      (
        rw (made.0) (authenticate-sign t q.now access_token_expiry_seconds plain),
        rw (made.1) (authenticate-sign t q.now token_expiry_seconds plain),
      )

module _ {U A B Token : Type 0} (users : UserTable U) (bcrypt : Bcrypt) (kv : Strings A)
    (ss : Sets B) (secret : Jwt Token) where
  -- Where both kinds of tokens are signed under one secret, as when `JWT_REFRESH_SECRET` is not set, the
  -- refresh token of a login passes `authenticate` for seven days as if it were an access token.
  pub refresh_token_authenticates :
      (q : LoginRequest) (user : User) (t : ℕ) (d : LoginData Token) (u : U) (r : Store A B)
      → users.find_email q.email u ≡ some user
      → (login users bcrypt kv ss secret secret q u r).0 ≡ ok d
      → t < (q.now / 1000 + refresh_token_expiry_seconds) * 1000
      → authenticate users bcrypt kv ss secret secret t (some d.refresh_token)
        ≡ ok (payload_of user)
  refresh_token_authenticates q user t d u r found done early =
      let made = login_tokens users bcrypt kv ss secret secret q user d u r found done in
      let claims = refresh_claims_of (payload_of user) q.token_id q.family_id in
      ground (
        arith,
        made.2,
        authenticate-sign users bcrypt kv ss secret secret t q.now refresh_token_expiry_seconds
            claims,
      )
