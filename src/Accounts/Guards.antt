-- ===== src/Accounts/Guards.antt =====
-- Who passes the guards of middleware/auth.ts, and which accounts a registration approves.
use test_platform.Base.{
  if◌then◌else◌, ◌≡◌, refl, ◌↔◌, ◌⊎◌, inl, inr, Bool, true, Option, none, some, List, arith, any,
  ok, api_error, is_ok, ◌≢◌, is_some,
}
use test_platform.Redis.Keys.{Role, admin, candidate, reviewer}
use test_platform.Tokens.{Jwt, generate_access_token, generate_refresh_token, TokenPayload}
use test_platform.Redis.{Strings, Sets, Store}
use test_platform.Accounts.{
  approved, rejected, User, UserTable, Bcrypt, role_eq, require_role, new_account, initial_status,
}
use test_platform.Accounts.Routes.{Registration, payload_of, generate_token, register}

module _ {U : Type 0} (users : UserTable U) where
  -- Why a user is let through: the token's role is one of the roles, and a token of an admin or a
  -- reviewer belongs to an account that is approved now.
  abbrev pub Admitted : List Role → TokenPayload → U → Type 0
  Admitted roles claims u =
      (any (role_eq claims.role) roles ≡ true)
      × ((claims.role ≡ candidate)
          ⊎ ((user : User) × (users.find_id claims.user_id u ≡ some user)
              × (user.approval_status ≡ approved)))

  require_role_sound :
      (roles : List Role) (claims : TokenPayload) (u : U)
      → is_ok (require_role users roles (some claims) u) ≡ true
      → Admitted roles claims u
  unfolding require_role
  require_role_sound roles claims u h = (ground arith, of_role claims.role refl)
    where
      approved_now :
          (role : Role)
          → claims.role ≡ role
          → role ≢ candidate
          → (o : Option User) → users.find_id claims.user_id u ≡ o
          → (user : User) × (users.find_id claims.user_id u ≡ some user)
            × (user.approval_status ≡ approved)
      approved_now role e staff none missing = absurd (ground arith)
      approved_now role e staff (some user) found = (user, found, ground arith)

      of_role :
          (role : Role)
          → claims.role ≡ role
          → (claims.role ≡ candidate)
            ⊎ ((user : User) × (users.find_id claims.user_id u ≡ some user)
                × (user.approval_status ≡ approved))
      of_role candidate e = inl e
      of_role role e = inr (approved_now role e (λ q. cc) (users.find_id claims.user_id u) refl)

  -- `requireRole` lets a request through exactly if it is authenticated, its role is one of those
  -- required, and an admin or a reviewer has an account that is approved at that moment.
  pub require_role_iff :
      (roles : List Role) (user : Option TokenPayload) (u : U)
      → (is_ok (require_role users roles user u) ≡ true)
        ↔ ((claims : TokenPayload) × (user ≡ some claims) × Admitted roles claims u)
  unfolding require_role
  require_role_iff roles none u = (λ h. cc, λ w. cc (w.1))
  require_role_iff roles (some claims) u =
      (λ h. (claims, refl, require_role_sound roles claims u h), λ w. ground arith)

  initial_status_iff :
      (role : Role) (bootstrap : Bool) (u : U)
      → (initial_status users role bootstrap u ≡ approved) ↔ (
          (role ≡ candidate)
          ⊎ ((role ≡ admin) × (bootstrap ≡ true) × (users.approved_admins u ≡ 0)))
  unfolding initial_status
  initial_status_iff candidate bootstrap u = ((λ h. inl refl), λ w. refl)
  initial_status_iff admin bootstrap u = ((λ h. inr (ground arith)), λ w. ground arith)
  initial_status_iff reviewer bootstrap u = ((λ h. cc), λ w. ground arith)

  initial_status-ne-rejected :
      (role : Role) (bootstrap : Bool) (u : U) → initial_status users role bootstrap u ≢ rejected
  unfolding initial_status
  initial_status-ne-rejected candidate bootstrap u = ground arith
  initial_status-ne-rejected role bootstrap u = ground arith

  -- A registration for an address that has an account is refused and changes nothing. Any other
  -- stores the one account that it answers with, which is the requested one under the hash of the
  -- password, and its tokens are for that account. The account is approved exactly if it is a
  -- candidate's, or an admin's where the bootstrap is enabled and there is no approved admin; it is
  -- never stored as rejected.
  pub register_lem :
      {A B Token : Type 0} (bcrypt : Bcrypt) (kv : Strings A) (ss : Sets B) (access jwt : Jwt Token)
      (q : Registration) (u : U) (r : Store A B)
      → let user =
          new_account users bcrypt q.now q.bootstrap q.id q.email q.password q.name q.role u in
        let result = register users bcrypt kv ss access jwt q u r in
        let (refresh_token, r') =
          generate_refresh_token kv ss access jwt q.now q.token_id q.family_id
            (payload_of user)
            r in
        (result ≡ (
          if is_some (users.find_email q.email u) then (api_error 400, u, r) else (
            ok (record {
              user = user;
              token = generate_token users bcrypt kv ss access jwt q.now (payload_of user);
              access_token = generate_access_token kv ss access jwt q.now (payload_of user);
              refresh_token = refresh_token;
            }),
            users.insert user u,
            r',
          )))
        × ((user.approval_status ≡ approved) ↔ (
            (user.role ≡ candidate)
            ⊎ ((user.role ≡ admin) × (q.bootstrap ≡ true) × (users.approved_admins u ≡ 0))))
        × (user.approval_status ≢ rejected)
        × (bcrypt.compare q.password user.password ≡ true)
  unfolding register new_account
  register_lem bcrypt kv ss access jwt q u r =
      let role : Role = elim q.role [ none ↦ candidate | some given ↦ given ] in
      (
        ground arith,
        initial_status_iff role q.bootstrap u,
        initial_status-ne-rejected role q.bootstrap u,
        bcrypt.compare-hash q.password,
      )
