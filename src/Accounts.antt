-- ===== src/Accounts.antt =====
-- User accounts: the table `users` of packages/database/src/schema.ts, the guards of
-- apps/api/src/middleware/auth.ts and the account that `POST /register` of routes/auth.ts creates. The
-- table and the package bcrypt are parameters. `Routes` has the routes of routes/auth.ts, `Admin`
-- those of routes/admin-users.ts.
pub mod Access
pub mod Admin
pub mod AdminTests
pub mod Guards
pub mod Memory
pub mod Routes
pub mod Vouching
pub mod Passwords
pub mod Tests
use mathlib.Core.Option
use test_platform.Base.{
  ℕ, ◌≡◌, Bool, true, false, ◌&&◌, ◌||◌, not, Option, none, some, List, if◌then◌else◌, any, Reply,
  ok, api_error, ◌==◌,
}
use test_platform.Redis.Keys.{Role, admin, candidate, reviewer}
use test_platform.Tokens.{TokenPayload}

-- `approvalStatusEnum` and the table `users` of packages/database/src/schema.ts.
pub data Approval : Type 0 where
  pending approved rejected : Approval

pub record User : Type 0 where
  pub id : ℕ
  pub email : ℕ
  pub password : List ℕ
  pub name : ℕ
  pub role : Role
  pub approval_status : Approval
  pub approved_by : Option ℕ
  pub approved_at : Option ℕ

abbrev pub role_eq : Role → Role → Bool
role_eq admin admin = true
role_eq candidate candidate = true
role_eq reviewer reviewer = true
role_eq _ _ = false

abbrev pub is_approved : Approval → Bool
is_approved approved = true
is_approved _ = false

-- The table `users` in the state `U`: SELECT by key and by address, the count of approved admins,
-- INSERT, and UPDATE by key.
pub record UserTable (U : Type 0) : Type 0 where
  pub find_id : ℕ → U → Option User
  pub find_email : ℕ → U → Option User
  pub approved_admins : U → ℕ
  pub insert : User → U → U
  pub update : ℕ → (User → User) → U → U
  pub find_id-insert :
      (j : ℕ) (x : User) (u : U)
      → find_id j (insert x u) ≡ (if j == x.id then some x else find_id j u)
  pub find_id-update :
      (i j : ℕ) (f : User → User) (u : U)
      → find_id j (update i f u) ≡ (if j == i then Option.map f (find_id j u) else find_id j u)

-- The package bcrypt; its rounds are part of `hash`.
pub record Bcrypt : Type 0 where
  pub hash : List ℕ → List ℕ
  pub compare : List ℕ → List ℕ → Bool
  pub compare-hash : (password : List ℕ) → compare password (hash password) ≡ true

module _ {U : Type 0} (users : UserTable U) where
  -- The test of `requireRole` once the role is known to be admin or reviewer: a status other than
  -- these three would pass, and the enumeration has none.
  unfoldable pub check_approval : ℕ → U → Reply (Unit {0})
  check_approval user_id u = elim (users.find_id user_id u) [
    | none ↦ api_error 404
    | some user ↦ elim user.approval_status [
      | approved ↦ ok tt
      | pending ↦ api_error 403
      | rejected ↦ api_error 403
    ]
  ]

  -- The argument is `req.user`, which `authenticate` sets from the token.
  unfoldable pub require_role : List Role → Option TokenPayload → U → Reply (Unit {0})
  unfolding check_approval
  require_role roles none u = api_error 401
  require_role roles (some user) u =
      if any (role_eq user.role) roles
      then if role_eq user.role admin || role_eq user.role reviewer
        then check_approval user.user_id u
        else ok tt
      else api_error 403

  unfoldable pub require_approved : Option TokenPayload → U → Reply (Unit {0})
  require_approved none u = api_error 401
  require_approved (some claims) u = elim (users.find_id claims.user_id u) [
    | none ↦ api_error 404
    | some user ↦
        if not (role_eq user.role candidate) && not (is_approved user.approval_status)
        then api_error 403
        else ok tt
  ]

  -- The approval status of a new account.
  unfoldable pub initial_status : Role → Bool → U → Approval
  initial_status candidate bootstrap u = approved
  initial_status reviewer bootstrap u = pending
  initial_status admin bootstrap u =
      if users.approved_admins u == 0 && bootstrap then approved else pending

  -- The account that `POST /register` creates, with the flag `ALLOW_FIRST_ADMIN_BOOTSTRAP`. The role
  -- is the body's, or candidate.
  unfoldable pub new_account : Bcrypt → ℕ → Bool → ℕ → ℕ → List ℕ → ℕ → Option Role → U → User
  new_account bcrypt now bootstrap id email password name role u =
      let r : Role = elim role [ none ↦ candidate | some given ↦ given ] in
      record {
        id = id;
        email = email;
        password = bcrypt.hash password;
        name = name;
        role = r;
        approval_status = initial_status r bootstrap u;
        approved_by = none;
        approved_at = if role_eq r candidate then some now else none;
      }
