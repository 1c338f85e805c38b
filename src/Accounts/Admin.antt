-- ===== src/Accounts/Admin.antt =====
-- The routes of apps/api/src/routes/admin-users.ts that change an account: approve, reject, change the
-- role. Each runs behind `authenticate`, which gives the claims of the caller's token, and
-- `requireRole('ADMIN')`. A call is one step. The lists and the counts, which change nothing, are left
-- out, and so is the column `updatedAt`.
use test_platform.Base.{
  ℕ, Bool, true, ◌&&◌, ◌||◌, Option, none, some, List, [], ◌∷◌, if◌then◌else◌, ◌==◌, Reply, ok,
  api_error,
}
use test_platform.Redis.{Strings, Sets, Store}
use test_platform.Redis.Keys.{Role, admin, candidate, reviewer}
use test_platform.Tokens.{TokenPayload, Jwt}
use test_platform.Accounts.{
  User, UserTable, Bcrypt, Approval, pending, approved, rejected, role_eq, is_approved,
  require_role,
}
use test_platform.Accounts.Routes.{Registration, register}

abbrev pub is_rejected : Approval → Bool
is_rejected rejected = true
is_rejected pending = Bool.false
is_rejected approved = Bool.false

-- The writes of the three routes to the row.
abbrev pub decide : Approval → ℕ → ℕ → User → User
decide status now actor x = record x {
  approval_status = status;
  approved_by = some actor;
  approved_at = some now;
}

abbrev pub set_role : Role → User → User
set_role role x = record x {
  role = role;
  approval_status =
      if (role_eq role admin || role_eq role reviewer) && role_eq x.role candidate
      then pending
      else x.approval_status;
}

module _ {U : Type 0} (users : UserTable U) where
  -- What a route does with the row of the account, once it is found.
  unfoldable pub approve_user : ℕ → ℕ → ℕ → U → Reply User × U
  approve_user now actor id u =
      if id == actor then (api_error 400, u) else elim (users.find_id id u) [
        | none ↦ (api_error 404, u)
        | some x ↦
            if is_approved x.approval_status
            then (api_error 400, u)
            else (ok (decide approved now actor x), users.update id (decide approved now actor) u)
      ]

  unfoldable pub reject_user : ℕ → ℕ → ℕ → U → Reply User × U
  reject_user now actor id u =
      if id == actor then (api_error 400, u) else elim (users.find_id id u) [
        | none ↦ (api_error 404, u)
        | some x ↦
            if is_rejected x.approval_status
            then (api_error 400, u)
            else (ok (decide rejected now actor x), users.update id (decide rejected now actor) u)
      ]

  -- The role is that of the body, or `none` if it is missing or not one of the three.
  unfoldable pub change_role : ℕ → ℕ → Option Role → U → Reply User × U
  change_role actor id none u = (api_error 400, u)
  change_role actor id (some role) u =
      if id == actor then (api_error 400, u) else elim (users.find_id id u) [
        | none ↦ (api_error 404, u)
        | some x ↦ (ok (set_role role x), users.update id (set_role role) u)
      ]

  -- `requireRole('ADMIN')` in front of a route.
  unfoldable pub as_admin : (ℕ → U → Reply User × U) → TokenPayload → U → Reply User × U
  as_admin route claims u = elim (require_role users (admin ∷ []) (some claims) u) [
    | api_error code ↦ (api_error code, u)
    | ok _ ↦ route claims.user_id u
  ]

-- The requests that change the table of users.
pub data Request (A B : Type 0) : Type 0 where
  registers : Registration → Store A B → Request A B
  approves : ℕ → TokenPayload → ℕ → Request A B
  rejects : ℕ → TokenPayload → ℕ → Request A B
  changes_role : TokenPayload → ℕ → Option Role → Request A B

module _ {U A B Token : Type 0} (users : UserTable U) (bcrypt : Bcrypt) (kv : Strings A)
    (ss : Sets B) (access jwt : Jwt Token) where
  unfoldable pub step : Request A B → U → U
  step (registers q r) u = (register users bcrypt kv ss access jwt q u r).1
  step (approves now claims id) u =
      (as_admin users (λ actor. approve_user users now actor id) claims u).1
  step (rejects now claims id) u =
      (as_admin users (λ actor. reject_user users now actor id) claims u).1
  step (changes_role claims id role) u =
      (as_admin users (λ actor. change_role users actor id role) claims u).1

  unfoldable pub run : List (Request A B) → U → U
  run [] u = u
  run (q ∷ qs) u = run qs (step q u)
