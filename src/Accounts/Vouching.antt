-- ===== src/Accounts/Vouching.antt =====
-- Who may act as an admin or a reviewer: what the routes of routes/admin-users.ts and the registration
-- leave in the table of users.
use test_platform.Base.{
  ℕ, ◌≡◌, inl, inr, Bool, true, false, ◌&&◌, ◌||◌, not, Option, none, some, List, [], ◌∷◌, arith,
  ◌==◌, Reply, All, Option-cases, Bool-cases,
}
use test_platform.Redis.{Strings, Sets, Store}
use test_platform.Redis.Keys.{Role, admin, candidate, reviewer}
use test_platform.Tokens.{TokenPayload, Jwt}
use test_platform.Accounts.{
  User, UserTable, Bcrypt, approved, rejected, role_eq, is_approved, new_account, initial_status,
}
use test_platform.Accounts.Routes.{Registration, register}
use test_platform.Accounts.Admin.{
  decide, set_role, approve_user, reject_user, change_role, as_admin, Request, registers, approves,
  rejects, changes_role, step, run,
}

abbrev pub is_staff : User → Bool
is_staff x = not (role_eq x.role candidate)

-- Somebody other than the account with this key has decided on it.
abbrev pub decided_by_another : ℕ → User → Bool
decided_by_another id x = elim x.approved_by [ none ↦ false | some b ↦ not (b == id) ]

abbrev pub vouched_row : ℕ → Option User → Bool
vouched_row id none = true
vouched_row id (some x) =
    not (is_staff x && is_approved x.approval_status) || decided_by_another id x

-- Only the bootstrap of the first admin lets a registration approve a member of the staff.
abbrev pub no_bootstrap : {A B : Type 0} → Request A B → Bool
no_bootstrap (registers q r) = not q.bootstrap
no_bootstrap (approves now claims id) = true
no_bootstrap (rejects now claims id) = true
no_bootstrap (changes_role claims id role) = true

module _ {U : Type 0} (users : UserTable U) where
  -- Every approved admin and reviewer was approved by another account.
  abbrev pub Vouched : U → Type 0
  Vouched u = (id : ℕ) → vouched_row id (users.find_id id u) ≡ true

  vouched_update :
      (i j : ℕ) (f : User → User) (u : U)
      → vouched_row j (users.find_id j u) ≡ true
      → ((x : User)
          → vouched_row j (some x) ≡ true
          → (j == i) ≡ true
          → vouched_row j (some (f x)) ≡ true)
      → vouched_row j (users.find_id j (users.update i f u)) ≡ true
  vouched_update i j f u before keeps = elim (Option-cases (users.find_id j u)) [
    | inl e ↦ ground (arith, e, users.find_id-update i j f u)
    | inr (x, e) ↦ ground (arith, e, users.find_id-update i j f u, keeps x)
  ]

  approve-vouched :
      (now actor id j : ℕ) (u : U)
      → vouched_row j (users.find_id j u) ≡ true
      → vouched_row j (users.find_id j (approve_user users now actor id u).1) ≡ true
  unfolding approve_user
  approve-vouched now actor id j u before = elim (Bool-cases (id == actor)) [
    | inl self ↦ ground (arith, self)
    | inr other ↦
        ground (
          arith,
          vouched_update id j (decide approved now actor) u before (λ x v same. ground arith),
        )
  ]

  reject-vouched :
      (now actor id j : ℕ) (u : U)
      → vouched_row j (users.find_id j u) ≡ true
      → vouched_row j (users.find_id j (reject_user users now actor id u).1) ≡ true
  unfolding reject_user
  reject-vouched now actor id j u before =
      ground
        (arith, vouched_update id j (decide rejected now actor) u before (λ x v same. ground arith))

  set_role-vouched :
      (role : Role) (j : ℕ) (x : User)
      → vouched_row j (some x) ≡ true
      → vouched_row j (some (set_role role x)) ≡ true
  set_role-vouched admin j x v = ground arith
  set_role-vouched candidate j x v = ground arith
  set_role-vouched reviewer j x v = ground arith

  change_role-vouched :
      (actor id : ℕ) (role : Option Role) (j : ℕ) (u : U)
      → vouched_row j (users.find_id j u) ≡ true
      → vouched_row j (users.find_id j (change_role users actor id role u).1) ≡ true
  unfolding change_role
  change_role-vouched actor id none j u before = before
  change_role-vouched actor id (some role) j u before = ground (
    arith,
    vouched_update id j (set_role role) u before (λ x v same. set_role-vouched role j x v),
  )

  as_admin-vouched :
      (route : ℕ → U → Reply User × U) (claims : TokenPayload) (j : ℕ) (u : U)
      → vouched_row j (users.find_id j u) ≡ true
      → vouched_row j (users.find_id j (route claims.user_id u).1) ≡ true
      → vouched_row j (users.find_id j (as_admin users route claims u).1) ≡ true
  unfolding as_admin
  as_admin-vouched route claims j u before after = ground arith

  -- A registration without the bootstrap makes no approved member of the staff.
  new_account-vouched :
      (bcrypt : Bcrypt) (q : Registration) (j : ℕ) (u : U)
      → q.bootstrap ≡ false
      → vouched_row j (
          some (new_account users bcrypt q.now q.bootstrap q.id q.email q.password q.name q.role u))
        ≡ true
  unfolding new_account initial_status
  new_account-vouched bcrypt q j u off = ground arith

module _ {U A B Token : Type 0} (users : UserTable U) (bcrypt : Bcrypt) (kv : Strings A)
    (ss : Sets B) (access jwt : Jwt Token) where
  register-vouched :
      (q : Registration) (r : Store A B) (j : ℕ) (u : U)
      → q.bootstrap ≡ false
      → vouched_row j (users.find_id j u) ≡ true
      → vouched_row j (users.find_id j (register users bcrypt kv ss access jwt q u r).1) ≡ true
  unfolding register
  register-vouched q r j u off before =
      let x = new_account users bcrypt q.now q.bootstrap q.id q.email q.password q.name q.role u in
      ground (arith, users.find_id-insert j x u, new_account-vouched users bcrypt q j u off)

  step-vouched :
      (q : Request A B) (j : ℕ) (u : U)
      → no_bootstrap q ≡ true
      → vouched_row j (users.find_id j u) ≡ true
      → vouched_row j (users.find_id j (step users bcrypt kv ss access jwt q u)) ≡ true
  unfolding step
  step-vouched (registers q r) j u off v = register-vouched q r j u (ground arith) v
  step-vouched (approves now claims id) j u off v =
      as_admin-vouched users (λ actor. approve_user users now actor id) claims j u v
        (approve-vouched users now claims.user_id id j u v)
  step-vouched (rejects now claims id) j u off v =
      as_admin-vouched users (λ actor. reject_user users now actor id) claims j u v
        (reject-vouched users now claims.user_id id j u v)
  step-vouched (changes_role claims id role) j u off v =
      as_admin-vouched users (λ actor. change_role users actor id role) claims j u v
        (change_role-vouched users claims.user_id id role j u v)

  -- While the bootstrap is off, whatever requests to register, approve, reject and change roles arrive,
  -- and in whatever order: if every approved admin and reviewer was decided on by another account, so
  -- is every one of them afterwards. Nobody gets there by a registration, by an approval of their own
  -- or by a change of role.
  pub run-Vouched :
      (qs : List (Request A B)) (u : U)
      → All (λ q. no_bootstrap q ≡ true) qs
      → Vouched users u
      → Vouched users (run users bcrypt kv ss access jwt qs u)
  unfolding run
  run-Vouched [] u off v = v
  run-Vouched (q ∷ qs) u off v =
      run-Vouched qs (step users bcrypt kv ss access jwt q u) off.1
        (λ j. step-vouched q j u off.0 (v j))
