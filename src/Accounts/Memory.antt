-- ===== src/Accounts/Memory.antt =====
-- A table of users in memory and a hash that is the password itself, which show that the laws of
-- `UserTable` and `Bcrypt` can be met. Examples run on them.
use mathlib.Core.Option
use test_platform.Base.{
  ℕ, ◌+◌, ◌≡◌, ◌&&◌, Option, none, some, List, [], ◌∷◌, arith, ◌==◌, if◌then◌else◌, text_eq,
  text_eq_refl,
}
use test_platform.Redis.Keys.{admin}
use test_platform.Accounts.{User, UserTable, Bcrypt, role_eq, is_approved}

-- The rows with their keys.
abbrev pub Accounts : Type 0
Accounts = List (ℕ × User)

abbrev pub find_row : ℕ → Accounts → Option User
find_row j [] = none
find_row j ((i, x) ∷ u) = if j == i then some x else find_row j u

abbrev pub find_address : ℕ → Accounts → Option User
find_address email [] = none
find_address email ((i, x) ∷ u) = if x.email == email then some x else find_address email u

abbrev pub count_admins : Accounts → ℕ
count_admins [] = 0
count_admins ((i, x) ∷ u) =
    if role_eq x.role admin && is_approved x.approval_status
    then count_admins u + 1
    else count_admins u

abbrev pub update_row : ℕ → (User → User) → Accounts → Accounts
update_row i f [] = []
update_row i f ((j, x) ∷ u) = (j, if j == i then f x else x) ∷ update_row i f u

pub find-insert_row :
    (j : ℕ) (x : User) (u : Accounts)
    → find_row j ((x.id, x) ∷ u) ≡ (if j == x.id then some x else find_row j u)
find-insert_row j x u = ground arith

pub find-update_row :
    (i j : ℕ) (f : User → User) (u : Accounts)
    → find_row j (update_row i f u) ≡ (if j == i then Option.map f (find_row j u) else find_row j u)
find-update_row i j f [] = ground arith
find-update_row i j f ((k, x) ∷ u) = ground (arith, find-update_row i j f u)

abbrev pub users : UserTable Accounts
users = record {
  find_id = find_row;
  find_email = find_address;
  approved_admins = count_admins;
  insert = λ x u. (x.id, x) ∷ u;
  update = update_row;
  find_id-insert = find-insert_row;
  find_id-update = find-update_row;
}

abbrev pub bcrypt : Bcrypt
bcrypt = record { hash = λ p. p; compare = text_eq; compare-hash = text_eq_refl }
