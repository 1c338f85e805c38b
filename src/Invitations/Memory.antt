-- ===== src/Invitations/Memory.antt =====
-- A table of invitations in memory, which shows that the laws of `InvitationTable` can be met.
use mathlib.Core.Option
use test_platform.Base.{
  Bool, true, false, not, ◌&&◌, ◌||◌, ℕ, ◌≡◌, refl, Option, none, some, List, [], ◌∷◌, arith, ◌==◌,
  if◌then◌else◌, map,
}
use test_platform.Invitations.{Invitation, InvitationTable}

abbrev pub Invites : Type 0
Invites = List Invitation

abbrev find_row : ℕ → Invites → Option Invitation
find_row k [] = none
find_row k (v ∷ vs) = if k == v.token then some v else find_row k vs

abbrev update_rows : ℕ → (Invitation → Invitation) → Invites → Invites
update_rows i f = map (λ v. if v.id == i then f v else v)

pub find_row-update_rows :
    (k i : ℕ) (f : Invitation → Invitation) (t : Invites)
    → ((v : Invitation) → (f v).token ≡ v.token)
    → find_row k (update_rows i f t) ≡ Option.map (λ v. if v.id == i then f v else v) (find_row k t)
find_row-update_rows k i f [] keeps = refl
find_row-update_rows k i f (v ∷ vs) keeps =
    ground (arith, keeps v, find_row-update_rows k i f vs keeps)

pub find_row-insert :
    (k : ℕ) (v : Invitation) (t : Invites)
    → find_row k (v ∷ t) ≡ (if k == v.token then some v else find_row k t)
find_row-insert k v t = refl

abbrev delete_rows : ℕ → Invites → Invites
delete_rows x [] = []
delete_rows x (v ∷ vs) = if v.exam_id == x then delete_rows x vs else v ∷ delete_rows x vs

abbrev refers_row : ℕ → Invites → Bool
refers_row x [] = false
refers_row x (v ∷ vs) = v.exam_id == x || refers_row x vs

pub refers_row-update_rows :
    (x i : ℕ) (f : Invitation → Invitation) (t : Invites)
    → ((v : Invitation) → (f v).exam_id ≡ v.exam_id)
    → refers_row x (update_rows i f t) ≡ refers_row x t
refers_row-update_rows x i f [] keeps = refl
refers_row-update_rows x i f (v ∷ vs) keeps =
    ground (arith, keeps v, refers_row-update_rows x i f vs keeps)

pub refers_row-delete_rows :
    (x y : ℕ) (t : Invites) → refers_row x (delete_rows y t) ≡ (not (x == y) && refers_row x t)
refers_row-delete_rows x y [] = ground arith
refers_row-delete_rows x y (v ∷ vs) = ground (arith, refers_row-delete_rows x y vs)

pub refers_row_of_find_row :
    (k : ℕ) (v : Invitation) (t : Invites) → find_row k t ≡ some v → refers_row v.exam_id t ≡ true
refers_row_of_find_row k v [] h = absurd (cc h)
refers_row_of_find_row k v (w ∷ vs) h = ground (arith, refers_row_of_find_row k v vs)

pub refers_row-insert :
    (x : ℕ) (v : Invitation) (t : Invites)
    → refers_row x (v ∷ t) ≡ (v.exam_id == x || refers_row x t)
refers_row-insert x v t = refl

abbrev pub invites : InvitationTable Invites
invites = record {
  find_token = find_row;
  insert = λ v t. v ∷ t;
  update = update_rows;
  find_token-insert = find_row-insert;
  find_token-update = find_row-update_rows;
  delete_of_exam = delete_rows;
  refers_to = refers_row;
  refers_to-insert = refers_row-insert;
  refers_to-update = refers_row-update_rows;
  refers_to-delete_of_exam = refers_row-delete_rows;
  refers_to_of_find_token = refers_row_of_find_row;
}
