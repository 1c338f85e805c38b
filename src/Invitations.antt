-- ===== src/Invitations.antt =====
-- The invitations of apps/api/src/routes/exams.ts: an admin invites an address to an exam, and whoever has
-- the token and the address enters the exam by it. Addresses are texts of ASCII letters. The table of
-- invitations is an interface; the identifiers and the token that are drawn, and the time, are arguments.
-- A handler is one step.
pub mod Memory
pub mod Entering
pub mod Unchecked
pub mod Concurrent
pub mod Tests
use test_platform.Base.{
  ℕ, ◌+◌, ◌*◌, ◌≡◌, Bool, true, false, ◌&&◌, ◌||◌, not, Option, none, some, List, [], ◌∷◌, map, any,
  if◌then◌else◌, ◌==◌, ltb, leb, text_eq, all, is_some, Reply, ok, api_error,
}
use mathlib.Core.Option
use test_platform.Platform.{Attempt, Challenge, Exam, AttemptTable}
use test_platform.Attempts.{new_attempt, belongs}

abbrev pub Text : Type 0
Text = List ℕ

-- `examInvitations`. The address is `none` where the column holds no text or an empty one.
pub record Invitation : Type 0 where
  pub id : ℕ
  pub exam_id : ℕ
  pub email : Option Text
  pub token : ℕ
  pub used_at : Option ℕ
  pub expires_at : Option ℕ

-- The table `exam_invitations` in the state `I`: SELECT by token, INSERT, UPDATE by key, and DELETE of
-- the rows of an exam; `refers_to` tells whether a row is of the exam. The tokens are unique.
pub record InvitationTable (I : Type 0) : Type 0 where
  pub find_token : ℕ → I → Option Invitation
  pub insert : Invitation → I → I
  pub update : ℕ → (Invitation → Invitation) → I → I
  pub delete_of_exam : ℕ → I → I
  pub refers_to : ℕ → I → Bool
  pub find_token-insert :
      (k : ℕ) (v : Invitation) (t : I)
      → find_token k (insert v t) ≡ (if k == v.token then some v else find_token k t)
  pub find_token-update :
      (k i : ℕ) (f : Invitation → Invitation) (t : I)
      → ((v : Invitation) → (f v).token ≡ v.token)
      → find_token k (update i f t)
        ≡ Option.map (λ v. if v.id == i then f v else v) (find_token k t)
  pub refers_to-insert :
      (x : ℕ) (v : Invitation) (t : I)
      → refers_to x (insert v t) ≡ (v.exam_id == x || refers_to x t)
  pub refers_to-update :
      (x i : ℕ) (f : Invitation → Invitation) (t : I)
      → ((v : Invitation) → (f v).exam_id ≡ v.exam_id)
      → refers_to x (update i f t) ≡ refers_to x t
  pub refers_to-delete_of_exam :
      (x y : ℕ) (t : I) → refers_to x (delete_of_exam y t) ≡ (not (x == y) && refers_to x t)
  pub refers_to_of_find_token :
      (k : ℕ) (v : Invitation) (t : I) → find_token k t ≡ some v → refers_to v.exam_id t ≡ true

-- `toLowerCase` on ASCII.
abbrev pub to_lower : Text → Text
to_lower = map (λ c. if leb 65 c && leb c 90 then c + 32 else c)

abbrev pub is_space : ℕ → Bool
is_space c = c == 32 || leb 9 c && leb c 13

abbrev pub at_sign : ℕ
at_sign = 64

abbrev pub period : ℕ
period = 46

-- A character of the class `[^\s@]`.
abbrev pub is_plain : ℕ → Bool
is_plain c = not (is_space c || c == at_sign)

-- A period inside of a text, not at its end.
abbrev pub has_inner_period : Text → Bool
has_inner_period [] = false
has_inner_period (c ∷ s) = let rest = has_inner_period s in c == period && not_empty s || rest
  where
    not_empty : Text → Bool
    not_empty [] = false
    not_empty (x ∷ xs) = true

-- `[^\s@]+\.[^\s@]+$`, where the class has the period too.
abbrev pub matches_domain : Text → Bool
matches_domain [] = false
matches_domain (c ∷ s) = all is_plain (c ∷ s) && has_inner_period s

-- The expression of the route for an address, after at least one character or at the start.
abbrev pub matches_email : Bool → Text → Bool
matches_email started [] = false
matches_email started (c ∷ s) =
    let rest = matches_email true s in
    if c == at_sign then started && matches_domain s else is_plain c && rest

-- `invitation.expiresAt && new Date(invitation.expiresAt) < new Date()`.
abbrev pub is_expired : ℕ → Invitation → Bool
is_expired now v = elim v.expires_at [ none ↦ false | some t ↦ ltb t now ]

-- The address of the invitation against the user's, where an address may be required.
abbrev pub check_email : Bool → Option Text → Text → Reply (Unit {0})
check_email required (some email) user_email =
    if text_eq (to_lower email) (to_lower user_email) then ok tt else api_error 403
check_email required none user_email = if required then api_error 400 else ok tt

abbrev pub mark_used : ℕ → Invitation → Invitation
mark_used now v = record v { used_at = some now }

-- The time until an invitation expires: hours, or seven days.
abbrev pub lifetime : Option ℕ → ℕ
lifetime none = 7 * 24 * 60 * 60 * 1000
lifetime (some hours) = if hours == 0 then 7 * 24 * 60 * 60 * 1000 else hours * 60 * 60 * 1000

abbrev pub new_invitation : ℕ → ℕ → ℕ → ℕ → Text → Option ℕ → Invitation
new_invitation now id token exam_id email expires_in = record {
  id = id;
  exam_id = exam_id;
  email = some email;
  token = token;
  used_at = none;
  expires_at = some (now + lifetime expires_in);
}

-- The attempt that a user enters: one that was there, or a new one.
pub data Entered : Type 0 where
  resumes starts : ℕ → Entered

module _ {I T : Type 0} (invitations : InvitationTable I) (table : AttemptTable T)
    (exam_of : ℕ → Option Exam) (required : Bool) where
  -- The end of the route for a user without an attempt. The invitation is marked before the files of a
  -- missing challenge throw.
  unfoldable pub enter_exam : ℕ → ℕ → ℕ → Invitation → I × T → Reply Entered × (I × T)
  enter_exam now id user_id v (i, attempts) =
      let i' = invitations.update v.id (mark_used now) i in
      elim (exam_of v.exam_id) [
        | none ↦ (api_error 500, (i', attempts))
        | some e ↦ elim e.challenge [
          | none ↦ (api_error 500, (i', attempts))
          | some c ↦
              let a : Attempt = new_attempt now id v.exam_id user_id c.starter_files in
              (ok (starts id), (i', table.insert a attempts))
        ]
      ]

  -- The route once the address is the user's.
  unfoldable pub accept_bound : ℕ → ℕ → ℕ → Invitation → I × T → Reply Entered × (I × T)
  accept_bound now id user_id v s =
      if is_expired now v
      then (api_error 410, s)
      else if is_some v.used_at
      then (api_error 400, s)
      else elim (table.select (belongs v.exam_id user_id) s.1) [
        | [] ↦ enter_exam now id user_id v s
        | a ∷ _ ↦ (ok (resumes a.id), s)
      ]

  -- `POST /invite/:token/accept`.
  unfoldable pub accept_invitation : ℕ → ℕ → ℕ → Text → ℕ → I × T → Reply Entered × (I × T)
  accept_invitation now id user_id user_email token s = elim (invitations.find_token token s.0) [
    | none ↦ (api_error 404, s)
    | some v ↦ elim (check_email required v.email user_email) [
      | api_error code ↦ (api_error code, s)
      | ok _ ↦ accept_bound now id user_id v s
    ]
  ]

  -- `POST /:id/invite`, which answers with the token. The column of the address is not nullable, so that
  -- the database refuses an invitation without one.
  unfoldable pub create_invitation : ℕ → ℕ → ℕ → ℕ → Option Text → Option ℕ → I → Reply ℕ × I
  create_invitation now id token exam_id none expires_in i =
      if required
      then (api_error 400, i)
      else elim (exam_of exam_id) [ none ↦ (api_error 404, i) | some e ↦ (api_error 500, i) ]
  create_invitation now id token exam_id (some email) expires_in i =
      if matches_email false email
      then elim (exam_of exam_id) [
        | none ↦ (api_error 404, i)
        | some e ↦
            (ok token, invitations.insert (new_invitation now id token e.id email expires_in) i)
      ]
      else (api_error 400, i)
