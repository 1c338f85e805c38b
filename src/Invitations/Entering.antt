-- ===== src/Invitations/Entering.antt =====
-- Who enters an exam by an invitation of routes/exams.ts, and how often.
use test_platform.Base.{
  ℕ, ◌≡◌, refl, inl, inr, Bool, true, false, Option, none, some, [], arith, is_some, is_ok, ok,
  Option-cases, ==_refl,
}
use test_platform.Platform.{Challenge, Exam, AttemptTable}
use test_platform.Attempts.{new_attempt, belongs}
use test_platform.Invitations.{
  Text, Invitation, InvitationTable, is_expired, check_email, mark_used, starts, enter_exam,
  accept_bound, accept_invitation,
}

module _ {I T : Type 0} (invitations : InvitationTable I) (table : AttemptTable T)
    (exam_of : ℕ → Option Exam) (required : Bool) where
  -- A used invitation lets nobody in, and changes nothing.
  accept_used :
      (now id user_id token : ℕ) (email : Text) (v : Invitation) (s : I × T)
      → invitations.find_token token s.0 ≡ some v
      → is_some v.used_at ≡ true
      → let result =
          accept_invitation invitations table exam_of required now id user_id email token s in
        (is_ok result.0 ≡ false) × (result.1 ≡ s)
  unfolding accept_invitation accept_bound
  accept_used now id user_id token email v s found used =
      (ground (arith, found, used), ground (arith, found, used))

  started_inv :
      (now id x user_id token : ℕ) (email : Text) (s : I × T)
      → let result =
          accept_invitation invitations table exam_of required now id user_id email token s in
        result.0 ≡ ok (starts x)
        → (v : Invitation) × (invitations.find_token token s.0 ≡ some v)
          × ((accept_invitation invitations table exam_of required now id user_id email token s).1.0
              ≡ invitations.update v.id (mark_used now) s.0)
  unfolding accept_invitation accept_bound enter_exam
  started_inv now id x user_id token email s h =
      elim (Option-cases (invitations.find_token token s.0)) [
        | inl gone ↦ ground (arith, gone, h)
        | inr (v, there) ↦ (v, there, ground (arith, there, h))
      ]

  -- After a request that has started an attempt by an invitation, a further request, which begins when the
  -- first is done, is refused and changes nothing, whoever makes it: also the user who used the invitation
  -- and whose attempt is in progress, who could resume it according to the comment in the code.
  pub accept_invitation_once :
      (now t id id' x user_id user_id' token : ℕ) (email email' : Text) (s : I × T)
      → let first =
          accept_invitation invitations table exam_of required now id user_id email token s in
        let second =
          accept_invitation invitations table exam_of required t id' user_id' email' token
            first.1 in
        first.0 ≡ ok (starts x) → (is_ok second.0 ≡ false) × (second.1 ≡ first.1)
  accept_invitation_once now t id id' x user_id user_id' token email email' s started =
      let (v, there, marked) = started_inv now id x user_id token email s started in
      let update = invitations.find_token-update token v.id (mark_used now) s.0 (λ w. refl) in
      accept_used t id' user_id' token email' (mark_used now v) _
        (ground (arith, there, marked, update, ==_refl v.id)) refl

  -- A valid invitation: unused, not expired, for the address of the user, who has no attempt.
  abbrev pub IsOpenTo : ℕ → ℕ → Text → Invitation → T → Type 0
  IsOpenTo now user_id email v attempts =
      (check_email required v.email email ≡ ok tt)
      × (is_expired now v ≡ false)
      × (v.used_at ≡ none)
      × (table.select (belongs v.exam_id user_id) attempts ≡ [])

  pub accept_open :
      (now id user_id token : ℕ) (email : Text) (v : Invitation) (e : Exam) (c : Challenge)
      (s : I × T)
      → invitations.find_token token s.0 ≡ some v
      → IsOpenTo now user_id email v s.1
      → exam_of v.exam_id ≡ some e
      → e.challenge ≡ some c
      → accept_invitation invitations table exam_of required now id user_id email token s ≡ (
        ok (starts id),
        (
          invitations.update v.id (mark_used now) s.0,
          table.insert (new_attempt now id v.exam_id user_id c.starter_files) s.1,
        ),
      )
  unfolding accept_invitation accept_bound enter_exam
  accept_open now id user_id token email v e c s found w exam challenge =
      ground (arith, found, w, exam, challenge)
