-- ===== src/Invitations/Concurrent.antt =====
-- Two requests for one invitation by `POST /invite/:token/accept` of routes/exams.ts whose tests both run
-- before either writes: the handler awaits the database between its tests and its writes.
use test_platform.Base.{
  ℕ, ◌+◌, ◌≡◌, refl, Bool, Option, none, some, [], ◌∷◌, arith, is_some, length, Reply, ok,
  api_error, if◌then◌else◌, ==_refl,
}
use test_platform.Platform.{Attempt, Challenge, Exam, AttemptTable}
use test_platform.Attempts.{new_attempt, belongs}
use test_platform.Invitations.{
  Text, Invitation, InvitationTable, Entered, starts, is_expired, check_email, mark_used,
  enter_exam, accept_bound, accept_invitation,
}

module _ {I T : Type 0} (invitations : InvitationTable I) (table : AttemptTable T)
    (exam_of : ℕ → Option Exam) (required : Bool) where
  -- The tests of the route: the invitation by which an attempt is to start.
  unfoldable pub entry : ℕ → ℕ → Text → ℕ → I × T → Option Invitation
  entry now user_id email token s = elim (invitations.find_token token s.0) [
    | none ↦ none
    | some v ↦ elim (check_email required v.email email) [
      | api_error code ↦ none
      | ok _ ↦
          if is_expired now v
          then none
          else if is_some v.used_at
          then none
          else elim (table.select (belongs v.exam_id user_id) s.1) [ [] ↦ some v | a ∷ rest ↦ none ]
    ]
  ]

  -- A single request that passes the tests does nothing but enter the exam.
  accept-entry :
      (now id user_id : ℕ) (email : Text) (token : ℕ) (v : Invitation) (s : I × T)
      → entry now user_id email token s ≡ some v
      → accept_invitation invitations table exam_of required now id user_id email token s
        ≡ enter_exam invitations table exam_of required now id user_id v s
  unfolding entry accept_invitation accept_bound
  accept-entry now id user_id email token v s h = ground (arith, h)

  -- The tests of two requests, at their times, then the writes of the first and those of the second.
  unfoldable pub accept_both :
      ℕ → ℕ → ℕ → ℕ → ℕ → Text → ℕ → I × T → Option (Reply Entered × Reply Entered × (I × T))
  accept_both now id later later_id user_id email token s = elim (entry now user_id email token s) [
    | none ↦ none
    | some v ↦ elim (entry later user_id email token s) [
      | none ↦ none
      | some w ↦
          let (first, s1) = enter_exam invitations table exam_of required now id user_id v s in
          let (second, s2) =
            enter_exam invitations table exam_of required later later_id user_id w s1 in
          some (first, second, s2)
    ]
  ]

  enter_exam-starts :
      (now id user_id : ℕ) (v : Invitation) (e : Exam) (c : Challenge) (s : I × T)
      → exam_of v.exam_id ≡ some e
      → e.challenge ≡ some c
      → enter_exam invitations table exam_of required now id user_id v s ≡ (
        ok (starts id),
        (
          invitations.update v.id (mark_used now) s.0,
          table.insert (new_attempt now id v.exam_id user_id c.starter_files) s.1,
        ),
      )
  unfolding enter_exam
  enter_exam-starts now id user_id v e c s exam challenge = rw (exam, challenge, enter_exam) refl

  -- Two requests of a user for one invitation that overlap start two attempts, whatever number of attempts
  -- the exam allows.
  pub accept_both-starts :
      (now id later later_id user_id token : ℕ) (email : Text) (v : Invitation) (e : Exam)
      (c : Challenge) (s : I × T)
      → entry now user_id email token s ≡ some v
      → entry later user_id email token s ≡ some v
      → exam_of v.exam_id ≡ some e
      → e.challenge ≡ some c
      → (after : I × T) × (accept_both now id later later_id user_id email token s
          ≡ some (ok (starts id), ok (starts later_id), after))
        × (length (table.select (belongs v.exam_id user_id) after.1)
            ≡ length (table.select (belongs v.exam_id user_id) s.1) + 2)
  unfolding accept_both
  accept_both-starts now id later later_id user_id token email v e c s first second exam challenge =
      let a : Attempt = new_attempt now id v.exam_id user_id c.starter_files in
      let b : Attempt = new_attempt later later_id v.exam_id user_id c.starter_files in
      (
        (
          invitations.update v.id (mark_used later) (invitations.update v.id (mark_used now) s.0),
          table.insert b (table.insert a s.1),
        ),
        rw
            (
              first,
              second,
              accept_both,
              enter_exam-starts now id user_id v e c s exam challenge,
              enter_exam-starts later later_id user_id v e c
                  (invitations.update v.id (mark_used now) s.0, table.insert a s.1) exam challenge,
            )
            refl,
        ground (
          arith,
          table.count-insert (belongs v.exam_id user_id) a s.1,
          table.count-insert (belongs v.exam_id user_id) b (table.insert a s.1),
          ==_refl v.exam_id,
          ==_refl user_id,
        ),
      )
