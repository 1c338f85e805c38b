-- ===== src/Catalog/Runs.antt =====
-- The references between the tables of packages/database/src/schema.ts, whatever the routes of
-- routes/exams.ts and routes/challenges.ts are asked.
use test_platform.Base.{ℕ, ◌≡◌, Bool, true, ◌||◌, not, is_some, All, Option, List, [], ◌∷◌}
use test_platform.Platform.{Challenge, AttemptTable}
use test_platform.Invitations.{Text, InvitationTable}
use test_platform.Catalog.{
  Table, ExamRow, ExamBody, ExamPatch, ChallengeBody, ChallengePatch, Catalog, create_exam,
  update_exam, publish_exam, unpublish_exam, delete_exam, create_challenge, update_challenge,
  delete_challenge,
}
use test_platform.Catalog.Links.{
  IsLinked, create_exam-IsLinked, update_exam-IsLinked, publish_exam-IsLinked,
  unpublish_exam-IsLinked,
}
use test_platform.Catalog.Deleted.{delete_exam-IsLinked}
use test_platform.Catalog.Unused.{
  create_challenge-IsLinked, update_challenge-IsLinked, delete_challenge-IsLinked,
}
use test_platform.Catalog.Invited.{after_accept, after_invite, accept-IsLinked, invite-IsLinked}

-- A request that changes the tables, with the time, the identifiers that are drawn and the user.
pub data Request : Type 0 where
  creates_exam : ℕ → ℕ → ExamBody → Request
  changes_exam : ℕ → ExamPatch → Request
  publishes : ℕ → ℕ → Request
  unpublishes : ℕ → Request
  deletes_exam : ℕ → Request
  creates_challenge : ℕ → ChallengeBody → Request
  changes_challenge : ℕ → ChallengePatch → Request
  deletes_challenge : ℕ → Request
  invites : ℕ → ℕ → ℕ → ℕ → Option Text → Option ℕ → Request
  accepts : ℕ → ℕ → ℕ → Text → ℕ → Request

module _ {C E I T : Type 0} (challenges : Table Challenge C (λ c. c.id))
    (exams : Table ExamRow E (λ r. r.id)) (invitations : InvitationTable I) (table : AttemptTable T)
    (required enforced : Bool) where
  unfoldable pub perform : Request → Catalog C E I T → Catalog C E I T
  perform (creates_exam id user_id b) s =
      (create_exam challenges exams invitations table id user_id b s).1
  perform (changes_exam id b) s = (update_exam challenges exams invitations table enforced id b s).1
  perform (publishes now id) s = (publish_exam challenges exams invitations table now id s).1
  perform (unpublishes id) s = (unpublish_exam challenges exams invitations table id s).1
  perform (deletes_exam id) s = (delete_exam challenges exams invitations table enforced id s).1
  perform (creates_challenge id b) s =
      (create_challenge challenges exams invitations table id b s).1
  perform (changes_challenge id b) s =
      (update_challenge challenges exams invitations table id b s).1
  perform (deletes_challenge id) s =
      (delete_challenge challenges exams invitations table enforced id s).1
  perform (invites now id token exam_id email expires_in) s =
      (after_invite challenges exams invitations table required now id token exam_id email
        expires_in s).1
  perform (accepts now id user_id email token) s =
      (after_accept challenges exams invitations table required now id user_id email token s).1

  unfoldable pub run : List Request → Catalog C E I T → Catalog C E I T
  run [] s = s
  run (q ∷ qs) s = run qs (perform q s)

  -- A change that names a challenge relies on the database, since the route does not look for it.
  unfoldable pub is_checked : Request → Bool
  is_checked (changes_exam id b) = enforced || not (is_some b.challenge_id)
  is_checked _ = true

  perform-IsLinked :
      (q : Request) (s : Catalog C E I T)
      → is_checked q ≡ true
      → IsLinked challenges exams invitations table s
      → IsLinked challenges exams invitations table (perform q s)
  unfolding perform is_checked
  perform-IsLinked (creates_exam id user_id b) s checked l =
      create_exam-IsLinked challenges exams invitations table id user_id b s l
  perform-IsLinked (changes_exam id b) s checked l =
      update_exam-IsLinked challenges exams invitations table enforced id b s checked l
  perform-IsLinked (publishes now id) s checked l =
      publish_exam-IsLinked challenges exams invitations table now id s l
  perform-IsLinked (unpublishes id) s checked l =
      unpublish_exam-IsLinked challenges exams invitations table id s l
  perform-IsLinked (deletes_exam id) s checked l =
      delete_exam-IsLinked challenges exams invitations table enforced id s l
  perform-IsLinked (creates_challenge id b) s checked l =
      create_challenge-IsLinked challenges exams invitations table id b s l
  perform-IsLinked (changes_challenge id b) s checked l =
      update_challenge-IsLinked challenges exams invitations table id b s l
  perform-IsLinked (deletes_challenge id) s checked l =
      delete_challenge-IsLinked challenges exams invitations table enforced id s l
  perform-IsLinked (invites now id token exam_id email expires_in) s checked l =
      invite-IsLinked challenges exams invitations table required now id token exam_id email
        expires_in s l
  perform-IsLinked (accepts now id user_id email token) s checked l =
      accept-IsLinked challenges exams invitations table required now id user_id email token s l

  -- Whatever requests come to the routes of exams, challenges and invitations, and in whatever order: if
  -- every exam has its challenge, and every attempt and every invitation its exam, so it is afterwards. This
  -- holds with the foreign keys of the database, and also without them, by the tests of the routes alone, but
  -- for a change of an exam that names a challenge, which `PUT /api/exams/:id` does not look for.
  pub run-IsLinked :
      (qs : List Request) (s : Catalog C E I T)
      → All (λ q. is_checked q ≡ true) qs
      → IsLinked challenges exams invitations table s
      → IsLinked challenges exams invitations table (run qs s)
  unfolding run
  run-IsLinked [] s checked l = l
  run-IsLinked (q ∷ qs) s checked l =
      run-IsLinked qs (perform q s) checked.1 (perform-IsLinked q s checked.0 l)
