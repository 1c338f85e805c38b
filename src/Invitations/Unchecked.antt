-- ===== src/Invitations/Unchecked.antt =====
-- What accepting an invitation leaves unchecked that `POST /api/attempts` checks.
use test_platform.Base.{ℕ, ◌≡◌, Bool, true, false, ◌||◌, not, Option, some, arith, ok, is_ok}
use test_platform.Redis.{Strings, Sets}
use test_platform.Platform.{Challenge, Exam, AttemptTable, Streams, App}
use test_platform.Attempts.{before_window, after_window, start_attempt, start_published}
use test_platform.Invitations.{Text, Invitation, InvitationTable, starts, accept_invitation}
use test_platform.Invitations.Entering.{IsOpenTo, accept_open}

module _ {I A B T Q : Type 0} (invitations : InvitationTable I) (kv : Strings A) (ss : Sets B)
    (table : AttemptTable T) (streams : Streams Q) (exam_of : ℕ → Option Exam)
    (required : Bool) where
  -- At an exam that is not published, or whose window is not open, `POST /api/attempts` gives nobody an
  -- attempt; an invitation that is valid for the user starts one all the same.
  pub accept_invitation-unpublished :
      (now id user_id token : ℕ) (email : Text) (v : Invitation) (e : Exam) (c : Challenge) (i : I)
      (app : App A B T Q)
      → (not e.is_published || before_window now e || after_window now e) ≡ true
      → invitations.find_token token i ≡ some v
      → IsOpenTo invitations table exam_of required now user_id email v app.attempts
      → exam_of v.exam_id ≡ some e
      → e.challenge ≡ some c
      → (is_ok (start_attempt kv ss table streams exam_of now id user_id v.exam_id app).0 ≡ false)
        × ((accept_invitation invitations table exam_of required now id user_id email token
              (i, app.attempts)).0
            ≡ ok (starts id))
  unfolding start_attempt start_published
  accept_invitation-unpublished now id user_id token email v e c i app closed found w exam
        challenge =
      (
        ground (arith, closed, exam),
        ground (
          arith,
          accept_open invitations table exam_of required now id user_id token email v e c
              (i, app.attempts) found w exam challenge,
        ),
      )
