-- ===== src/Invitations/Tests.antt =====
-- The invitations of routes/exams.ts at concrete inputs.
use test_platform.Base.{
  ◌+◌, length, ℕ, ◌≡◌, refl, true, false, Option, none, some, [], ◌∷◌, Reply, ok, api_error, is_ok,
}
use test_platform.Redis.Memory.{strings, sets}
use test_platform.Platform.{Exam}
use test_platform.Platform.Memory.{Rows, table, streams}
use test_platform.Platform.Sample.{challenge, exam, bare}
use test_platform.Attempts.{start_attempt, belongs}
use test_platform.Invitations.{
  Text, Invitation, Entered, starts, enter_exam, accept_bound, accept_invitation, create_invitation,
}
use test_platform.Invitations.Memory.{Invites, invites}
use test_platform.Invitations.Entering.{accept_invitation_once}
use test_platform.Invitations.Concurrent.{entry, accept_both, accept_both-starts}
use test_platform.Invitations.Unchecked.{accept_invitation-unpublished}

routes : Unit {0}
unfolding enter_exam accept_bound accept_invitation create_invitation
routes = tt

-- `a@b.c` and `A@B.c`.
abbrev address : Text
address = 97 ∷ 64 ∷ 98 ∷ 46 ∷ 99 ∷ []

abbrev loud : Text
loud = 65 ∷ 64 ∷ 66 ∷ 46 ∷ 99 ∷ []

-- The sample exam, not published.
abbrev draft : Exam
draft = record exam { is_published = false }

abbrev drafts : ℕ → Option Exam
drafts x = some draft

abbrev invitation : Invitation
invitation = record {
  id = 60;
  exam_id = 3;
  email = some address;
  token = 61;
  used_at = none;
  expires_at = some 604805000;
}

abbrev accept : ℕ → ℕ → Text → Invites × Rows → Reply Entered × (Invites × Rows)
accept now user_id email = accept_invitation invites table drafts true now 8 user_id email 61

tests :
    (create_invitation invites table drafts true 5000 60 61 3 (some address) none []
      ≡ (ok 61, invitation ∷ []))
    × ((create_invitation invites table drafts true 5000 60 61 3 none none []).0 ≡ api_error 400)
    × ((create_invitation invites table drafts false 5000 60 61 3 none none []).0 ≡ api_error 500)
    × ((create_invitation invites table drafts true 5000 60 61 3
          (some (97 ∷ 64 ∷ 98 ∷ []))
          none
          []).0
        ≡ api_error 400)
    × ((accept 6000 1 loud (invitation ∷ [], [])).0 ≡ ok (starts 8))
    × ((accept 6000 1 (97 ∷ []) (invitation ∷ [], [])).0 ≡ api_error 403)
    × ((accept 604805001 1 loud (invitation ∷ [], [])).0 ≡ api_error 410)
    × ((accept 7000 1 loud (accept 6000 1 loud (invitation ∷ [], [])).1).0 ≡ api_error 400)
unfolding routes
tests = (refl, refl, refl, refl, refl, refl, refl, refl)

started : (accept 6000 1 loud (invitation ∷ [], [])).0 ≡ ok (starts 8)
unfolding routes
started = refl

accept_invitation_once_example :
    let first =
      accept_invitation invites table drafts true 6000 8 1 loud 61 (invitation ∷ [], []) in
    let second = accept_invitation invites table drafts true 7000 9 1 loud 61 first.1 in
    (is_ok second.0 ≡ false) × (second.1 ≡ first.1)
accept_invitation_once_example =
    accept_invitation_once invites table drafts true 6000 7000 8 9 8 1 1 61 loud loud
      (invitation ∷ [], []) started

accept_invitation-unpublished_example :
    (is_ok (start_attempt strings sets table streams drafts 6000 8 1 3 (bare [])).0 ≡ false)
    × ((accept_invitation invites table drafts true 6000 8 1 loud 61 (invitation ∷ [], [])).0
        ≡ ok (starts 8))
accept_invitation-unpublished_example =
    accept_invitation-unpublished invites strings sets table streams drafts true 6000 8 1 61 loud
      invitation draft challenge (invitation ∷ []) (bare []) refl refl (refl, refl, refl, refl) refl
      refl

passes : entry invites table drafts true 6000 1 loud 61 (invitation ∷ [], []) ≡ some invitation
unfolding entry
passes = refl

passes_later :
    entry invites table drafts true 6001 1 loud 61 (invitation ∷ [], []) ≡ some invitation
unfolding entry
passes_later = refl

accept_both-starts_example :
    (after : Invites × Rows) × (accept_both invites table drafts true 6000 8 6001 9 1 loud 61
        (invitation ∷ [], [])
      ≡ some (ok (starts 8), ok (starts 9), after))
    × (length (table.select (belongs 3 1) after.1) ≡ length (table.select (belongs 3 1) []) + 2)
accept_both-starts_example =
    accept_both-starts invites table drafts true 6000 8 6001 9 1 61 loud invitation draft challenge
      (invitation ∷ [], []) passes passes_later refl refl
