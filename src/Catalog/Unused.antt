-- ===== src/Catalog/Unused.antt =====
-- The references between the tables under the routes of routes/challenges.ts.
use test_platform.Base.{
  ℕ, ◌≡◌, refl, Bool, inl, inr, length, is_some, if◌then◌else◌, ◌==◌, arith, ok, api_error,
  Option-cases, Bool-cases,
}
use test_platform.Platform.{Challenge, AttemptTable}
use test_platform.Invitations.{InvitationTable}
use test_platform.Catalog.{
  Table, ExamRow, ChallengeBody, ChallengePatch, Catalog, uses_challenge, create_challenge,
  update_challenge, remove_challenge, delete_challenge, patch_challenge, create_challenge_schema,
  update_challenge_schema, new_challenge,
}
use test_platform.Catalog.Links.{IsLinked, challenges-IsLinked}

module _ {C E I T : Type 0} (challenges : Table Challenge C (λ c. c.id))
    (exams : Table ExamRow E (λ r. r.id)) (invitations : InvitationTable I)
    (table : AttemptTable T) where
  pub create_challenge-IsLinked :
      (id : ℕ) (b : ChallengeBody) (s : Catalog C E I T)
      → IsLinked challenges exams invitations table s
      → IsLinked challenges exams invitations table
          (create_challenge challenges exams invitations table id b s).1
  unfolding create_challenge
  create_challenge-IsLinked id b s linked = elim (Bool-cases (create_challenge_schema b)) [
    | inr bad ↦ rw (create_challenge, bad) linked
    | inl good ↦
        rw (create_challenge, good)
          (challenges-IsLinked challenges exams invitations table _ s
            (λ j r h there. ground (
              arith,
              challenges.find-insert r.challenge_id (new_challenge id b) s.challenges,
              there,
            ))
            linked)
  ]

  pub update_challenge-IsLinked :
      (id : ℕ) (b : ChallengePatch) (s : Catalog C E I T)
      → IsLinked challenges exams invitations table s
      → IsLinked challenges exams invitations table
          (update_challenge challenges exams invitations table id b s).1
  unfolding update_challenge
  update_challenge-IsLinked id b s linked = elim (Bool-cases (update_challenge_schema b)) [
    | inr bad ↦ rw (update_challenge, bad) linked
    | inl good ↦ elim (Option-cases (challenges.find id s.challenges)) [
      | inl e ↦ rw (update_challenge, good, e) linked
      | inr (c, e) ↦
          rw (update_challenge, good, e)
            (challenges-IsLinked challenges exams invitations table _ s
              (λ j r h there. ground (
                arith,
                challenges.find-update id r.challenge_id (patch_challenge b) s.challenges
                    (λ c0. refl),
                there,
              ))
              linked)
    ]
  ]

  pub delete_challenge-eq :
      (enforced : Bool) (id : ℕ) (s : Catalog C E I T)
      → delete_challenge challenges exams invitations table enforced id s ≡ (
          if is_some (challenges.find id s.challenges)
          then if length (exams.select (uses_challenge id) s.exams) == 0
            then (ok tt, record s { challenges = challenges.delete id s.challenges })
            else (api_error 400, s)
          else (api_error 404, s))
  unfolding delete_challenge remove_challenge
  delete_challenge-eq enforced id s = ground arith

  pub delete_challenge-IsLinked :
      (enforced : Bool) (id : ℕ) (s : Catalog C E I T)
      → IsLinked challenges exams invitations table s
      → IsLinked challenges exams invitations table
          (delete_challenge challenges exams invitations table enforced id s).1
  delete_challenge-IsLinked enforced id s linked =
      let there = is_some (challenges.find id s.challenges) in
      let unused = length (exams.select (uses_challenge id) s.exams) == 0 in
      rw (delete_challenge-eq enforced id s) (elim (Bool-cases there) [
        | inr gone ↦ rw gone linked
        | inl found ↦ elim (Bool-cases unused) [
          | inr used ↦ rw (found, used) linked
          | inl free ↦
              rw (found, free)
                (challenges-IsLinked challenges exams invitations table
                  (challenges.delete id s.challenges) s
                  (λ j r h there. ground (
                    arith,
                    challenges.find-delete id r.challenge_id s.challenges,
                    exams.select-complete (uses_challenge id) j r s.exams h free,
                    there,
                  ))
                  linked)
        ]
      ])
