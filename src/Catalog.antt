-- ===== src/Catalog.antt =====
-- Exams and challenges: the routes of apps/api/src/routes/exams.ts and routes/challenges.ts that create,
-- change, publish and delete them, with the Zod schemas of packages/shared/src/index.ts that their bodies
-- pass, behind `requireRole('ADMIN')`, and `GET /api/exams/:id`. The tables are interfaces. A write that
-- breaks a reference of packages/database/src/schema.ts is refused by the database, and the route answers 500,
-- where it enforces its foreign keys, which is the argument `enforced` of the routes.
-- A route is one step. Titles, names and the other columns that no modelled code reads are left out.
mod Bodies
pub mod Memory
pub mod Links
pub mod Deleted
pub mod Unused
pub mod Invited
pub mod Runs
pub mod Schedule
pub mod Visibility
pub mod Tests
unfoldable pub use Bodies.*
use mathlib.Core.Option
use test_platform.Base.{
  ℕ, ◌≡◌, Bool, true, false, ◌&&◌, ◌||◌, not, Option, none, some, List, [], ◌∷◌, length, is_some,
  or_else, if◌then◌else◌, ◌==◌, ltb, leb, Reply, ok, api_error, all,
}
use test_platform.Redis.Keys.{Role, admin, candidate, Files}
use test_platform.Platform.{Attempt, Challenge, Exam, AttemptTable}
use test_platform.Accounts.{role_eq}
use test_platform.Invitations.{InvitationTable}

-- A table in the state `S` with rows `R`: SELECT, UPDATE and DELETE by key, INSERT, and SELECT by a test.
pub record Table (R S : Type 0) (key : R → ℕ) : Type 0 where
  pub find : ℕ → S → Option R
  pub insert : R → S → S
  pub update : ℕ → (R → R) → S → S
  pub delete : ℕ → S → S
  pub select : (R → Bool) → S → List R
  pub key_of_find : (j : ℕ) (r : R) (s : S) → find j s ≡ some r → key r ≡ j
  pub find-insert :
      (j : ℕ) (r : R) (s : S) → find j (insert r s) ≡ (if j == key r then some r else find j s)
  pub find-update :
      (i j : ℕ) (f : R → R) (s : S)
      → ((r : R) → key (f r) ≡ key r)
      → find j (update i f s) ≡ (if j == i then Option.map f (find j s) else find j s)
  pub find-delete : (i j : ℕ) (s : S) → find j (delete i s) ≡ (if j == i then none else find j s)
  pub select-complete :
      (p : R → Bool) (j : ℕ) (r : R) (s : S)
      → find j s ≡ some r
      → (length (select p s) == 0) ≡ true
      → p r ≡ false

abbrev pub of_exam : ℕ → Attempt → Bool
of_exam id a = a.exam_id == id

abbrev pub uses_challenge : ℕ → ExamRow → Bool
uses_challenge id r = r.challenge_id == id

-- The tables that the routes work on.
pub record Catalog (C E I T : Type 0) : Type 0 where
  pub challenges : C
  pub exams : E
  pub invitations : I
  pub attempts : T

-- `'[HIDDEN]'`.
abbrev pub hidden_mark : List ℕ
hidden_mark = 91 ∷ 72 ∷ 73 ∷ 68 ∷ 68 ∷ 69 ∷ 78 ∷ 93 ∷ []

abbrev pub hide_tests : Exam → Exam
hide_tests e = record e {
  challenge = Option.map {B = Challenge} (λ c. record c { hidden_tests = hidden_mark }) e.challenge;
}

-- `GET /api/exams/:id`, for an identifier that does not begin with `invite-`.
unfoldable pub get_exam : Role → ℕ → (ℕ → Option Exam) → Reply Exam
get_exam role id exam_of = elim (exam_of id) [
  | none ↦ api_error 404
  | some e ↦
      if role_eq role candidate && not e.is_published
      then api_error 404
      else ok (if role_eq role admin then e else hide_tests e)
]

module _ {C E I T : Type 0} (challenges : Table Challenge C (λ c. c.id))
    (exams : Table ExamRow E (λ r. r.id)) (invitations : InvitationTable I)
    (table : AttemptTable T) where
  -- An exam joined with its challenge, as the queries of the other routes read it.
  abbrev pub joined : Catalog C E I T → ℕ → Option Exam
  joined s id =
      Option.map
        (λ r. record {
          id = r.id;
          challenge = challenges.find r.challenge_id s.challenges;
          time_limit = r.time_limit;
          max_attempts = r.max_attempts;
          scheduled_start_at = r.scheduled_start_at;
          scheduled_end_at = r.scheduled_end_at;
          is_published = r.is_published;
        })
        (exams.find id s.exams)

  -- `POST /api/exams`.
  unfoldable pub create_exam : ℕ → ℕ → ExamBody → Catalog C E I T → Reply ℕ × Catalog C E I T
  create_exam id user_id b s =
      if create_exam_schema b
      then elim (challenges.find b.challenge_id s.challenges) [
        | none ↦ (api_error 404, s)
        | some c ↦ (ok id, record s { exams = exams.insert (new_row id user_id b) s.exams })
      ]
      else (api_error 400, s)

  -- The reference of an exam to its challenge, which the database checks.
  abbrev pub refers : Option ℕ → Catalog C E I T → Bool
  refers none s = true
  refers (some id) s = is_some (challenges.find id s.challenges)

  -- `PUT /api/exams/:id`. The challenge is not looked for.
  unfoldable pub update_exam :
      Bool → ℕ → ExamPatch → Catalog C E I T → Reply (Unit {0}) × Catalog C E I T
  update_exam enforced id b s =
      if update_exam_schema b
      then elim (exams.find id s.exams) [
        | none ↦ (api_error 404, s)
        | some r ↦
            if enforced && not (refers b.challenge_id s)
            then (api_error 500, s)
            else (ok tt, record s { exams = exams.update id (patch_exam b) s.exams })
      ]
      else (api_error 400, s)

  -- `POST /api/exams/:id/publish`.
  unfoldable pub publish_exam : ℕ → ℕ → Catalog C E I T → Reply (Unit {0}) × Catalog C E I T
  publish_exam now id s = elim (exams.find id s.exams) [
    | none ↦ (api_error 404, s)
    | some r ↦ (ok tt, record s { exams = exams.update id (set_published now) s.exams })
  ]

  -- `POST /api/exams/:id/unpublish`, which writes first.
  unfoldable pub unpublish_exam : ℕ → Catalog C E I T → Reply (Unit {0}) × Catalog C E I T
  unpublish_exam id s =
      let written = exams.update id set_unpublished s.exams in
      elim (exams.find id written) [
        | none ↦ (api_error 404, record s { exams = written })
        | some r ↦ (ok tt, record s { exams = written })
      ]

  -- The end of `DELETE /api/exams/:id`: its two statements, the second of which a database that
  -- enforces its keys refuses while a row refers to the exam.
  unfoldable pub remove_exam : Bool → ℕ → Catalog C E I T → Reply (Unit {0}) × Catalog C E I T
  remove_exam enforced id s =
      let s' = record s { invitations = invitations.delete_of_exam id s.invitations } in
      if enforced
        && (invitations.refers_to id s'.invitations
            || not (length (table.select (of_exam id) s.attempts) == 0))
      then (api_error 500, s')
      else (ok tt, record s' { exams = exams.delete id s.exams })

  unfoldable pub delete_exam : Bool → ℕ → Catalog C E I T → Reply (Unit {0}) × Catalog C E I T
  delete_exam enforced id s = elim (exams.find id s.exams) [
    | none ↦ (api_error 404, s)
    | some r ↦
        if length (table.select (of_exam id) s.attempts) == 0
        then remove_exam enforced id s
        else (api_error 400, s)
  ]

  -- `POST /api/challenges`.
  unfoldable pub create_challenge : ℕ → ChallengeBody → Catalog C E I T → Reply ℕ × Catalog C E I T
  create_challenge id b s =
      if create_challenge_schema b
      then (ok id, record s { challenges = challenges.insert (new_challenge id b) s.challenges })
      else (api_error 400, s)

  -- `PUT /api/challenges/:id`.
  unfoldable pub update_challenge :
      ℕ → ChallengePatch → Catalog C E I T → Reply (Unit {0}) × Catalog C E I T
  update_challenge id b s =
      if update_challenge_schema b
      then elim (challenges.find id s.challenges) [
        | none ↦ (api_error 404, s)
        | some c ↦
            (ok tt, record s { challenges = challenges.update id (patch_challenge b) s.challenges })
      ]
      else (api_error 400, s)

  -- The statement of `DELETE /api/challenges/:id`, which a database that enforces its keys refuses while
  -- an exam refers to the challenge.
  unfoldable pub remove_challenge : Bool → ℕ → Catalog C E I T → Reply (Unit {0}) × Catalog C E I T
  remove_challenge enforced id s =
      if enforced && not (length (exams.select (uses_challenge id) s.exams) == 0)
      then (api_error 500, s)
      else (ok tt, record s { challenges = challenges.delete id s.challenges })

  -- `DELETE /api/challenges/:id`.
  unfoldable pub delete_challenge : Bool → ℕ → Catalog C E I T → Reply (Unit {0}) × Catalog C E I T
  delete_challenge enforced id s = elim (challenges.find id s.challenges) [
    | none ↦ (api_error 404, s)
    | some c ↦
        if length (exams.select (uses_challenge id) s.exams) == 0
        then remove_challenge enforced id s
        else (api_error 400, s)
  ]
