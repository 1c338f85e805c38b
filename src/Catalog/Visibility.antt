-- ===== src/Catalog/Visibility.antt =====
-- What candidates see of an exam of routes/exams.ts, and when they can start it by routes/attempts.ts.
use mathlib.Core.Option
use test_platform.Base.{
  ℕ, ◌≡◌, ◌≢◌, refl, inl, inr, true, false, Option, none, some, List, Reply, ok, arith, api_error,
  Option-cases, ==_refl,
}
use test_platform.Redis.{Strings, Sets}
use test_platform.Redis.Keys.{Role, admin, candidate, reviewer}
use test_platform.Platform.{Challenge, Exam, Runner, SqlTest, sql, AttemptTable, Streams, App}
use test_platform.Invitations.{InvitationTable}
use test_platform.Attempts.{start_attempt}
use test_platform.Catalog.{
  Table, ExamRow, Catalog, joined, get_exam, hide_tests, unpublish_exam, set_unpublished,
}

-- The same exam, whose challenge has other hidden tests.
abbrev pub with_hidden : List ℕ → Exam → Exam
with_hidden tests e = record e {
  challenge = Option.map {B = Challenge} (λ c. record c { hidden_tests = tests }) e.challenge;
}

hide_tests-with_hidden :
    (tests : List ℕ) (e : Exam) → hide_tests (with_hidden tests e) ≡ hide_tests e
hide_tests-with_hidden tests e = elim (Option-cases e.challenge) [
  | inl gone ↦ ground (arith, gone)
  | inr (c, there) ↦ ground (arith, there)
]

get_exam-with_hidden :
    (role : Role) (id : ℕ) (tests : ℕ → List ℕ) (exam_of : ℕ → Option Exam)
    → role ≢ admin
    → get_exam role id (λ x. Option.map (with_hidden (tests x)) (exam_of x))
      ≡ get_exam role id exam_of
unfolding get_exam
get_exam-with_hidden admin id tests exam_of other = absurd (other refl)
get_exam-with_hidden candidate id tests exam_of other = elim (Option-cases (exam_of id)) [
  | inl e ↦ rw (e, get_exam) refl
  | inr (x, e) ↦ rw (e, get_exam, hide_tests-with_hidden (tests id) x) refl
]
get_exam-with_hidden reviewer id tests exam_of other = elim (Option-cases (exam_of id)) [
  | inl e ↦ rw (e, get_exam) refl
  | inr (x, e) ↦ rw (e, get_exam, hide_tests-with_hidden (tests id) x) refl
]

-- The same exam, whose challenge is an SQL challenge with these hidden tests.
abbrev pub with_sql : ℕ → List SqlTest → Exam → Exam
with_sql rest tests e = record e {
  challenge =
      Option.map {B = Challenge} (λ c. record c { runner = some (sql rest tests) }) e.challenge;
}

-- The hidden SQL tests in an answer.
abbrev sql_tests_in : Option Runner → Option (List SqlTest)
sql_tests_in (some (sql rest tests)) = some tests
sql_tests_in _ = none

abbrev pub sql_tests_of : Reply Exam → Option (List SqlTest)
sql_tests_of (api_error code) = none
sql_tests_of (ok e) = elim e.challenge [ none ↦ none | some c ↦ sql_tests_in c.runner ]

hide_tests-with_sql :
    (rest : ℕ) (tests : List SqlTest) (c : Challenge) (e : Exam)
    → e.challenge ≡ some c
    → sql_tests_of (ok (hide_tests (with_sql rest tests e))) ≡ some tests
hide_tests-with_sql rest tests c e there = rw there refl

get_exam-with_sql :
    (role : Role) (id rest : ℕ) (tests : List SqlTest) (exam_of : ℕ → Option Exam) (e : Exam)
    (c : Challenge)
    → role ≢ admin
    → exam_of id ≡ some e
    → e.is_published ≡ true
    → e.challenge ≡ some c
    → sql_tests_of (get_exam role id (λ x. Option.map (with_sql rest tests) (exam_of x)))
      ≡ some tests
unfolding get_exam
get_exam-with_sql admin id rest tests exam_of e c other found published there = absurd (other refl)
get_exam-with_sql candidate id rest tests exam_of e c other found published there =
    rw (found, get_exam, published) (hide_tests-with_sql rest tests c e there)
get_exam-with_sql reviewer id rest tests exam_of e c other found published there =
    rw (found, get_exam) (hide_tests-with_sql rest tests c e there)

-- What `GET /api/exams/:id` shows of the hidden tests of a published exam to a candidate or a reviewer. Of the
-- column of the hidden tests nothing: with another column the answer is the same. But of an SQL challenge
-- everything: its hidden tests stand in the column `runner`, reference queries included, and the answer has
-- them as they are.
pub get_exam-hidden_tests :
    (role : Role) (id rest : ℕ) (column : ℕ → List ℕ) (tests : List SqlTest)
    (exam_of : ℕ → Option Exam) (e : Exam) (c : Challenge)
    → role ≢ admin
    → exam_of id ≡ some e
    → e.is_published ≡ true
    → e.challenge ≡ some c
    → (get_exam role id (λ x. Option.map (with_hidden (column x)) (exam_of x))
        ≡ get_exam role id exam_of)
      × (sql_tests_of (get_exam role id (λ x. Option.map (with_sql rest tests) (exam_of x)))
          ≡ some tests)
get_exam-hidden_tests role id rest column tests exam_of e c other found published there = (
  get_exam-with_hidden role id column exam_of other,
  get_exam-with_sql role id rest tests exam_of e c other found published there,
)

module _ {A B Q C E I T : Type 0} (challenges : Table Challenge C (λ c. c.id))
    (exams : Table ExamRow E (λ r. r.id)) (invitations : InvitationTable I) (table : AttemptTable T)
    (kv : Strings A) (ss : Sets B) (streams : Streams Q) where
  closed :
      (now attempt_id user_id id : ℕ) (exam_of : ℕ → Option Exam) (app : App A B T Q)
      → ((e : Exam) → exam_of id ≡ some e → e.is_published ≡ false)
      → (get_exam candidate id exam_of ≡ api_error 404)
        × (start_attempt kv ss table streams exam_of now attempt_id user_id id app
            ≡ (api_error 404, app))
  unfolding get_exam start_attempt
  closed now attempt_id user_id id exam_of app h = elim (Option-cases (exam_of id)) [
    | inl gone ↦ (rw (gone, get_exam) refl, rw (gone, start_attempt) refl)
    | inr (e, there) ↦
        (rw (there, get_exam, h e there) refl, rw (there, start_attempt, h e there) refl)
  ]

  unpublished :
      (id : ℕ) (s : Catalog C E I T)
      → (unpublish_exam challenges exams invitations table id s).1
        ≡ record s { exams = exams.update id set_unpublished s.exams }
  unfolding unpublish_exam
  unpublished id s = elim (Option-cases (exams.find id (exams.update id set_unpublished s.exams))) [
    | inl e ↦ rw (unpublish_exam, e) refl
    | inr (r, e) ↦ rw (unpublish_exam, e) refl
  ]

  unpublished-joined :
      (id : ℕ) (e : Exam) (s : Catalog C E I T)
      → joined challenges exams invitations table
          (record s { exams = exams.update id set_unpublished s.exams })
          id
        ≡ some e
      → e.is_published ≡ false
  unpublished-joined id e s h = elim (Option-cases (exams.find id s.exams)) [
    | inl gone ↦ absurd (
        ground
          (arith, h, gone, exams.find-update id id set_unpublished s.exams (λ r. refl), ==_refl id))
    | inr (r, there) ↦
        ground (
          arith,
          h,
          there,
          exams.find-update id id set_unpublished s.exams (λ r0. refl),
          ==_refl id,
        )
  ]

  -- Once an exam is taken back by `POST /:id/unpublish`, `GET /api/exams/:id` answers 404 to candidates, and
  -- `POST /api/attempts` answers 404 to everybody and changes nothing, whether an attempt was in progress or
  -- not.
  pub unpublish_exam-start_attempt :
      (now attempt_id user_id id : ℕ) (s : Catalog C E I T) (app : App A B T Q)
      → let after =
          joined challenges exams invitations table
            (unpublish_exam challenges exams invitations table id s).1 in
        (get_exam candidate id after ≡ api_error 404)
        × (start_attempt kv ss table streams after now attempt_id user_id id app
            ≡ (api_error 404, app))
  unpublish_exam-start_attempt now attempt_id user_id id s app = rw (unpublished id s) (
      closed now attempt_id user_id id
        (joined challenges exams invitations table
          (record s { exams = exams.update id set_unpublished s.exams }))
        app (λ e. unpublished-joined id e s))
