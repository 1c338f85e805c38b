-- ===== src/Catalog/Tests.antt =====
-- The routes of exams and challenges at concrete inputs.
use test_platform.Base.{
  ◌≡◌, refl, true, false, All, none, some, List, [], ◌∷◌, arith, ok, api_error, length,
}
use mathlib.Core.Option
use test_platform.Redis.Keys.{candidate, reviewer}
use test_platform.Redis.Memory.{strings, sets}
use test_platform.Platform.{Challenge, Exam}
use test_platform.Platform.Memory.{table, streams, Rows}
use test_platform.Platform.Sample.{attempt, challenge, exam, exam_of, app}
use test_platform.Invitations.{create_invitation, accept_invitation, accept_bound, enter_exam}
use test_platform.Invitations.Memory.{invites, Invites}
use test_platform.Attempts.{start_attempt, before_window, after_window}
use test_platform.Catalog.{
  Table, Catalog, ExamRow, ExamPatch, joined, get_exam, create_exam_schema, update_exam_schema,
  create_challenge_schema, update_challenge_schema, create_exam, update_exam, publish_exam,
  unpublish_exam, remove_exam, delete_exam, create_challenge, update_challenge, remove_challenge,
  delete_challenge,
}
use test_platform.Catalog.Memory.{rows}
use test_platform.Catalog.Links.{IsLinked}
use test_platform.Catalog.Runs.{
  Request, creates_exam, publishes, deletes_exam, deletes_challenge, perform, run, is_checked,
  run-IsLinked,
}
use test_platform.Catalog.Schedule.{update_exam-window}
use test_platform.Catalog.Visibility.{
  with_hidden, with_sql, sql_tests_of, get_exam-hidden_tests, unpublish_exam-start_attempt,
}

catalog : Unit {0}
unfolding get_exam create_exam_schema update_exam_schema create_challenge_schema
    update_challenge_schema create_exam update_exam publish_exam unpublish_exam remove_exam
    delete_exam create_challenge update_challenge remove_challenge delete_challenge
    create_invitation accept_invitation accept_bound enter_exam perform run start_attempt
catalog = tt

abbrev challenge_rows : Table Challenge (List Challenge) (λ c. c.id)
challenge_rows = rows (λ c. c.id)

abbrev exam_rows : Table ExamRow (List ExamRow) (λ r. r.id)
exam_rows = rows (λ r. r.id)

abbrev row : ExamRow
row = record {
  id = 3;
  challenge_id = 5;
  time_limit = 60;
  max_attempts = 1;
  scheduled_start_at = some 500;
  scheduled_end_at = some 9000000;
  is_published = true;
  published_at = some 100;
  created_by = 2;
}

abbrev tables : Catalog (List Challenge) (List ExamRow) Invites Rows
tables = record {
  challenges = challenge ∷ [];
  exams = row ∷ [];
  invitations = [];
  attempts = (7, attempt) ∷ [];
}

tables-IsLinked : IsLinked challenge_rows exam_rows invites table tables
tables-IsLinked = record {
  exams_linked = λ j r h. ground arith;
  attempts_linked = λ j a h. ground arith;
  invitations_linked = λ x h. ground arith;
}

-- A new exam, published, with an invitation that is accepted; then both exams are to be deleted, and the
-- challenge.
abbrev requests : List Request
requests =
    creates_exam 4 2 (record {
      title = 8;
      challenge_id = 5;
      time_limit = 60;
      max_attempts = none;
      scheduled_start_at = none;
      scheduled_end_at = some none;
    })
    ∷ publishes 600 4
    ∷ deletes_challenge 5
    ∷ deletes_exam 3
    ∷ deletes_exam 4
    ∷ []

run_test :
    let after = run challenge_rows exam_rows invites table true false requests tables in
    (length after.exams ≡ 1) × (length after.challenges ≡ 1)
unfolding catalog
run_test = (refl, refl)

requests_checked :
    All (λ q. is_checked challenge_rows exam_rows invites table true false q ≡ true) requests
unfolding catalog is_checked
requests_checked = (refl, (refl, (refl, (refl, (refl, tt)))))

-- Without the foreign keys of the database.
run-IsLinked_example :
    IsLinked challenge_rows exam_rows invites table
      (run challenge_rows exam_rows invites table true false requests tables)
run-IsLinked_example =
    run-IsLinked challenge_rows exam_rows invites table true false requests tables requests_checked
      tables-IsLinked

-- A reviewer; the hidden test of the SQL challenge has the number 4 as its query.
get_exam-hidden_tests_example :
    (get_exam reviewer 3 (λ x. Option.map (with_hidden (x ∷ [])) (exam_of x))
      ≡ get_exam reviewer 3 exam_of)
    × (sql_tests_of (
          get_exam reviewer 3 (λ x.
            Option.map
              (with_sql 0 (record { name = 1; reference_query = 4 ∷ [] } ∷ []))
              (exam_of x)))
        ≡ some (record { name = 1; reference_query = 4 ∷ [] } ∷ []))
get_exam-hidden_tests_example =
    get_exam-hidden_tests reviewer 3 0 (λ x. x ∷ [])
      (record { name = 1; reference_query = 4 ∷ [] } ∷ []) exam_of exam challenge (cc) refl refl
      refl

unpublish_exam-start_attempt_example :
    let after =
      joined challenge_rows exam_rows invites table
        (unpublish_exam challenge_rows exam_rows invites table 3 tables).1 in
    (get_exam candidate 3 after ≡ api_error 404)
    × (start_attempt strings sets table streams after 600 8 1 3 app ≡ (api_error 404, app))
unpublish_exam-start_attempt_example =
    unpublish_exam-start_attempt challenge_rows exam_rows invites table strings sets streams 600 8 1
      3 tables app

-- The time limit alone is changed.
abbrev longer : ExamPatch
longer = record {
  title = none;
  challenge_id = none;
  time_limit = some 90;
  max_attempts = none;
  scheduled_start_at = none;
  scheduled_end_at = none;
}

abbrev changed : Exam
changed = record {
  id = 3;
  challenge = some challenge;
  time_limit = 90;
  max_attempts = 1;
  scheduled_start_at = none;
  scheduled_end_at = none;
  is_published = true;
}

update_test :
    let result = update_exam challenge_rows exam_rows invites table true 3 longer tables in
    (result.0 ≡ ok tt) × (joined challenge_rows exam_rows invites table result.1 3 ≡ some changed)
unfolding catalog
update_test = (refl, refl)

update_exam-window_example :
    (before_window 100 changed ≡ false) × (after_window 100 changed ≡ false)
update_exam-window_example =
    update_exam-window challenge_rows exam_rows invites table true 3 100 longer changed tables refl
      refl update_test.0 update_test.1
