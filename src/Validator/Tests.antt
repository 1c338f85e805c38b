-- ===== src/Validator/Tests.antt =====
-- The validators of lib/challenge-validator.ts run on a challenge, and their theorems at that challenge.
use test_platform.Base.{ℕ, ◌≡◌, ◌↔◌, refl, Bool, true, false, none, some, List, [], ◌∷◌}
use test_platform.Redis.Keys.{Files}
use test_platform.Validator.{
  ChallengeToValidate, validate_challenge, quick_validate, codes, trim, text_of, is_space, is_blank,
  is_blank_quick, includes, has_reset, uses_random_data, uses_app_require, public_tests_required,
  starter_files_required,
}
use test_platform.Validator.Filled.{has_ink}
use test_platform.Validator.Contained.{Contains}
use test_platform.Validator.Agreement.{
  IsComplete, quick_validate-validate_challenge, validate_challenge-warnings,
}

validation : Unit {0}
unfolding validate_challenge quick_validate is_space is_blank is_blank_quick includes has_reset
    uses_random_data uses_app_require
validation = tt

abbrev no_ids : List ℕ → Bool
no_ids s = false

abbrev app_file : Files
app_file = (codes "src/app.js", codes "x") ∷ []

abbrev test_text : List ℕ
test_text = codes "jest.resetModules(); require('../src/app')"

abbrev todo_list : ChallengeToValidate
todo_list = record {
  name = some (codes " todo list");
  starter_files = some app_file;
  public_tests = some test_text;
  hidden_tests = some test_text;
  solution_files = some app_file;
}

valid : (validate_challenge no_ids todo_list).is_valid ≡ true
unfolding validation
valid = refl

silent : (validate_challenge no_ids todo_list).warnings ≡ []
unfolding validation
silent = refl

quick_validate-validate_challenge_example :
    ((quick_validate todo_list).errors ≡ (validate_challenge no_ids todo_list).errors)
    × ((quick_validate todo_list).is_valid ≡ (validate_challenge no_ids todo_list).is_valid)
    × (((validate_challenge no_ids todo_list).is_valid ≡ true) ↔ IsComplete todo_list)
quick_validate-validate_challenge_example = quick_validate-validate_challenge no_ids todo_list

validate_challenge-warnings_example :
    (has_ink (text_of todo_list.hidden_tests) ≡ true)
    × Contains (codes "jest.resetModules()") (text_of todo_list.public_tests)
    × Contains (codes "jest.resetModules()") (text_of todo_list.hidden_tests)
    × ((quick_validate todo_list).warnings ≡ [])
validate_challenge-warnings_example = validate_challenge-warnings no_ids todo_list valid silent

-- Public tests of spaces only, and no starter file.
abbrev blank_tests : ChallengeToValidate
blank_tests = record todo_list { public_tests = some (codes "  "); starter_files = none }

validation_tests :
    (trim (codes " a b  ") ≡ codes "a b")
    × ((validate_challenge no_ids blank_tests).errors
        ≡ starter_files_required ∷ public_tests_required ∷ [])
unfolding validation
validation_tests = (refl, refl)
