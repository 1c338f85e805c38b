-- ===== src/Validator.antt =====
-- The static checks of a challenge, lib/challenge-validator.ts: `validateChallenge` and `quickValidate`. A text
-- is the list of its code points, and a missing field is `none`. The regular expression for hard-coded
-- identifiers is a parameter. The dependencies and the version of Node.js, which neither function looks at, and
-- the messages of the checks, which say their outcome in words, are left out.
pub mod Filled
pub mod Contained
pub mod Agreement
pub mod Tests
use Prim.Native.Char.{code}
use Prim.Native.String.{String}
use test_platform.Base.{
  ℕ, Bool, true, false, ◌&&◌, ◌||◌, not, Option, none, some, List, [], ◌∷◌, ◌++◌, ◌==◌, leb,
  if◌then◌else◌, is_some, length, any,
}
use test_platform.Redis.Keys.{Files}

-- The code points of a text.
abbrev pub codes : String → List ℕ
codes String.[] = []
codes (String.◌∷◌ c s) = code c ∷ codes s

abbrev pub is_empty {ℓ} : {A : Type ℓ} → List A → Bool
is_empty [] = true
is_empty (x ∷ xs) = false

-- The characters that `trim` takes away: white space and line ends of ECMAScript.
unfoldable pub is_space : ℕ → Bool
is_space c =
    leb 9 c && leb c 13
    || c == 32
    || c == 160
    || c == 5760
    || leb 8192 c && leb c 8202
    || c == 8232
    || c == 8233
    || c == 8239
    || c == 8287
    || c == 12288
    || c == 65279

abbrev pub trim_start : List ℕ → List ℕ
trim_start [] = []
trim_start (c ∷ s) = if is_space c then trim_start s else c ∷ s

abbrev pub trim_end : List ℕ → List ℕ
trim_end [] = []
trim_end (c ∷ s) = if is_space c && is_empty (trim_end s) then [] else c ∷ trim_end s

abbrev pub trim : List ℕ → List ℕ
trim s = trim_end (trim_start s)

abbrev pub begins_with : List ℕ → List ℕ → Bool
begins_with [] s = true
begins_with (p ∷ pattern) [] = false
begins_with (p ∷ pattern) (c ∷ s) = p == c && begins_with pattern s

-- `s.includes(pattern)`.
unfoldable pub includes : List ℕ → List ℕ → Bool
includes pattern [] = begins_with pattern []
includes pattern (c ∷ s) = begins_with pattern (c ∷ s) || includes pattern s

-- `t || ''`.
abbrev pub text_of : Option (List ℕ) → List ℕ
text_of none = []
text_of (some s) = s

-- `!!t`.
abbrev pub is_given : Option (List ℕ) → Bool
is_given t = not (is_empty (text_of t))

pub record ChallengeToValidate : Type 0 where
  pub name : Option (List ℕ)
  pub starter_files : Option Files
  pub public_tests : Option (List ℕ)
  pub hidden_tests : Option (List ℕ)
  pub solution_files : Option Files

-- What an error or a warning says; the two functions put some of them in other words.
pub data Message : Type 0 where
  name_required starter_files_required public_tests_required : Message
  hidden_tests_recommended isolate_public_tests isolate_hidden_tests : Message
  hardcoded_ids import_app no_solution_files : Message

pub data Subject : Type 0 where
  required_fields challenge_name starter_file_count public_test_isolation public_tests_present :
      Subject
  hidden_test_isolation hidden_tests_present dynamic_test_data solution_files_provided : Subject

pub record Check : Type 0 where
  pub subject : Subject
  pub passed : Bool

pub record ValidationResult : Type 0 where
  pub is_valid : Bool
  pub errors : List Message
  pub warnings : List Message
  pub checks : List Check

abbrev pub check : Subject → Bool → Check
check subject passed = record { subject = subject; passed = passed }

-- A `push` under an `if`.
abbrev pub push_if {ℓ} : {A : Type ℓ} → Bool → A → List A
push_if true x = x ∷ []
push_if false x = []

abbrev pub count_files : Option Files → ℕ
count_files none = 0
count_files (some files) = length files

abbrev pub result_of : List Message → List Message → List Check → ValidationResult
result_of errors warnings checks = record {
  is_valid = is_empty errors;
  errors = errors;
  warnings = warnings;
  checks = checks;
}

-- `!t || t.trim().length === 0`.
unfoldable pub is_blank : Option (List ℕ) → Bool
is_blank t = not (is_given t) || length (trim (text_of t)) == 0

-- `!t?.trim()`.
unfoldable pub is_blank_quick : Option (List ℕ) → Bool
is_blank_quick none = true
is_blank_quick (some s) = is_empty (trim s)

unfoldable pub has_reset : List ℕ → Bool
has_reset = includes (codes "jest.resetModules()")

unfoldable pub uses_random_data : List ℕ → Bool
uses_random_data s =
    includes (codes "Date.now()") s
    || includes (codes "Math.random()") s
    || includes (codes "uuid") s

unfoldable pub uses_app_require : List ℕ → Bool
uses_app_require s =
    includes (codes "require('../src/app')") s || includes (codes "require(\"../src/app\")") s

-- `validateChallenge`.
unfoldable pub validate_challenge : (List ℕ → Bool) → ChallengeToValidate → ValidationResult
validate_challenge has_hardcoded_ids c =
    let no_name = push_if (is_blank c.name) name_required in
    let no_files = push_if (count_files c.starter_files == 0) starter_files_required in
    let no_tests = push_if (is_blank c.public_tests) public_tests_required in
    let public_reset = has_reset (text_of c.public_tests) in
    let hidden_reset = has_reset (text_of c.hidden_tests) in
    let all_tests = text_of c.public_tests ++ (10 ∷ text_of c.hidden_tests) in
    let no_solution = count_files c.solution_files == 0 in
    result_of (no_name ++ (no_files ++ no_tests))
      ((if is_blank c.public_tests then [] else push_if (not public_reset) isolate_public_tests)
        ++ ((if is_blank c.hidden_tests
              then hidden_tests_recommended ∷ []
              else push_if (not hidden_reset) isolate_hidden_tests)
            ++ (push_if (has_hardcoded_ids all_tests) hardcoded_ids
                ++ (push_if (not (uses_app_require all_tests)) import_app
                    ++ push_if no_solution no_solution_files))))
      (check required_fields (is_empty no_name)
        ∷ check starter_file_count (not (count_files c.starter_files == 0))
        ∷ ((if is_blank c.public_tests then [] else check public_test_isolation public_reset ∷ [])
            ++ (check public_tests_present (is_given c.public_tests)
                ∷ ((if is_blank c.hidden_tests
                      then []
                      else check hidden_test_isolation hidden_reset ∷ [])
                    ++ (check hidden_tests_present (is_given c.hidden_tests)
                        ∷ check dynamic_test_data (uses_random_data all_tests)
                        ∷ push_if (not no_solution) (check solution_files_provided true))))))

-- `quickValidate`. A missing text includes nothing.
unfoldable pub quick_validate : ChallengeToValidate → ValidationResult
quick_validate c =
    let public_reset = has_reset (text_of c.public_tests) in
    let hidden_reset = has_reset (text_of c.hidden_tests) in
    result_of
      (push_if (is_blank_quick c.name) name_required
        ++ (push_if (count_files c.starter_files == 0) starter_files_required
            ++ push_if (is_blank_quick c.public_tests) public_tests_required))
      (push_if (is_blank_quick c.hidden_tests) hidden_tests_recommended
        ++ (push_if (not public_reset) isolate_public_tests
            ++ push_if (is_given c.hidden_tests && not hidden_reset) isolate_hidden_tests))
      (check challenge_name (is_given c.name)
        ∷ check starter_file_count (not (count_files c.starter_files == 0))
        ∷ check public_tests_present (is_given c.public_tests)
        ∷ check hidden_tests_present (is_given c.hidden_tests)
        ∷ check public_test_isolation public_reset
        ∷ check hidden_test_isolation (hidden_reset || not (is_given c.hidden_tests))
        ∷ [])
