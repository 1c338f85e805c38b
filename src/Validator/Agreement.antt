-- ===== src/Validator/Agreement.antt =====
-- `quickValidate` against `validateChallenge` (lib/challenge-validator.ts), and both against what they ask for.
use test_platform.Base.{ℕ, ◌≡◌, ◌≢◌, ◌↔◌, refl, Bool, true, List, [], arith}
use test_platform.Validator.{
  ChallengeToValidate, validate_challenge, quick_validate, text_of, count_files, codes, has_reset,
}
use test_platform.Validator.Filled.{has_ink, is_blank_lem, is_blank_quick_lem}
use test_platform.Validator.Contained.{Contains, has_reset-Contains}

-- A challenge that can be taken: a name that is not blank, a starter file, and public tests that are not blank.
abbrev pub IsComplete : ChallengeToValidate → Type 0
IsComplete c =
    (has_ink (text_of c.name) ≡ true)
    × (count_files c.starter_files ≢ 0)
    × (has_ink (text_of c.public_tests) ≡ true)

validate_challenge_iff :
    (has_hardcoded_ids : List ℕ → Bool) (c : ChallengeToValidate)
    → ((validate_challenge has_hardcoded_ids c).is_valid ≡ true) ↔ IsComplete c
unfolding validate_challenge
validate_challenge_iff has_hardcoded_ids c =
    ground (arith, is_blank_lem c.name, is_blank_lem c.public_tests)

-- The quick validation and the full one find the same errors in every challenge, also in one with missing
-- fields, and so agree on whether it is valid. It is valid exactly if its name and its public tests have a
-- character that is not a space and it has a starter file, whatever else is in it.
pub quick_validate-validate_challenge :
    (has_hardcoded_ids : List ℕ → Bool) (c : ChallengeToValidate)
    → ((quick_validate c).errors ≡ (validate_challenge has_hardcoded_ids c).errors)
      × ((quick_validate c).is_valid ≡ (validate_challenge has_hardcoded_ids c).is_valid)
      × (((validate_challenge has_hardcoded_ids c).is_valid ≡ true) ↔ IsComplete c)
unfolding quick_validate validate_challenge
quick_validate-validate_challenge has_hardcoded_ids c = (
  rw
      (
        is_blank_lem c.name,
        is_blank_lem c.public_tests,
        is_blank_quick_lem c.name,
        is_blank_quick_lem c.public_tests,
      )
      refl,
  rw
      (
        is_blank_lem c.name,
        is_blank_lem c.public_tests,
        is_blank_quick_lem c.name,
        is_blank_quick_lem c.public_tests,
      )
      refl,
  validate_challenge_iff has_hardcoded_ids c,
)

silent_validation :
    (has_hardcoded_ids : List ℕ → Bool) (c : ChallengeToValidate)
    → (validate_challenge has_hardcoded_ids c).is_valid ≡ true
    → (validate_challenge has_hardcoded_ids c).warnings ≡ []
    → (has_ink (text_of c.hidden_tests) ≡ true)
      × (has_reset (text_of c.public_tests) ≡ true)
      × (has_reset (text_of c.hidden_tests) ≡ true)
      × ((quick_validate c).warnings ≡ [])
unfolding validate_challenge quick_validate
silent_validation has_hardcoded_ids c valid silent = ground (
  arith,
  is_blank_lem c.name,
  is_blank_lem c.public_tests,
  is_blank_lem c.hidden_tests,
  is_blank_quick_lem c.hidden_tests,
)

-- A challenge in which the full validation finds no error and nothing to warn of has both kinds of tests,
-- the text `jest.resetModules()` stands in each, and the quick validation has nothing to warn of either.
pub validate_challenge-warnings :
    (has_hardcoded_ids : List ℕ → Bool) (c : ChallengeToValidate)
    → (validate_challenge has_hardcoded_ids c).is_valid ≡ true
    → (validate_challenge has_hardcoded_ids c).warnings ≡ []
    → (has_ink (text_of c.hidden_tests) ≡ true)
      × Contains (codes "jest.resetModules()") (text_of c.public_tests)
      × Contains (codes "jest.resetModules()") (text_of c.hidden_tests)
      × ((quick_validate c).warnings ≡ [])
validate_challenge-warnings has_hardcoded_ids c valid silent =
    let (filled, public_reset, hidden_reset, quick) =
      silent_validation has_hardcoded_ids c valid silent in
    (filled, has_reset-Contains _ public_reset, has_reset-Contains _ hidden_reset, quick)
