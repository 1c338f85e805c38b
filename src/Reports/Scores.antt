-- ===== src/Reports/Scores.antt =====
-- The score of an attempt in the reports of routes/reports.ts, and who passes an exam.
use test_platform.Base.{ℕ, ◌+◌, ◌^◌, ◌≤◌, ◌<◌, ◌≡◌, true, Option, some, arith}
use test_platform.Platform.{Attempt}
use test_platform.Reports.{
  Numbers, or_zero, total_tests, passed_tests, is_passed, percentage, score_of,
}

module _ {F : Type 0} (numbers : Numbers F) where
  -- With the results of another run of the same tests, in which at least as many pass, the score of an
  -- attempt is at least what it was, and 100 at most; and who passes the exam by its threshold passes it
  -- still. The tests are fewer than 2 ^ 53, and no more of them pass than there are.
  pub score_of_mono :
      (a : Attempt) (public hidden : Option ℕ) (threshold : F)
      → 0 < total_tests a
      → total_tests a < 2 ^ 53
      → passed_tests a ≤ or_zero public + or_zero hidden
      → or_zero public + or_zero hidden ≤ total_tests a
      → is_passed numbers threshold a ≡ true
      → let b = record a { public_score = public; hidden_score = hidden } in
        (score_of numbers a ≤ score_of numbers b)
        × (score_of numbers b ≤ 100)
        × (percentage numbers b ≡ some (score_of numbers b))
        × (is_passed numbers threshold b ≡ true)
  score_of_mono a public hidden threshold some_tests few more bound passes =
      let p = passed_tests a in
      let q = or_zero public + or_zero hidden in
      let t = total_tests a in
      (
        numbers.percent_mono p q t some_tests few more bound,
        ground (
          arith,
          numbers.percent_mono q t t some_tests few bound,
          numbers.percent_self t some_tests few,
        ),
        ground arith,
        ground (arith, numbers.reaches_mono p q t threshold some_tests few more bound),
      )
