-- ===== src/Reports/Tests.antt =====
-- The reports of routes/reports.ts at concrete inputs.
use test_platform.Base.{
  ℕ, ◌+◌, ◌*◌, ◌≤◌, ◌≡◌, refl, min, none, some, List, [], ◌∷◌, arith, length, leb,
}
use test_platform.Platform.{Attempt, completed}
use test_platform.Platform.Sample.{attempt}
use test_platform.Reports.{
  Row, number, not_a_number, search_attempts, list_attempts, exam_stats, tally, tally_all,
  analytics, top_performers,
}
use test_platform.Reports.Memory.{fractions}
use test_platform.Reports.Pages.{pages, pages-search}
use test_platform.Reports.Analytics.{at, count, scores_in, in_bucket, analytics_counts}
use test_platform.Reports.Top.{IsDescending, top_performers_lem}

reports : Unit {0}
unfolding search_attempts list_attempts exam_stats tally tally_all analytics top_performers
reports = tt

abbrev graded : ℕ → ℕ → Attempt
graded id score = record attempt {
  id = id;
  status = completed;
  public_score = some score;
  hidden_score = some 0;
  total_public = some 6;
  total_hidden = some 4;
}

abbrev attempts : List Attempt
attempts = graded 1 1 ∷ attempt ∷ graded 2 5 ∷ graded 3 6 ∷ []

-- A score of 10 is in the second bucket.
analytics_test :
    let r = analytics fractions attempts in
    (r.buckets ≡ 0 ∷ 1 ∷ 0 ∷ 0 ∷ 0 ∷ 1 ∷ 1 ∷ 0 ∷ 0 ∷ 0 ∷ [])
    × (r.pass_count ≡ 2)
    × (r.fail_count ≡ 1)
    × (r.pending_count ≡ 1)
unfolding reports
analytics_test = (refl, refl, refl, refl)

analytics_counts_example :
    let r = analytics fractions attempts in
    (r.pass_count + r.fail_count + r.pending_count ≡ length attempts)
    × (r.pass_count ≡ count (scores_in fractions (leb 50)) attempts)
    × (at 1 r.buckets ≡ count (scores_in fractions (in_bucket 1)) attempts)
analytics_counts_example = analytics_counts fractions attempts 1 (omega arith)

top_performers_lem_example :
    IsDescending (top_performers fractions attempts)
    × (count (λ s. leb 50 s.pct) (top_performers fractions attempts)
        ≡ min 10 (count (scores_in fractions (leb 50)) attempts))
top_performers_lem_example = top_performers_lem fractions attempts 50

-- `ann`, `bob` and nobody.
abbrev rows : List Row
rows =
    record { attempt = graded 1 1; name = some (97 ∷ 110 ∷ 110 ∷ []); email = none; title = none }
    ∷ record { attempt = graded 2 5; name = some (98 ∷ 111 ∷ 98 ∷ []); email = none; title = none }
    ∷ record { attempt = graded 3 6; name = none; email = none; title = none }
    ∷ []

search_test : (list_attempts not_a_number not_a_number (66 ∷ 79 ∷ []) rows).1 ≡ 1
unfolding reports
search_test = refl

few_rows : length (search_attempts [] rows) ≤ 2 * 2
unfolding reports
few_rows = omega arith

pages-search_example :
    (length (list_attempts (number 2) (number 2) [] rows).0 ≤ 100)
    × ((list_attempts (number 2) (number 2) [] rows).1 ≡ length (pages (number 2) [] rows 2))
    × (pages (number 2) [] rows 2 ≡ search_attempts [] rows)
pages-search_example = pages-search (number 2) (number 2) [] rows 2 few_rows
