-- ===== src/Reports.antt =====
-- The reports of apps/api/src/routes/reports.ts that compute: the list of attempts with its search and its
-- pages, the statistics of an exam, and the analytics. The routes stand behind `requireRole`, and the rows
-- come from the database, joined with the candidate and the exam, filtered and ordered; a text of it is a
-- list of code points, in lower case by ASCII. What the code computes in floating point is an interface.
-- The average score, the days of the analytics and the fields that are passed on are left out.
pub mod Pages
pub mod Analytics
pub mod Top
pub mod Scores
pub mod Memory
pub mod Tests
use mathlib.Core.Option
use test_platform.Base.{
  ℕ, ◌+◌, ◌-◌, ◌*◌, ◌/◌, ◌≤◌, ◌<◌, ◌≡◌, zero, suc, min, ◌^◌, ◌++◌, Bool, true, false, ◌&&◌, ◌||◌,
  Option, none, some, List, [], ◌∷◌, map, foldl, length, take, if◌then◌else◌, ◌==◌, ltb, leb,
}
use test_platform.Platform.{Attempt, Status, in_progress, completed, status_eq}
use test_platform.Invitations.{Text, to_lower}

-- The numbers that the reports compute in floating point: `Math.round((p / t) * 100)`, and
-- `p / t >= threshold`, for whole numbers that are exact. Division, multiplication and rounding are
-- monotone, and a number by itself is 1.
pub record Numbers (F : Type 0) : Type 0 where
  pub percent : ℕ → ℕ → ℕ
  pub reaches : ℕ → ℕ → F → Bool
  pub percent_mono : (p q t : ℕ) → 0 < t → t < 2 ^ 53 → p ≤ q → q ≤ t → percent p t ≤ percent q t
  pub percent_self : (t : ℕ) → 0 < t → t < 2 ^ 53 → percent t t ≡ 100
  pub reaches_mono :
      (p q t : ℕ) (x : F)
      → 0 < t
      → t < 2 ^ 53
      → p ≤ q
      → q ≤ t
      → reaches p t x ≡ true
      → reaches q t x ≡ true

-- What `parseInt` gives for a field of the query: nothing, a negative number, or another one.
pub data Parsed : Type 0 where
  not_a_number negative : Parsed
  number : ℕ → Parsed

-- `Math.max(1, parseInt(…) || 1)`.
abbrev pub page_of : Parsed → ℕ
page_of not_a_number = 1
page_of negative = 1
page_of (number n) = if n == 0 then 1 else n

-- `Math.min(100, Math.max(1, parseInt(…) || 20))`.
abbrev pub limit_of : Parsed → ℕ
limit_of not_a_number = 20
limit_of negative = 1
limit_of (number n) = if n == 0 then 20 else min 100 n

-- An attempt with what is joined to it.
pub record Row : Type 0 where
  pub attempt : Attempt
  pub name : Option Text
  pub email : Option Text
  pub title : Option Text

abbrev pub has_prefix : Text → Text → Bool
has_prefix [] s = true
has_prefix (c ∷ cs) [] = false
has_prefix (c ∷ cs) (x ∷ xs) = c == x && has_prefix cs xs

-- `s.includes(part)`.
abbrev pub includes : Text → Text → Bool
includes part [] = has_prefix part []
includes part (x ∷ xs) = has_prefix part (x ∷ xs) || includes part xs

abbrev pub text_or_empty : Option Text → Text
text_or_empty none = []
text_or_empty (some s) = s

abbrev pub matches_search : Text → Row → Bool
matches_search search r =
    let lower = to_lower search in
    includes lower (to_lower (text_or_empty r.name))
    || includes lower (to_lower (text_or_empty r.email))
    || includes lower (to_lower (text_or_empty r.title))

abbrev pub filter {ℓ} : {A : Type ℓ} → (A → Bool) → List A → List A
filter p [] = []
filter p (x ∷ xs) = if p x then x ∷ filter p xs else filter p xs

abbrev pub drop {ℓ} : {A : Type ℓ} → ℕ → List A → List A
drop zero xs = xs
drop (suc n) [] = []
drop (suc n) (x ∷ xs) = drop n xs

-- `xs.slice(offset, offset + limit)`.
abbrev pub slice {ℓ} : {A : Type ℓ} → ℕ → ℕ → List A → List A
slice offset limit xs = take limit (drop offset xs)

-- The search of `GET /attempts`, with a text that is trimmed.
unfoldable pub search_attempts : Text → List Row → List Row
search_attempts search rows =
    if length search == 0 then rows else filter (matches_search search) rows

-- The rows of a page and their number over all pages.
unfoldable pub list_attempts : Parsed → Parsed → Text → List Row → List Row × ℕ
list_attempts page limit search rows =
    let filtered = search_attempts search rows in
    let size = limit_of limit in (slice ((page_of page - 1) * size) size filtered, length filtered)

abbrev pub or_zero : Option ℕ → ℕ
or_zero none = 0
or_zero (some n) = n

abbrev pub total_tests : Attempt → ℕ
total_tests a = or_zero a.total_public + or_zero a.total_hidden

abbrev pub passed_tests : Attempt → ℕ
passed_tests a = or_zero a.public_score + or_zero a.hidden_score

abbrev pub is_completed : Attempt → Bool
is_completed a = status_eq a.status completed

abbrev pub is_graded : Attempt → Bool
is_graded a = elim a.total_public [
  | none ↦ false
  | some p ↦ elim a.total_hidden [ none ↦ false | some h ↦ true ]
]

-- The counts of `GET /exam/:examId`.
pub record Stats : Type 0 where
  pub total_attempts : ℕ
  pub completed_attempts : ℕ
  pub passed_attempts : ℕ

pub record Scored : Type 0 where
  pub id : ℕ
  pub pct : ℕ

-- What `GET /analytics` collects.
pub record Tally : Type 0 where
  pub buckets : List ℕ
  pub pass_count : ℕ
  pub fail_count : ℕ
  pub pending_count : ℕ
  pub scored : List Scored

abbrev pub empty_tally : Tally
empty_tally = record {
  buckets = 0 ∷ 0 ∷ 0 ∷ 0 ∷ 0 ∷ 0 ∷ 0 ∷ 0 ∷ 0 ∷ 0 ∷ [];
  pass_count = 0;
  fail_count = 0;
  pending_count = 0;
  scored = [];
}

-- `scoreBuckets[i]++`.
abbrev pub increment : ℕ → List ℕ → List ℕ
increment i [] = []
increment zero (n ∷ ns) = (n + 1) ∷ ns
increment (suc i) (n ∷ ns) = n ∷ increment i ns

abbrev pub bucket_of : ℕ → ℕ
bucket_of pct = min 9 (pct / 10)

-- A stable sort by the score, the highest first.
abbrev pub insert_scored : Scored → List Scored → List Scored
insert_scored x [] = x ∷ []
insert_scored x (y ∷ ys) =
    let rest = insert_scored x ys in if leb y.pct x.pct then x ∷ y ∷ ys else y ∷ rest

abbrev pub sort_scored : List Scored → List Scored
sort_scored [] = []
sort_scored (x ∷ xs) = insert_scored x (sort_scored xs)

module _ {F : Type 0} (numbers : Numbers F) where
  -- The percentage of an attempt in the list.
  abbrev pub percentage : Attempt → Option ℕ
  percentage a =
      if ltb 0 (total_tests a)
      then some (numbers.percent (passed_tests a) (total_tests a))
      else none

  abbrev pub is_passed : F → Attempt → Bool
  is_passed threshold a =
      is_graded a
      && ltb 0 (total_tests a)
      && numbers.reaches (passed_tests a) (total_tests a) threshold

  unfoldable pub exam_stats : F → List Attempt → Stats
  exam_stats threshold attempts =
      let completed_attempts = filter is_completed attempts in
      record {
        total_attempts = length attempts;
        completed_attempts = length completed_attempts;
        passed_attempts = length (filter (is_passed threshold) completed_attempts);
      }

  abbrev pub is_pending : Attempt → Bool
  is_pending a = total_tests a == 0 || status_eq a.status in_progress

  abbrev pub score_of : Attempt → ℕ
  score_of a = numbers.percent (passed_tests a) (total_tests a)

  -- The body of the loop of the analytics.
  unfoldable pub tally : Tally → Attempt → Tally
  tally t a =
      if is_pending a
      then record t { pending_count = t.pending_count + 1 }
      else let pct = score_of a in
        record {
          buckets = increment (bucket_of pct) t.buckets;
          pass_count = if leb 50 pct then t.pass_count + 1 else t.pass_count;
          fail_count = if leb 50 pct then t.fail_count else t.fail_count + 1;
          pending_count = t.pending_count;
          scored = t.scored ++ record { id = a.id; pct = pct } ∷ [];
        }

  unfoldable pub tally_all : Tally → List Attempt → Tally
  tally_all t [] = t
  tally_all t (a ∷ attempts) = tally_all (tally t a) attempts

  unfoldable pub analytics : List Attempt → Tally
  analytics attempts = tally_all empty_tally attempts

  unfoldable pub top_performers : List Attempt → List Scored
  top_performers attempts = take 10 (sort_scored (analytics attempts).scored)
