-- ===== src/Reports/Analytics.antt =====
-- What the analytics and the statistics of routes/reports.ts count.
use test_platform.Base.{
  ℕ, ◌+◌, ◌*◌, ◌<◌, ◌≡◌, refl, ap, zero, suc, Bool, ◌&&◌, ◌||◌, not, List, [], ◌∷◌, ◌++◌, arith,
  length, if◌then◌else◌, ◌==◌, leb, ltb, All,
}
use test_platform.Platform.{Attempt}
use test_platform.Reports.{
  Numbers, Scored, Tally, empty_tally, filter, increment, bucket_of, is_pending, score_of, tally,
  tally_all, analytics,
}

-- `xs[i]`, or 0 out of bounds.
abbrev pub at : ℕ → List ℕ → ℕ
at i [] = 0
at zero (n ∷ ns) = n
at (suc i) (n ∷ ns) = at i ns

at-increment :
    (i j : ℕ) (ns : List ℕ)
    → i < length ns
    → at j (increment i ns) ≡ (if i == j then at j ns + 1 else at j ns)
at-increment i j [] h = absurd (omega arith)
at-increment zero zero (n ∷ ns) h = ground arith
at-increment zero (suc j) (n ∷ ns) h = ground arith
at-increment (suc i) zero (n ∷ ns) h = ground arith
at-increment (suc i) (suc j) (n ∷ ns) h = ground (arith, at-increment i j ns)

length-increment : (i : ℕ) (ns : List ℕ) → length (increment i ns) ≡ length ns
length-increment i [] = refl
length-increment zero (n ∷ ns) = refl
length-increment (suc i) (n ∷ ns) = ap suc (length-increment i ns)

-- The number of the values that pass a test.
abbrev pub count {ℓ} : {A : Type ℓ} → (A → Bool) → List A → ℕ
count p [] = 0
count p (x ∷ xs) = (if p x then 1 else 0) + count p xs

length-filter {ℓ} : {A : Type ℓ} (p : A → Bool) (xs : List A) → length (filter p xs) ≡ count p xs
length-filter p [] = refl
length-filter p (x ∷ xs) = ground (arith, length-filter p xs)

count-append {ℓ} :
    {A : Type ℓ} (p : A → Bool) (xs ys : List A) → count p (xs ++ ys) ≡ count p xs + count p ys
count-append p [] ys = omega arith
count-append p (x ∷ xs) ys = omega (arith, count-append p xs ys)

-- The bucket with this number has the scores from ten times the number on, up to the next
-- bucket's; the last one has 100 too.
abbrev pub in_bucket : ℕ → ℕ → Bool
in_bucket i pct = leb (10 * i) pct && (ltb pct (10 * i + 10) || i == 9)

bucket_of-in_bucket : (i pct : ℕ) → i < 10 → (bucket_of pct == i) ≡ in_bucket i pct
bucket_of-in_bucket i pct h = ground arith

at_zero : (i : ℕ) (ns : List ℕ) → All (λ n. n ≡ 0) ns → at i ns ≡ 0
at_zero i [] l = refl
at_zero zero (n ∷ ns) l = l.0
at_zero (suc i) (n ∷ ns) l = at_zero i ns l.1

module _ {F : Type 0} (numbers : Numbers F) where
  abbrev pub scores_in : (ℕ → Bool) → Attempt → Bool
  scores_in p a = not (is_pending numbers a) && p (score_of numbers a)

  pub tally_all-buckets :
      (i : ℕ) (t : Tally) (attempts : List Attempt)
      → i < 10
      → length t.buckets ≡ 10
      → at i (tally_all numbers t attempts).buckets
        ≡ at i t.buckets + count (scores_in (in_bucket i)) attempts
  unfolding tally_all tally
  tally_all-buckets i t [] h l = omega arith
  tally_all-buckets i t (a ∷ attempts) h l = ground (
    arith,
    tally_all-buckets i (tally numbers t a) attempts,
    bucket_of-in_bucket i (score_of numbers a),
    at-increment (bucket_of (score_of numbers a)) i t.buckets,
    length-increment (bucket_of (score_of numbers a)) t.buckets,
  )

  pub tally_all-counts :
      (t : Tally) (attempts : List Attempt)
      → let r = tally_all numbers t attempts in
        (r.pass_count ≡ t.pass_count + count (scores_in (leb 50)) attempts)
        × (r.fail_count ≡ t.fail_count + count (scores_in (λ pct. not (leb 50 pct))) attempts)
        × (r.pending_count ≡ t.pending_count + count (is_pending numbers) attempts)
  unfolding tally_all tally
  tally_all-counts t [] = omega arith
  tally_all-counts t (a ∷ attempts) = ground (arith, tally_all-counts (tally numbers t a) attempts)

  pub tally_all-scored :
      (p : ℕ → Bool) (t : Tally) (attempts : List Attempt)
      → count (λ s. p s.pct) (tally_all numbers t attempts).scored
        ≡ count (λ s. p s.pct) t.scored + count (scores_in p) attempts
  unfolding tally_all tally
  tally_all-scored p t [] = omega arith
  tally_all-scored p t (a ∷ attempts) =
      let s : Scored = record { id = a.id; pct = score_of numbers a } in
      ground (
        arith,
        tally_all-scored p (tally numbers t a) attempts,
        count-append (λ (s : Scored). p s.pct) t.scored (s ∷ []),
      )

  count_all :
      (attempts : List Attempt)
      → count (scores_in (leb 50)) attempts
          + count (scores_in (λ pct. not (leb 50 pct))) attempts
          + count (is_pending numbers) attempts
        ≡ length attempts
  count_all [] = omega arith
  count_all (a ∷ attempts) = ground (arith, count_all attempts)

  -- The counts of the analytics: every attempt is passed, failed or pending, and is in one of these only;
  -- passed are the scores from 50 on; and the bucket with a number counts the attempts whose score is at
  -- least ten times the number and less than ten times the next, or 100 in the last. So 10 is counted in the
  -- second bucket, 20 in the third, and 90 in the last, where the comment of the code, which gives 0-10,
  -- 11-20 and so on to 91-100, has them one bucket before.
  pub analytics_counts :
      (attempts : List Attempt) (i : ℕ)
      → i < 10
      → let r = analytics numbers attempts in
        (r.pass_count + r.fail_count + r.pending_count ≡ length attempts)
        × (r.pass_count ≡ count (scores_in (leb 50)) attempts)
        × (at i r.buckets ≡ count (scores_in (in_bucket i)) attempts)
  unfolding analytics
  analytics_counts attempts i h =
      let (passed, failed, pending) = tally_all-counts empty_tally attempts in
      (
        omega (arith, passed, failed, pending, count_all attempts),
        omega (arith, passed),
        ground (
          arith,
          tally_all-buckets i empty_tally attempts h refl,
          at_zero i empty_tally.buckets
              (refl, (refl, (refl, (refl, (refl, (refl, (refl, (refl, (refl, (refl, tt)))))))))),
        ),
      )
