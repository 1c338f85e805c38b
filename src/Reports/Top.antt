-- ===== src/Reports/Top.antt =====
-- The best ten of the analytics of routes/reports.ts.
use test_platform.Base.{
  ℕ, ◌≤◌, ◌<◌, ◌≡◌, refl, ◌∙◌, ap, inl, inr, zero, suc, min, Bool, List, [], ◌∷◌, arith, take, leb,
  All, Bool-cases,
}
use test_platform.Platform.{Attempt}
use test_platform.Reports.{
  Numbers, Scored, empty_tally, insert_scored, sort_scored, analytics, top_performers,
}
use test_platform.Reports.Analytics.{count, scores_in, tally_all-scored}

-- The highest score first.
abbrev pub IsDescending : List Scored → Type 0
IsDescending [] = Unit
IsDescending (x ∷ xs) = All (λ y. y.pct ≤ x.pct) xs × IsDescending xs

All-insert_scored :
    (n : ℕ) (x : Scored) (xs : List Scored)
    → x.pct ≤ n
    → All (λ y. y.pct ≤ n) xs
    → All (λ y. y.pct ≤ n) (insert_scored x xs)
All-insert_scored n x [] h l = (h, tt)
All-insert_scored n x (y ∷ ys) h l = ground (arith, All-insert_scored n x ys h l.1)

All-le : (m n : ℕ) (xs : List Scored) → m ≤ n → All (λ y. y.pct ≤ m) xs → All (λ y. y.pct ≤ n) xs
All-le m n [] h l = tt
All-le m n (x ∷ xs) h l = (omega (arith, l.0), All-le m n xs h l.1)

insert_scored-IsDescending :
    (x : Scored) (xs : List Scored) → IsDescending xs → IsDescending (insert_scored x xs)
insert_scored-IsDescending x [] d = (tt, tt)
insert_scored-IsDescending x (y ∷ ys) d = elim (Bool-cases (leb y.pct x.pct)) [
  | inl le ↦ rw le ((ground arith, All-le y.pct x.pct ys (ground arith) d.0), d)
  | inr gt ↦
      rw gt (All-insert_scored y.pct x ys (ground arith) d.0, insert_scored-IsDescending x ys d.1)
]

sort_scored-IsDescending : (xs : List Scored) → IsDescending (sort_scored xs)
sort_scored-IsDescending [] = tt
sort_scored-IsDescending (x ∷ xs) =
    insert_scored-IsDescending x (sort_scored xs) (sort_scored-IsDescending xs)

count-insert_scored :
    (p : Scored → Bool) (x : Scored) (xs : List Scored)
    → count p (insert_scored x xs) ≡ count p (x ∷ xs)
count-insert_scored p x [] = refl
count-insert_scored p x (y ∷ ys) = ground (arith, count-insert_scored p x ys)

count-sort_scored : (p : Scored → Bool) (xs : List Scored) → count p (sort_scored xs) ≡ count p xs
count-sort_scored p [] = refl
count-sort_scored p (x ∷ xs) =
    ground (arith, count-insert_scored p x (sort_scored xs), count-sort_scored p xs)

count_none : (k : ℕ) (xs : List Scored) → All (λ y. y.pct < k) xs → count (λ s. leb k s.pct) xs ≡ 0
count_none k [] l = refl
count_none k (x ∷ xs) l = ground (arith, count_none k xs l.1)

All-lt : (m k : ℕ) (xs : List Scored) → m < k → All (λ y. y.pct ≤ m) xs → All (λ y. y.pct < k) xs
All-lt m k [] h l = tt
All-lt m k (x ∷ xs) h l = (omega (arith, l.0), All-lt m k xs h l.1)

All-take : (P : Scored → Type 0) (n : ℕ) (xs : List Scored) → All P xs → All P (take n xs)
All-take P zero xs l = tt
All-take P (suc n) [] l = tt
All-take P (suc n) (x ∷ xs) l = (l.0, All-take P n xs l.1)

count-take :
    (k n : ℕ) (xs : List Scored)
    → IsDescending xs
    → count (λ s. leb k s.pct) (take n xs) ≡ min n (count (λ s. leb k s.pct) xs)
count-take k zero xs d = ground arith
count-take k (suc n) [] d = ground arith
count-take k (suc n) (x ∷ xs) d = elim (Bool-cases (leb k x.pct)) [
  | inl le ↦ ground (arith, le, count-take k n xs d.1)
  | inr gt ↦
      let below = All-lt x.pct k xs (ground arith) d.0 in
      ground (
        arith,
        gt,
        count_none k xs below,
        count_none k (take n xs) (All-take (λ y. y.pct < k) n xs below),
      )
]

IsDescending-take : (n : ℕ) (xs : List Scored) → IsDescending xs → IsDescending (take n xs)
IsDescending-take zero xs d = tt
IsDescending-take (suc n) [] d = tt
IsDescending-take (suc n) (x ∷ xs) d =
    (All-take (λ y. y.pct ≤ x.pct) n xs d.0, IsDescending-take n xs d.1)

module _ {F : Type 0} (numbers : Numbers F) where
  -- The ten best, the best first: whatever score is asked for, those of them that reach it are as many as
  -- there are scored attempts that reach it, but ten at most.
  pub top_performers_lem :
      (attempts : List Attempt) (k : ℕ)
      → IsDescending (top_performers numbers attempts)
        × (count (λ s. leb k s.pct) (top_performers numbers attempts)
            ≡ min 10 (count (scores_in numbers (leb k)) attempts))
  unfolding top_performers analytics
  top_performers_lem attempts k =
      let scored = (analytics numbers attempts).scored in
      (
        IsDescending-take 10 (sort_scored scored) (sort_scored-IsDescending scored),
        count-take k 10 (sort_scored scored) (sort_scored-IsDescending scored)
            ∙ ap (min 10) (
                omega (
                  arith,
                  count-sort_scored (λ s. leb k s.pct) scored,
                  tally_all-scored numbers (leb k) empty_tally attempts,
                )),
      )
