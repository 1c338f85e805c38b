-- ===== src/Reports/Pages.antt =====
-- The pages of `GET /api/reports/attempts`.
use test_platform.Base.{
  ℕ, ◌+◌, ◌-◌, ◌*◌, ◌≤◌, ◌≡◌, refl, sym, ◌∙◌, ap, zero, suc, List, [], ◌∷◌, ◌++◌, arith, length,
  take,
}
use test_platform.Invitations.{Text}
use test_platform.Reports.{
  Parsed, not_a_number, negative, number, page_of, limit_of, Row, drop, search_attempts,
  list_attempts,
}

module _ {ℓ} {A : Type ℓ} where
  take_nil : (n : ℕ) → ◌≡◌ {A = List A} (take n []) []
  take_nil zero = refl
  take_nil (suc n) = refl

  take_add : (m n : ℕ) (xs : List A) → take (m + n) xs ≡ take m xs ++ take n (drop m xs)
  take_add zero n xs = let e : 0 + n ≡ n = omega arith in rw e refl
  take_add (suc m) n [] = let e : suc m + n ≡ suc (m + n) = omega arith in rw (e, take_nil n) refl
  take_add (suc m) n (x ∷ xs) =
      let e : suc m + n ≡ suc (m + n) = omega arith in rw e (ap (◌∷◌ x) (take_add m n xs))

  length-take-le : (n : ℕ) (xs : List A) → length (take n xs) ≤ n
  length-take-le zero xs = omega arith
  length-take-le (suc n) [] = omega arith
  length-take-le (suc n) (x ∷ xs) = omega (arith, length-take-le n xs)

  take_all : (n : ℕ) (xs : List A) → length xs ≤ n → take n xs ≡ xs
  take_all zero [] h = refl
  take_all zero (x ∷ xs) h = absurd (omega arith)
  take_all (suc n) [] h = refl
  take_all (suc n) (x ∷ xs) h = ap (◌∷◌ x) (take_all n xs (omega arith))

limit_of-le : (limit : Parsed) → limit_of limit ≤ 100
limit_of-le not_a_number = omega arith
limit_of-le negative = omega arith
limit_of-le (number n) = ground arith

-- The first pages, one after the other.
abbrev pub pages : Parsed → Text → List Row → ℕ → List Row
pages limit search rows zero = []
pages limit search rows (suc n) =
    pages limit search rows n ++ (list_attempts (number (suc n)) limit search rows).0

page_lem :
    (limit : Parsed) (search : Text) (rows : List Row) (n : ℕ)
    → (list_attempts (number (suc n)) limit search rows).0
      ≡ take (limit_of limit) (drop (n * limit_of limit) (search_attempts search rows))
unfolding list_attempts
page_lem limit search rows n =
    ap (λ k. take (limit_of limit) (drop (k * limit_of limit) (search_attempts search rows)))
      (ground arith)

pages-take :
    (limit : Parsed) (search : Text) (rows : List Row) (n : ℕ)
    → pages limit search rows n ≡ take (n * limit_of limit) (search_attempts search rows)
pages-take limit search rows zero = let e : 0 * limit_of limit ≡ 0 = omega arith in rw e refl
pages-take limit search rows (suc n) =
    ap (λ xs. pages limit search rows n ++ xs) (page_lem limit search rows n)
    ∙ ap
        (λ xs.
          xs ++ take (limit_of limit) (drop (n * limit_of limit) (search_attempts search rows)))
        (pages-take limit search rows n)
    ∙ sym (take_add (n * limit_of limit) (limit_of limit) (search_attempts search rows))
    ∙ ap (λ k. take k (search_attempts search rows)) (grind arith)

-- Whatever limit a client asks for, a page has at most a hundred rows, the number that comes with it is
-- that of all matches, and the pages from the first on, if they are enough for that number, give all
-- matches in their order, each once.
pub pages-search :
    (page limit : Parsed) (search : Text) (rows : List Row) (n : ℕ)
    → length (search_attempts search rows) ≤ n * limit_of limit
    → (length (list_attempts page limit search rows).0 ≤ 100)
      × ((list_attempts page limit search rows).1 ≡ length (pages limit search rows n))
      × (pages limit search rows n ≡ search_attempts search rows)
unfolding list_attempts
pages-search page limit search rows n enough =
    let all_rows =
      pages-take limit search rows n
      ∙ take_all (n * limit_of limit) (search_attempts search rows) enough in
    (
      omega (
        arith,
        limit_of-le limit,
        length-take-le (limit_of limit)
            (drop ((page_of page - 1) * limit_of limit) (search_attempts search rows)),
      ),
      ap length (sym all_rows),
      all_rows,
    )
