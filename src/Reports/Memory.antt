-- ===== src/Reports/Memory.antt =====
-- Exact fractions, rounded to the next whole number, which show that the laws of `Numbers` can be met. A
-- threshold is a percentage.
use native.Mathlib.Nat.{le-div_iff_mul-le, div-mul-le_self, div-eq_of_lt-le}
use test_platform.Base.{ℕ, ◌+◌, ◌*◌, ◌/◌, ◌^◌, ◌≤◌, ◌<◌, ◌≡◌, Bool, true, arith, leb}
use test_platform.Reports.{Numbers}

abbrev pub rounded : ℕ → ℕ → ℕ
rounded p t = (200 * p + t) / (2 * t)

abbrev pub at_least : ℕ → ℕ → ℕ → Bool
at_least p t x = leb (x * t) (100 * p)

pub rounded_mono : (p q t : ℕ) → 0 < t → t < 2 ^ 53 → p ≤ q → q ≤ t → rounded p t ≤ rounded q t
rounded_mono p q t pos few more bound =
    (le-div_iff_mul-le (omega arith)).1 (omega (arith, div-mul-le_self (200 * p + t) (2 * t)))

pub rounded_self : (t : ℕ) → 0 < t → t < 2 ^ 53 → rounded t t ≡ 100
rounded_self t pos few =
    div-eq_of_lt-le {k = 100} (2 * t) {m = 200 * t + t} (omega arith) (omega arith)

pub at_least_mono :
    (p q t : ℕ) (x : ℕ)
    → 0 < t
    → t < 2 ^ 53
    → p ≤ q
    → q ≤ t
    → at_least p t x ≡ true
    → at_least q t x ≡ true
at_least_mono p q t x pos few more bound h = ground arith

abbrev pub fractions : Numbers ℕ
fractions = record {
  percent = rounded;
  reaches = at_least;
  percent_mono = rounded_mono;
  percent_self = rounded_self;
  reaches_mono = at_least_mono;
}
