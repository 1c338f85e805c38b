-- ===== src/Validator/Filled.antt =====
-- When `trim` leaves nothing of a text (lib/challenge-validator.ts).
use test_platform.Base.{
  ℕ, ◌≡◌, refl, Bool, not, Option, none, some, List, [], ◌∷◌, arith, ◌==◌, length, any,
}
use test_platform.Validator.{is_space, is_empty, trim_end, trim, is_blank, is_blank_quick, text_of}

-- Some character of the text is not a space.
abbrev pub has_ink : List ℕ → Bool
has_ink = any (λ c. not (is_space c))

trim_end_lem : (s : List ℕ) → is_empty (trim_end s) ≡ not (has_ink s)
trim_end_lem [] = refl
trim_end_lem (c ∷ s) = ground (arith, trim_end_lem s)

pub trim_lem : (s : List ℕ) → is_empty (trim s) ≡ not (has_ink s)
trim_lem [] = refl
trim_lem (c ∷ s) = ground (arith, trim_lem s, trim_end_lem (c ∷ s))

length-is_empty : (s : List ℕ) → (length s == 0) ≡ is_empty s
length-is_empty [] = refl
length-is_empty (c ∷ s) = ground arith

pub is_blank_quick_lem : (t : Option (List ℕ)) → is_blank_quick t ≡ not (has_ink (text_of t))
unfolding is_blank_quick
is_blank_quick_lem none = refl
is_blank_quick_lem (some s) = trim_lem s

pub is_blank_lem : (t : Option (List ℕ)) → is_blank t ≡ not (has_ink (text_of t))
unfolding is_blank
is_blank_lem none = refl
is_blank_lem (some []) = refl
is_blank_lem (some (c ∷ s)) = ground (arith, length-is_empty (trim (c ∷ s)), trim_lem (c ∷ s))
