-- ===== src/Validator/Contained.antt =====
-- `includes` of lib/challenge-validator.ts finds the pattern exactly where it stands in the text.
use test_platform.Base.{
  ℕ, ◌≡◌, ◌↔◌, refl, ap, true, List, [], ◌∷◌, ◌++◌, arith, inl, inr, Bool-cases,
}
use test_platform.Validator.{begins_with, includes, has_reset, codes}

-- The pattern stands somewhere in the text.
abbrev pub Contains : List ℕ → List ℕ → Type 0
Contains pattern s = (before : List ℕ) × (after : List ℕ) × (s ≡ before ++ (pattern ++ after))

begins_with_sound :
    (pattern s : List ℕ) → begins_with pattern s ≡ true → (after : List ℕ) × (s ≡ pattern ++ after)
begins_with_sound [] s h = (s, refl)
begins_with_sound (p ∷ pattern) [] h = cc
begins_with_sound (p ∷ pattern) (c ∷ s) h =
    let (after, e) = begins_with_sound pattern s (ground arith) in (after, ground arith)

begins_with-append : (pattern after : List ℕ) → begins_with pattern (pattern ++ after) ≡ true
begins_with-append [] after = refl
begins_with-append (p ∷ pattern) after = ground (arith, begins_with-append pattern after)

includes-Contains : (pattern s : List ℕ) → includes pattern s ≡ true → Contains pattern s
unfolding includes
includes-Contains pattern [] h = let (after, e) = begins_with_sound pattern [] h in ([], after, e)
includes-Contains pattern (c ∷ s) h = elim (Bool-cases (begins_with pattern (c ∷ s))) [
  | inl e ↦ let (after, eq) = begins_with_sound pattern (c ∷ s) e in ([], after, eq)
  | inr e ↦
      let (before, after, eq) = includes-Contains pattern s (ground arith) in
      (c ∷ before, after, ap (λ x. c ∷ x) eq)
]

includes_found :
    (pattern before after : List ℕ) → includes pattern (before ++ (pattern ++ after)) ≡ true
unfolding includes
includes_found [] [] [] = refl
includes_found [] [] (a ∷ after) = refl
includes_found (p ∷ pattern) [] after = ground (arith, begins_with-append pattern after)
includes_found pattern (b ∷ before) after = ground (arith, includes_found pattern before after)

-- `includes` tells exactly whether the pattern stands in the text.
includes_iff : (pattern s : List ℕ) → (includes pattern s ≡ true) ↔ Contains pattern s
includes_iff pattern s = (includes-Contains pattern s, λ w. rw w.2 (includes_found pattern w.0 w.1))

pub has_reset-Contains :
    (s : List ℕ) → has_reset s ≡ true → Contains (codes "jest.resetModules()") s
unfolding has_reset
has_reset-Contains s h = (includes_iff (codes "jest.resetModules()") s).0 h
