-- ===== src/Keystrokes/Bounded.antt =====
-- Lists of which only the last elements are kept (socket/keystrokeService.ts).
use mathlib.Core.List.{Sublistᴰ}
use mathlib.Core.List.Sublistᴰ.{slnil, cons}
use mathlib.Core.List.Sublistᴰ
use test_platform.Base.{
  map, ◌-◌, ◌+◌, ltb, Bool-cases, inl, inr, ℕ, ◌≤◌, ◌≡◌, refl, List, [], ◌∷◌, ◌++◌, length, arith,
  length-append,
}
use test_platform.Keystrokes.{keep_last}

module _ {ℓ} {A : Type ℓ} where
  pub length-keep_last : (n : ℕ) (xs : List A) → length (keep_last n xs) ≤ n
  length-keep_last n [] = omega arith
  length-keep_last n (x ∷ xs) = ground (arith, length-keep_last n xs)

  pub keep_last-append :
      (n : ℕ) (xs ys : List A) → keep_last n (keep_last n xs ++ ys) ≡ keep_last n (xs ++ ys)
  keep_last-append n [] ys = refl
  keep_last-append n (x ∷ xs) ys = ground (arith, keep_last-append n xs ys, length-append xs ys)

  pub keep_last_of_short : (n : ℕ) (xs : List A) → length xs ≤ n → keep_last n xs ≡ xs
  keep_last_of_short n [] h = refl
  keep_last_of_short n (x ∷ xs) h = ground (arith)

  -- What is cut off is what is over.
  pub length-keep_last_rest :
      (n : ℕ) (xs : List A) → length (keep_last n xs) + (length xs - n) ≡ length xs
  length-keep_last_rest n [] = omega arith
  length-keep_last_rest n (x ∷ xs) = ground (arith, length-keep_last_rest n xs)

module _ {ℓ κ} {A : Type ℓ} {B : Type κ} (f : A → B) where
  pub map-keep_last : (n : ℕ) (xs : List A) → Sublistᴰ (map f (keep_last n xs)) (map f xs)
  map-keep_last n [] = slnil
  map-keep_last n (x ∷ xs) = elim (Bool-cases (ltb n (length (x ∷ xs)))) [
    | inl long ↦ rw long (cons (map-keep_last n xs))
    | inr short ↦ rw short (Sublistᴰ.refl (map f (x ∷ xs)))
  ]

  pub length-map : (xs : List A) → length (map f xs) ≡ length xs
  length-map [] = refl
  length-map (x ∷ xs) = ground (arith, length-map xs)
