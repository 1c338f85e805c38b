-- ===== src/Catalog/Memory.antt =====
-- A table in memory, which shows that the laws of `Table` can be met.
use mathlib.Core.Option
use test_platform.Base.{
  ℕ, ◌≡◌, refl, Bool, true, false, Option, none, some, List, [], ◌∷◌, arith, ◌==◌, if◌then◌else◌,
  length, map,
}
use test_platform.Catalog.{Table}

module _ {R : Type 0} (key : R → ℕ) where
  abbrev pub find_row : ℕ → List R → Option R
  find_row j [] = none
  find_row j (r ∷ rs) = if j == key r then some r else find_row j rs

  abbrev pub update_rows : ℕ → (R → R) → List R → List R
  update_rows i f = map (λ r. if key r == i then f r else r)

  abbrev pub delete_rows : ℕ → List R → List R
  delete_rows i [] = []
  delete_rows i (r ∷ rs) = if key r == i then delete_rows i rs else r ∷ delete_rows i rs

  abbrev pub select_rows : (R → Bool) → List R → List R
  select_rows p [] = []
  select_rows p (r ∷ rs) = if p r then r ∷ select_rows p rs else select_rows p rs

  pub key_of_find_row : (j : ℕ) (r : R) (rs : List R) → find_row j rs ≡ some r → key r ≡ j
  key_of_find_row j r [] h = absurd (cc h)
  key_of_find_row j r (x ∷ rs) h = ground (arith, key_of_find_row j r rs)

  pub find_row-insert :
      (j : ℕ) (r : R) (rs : List R)
      → find_row j (r ∷ rs) ≡ (if j == key r then some r else find_row j rs)
  find_row-insert j r rs = refl

  pub find_row-update_rows :
      (i j : ℕ) (f : R → R) (rs : List R)
      → ((r : R) → key (f r) ≡ key r)
      → find_row j (update_rows i f rs)
        ≡ (if j == i then Option.map f (find_row j rs) else find_row j rs)
  find_row-update_rows i j f [] keeps = ground arith
  find_row-update_rows i j f (x ∷ rs) keeps =
      ground (arith, keeps x, find_row-update_rows i j f rs keeps)

  pub find_row-delete_rows :
      (i j : ℕ) (rs : List R)
      → find_row j (delete_rows i rs) ≡ (if j == i then none else find_row j rs)
  find_row-delete_rows i j [] = ground arith
  find_row-delete_rows i j (x ∷ rs) = ground (arith, find_row-delete_rows i j rs)

  pub unselected_row :
      (p : R → Bool) (j : ℕ) (r : R) (rs : List R)
      → find_row j rs ≡ some r
      → (length (select_rows p rs) == 0) ≡ true
      → p r ≡ false
  unselected_row p j r [] h e = absurd (cc h)
  unselected_row p j r (x ∷ rs) h e = ground (arith, unselected_row p j r rs)

  abbrev pub rows : Table R (List R) key
  rows = record {
    find = find_row;
    insert = λ r rs. r ∷ rs;
    update = update_rows;
    delete = delete_rows;
    select = select_rows;
    key_of_find = key_of_find_row;
    find-insert = find_row-insert;
    find-update = find_row-update_rows;
    find-delete = find_row-delete_rows;
    select-complete = unselected_row;
  }
