-- ===== src/Attempts/Paths.antt =====
-- `validateFilePaths` of routes/attempts.ts, and what a path that it lets through cannot do.
use test_platform.Base.{
  ℕ, ◌≡◌, refl, Bool, true, false, ◌&&◌, ◌||◌, not, List, [], ◌∷◌, arith, ◌==◌, if◌then◌else◌, any,
  All, Option, none, some, text_eq, ◌+◌, ◌-◌,
}
use test_platform.Redis.Keys.{Files}

abbrev pub dot : ℕ
dot = b'.'

abbrev pub slash : ℕ
slash = b'/'

abbrev pub backslash : ℕ
backslash = 92

abbrev pub starts_with : ℕ → List ℕ → Bool
starts_with c [] = false
starts_with c (d ∷ s) = d == c

-- `includes('..')`.
abbrev pub has_dots : List ℕ → Bool
has_dots [] = false
has_dots (c ∷ s) = c == dot && starts_with dot s || has_dots s

-- `split('/')`: at least one part; a character goes to the front of the first part.
abbrev pub cons_first : ℕ → List (List ℕ) → List (List ℕ)
cons_first c [] = (c ∷ []) ∷ []
cons_first c (part ∷ parts) = (c ∷ part) ∷ parts

unfoldable pub split_slash : List ℕ → List (List ℕ)
split_slash [] = [] ∷ []
split_slash (c ∷ s) = if c == slash then [] ∷ split_slash s else cons_first c (split_slash s)

unfoldable pub path_valid : List ℕ → Bool
unfolding split_slash
path_valid path =
    if has_dots path || starts_with slash path || any (λ c. c == backslash) path
    then false
    else not (any (starts_with dot) (split_slash path))

unfoldable pub paths_valid : Files → Bool
unfolding path_valid
paths_valid [] = true
paths_valid ((path, content) ∷ files) = path_valid path && paths_valid files

-- How a file system resolves the parts of a relative path: the depth below the starting directory,
-- or `none` once `..` leaves it. An empty part and `.` stay.
abbrev pub step_into : ℕ → List ℕ → Option ℕ
step_into d part =
    if text_eq part [] || text_eq part (dot ∷ [])
    then some d
    else if text_eq part (dot ∷ dot ∷ [])
    then if d == 0 then none else some (d - 1)
    else some (d + 1)

abbrev pub resolve : Option ℕ → List (List ℕ) → Option ℕ
resolve none parts = none
resolve (some d) [] = some d
resolve (some d) (part ∷ parts) = resolve (step_into d part) parts

-- A relative path that stays below the directory, names no hidden entry on the way, and reads the same
-- where a backslash separates.
abbrev pub IsContained : List ℕ → Type 0
IsContained path =
    (starts_with slash path ≡ false)
    × (any (λ c. c == backslash) path ≡ false)
    × All (λ part. starts_with dot part ≡ false) (split_slash path)
    × ((n : ℕ) × (resolve (some 0) (split_slash path) ≡ some n))

visible_parts :
    (parts : List (List ℕ))
    → any (starts_with dot) parts ≡ false
    → All (λ part. starts_with dot part ≡ false) parts
visible_parts [] h = tt
visible_parts (part ∷ parts) h = (ground arith, visible_parts parts (ground arith))

step_into_visible :
    (d : ℕ) (part : List ℕ) → starts_with dot part ≡ false → (n : ℕ) × (step_into d part ≡ some n)
step_into_visible d [] h = (d, refl)
step_into_visible d (c ∷ part) h = (d + 1, ground arith)

resolve_visible :
    (d : ℕ) (parts : List (List ℕ))
    → All (λ part. starts_with dot part ≡ false) parts
    → (n : ℕ) × (resolve (some d) parts ≡ some n)
resolve_visible d [] h = (d, refl)
resolve_visible d (part ∷ parts) (p, h) =
    let (e, q) = step_into_visible d part p in
    let (n, r) = resolve_visible e parts h in (n, rw (q, resolve) r)

path_valid-IsContained : (path : List ℕ) → path_valid path ≡ true → IsContained path
unfolding path_valid
path_valid-IsContained path h =
    let visible = visible_parts (split_slash path) (ground arith) in
    (ground arith, ground arith, visible, resolve_visible 0 (split_slash path) visible)

-- Every path that `validateFilePaths` lets through stays inside the directory that it is resolved in.
-- It is relative, and no part of it is hidden, `.` or `..`.
pub paths_valid-IsContained :
    (files : Files) → paths_valid files ≡ true → All (λ file. IsContained file.0) files
unfolding paths_valid
paths_valid-IsContained [] h = tt
paths_valid-IsContained ((path, content) ∷ files) h =
    (path_valid-IsContained path (ground arith), paths_valid-IsContained files (ground arith))
