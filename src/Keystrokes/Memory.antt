-- ===== src/Keystrokes/Memory.antt =====
-- Lists and hashes in memory, which show that the laws of `Lists` and `Hashes` can be met. Examples run on them.
use test_platform.Base.{
  ℕ, ◌+◌, ◌*◌, ◌≤◌, ◌≡◌, Option, none, some, List, [], ◌∷◌, ◌++◌, arith, ltb, ◌==◌, if◌then◌else◌,
}
use test_platform.Redis.Memory.{Cell, alive}
use test_platform.Keystrokes.{Lists, Hashes, Batch, Log, Field, field_eq, keep_last, or_zero}

-- What a key holds at a time: `d` if it has lapsed.
abbrev held : {V : Type 0} → V → ℕ → Cell V → V
held d t c = if alive t c then c.value else d

abbrev change : {V : Type 0} → V → ℕ → ℕ → (V → V) → (ℕ → Cell V) → ℕ → Cell V
change d now k f s j =
    if j == k
    then if alive now (s j)
      then record { value = f (s j).value; deadline = (s j).deadline }
      else record { value = f d; deadline = none }
    else s j

abbrev lapse : {V : Type 0} → ℕ → ℕ → ℕ → (ℕ → Cell V) → ℕ → Cell V
lapse now k ttl s j =
    if j == k
    then if alive now (s j)
      then record { value = (s j).value; deadline = some (now + ttl * 1000) }
      else s j
    else s j

module _ {V : Type 0} (d : V) where
  pub held-change :
      (now j k : ℕ) (f : V → V) (s : ℕ → Cell V)
      → held d now (change d now k f s j)
        ≡ (if j == k then f (held d now (s j)) else held d now (s j))
  held-change now j k f s = ground arith

  pub held-lapse :
      (t now j k ttl : ℕ) (s : ℕ → Cell V)
      → now ≤ t
      → held d t (lapse now k ttl s j) ≡ (
          if j == k
          then if ltb t (now + ttl * 1000) then held d now (s j) else d
          else held d t (s j))
  held-lapse t now j k ttl s after = ground arith

abbrev pub Queues : Type 0
Queues = ℕ → Cell (List Batch)

abbrev pub lists : Lists Batch Queues
lists = record {
  lrange = λ t k s. held [] t (s k);
  rpush = λ now k v. change [] now k (λ xs. xs ++ (v ∷ []));
  ltrim = λ now k n. change [] now k (keep_last n);
  expire = lapse;
  lrange-rpush = λ now j k v s. held-change [] now j k (λ xs. xs ++ (v ∷ [])) s;
  lrange-ltrim = λ now j k n s. held-change [] now j k (keep_last n) s;
  lrange-expire = held-lapse [];
}

abbrev blank : Field → Option ℕ
blank f = none

abbrev put : Field → ℕ → (Field → Option ℕ) → Field → Option ℕ
put g n h f = if field_eq f g then some n else h f

abbrev add_to : Field → ℕ → (Field → Option ℕ) → Field → Option ℕ
add_to g n h f = if field_eq f g then some (or_zero (h f) + n) else h f

abbrev pub Counters : Type 0
Counters = ℕ → Cell (Field → Option ℕ)

pub hget-add_to :
    (now j k : ℕ) (f g : Field) (n : ℕ) (h : Counters)
    → held blank now (change blank now k (add_to g n) h j) f ≡ (
        if j == k
        then if field_eq f g
          then some (or_zero (held blank now (h j) f) + n)
          else held blank now (h j) f
        else held blank now (h j) f)
hget-add_to now j k f g n h = ground arith

pub hget-put :
    (now j k : ℕ) (f g : Field) (n : ℕ) (h : Counters)
    → held blank now (change blank now k (put g n) h j) f ≡ (
        if j == k
        then if field_eq f g then some n else held blank now (h j) f
        else held blank now (h j) f)
hget-put now j k f g n h = ground arith

pub hget-lapse :
    (t now j k ttl : ℕ) (f : Field) (h : Counters)
    → now ≤ t
    → held blank t (lapse now k ttl h j) f ≡ (
        if j == k
        then if ltb t (now + ttl * 1000) then held blank now (h j) f else none
        else held blank t (h j) f)
hget-lapse t now j k ttl f h after = ground arith

abbrev pub hashes : Hashes Counters
hashes = record {
  hget = λ t k f h. held blank t (h k) f;
  hincrby = λ now k g n. change blank now k (add_to g n);
  hset = λ now k g n. change blank now k (put g n);
  expire = lapse;
  hget-hincrby = hget-add_to;
  hget-hset = hget-put;
  hget-expire = hget-lapse;
}

abbrev pub empty_log : Log Queues Counters
empty_log = record {
  batches = λ k. record { value = []; deadline = none };
  stats = λ k. record { value = blank; deadline = none };
}
