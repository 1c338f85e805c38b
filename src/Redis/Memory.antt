-- ===== src/Redis/Memory.antt =====
-- A server in memory, which shows that the laws of `Strings` and `Sets` can be met. Examples run on
-- it.
use test_platform.Base.{
  remove, has-remove, ℕ, ◌+◌, ◌*◌, ◌≤◌, ◌<◌, ◌≡◌, Bool, true, false, ◌&&◌, ◌||◌, not, Option, none,
  some, List, [], ◌∷◌, arith, ltb, ◌==◌, if◌then◌else◌, is_some, has,
}
use test_platform.Redis.Keys.{set_key_eq_refl, Key, SetKey, Value, key_eq, set_key_eq}
use test_platform.Redis.{Strings, Sets, Store}

-- What a key holds, with the time at which it lapses.
pub record Cell (V : Type 0) : Type 0 where
  pub value : V
  pub deadline : Option ℕ

abbrev pub alive : {V : Type 0} → ℕ → Cell V → Bool
alive t c = elim c.deadline [ none ↦ true | some d ↦ ltb t d ]

abbrev pub Cells : Type 0
Cells = Key → Option (Cell Value)

abbrev pub read : ℕ → Option (Cell Value) → Option Value
read t none = none
read t (some c) = if alive t c then some c.value else none

abbrev pub write : Key → Option (Cell Value) → Cells → Cells
write k c s j = if key_eq j k then c else s j

abbrev held : Value → Option ℕ → Option (Cell Value)
held v d = some (record { value = v; deadline = d })

abbrev renew : ℕ → ℕ → Option (Cell Value) → Option (Cell Value)
renew now d none = none
renew now d (some c) = if alive now c then some (record c { deadline = some d }) else none

abbrev mem_set_ex : ℕ → Key → Value → ℕ → Cells → Cells
mem_set_ex now k v ttl = write k (held v (some (now + ttl * 1000)))

abbrev mem_set_nx : ℕ → Key → Value → ℕ → Cells → Bool × Cells
mem_set_nx now k v ttl s =
    if is_some (read now (s k)) then (false, s) else (true, mem_set_ex now k v ttl s)

pub mem_get-expire :
    (t now : ℕ) (j k : Key) (ttl : ℕ) (s : Cells)
    → now ≤ t
    → read t (if key_eq j k then renew now (now + ttl * 1000) (s j) else s j) ≡ (
        if key_eq j k
        then if ltb t (now + ttl * 1000) then read now (s j) else none
        else read t (s j))
mem_get-expire t now j k ttl s h = ground arith

pub mem_set_nx-answer :
    (now : ℕ) (k : Key) (v : Value) (ttl : ℕ) (s : Cells)
    → (mem_set_nx now k v ttl s).0 ≡ not (is_some (read now (s k)))
mem_set_nx-answer now k v ttl s = ground arith

pub mem_get-set_nx :
    (t now : ℕ) (j k : Key) (v : Value) (ttl : ℕ) (s : Cells)
    → read t ((mem_set_nx now k v ttl s).1 j)
      ≡ (if is_some (read now (s k)) then read t (s j) else read t (mem_set_ex now k v ttl s j))
mem_get-set_nx t now j k v ttl s = ground arith

pub mem_get-set_ex :
    (t now : ℕ) (j k : Key) (v : Value) (ttl : ℕ) (s : Cells)
    → read t (mem_set_ex now k v ttl s j)
      ≡ (if key_eq j k then if ltb t (now + ttl * 1000) then some v else none else read t (s j))
mem_get-set_ex t now j k v ttl s = ground arith

pub mem_get-set :
    (t : ℕ) (j k : Key) (v : Value) (s : Cells)
    → read t (write k (held v none) s j) ≡ (if key_eq j k then some v else read t (s j))
mem_get-set t j k v s = ground arith

pub mem_get-del :
    (t : ℕ) (j k : Key) (s : Cells)
    → read t (write k none s j) ≡ (if key_eq j k then none else read t (s j))
mem_get-del t j k s = ground arith

abbrev pub strings : Strings Cells
strings = record {
  get = λ t k s. read t (s k);
  set = λ k v. write k (held v none);
  set_ex = mem_set_ex;
  set_nx = mem_set_nx;
  del = λ k. write k none;
  expire = λ now k ttl s j. if key_eq j k then renew now (now + ttl * 1000) (s j) else s j;
  get-set = mem_get-set;
  get-set_ex = mem_get-set_ex;
  set_nx-answer = mem_set_nx-answer;
  get-set_nx = mem_get-set_nx;
  get-del = mem_get-del;
  get-expire = mem_get-expire;
}

-- A set that has lapsed is empty.
abbrev pub Groups : Type 0
Groups = SetKey → Cell (List ℕ)

abbrev pub members : ℕ → Cell (List ℕ) → List ℕ
members t c = if alive t c then c.value else []

-- A command that adds to a lapsed set starts a set without a time to live.
abbrev change : ℕ → (List ℕ → List ℕ) → Cell (List ℕ) → Cell (List ℕ)
change now f c =
    if alive now c
    then record { value = f c.value; deadline = c.deadline }
    else record { value = f []; deadline = none }

abbrev at : SetKey → (Cell (List ℕ) → Cell (List ℕ)) → Groups → Groups
at k f s j = if set_key_eq j k then f (s j) else s j

pub mem_smembers-sadd :
    (now : ℕ) (j k : SetKey) (x y : ℕ) (s : Groups)
    → has x (members now (at k (change now (λ m. y ∷ m)) s j))
      ≡ (set_key_eq j k && x == y || has x (members now (s j)))
mem_smembers-sadd now j k x y s = ground arith

pub mem_smembers-srem :
    (now : ℕ) (j k : SetKey) (x y : ℕ) (s : Groups)
    → has x (members now (at k (change now (remove y)) s j))
      ≡ (not (set_key_eq j k && x == y) && has x (members now (s j)))
mem_smembers-srem now j k x y s = ground (arith, has-remove x y (s j).value)

pub mem_smembers-del :
    (t : ℕ) (j k : SetKey) (x : ℕ) (s : Groups)
    → has x (members t (at k (λ _. record { value = []; deadline = none }) s j))
      ≡ (not (set_key_eq j k) && has x (members t (s j)))
mem_smembers-del t j k x s = ground arith

abbrev lapse : ℕ → ℕ → Cell (List ℕ) → Cell (List ℕ)
lapse now d c = if alive now c then record c { deadline = some d } else c

pub mem_smembers-expire :
    (now : ℕ) (j k : SetKey) (ttl x : ℕ) (s : Groups)
    → 0 < ttl
    → has x (members now (at k (lapse now (now + ttl * 1000)) s j)) ≡ has x (members now (s j))
mem_smembers-expire now j k ttl x s h = ground arith

pub mem_smembers-expire_later :
    (t now : ℕ) (k : SetKey) (ttl x : ℕ) (s : Groups)
    → now ≤ t
    → t < now + ttl * 1000
    → has x (members t (at k (lapse now (now + ttl * 1000)) s k)) ≡ has x (members now (s k))
mem_smembers-expire_later t now k ttl x s h early = ground (arith, set_key_eq_refl k)

abbrev pub sets : Sets Groups
sets = record {
  smembers = λ t k s. members t (s k);
  sadd = λ now k y. at k (change now (λ m. y ∷ m));
  srem = λ now k y. at k (change now (remove y));
  del = λ k. at k (λ _. record { value = []; deadline = none });
  expire = λ now k ttl. at k (lapse now (now + ttl * 1000));
  smembers-sadd = mem_smembers-sadd;
  smembers-srem = mem_smembers-srem;
  smembers-del = mem_smembers-del;
  smembers-expire = mem_smembers-expire;
  smembers-expire_later = mem_smembers-expire_later;
}

abbrev pub empty : Store Cells Groups
empty = record { strings = λ _. none; sets = λ _. record { value = []; deadline = none } }
