-- ===== src/Redis.antt =====
-- The Redis server that apps/api/src/lib/redis.ts connects to. It is not part of the repository, so
-- it is a parameter: an interface for each kind of value, with the documented effect of each command
-- that the program sends. `Keys` has the keys and the values that the program stores.
-- Time is in milliseconds; a time to live is in seconds, as in `SET … EX`.
pub mod Keys
pub mod Memory
use test_platform.Base.{
  ℕ, ◌+◌, ◌*◌, ◌≤◌, ◌<◌, ◌≡◌, Bool, true, false, ◌&&◌, ◌||◌, not, Option, none, some, List, ltb,
  ◌==◌, if◌then◌else◌, is_some, has,
}
use Keys.{Key, SetKey, Value, key_eq, set_key_eq}

-- String values: GET, SET, SET EX, SET EX NX, DEL.
pub record Strings (S : Type 0) : Type 0 where
  pub get : ℕ → Key → S → Option Value
  pub set : Key → Value → S → S
  pub set_ex : ℕ → Key → Value → ℕ → S → S
  pub set_nx : ℕ → Key → Value → ℕ → S → Bool × S
  pub del : Key → S → S
  pub expire : ℕ → Key → ℕ → S → S
  pub get-set :
      (t : ℕ) (j k : Key) (v : Value) (s : S)
      → get t j (set k v s) ≡ (if key_eq j k then some v else get t j s)
  pub get-set_ex :
      (t now : ℕ) (j k : Key) (v : Value) (ttl : ℕ) (s : S)
      → get t j (set_ex now k v ttl s)
        ≡ (if key_eq j k then if ltb t (now + ttl * 1000) then some v else none else get t j s)
  -- The value is written only if the key holds none at the time.
  pub set_nx-answer :
      (now : ℕ) (k : Key) (v : Value) (ttl : ℕ) (s : S)
      → (set_nx now k v ttl s).0 ≡ not (is_some (get now k s))
  pub get-set_nx :
      (t now : ℕ) (j k : Key) (v : Value) (ttl : ℕ) (s : S)
      → get t j (set_nx now k v ttl s).1
        ≡ (if is_some (get now k s) then get t j s else get t j (set_ex now k v ttl s))
  pub get-del :
      (t : ℕ) (j k : Key) (s : S) → get t j (del k s) ≡ (if key_eq j k then none else get t j s)
  pub get-expire :
      (t now : ℕ) (j k : Key) (ttl : ℕ) (s : S)
      → now ≤ t
      → get t j (expire now k ttl s)
        ≡ (if key_eq j k then if ltb t (now + ttl * 1000) then get now j s else none else get t j s)

-- Sets of identifiers: SMEMBERS, SADD, SREM, DEL, EXPIRE. The order of the members is not
-- specified, so the laws speak of membership.
pub record Sets (S : Type 0) : Type 0 where
  pub smembers : ℕ → SetKey → S → List ℕ
  pub sadd : ℕ → SetKey → ℕ → S → S
  pub srem : ℕ → SetKey → ℕ → S → S
  pub del : SetKey → S → S
  pub expire : ℕ → SetKey → ℕ → S → S
  pub smembers-sadd :
      (now : ℕ) (j k : SetKey) (x y : ℕ) (s : S)
      → has x (smembers now j (sadd now k y s))
        ≡ (set_key_eq j k && x == y || has x (smembers now j s))
  pub smembers-srem :
      (now : ℕ) (j k : SetKey) (x y : ℕ) (s : S)
      → has x (smembers now j (srem now k y s))
        ≡ (not (set_key_eq j k && x == y) && has x (smembers now j s))
  pub smembers-del :
      (t : ℕ) (j k : SetKey) (x : ℕ) (s : S)
      → has x (smembers t j (del k s)) ≡ (not (set_key_eq j k) && has x (smembers t j s))
  pub smembers-expire :
      (now : ℕ) (j k : SetKey) (ttl x : ℕ) (s : S)
      → 0 < ttl
      → has x (smembers now j (expire now k ttl s)) ≡ has x (smembers now j s)
  pub smembers-expire_later :
      (t now : ℕ) (k : SetKey) (ttl x : ℕ) (s : S)
      → now ≤ t
      → t < now + ttl * 1000
      → has x (smembers t k (expire now k ttl s)) ≡ has x (smembers now k s)

-- The two stores of one server, for states `A` and `B`.
pub record Store (A B : Type 0) : Type 0 where
  pub strings : A
  pub sets : B
