-- ===== src/Keystrokes.antt =====
-- The keystrokes of a candidate: the buffer of apps/web/src/hooks/useKeystrokeTracker.ts (from the repository's
-- root), and the handler of its batches, `keystroke:batch` of socket/keystrokeService.ts. A key is an
-- identifier. The speed of typing is left out.
pub mod Bounded
pub mod Accepted
pub mod Kept
pub mod Recorded
pub mod Memory
pub mod Tests
use test_platform.Base.{
  ℕ, ◌+◌, ◌*◌, ◌≤◌, ◌≡◌, Bool, true, false, not, Option, none, some, List, [], ◌∷◌, ◌++◌, map,
  length, ◌==◌, ltb, if◌then◌else◌, same_id,
}

unfoldable pub keystroke_ttl : ℕ
keystroke_ttl = 86400

abbrev pub max_batches : ℕ
max_batches = 200

abbrev pub max_batch_payload : ℕ
max_batch_payload = 50000

abbrev pub max_buffer_size : ℕ
max_buffer_size = 1000

pub record Keystroke : Type 0 where
  pub key : ℕ
  pub ts : ℕ
  pub ctrl : Bool
  pub shift : Bool
  pub alt : Bool
  pub meta : Bool

-- A keystroke under short names, with a 1 for a modifier and nothing for none.
pub record Entry : Type 0 where
  pub k : ℕ
  pub t : ℕ
  pub c : Option ℕ
  pub s : Option ℕ
  pub a : Option ℕ
  pub m : Option ℕ

abbrev pub mark_of : Bool → Option ℕ
mark_of b = if b then some 1 else none

unfoldable pub compress : Keystroke → Entry
compress x = record {
  k = x.key;
  t = x.ts;
  c = mark_of x.ctrl;
  s = mark_of x.shift;
  a = mark_of x.alt;
  m = mark_of x.meta;
}

-- What is stored, as JSON.
pub record Batch : Type 0 where
  pub ks : List Entry
  pub total : ℕ
  pub ts : ℕ
  pub n : ℕ

-- The message of the client.
pub record BatchData : Type 0 where
  pub attempt_id : ℕ
  pub keystrokes : List Keystroke
  pub total_keystrokes : ℕ
  pub timestamp : ℕ

-- The last elements of a list, `n` at most: LTRIM with -n and -1, and `splice` of what is over.
abbrev pub keep_last {ℓ} : {A : Type ℓ} → ℕ → List A → List A
keep_last n [] = []
keep_last n (x ∷ xs) = if ltb n (length (x ∷ xs)) then keep_last n xs else x ∷ xs

-- The lists of Redis, by the attempt of their key: LRANGE from 0 to -1, RPUSH, LTRIM from -n to -1, EXPIRE.
pub record Lists (V L : Type 0) : Type 0 where
  pub lrange : ℕ → ℕ → L → List V
  pub rpush : ℕ → ℕ → V → L → L
  pub ltrim : ℕ → ℕ → ℕ → L → L
  pub expire : ℕ → ℕ → ℕ → L → L
  pub lrange-rpush :
      (now j k : ℕ) (v : V) (l : L)
      → lrange now j (rpush now k v l)
        ≡ (if j == k then lrange now j l ++ (v ∷ []) else lrange now j l)
  pub lrange-ltrim :
      (now j k n : ℕ) (l : L)
      → lrange now j (ltrim now k n l)
        ≡ (if j == k then keep_last n (lrange now j l) else lrange now j l)
  pub lrange-expire :
      (t now j k ttl : ℕ) (l : L)
      → now ≤ t
      → lrange t j (expire now k ttl l)
        ≡ (if j == k then if ltb t (now + ttl * 1000) then lrange now j l else [] else lrange t j l)

pub data Field : Type 0 where
  total_keystrokes last_activity : Field

abbrev pub field_eq : Field → Field → Bool
field_eq total_keystrokes total_keystrokes = true
field_eq last_activity last_activity = true
field_eq _ _ = false

abbrev pub or_zero : Option ℕ → ℕ
or_zero none = 0
or_zero (some n) = n

-- The hashes of Redis, by the attempt of their key: HGET, HINCRBY, HSET, EXPIRE.
pub record Hashes (H : Type 0) : Type 0 where
  pub hget : ℕ → ℕ → Field → H → Option ℕ
  pub hincrby : ℕ → ℕ → Field → ℕ → H → H
  pub hset : ℕ → ℕ → Field → ℕ → H → H
  pub expire : ℕ → ℕ → ℕ → H → H
  pub hget-hincrby :
      (now j k : ℕ) (f g : Field) (n : ℕ) (h : H)
      → hget now j f (hincrby now k g n h) ≡ (
          if j == k
          then if field_eq f g then some (or_zero (hget now j f h) + n) else hget now j f h
          else hget now j f h)
  pub hget-hset :
      (now j k : ℕ) (f g : Field) (n : ℕ) (h : H)
      → hget now j f (hset now k g n h)
        ≡ (if j == k then if field_eq f g then some n else hget now j f h else hget now j f h)
  pub hget-expire :
      (t now j k ttl : ℕ) (f : Field) (h : H)
      → now ≤ t
      → hget t j f (expire now k ttl h) ≡ (
          if j == k
          then if ltb t (now + ttl * 1000) then hget now j f h else none
          else hget t j f h)

-- What the callback of a message is given.
pub data Ack : Type 0 where
  success not_authorized too_large : Ack

pub record Log (L H : Type 0) : Type 0 where
  pub batches : L
  pub stats : H

abbrev pub batch_of : BatchData → Batch
batch_of d = record {
  ks = map compress d.keystrokes;
  total = d.total_keystrokes;
  ts = d.timestamp;
  n = length d.keystrokes;
}

-- The buffer of the client, and the number of the keystrokes since it began.
pub record Tracker : Type 0 where
  pub buffer : List Keystroke
  pub total : ℕ

-- `handleKeyDown`.
unfoldable pub handle_key_down : Bool → Keystroke → Tracker → Tracker
handle_key_down enabled x t =
    if enabled then record { buffer = t.buffer ++ (x ∷ []); total = t.total + 1 } else t

-- `flushBuffer`, with the message that it emits.
unfoldable pub flush_buffer : Bool → ℕ → ℕ → Tracker → Option BatchData × Tracker
flush_buffer connected now attempt_id t =
    if length t.buffer == 0
    then (none, t)
    else if connected
    then (
      some (record {
        attempt_id = attempt_id;
        keystrokes = t.buffer;
        total_keystrokes = t.total;
        timestamp = now;
      }),
      record t { buffer = [] },
    )
    else (none, record t { buffer = keep_last max_buffer_size t.buffer })

-- `payload_length` is the length of the JSON of a batch.
module _ {L H : Type 0} (lists : Lists Batch L) (hashes : Hashes H)
    (payload_length : Batch → ℕ) where
  -- `keystroke:batch`, of a socket that has joined the attempt `joined`.
  unfoldable pub keystroke_batch : ℕ → Option ℕ → BatchData → Log L H → Ack × Log L H
  keystroke_batch now joined d l =
      if not (same_id joined (some d.attempt_id))
      then (not_authorized, l)
      else if length d.keystrokes == 0
      then (success, l)
      else if ltb max_batch_payload (payload_length (batch_of d))
      then (too_large, l)
      else (
        success,
        record {
          batches = lists.expire now d.attempt_id keystroke_ttl (
              lists.ltrim now d.attempt_id max_batches
                (lists.rpush now d.attempt_id (batch_of d) l.batches));
          stats = hashes.expire now d.attempt_id keystroke_ttl (
              hashes.hset now d.attempt_id last_activity d.timestamp
                (hashes.hincrby now d.attempt_id total_keystrokes (length d.keystrokes) l.stats));
        },
      )

  -- A message that the client emits reaches the handler, if there is one.
  abbrev pub receive : ℕ → Option ℕ → Option BatchData → Log L H → Log L H
  receive now joined none l = l
  receive now joined (some d) l = (keystroke_batch now joined d l).1
