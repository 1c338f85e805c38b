-- ===== src/Keystrokes/Accepted.antt =====
-- One batch of apps/web/src/hooks/useKeystrokeTracker.ts at the handler of socket/keystrokeService.ts: taken, or
-- refused.
use mathlib.Core.List.{append-nil, append_assoc}
use test_platform.Base.{
  ℕ, Bool, Option, false, ◌&&◌, same_id, leb, ◌+◌, ◌*◌, ◌≤◌, ◌<◌, ◌≡◌, false, some, List, [], ◌∷◌,
  ◌++◌, length, arith, ◌==◌, ==_refl, sym, ap, ◌∙◌,
}
use test_platform.Keystrokes.{
  Entry, Batch, BatchData, Lists, Hashes, Log, Tracker, keep_last, batch_of, keystroke_batch,
  keystroke_ttl, max_batches, max_batch_payload, or_zero, total_keystrokes, last_activity, success,
}

-- The keystrokes of batches, in their order.
abbrev pub keystrokes_of : List Batch → List Entry
keystrokes_of [] = []
keystrokes_of (b ∷ bs) = b.ks ++ keystrokes_of bs

pub keystrokes_of-append :
    (bs : List Batch) (b : Batch) → keystrokes_of (bs ++ (b ∷ [])) ≡ keystrokes_of bs ++ b.ks
keystrokes_of-append [] b = append-nil b.ks
keystrokes_of-append (a ∷ bs) b =
    ap (λ x. a.ks ++ x) (keystrokes_of-append bs b)
    ∙ sym (append_assoc a.ks (keystrokes_of bs) b.ks)

-- The message that the client emits.
abbrev pub message : ℕ → ℕ → Tracker → BatchData
message now id t = record {
  attempt_id = id;
  keystrokes = t.buffer;
  total_keystrokes = t.total;
  timestamp = now;
}

module _ {L H : Type 0} (lists : Lists Batch L) (hashes : Hashes H) (payload_length : Batch → ℕ)
    (id : ℕ) where
  -- An accepted batch goes to the end of the list of its attempt, of which the last 200 are kept, and is
  -- counted; both can be read for 24 hours.
  pub batch_accepted :
      (now t : ℕ) (d : BatchData) (l : Log L H)
      → d.attempt_id ≡ id
      → (length d.keystrokes == 0) ≡ false
      → payload_length (batch_of d) ≤ max_batch_payload
      → now ≤ t
      → t < now + keystroke_ttl * 1000
      → let result = keystroke_batch lists hashes payload_length now (some id) d l in
        (result.0 ≡ success)
        × (lists.lrange t id result.1.batches
            ≡ keep_last max_batches (lists.lrange now id l.batches ++ (batch_of d ∷ [])))
        × (or_zero (hashes.hget t id total_keystrokes result.1.stats)
            ≡ or_zero (hashes.hget now id total_keystrokes l.stats) + length d.keystrokes)
  unfolding keystroke_batch
  batch_accepted now t d l same some_keys small after early =
      let pushed = lists.rpush now d.attempt_id (batch_of d) l.batches in
      let trimmed = lists.ltrim now d.attempt_id max_batches pushed in
      let counted =
        hashes.hincrby now d.attempt_id total_keystrokes (length d.keystrokes) l.stats in
      let marked = hashes.hset now d.attempt_id last_activity d.timestamp counted in
      ground (
        arith,
        ==_refl id,
        lists.lrange-expire t now id d.attempt_id keystroke_ttl trimmed after,
        lists.lrange-ltrim now id d.attempt_id max_batches pushed,
        lists.lrange-rpush now id d.attempt_id (batch_of d) l.batches,
        hashes.hget-expire t now id d.attempt_id keystroke_ttl total_keystrokes marked after,
        hashes.hget-hset now id d.attempt_id total_keystrokes last_activity d.timestamp counted,
        hashes.hget-hincrby now id d.attempt_id total_keystrokes total_keystrokes
            (length d.keystrokes) l.stats,
      )

  -- A batch is taken if the socket has joined its attempt and it is not too long.
  abbrev pub is_taken : Option ℕ → BatchData → Bool
  is_taken joined d =
      same_id joined (some d.attempt_id) && leb (payload_length (batch_of d)) max_batch_payload

  pub batch_refused :
      (now : ℕ) (joined : Option ℕ) (d : BatchData) (l : Log L H)
      → is_taken joined d ≡ false
      → (keystroke_batch lists hashes payload_length now joined d l).1 ≡ l
  unfolding keystroke_batch
  batch_refused now joined d l refused = ground arith
