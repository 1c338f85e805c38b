-- ===== src/Keystrokes/Recorded.antt =====
-- From the keyboard to Redis: what apps/web/src/hooks/useKeystrokeTracker.ts takes up, sends, drops and loses,
-- and what socket/keystrokeService.ts keeps.
use mathlib.Core.List.{Sublistᴰ}
use test_platform.Base.{
  ℕ, Option, ◌+◌, ◌-◌, ◌*◌, ◌≤◌, ◌<◌, ◌≡◌, true, false, none, some, List, [], ◌∷◌, ◌++◌, length,
  ◌==◌,
}
use test_platform.Keystrokes.{
  Keystroke, Batch, Lists, Hashes, Log, Tracker, batch_of, receive, flush_buffer, handle_key_down,
  keystroke_ttl, max_batch_payload, max_buffer_size, total_keystrokes,
}
use test_platform.Keystrokes.Accepted.{message, is_taken}

module _ {L H : Type 0} (lists : Lists Batch L) (hashes : Hashes H) (payload_length : Batch → ℕ)
    (id : ℕ) where
  -- What the client and the server go through for the attempt `id`: the time of the last batch that was taken,
  -- the keystrokes typed, the batches taken, the number of keystrokes lost. A key is pressed. The buffer is
  -- emptied and sent as a batch: it is taken, or it is refused, since the socket has not joined the attempt or
  -- the batch is too long, and its keystrokes are lost. Without a connection the buffer is kept, and what it has
  -- above 1000 is lost. A flush of an empty buffer does nothing, and batches follow within 24 hours.
  pub data Typing : ℕ → List Keystroke → List Batch → ℕ → Tracker → Log L H → Type 0 where
    begins :
        {l : Log L H} (now : ℕ)
        → ((t : ℕ) → lists.lrange t id l.batches ≡ [])
        → ((t : ℕ) → hashes.hget t id total_keystrokes l.stats ≡ none)
        → Typing now [] [] 0 (record { buffer = []; total = 0 }) l
    types :
        {now : ℕ} {typed : List Keystroke} {sent : List Batch} {lost : ℕ} {t : Tracker}
        {l : Log L H} (x : Keystroke)
        → Typing now typed sent lost t l
        → Typing now (typed ++ (x ∷ [])) sent lost (handle_key_down true x t) l
    sends :
        {now : ℕ} {typed : List Keystroke} {sent : List Batch} {lost : ℕ} {t : Tracker}
        {l : Log L H} (later : ℕ)
        → (length t.buffer == 0) ≡ false
        → payload_length (batch_of (message later id t)) ≤ max_batch_payload
        → now ≤ later
        → later < now + keystroke_ttl * 1000
        → Typing now typed sent lost t l
        → Typing later typed
            (sent ++ (batch_of (message later id t) ∷ []))
            lost
            (flush_buffer true later id t).1
            (receive lists hashes payload_length later (some id) (flush_buffer true later id t).0 l)
    loses :
        {now : ℕ} {typed : List Keystroke} {sent : List Batch} {lost : ℕ} {t : Tracker}
        {l : Log L H} (later : ℕ) (joined : Option ℕ)
        → (length t.buffer == 0) ≡ false
        → is_taken lists hashes payload_length id joined (message later id t) ≡ false
        → Typing now typed sent lost t l
        → Typing now typed sent
            (lost + length t.buffer)
            (flush_buffer true later id t).1
            (receive lists hashes payload_length later joined (flush_buffer true later id t).0 l)
    waits :
        {now : ℕ} {typed : List Keystroke} {sent : List Batch} {lost : ℕ} {t : Tracker}
        {l : Log L H} (later : ℕ)
        → Typing now typed sent lost t l
        → Typing now typed sent
            (lost + (length t.buffer - max_buffer_size))
            (flush_buffer false later id t).1
            l
