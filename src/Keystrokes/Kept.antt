-- ===== src/Keystrokes/Kept.antt =====
-- What is kept of the keystrokes of apps/web/src/hooks/useKeystrokeTracker.ts, over each step of the client and of
-- socket/keystrokeService.ts.
use mathlib.Core.List.{Sublistᴰ, append-nil, append_assoc, map-append}
use mathlib.Core.List.Sublistᴰ
use test_platform.Base.{
  ℕ, ◌+◌, ◌-◌, ◌*◌, ◌≤◌, ◌<◌, ◌≡◌, refl, true, false, some, List, [], ◌∷◌, ◌++◌, map, length, arith,
  ◌==◌, length-append, sym, ap, ◌∙◌,
}
use test_platform.Keystrokes.{
  Keystroke, Batch, Lists, Hashes, Log, Tracker, keep_last, batch_of, compress, keystroke_batch,
  flush_buffer, handle_key_down, keystroke_ttl, max_batches, max_batch_payload, max_buffer_size,
  or_zero, total_keystrokes,
}
use test_platform.Keystrokes.Bounded.{
  keep_last-append, length-keep_last_rest, keep_last_of_short, map-keep_last, length-map,
}
use test_platform.Keystrokes.Accepted.{keystrokes_of, keystrokes_of-append, message, batch_accepted}

pub unsent :
    (later id : ℕ) (t : Tracker)
    → (flush_buffer false later id t).1 ≡ record t { buffer = keep_last max_buffer_size t.buffer }
unfolding flush_buffer
unsent later id t = ground (arith, keep_last_of_short max_buffer_size t.buffer)

module _ {L H : Type 0} (lists : Lists Batch L) (hashes : Hashes H) (payload_length : Batch → ℕ)
    (id : ℕ) where
  -- What Redis has, and what the client has, against what was typed, taken and lost.
  pub record IsRecorded (now : ℕ) (typed : List Keystroke) (sent : List Batch) (lost : ℕ)
      (tr : Tracker) (l : Log L H) : Type 0 where
    pub stored :
        (t : ℕ)
        → now ≤ t
        → t < now + keystroke_ttl * 1000
        → lists.lrange t id l.batches ≡ keep_last max_batches sent
    pub counted :
        (t : ℕ)
        → now ≤ t
        → t < now + keystroke_ttl * 1000
        → or_zero (hashes.hget t id total_keystrokes l.stats) + length tr.buffer + lost
          ≡ length typed
    pub kept : Sublistᴰ (keystrokes_of sent ++ map compress tr.buffer) (map compress typed)
    pub missing : length (keystrokes_of sent) + length tr.buffer + lost ≡ length typed
    pub total : tr.total ≡ length typed

  pub types-IsRecorded :
      (now : ℕ) (typed : List Keystroke) (sent : List Batch) (lost : ℕ) (t : Tracker) (l : Log L H)
      (x : Keystroke)
      → IsRecorded now typed sent lost t l
      → IsRecorded now (typed ++ (x ∷ [])) sent lost (handle_key_down true x t) l
  unfolding handle_key_down
  types-IsRecorded now typed sent lost t l x w =
      let longer = length-append t.buffer (x ∷ []) in
      let more = length-append typed (x ∷ []) in
      record {
        stored = w.stored;
        counted = λ u after early. omega (arith, w.counted u after early, longer, more);
        kept =
            rw
              (
                map-append compress t.buffer (x ∷ []),
                map-append compress typed (x ∷ []),
                sym (append_assoc (keystrokes_of sent) (map compress t.buffer) (compress x ∷ [])),
              )
              (Sublistᴰ.append w.kept (Sublistᴰ.refl (compress x ∷ [])));
        missing = omega (arith, w.missing, longer, more);
        total = omega (arith, w.total, more);
      }

  pub sends-IsRecorded :
      (later : ℕ) (now : ℕ) (typed : List Keystroke) (sent : List Batch) (lost : ℕ) (t : Tracker)
      (l : Log L H)
      → (length t.buffer == 0) ≡ false
      → payload_length (batch_of (message later id t)) ≤ max_batch_payload
      → now ≤ later
      → later < now + keystroke_ttl * 1000
      → IsRecorded now typed sent lost t l
      → IsRecorded later typed
          (sent ++ (batch_of (message later id t) ∷ []))
          lost
          (record t { buffer = [] })
          (keystroke_batch lists hashes payload_length later (some id) (message later id t) l).1
  sends-IsRecorded later now typed sent lost t l some_keys small after early w =
      let b = batch_of (message later id t) in
      let step = λ (u : ℕ) (from : later ≤ u) (until : u < later + keystroke_ttl * 1000).
        batch_accepted lists hashes payload_length id later u (message later id t) l refl some_keys
          small from until in
      let all = keystrokes_of-append sent b in
      record {
        stored = λ u from until.
            (step u from until).1
            ∙ ap (λ y. keep_last max_batches (y ++ (b ∷ []))) (w.stored later after early)
            ∙ keep_last-append max_batches sent (b ∷ []);
        counted = λ u from until. omega (arith, (step u from until).2, w.counted later after early);
        kept = rw (append-nil (keystrokes_of (sent ++ (b ∷ []))), all) w.kept;
        missing = omega (
          arith,
          w.missing,
          ap length all,
          length-append (keystrokes_of sent) b.ks,
          length-map compress t.buffer,
        );
        total = w.total;
      }

  pub loses-IsRecorded :
      (now : ℕ) (typed : List Keystroke) (sent : List Batch) (lost : ℕ) (t : Tracker) (l : Log L H)
      → IsRecorded now typed sent lost t l
      → IsRecorded now typed sent (lost + length t.buffer) (record t { buffer = [] }) l
  loses-IsRecorded now typed sent lost t l w = record {
    stored = w.stored;
    counted = λ u after early. omega (arith, w.counted u after early);
    kept =
        Sublistᴰ.trans
          (Sublistᴰ.append (Sublistᴰ.refl (keystrokes_of sent))
            (Sublistᴰ.nil-sublist (map compress t.buffer)))
          w.kept;
    missing = omega (arith, w.missing);
    total = w.total;
  }

  pub waits-IsRecorded :
      (now : ℕ) (typed : List Keystroke) (sent : List Batch) (lost : ℕ) (t : Tracker) (l : Log L H)
      → IsRecorded now typed sent lost t l
      → IsRecorded now typed sent
          (lost + (length t.buffer - max_buffer_size))
          (record t { buffer = keep_last max_buffer_size t.buffer })
          l
  waits-IsRecorded now typed sent lost t l w =
      let rest = length-keep_last_rest max_buffer_size t.buffer in
      record {
        stored = w.stored;
        counted = λ u after early. omega (arith, w.counted u after early, rest);
        kept =
            Sublistᴰ.trans
              (Sublistᴰ.append (Sublistᴰ.refl (keystrokes_of sent))
                (map-keep_last compress max_buffer_size t.buffer))
              w.kept;
        missing = omega (arith, w.missing, rest);
        total = w.total;
      }
