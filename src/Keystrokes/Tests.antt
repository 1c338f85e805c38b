-- ===== src/Keystrokes/Tests.antt =====
-- A candidate who types, waits for a connection and sends, with lists in memory.
use test_platform.Base.{none, ℕ, ◌+◌, ◌≡◌, refl, true, false, some, [], length}
use test_platform.Keystrokes.{
  Keystroke, Batch, Log, Tracker, compress, keystroke_batch, receive, flush_buffer, handle_key_down,
  keystroke_ttl, not_authorized, batch_of,
}
use test_platform.Keystrokes.Memory.{lists, hashes, empty_log, Queues, Counters}
use test_platform.Keystrokes.Accepted.{message}

keystrokes : Unit {0}
unfolding handle_key_down flush_buffer keystroke_batch compress keystroke_ttl
keystrokes = tt

-- Forty characters for each keystroke.
abbrev forty_each : Batch → ℕ
forty_each b = 40 + length b.ks

abbrev key_a : Keystroke
key_a = record { key = 97; ts = 5; ctrl = false; shift = true; alt = false; meta = false }

abbrev key_b : Keystroke
key_b = record { key = 98; ts = 6; ctrl = false; shift = false; alt = false; meta = false }

abbrev fresh : Tracker
fresh = record { buffer = []; total = 0 }

abbrev typed_two : Tracker
typed_two = handle_key_down true key_b (handle_key_down true key_a fresh)

abbrev waited : Tracker
waited = (flush_buffer false 8 3 typed_two).1

abbrev first_batch : Batch
first_batch = batch_of (message 10 3 waited)

abbrev sent_log : Log Queues Counters
sent_log = receive lists hashes forty_each 10 (some 3) (flush_buffer true 10 3 waited).0 empty_log

abbrev sent_tracker : Tracker
sent_tracker = handle_key_down true key_a (flush_buffer true 10 3 waited).1

-- Then the socket is connected again and has not joined the attempt yet: the key `a` is lost.
abbrev lost_log : Log Queues Counters
lost_log = receive lists hashes forty_each 11 none (flush_buffer true 11 3 sent_tracker).0 sent_log

abbrev lost_tracker : Tracker
lost_tracker = handle_key_down true key_b (flush_buffer true 11 3 sent_tracker).1

-- A socket that has not joined the attempt is refused, and the client keeps nothing of what it sent.
refusal_test :
    ((keystroke_batch lists hashes forty_each 10 (some 4) (message 10 3 typed_two) empty_log).0
      ≡ not_authorized)
    × ((flush_buffer true 10 3 typed_two).1.buffer ≡ [])
unfolding keystrokes
refusal_test = (refl, refl)
