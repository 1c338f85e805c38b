-- ===== src/Autosave.antt =====
-- apps/api/src/lib/autosave-buffer.ts: files are saved to Redis, marked as dirty, and flushed to the
-- database by a periodic job or before a submission. The statistics and the timer that calls
-- `flushAllDirty` are left out.
pub mod Laws
pub mod Races
pub mod Refinement
pub mod Tests
use test_platform.Base.{
  ℕ, ◌+◌, ◌*◌, Bool, true, false, Option, none, some, List, [], ◌∷◌, if◌then◌else◌, ◌==◌, length,
}
use test_platform.Redis.{Strings, Sets, Store}
use test_platform.Redis.Keys.{autosave, autosave_dirty, Files, Buffered, buffered, parse_buffered}
use test_platform.Platform.{Attempt, AttemptTable, App, set_files}

abbrev pub autosave_ttl : ℕ
autosave_ttl = 12 * 60 * 60

module _ {A B T Q : Type 0} (kv : Strings A) (ss : Sets B) (table : AttemptTable T) where
  unfoldable pub save_to_buffer : ℕ → ℕ → Files → App A B T Q → App A B T Q
  save_to_buffer now attempt_id files app = record app {
    store = record {
      strings =
          kv.set_ex now (autosave attempt_id)
            (buffered (record { files = files; updated_at = now })) autosave_ttl app.store.strings;
      sets = ss.sadd now autosave_dirty attempt_id app.store.sets;
    };
  }

  -- What is in the buffer, parsed; `none` if there is nothing or if it does not parse.
  unfoldable pub read_buffer : ℕ → ℕ → App A B T Q → Option Buffered
  read_buffer now attempt_id app = elim (kv.get now (autosave attempt_id) app.store.strings) [
    | none ↦ none
    | some v ↦ parse_buffered v
  ]

  unfoldable pub get_from_buffer : ℕ → ℕ → App A B T Q → Option Files
  get_from_buffer now attempt_id app = elim (read_buffer now attempt_id app) [
    | none ↦ none
    | some b ↦ some b.files
  ]

  -- The two writes of `flushToDatabase`: the row, then the mark.
  unfoldable pub write_back : ℕ → ℕ → Buffered → App A B T Q → App A B T Q
  write_back now attempt_id b app = record app {
    attempts = table.update attempt_id (set_files b.files) app.attempts;
    store = record app.store { sets = ss.srem now autosave_dirty attempt_id app.store.sets };
  }

  unfoldable pub flush_to_database : ℕ → ℕ → App A B T Q → Bool × App A B T Q
  flush_to_database now attempt_id app = elim (read_buffer now attempt_id app) [
    | none ↦ (false, app)
    | some b ↦ (true, write_back now attempt_id b app)
  ]

  -- The loop of `flushAllDirty`.
  unfoldable pub flush_attempts : ℕ → List ℕ → ℕ → App A B T Q → ℕ × App A B T Q
  flush_attempts now [] flushed app = (flushed, app)
  flush_attempts now (id ∷ ids) flushed app =
      let (success, app') = flush_to_database now id app in
      flush_attempts now ids (if success then flushed + 1 else flushed) app'

  unfoldable pub flush_all_dirty : ℕ → App A B T Q → ℕ × App A B T Q
  flush_all_dirty now app =
      let dirty = ss.smembers now autosave_dirty app.store.sets in
      if length dirty == 0 then (0, app) else flush_attempts now dirty 0 app

  unfoldable pub clear_buffer : ℕ → ℕ → App A B T Q → App A B T Q
  clear_buffer now attempt_id app = record app {
    store = record {
      strings = kv.del (autosave attempt_id) app.store.strings;
      sets = ss.srem now autosave_dirty attempt_id app.store.sets;
    };
  }
