-- ===== src/Autosave/Races.antt =====
-- `flushToDatabase` and `saveToBuffer` of lib/autosave-buffer.ts as sequences of commands that
-- interleave: a flush reads the buffer, writes the row and takes the mark away, and a save may come
-- in between.
use test_platform.Base.{ℕ, ◌+◌, ◌*◌, ◌<◌, ◌≡◌, false, some, arith}
use test_platform.Redis.{Strings, Sets}
use test_platform.Redis.Keys.{Files, Buffered}
use test_platform.Platform.{AttemptTable, App, set_files, Attempt}
use test_platform.Autosave.{
  autosave_ttl, save_to_buffer, read_buffer, write_back, flush_to_database, flush_all_dirty,
}
use test_platform.Autosave.Laws.{
  is_dirty, save_to_buffer_lem, flush_all_dirty_lem, find-write_back, dirty-write_back,
  read-write_back,
}

module _ {A B T Q : Type 0} (kv : Strings A) (ss : Sets B) (table : AttemptTable T) where
  -- A flush of attempt `i` that reads `old` at `start`, a save of `files` at `mid`, and then the
  -- writes of the flush at `now`.
  abbrev pub overtaken : ℕ → ℕ → ℕ → Buffered → Files → App A B T Q → App A B T Q
  overtaken now mid i old files app =
      write_back kv ss table now i old (save_to_buffer kv ss table mid i files app)

  -- With no save in between, the commands are those of `flushToDatabase`.
  undisturbed :
      (now i : ℕ) (old : Buffered) (app : App A B T Q)
      → read_buffer kv ss table now i app ≡ some old
      → (flush_to_database kv ss table now i app).1 ≡ write_back kv ss table now i old app
  unfolding flush_to_database
  undisturbed now i old app e = ground (arith, e)

  -- A save that comes between the read and the writes of a flush loses its mark: the row gets the
  -- old files, the buffer holds the new ones, and the attempt is not dirty. So periodic flushes leave
  -- the row with the old files, while no later save marks the attempt.
  pub save_overtaken :
      (now mid i : ℕ) (old : Buffered) (files : Files) (a : Attempt) (app : App A B T Q)
      → table.find i app.attempts ≡ some a
      → now < mid + autosave_ttl * 1000
      → let app' = overtaken now mid i old files app in
        (is_dirty kv ss table now i app' ≡ false)
        × (read_buffer kv ss table now i app' ≡ some (record { files = files; updated_at = mid }))
        × (table.find i (flush_all_dirty kv ss table now app').1.attempts
            ≡ some (set_files old.files a))
  save_overtaken now mid i old files a app found early =
      let s = save_to_buffer kv ss table mid i files app in
      let saved = save_to_buffer_lem kv ss table now mid i i files app in
      let clean = dirty-write_back kv ss table now i i old s in
      let held = read-write_back kv ss table now now i i old s in
      let row = find-write_back kv ss table now i i old s in
      let next = flush_all_dirty_lem kv ss table now i (write_back kv ss table now i old s) in
      (
        ground (arith, clean),
        ground (arith, held, saved.0),
        ground (arith, next.0, clean, row, saved.2),
      )
