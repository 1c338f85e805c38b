-- ===== src/Autosave/Laws.antt =====
-- What the buffer of lib/autosave-buffer.ts gives back, and what flushes write to the database.
use mathlib.Core.Option
use test_platform.Base.{
  ℕ, ◌+◌, ◌*◌, ◌<◌, ◌≡◌, refl, ◌∙◌, Bool, true, false, ◌&&◌, ◌||◌, not, Option, none, some, List,
  [], inl, inr, ◌∷◌, arith, has_of_empty, ltb, ◌==◌, if◌then◌else◌, has, is_some, Option-cases,
}
use test_platform.Redis.{Strings, Sets}
use test_platform.Redis.Keys.{autosave, autosave_dirty, Files, Buffered, buffered}
use test_platform.Platform.{Attempt, AttemptTable, App, set_files}
use test_platform.Autosave.{
  autosave_ttl, save_to_buffer, read_buffer, get_from_buffer, write_back, flush_to_database,
  flush_attempts, flush_all_dirty, clear_buffer,
}

-- The row that a flush leaves: with the files of the buffer, if it holds any.
abbrev pub with_buffer : Option Buffered → Option Attempt → Option Attempt
with_buffer none o = o
with_buffer (some b) o = Option.map (set_files b.files) o

with_buffer_twice :
    (b : Option Buffered) (o : Option Attempt) → with_buffer b (with_buffer b o) ≡ with_buffer b o
with_buffer_twice none o = refl
with_buffer_twice (some b) none = refl
with_buffer_twice (some b) (some a) = refl

module _ {A B T Q : Type 0} (kv : Strings A) (ss : Sets B) (table : AttemptTable T) where
  -- Whether an attempt waits for a flush.
  abbrev pub is_dirty : ℕ → ℕ → App A B T Q → Bool
  is_dirty now id app = has id (ss.smembers now autosave_dirty app.store.sets)

  -- A save is given back for twelve hours, and touches no other attempt's buffer; it marks its
  -- attempt as dirty and takes no mark away; the database is not written.
  pub save_to_buffer_lem :
      (t now i j : ℕ) (files : Files) (app : App A B T Q)
      → let app' = save_to_buffer kv ss table now i files app in
        (read_buffer kv ss table t j app' ≡ (
          if j == i
          then if ltb t (now + autosave_ttl * 1000)
            then some (record { files = files; updated_at = now })
            else none
          else read_buffer kv ss table t j app))
        × (is_dirty now j app' ≡ (j == i || is_dirty now j app))
        × (app'.attempts ≡ app.attempts)
  unfolding save_to_buffer read_buffer
  save_to_buffer_lem t now i j files app = (
    ground (
      arith,
      kv.get-set_ex t now (autosave j) (autosave i)
          (buffered (record { files = files; updated_at = now })) autosave_ttl app.store.strings,
    ),
    ss.smembers-sadd now autosave_dirty autosave_dirty j i app.store.sets,
    refl,
  )

  pub read-write_back :
      (t now i x : ℕ) (b : Buffered) (app : App A B T Q)
      → read_buffer kv ss table t x (write_back kv ss table now i b app)
        ≡ read_buffer kv ss table t x app
  unfolding write_back read_buffer
  read-write_back t now i x b app = refl

  pub find-write_back :
      (now i x : ℕ) (b : Buffered) (app : App A B T Q)
      → table.find x (write_back kv ss table now i b app).attempts ≡ (
          if x == i
          then with_buffer (some b) (table.find x app.attempts)
          else table.find x app.attempts)
  unfolding write_back
  find-write_back now i x b app = table.find-update i x (set_files b.files) app.attempts

  pub dirty-write_back :
      (now i x : ℕ) (b : Buffered) (app : App A B T Q)
      → is_dirty now x (write_back kv ss table now i b app) ≡ (not (x == i) && is_dirty now x app)
  unfolding write_back
  dirty-write_back now i x b app =
      ss.smembers-srem now autosave_dirty autosave_dirty x i app.store.sets

  -- A flush writes the buffered files of its attempt to the attempt's row, and to no other, and takes
  -- its mark, and no other, away; without a buffer it changes nothing, not even the mark. The buffers
  -- stay.
  pub flush_to_database_lem :
      (t now i x : ℕ) (app : App A B T Q)
      → let result = flush_to_database kv ss table now i app in
        let app' = result.1 in
        (result.0 ≡ is_some (read_buffer kv ss table now i app))
        × (table.find x app'.attempts ≡ (
            if x == i
            then with_buffer (read_buffer kv ss table now i app) (table.find x app.attempts)
            else table.find x app.attempts))
        × (is_dirty now x app'
            ≡ (not (x == i && is_some (read_buffer kv ss table now i app)) && is_dirty now x app))
        × (read_buffer kv ss table t x app' ≡ read_buffer kv ss table t x app)
  unfolding flush_to_database
  flush_to_database_lem t now i x app = elim (Option-cases (read_buffer kv ss table now i app)) [
    | inl e ↦ rw (e, flush_to_database) (refl, ground arith, ground arith, refl)
    | inr (b, e) ↦
        rw (e, flush_to_database)
          (
            refl,
            find-write_back now i x b app,
            ground (arith, dirty-write_back now i x b app),
            read-write_back t now i x b app,
          )
  ]

  flush_attempts_lem :
      (now x : ℕ) (ids : List ℕ) (n : ℕ) (app : App A B T Q)
      → let app' = (flush_attempts kv ss table now ids n app).1 in
        (table.find x app'.attempts ≡ (
          if has x ids
          then with_buffer (read_buffer kv ss table now x app) (table.find x app.attempts)
          else table.find x app.attempts))
        × (is_dirty now x app' ≡ (
            not (has x ids && is_some (read_buffer kv ss table now x app)) && is_dirty now x app))
        × (read_buffer kv ss table now x app' ≡ read_buffer kv ss table now x app)
  unfolding flush_attempts
  flush_attempts_lem now x [] n app = (refl, refl, refl)
  flush_attempts_lem now x (i ∷ ids) n app =
      let first = flush_to_database_lem now now i x app in
      let success = (flush_to_database kv ss table now i app).0 in
      let rest =
        flush_attempts_lem now x ids (if success then n + 1 else n)
          (flush_to_database kv ss table now i app).1 in
      (
        ground (
          arith,
          rest.0,
          rest.2,
          first.1,
          first.3,
          with_buffer_twice (read_buffer kv ss table now x app) (table.find x app.attempts),
        ),
        ground (arith, rest.1, rest.2, first.2, first.3),
        rest.2 ∙ first.3,
      )

  -- After `flushAllDirty` the row of every dirty attempt whose buffer holds files has those files, and
  -- the attempt is dirty no more. Every other row is as it was. A dirty attempt whose buffer holds
  -- nothing stays dirty. No buffer changes.
  pub flush_all_dirty_lem :
      (now x : ℕ) (app : App A B T Q)
      → let app' = (flush_all_dirty kv ss table now app).1 in
        (table.find x app'.attempts ≡ (
          if is_dirty now x app
          then with_buffer (read_buffer kv ss table now x app) (table.find x app.attempts)
          else table.find x app.attempts))
        × (is_dirty now x app'
            ≡ (is_dirty now x app && not (is_some (read_buffer kv ss table now x app))))
        × (read_buffer kv ss table now x app' ≡ read_buffer kv ss table now x app)
  unfolding flush_all_dirty
  flush_all_dirty_lem now x app =
      let dirty = ss.smembers now autosave_dirty app.store.sets in
      let (row, mark, buffer) = flush_attempts_lem now x dirty 0 app in
      (
        ground (arith, row, has_of_empty x dirty),
        ground (arith, mark, has_of_empty x dirty),
        ground (arith, buffer),
      )

  -- A save and the next periodic flush, while the buffer lives: the row has the saved files, and the
  -- attempt is not dirty.
  pub save_then_flush :
      (now t i : ℕ) (files : Files) (app : App A B T Q)
      → t < now + autosave_ttl * 1000
      → is_dirty t i (save_to_buffer kv ss table now i files app) ≡ true
      → let app' = (flush_all_dirty kv ss table t (save_to_buffer kv ss table now i files app)).1 in
        (table.find i app'.attempts ≡ Option.map (set_files files) (table.find i app.attempts))
        × (is_dirty t i app' ≡ false)
        × (get_from_buffer kv ss table t i app' ≡ some files)
  unfolding get_from_buffer
  save_then_flush now t i files app early dirty =
      let saved = save_to_buffer_lem t now i i files app in
      let after = flush_all_dirty_lem t i (save_to_buffer kv ss table now i files app) in
      (
        ground (arith, saved.0, saved.2, after.0),
        ground (arith, saved.0, after.1),
        ground (arith, saved.0, after.2),
      )

  -- After a submission's `clearBuffer` nothing is given back and the attempt is not dirty; other
  -- attempts' buffers and marks stay.
  pub clear_buffer_lem :
      (now i x : ℕ) (app : App A B T Q)
      → let app' = clear_buffer kv ss table now i app in
        (read_buffer kv ss table now x app'
          ≡ (if x == i then none else read_buffer kv ss table now x app))
        × (is_dirty now x app' ≡ (not (x == i) && is_dirty now x app))
  unfolding clear_buffer read_buffer
  clear_buffer_lem now i x app = (
    ground (arith, kv.get-del now (autosave x) (autosave i) app.store.strings),
    ss.smembers-srem now autosave_dirty autosave_dirty x i app.store.sets,
  )
