-- ===== src/Autosave/Refinement.antt =====
-- The buffer, its flushes and the rows of lib/autosave-buffer.ts together keep one version of the files of
-- an attempt: the last one that was saved.
use test_platform.Base.{
  ℕ, ◌+◌, ◌-◌, ◌*◌, ◌≤◌, ◌<◌, ◌≡◌, refl, sym, ◌∙◌, ap, Option, none, some, List, [], ◌∷◌, arith,
  ◌==◌, if◌then◌else◌, or_else, All,
}
use test_platform.Redis.{Strings, Sets}
use test_platform.Redis.Keys.{Files, Buffered, autosave_dirty}
use test_platform.Platform.{Attempt, AttemptTable, App}
use test_platform.Autosave.{
  autosave_ttl, save_to_buffer, read_buffer, get_from_buffer, flush_to_database, flush_attempts,
  flush_all_dirty,
}
use test_platform.Autosave.Laws.{
  with_buffer, save_to_buffer_lem, flush_to_database_lem, flush_all_dirty_lem,
}

-- What happens to the buffers, with its time.
pub data Operation : Type 0 where
  saves : ℕ → ℕ → Files → Operation
  flushes : ℕ → ℕ → Operation
  flushes_all : ℕ → Operation

-- The operation is not later than `t`, and what it saves is still buffered then.
abbrev pub IsRecent : ℕ → Operation → Type 0
IsRecent t (saves now id files) = (now ≤ t) × t < now + autosave_ttl * 1000
IsRecent t (flushes now id) = now ≤ t
IsRecent t (flushes_all now) = now ≤ t

-- The abstract store: the version of the files of attempt `x`, which only a save changes.
abbrev pub latest : List Operation → ℕ → Option Files → Option Files
latest [] x v = v
latest (saves now id files ∷ os) x v = latest os x (if x == id then some files else v)
latest (flushes now id ∷ os) x v = latest os x v
latest (flushes_all now ∷ os) x v = latest os x v

latest-cons :
    (o : Operation) (os : List Operation) (x : ℕ) (v : Option Files)
    → latest os x (latest (o ∷ []) x v) ≡ latest (o ∷ os) x v
latest-cons (saves now id files) os x v = refl
latest-cons (flushes now id) os x v = refl
latest-cons (flushes_all now) os x v = refl

abbrev pub row_files : Option Attempt → Option Files
row_files none = none
row_files (some a) = a.files

abbrev buffered_files : Option Buffered → Option Files
buffered_files none = none
buffered_files (some b) = some b.files

-- A row that takes the files of the buffer does not show, as the buffer goes before the row.
shown-with_buffer :
    (b : Option Buffered) (o : Option Attempt)
    → or_else (buffered_files b) (row_files (with_buffer b o))
      ≡ or_else (buffered_files b) (row_files o)
shown-with_buffer none o = refl
shown-with_buffer (some b) o = refl

module _ {A B T Q : Type 0} (kv : Strings A) (ss : Sets B) (table : AttemptTable T) where
  -- The files that the code takes for an attempt: the buffer's, or else the row's.
  abbrev pub shown : ℕ → ℕ → App A B T Q → Option Files
  shown t x app =
      or_else (get_from_buffer kv ss table t x app) (row_files (table.find x app.attempts))

  -- No buffer of the attempt lapses before `t`.
  abbrev pub IsSteady : ℕ → ℕ → App A B T Q → Type 0
  IsSteady t x app =
      (d : ℕ) → read_buffer kv ss table (t - d) x app ≡ read_buffer kv ss table t x app

  unfoldable pub perform : Operation → App A B T Q → App A B T Q
  perform (saves now id files) app = save_to_buffer kv ss table now id files app
  perform (flushes now id) app = (flush_to_database kv ss table now id app).1
  perform (flushes_all now) app = (flush_all_dirty kv ss table now app).1

  unfoldable pub run : List Operation → App A B T Q → App A B T Q
  run [] app = app
  run (o ∷ os) app = run os (perform o app)

  read-flush_attempts :
      (t now x n : ℕ) (ids : List ℕ) (app : App A B T Q)
      → read_buffer kv ss table t x (flush_attempts kv ss table now ids n app).1
        ≡ read_buffer kv ss table t x app
  unfolding flush_attempts
  read-flush_attempts t now x n [] app = refl
  read-flush_attempts t now x n (i ∷ ids) app =
      let (success, app') = flush_to_database kv ss table now i app in
      read-flush_attempts t now x (if success then n + 1 else n) ids app'
      ∙ (flush_to_database_lem kv ss table t now i x app).3

  read-flush_all_dirty :
      (t now x : ℕ) (app : App A B T Q)
      → read_buffer kv ss table t x (flush_all_dirty kv ss table now app).1
        ≡ read_buffer kv ss table t x app
  unfolding flush_all_dirty
  read-flush_all_dirty t now x app =
      ground
        (arith, read-flush_attempts t now x 0 (ss.smembers now autosave_dirty app.store.sets) app)

  perform-IsSteady :
      (o : Operation) (t x : ℕ) (app : App A B T Q)
      → IsRecent t o
      → IsSteady t x app
      → IsSteady t x (perform o app)
  unfolding perform
  perform-IsSteady (saves now id files) t x app w steady d = ground (
    arith,
    (save_to_buffer_lem kv ss table t now id x files app).0,
    (save_to_buffer_lem kv ss table (t - d) now id x files app).0,
    steady d,
    w,
  )
  perform-IsSteady (flushes now id) t x app w steady d =
      (flush_to_database_lem kv ss table (t - d) now id x app).3
      ∙ steady d
      ∙ sym (flush_to_database_lem kv ss table t now id x app).3
  perform-IsSteady (flushes_all now) t x app w steady d =
      read-flush_all_dirty (t - d) now x app ∙ steady d ∙ sym (read-flush_all_dirty t now x app)

  read_now :
      (t now x : ℕ) (app : App A B T Q)
      → now ≤ t
      → IsSteady t x app
      → read_buffer kv ss table now x app ≡ read_buffer kv ss table t x app
  read_now t now x app order steady =
      let e : t - (t - now) ≡ now = omega (arith, order) in
      ap (λ s. read_buffer kv ss table s x app) (sym e) ∙ steady (t - now)

  perform-shown :
      (o : Operation) (t x : ℕ) (app : App A B T Q)
      → IsRecent t o
      → IsSteady t x app
      → shown t x (perform o app) ≡ latest (o ∷ []) x (shown t x app)
  unfolding perform get_from_buffer
  perform-shown (saves now id files) t x app w steady =
      ground (arith, save_to_buffer_lem kv ss table t now id x files app, w)
  perform-shown (flushes now id) t x app w steady =
      let flushed = flush_to_database_lem kv ss table t now id x app in
      ground (
        arith,
        flushed.1,
        flushed.3,
        read_now t now x app w steady,
        shown-with_buffer (read_buffer kv ss table t x app) (table.find x app.attempts),
      )
  perform-shown (flushes_all now) t x app w steady = ground (
    arith,
    (flush_all_dirty_lem kv ss table now x app).0,
    read-flush_all_dirty t now x app,
    read_now t now x app w steady,
    shown-with_buffer (read_buffer kv ss table t x app) (table.find x app.attempts),
  )

  -- Refinement: whatever saves and flushes come, in whatever order, the files that the code takes for an
  -- attempt at a later time are those of its last save, or else those it had. No flush brings an older
  -- version back, and none is needed for the last save to count. The later time is one at which every
  -- save is still buffered, and until which no buffer of the attempt lapsed.
  pub run-latest :
      (os : List Operation) (t x : ℕ) (app : App A B T Q)
      → All (IsRecent t) os
      → IsSteady t x app
      → shown t x (run os app) ≡ latest os x (shown t x app)
  unfolding run
  run-latest [] t x app recent steady = refl
  run-latest (o ∷ os) t x app recent steady =
      run-latest os t x (perform o app) recent.1 (perform-IsSteady o t x app recent.0 steady)
      ∙ ap (latest os x) (perform-shown o t x app recent.0 steady)
      ∙ latest-cons o os x (shown t x app)
