-- ===== src/Autosave/Tests.antt =====
-- The buffer of lib/autosave-buffer.ts at concrete inputs.
use test_platform.Base.{List, [], ◌∷◌, ◌≡◌, refl, true, false, some, arith}
use test_platform.Redis.Keys.{Buffered}
use test_platform.Redis.Memory.{strings, sets, Cells, Groups}
use test_platform.Platform.{App, set_files}
use test_platform.Platform.Memory.{table, Rows, Queue}
use test_platform.Platform.Sample.{old_files, new_files, attempt, app}
use test_platform.Autosave.{
  save_to_buffer, read_buffer, get_from_buffer, write_back, flush_to_database, flush_attempts,
  flush_all_dirty, clear_buffer,
}
use test_platform.Autosave.Laws.{is_dirty}
use test_platform.Autosave.Refinement.{
  Operation, saves, flushes, flushes_all, IsSteady, latest, shown, run, run-latest,
}
use test_platform.Autosave.Races.{overtaken, save_overtaken}

buffers : Unit {0}
unfolding save_to_buffer read_buffer get_from_buffer write_back flush_to_database flush_attempts
    flush_all_dirty clear_buffer
buffers = tt

abbrev saved : App Cells Groups Rows Queue
saved = save_to_buffer strings sets table 10 7 new_files app

flush_test :
    let result = flush_all_dirty strings sets table 20 saved in
    (result.0 ≡ 1) × (table.find 7 result.1.attempts ≡ some (set_files new_files attempt))
unfolding buffers
flush_test = (refl, refl)

abbrev buffer : Buffered
buffer = record { files = new_files; updated_at = 10 }

saved_dirty : is_dirty strings sets table 20 7 saved ≡ true
unfolding buffers
saved_dirty = refl

saved_row : table.find 7 saved.attempts ≡ some attempt
unfolding buffers
saved_row = refl

save_overtaken_example :
    let app' = overtaken strings sets table 20 15 7 buffer old_files saved in
    (is_dirty strings sets table 20 7 app' ≡ false)
    × (read_buffer strings sets table 20 7 app'
        ≡ some (record { files = old_files; updated_at = 15 }))
    × (table.find 7 (flush_all_dirty strings sets table 20 app').1.attempts
        ≡ some (set_files new_files attempt))
save_overtaken_example =
    save_overtaken strings sets table 20 15 7 buffer old_files attempt saved saved_row (omega arith)

-- Two saves with a flush of each kind between and after them.
abbrev operations : List Operation
operations = saves 10 7 old_files ∷ flushes_all 20 ∷ saves 30 7 new_files ∷ flushes 40 7 ∷ []

app-IsSteady : IsSteady strings sets table 90000 7 app
unfolding buffers
app-IsSteady d = refl

run-latest_example :
    shown strings sets table 90000 7 (run strings sets table operations app)
    ≡ latest operations 7 (shown strings sets table 90000 7 app)
run-latest_example =
    run-latest strings sets table operations 90000 7 app
      ((omega arith, omega arith), (omega arith, ((omega arith, omega arith), (omega arith, tt))))
      app-IsSteady
