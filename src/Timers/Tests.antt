-- ===== src/Timers/Tests.antt =====
-- The timers of socket/timerService.ts at concrete inputs.
use test_platform.Base.{
  ℕ, ◌+◌, ◌*◌, ◌≤◌, ◌<◌, ◌≡◌, refl, true, false, Option, some, [], ◌∷◌, All, arith,
}
use test_platform.Redis.Memory.{strings, sets, Cells, Groups}
use test_platform.Platform.{App, Interval}
use test_platform.Platform.Memory.{table, streams, Rows, Queue}
use test_platform.Platform.Sample.{exam_of, app}
use test_platform.Timers.{
  seconds_until, runs, is_timer_handled, mark_timer_handled, stop_timer, delete_lock,
  stop_timer_permanently, send, handle_timer_expired, end_time_of, start_timer, tick,
  get_timer_meta, get_remaining_time, resume_timer, stop_all_local_timers,
}
use test_platform.Timers.Clock.{ticks, start_timer-remaining}
use test_platform.Timers.Expiry.{handle_timer_expired_lem}

timers : Unit {0}
unfolding is_timer_handled mark_timer_handled stop_timer delete_lock stop_timer_permanently send
    handle_timer_expired end_time_of start_timer tick get_timer_meta get_remaining_time resume_timer
    stop_all_local_timers
timers = tt

abbrev ends : ℕ → ℕ → Option ℕ → ℕ
ends = end_time_of strings sets table streams exam_of

-- The timer of the sample attempt: one hour from time 1000.
abbrev started : App Cells Groups Rows Queue
started = start_timer strings sets table streams exam_of 2000 0 7 1000 60 (some 9000000) app

abbrev interval : Interval
interval = record { attempt_id = 7; end_time = 3601000 }

fresh : is_timer_handled strings sets table streams exam_of 2000 7 app ≡ false
unfolding timers
fresh = refl

ahead : 2000 < ends 1000 60 (some 9000000)
unfolding timers
ahead = omega arith

ends_test : ends 1000 60 (some 9000000) ≡ 3601000
unfolding timers
ends_test = refl

running : runs 7 started.intervals ≡ true
unfolding timers
running = refl

fresh_later : is_timer_handled strings sets table streams exam_of 601000 7 started ≡ false
unfolding timers
fresh_later = refl

fresh_at_end : is_timer_handled strings sets table streams exam_of 3601000 7 started ≡ false
unfolding timers
fresh_at_end = refl

stop_all_test :
    runs 7 (stop_all_local_timers strings sets table streams exam_of started).intervals ≡ false
unfolding timers
stop_all_test = refl

early_read : 601000 + 1000 ≤ ends 1000 60 (some 9000000)
unfolding timers
early_read = omega arith

early_calls : All (λ u. u + 1000 ≤ ends 1000 60 (some 9000000)) (3000 ∷ 4000 ∷ [])
unfolding timers
early_calls = (omega arith, (omega arith, tt))

start_timer-remaining_example :
    let left = seconds_until 601000 (ends 1000 60 (some 9000000)) in
    (get_remaining_time strings sets table streams exam_of 601000 7 (
        ticks strings sets table streams exam_of
          (3000 ∷ 4000 ∷ [])
          1
          (record { attempt_id = 7; end_time = ends 1000 60 (some 9000000) })
          started)
      ≡ some left)
    × (1 ≤ left)
    × (left ≤ 60 * 60)
start_timer-remaining_example =
    start_timer-remaining strings sets table streams exam_of 2000 601000 0 1 7 1000 60
      (some 9000000) (3000 ∷ 4000 ∷ []) app fresh refl ahead (omega arith) early_read early_calls
      (omega arith)

abbrev elsewhere : App Cells Groups Rows Queue
elsewhere = record started { intervals = [] }

unhandled : is_timer_handled strings sets table streams exam_of 601000 7 elsewhere ≡ false
unfolding timers
unhandled = refl

left : 601000 + 1000 ≤ ends 1000 60 (some 9000000)
unfolding timers
left = omega arith

handle_timer_expired_lem_example :
    let app' = handle_timer_expired strings sets table streams exam_of 3700000 0 7 app in
    (app'
      ≡ stop_timer strings sets table streams exam_of 7
          (mark_timer_handled strings sets table streams exam_of 3700000 7 app))
    × (app'.attempts ≡ app.attempts)
    × (app'.queue ≡ app.queue)
    × (app'.sent ≡ app.sent)
handle_timer_expired_lem_example =
    handle_timer_expired_lem strings sets table streams exam_of 3700000 0 7 app
