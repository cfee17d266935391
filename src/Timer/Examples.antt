-- ===== src/Timer/Examples.antt =====
-- Runs of the timing wheel on concrete inputs, and the theorems at such inputs.
use skynet_sy.Common.{◌-◌, ◌≡◌, refl, arith, some, List}
use skynet_sy.Timer.Wheel.{
  near, level, place, Timer, TimerNode, TimerEvent, timer_add, timer_update, timer_shift,
  timer_create_timer, update_loop, skynet_updatetime,
}
use skynet_sy.Timer.Place.{tick, moved, block_place, place_lem}
use skynet_sy.Timer.Nodes.{In}
use skynet_sy.Timer.Shift.{relink_if, timer_shift_lem}
use skynet_sy.Timer.Update.{IsWheel, Ticked, timer_add_lem, timer_update_lem}
use skynet_sy.Timer.Elapse.{SentAt, OnTime, Elapsed, timeout_node, timeout_lem, update_loop_lem}

places :
    (place 5 0 ≡ near 5)
    × (place 300 0 ≡ level 0 1)
    × (place 20000 3 ≡ level 1 1)
    × (place 2000000 0 ≡ level 2 1)
    × (place 3000000000 0 ≡ level 3 44)
unfolding place
places = (refl, refl, refl, refl, refl)

abbrev alarm : TimerEvent
alarm = record { handle = 16; session = 7 }

created-IsWheel : IsWheel timer_create_timer
unfolding timer_create_timer
created-IsWheel = record { time_fits = omega arith; waiting = λ s. tt }

created_point : timer_create_timer.current_point ≡ 0
unfolding timer_create_timer
created_point = refl

timer_add_lem_example :
    IsWheel (timer_add timer_create_timer alarm 300)
    × In (timer_add timer_create_timer alarm 300) (timeout_node timer_create_timer alarm 300)
    × ((m : TimerNode) → In timer_create_timer m → In (timer_add timer_create_timer alarm 300) m)
timer_add_lem_example =
    timer_add_lem timer_create_timer alarm 300 created-IsWheel (omega arith) (omega arith)

timer_update_lem_example :
    (sent : List TimerNode) × (t' : Timer) × (timer_update (timer_add timer_create_timer alarm 1)
      ≡ some (sent, t'))
    × Ticked (timer_add timer_create_timer alarm 1) t' sent
timer_update_lem_example =
    timer_update_lem (timer_add timer_create_timer alarm 1)
      (timer_add_lem timer_create_timer alarm 1 created-IsWheel (omega arith) (omega arith)).0

update_loop_lem_example :
    (sent : List (List TimerNode)) × (t' : Timer) × (update_loop 300
        (timer_add timer_create_timer alarm 300)
      ≡ some (sent, t'))
    × Elapsed 300 (timer_add timer_create_timer alarm 300) t' sent
update_loop_lem_example =
    update_loop_lem 300 (timer_add timer_create_timer alarm 300) (omega arith)
      (timer_add_lem timer_create_timer alarm 300 created-IsWheel (omega arith) (omega arith)).0

timeout_lem_example :
    (sent : List (List TimerNode)) × (t' : Timer) × (skynet_updatetime 400
        (timer_add timer_create_timer alarm 300)
      ≡ some (sent, t'))
    × SentAt (300 - 1) (timeout_node timer_create_timer alarm 300) sent
    × OnTime timer_create_timer.time sent
    × IsWheel t'
timeout_lem_example =
    timeout_lem timer_create_timer alarm 300 400 created-IsWheel (omega arith)
      (omega (arith, created_point)) (omega (arith, created_point))

timer_shift_lem_example :
    timer_shift timer_create_timer
    ≡ some (
        relink_if
          (record timer_create_timer { time = tick timer_create_timer.time })
          (moved (tick timer_create_timer.time)))
timer_shift_lem_example = timer_shift_lem timer_create_timer created-IsWheel.time_fits

place_lem_example : place 20000 3 ≡ block_place 20000 3
place_lem_example = place_lem 20000 3
