-- ===== src/Timer/Tests.antt =====
-- The theorems on delays at concrete values.
use gateway_lo_ra.Prelude.{◌+◌, ◌-◌, ◌%◌, ◌≤◌, ◌<◌, ◌≡◌, refl, false, true, arith}
use gateway_lo_ra.Timer.{tick_mod, Delay, new, read, restart}
use gateway_lo_ra.Timer.Laws.{read-restart, periods, constructed, periods_counter}

abbrev back_off : Delay
back_off = record { start_time = 7; duration = 100; is_running = false }

-- restarted just before the counter wraps, read 100 ticks later
read-restart_example :
    (100 ≤ 100
      → read ((tick_mod - 1 + 100) % tick_mod) (restart (tick_mod - 1) back_off)
        ≡ (true, record back_off { start_time = tick_mod - 1; is_running = false }))
    × (100 < 100
        → read ((tick_mod - 1 + 100) % tick_mod) (restart (tick_mod - 1) back_off)
          ≡ (false, restart (tick_mod - 1) back_off))
read-restart_example = read-restart back_off (tick_mod - 1) 100 (omega arith) (omega arith)

-- three delays alive: ten periods are thirty ticks
periods_counter_example :
    (periods 10 (constructed 3 (record { tick_counter = 5; attached = 0 }))).tick_counter ≡ 35
periods_counter_example =
    periods_counter 10 3 (record { tick_counter = 5; attached = 0 }) (omega arith) refl

first_read : (read 42 (new 9 100)).1 ≡ record { start_time = 42; duration = 100; is_running = true }
unfolding read new
first_read = refl
