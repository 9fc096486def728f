-- ===== src/Timer.antt =====
-- Modules/Non_Blocking_Delay: the polled delays and the tick counter that they share.
use gateway_lo_ra.Prelude.{ℕ, ◌+◌, ◌-◌, ◌*◌, ◌%◌, ◌^◌, Bool, true, false, leb, if◌then◌else◌}
pub mod Laws
mod Tests

-- `tick_t` is a `uint64_t`.
abbrev pub tick_mod : ℕ
tick_mod = 2 ^ 64

pub record Delay : Type 0 where
  pub start_time : ℕ
  pub duration : ℕ
  pub is_running : Bool

-- The constructor. It leaves `startTime` as the memory was, so that value is an argument.
unfoldable pub new : ℕ → ℕ → Delay
new garbage duration_value = record {
  start_time = garbage;
  duration = duration_value;
  is_running = false;
}

-- `tickCounter - this->startTime` in 64 bits.
unfoldable pub elapsed_time : ℕ → Delay → ℕ
elapsed_time now d = (now + tick_mod - d.start_time) % tick_mod

-- `read` at the tick `now`: the first call starts the delay, a later one tells if it is over.
unfoldable pub read : ℕ → Delay → Bool × Delay
unfolding elapsed_time
read now d =
    if d.is_running
    then (if leb d.duration (elapsed_time now d)
        then (true, record d { is_running = false })
        else (false, d))
    else (false, record d { start_time = now; is_running = true })

unfoldable pub write : ℕ → Delay → Delay
write duration_value d = record d { duration = duration_value }

unfoldable pub restart : ℕ → Delay → Delay
restart now d = record d { start_time = now; is_running = true }

-- The global counter, and how many delays have attached `tickerCallback` to a ticker of their own.
pub record Tickers : Type 0 where
  pub tick_counter : ℕ
  pub attached : ℕ

-- `tickInit`, which each constructor calls
unfoldable pub tick_init : Tickers → Tickers
tick_init t = record t { attached = t.attached + 1 }

-- the destructor: `ticker.detach ()`
unfoldable pub detach : Tickers → Tickers
detach t = record t { attached = t.attached - 1 }

unfoldable pub ticker_callback : Tickers → Tickers
ticker_callback t = record t { tick_counter = (t.tick_counter + 1) % tick_mod }
