-- ===== src/Timer/Laws.antt =====
-- When a delay of Modules/Non_Blocking_Delay is over, and how fast the shared counter runs.
use gateway_lo_ra.Prelude.{ℕ, zero, suc, ◌+◌, ◌*◌, ◌%◌, ◌≤◌, ◌<◌, ◌≡◌, ◌∙◌, true, false, arith}
use gateway_lo_ra.Timer.{
  tick_mod, Delay, elapsed_time, read, restart, Tickers, tick_init, ticker_callback,
}

elapsed_time-restart :
    (d : Delay) (t k : ℕ)
    → t < tick_mod
    → k < tick_mod
    → elapsed_time ((t + k) % tick_mod) (restart t d) ≡ k
unfolding elapsed_time restart
elapsed_time-restart d t k ht hk = omega arith

-- A delay restarted at tick `t` is over at a poll `k` ticks later, a wrap of the counter included,
-- if `k` has reached the duration, and stops; before that the poll changes nothing. The wait is
-- shorter than one turn of the counter.
pub read-restart :
    (d : Delay) (t k : ℕ)
    → t < tick_mod
    → k < tick_mod
    → let r = read ((t + k) % tick_mod) (restart t d) in
      (d.duration ≤ k → r ≡ (true, record d { start_time = t; is_running = false }))
      × (k < d.duration → r ≡ (false, restart t d))
unfolding read restart
read-restart d t k ht hk = ground (arith, elapsed_time-restart d t k ht hk)

-- One period of 10 ms: every ticker that is attached calls the callback once.
callbacks : ℕ → Tickers → Tickers
callbacks zero t = t
callbacks (suc n) t = callbacks n (ticker_callback t)

unfoldable pub period : Tickers → Tickers
unfolding callbacks
period t = callbacks t.attached t

unfoldable pub periods : ℕ → Tickers → Tickers
periods zero t = t
periods (suc n) t = periods n (period t)

callbacks_counter :
    (n : ℕ) (t : Tickers)
    → t.tick_counter < tick_mod
    → callbacks n t ≡ record t { tick_counter = (t.tick_counter + n) % tick_mod }
unfolding callbacks ticker_callback
callbacks_counter zero t h = ground arith
callbacks_counter (suc n) t h = callbacks_counter n (ticker_callback t) (omega arith) ∙ ground arith

periods_of_attached :
    (n : ℕ) (t : Tickers)
    → t.tick_counter < tick_mod
    → periods n t ≡ record t { tick_counter = (t.tick_counter + n * t.attached) % tick_mod }
unfolding periods period
periods_of_attached zero t h = ground arith
periods_of_attached (suc n) t h =
    rw (callbacks_counter t.attached t h) (periods_of_attached n _ (omega arith) ∙ ground arith)

-- The constructors of k delays.
unfoldable pub constructed : ℕ → Tickers → Tickers
constructed zero t = t
constructed (suc k) t = constructed k (tick_init t)

constructed_attached :
    (k : ℕ) (t : Tickers) → constructed k t ≡ record t { attached = t.attached + k }
unfolding constructed tick_init
constructed_attached zero t = ground arith
constructed_attached (suc k) t = constructed_attached k (tick_init t) ∙ ground arith

-- With k delays constructed and n periods of 10 ms gone by, in each of which every attached ticker
-- calls the callback once, the shared counter has advanced by n * k ticks, modulo 2 ^ 64, where
-- none were attached before.
pub periods_counter :
    (n k : ℕ) (t : Tickers)
    → t.tick_counter < tick_mod
    → t.attached ≡ 0
    → (periods n (constructed k t)).tick_counter ≡ (t.tick_counter + n * k) % tick_mod
periods_counter n k t h e =
    rw
      (
        constructed_attached k t,
        periods_of_attached n (record t { attached = t.attached + k }) h,
        e,
      )
      (ground arith)
