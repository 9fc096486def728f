-- ===== src/Power/Shutdown.antt =====
-- `turnOff` of Modules/PowerManager, called until it returns true.
use gateway_lo_ra.Prelude.{
  ℕ, ◌+◌, ◌-◌, ◌≤◌, ◌<◌, ◌≡◌, ◌⊎◌, refl, Bool, true, false, List, [], ◌∷◌, ◌++◌, arith, Bool-cases,
  inl, inr, if◌then◌else◌,
}
use gateway_lo_ra.Timer
use gateway_lo_ra.Power.State.{PowerState, off, manual_off, on, asleep, Manager, TurnOff, Inputs}
use gateway_lo_ra.Power.On.{turn_off_retry}
use gateway_lo_ra.Power.Manager.{turn_off}
use gateway_lo_ra.Power.Graph.{kind, is_manual_off}

-- A poll: the inputs, and the bytes that the modem sent since the last one.
abbrev pub Poll : Type 0
Poll = Inputs × List ℕ

unfoldable pub deliver : List ℕ → Manager → Manager
deliver bytes m = record m { handler = record (m.handler) { rx = m.handler.rx ++ bytes } }

-- The caller's loop: one call to a poll, until a call returns true or the polls end.
unfoldable pub shutdown : List Poll → Manager → Bool × Manager
unfolding deliver
shutdown [] m = (false, m)
shutdown ((i, bytes) ∷ ps) m =
    let m' = deliver bytes m in
    let rest = shutdown ps (turn_off i m').1 in if (turn_off i m').0 then turn_off i m' else rest

-- At how many of those polls the delay was over.
unfoldable pub expiries : List Poll → Manager → ℕ
unfolding deliver
expiries [] m = 0
expiries ((i, bytes) ∷ ps) m =
    let m' = deliver bytes m in
    let rest = expiries ps (turn_off i m').1 in
    (if (Timer.read i.now m'.timer).0 then 1 else 0) + (if (turn_off i m').0 then 0 else rest)

-- How many delays more a `turnOff` waits for an answer: eleven for the command, one before the
-- power down output is driven, and one with it; none where the modem is off.
abbrev pub waits : TurnOff → ℕ
waits t = 11 - t.retry_counter + (if t.hard_power_off_under_process then 1 else 2)

abbrev pub waits_left : Manager → ℕ
waits_left m = elim m.state [ on s ↦ waits m.on_turn_off | asleep ↦ waits m.sleep_turn_off | _ ↦ 0 ]

abbrev over : Inputs → Manager → ℕ
over i m = if (Timer.read i.now m.timer).0 then 1 else 0

retry_waits :
    (i : Inputs) (t : TurnOff) (m : Manager)
    → (turn_off_retry i t m).0 ≡ false
    → (over i m + waits (turn_off_retry i t m).1.0 ≡ waits t)
      × ((turn_off_retry i t m).1.1.state ≡ m.state)
unfolding turn_off_retry
retry_waits i t m h = ground arith

turn_off_waits :
    (i : Inputs) (m : Manager) (s : PowerState)
    → m.state ≡ s
    → (turn_off i m).0 ≡ false
    → over i m + waits_left (turn_off i m).1 ≡ waits_left m
unfolding turn_off
turn_off_waits i m off e h = ground arith
turn_off_waits i m (manual_off s) e h = ground arith
turn_off_waits i m (on s) e h = ground arith
turn_off_waits i m asleep e h = ground arith

turn_off_waiting :
    (i : Inputs) (m : Manager) (s : PowerState)
    → m.state ≡ s
    → (turn_off i m).0 ≡ false
    → 0 < waits_left (turn_off i m).1
unfolding turn_off
turn_off_waiting i m off e h = ground arith
turn_off_waiting i m (manual_off s) e h = ground arith
turn_off_waiting i m (on s) e h = ground arith
turn_off_waiting i m asleep e h = ground arith

turn_off_done :
    (i : Inputs) (m : Manager) (s : PowerState)
    → m.state ≡ s
    → (turn_off i m).0 ≡ true
    → (kind (turn_off i m).1.state ≡ is_manual_off) × ((turn_off i m).1.power_down ≡ false)
unfolding turn_off
turn_off_done i m off e h = ground arith
turn_off_done i m (manual_off s) e h = ground arith
turn_off_done i m (on s) e h = ground arith
turn_off_done i m asleep e h = ground arith

shutdown_unfinished :
    (p : Poll) (ps : List Poll) (m : Manager)
    → (shutdown (p ∷ ps) m).0 ≡ false
    → expiries (p ∷ ps) m < waits_left m
unfolding shutdown expiries deliver
shutdown_unfinished (i, bytes) [] m h =
    let m' = deliver bytes m in
    ground (arith, turn_off_waits i m' m'.state refl, turn_off_waiting i m' m'.state refl)
shutdown_unfinished (i, bytes) (p ∷ ps) m h =
    let m' = deliver bytes m in
    ground (arith, turn_off_waits i m' m'.state refl, shutdown_unfinished p ps (turn_off i m').1)

shutdown_done :
    (ps : List Poll) (m : Manager)
    → (shutdown ps m).0 ≡ true
    → (kind (shutdown ps m).1.state ≡ is_manual_off) × ((shutdown ps m).1.power_down ≡ false)
unfolding shutdown deliver
shutdown_done [] m h = cc
shutdown_done ((i, bytes) ∷ ps) m h =
    let m' = deliver bytes m in
    ground (arith, turn_off_done i m' m'.state refl, shutdown_done ps (turn_off i m').1)

waits_bound : (m : Manager) (s : PowerState) → m.state ≡ s → waits_left m ≤ 13
waits_bound m off e = ground arith
waits_bound m (manual_off s) e = ground arith
waits_bound m (on s) e = ground arith
waits_bound m asleep e = ground arith

-- Called again and again, `turnOff` has returned true, or the delay was over at fewer polls than
-- the state where it began waits for, whatever the modem sends or fails to send before each poll.
-- The state waits for 13 at most. Where `turnOff` has returned true the manager is in the manual off
-- state with the power down output low.
pub shutdown_total :
    (p : Poll) (ps : List Poll) (m : Manager)
    → (((shutdown (p ∷ ps) m).0 ≡ true)
          × (kind (shutdown (p ∷ ps) m).1.state ≡ is_manual_off)
          × ((shutdown (p ∷ ps) m).1.power_down ≡ false)
        ⊎ (((shutdown (p ∷ ps) m).0 ≡ false) × (expiries (p ∷ ps) m < waits_left m)))
      × (waits_left m ≤ 13)
shutdown_total p ps m = elim (Bool-cases (shutdown (p ∷ ps) m).0) [
  | inl e ↦ let d = shutdown_done (p ∷ ps) m e in (inl (e, d.0, d.1), waits_bound m m.state refl)
  | inr e ↦ (inr (e, shutdown_unfinished p ps m e), waits_bound m m.state refl)
]
