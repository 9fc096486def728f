-- ===== src/Power/Graph.antt =====
-- The transitions of Modules/PowerManager, over all calls of the manager.
use gateway_lo_ra.Prelude.{ℕ, ◌≡◌, refl, Bool, true, false, List, Option, arith}
use gateway_lo_ra.Power.State.{
  PowerState, off, manual_off, on, asleep, OnFields, ManualOffFields, Manager, Inputs,
}
use gateway_lo_ra.Power.On.{BatteryData}
use gateway_lo_ra.Power.Manager.{
  start_stop_update, turn_on, turn_off, go_to_sleep, awake, reboot, measure_battery,
}

-- The class of a state, its fields left out.
pub data Kind : Type 0 where
  is_off is_manual_off is_on is_asleep : Kind

abbrev pub kind : PowerState → Kind
kind off = is_off
kind (manual_off s) = is_manual_off
kind (on s) = is_on
kind asleep = is_asleep

-- The calls of a `PowerManager`.
pub data Call : Type 0 where
  starts_stops turns_on turns_off sleeps awakes reboots measures : Call

module _ {Float : Type 0} (scan : List ℕ → Option (BatteryData Float)) where
  -- A call, and the manager after it.
  unfoldable pub step : Call → Inputs → Manager → Manager
  unfolding start_stop_update turn_on turn_off go_to_sleep awake reboot measure_battery
  step starts_stops i m = (start_stop_update i m).1
  step turns_on i m = (turn_on i m).1
  step turns_off i m = (turn_off i m).1
  step sleeps i m = (go_to_sleep i m).1
  step awakes i m = awake m
  step reboots i m = (reboot i m).1
  step measures i m = (measure_battery scan i m).1

infix 40 ◌⟶◌
-- The diagram. Only a sleeping modem is woken, only a modem that is on can go to sleep or be found
-- off, and a modem that was turned off on purpose is left by way of `on` alone.
pub data ◌⟶◌ : Kind → Kind → Type 0 where
  stay : {k : Kind} → k ⟶ k
  found_on : is_off ⟶ is_on
  shut_down : {k : Kind} → k ⟶ is_manual_off
  power_up : is_manual_off ⟶ is_on
  power_lost : is_on ⟶ is_off
  doze : is_on ⟶ is_asleep
  wake : is_asleep ⟶ is_on

-- The same as a test, which the tactics compute.
abbrev has_edge : Kind → Kind → Bool
has_edge is_off is_on = true
has_edge is_manual_off is_on = true
has_edge is_on is_off = true
has_edge is_on is_asleep = true
has_edge is_asleep is_on = true
has_edge is_off is_off = true
has_edge is_on is_on = true
has_edge is_asleep is_asleep = true
has_edge _ is_manual_off = true
has_edge _ _ = false

has_edge→⟶ : (j k : Kind) → has_edge j k ≡ true → j ⟶ k
has_edge→⟶ is_off is_on h = found_on
has_edge→⟶ is_off is_off h = stay
has_edge→⟶ is_on is_off h = power_lost
has_edge→⟶ is_on is_on h = stay
has_edge→⟶ is_on is_asleep h = doze
has_edge→⟶ is_asleep is_on h = wake
has_edge→⟶ is_asleep is_asleep h = stay
has_edge→⟶ is_manual_off is_on h = power_up
has_edge→⟶ j is_manual_off h = shut_down
has_edge→⟶ _ _ h = cc

module _ {Float : Type 0} (scan : List ℕ → Option (BatteryData Float)) (i : Inputs)
    (m : Manager) where
  step-edge_on :
      (c : Call) (s : OnFields)
      → m.state ≡ on s
      → has_edge is_on (kind (step scan c i m).state) ≡ true
  unfolding step
  step-edge_on starts_stops s e = ground arith
  step-edge_on _ s e = ground arith

  step-edge_off : (c : Call) → m.state ≡ off → has_edge is_off (kind (step scan c i m).state) ≡ true
  unfolding step
  step-edge_off starts_stops e = ground arith
  step-edge_off _ e = ground arith

  step-edge_manual_off :
      (c : Call) (s : ManualOffFields)
      → m.state ≡ manual_off s
      → has_edge is_manual_off (kind (step scan c i m).state) ≡ true
  unfolding step
  step-edge_manual_off starts_stops s e = ground arith
  step-edge_manual_off _ s e = ground arith

  step-edge_asleep :
      (c : Call) → m.state ≡ asleep → has_edge is_asleep (kind (step scan c i m).state) ≡ true
  unfolding step
  step-edge_asleep starts_stops e = ground arith
  step-edge_asleep _ e = ground arith

  step_from : (c : Call) (s : PowerState) → m.state ≡ s → kind s ⟶ kind (step scan c i m).state
  step_from c off e = has_edge→⟶ is_off _ (step-edge_off c e)
  step_from c (manual_off s) e = has_edge→⟶ is_manual_off _ (step-edge_manual_off c s e)
  step_from c (on s) e = has_edge→⟶ is_on _ (step-edge_on c s e)
  step_from c asleep e = has_edge→⟶ is_asleep _ (step-edge_asleep c e)

  -- Every call of the manager, in every state and on all inputs, follows an edge of the diagram: it
  -- leaves the class of the state as it is or goes from off to on, from any to manual off, from
  -- manual off to on, from on to off, from on to sleep, or from sleep to on.
  pub step-⟶ : (c : Call) → kind m.state ⟶ kind (step scan c i m).state
  step-⟶ c = step_from c m.state refl
