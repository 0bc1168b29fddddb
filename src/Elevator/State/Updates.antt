-- ===== src/Elevator/State/Updates.antt =====
-- libs/elevator, class ElevatorState: what a received state does to the copy that a node keeps.
use cpp_elevator.Base.{◌≤◌, ◌<◌, ◌≡◌, arith, ◌↔◌, ◌⊎◌, true, false}
use cpp_elevator.Base.Int.{ℤ, pos, ◌≤ℤ◌, ◌<ℤ◌}
use cpp_elevator.Common.{k_elevs, k_floors, MotorDir, moving_code, inertia_code}
use cpp_elevator.Elevator.State.{ElevatorState, valid, on_update, on_watchdog_timeout, set_floor}

-- The ranges that the rest of the program relies on.
pub record IsValid (s : ElevatorState) : Type 0 where
  pub id_from : pos 0 ≤ℤ s.id
  pub id_below : s.id <ℤ pos k_elevs
  pub floor_from : pos 0 ≤ℤ s.floor
  pub floor_below : s.floor <ℤ pos k_floors
  pub motor_named :
      (s.motor_dir ≡ MotorDir.down)
      ⊎ (s.motor_dir ≡ MotorDir.stop)
      ⊎ (s.motor_dir ≡ MotorDir.up)
      ⊎ (s.motor_dir ≡ MotorDir.err)
  pub moving_named : moving_code s.moving_state < 4
  pub inertia_named : inertia_code s.inertia < 3

-- `Valid` accepts exactly the states whose fields are all in range.
pub valid_iff : (s : ElevatorState) → (valid s ≡ true) ↔ IsValid s
unfolding valid
valid_iff s = (λ h. ground arith, λ h. ground arith)

-- A floor sensor's reading is taken over exactly if it is a floor of the building.
pub set_floor-in_range :
    (f : ℤ) (s : ElevatorState)
    → ((pos 0 ≤ℤ f) × (f <ℤ pos k_floors) × (set_floor f s ≡ record s { floor = f }))
      ⊎ (((f <ℤ pos 0) ⊎ (pos k_floors ≤ℤ f)) × (set_floor f s ≡ s))
unfolding set_floor
set_floor-in_range f s = ground arith

-- A received state is taken over, as a whole, exactly if its version is newer.
pub on_update_newest :
    (rcv s : ElevatorState)
    → (s.version < rcv.version × (on_update rcv s ≡ rcv))
      ⊎ (rcv.version ≤ s.version × (on_update rcv s ≡ s))
unfolding on_update
on_update_newest rcv s = ground arith

-- An elevator that timed out is inactive, and is back with the first state received from it that
-- has a version at all.
pub on_update-on_watchdog_timeout :
    (rcv s : ElevatorState)
    → ((on_watchdog_timeout s).active ≡ false)
      × ((rcv.version ≡ 0) ⊎ (on_update rcv (on_watchdog_timeout s) ≡ rcv))
unfolding on_update on_watchdog_timeout
on_update-on_watchdog_timeout rcv s = ground arith
