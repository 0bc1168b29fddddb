-- ===== src/Control/Fsm/Emergency.antt =====
-- libs/control, the event handlers around an emergency stop, an obstruction and a fault.
use cpp_elevator.Base.{ℕ, ◌+◌, ◌*◌, ◌≤◌, ◌≡◌, ◌≢◌, refl, arith, ◌↔◌, true, false, if◌then◌else◌}
use cpp_elevator.Base.Int.{pos, ◌<ℤ◌}
use cpp_elevator.Common.{k_floors, k_door_open_time_ms, MotorDir, MovingState, eq_moving, Inertia}
use cpp_elevator.Common.Timer.{ticks_per_ms, stop, expired, expired-start}
use cpp_elevator.Control.Requests.{RequestTable, is_request_here}
use cpp_elevator.Control.Controller.{choose_direction}
use cpp_elevator.Control.Fsm.{
  Rig, fsm_emergency_stop, fsm_emergency_stop_reset, fsm_table_update, fsm_floor_arrival,
  fsm_door_timeout, fsm_floor_timeout,
}

-- At the top floor, when the last direction was up, nothing obstructs the door and there is no request
-- for the floor, an emergency stop, a table update and the reset of the stop leave the elevator at the
-- top floor with its motor running upwards.
pub reset_leaves_shaft :
    (now : ℕ) (r : Rig)
    → r.elev.state.floor ≡ pos 3
    → r.ctl.inertia ≡ Inertia.up
    → r.elev.state.obstruction ≡ false
    → is_request_here r.elev.state.floor r.ctl.requests ≡ false
    → let r' =
        (fsm_emergency_stop_reset now (fsm_table_update now (fsm_emergency_stop now r).1).1).1 in
      (r'.elev.state.motor_dir ≡ MotorDir.up) × (r'.elev.state.floor ≡ pos 3)
unfolding fsm_emergency_stop fsm_table_update fsm_emergency_stop_reset choose_direction
reset_leaves_shaft now r f i o h = ground arith

-- The door shuts on a timeout during an emergency stop, and nothing else is changed that the next
-- decision reads.
record ShutBehind (r r' : Rig) : Type 0 where
  shut : r'.elev.state.door_open ≡ false
  moving : r'.elev.state.moving_state ≡ MovingState.door_open
  floor : r'.elev.state.floor ≡ r.elev.state.floor
  requests : r'.ctl.requests ≡ r.ctl.requests
  inertia : r'.ctl.inertia ≡ r.ctl.inertia

-- The elevator when its controller is given other requests.
abbrev pub with_requests : RequestTable → Rig → Rig
with_requests t r = record r { ctl = record (r.ctl) { requests = t } }

-- While the door is obstructed a timeout leaves the door and the motor alone, and the timer is up
-- again after the full time and not before.
pub obstruction_keeps_door :
    (now later : ℕ) (r : Rig)
    → r.elev.state.obstruction ≡ true
    → ((fsm_door_timeout now r).1.elev ≡ r.elev)
      × ((expired later (fsm_door_timeout now r).1.ctl.door_timer ≡ true)
          ↔ (now + k_door_open_time_ms * ticks_per_ms ≤ later))
unfolding fsm_door_timeout
obstruction_keeps_door now later r o =
    rw o (refl, (expired-start now later k_door_open_time_ms (stop r.ctl.door_timer)).0)

-- A fault is raised exactly for an elevator that is moving when its floor timer runs out, and the
-- next floor clears it.
pub fault_cycle :
    (now : ℕ) (r : Rig)
    → ((fsm_floor_timeout r).1.elev.state.fault ≡ (
        if eq_moving r.elev.state.moving_state MovingState.moving
        then true
        else r.elev.state.fault))
      × ((fsm_floor_arrival now r).1.elev.state.fault ≡ false)
unfolding fsm_floor_timeout fsm_floor_arrival
fault_cycle now r = ground arith

-- The safety stop of an arrival works at the bottom floor only: at any other floor of the building,
-- the top one included, an arrival that does not find the elevator moving leaves the motor alone.
pub floor_arrival_unchecked :
    (now : ℕ) (r : Rig)
    → pos 0 <ℤ r.elev.state.floor
    → r.elev.state.floor <ℤ pos k_floors
    → r.elev.state.moving_state ≢ MovingState.moving
    → (fsm_floor_arrival now r).1.elev.state.motor_dir ≡ r.elev.state.motor_dir
unfolding fsm_floor_arrival
floor_arrival_unchecked now r low high m = ground arith
