-- ===== src/Tests/Cabin.antt =====
-- Timers, elevator states, the cabin and the event handlers on concrete inputs.
use cpp_elevator.Control.Requests.{RequestTable}
use cpp_elevator.Base.{◌==◌, ◌&&◌}
use cpp_elevator.Base.{
  ℕ, ◌+◌, ◌*◌, ◌≤◌, ◌<◌, ◌≡◌, refl, arith, ◌⊎◌, ◌↔◌, true, false, List, [], if◌then◌else◌,
}
use cpp_elevator.Base.Int.{pos}
use cpp_elevator.Common.{k_door_open_time_ms, MotorDir, MovingState, eq_moving, Inertia}
use cpp_elevator.Common.Timer.{default_timer, ticks_per_ms, start, stop, expired, expired-start}
use cpp_elevator.Hardware.{Event, Reply}
use cpp_elevator.Elevator.State.{
  ElevatorState, default_state, valid, on_update, on_watchdog_timeout,
}
use cpp_elevator.Elevator.State.Updates.{
  IsValid, valid_iff, on_update_newest, on_update-on_watchdog_timeout,
}
use cpp_elevator.Elevator.{Elevator}
use cpp_elevator.Elevator
use cpp_elevator.Control.Requests.{empty_requests, is_request_here}
use cpp_elevator.Control.Fsm.{
  Rig, on_elev, fsm_emergency_stop, fsm_emergency_stop_reset, fsm_table_update, fsm_floor_arrival,
  fsm_door_timeout, fsm_floor_timeout,
}
use cpp_elevator.Control.Fsm.Safety.{Safe, FsmEvent, handle, handle-Safe, step-Safe}
use cpp_elevator.Control.Fsm.Emergency.{
  reset_leaves_shaft, obstruction_keeps_door, fault_cycle, floor_arrival_unchecked,
}

expired-start_example :
    ((expired 3_000_000_007 (start 7 3000 default_timer) ≡ true)
      ↔ (7 + 3000 * ticks_per_ms ≤ 3_000_000_007))
    × (expired 3_000_000_007 (stop default_timer) ≡ false)
expired-start_example = expired-start 7 3_000_000_007 3000 default_timer

-- An elevator at a floor, at rest, that has just been switched on.
abbrev pub at_floor : ℕ → ElevatorState
at_floor f = record default_state {
  id = pos 2;
  floor = pos f;
  active = true;
  obstruction = false;
  version = 5;
}

valid_iff_example : (valid (at_floor 2) ≡ true) ↔ IsValid (at_floor 2)
valid_iff_example = valid_iff (at_floor 2)

on_update_newest_example :
    ((at_floor 1).version < (at_floor 2).version
      × (on_update (at_floor 2) (at_floor 1) ≡ at_floor 2))
    ⊎ ((at_floor 2).version ≤ (at_floor 1).version
        × (on_update (at_floor 2) (at_floor 1) ≡ at_floor 1))
on_update_newest_example = on_update_newest (at_floor 2) (at_floor 1)

on_update-on_watchdog_timeout_example :
    ((on_watchdog_timeout (at_floor 1)).active ≡ false)
    × (((at_floor 2).version ≡ 0)
        ⊎ (on_update (at_floor 2) (on_watchdog_timeout (at_floor 1)) ≡ at_floor 2))
on_update-on_watchdog_timeout_example = on_update-on_watchdog_timeout (at_floor 2) (at_floor 1)

-- A server that reports floor 3 for every query.
abbrev pub reports : List Event → Reply
reports es = record { b1 = pos 1; b2 = pos 3 }

abbrev pub cabin : ElevatorState → Elevator
cabin s = record (Elevator.new (pos 1) (record { trace = []; world = reports })) {
  state = s;
  prev_floor = s.floor;
}

abbrev rest_at : ElevatorState → Inertia → Rig
rest_at s i = record {
  ctl = record {
    prev_requests = empty_requests;
    requests = empty_requests;
    door_timer = default_timer;
    floor_timer = default_timer;
    inertia = i;
  };
  elev = cabin s;
}

abbrev pub top : Rig
top = rest_at (at_floor 3) Inertia.up

pub top-Safe : Safe top
top-Safe = record {
  floor_from = omega arith;
  floor_below = omega arith;
  door_still = λ h. cc;
  moving_shut = λ h. refl;
  parked_still = λ h. refl;
  stopped_still = λ h. cc;
  stopped_parked = λ h k. cc;
  motor_wire = refl;
  door_wire = refl;
  alive = tt;
}

handle-Safe_example : Safe (handle FsmEvent.emergency_stop 9 top).1
handle-Safe_example = handle-Safe FsmEvent.emergency_stop 9 top top-Safe

step-Safe_example : Safe (on_elev Elevator.step top)
step-Safe_example = step-Safe top top-Safe

nothing_here : is_request_here (pos 3) empty_requests ≡ false
unfolding is_request_here
nothing_here = refl

reset_leaves_shaft_example :
    let r' = (fsm_emergency_stop_reset 9 (fsm_table_update 9 (fsm_emergency_stop 9 top).1).1).1 in
    (r'.elev.state.motor_dir ≡ MotorDir.up) × (r'.elev.state.floor ≡ pos 3)
reset_leaves_shaft_example = reset_leaves_shaft 9 top refl refl refl nothing_here

-- The door is open during an emergency stop.
abbrev halted_open : Rig
halted_open =
    rest_at
      (record (at_floor 3) {
        stopped = true;
        door_open = true;
        moving_state = MovingState.door_open;
      })
      Inertia.up

-- A cab call for the top floor.
abbrev cab_at_top : RequestTable
cab_at_top = record { table = λ f b. f == 3 && b == 2 }

abbrev obstructed : Rig
obstructed =
    rest_at
      (record (at_floor 2) {
        obstruction = true;
        door_open = true;
        moving_state = MovingState.door_open;
      })
      Inertia.down

obstruction_keeps_door_example :
    ((fsm_door_timeout 9 obstructed).1.elev ≡ obstructed.elev)
    × ((expired 20 (fsm_door_timeout 9 obstructed).1.ctl.door_timer ≡ true)
        ↔ (9 + k_door_open_time_ms * ticks_per_ms ≤ 20))
obstruction_keeps_door_example = obstruction_keeps_door 9 20 obstructed refl

fault_cycle_example :
    ((fsm_floor_timeout top).1.elev.state.fault ≡ (
      if eq_moving top.elev.state.moving_state MovingState.moving
      then true
      else top.elev.state.fault))
    × ((fsm_floor_arrival 9 top).1.elev.state.fault ≡ false)
fault_cycle_example = fault_cycle 9 top

floor_arrival_unchecked_example : (fsm_floor_arrival 9 top).1.elev.state.motor_dir ≡ MotorDir.stop
floor_arrival_unchecked_example =
    floor_arrival_unchecked 9 top (omega arith) (omega arith) (λ e. cc)
