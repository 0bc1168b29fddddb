-- ===== src/Control/Fsm.antt =====
-- libs/control, class Controller: the event handlers. A handler changes the controller and the
-- elevator that it is given, and returns the buttons to clear. The clock is read once for a
-- handler, and does not move while it runs; what is printed is left out.
pub mod Safety
pub mod Emergency
pub mod Arrival
use cpp_elevator.Base.{ℕ, Bool, true, false, not, ◌&&◌, ◌||◌, if◌then◌else◌}
use cpp_elevator.Base.Int.{ℤ, pos, eqb_ℤ}
use cpp_elevator.Common.{
  k_floors, k_between_floors, k_door_open_time_ms, k_fault_timeout_ms, ButtonFlags, MotorDir,
  eq_motor, MovingState, eq_moving, Inertia, inertia_code, DirMovPair,
}
use cpp_elevator.Common.Timer.{start, stop, expired}
use cpp_elevator.Control.Controller.{
  Controller, no_clear, choose_direction, should_stop, clear_current_floor,
}
use cpp_elevator.Elevator.{Elevator}
use cpp_elevator.Elevator
use cpp_elevator.Elevator.State

pub record Rig : Type 0 where
  pub ctl : Controller
  pub elev : Elevator

abbrev pub on_elev : (Elevator → Elevator) → Rig → Rig
on_elev f r = record r { elev = f r.elev }

abbrev pub start_door_timer : ℕ → Rig → Rig
start_door_timer now r = record r {
  ctl = record (r.ctl) { door_timer = start now k_door_open_time_ms r.ctl.door_timer };
}

abbrev pub start_floor_timer : ℕ → Rig → Rig
start_floor_timer now r = record r {
  ctl = record (r.ctl) { floor_timer = start now k_fault_timeout_ms r.ctl.floor_timer };
}

abbrev pub stop_door_timer : Rig → Rig
stop_door_timer r = record r { ctl = record (r.ctl) { door_timer = stop r.ctl.door_timer } }

abbrev pub stop_floor_timer : Rig → Rig
stop_floor_timer r = record r { ctl = record (r.ctl) { floor_timer = stop r.ctl.floor_timer } }

abbrev pub set_stopped : Bool → Elevator → Elevator
set_stopped v e = record e { state = State.set_stopped v e.state }

abbrev pub set_fault : Bool → Elevator → Elevator
set_fault v e = record e { state = State.set_fault v e.state }

abbrev pub set_moving_state : MovingState → Elevator → Elevator
set_moving_state m e = record e { state = State.set_moving_state m e.state }

abbrev next_inertia : MotorDir → Inertia → Inertia
next_inertia dir i =
    if eq_motor dir MotorDir.down
    then Inertia.down
    else if eq_motor dir MotorDir.up
    then Inertia.up
    else i

unfoldable pub set_inertia : MotorDir → Rig → Rig
set_inertia dir r =
    let i = next_inertia dir r.ctl.inertia in
    record {
      ctl = record (r.ctl) { inertia = i };
      elev = record (r.elev) { state = State.set_inertia i r.elev.state };
    }

unfoldable pub execute_decision : ℕ → DirMovPair → Rig → Rig
unfolding set_inertia Elevator.set_motor_dir
execute_decision now pair r =
    if r.elev.state.stopped
    then r
    else let r₁ =
        on_elev (λ e. set_moving_state pair.moving_state (Elevator.set_motor_dir pair.motor_dir e))
          r in
      let r₂ =
        if eq_moving pair.moving_state MovingState.moving
        then start_floor_timer now r₁
        else stop_floor_timer r₁ in
      set_inertia pair.motor_dir r₂

unfoldable pub stop_and_open_door : ℕ → Rig → Rig
unfolding Elevator.set_motor_dir Elevator.open_door
stop_and_open_door now r =
    let r₁ = on_elev (λ e. Elevator.open_door (Elevator.set_motor_dir MotorDir.stop e)) r in
    stop_floor_timer (start_door_timer now r₁)

-- `return ClearCurrentFloor(floor)` in the state `r`.
abbrev pub clearing : ℤ → Rig → ButtonFlags × Rig
clearing floor r = (clear_current_floor floor r.ctl, r)

-- The `int` result is 0 or 1.
unfoldable pub try_close_door : ℕ → Rig → Bool × Rig
unfolding Elevator.close_door
try_close_door now r =
    if r.elev.state.obstruction
    then (false, if expired now r.ctl.door_timer then start_door_timer now r else r)
    else (true, on_elev Elevator.close_door r)

unfoldable pub fsm_emergency_stop : ℕ → Rig → ButtonFlags × Rig
unfolding Elevator.set_stop_lamp Elevator.set_motor_dir Elevator.floor_sensor Elevator.open_door
fsm_emergency_stop now r =
    let e₁ =
      Elevator.set_stop_lamp (pos 1)
        (Elevator.set_motor_dir MotorDir.stop (set_stopped true r.elev)) in
    let (f, e₂) = Elevator.floor_sensor e₁ in
    let r₂ = record r { elev = e₂ } in
    let r₃ =
      if eqb_ℤ f k_between_floors
      then r₂
      else start_door_timer now
          (if e₂.state.door_open then r₂ else on_elev Elevator.open_door r₂) in
    (no_clear, stop_floor_timer (on_elev (set_moving_state MovingState.idle) r₃))

-- The direction of the last movement, as a decision.
abbrev resume : Inertia → DirMovPair
resume Inertia.up = record { motor_dir = MotorDir.up; moving_state = MovingState.moving }
resume Inertia.down = record { motor_dir = MotorDir.down; moving_state = MovingState.moving }
resume _ = record { motor_dir = MotorDir.stop; moving_state = MovingState.idle }

unfoldable pub fsm_emergency_stop_reset : ℕ → Rig → ButtonFlags × Rig
unfolding execute_decision Elevator.set_stop_lamp
fsm_emergency_stop_reset now r =
    let floor = r.elev.state.floor in
    let r₁ = on_elev (λ e. Elevator.set_stop_lamp (pos 0) (set_stopped false e)) r in
    if r₁.elev.state.door_open
    then clearing floor (start_door_timer now (on_elev (set_moving_state MovingState.door_open) r₁))
    else (no_clear, execute_decision now (resume r₁.ctl.inertia) r₁)

-- The decision of an idle elevator, in `FsmTableUpdate`.
table_update_idle : ℕ → DirMovPair → Rig → ButtonFlags × Rig
unfolding execute_decision try_close_door Elevator.open_door
table_update_idle now pair r =
    let floor = r.elev.state.floor in
    if eq_moving pair.moving_state MovingState.door_open
    then clearing floor (
        execute_decision now pair (
          start_door_timer now
            (if eqb_ℤ floor k_between_floors then r else on_elev Elevator.open_door r)))
    else let (closed, r₁) = try_close_door now r in
      (no_clear, if closed then execute_decision now pair r₁ else r₁)

unfoldable pub fsm_table_update : ℕ → Rig → ButtonFlags × Rig
unfolding table_update_idle
fsm_table_update now r =
    let floor = r.elev.state.floor in
    let mov = r.elev.state.moving_state in
    if eq_moving mov MovingState.door_open
    then if should_stop floor r.ctl then clearing floor (start_door_timer now r) else (no_clear, r)
    else if eq_moving mov MovingState.moving || eq_moving mov MovingState.err
    then (no_clear, r)
    else table_update_idle now (choose_direction floor r.ctl) r

unfoldable pub fsm_floor_arrival : ℕ → Rig → ButtonFlags × Rig
unfolding stop_and_open_door Elevator.set_motor_dir Elevator.set_floor_indicator
fsm_floor_arrival now r =
    let floor = r.elev.state.floor in
    let mov = r.elev.state.moving_state in
    let r₁ =
      if eqb_ℤ floor (pos 0) || eqb_ℤ floor (pos k_floors)
      then on_elev (Elevator.set_motor_dir MotorDir.stop) r
      else r in
    let r₂ = on_elev (λ e. set_fault false (Elevator.set_floor_indicator e)) r₁ in
    let r₃ = start_floor_timer now r₂ in
    if not (eq_moving mov MovingState.moving) || not (should_stop floor r₃.ctl)
    then (no_clear, r₃)
    else clearing floor (stop_and_open_door now r₃)

-- The decision behind an open door without obstruction, in `FsmDoorTimeout`.
door_timeout_decide : ℕ → DirMovPair → Rig → ButtonFlags × Rig
unfolding execute_decision try_close_door
door_timeout_decide now pair r =
    if eq_moving pair.moving_state MovingState.door_open
    then (let r₁ = start_door_timer now (execute_decision now pair r) in
        clearing r₁.elev.state.floor r₁)
    else let (closed, r₁) = try_close_door now r in
      (no_clear, if closed then execute_decision now pair r₁ else r₁)

unfoldable pub fsm_door_timeout : ℕ → Rig → ButtonFlags × Rig
unfolding door_timeout_decide
fsm_door_timeout now r =
    let floor = r.elev.state.floor in
    let r₁ = stop_door_timer r in
    if r₁.elev.state.obstruction
    then (no_clear, start_door_timer now r₁)
    else if not (eq_moving r₁.elev.state.moving_state MovingState.door_open)
    then (no_clear, r₁)
    else door_timeout_decide now (choose_direction floor r₁.ctl) r₁

unfoldable pub fsm_floor_timeout : Rig → ButtonFlags × Rig
fsm_floor_timeout r =
    let r₁ = stop_floor_timer r in
    (
      no_clear,
      if eq_moving r₁.elev.state.moving_state MovingState.moving
          then on_elev (set_fault true) r₁
          else r₁,
    )
