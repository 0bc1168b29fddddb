-- ===== src/Control/Fsm/Safety.antt =====
-- libs/control, the event handlers: the safety of the cabin, and the events as the node calls them.
use cpp_elevator.Base.{ℕ, ◌≡◌, ◌≢◌, arith, true, false, if◌then◌else◌}
use cpp_elevator.Base.Int.{pos, ◌≤ℤ◌, ◌<ℤ◌}
use cpp_elevator.Common.{k_floors, ButtonFlags, MotorDir, motor_code, MovingState}
use cpp_elevator.Hardware.{to_char}
use cpp_elevator.Hardware.Wire.{last_arg, Alive}
use cpp_elevator.Elevator
use cpp_elevator.Control.Controller.Direction.{choose_direction_cases}
use cpp_elevator.Control.Fsm.{
  Rig, on_elev, stop_door_timer, fsm_emergency_stop, fsm_emergency_stop_reset, fsm_table_update,
  fsm_floor_arrival, fsm_door_timeout, fsm_floor_timeout,
}

pub record Safe (r : Rig) : Type 0 where
  pub floor_from : pos 0 ≤ℤ r.elev.state.floor
  pub floor_below : r.elev.state.floor <ℤ pos k_floors
  pub door_still : r.elev.state.door_open ≡ true → r.elev.state.motor_dir ≡ MotorDir.stop
  pub moving_shut : r.elev.state.moving_state ≡ MovingState.moving → r.elev.state.door_open ≡ false
  pub parked_still :
      r.elev.state.moving_state ≢ MovingState.moving → r.elev.state.motor_dir ≡ MotorDir.stop
  pub stopped_still : r.elev.state.stopped ≡ true → r.elev.state.motor_dir ≡ MotorDir.stop
  pub stopped_parked : r.elev.state.stopped ≡ true → r.elev.state.moving_state ≢ MovingState.moving
  pub motor_wire : last_arg 1 0 r.elev.hw.trace ≡ to_char (motor_code r.elev.state.motor_dir)
  pub door_wire : last_arg 4 0 r.elev.hw.trace ≡ (if r.elev.state.door_open then 1 else 0)
  pub alive : Alive r.elev.hw.trace

fsm_emergency_stop-Safe : (now : ℕ) (r : Rig) → Safe r → Safe (fsm_emergency_stop now r).1
unfolding fsm_emergency_stop
fsm_emergency_stop-Safe now r s = ground arith

fsm_emergency_stop_reset-Safe :
    (now : ℕ) (r : Rig) → Safe r → Safe (fsm_emergency_stop_reset now r).1
unfolding fsm_emergency_stop_reset
fsm_emergency_stop_reset-Safe now r s = ground arith

fsm_table_update-Safe : (now : ℕ) (r : Rig) → Safe r → Safe (fsm_table_update now r).1
unfolding fsm_table_update
fsm_table_update-Safe now r s = ground (arith, choose_direction_cases r.elev.state.floor r.ctl)

fsm_floor_arrival-Safe : (now : ℕ) (r : Rig) → Safe r → Safe (fsm_floor_arrival now r).1
unfolding fsm_floor_arrival
fsm_floor_arrival-Safe now r s = ground arith

fsm_door_timeout-Safe : (now : ℕ) (r : Rig) → Safe r → Safe (fsm_door_timeout now r).1
unfolding fsm_door_timeout
fsm_door_timeout-Safe now r s =
    ground (arith, choose_direction_cases r.elev.state.floor (stop_door_timer r).ctl)

fsm_floor_timeout-Safe : (r : Rig) → Safe r → Safe (fsm_floor_timeout r).1
unfolding fsm_floor_timeout
fsm_floor_timeout-Safe r s = ground arith

-- The events that the node hands to the controller.
pub data FsmEvent : Type 0 where
  emergency_stop emergency_stop_reset table_update floor_arrival door_timeout floor_timeout :
      FsmEvent

unfoldable pub handle : FsmEvent → ℕ → Rig → ButtonFlags × Rig
handle FsmEvent.emergency_stop now r = fsm_emergency_stop now r
handle FsmEvent.emergency_stop_reset now r = fsm_emergency_stop_reset now r
handle FsmEvent.table_update now r = fsm_table_update now r
handle FsmEvent.floor_arrival now r = fsm_floor_arrival now r
handle FsmEvent.door_timeout now r = fsm_door_timeout now r
handle FsmEvent.floor_timeout now r = fsm_floor_timeout r

-- Every handler, in every state, keeps the elevator safe: the motor stands still while the door is
-- open, while the elevator is not moving and during an emergency stop; the motor and the door lamp
-- are as the last messages to the server set them; and no assertion fails.
pub handle-Safe : (ev : FsmEvent) (now : ℕ) (r : Rig) → Safe r → Safe (handle ev now r).1
unfolding handle
handle-Safe FsmEvent.emergency_stop now r s = fsm_emergency_stop-Safe now r s
handle-Safe FsmEvent.emergency_stop_reset now r s = fsm_emergency_stop_reset-Safe now r s
handle-Safe FsmEvent.table_update now r s = fsm_table_update-Safe now r s
handle-Safe FsmEvent.floor_arrival now r s = fsm_floor_arrival-Safe now r s
handle-Safe FsmEvent.door_timeout now r s = fsm_door_timeout-Safe now r s
handle-Safe FsmEvent.floor_timeout now r s = fsm_floor_timeout-Safe r s

-- Reading the sensors keeps it too, whatever they report.
pub step-Safe : (r : Rig) → Safe r → Safe (on_elev Elevator.step r)
unfolding Elevator.step
step-Safe r s = ground arith
