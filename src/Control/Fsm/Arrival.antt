-- ===== src/Control/Fsm/Arrival.antt =====
-- libs/control, FsmFloorArrival: the stop at a floor.
use cpp_elevator.Base.{ℕ, ◌≡◌, arith, true}
use cpp_elevator.Base.Int.{pos}
use cpp_elevator.Common.{ButtonFlags, MotorDir, MovingState}
use cpp_elevator.Common.Timer.{start}
use cpp_elevator.Control.Controller.{should_stop, clear_current_floor}
use cpp_elevator.Control.Fsm.{Rig, fsm_floor_arrival}

-- A moving cabin at a floor where it has to stop.
pub record StopsAt (f : ℕ) (r : Rig) : Type 0 where
  pub floor : r.elev.state.floor ≡ pos f
  pub moving : r.elev.state.moving_state ≡ MovingState.moving
  pub stops : should_stop (pos f) r.ctl ≡ true

-- The cabin `r` stands at the floor with an open door that is timed, and the calls to be cleared are
-- those of the floor for the cabin `old`.
pub record IsServing (f : ℕ) (old : Rig) (b2c : ButtonFlags) (r : Rig) : Type 0 where
  pub flags : b2c ≡ clear_current_floor (pos f) old.ctl
  pub floor : r.elev.state.floor ≡ pos f
  pub door : r.elev.state.door_open ≡ true
  pub motor : r.elev.state.motor_dir ≡ MotorDir.stop
  pub timed : r.ctl.door_timer.active ≡ true

pub fsm_floor_arrival-IsServing :
    (now f : ℕ) (r : Rig)
    → StopsAt f r
    → IsServing f r (fsm_floor_arrival now r).0 (fsm_floor_arrival now r).1
unfolding fsm_floor_arrival should_stop clear_current_floor start
fsm_floor_arrival-IsServing now f r s =
    let floor = s.floor in
    let moving = s.moving in
    let stops = s.stops in
    record {
      flags = ground arith;
      floor = ground arith;
      door = ground arith;
      motor = ground arith;
      timed = ground arith;
    }
