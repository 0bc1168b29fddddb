-- ===== src/Elevator/State.antt =====
-- libs/elevator, class ElevatorState: what a node knows of one elevator. It is sent to the other
-- nodes, under a `uint64_t` version that wraps.
pub mod Updates
use cpp_elevator.Base.{
  ℕ, ◌+◌, ◌%◌, ◌^◌, Bool, true, false, not, ◌&&◌, ◌||◌, ltb, leb, if◌then◌else◌,
}
use cpp_elevator.Base.Int.{ℤ, pos, negsuc, ltb_ℤ, leb_ℤ}
use cpp_elevator.Common.{
  k_elevs, k_floors, BoolTable, MotorDir, motor_code, MovingState, moving_code, Inertia,
  inertia_code,
}

pub record ElevatorState : Type 0 where
  pub id : ℤ
  pub floor : ℤ
  pub active : Bool
  pub obstruction : Bool
  pub fault : Bool
  pub door_open : Bool
  pub stopped : Bool
  pub motor_dir : MotorDir
  pub moving_state : MovingState
  pub version : ℕ
  pub requests : BoolTable
  pub inertia : Inertia

abbrev pub default_state : ElevatorState
default_state = record {
  id = negsuc 0;
  floor = negsuc 0;
  active = false;
  obstruction = true;
  fault = false;
  door_open = false;
  stopped = false;
  motor_dir = MotorDir.stop;
  moving_state = MovingState.idle;
  version = 0;
  requests = λ f b. false;
  inertia = Inertia.none;
}

unfoldable pub init : ElevatorState → ElevatorState
init s = record s {
  active = true;
  fault = false;
  stopped = false;
  door_open = false;
  motor_dir = MotorDir.stop;
  moving_state = MovingState.idle;
  inertia = Inertia.none;
  version = 1;
}

-- The setters without a test.
abbrev pub set_id : ℤ → ElevatorState → ElevatorState
set_id id s = record s { id = id }

abbrev pub set_stopped : Bool → ElevatorState → ElevatorState
set_stopped stopped s = record s { stopped = stopped }

abbrev pub set_motor_dir : MotorDir → ElevatorState → ElevatorState
set_motor_dir motor_dir s = record s { motor_dir = motor_dir }

abbrev pub set_moving_state : MovingState → ElevatorState → ElevatorState
set_moving_state moving_state s = record s { moving_state = moving_state }

abbrev pub set_obstruction : Bool → ElevatorState → ElevatorState
set_obstruction obstruction s = record s { obstruction = obstruction }

abbrev pub set_fault : Bool → ElevatorState → ElevatorState
set_fault fault s = record s { fault = fault }

abbrev pub set_door_open : Bool → ElevatorState → ElevatorState
set_door_open door_open s = record s { door_open = door_open }

abbrev pub set_requests : BoolTable → ElevatorState → ElevatorState
set_requests requests s = record s { requests = requests }

abbrev pub set_activity : Bool → ElevatorState → ElevatorState
set_activity active s = record s { active = active }

abbrev pub set_inertia : Inertia → ElevatorState → ElevatorState
set_inertia inertia s = record s { inertia = inertia }

unfoldable pub set_floor : ℤ → ElevatorState → ElevatorState
set_floor floor s =
    if ltb_ℤ floor (pos 0) || leb_ℤ (pos k_floors) floor then s else record s { floor = floor }

unfoldable pub copy_from : ElevatorState → ElevatorState → ElevatorState
copy_from rhs s = record {
  id = rhs.id;
  floor = rhs.floor;
  active = rhs.active;
  obstruction = rhs.obstruction;
  fault = rhs.fault;
  door_open = rhs.door_open;
  stopped = rhs.stopped;
  motor_dir = rhs.motor_dir;
  moving_state = rhs.moving_state;
  version = rhs.version;
  requests = rhs.requests;
  inertia = rhs.inertia;
}

unfoldable pub valid : ElevatorState → Bool
valid s =
    if ltb_ℤ s.id (pos 0) || leb_ℤ (pos k_elevs) s.id
    then false
    else if ltb_ℤ s.floor (pos 0) || leb_ℤ (pos k_floors) s.floor
    then false
    else if ltb_ℤ (motor_code s.motor_dir) (motor_code MotorDir.down)
        || ltb_ℤ (motor_code MotorDir.err) (motor_code s.motor_dir)
    then false
    else if ltb (moving_code MovingState.err) (moving_code s.moving_state)
    then false
    else if ltb (inertia_code Inertia.none) (inertia_code s.inertia)
    then false
    else true

unfoldable pub on_update : ElevatorState → ElevatorState → ElevatorState
unfolding copy_from
on_update rcv s = if leb rcv.version s.version then s else copy_from rcv s

unfoldable pub increment_version : ElevatorState → ElevatorState
increment_version s = record s { version = (s.version + 1) % 2 ^ 64 }

unfoldable pub on_watchdog_timeout : ElevatorState → ElevatorState
on_watchdog_timeout s = record s { active = false; version = 0 }

unfoldable pub usable : ElevatorState → Bool
usable s = s.active && not s.obstruction && not s.stopped && not s.fault
