-- ===== src/Control/Controller.antt =====
-- libs/control, class Controller: its state, and the decisions that it takes from the requests and
-- from the direction of the last movement. `kNoClear` is `no_clear`.
pub mod Direction
pub mod Stops
pub mod Progress
pub mod Tables
use cpp_elevator.Base.{ℕ, Bool, true, false, not, ◌&&◌, ◌||◌, ◌==◌, if◌then◌else◌}
use cpp_elevator.Base.Int.{ℤ, pos, eqb_ℤ, ◌+ℤ◌, ◌-ℤ◌}
use cpp_elevator.Base.Grid.{for_grid, all_grid}
use cpp_elevator.Common.{
  k_floors, k_buttons, BoolTable, ButtonFlags, BtnType, btn_index, MotorDir, MovingState, Inertia,
  DirMovPair,
}
use cpp_elevator.Common.Timer.{Timer, default_timer, stop}
use cpp_elevator.Control.Requests.{
  RequestTable, empty_requests, set_value, value, is_request_here, is_request_above,
  is_request_below,
}

pub record Controller : Type 0 where
  pub prev_requests : RequestTable
  pub requests : RequestTable
  pub door_timer : Timer
  pub floor_timer : Timer
  pub inertia : Inertia

unfoldable pub new : Controller
unfolding stop
new = record {
  prev_requests = empty_requests;
  requests = empty_requests;
  door_timer = stop default_timer;
  floor_timer = stop default_timer;
  inertia = Inertia.none;
}

unfoldable pub init : Controller → Controller
unfolding stop
init c = record c { floor_timer = stop c.floor_timer }

abbrev pub no_clear : ButtonFlags
no_clear = record { hall_up = false; hall_down = false; cab = false }

-- The loops of `SetRequests`, over the table that they write.
abbrev pub set_request_round : BoolTable → ℕ → ℕ → RequestTable → RequestTable
set_request_round bool_table f b r = set_value (pos f) (pos b) (bool_table f b) r

unfoldable pub set_requests : BoolTable → Controller → Controller
set_requests bool_table c = record c {
  requests = for_grid k_floors k_buttons (set_request_round bool_table) c.requests;
}

abbrev pub go_up : DirMovPair
go_up = record { motor_dir = MotorDir.up; moving_state = MovingState.moving }

abbrev pub go_down : DirMovPair
go_down = record { motor_dir = MotorDir.down; moving_state = MovingState.moving }

abbrev pub stop_here : DirMovPair
stop_here = record { motor_dir = MotorDir.stop; moving_state = MovingState.door_open }

abbrev pub stay : DirMovPair
stay = record { motor_dir = MotorDir.stop; moving_state = MovingState.idle }

-- The `switch` of `ChooseDirection`.
choose_by : Inertia → ℤ → RequestTable → DirMovPair
choose_by Inertia.up floor t =
    if is_request_above floor t
    then go_up
    else if is_request_here floor t
    then stop_here
    else if is_request_below floor t
    then go_down
    else stay
choose_by Inertia.down floor t =
    if is_request_below floor t
    then go_down
    else if is_request_here floor t
    then stop_here
    else if is_request_above floor t
    then go_up
    else stay
choose_by Inertia.none floor t =
    if is_request_here floor t
    then stop_here
    else if is_request_above floor t
    then go_up
    else if is_request_below floor t
    then go_down
    else stay
choose_by _ floor t = stay

unfoldable pub choose_direction : ℤ → Controller → DirMovPair
unfolding choose_by
choose_direction floor c = choose_by c.inertia floor c.requests

stop_by : Inertia → ℤ → RequestTable → Bool
stop_by Inertia.down floor t =
    value floor BtnType.hall_down t || value floor BtnType.cab t || not (is_request_below floor t)
stop_by Inertia.up floor t =
    value floor BtnType.hall_up t || value floor BtnType.cab t || not (is_request_above floor t)
stop_by _ floor t = true

unfoldable pub should_stop : ℤ → Controller → Bool
unfolding stop_by
should_stop floor c = stop_by c.inertia floor c.requests

clears_at_once : Inertia → BtnType → Bool
clears_at_once Inertia.up BtnType.hall_up = true
clears_at_once Inertia.down BtnType.hall_down = true
clears_at_once _ BtnType.cab = true
clears_at_once _ _ = false

unfoldable pub should_clear_immediately : ℤ → ℤ → BtnType → Controller → Bool
unfolding clears_at_once
should_clear_immediately floor btn_floor btn c =
    eqb_ℤ floor btn_floor && clears_at_once c.inertia btn

clear_by : Inertia → ℤ → RequestTable → ButtonFlags
clear_by Inertia.up floor t = record {
  hall_up = true;
  hall_down = not (is_request_above floor t) && not (value floor BtnType.hall_up t);
  cab = true;
}
clear_by Inertia.down floor t = record {
  hall_up = not (is_request_below floor t) && not (value floor BtnType.hall_down t);
  hall_down = true;
  cab = true;
}
clear_by _ floor t = record { hall_up = true; hall_down = true; cab = true }

unfoldable pub clear_current_floor : ℤ → Controller → ButtonFlags
unfolding clear_by
clear_current_floor floor c = clear_by c.inertia floor c.requests

abbrev pub same_bool : Bool → Bool → Bool
same_bool true b = b
same_bool false b = not b

-- `requests_.Table() != prev_requests_.Table()`, and the update of the latter.
unfoldable pub request_table_updated : Controller → Bool × Controller
request_table_updated c = (
  not (
      all_grid k_floors k_buttons
        (λ f b. same_bool (c.requests.table f b) (c.prev_requests.table f b))),
  record c { prev_requests = c.requests },
)
