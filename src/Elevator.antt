-- ===== src/Elevator.antt =====
-- libs/elevator, class Elevator, with the button objects of libs/buttons that it owns. The socket
-- of libs/hardware, a global in the source, is carried along as the field `hw`.
pub mod State
pub mod Buttons
pub mod Arrival
pub mod Start
use cpp_elevator.Base.{ℕ, zero, suc, Bool, true, false, not, ◌&&◌, List, [], ◌∷◌, if◌then◌else◌}
use mathlib.Core.Option
use mathlib.Core.Option.{Option, none, some}
use cpp_elevator.Base.Int.{ℤ, pos, negsuc, eqb_ℤ}
use cpp_elevator.Common.{k_between_floors, MotorDir, MovingState, BtnType}
use cpp_elevator.Hardware.{Hardware}
use cpp_elevator.Hardware
use State.{ElevatorState, default_state}
use State
use Buttons.{OrderButtonTable, StopButton, default_buttons, default_stop_button}
use Buttons

pub record Elevator : Type 0 where
  pub state : ElevatorState
  pub order_buttons : OrderButtonTable
  pub stop_button : StopButton
  pub prev_floor : ℤ
  pub stop_pressed : Bool
  pub hw : Hardware

-- `Elevator(id, ip)`, with the socket as it is.
abbrev pub new : ℤ → Hardware → Elevator
new id hw = record {
  state = State.set_id id default_state;
  order_buttons = default_buttons;
  stop_button = default_stop_button;
  prev_floor = pos 0;
  stop_pressed = false;
  hw = hw;
}

-- Conversion of an `int` to `bool`.
abbrev pub truthy : ℤ → Bool
truthy n = not (eqb_ℤ n (pos 0))

unfoldable pub floor_sensor : Elevator → ℤ × Elevator
unfolding Hardware.get_floor_sensor
floor_sensor e = let (v, hw) = Hardware.get_floor_sensor e.hw in (v, record e { hw = hw })

unfoldable pub stop_signal : Elevator → ℤ × Elevator
unfolding Hardware.get_stop_signal
stop_signal e = let (v, hw) = Hardware.get_stop_signal e.hw in (v, record e { hw = hw })

unfoldable pub obstruction_signal : Elevator → ℤ × Elevator
unfolding Hardware.get_obstruction_signal
obstruction_signal e =
    let (v, hw) = Hardware.get_obstruction_signal e.hw in (v, record e { hw = hw })

unfoldable pub set_motor_dir : MotorDir → Elevator → Elevator
unfolding Hardware.set_motor_dir
set_motor_dir dir e =
    let new_dir = if e.state.stopped then MotorDir.stop else dir in
    record e {
      hw = Hardware.set_motor_dir new_dir e.hw;
      state = State.set_motor_dir new_dir e.state;
    }

unfoldable pub set_door_open_lamp : ℤ → Elevator → Elevator
unfolding Hardware.set_door_open_lamp
set_door_open_lamp value e = record e { hw = Hardware.set_door_open_lamp value e.hw }

unfoldable pub set_stop_lamp : ℤ → Elevator → Elevator
unfolding Hardware.set_stop_lamp
set_stop_lamp value e = record e { hw = Hardware.set_stop_lamp value e.hw }

unfoldable pub set_button_lamp : ℤ → BtnType → ℤ → Elevator → Elevator
unfolding Hardware.set_btn_lamp
set_button_lamp floor btn value e = record e { hw = Hardware.set_btn_lamp btn floor value e.hw }

unfoldable pub set_floor_indicator : Elevator → Elevator
unfolding Hardware.set_floor_indicator
set_floor_indicator e =
    if eqb_ℤ e.state.floor k_between_floors
    then e
    else record e { hw = Hardware.set_floor_indicator e.state.floor e.hw }

unfoldable pub open_door : Elevator → Elevator
unfolding set_door_open_lamp
open_door e =
    let e' = set_door_open_lamp (pos 1) e in
    record e' {
      state = State.set_moving_state MovingState.door_open (State.set_door_open true e'.state);
    }

unfoldable pub close_door : Elevator → Elevator
unfolding set_door_open_lamp
close_door e =
    let e' = set_door_open_lamp (pos 0) e in
    record e' { state = State.set_door_open false e'.state }

unfoldable pub step : Elevator → Elevator
unfolding floor_sensor obstruction_signal State.set_floor Buttons.stop_pressed
step e =
    let (f, e₁) = floor_sensor e in
    let e₂ = record e₁ { state = State.set_floor f e₁.state } in
    let (o, e₃) = obstruction_signal e₂ in
    let e₄ = record e₃ { state = State.set_obstruction (truthy o) e₃.state } in
    let (pressed, b, hw) = Buttons.stop_pressed e₄.stop_button e₄.hw in
    record e₄ { stop_pressed = pressed; stop_button = b; hw = hw }

-- The waiting loop of `InitToFloor`, at most `fuel` readings; `none` is a cabin still on its way.
unfoldable pub wait_for_floor : ℕ → Elevator → Option Elevator
unfolding floor_sensor
wait_for_floor zero e = none
wait_for_floor (suc fuel) e =
    let (f, e') = floor_sensor e in
    let rest = wait_for_floor fuel e' in if eqb_ℤ f k_between_floors then rest else some e'

unfoldable pub init_to_floor : ℕ → Elevator → Option Elevator
unfolding set_motor_dir wait_for_floor
init_to_floor fuel e =
    Option.map (set_motor_dir MotorDir.stop) (wait_for_floor fuel (set_motor_dir MotorDir.down e))

-- `Init` behind `InitToFloor`.
unfoldable pub read_signals : Elevator → Elevator
unfolding floor_sensor stop_signal obstruction_signal set_floor_indicator State.init State.set_floor
read_signals e₀ =
    let e₁ = record e₀ { state = State.init (e₀.state) } in
    let (f, e₂) = floor_sensor e₁ in
    let e₃ = record e₂ { state = State.set_floor f e₂.state } in
    let (s, e₄) = stop_signal e₃ in
    let e₅ = record e₄ { state = State.set_stopped (truthy s) e₄.state } in
    let (o, e₆) = obstruction_signal e₅ in
    let e₇ = record e₆ { state = State.set_obstruction (truthy o) e₆.state } in
    let e₈ = set_floor_indicator e₇ in record e₈ { prev_floor = e₈.state.floor }

unfoldable pub init : ℕ → Elevator → Option Elevator
unfolding init_to_floor read_signals
init fuel e = Option.map read_signals (init_to_floor fuel e)

unfoldable pub hit_new_floor : Elevator → Bool × Elevator
hit_new_floor e = (
  not (eqb_ℤ e.state.floor e.prev_floor) && not (eqb_ℤ e.state.floor k_between_floors),
  record e { prev_floor = e.state.floor },
)

unfoldable pub emergency_stop : Elevator → Bool
emergency_stop e = e.stop_pressed && not e.state.stopped

unfoldable pub emergency_stop_reset : Elevator → Bool
emergency_stop_reset e = e.stop_pressed && e.state.stopped
