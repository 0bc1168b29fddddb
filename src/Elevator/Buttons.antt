-- ===== src/Elevator/Buttons.antt =====
-- libs/buttons: buttons that report a press once, when their signal rises.
use cpp_elevator.Base.{ℕ, Bool, true, false, not, ◌&&◌, if◌then◌else◌, ◌==◌}
use cpp_elevator.Base.Int.{ℤ, pos, eqb_ℤ}
use cpp_elevator.Base.Grid.{Grid, put, for_grid}
use cpp_elevator.Common.{k_floors, k_buttons, BtnType}
use cpp_elevator.Hardware.{Hardware, get_button_signal, get_stop_signal}

pub record OrderButton : Type 0 where
  pub floor : ℤ
  pub btn : BtnType
  pub curr_press : Bool
  pub prev_press : Bool

-- `(BtnType)b` at a loop counter below `kButtons`.
abbrev pub btn_of_index : ℕ → BtnType
btn_of_index b =
    if b == 0 then BtnType.hall_up else if b == 1 then BtnType.hall_down else BtnType.cab

-- The part of `Pressed` behind the reading of the signal.
abbrev pub rises : Bool → Bool → Bool
rises curr prev = if curr && not prev then true else false

unfoldable pub pressed : OrderButton → Hardware → Bool × OrderButton × Hardware
unfolding get_button_signal
pressed b hw =
    let (v, hw') = get_button_signal b.btn b.floor hw in
    let curr = not (eqb_ℤ v (pos 0)) in
    (rises curr b.prev_press, record b { curr_press = curr; prev_press = curr }, hw')

unfoldable pub init : ℤ → BtnType → OrderButton → OrderButton
init floor btn b = record b { floor = floor; btn = btn }

abbrev pub OrderButtonTable : Type 0
OrderButtonTable = Grid OrderButton

abbrev default_button : OrderButton
default_button = record {
  floor = pos 0;
  btn = BtnType.hall_up;
  curr_press = false;
  prev_press = false;
}

unfoldable pub default_buttons : OrderButtonTable
default_buttons =
    for_grid k_floors k_buttons (λ f b t. put t f b (init (pos f) (btn_of_index b) (t f b)))
      (λ f b. default_button)

pub record StopButton : Type 0 where
  pub curr_press : Bool
  pub prev_press : Bool

abbrev pub default_stop_button : StopButton
default_stop_button = record { curr_press = false; prev_press = false }

unfoldable pub stop_pressed : StopButton → Hardware → Bool × StopButton × Hardware
unfolding get_stop_signal
stop_pressed b hw =
    let (v, hw') = get_stop_signal hw in
    let curr = not (eqb_ℤ v (pos 0)) in
    (rises curr b.prev_press, record b { curr_press = curr; prev_press = curr }, hw')
