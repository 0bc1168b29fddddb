-- ===== src/Tests/Printed.antt =====
-- libs/common, utils.hpp, on concrete texts.
use cpp_elevator.Base.{◌≡◌, refl}
use cpp_elevator.Base.Int.{pos, negsuc}
use cpp_elevator.Base.Outcome.{fault}
use cpp_elevator.Common.{BtnType}
use cpp_elevator.Common.Utils.{Console, print_btn_press, print_fsm, abort}

abbrev silent : Console
silent = record { cout = ""; cerr = "" }

pressed_line :
    (print_btn_press (pos 2) (pos 13) BtnType.hall_up silent).cout
    ≡ "[HW] e-2 : Button (13, Hall up) pressed\n"
unfolding print_btn_press
pressed_line = refl

timeout_line :
    (print_fsm "Door timeout" (negsuc 0) silent).cout
    ≡ "\u{1b}[32m[FSM] e--1 : Door timeout\u{1b}[0m\n"
unfolding print_fsm
timeout_line = refl

aborted : abort "no" silent ≡ (record { cout = ""; cerr = "\u{1b}[31mno\u{1b}[0m\n" }, fault)
unfolding abort
aborted = refl
