-- ===== src/Common/Utils.antt =====
-- libs/common, utils.hpp: what the functions print. The texts on `std::cout` and `std::cerr` so far
-- are the state; `abort` ends the process, which is a fault.
use Prim.Native.String.{String, ◌++◌, slice}
use cpp_elevator.Base.{ℕ, zero, suc, ◌+◌, ◌/◌, ◌%◌, ◌≡◌, refl, ltb, if◌then◌else◌}
use cpp_elevator.Base.Int.{ℤ, pos, negsuc}
use cpp_elevator.Base.Outcome.{Outcome, fault}
use cpp_elevator.Common.{BtnType}

abbrev green : String
green = "\u{1b}[32m"

abbrev yellow : String
yellow = "\u{1b}[33m"

abbrev red : String
red = "\u{1b}[31m"

abbrev reset : String
reset = "\u{1b}[0m"

pub record Console : Type 0 where
  pub cout : String
  pub cerr : String

abbrev out : String → Console → Console
out s c = record c { cout = c.cout ++ s }

-- The digits of a number, in front of those that are written; `fuel` is enough for as many digits.
digits : ℕ → ℕ → String → String
digits zero n rest = rest
digits (suc fuel) n rest =
    let written = slice "0123456789" (n % 10) (n % 10 + 1) ++ rest in
    let longer = digits fuel (n / 10) written in if ltb n 10 then written else longer

-- `<<` of an `int`, which has ten digits at most.
unfoldable pub decimal : ℤ → String
unfolding digits
decimal (pos n) = digits 10 n ""
decimal (negsuc n) = "-" ++ digits 10 (suc n) ""

-- The result "Error" is for a value that is none of the three enumerators, which `BtnType` has not.
unfoldable pub btn_type_to_string : BtnType → String
btn_type_to_string BtnType.cab = "Cab"
btn_type_to_string BtnType.hall_up = "Hall up"
btn_type_to_string BtnType.hall_down = "Hall down"

unfoldable pub print_btn_press : ℤ → ℤ → BtnType → Console → Console
unfolding decimal btn_type_to_string
print_btn_press elev_id floor btn = out (
    "[HW] e-"
    ++ decimal elev_id
    ++ " : Button ("
    ++ decimal floor
    ++ ", "
    ++ btn_type_to_string btn
    ++ ") pressed\n")

unfoldable pub print : String → Console → Console
print s = out (s ++ "\n")

unfoldable pub print_error : String → Console → Console
print_error msg c = record c { cerr = c.cerr ++ red ++ msg ++ reset ++ "\n" }

unfoldable pub print_warning : String → Console → Console
print_warning msg = out (yellow ++ msg ++ reset ++ "\n")

-- The console at the end of the process, and the fault.
unfoldable pub abort : String → Console → Console × Outcome Console
unfolding print_error
abort s c = (print_error s c, fault)

unfoldable pub print_fsm : String → ℤ → Console → Console
unfolding decimal
print_fsm event_msg elev_id =
    out (green ++ "[FSM] e-" ++ decimal elev_id ++ " : " ++ event_msg ++ reset ++ "\n")

-- The buttons have different names.
pub btn_type_to_string-injective :
    (b c : BtnType) → btn_type_to_string b ≡ btn_type_to_string c → b ≡ c
unfolding btn_type_to_string
btn_type_to_string-injective BtnType.cab BtnType.cab h = refl
btn_type_to_string-injective BtnType.hall_up BtnType.hall_up h = refl
btn_type_to_string-injective BtnType.hall_down BtnType.hall_down h = refl
btn_type_to_string-injective BtnType.cab BtnType.hall_up h = absurd cc
btn_type_to_string-injective BtnType.cab BtnType.hall_down h = absurd cc
btn_type_to_string-injective BtnType.hall_up BtnType.cab h = absurd cc
btn_type_to_string-injective BtnType.hall_up BtnType.hall_down h = absurd cc
btn_type_to_string-injective BtnType.hall_down BtnType.cab h = absurd cc
btn_type_to_string-injective BtnType.hall_down BtnType.hall_up h = absurd cc
