-- ===== src/Tests/Control.antt =====
-- Request tables and the controller's decisions on concrete inputs.
use cpp_elevator.Base.{◌≡◌, refl, arith, ◌↔◌, true, false, ◌&&◌, ◌||◌, ◌==◌, if◌then◌else◌}
use cpp_elevator.Base.Int.{pos, eqb_ℤ}
use cpp_elevator.Common.{k_floors, BoolTable, BtnType, btn_index, Inertia}
use cpp_elevator.Control.Requests.{
  RequestTable, out_of_range, set_value, value, is_request_above, is_request_below,
}
use cpp_elevator.Control.Requests.Search.{
  value-set_value, RequestedAbove, RequestedBelow, is_request_above_iff, is_request_below_iff,
}
use cpp_elevator.Control.Controller.{
  Controller, new, set_requests, go_up, choose_direction, should_stop, clear_current_floor,
  request_table_updated,
}
use cpp_elevator.Control.Controller.Direction.{
  Choice, choose_direction-Choice, InShaft, choose_direction-InShaft,
}
use cpp_elevator.Control.Controller.Stops.{
  OnTheWay, should_stop-OnTheWay, flag, Served, clear_current_floor-Served,
}
use cpp_elevator.Control.Controller.Progress.{
  Clears, Progress, choose_direction-Progress, MoreAhead, should_stop-Clears,
}
use cpp_elevator.Base.{inl, inr, ◌⊎◌}
use cpp_elevator.Control.Controller.Tables.{
  set_requests-cell, SameTable, request_table_updated_once,
}

-- A call upwards at floor 3 and one from the cabin to floor 0.
abbrev calls : BoolTable
calls f b = (f == 3 && b == 0) || (f == 0 && b == 2)

abbrev wanted : RequestTable
wanted = record { table = calls }

going_up : Controller
unfolding new
going_up = record new { requests = wanted; inertia = Inertia.up }

above_run : is_request_above (pos 1) wanted ≡ true
unfolding is_request_above
above_run = refl

above_2 : is_request_above (pos 2) wanted ≡ true
unfolding is_request_above
above_2 = refl

below_run : is_request_below (pos 1) wanted ≡ true
unfolding is_request_below
below_run = refl

top_run : is_request_above (pos 3) wanted ≡ false
unfolding is_request_above
top_run = refl

up_run : choose_direction (pos 1) going_up ≡ go_up
unfolding choose_direction going_up is_request_above
up_run = refl

value-set_value_example :
    value (pos 2) BtnType.cab (set_value (pos 2) (pos (btn_index BtnType.cab)) true wanted) ≡ (
      if eqb_ℤ (pos 2) (pos 2) && btn_index BtnType.cab == btn_index BtnType.cab
      then (if out_of_range (pos 2) k_floors then false else true)
      else value (pos 2) BtnType.cab wanted)
value-set_value_example = value-set_value (pos 2) (pos 2) BtnType.cab BtnType.cab true wanted

is_request_above_iff_example :
    (is_request_above (pos 1) wanted ≡ true) ↔ RequestedAbove wanted (pos 1)
is_request_above_iff_example = is_request_above_iff (pos 1) wanted

is_request_below_iff_example :
    (is_request_below (pos 1) wanted ≡ true) ↔ RequestedBelow wanted (pos 1)
is_request_below_iff_example = is_request_below_iff (pos 1) wanted

choose_direction-Choice_example :
    Choice going_up.inertia going_up.requests (pos 1) (choose_direction (pos 1) going_up)
unfolding going_up
choose_direction-Choice_example = choose_direction-Choice (pos 1) going_up (omega arith)

choose_direction-InShaft_example : InShaft (pos 3) (choose_direction (pos 3) going_up).motor_dir
choose_direction-InShaft_example = choose_direction-InShaft (pos 3) going_up

should_stop-OnTheWay_example :
    (should_stop (pos 2) going_up ≡ true) ↔ OnTheWay going_up.inertia going_up.requests (pos 2)
should_stop-OnTheWay_example = should_stop-OnTheWay (pos 2) going_up

clear_current_floor-Served_example :
    (flag (clear_current_floor (pos 3) going_up) BtnType.hall_down ≡ true)
    ↔ Served going_up.inertia going_up.requests (pos 3) BtnType.hall_down
clear_current_floor-Served_example = clear_current_floor-Served (pos 3) BtnType.hall_down going_up

set_requests-cell_example : (set_requests calls new).requests.table 3 0 ≡ calls 3 0
set_requests-cell_example = set_requests-cell calls new 3 0 (omega arith) (omega arith)

request_table_updated_once_example :
    (((request_table_updated going_up).0 ≡ false)
      ↔ SameTable going_up.requests.table going_up.prev_requests.table)
    × ((request_table_updated (request_table_updated going_up).1).0 ≡ false)
request_table_updated_once_example = request_table_updated_once going_up

choose_direction-Progress_example : Progress going_up (pos 1)
unfolding going_up
choose_direction-Progress_example = choose_direction-Progress (pos 1) going_up (omega arith)

should_stop-Clears_example :
    ((should_stop (pos 2) going_up ≡ true) × Clears going_up (pos 2))
    ⊎ ((should_stop (pos 2) going_up ≡ false) × MoreAhead going_up (pos 2))
unfolding going_up
should_stop-Clears_example =
    should_stop-Clears (pos 2) going_up
      (inl (refl, inr ((is_request_above_iff (pos 2) wanted).0 above_2)))
