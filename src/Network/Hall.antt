-- ===== src/Network/Hall.antt =====
-- libs/network, class Peers: its loops over the hall orders and their timers. `Book` holds the two
-- members that these loops change, `orders_` and `order_timers_`; `n` is the node's id. A loop
-- reads the clock as one value `now`.

pub mod Loops
pub mod Alone
pub mod Sound
pub mod Reassign
pub mod Requested
pub mod Handover
pub mod Without
pub mod Inactive
use cpp_elevator.Base.{
  ℕ, ◌+◌, ◌*◌, Bool, true, false, not, ◌&&◌, ◌||◌, ◌==◌, if◌then◌else◌, List, [], ◌∷◌, Bool-cases,
  inl, inr,
}
use cpp_elevator.Base.Int.{ℤ, pos, eqb_ℤ}
use cpp_elevator.Base.Loops.{all_range}
use cpp_elevator.Base.Grid.{Grid, put, for_grid}
use cpp_elevator.Base.Outcome.{Outcome, done, fault, ◌>>=◌, for_grid! }
use cpp_elevator.Common.{
  k_elevs, k_floors, k_buttons, BtnType, btn_index, OrderStatus, eq_status, k_sample_time_ms,
  k_reassign_order_time_ms, k_obstruction_reassign_order_time_ms,
}
use cpp_elevator.Common.Timer.{Timer, start, stop, expired, left_above}
use cpp_elevator.OrderSync.Order.{Order, observe, observed_by, on_confirm, on_reset}
use cpp_elevator.OrderSync.Table.{OrderTable, order}
use cpp_elevator.Elevator.State.{ElevatorState}
use cpp_elevator.Network.Costs.{Cost, int_max, calculate_elevator_costs}
use cpp_elevator.Network.Assign.{reassign_hall_order}

pub record Book : Type 0 where
  pub orders : OrderTable
  pub order_timers : Grid Timer

abbrev pub is_cab : ℕ → Bool
is_cab b = b == btn_index BtnType.cab

abbrev pub set_order : ℕ → ℕ → Order → Book → Book
set_order f b o k = record k { orders = put k.orders f b o }

abbrev pub set_timer : ℕ → ℕ → Timer → Book → Book
set_timer f b t k = record k { order_timers = put k.order_timers f b t }

abbrev pub observe_round : ℕ → ℕ → ℕ → Book → Book
observe_round n f b k =
    if is_cab b
    then k
    else if observed_by n (order k.orders f b)
    then k
    else if eq_status (order k.orders f b).status OrderStatus.requested
    then set_order f b (observe n (order k.orders f b)) k
    else k

unfoldable pub observe_orders : ℕ → Book → Book
observe_orders n = for_grid k_floors k_buttons (observe_round n)

-- `ObservedByAll`, of an order.
unfoldable pub observed_by_all : (ℕ → ElevatorState) → Order → Bool
observed_by_all states o = all_range k_elevs (λ e. not (states e).active || observed_by e o)

-- The part of the round behind the costs.
unfoldable pub confirm_with : ℕ → ℕ → ℕ → ℕ → List Cost → Book → Book
confirm_with n now f b [] k = k
confirm_with n now f b ((cost, best_elev_id) ∷ rest) k =
    if cost == int_max
    then k
    else let k' = set_order f b (on_confirm (pos best_elev_id) (order k.orders f b)) k in
      if best_elev_id == n
      then set_timer f b (start now k_reassign_order_time_ms (k'.order_timers f b)) k'
      else k'

unfoldable pub confirm_round : ℕ → ℕ → (ℕ → ElevatorState) → ℕ → ℕ → Book → Book
unfolding confirm_with
confirm_round n now states f b k =
    if is_cab b
      || not (observed_by_all states (order k.orders f b))
      || not (eq_status (order k.orders f b).status OrderStatus.requested)
    then k
    else confirm_with n now f b (calculate_elevator_costs (pos f) states) k

unfoldable pub confirm_hall_orders : ℕ → ℕ → (ℕ → ElevatorState) → Book → Book
unfolding confirm_round
confirm_hall_orders n now states = for_grid k_floors k_buttons (confirm_round n now states)

abbrev pub reset_round : ℕ → ℕ → Book → Book
reset_round f b k = if is_cab b then k else set_order f b (on_reset (order k.orders f b)) k

unfoldable pub reset_hall_orders : Book → Book
reset_hall_orders = for_grid k_floors k_buttons reset_round

-- `ReassignHallOrder`, then the timer if the order is this node's.
unfoldable pub reassign_and_time : ℕ → ℕ → ℕ → (ℕ → ElevatorState) → ℕ → ℕ → Book → Outcome Book
reassign_and_time n now num_elevs states f b k =
    reassign_hall_order num_elevs states f b k.orders >>= (λ t.
      let k' = record k { orders = t } in
      done (
        if eqb_ℤ (order t f b).assigned_id (pos n)
        then set_timer f b (start now k_reassign_order_time_ms (k'.order_timers f b)) k'
        else k'))

abbrev pub monitor_round : ℕ → ℕ → ℕ → (ℕ → ElevatorState) → ℕ → ℕ → Book → Outcome Book
monitor_round n now num_elevs states f b k =
    if is_cab b
    then done k
    else if not (expired now (k.order_timers f b))
    then done k
    else let k' = set_timer f b (stop (k.order_timers f b)) k in
      if not (eq_status (order k.orders f b).status OrderStatus.confirmed)
      then done k'
      else reassign_and_time n now num_elevs states f b k'

unfoldable pub monitor_hall_order_timers : ℕ → ℕ → ℕ → (ℕ → ElevatorState) → Book → Outcome Book
unfolding reassign_and_time
monitor_hall_order_timers n now num_elevs states =
    for_grid! k_floors k_buttons (monitor_round n now num_elevs states)

abbrev pub reassign_round : ℕ → ℕ → ℕ → (ℕ → ElevatorState) → ℕ → ℕ → ℕ → Book → Outcome Book
reassign_round n now num_elevs states elev_id f b k =
    if is_cab b
    then done k
    else if not (eq_status (order k.orders f b).status OrderStatus.confirmed)
    then done k
    else if not (eqb_ℤ (order k.orders f b).assigned_id (pos elev_id))
    then done k
    else reassign_and_time n now num_elevs states f b k

unfoldable pub reassign_hall_orders : ℕ → ℕ → ℕ → (ℕ → ElevatorState) → ℕ → Book → Outcome Book
unfolding reassign_and_time
reassign_hall_orders n now num_elevs states elev_id =
    for_grid! k_floors k_buttons (reassign_round n now num_elevs states elev_id)

-- The timer of a hall order behind a round of `ControlHallOrderTimers`.
unfoldable pub control_timer : ℕ → ℕ → Bool → Order → Timer → Timer
control_timer n now is_obstruction o t =
    if eq_status o.status OrderStatus.confirmed && not t.active && eqb_ℤ o.assigned_id (pos n)
    then start now k_reassign_order_time_ms t
    else if t.active
        && (not (eq_status o.status OrderStatus.confirmed) || not (eqb_ℤ o.assigned_id (pos n)))
    then stop t
    else if is_obstruction
        && eq_status o.status OrderStatus.confirmed
        && t.active
        && eqb_ℤ o.assigned_id (pos n)
        && left_above now (k_obstruction_reassign_order_time_ms + 5 * k_sample_time_ms) t
    then start now k_obstruction_reassign_order_time_ms t
    else t

abbrev pub control_round : ℕ → ℕ → (ℕ → ElevatorState) → ℕ → ℕ → Book → Book
control_round n now states f b k =
    if is_cab b
    then k
    else set_timer f b
        (control_timer n now (states n).obstruction (order k.orders f b) (k.order_timers f b)) k

unfoldable pub control_hall_order_timers : ℕ → ℕ → (ℕ → ElevatorState) → Book → Book
unfolding control_timer
control_hall_order_timers n now states = for_grid k_floors k_buttons (control_round n now states)
