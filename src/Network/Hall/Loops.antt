-- ===== src/Network/Hall/Loops.antt =====
-- libs/network, class Peers: what its loops over the hall orders do to one order and to its timer.
use cpp_elevator.Base.{
  ℕ, ◌<◌, ◌≡◌, sym, ap, ◌∙◌, arith, Bool, true, not, ◌&&◌, ◌||◌, ◌==◌, ltb, List, [], ◌∷◌,
  if◌then◌else◌,
}
use cpp_elevator.Base.Int.{pos, eqb_ℤ}
use cpp_elevator.Base.Grid.{Grid, for_grid-get}
use cpp_elevator.Common.{k_elevs, k_floors, k_buttons, OrderStatus, eq_status}
use cpp_elevator.Common.Timer.{Timer, start, stop}
use cpp_elevator.OrderSync.Order.{Order, on_confirm}
use cpp_elevator.Elevator.State.{ElevatorState}
use cpp_elevator.Network.Costs.{Cost, int_max, cost_of, calculate_elevator_costs}
use cpp_elevator.Network.Costs.Best.{Best, costs-Best, Best-active}
use cpp_elevator.Network.Hall.{
  Book, is_cab, observed_by_all, confirm_with, confirm_round, confirm_hall_orders, control_timer,
  control_round, control_hall_order_timers,
}

-- What `confirm_with` does to the order.
abbrev confirmed_with : List Cost → Order → Order
confirmed_with [] o = o
confirmed_with ((cost, e) ∷ rest) o = if cost == int_max then o else on_confirm (pos e) o

abbrev pub confirm_order : (ℕ → ElevatorState) → ℕ → ℕ → Order → Order
confirm_order states f b o =
    if is_cab b || not (observed_by_all states o) || not (eq_status o.status OrderStatus.requested)
    then o
    else confirmed_with (calculate_elevator_costs (pos f) states) o

confirm_with-orders :
    (n now i j : ℕ) (xs : List Cost) (k : Book) (f b : ℕ)
    → (confirm_with n now i j xs k).orders f b
      ≡ (if f == i && b == j then confirmed_with xs (k.orders i j) else k.orders f b)
unfolding confirm_with
confirm_with-orders n now i j [] k f b = ground arith
confirm_with-orders n now i j ((cost, e) ∷ xs) k f b = ground arith

pub confirm_round-orders :
    (n now : ℕ) (states : ℕ → ElevatorState) (i j : ℕ) (k : Book) (f b : ℕ)
    → (confirm_round n now states i j k).orders f b
      ≡ (if f == i && b == j then confirm_order states i j (k.orders i j) else k.orders f b)
unfolding confirm_round
confirm_round-orders n now states i j k f b =
    ground (arith, confirm_with-orders n now i j (calculate_elevator_costs (pos i) states) k f b)

confirm-orders :
    (n now : ℕ) (states : ℕ → ElevatorState) (k : Book) (f b : ℕ)
    → (confirm_hall_orders n now states k).orders f b ≡ (
        if ltb f k_floors && ltb b k_buttons
        then confirm_order states f b (k.orders f b)
        else k.orders f b)
unfolding confirm_hall_orders
confirm-orders n now states k f b =
    for_grid-get (λ k. k.orders) (confirm_round n now states) (confirm_order states)
      (confirm_round-orders n now states) k_floors k_buttons k f b

abbrev pub cell : Book → Grid (Order × Timer)
cell k f b = (k.orders f b, k.order_timers f b)

abbrev cell_of : Order → Timer → Order × Timer
cell_of o t = (o, t)

abbrev control_cell : ℕ → ℕ → Bool → ℕ → ℕ → Order × Timer → Order × Timer
control_cell n now is_obstruction f b c =
    (c.0, if is_cab b then c.1 else control_timer n now is_obstruction c.0 c.1)

control_round-cell :
    (n now : ℕ) (states : ℕ → ElevatorState) (i j : ℕ) (k : Book) (f b : ℕ)
    → cell (control_round n now states i j k) f b ≡ (
        if f == i && b == j
        then control_cell n now (states n).obstruction i j (cell k i j)
        else cell k f b)
control_round-cell n now states i j k f b = ground arith

control-cell :
    (n now : ℕ) (states : ℕ → ElevatorState) (k : Book) (f b : ℕ)
    → cell (control_hall_order_timers n now states k) f b ≡ (
        if ltb f k_floors && ltb b k_buttons
        then control_cell n now (states n).obstruction f b (cell k f b)
        else cell k f b)
unfolding control_hall_order_timers
control-cell n now states k f b =
    for_grid-get cell (control_round n now states) (control_cell n now (states n).obstruction)
      (control_round-cell n now states) k_floors k_buttons k f b

-- Whether the node's timer for an order is to run.
abbrev pub is_timed : ℕ → Order → Bool
is_timed n o = eq_status o.status OrderStatus.confirmed && eqb_ℤ o.assigned_id (pos n)

control_timer-active :
    (n now : ℕ) (is_obstruction : Bool) (o : Order) (t : Timer)
    → (control_timer n now is_obstruction o t).active ≡ is_timed n o
unfolding control_timer start stop
control_timer-active n now is_obstruction o t = ground arith

control-inside :
    (n now : ℕ) (states : ℕ → ElevatorState) (k : Book) (f b : ℕ)
    → f < k_floors
    → b < 2
    → cell (control_hall_order_timers n now states k) f b
      ≡ cell_of
          (k.orders f b)
          (control_timer n now (states n).obstruction (k.orders f b) (k.order_timers f b))
control-inside n now states k f b hf hb = control-cell n now states k f b ∙ ground arith

-- After the loop exactly those hall orders are timed that are confirmed and assigned to the node;
-- the orders are unchanged.
pub control-is_timed :
    (n now : ℕ) (states : ℕ → ElevatorState) (k : Book) (f b : ℕ)
    → f < k_floors
    → b < 2
    → let k' = control_hall_order_timers n now states k in
      ((k'.order_timers f b).active ≡ is_timed n (k'.orders f b)) × (k'.orders f b ≡ k.orders f b)
control-is_timed n now states k f b hf hb =
    let c = control-inside n now states k f b hf hb in
    let o = ap (λ x. x.0) c in
    let t = ap (λ x. x.1) c in
    let a = control_timer-active n now (states n).obstruction (k.orders f b) (k.order_timers f b) in
    (ap (λ t. t.active) t ∙ a ∙ ap (is_timed n) (sym o), o)

confirm_order-cons :
    (states : ℕ → ElevatorState) (f b : ℕ) (o : Order) (m : Cost) (rest : List Cost)
    → b < 2
    → calculate_elevator_costs (pos f) states ≡ m ∷ rest
    → m.0 < int_max
    → confirm_order states f b o ≡ (
        if observed_by_all states o && eq_status o.status OrderStatus.requested
        then on_confirm (pos m.1) o
        else o)
confirm_order-cons states f b o m rest hb q h = rw q (ground arith)

-- A requested hall order that all active elevators have observed is confirmed, for the active
-- elevator with the least cost; any other hall order stays as it is. This needs an active elevator
-- whose cost is below the largest `int`.
pub confirm_hall_orders-Best :
    (n now : ℕ) (states : ℕ → ElevatorState) (k : Book) (f b i : ℕ)
    → f < k_floors
    → b < 2
    → i < k_elevs
    → (states i).active ≡ true
    → cost_of (pos f) (states i) < int_max
    → (m : Cost) × Best (pos f) states m
      × ((states m.1).active ≡ true)
      × ((confirm_hall_orders n now states k).orders f b ≡ (
          if observed_by_all states (k.orders f b)
            && eq_status (k.orders f b).status OrderStatus.requested
          then on_confirm (pos m.1) (k.orders f b)
          else k.orders f b))
confirm_hall_orders-Best n now states k f b i hf hb hi act c =
    let (m, rest, q, best) = costs-Best (pos f) states in
    let (a, small) = Best-active (pos f) states m i best hi act c in
    let e = confirm-orders n now states k f b in
    let inside : ltb f k_floors && ltb b k_buttons ≡ true = ground arith in
    (m, best, a, (rw inside at e) ∙ confirm_order-cons states f b (k.orders f b) m rest hb q small)
