-- ===== src/Network/Hall/Sound.antt =====
-- libs/network, class Peers: sound orders, in the loops over the hall orders that reassign none.
use cpp_elevator.Base.{
  ℕ, ◌<◌, arith, not, ◌&&◌, ◌||◌, ◌==◌, List, [], ◌∷◌, keep_if, Bool-cases, inl, inr,
}
use cpp_elevator.Base.Int.{pos}
use cpp_elevator.Base.Grid.{put, for_grid_inv}
use cpp_elevator.Common.{k_elevs, k_floors, k_buttons, OrderStatus, eq_status}
use cpp_elevator.OrderSync.Order.{Order, observe, observed_by, on_confirm, on_reset}
use cpp_elevator.OrderSync.Order.Sound.{
  IsSound, default_order-IsSound, observe-IsSound, on_reset-IsSound, on_confirm-IsSound,
}
use cpp_elevator.OrderSync.Table.{OrderTable, default_table}
use cpp_elevator.Elevator.State.{ElevatorState}
use cpp_elevator.Network.Costs.{Cost, int_max, calculate_elevator_costs}
use cpp_elevator.Network.Costs.Sorted.{All, All-weaken}
use cpp_elevator.Network.Costs.Best.{IsEntry, costs-IsEntry}
use cpp_elevator.Network.Hall.{
  Book, is_cab, set_order, observed_by_all, confirm_with, confirm_round, confirm_hall_orders,
  control_round, control_hall_order_timers, observe_orders, observe_round, reset_hall_orders,
  reset_round,
}

-- Every order of a table is sound.
abbrev pub AllSound : OrderTable → Type 0
AllSound t = (f b : ℕ) → f < k_floors → b < k_buttons → IsSound (t f b)

pub default_table-AllSound : AllSound default_table
default_table-AllSound f b hf hb = default_order-IsSound

pub put-AllSound :
    (t : OrderTable) (i j : ℕ) (o : Order)
    → AllSound t
    → (j < k_buttons → IsSound o)
    → AllSound (put t i j o)
put-AllSound t i j o h a f b hf hb = elim (Bool-cases (f == i && b == j)) [
  | inl e ↦ let hj : j < k_buttons = ground arith in rw e (a hj)
  | inr e ↦ rw e (h f b hf hb)
]

abbrev pub BookSound : Book → Type 0
BookSound k = AllSound k.orders

observe_round-keep :
    (n i j : ℕ) (k : Book)
    → n < k_elevs
    → i < k_floors
    → j < k_buttons
    → BookSound k
    → BookSound (observe_round n i j k)
observe_round-keep n i j k hn hi hj h = keep_if BookSound (is_cab j) k _ h (
    keep_if BookSound (observed_by n (k.orders i j)) k _ h (
      keep_if BookSound (eq_status (k.orders i j).status OrderStatus.requested)
        (set_order i j (observe n (k.orders i j)) k) k
        (put-AllSound k.orders i j (observe n (k.orders i j)) h
          (λ q. observe-IsSound n (k.orders i j) hn (h i j hi q)))
        h))

reset_round-keep :
    (i j : ℕ) (k : Book)
    → i < k_floors
    → j < k_buttons
    → BookSound k
    → BookSound (reset_round i j k)
reset_round-keep i j k hi hj h =
    keep_if BookSound (is_cab j) k (set_order i j (on_reset (k.orders i j)) k) h (
      put-AllSound k.orders i j (on_reset (k.orders i j)) h
        (λ q. on_reset-IsSound (k.orders i j) (h i j hi q)))

confirm_with-keep :
    (n now i j : ℕ) (xs : List Cost) (k : Book)
    → i < k_floors
    → All (λ x. x.1 < k_elevs) xs
    → BookSound k
    → BookSound (confirm_with n now i j xs k)
unfolding confirm_with
confirm_with-keep n now i j [] k hi e h = h
confirm_with-keep n now i j ((c, e) ∷ xs) k hi es h =
    let set =
      put-AllSound k.orders i j (on_confirm (pos e) (k.orders i j)) h
        (λ q. on_confirm-IsSound e (k.orders i j) es.0 (h i j hi q)) in
    keep_if BookSound (c == int_max) k _ h (keep_if BookSound (e == n) _ _ set set)

confirm_round-keep :
    (n now : ℕ) (states : ℕ → ElevatorState) (i j : ℕ) (k : Book)
    → i < k_floors
    → j < k_buttons
    → BookSound k
    → BookSound (confirm_round n now states i j k)
unfolding confirm_round
confirm_round-keep n now states i j k hi hj h =
    keep_if BookSound
      (is_cab j
        || not (observed_by_all states (k.orders i j))
        || not (eq_status (k.orders i j).status OrderStatus.requested))
      k _ h
      (confirm_with-keep n now i j (calculate_elevator_costs (pos i) states) k hi
        (All-weaken (IsEntry (pos i) states) (λ x. x.1 < k_elevs) (λ x e. e.0) _
          (costs-IsEntry (pos i) states))
        h)

pub observe_orders-AllSound :
    (n : ℕ) (k : Book) → n < k_elevs → AllSound k.orders → AllSound (observe_orders n k).orders
unfolding observe_orders
observe_orders-AllSound n k hn =
    for_grid_inv BookSound (observe_round n) k_floors k_buttons
      (λ i j k. observe_round-keep n i j k hn) k

pub reset_hall_orders-AllSound :
    (k : Book) → AllSound k.orders → AllSound (reset_hall_orders k).orders
unfolding reset_hall_orders
reset_hall_orders-AllSound = for_grid_inv BookSound reset_round k_floors k_buttons reset_round-keep

pub confirm_hall_orders-AllSound :
    (n now : ℕ) (states : ℕ → ElevatorState) (k : Book)
    → AllSound k.orders
    → AllSound (confirm_hall_orders n now states k).orders
unfolding confirm_hall_orders
confirm_hall_orders-AllSound n now states =
    for_grid_inv BookSound (confirm_round n now states) k_floors k_buttons
      (confirm_round-keep n now states)

pub control-AllSound :
    (n now : ℕ) (states : ℕ → ElevatorState) (k : Book)
    → AllSound k.orders
    → AllSound (control_hall_order_timers n now states k).orders
unfolding control_hall_order_timers
control-AllSound n now states =
    for_grid_inv BookSound (control_round n now states) k_floors k_buttons
      (λ i j k hi hj h. keep_if BookSound (is_cab j) k _ h h)
