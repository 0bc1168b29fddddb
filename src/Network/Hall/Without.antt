-- ===== src/Network/Hall/Without.antt =====
-- libs/network, class Peers: its loops over the hall orders, and an elevator that has none of them.
use cpp_elevator.Base.{ℕ, keep_if, ◌<◌, ◌≡◌, ◌≢◌, arith, false, ◌&&◌, ◌==◌, Bool-cases, inl, inr}
use cpp_elevator.Base.Int.{pos}
use cpp_elevator.Base.Grid.{put, for_grid_inv}
use cpp_elevator.Common.{k_floors, k_buttons, OrderStatus, eq_status}
use cpp_elevator.OrderSync.Order.{
  Order, observe, observed_by, on_confirm, on_reset, on_reassignment,
}
use cpp_elevator.OrderSync.Table.{OrderTable, assigned_to}
use cpp_elevator.Elevator.State.{ElevatorState}
use cpp_elevator.Network.Hall.{
  Book, is_cab, observe_round, observe_orders, reset_round, reset_hall_orders, control_round,
  control_hall_order_timers,
}

-- No hall order is confirmed for elevator `e`.
abbrev pub Without : ℕ → OrderTable → Type 0
Without e t = (f b : ℕ) → f < k_floors → b < 2 → assigned_to (pos e) (t f b) ≡ false

pub put-Without :
    (e i j : ℕ) (o : Order) (t : OrderTable)
    → Without e t
    → (j < 2 → assigned_to (pos e) o ≡ false)
    → Without e (put t i j o)
put-Without e i j o t h off f b hf hb = elim (Bool-cases (f == i && b == j)) [
  | inl here ↦ let hj : j < 2 = ground arith in rw here (off hj)
  | inr other ↦ rw other (h f b hf hb)
]

observe-off :
    (e n : ℕ) (o : Order)
    → assigned_to (pos e) o ≡ false
    → assigned_to (pos e) (observe n o) ≡ false
unfolding observe
observe-off e n o h = ground arith

on_reset-off :
    (e : ℕ) (o : Order) → assigned_to (pos e) o ≡ false → assigned_to (pos e) (on_reset o) ≡ false
unfolding on_reset
on_reset-off e o h = ground arith

pub on_confirm-off :
    (e other : ℕ) (o : Order)
    → other ≢ e
    → assigned_to (pos e) o ≡ false
    → assigned_to (pos e) (on_confirm (pos other) o) ≡ false
unfolding on_confirm
on_confirm-off e other o ne h = ground arith

pub on_reassignment-off :
    (e other : ℕ) (o : Order)
    → other ≢ e
    → assigned_to (pos e) (on_reassignment (pos other) o) ≡ false
unfolding on_reassignment
on_reassignment-off e other o ne = ground arith

module _ (e : ℕ) where
  abbrev pub Lacks : Book → Type 0
  Lacks k = Without e k.orders

  observe_round-Without :
      (n i j : ℕ) (k : Book) → i < k_floors → Lacks k → Lacks (observe_round n i j k)
  observe_round-Without n i j k hi h = keep_if Lacks (is_cab j) k _ h (
      keep_if Lacks (observed_by n (k.orders i j)) k _ h (
        keep_if Lacks (eq_status (k.orders i j).status OrderStatus.requested) _ k
          (put-Without e i j (observe n (k.orders i j)) k.orders h
            (λ hj. observe-off e n (k.orders i j) (h i j hi hj)))
          h))

  pub observe_orders-Without :
      (n : ℕ) (k : Book) → Without e k.orders → Without e (observe_orders n k).orders
  unfolding observe_orders
  observe_orders-Without n =
      for_grid_inv Lacks (observe_round n) k_floors k_buttons
        (λ i j k hi _. observe_round-Without n i j k hi)

  reset_round-Without : (i j : ℕ) (k : Book) → i < k_floors → Lacks k → Lacks (reset_round i j k)
  reset_round-Without i j k hi h = keep_if Lacks (is_cab j) k _ h (
      put-Without e i j (on_reset (k.orders i j)) k.orders h
        (λ hj. on_reset-off e (k.orders i j) (h i j hi hj)))

  pub reset_hall_orders-Without :
      (k : Book) → Without e k.orders → Without e (reset_hall_orders k).orders
  unfolding reset_hall_orders
  reset_hall_orders-Without =
      for_grid_inv Lacks reset_round k_floors k_buttons (λ i j k hi _. reset_round-Without i j k hi)

  pub control-Without :
      (n now : ℕ) (states : ℕ → ElevatorState) (k : Book)
      → Without e k.orders
      → Without e (control_hall_order_timers n now states k).orders
  unfolding control_hall_order_timers
  control-Without n now states =
      for_grid_inv Lacks (control_round n now states) k_floors k_buttons
        (λ i j k hi hj h. keep_if Lacks (is_cab j) k _ h h)
