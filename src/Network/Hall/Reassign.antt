-- ===== src/Network/Hall/Reassign.antt =====
-- libs/network, class Peers: the loops over the hall orders that reassign orders.
use cpp_elevator.Base.{ℕ, keep_if, keep_cases, ◌<◌, ◌≡◌, refl, arith, true, false, not}
use cpp_elevator.Base.Int.{pos, eqb_ℤ}
use cpp_elevator.Base.Grid.{put}
use cpp_elevator.Base.Outcome.{Returns, Returns->>=, for_grid!-Returns}
use cpp_elevator.Common.{k_elevs, k_floors, k_buttons, OrderStatus, eq_status}
use cpp_elevator.Common.Timer.{expired}
use cpp_elevator.OrderSync.Order.{on_reassignment}
use cpp_elevator.OrderSync.Order.Sound.{on_reassignment-IsSound}
use cpp_elevator.OrderSync.Table.{OrderTable}
use cpp_elevator.Elevator.State.{ElevatorState}
use cpp_elevator.Network.Costs.{int_max, cost_of}
use cpp_elevator.Network.Assign.{reassigned, reassign_hall_order}
use cpp_elevator.Network.Assign.Takeover.{TakesOver}
use cpp_elevator.Network.Assign.Reassigned.{reassigned-Returns}
use cpp_elevator.Network.Hall.{
  Book, is_cab, reassign_and_time, monitor_round, monitor_hall_order_timers, reassign_round,
  reassign_hall_orders,
}
use cpp_elevator.Network.Hall.Sound.{AllSound, BookSound, put-AllSound}

-- An active elevator whose cost is below the largest `int` at each floor.
abbrev pub SomeActive : (ℕ → ElevatorState) → Type 0
SomeActive states =
    (i : ℕ) × (i < k_elevs)
    × ((states i).active ≡ true)
    × ((f : ℕ) → f < k_floors → cost_of (pos f) (states i) < int_max)

reassign_hall_order-keep :
    (num_elevs : ℕ) (states : ℕ → ElevatorState) (f b e : ℕ) (t : OrderTable)
    → SomeActive states
    → f < k_floors
    → (t f b).assigned_id ≡ pos e
    → e < k_elevs
    → AllSound t
    → Returns AllSound (reassign_hall_order num_elevs states f b t)
unfolding reassign_hall_order
reassign_hall_order-keep num_elevs states f b e t (i, li, act, c) hf q le h =
    Returns->>= {P = TakesOver states e} (reassigned num_elevs states f (t f b).assigned_id) _
      (rw q (reassigned-Returns num_elevs states f e i le li act (c f hf)))
      (λ a (new, qa, ln, w). (
        put t f b (on_reassignment a (t f b)),
        refl,
        put-AllSound t f b (on_reassignment a (t f b)) h
            (λ hb. rw qa (on_reassignment-IsSound new (t f b) ln (h f b hf hb))),
      ))

reassign_and_time-keep :
    (n now num_elevs : ℕ) (states : ℕ → ElevatorState) (f b e : ℕ) (k : Book)
    → SomeActive states
    → f < k_floors
    → (k.orders f b).assigned_id ≡ pos e
    → e < k_elevs
    → BookSound k
    → Returns BookSound (reassign_and_time n now num_elevs states f b k)
unfolding reassign_and_time
reassign_and_time-keep n now num_elevs states f b e k act hf q le h =
    Returns->>= {P = AllSound} (reassign_hall_order num_elevs states f b k.orders) _
      (reassign_hall_order-keep num_elevs states f b e k.orders act hf q le h)
      (λ t ht. (_, refl, keep_if BookSound (eqb_ℤ (t f b).assigned_id (pos n)) _ _ ht ht))

-- A round that reassigns a confirmed hall order.
pub reassign_confirmed-keep :
    (n now num_elevs : ℕ) (states : ℕ → ElevatorState) (i j : ℕ) (k : Book)
    → SomeActive states
    → i < k_floors
    → j < k_buttons
    → is_cab j ≡ false
    → not (eq_status (k.orders i j).status OrderStatus.confirmed) ≡ false
    → BookSound k
    → Returns BookSound (reassign_and_time n now num_elevs states i j k)
reassign_confirmed-keep n now num_elevs states i j k act hi hj cab conf h =
    let (e, q, le) = (h i j hi hj).assigned (ground arith) in
    reassign_and_time-keep n now num_elevs states i j e k act hi q le h

-- What each reassignment of a confirmed hall order keeps of the table is kept by the loops.
module _ (P : OrderTable → Type 0) (n now num_elevs : ℕ) (states : ℕ → ElevatorState)
    (keeps : (i j : ℕ) (k : Book)
      → i < k_floors
      → j < k_buttons
      → is_cab j ≡ false
      → not (eq_status (k.orders i j).status OrderStatus.confirmed) ≡ false
      → P k.orders
      → Returns (λ k'. P k'.orders) (reassign_and_time n now num_elevs states i j k)) where
  abbrev Kept : Book → Type 0
  Kept k = P k.orders

  monitor_round-keep :
      (i j : ℕ) (k : Book)
      → i < k_floors
      → j < k_buttons
      → Kept k
      → Returns Kept (monitor_round n now num_elevs states i j k)
  monitor_round-keep i j k hi hj h =
      keep_cases (Returns Kept) (is_cab j) _ _ (λ _. (k, refl, h))
        (λ cab.
          keep_if (Returns Kept) (not (expired now (k.order_timers i j))) _ _ (k, refl, h)
            (keep_cases (Returns Kept) (not (eq_status (k.orders i j).status OrderStatus.confirmed))
              _ _ (λ _. (_, refl, h)) (λ conf. keeps i j _ hi hj cab conf h)))

  reassign_round-keep :
      (elev_id i j : ℕ) (k : Book)
      → i < k_floors
      → j < k_buttons
      → Kept k
      → Returns Kept (reassign_round n now num_elevs states elev_id i j k)
  reassign_round-keep elev_id i j k hi hj h =
      keep_cases (Returns Kept) (is_cab j) _ _ (λ _. (k, refl, h))
        (λ cab.
          keep_cases (Returns Kept) (not (eq_status (k.orders i j).status OrderStatus.confirmed)) _
            _ (λ _. (k, refl, h))
            (λ conf.
              keep_if (Returns Kept) (not (eqb_ℤ (k.orders i j).assigned_id (pos elev_id))) _ _
                (k, refl, h) (keeps i j k hi hj cab conf h)))

  pub monitor_hall_order_timers-keep :
      (k : Book)
      → P k.orders
      → Returns (λ k'. P k'.orders) (monitor_hall_order_timers n now num_elevs states k)
  unfolding monitor_hall_order_timers
  monitor_hall_order_timers-keep k =
      for_grid!-Returns Kept (monitor_round n now num_elevs states) k_floors k_buttons
        monitor_round-keep k

  pub reassign_hall_orders-keep :
      (elev_id : ℕ) (k : Book)
      → P k.orders
      → Returns (λ k'. P k'.orders) (reassign_hall_orders n now num_elevs states elev_id k)
  unfolding reassign_hall_orders
  reassign_hall_orders-keep elev_id k =
      for_grid!-Returns Kept (reassign_round n now num_elevs states elev_id) k_floors k_buttons
        (reassign_round-keep elev_id) k

pub monitor_hall_order_timers-Returns :
    (n now num_elevs : ℕ) (states : ℕ → ElevatorState) (k : Book)
    → SomeActive states
    → AllSound k.orders
    → Returns (λ k'. AllSound k'.orders) (monitor_hall_order_timers n now num_elevs states k)
monitor_hall_order_timers-Returns n now num_elevs states k act =
    monitor_hall_order_timers-keep AllSound n now num_elevs states
      (λ i j k. reassign_confirmed-keep n now num_elevs states i j k act) k

pub reassign_hall_orders-Returns :
    (n now num_elevs : ℕ) (states : ℕ → ElevatorState) (elev_id : ℕ) (k : Book)
    → SomeActive states
    → AllSound k.orders
    → Returns (λ k'. AllSound k'.orders) (reassign_hall_orders n now num_elevs states elev_id k)
reassign_hall_orders-Returns n now num_elevs states elev_id k act =
    reassign_hall_orders-keep AllSound n now num_elevs states
      (λ i j k. reassign_confirmed-keep n now num_elevs states i j k act) elev_id k
