-- ===== src/Network/Hall/Requested.antt =====
-- libs/network, class Peers: what its loops over the hall orders do to one that is requested.
use cpp_elevator.Base.{
  ℕ, keep_if, keep_cases, ◌<◌, ◌≡◌, refl, ◌∙◌, arith, true, false, not, ◌&&◌, ◌||◌, ◌==◌,
  if◌then◌else◌, Bool-cases, inl, inr,
}
use cpp_elevator.Base.Int.{pos, eqb_ℤ}
use cpp_elevator.Base.Grid.{for_grid-get, for_grid_inv}
use cpp_elevator.Base.Outcome.{Ensures, done-Ensures, Ensures->>=, for_grid!-Ensures}
use cpp_elevator.Common.{k_floors, k_buttons, OrderStatus, eq_status}
use cpp_elevator.Common.Timer.{Timer, stop, expired}
use cpp_elevator.OrderSync.Order.{Order, observe, observed_by, on_reset}
use cpp_elevator.OrderSync.Order.Observed.{observed_by-observe}
use cpp_elevator.OrderSync.Table.{assigned_to}
use cpp_elevator.Elevator.State.{ElevatorState}
use cpp_elevator.Network.Assign.{reassigned, reassign_hall_order}
use cpp_elevator.Network.Hall.{
  Book, is_cab, set_timer, observe_round, observe_orders, reset_round, reset_hall_orders,
  reassign_and_time, reassign_round, reassign_hall_orders, monitor_round, monitor_hall_order_timers,
}

-- An order as elevator `n` has it, once it has observed it.
abbrev pub seen : ℕ → Order → Order
seen n o = if observed_by n o then o else observe n o

pub observed_by-seen : (n : ℕ) (o : Order) → observed_by n (seen n o) ≡ true
observed_by-seen n o = ground (arith, observed_by-observe n n o)

pub seen-status : (n : ℕ) (o : Order) → (seen n o).status ≡ o.status
unfolding observe
seen-status n o = ground arith

abbrev observed_order : ℕ → ℕ → ℕ → Order → Order
observed_order n f b o =
    if is_cab b || not (eq_status o.status OrderStatus.requested) then o else seen n o

observe_round-order :
    (n i j : ℕ) (k : Book) (f b : ℕ)
    → (observe_round n i j k).orders f b
      ≡ (if f == i && b == j then observed_order n i j (k.orders i j) else k.orders f b)
observe_round-order n i j k f b = ground arith

pub observe_orders-requested :
    (n : ℕ) (k : Book) (f b : ℕ)
    → f < k_floors
    → b < 2
    → eq_status (k.orders f b).status OrderStatus.requested ≡ true
    → (observe_orders n k).orders f b ≡ seen n (k.orders f b)
unfolding observe_orders
observe_orders-requested n k f b hf hb asked =
    for_grid-get (λ k. k.orders) (observe_round n) (observed_order n) (observe_round-order n)
      k_floors k_buttons k f b
    ∙ ground arith

abbrev reset_order : ℕ → ℕ → Order → Order
reset_order f b o = if is_cab b then o else on_reset o

reset_round-order :
    (i j : ℕ) (k : Book) (f b : ℕ)
    → (reset_round i j k).orders f b
      ≡ (if f == i && b == j then reset_order i j (k.orders i j) else k.orders f b)
reset_round-order i j k f b = ground arith

-- An order with a status other than clear is not reset.
pub reset_hall_orders-order :
    (k : Book) (f b : ℕ)
    → eq_status (k.orders f b).status OrderStatus.clear ≡ false
    → (reset_hall_orders k).orders f b ≡ k.orders f b
unfolding reset_hall_orders on_reset
reset_hall_orders-order k f b keeps =
    for_grid-get (λ k. k.orders) reset_round reset_order reset_round-order k_floors k_buttons k f b
    ∙ ground arith

pub reset_hall_orders-timer :
    (k : Book) (f b : ℕ) → (reset_hall_orders k).order_timers f b ≡ k.order_timers f b
unfolding reset_hall_orders
reset_hall_orders-timer k f b =
    for_grid_inv (λ (c : Book). c.order_timers f b ≡ k.order_timers f b) reset_round k_floors
      k_buttons
      (λ i j k' _ _ h.
        keep_if (λ (c : Book). c.order_timers f b ≡ k.order_timers f b) (is_cab j) _ _ h h)
      k refl

-- A hall order and its timer, at which no round of the loops that reassign orders acts.
module _ (f b : ℕ) (o : Order) (t : Timer) where
  abbrev pub Holds : Book → Type 0
  Holds k = (k.orders f b ≡ o) × (k.order_timers f b ≡ t)

  reassign_hall_order-other :
      (num_elevs : ℕ) (states : ℕ → ElevatorState) (i j : ℕ) (k : Book)
      → f == i && b == j ≡ false
      → Holds k
      → Ensures (λ orders. orders f b ≡ o) (reassign_hall_order num_elevs states i j k.orders)
  unfolding reassign_hall_order
  reassign_hall_order-other num_elevs states i j k other h =
      Ensures->>= {0, 0, 0} {P = λ _. Unit}
        (reassigned num_elevs states i (k.orders i j).assigned_id) _ (λ _ _. tt)
        (λ a _. done-Ensures (λ orders. orders f b ≡ o) _ (rw other h.0))

  pub reassign_and_time-other :
      (n now num_elevs : ℕ) (states : ℕ → ElevatorState) (i j : ℕ) (k : Book)
      → f == i && b == j ≡ false
      → Holds k
      → Ensures Holds (reassign_and_time n now num_elevs states i j k)
  unfolding reassign_and_time
  reassign_and_time-other n now num_elevs states i j k other h =
      Ensures->>= {P = λ orders. orders f b ≡ o} (reassign_hall_order num_elevs states i j k.orders)
        _ (reassign_hall_order-other num_elevs states i j k other h)
        (λ orders q.
          done-Ensures Holds _
            (keep_if Holds (eqb_ℤ (orders i j).assigned_id (pos n)) _ _ (q, rw other h.1) (q, h.1)))

  assigned_elsewhere :
      (elev_id i j : ℕ) (k : Book)
      → assigned_to (pos elev_id) o ≡ false
      → Holds k
      → not (eq_status (k.orders i j).status OrderStatus.confirmed) ≡ false
      → not (eqb_ℤ (k.orders i j).assigned_id (pos elev_id)) ≡ false
      → f == i && b == j ≡ false
  assigned_elsewhere elev_id i j k off h conf own = elim (Bool-cases (f == i && b == j)) [
    | inl q ↦
        let ef : f ≡ i = ground arith in
        let eb : b ≡ j = ground arith in
        let same : k.orders i j ≡ o = (rw (ef, eb) at h.0) in
        let c = (rw same at conf) in let d = (rw same at own) in ground arith
    | inr q ↦ q
  ]

  reassign_round-other :
      (n now num_elevs : ℕ) (states : ℕ → ElevatorState) (elev_id i j : ℕ) (k : Book)
      → assigned_to (pos elev_id) o ≡ false
      → Holds k
      → Ensures Holds (reassign_round n now num_elevs states elev_id i j k)
  reassign_round-other n now num_elevs states elev_id i j k off h =
      let stays = done-Ensures Holds k h in
      keep_if (Ensures Holds) (is_cab j) _ _ stays (
        keep_cases (Ensures Holds) (not (eq_status (k.orders i j).status OrderStatus.confirmed)) _ _
          (λ _. stays)
          (λ conf.
            keep_cases (Ensures Holds) (not (eqb_ℤ (k.orders i j).assigned_id (pos elev_id))) _ _
              (λ _. stays)
              (λ own.
                reassign_and_time-other n now num_elevs states i j k
                  (assigned_elsewhere elev_id i j k off h conf own) h)))

  -- An order that is not confirmed for the elevator is not reassigned.
  pub reassign_hall_orders-Holds :
      (n now num_elevs : ℕ) (states : ℕ → ElevatorState) (elev_id : ℕ) (k : Book)
      → assigned_to (pos elev_id) o ≡ false
      → Holds k
      → Ensures Holds (reassign_hall_orders n now num_elevs states elev_id k)
  unfolding reassign_hall_orders
  reassign_hall_orders-Holds n now num_elevs states elev_id k off =
      for_grid!-Ensures Holds (reassign_round n now num_elevs states elev_id) k_floors k_buttons
        (λ i j k _ _. reassign_round-other n now num_elevs states elev_id i j k off) k

  late_elsewhere :
      (now i j : ℕ) (k : Book)
      → expired now t ≡ false
      → Holds k
      → not (expired now (k.order_timers i j)) ≡ false
      → f == i && b == j ≡ false
  late_elsewhere now i j k early h late = elim (Bool-cases (f == i && b == j)) [
    | inl q ↦
        let ef : f ≡ i = ground arith in
        let eb : b ≡ j = ground arith in
        let same : k.order_timers i j ≡ t = (rw (ef, eb) at h.1) in
        let c = (rw same at late) in ground arith
    | inr q ↦ q
  ]

  monitor_round-other :
      (n now num_elevs : ℕ) (states : ℕ → ElevatorState) (i j : ℕ) (k : Book)
      → expired now t ≡ false
      → Holds k
      → Ensures Holds (monitor_round n now num_elevs states i j k)
  monitor_round-other n now num_elevs states i j k early h =
      let stays = done-Ensures Holds k h in
      keep_if (Ensures Holds) (is_cab j) _ _ stays (
        keep_cases (Ensures Holds) (not (expired now (k.order_timers i j))) _ _ (λ _. stays)
          (λ late.
            let other = late_elsewhere now i j k early h late in
            let stopped : Book = set_timer i j (stop (k.order_timers i j)) k in
            let kept : Holds stopped = (h.0, rw other h.1) in
            keep_if (Ensures Holds) (not (eq_status (k.orders i j).status OrderStatus.confirmed)) _
              _ (done-Ensures Holds stopped kept)
              (reassign_and_time-other n now num_elevs states i j stopped other kept)))

  -- An order whose timer has not run out keeps its assignee.
  pub monitor_hall_order_timers-Holds :
      (n now num_elevs : ℕ) (states : ℕ → ElevatorState) (k : Book)
      → expired now t ≡ false
      → Holds k
      → Ensures Holds (monitor_hall_order_timers n now num_elevs states k)
  unfolding monitor_hall_order_timers
  monitor_hall_order_timers-Holds n now num_elevs states k early =
      for_grid!-Ensures Holds (monitor_round n now num_elevs states) k_floors k_buttons
        (λ i j k _ _. monitor_round-other n now num_elevs states i j k early) k
