-- ===== src/Network/Hall/Inactive.antt =====
-- libs/network, class Peers: its loops that assign hall orders give none to an inactive elevator.
use cpp_elevator.Base.{
  ℕ, keep_if, ◌<◌, ◌≡◌, ◌≢◌, refl, sym, ◌∙◌, ◌⊎◌, arith, true, false, not, ◌||◌, ◌==◌, List, ◌∷◌,
  inl, inr,
}
use cpp_elevator.Base.Int.{pos, eqb_ℤ}
use cpp_elevator.Base.Grid.{for_grid_inv}
use cpp_elevator.Base.Outcome.{Returns, Returns->>=, Returns-both}
use cpp_elevator.Common.{k_elevs, k_floors, k_buttons, OrderStatus, eq_status}
use cpp_elevator.OrderSync.Order.{on_confirm, on_reassignment}
use cpp_elevator.OrderSync.Table.{OrderTable}
use cpp_elevator.Elevator.State.{ElevatorState}
use cpp_elevator.Network.Costs.{Cost, int_max}
use cpp_elevator.Network.Costs.Best.{Best, costs-Best, Best-active}
use cpp_elevator.Network.Assign.{reassigned, reassign_hall_order}
use cpp_elevator.Network.Assign.Takeover.{TakesOver}
use cpp_elevator.Network.Assign.Reassigned.{reassigned-Returns}
use cpp_elevator.Network.Hall.{
  Book, is_cab, observed_by_all, confirm_with, confirm_round, confirm_hall_orders,
  reassign_and_time, monitor_hall_order_timers, reassign_hall_orders,
}
use cpp_elevator.Network.Hall.Sound.{AllSound}
use cpp_elevator.Network.Hall.Without.{
  Without, Lacks, put-Without, on_confirm-off, on_reassignment-off,
}
use cpp_elevator.Network.Hall.Reassign.{
  SomeActive, reassign_confirmed-keep, monitor_hall_order_timers-keep, reassign_hall_orders-keep,
}

-- An elevator that is not active, beside an active one.
module _ (e : ℕ) (states : ℕ → ElevatorState) (out : (states e).active ≡ false)
    (others : SomeActive states) where
  confirm_with-Without :
      (n now i j other : ℕ) (cost : ℕ) (rest : List Cost) (k : Book)
      → i < k_floors
      → other ≢ e
      → Lacks e k
      → Lacks e (confirm_with n now i j ((cost, other) ∷ rest) k)
  unfolding confirm_with
  confirm_with-Without n now i j other cost rest k hi ne h =
      let set =
        put-Without e i j (on_confirm (pos other) (k.orders i j)) k.orders h
          (λ hj. on_confirm-off e other (k.orders i j) ne (h i j hi hj)) in
      keep_if (Lacks e) (cost == int_max) k _ h (keep_if (Lacks e) (other == n) _ _ set set)

  Best-other : (i : ℕ) (m : Cost) → i < k_floors → Best (pos i) states m → m.1 ≢ e
  Best-other i m hi best own =
      let (a, la, act, c) = others in
      let chosen = (Best-active (pos i) states m a best la act (c i hi)).0 in
      let chosen' = rw own at chosen in cc

  confirm_round-Without :
      (n now i j : ℕ) (k : Book)
      → i < k_floors
      → Lacks e k
      → Lacks e (confirm_round n now states i j k)
  unfolding confirm_round
  confirm_round-Without n now i j k hi h =
      let (m, rest, q, best) = costs-Best (pos i) states in
      keep_if (Lacks e)
        (is_cab j
          || not (observed_by_all states (k.orders i j))
          || not (eq_status (k.orders i j).status OrderStatus.requested))
        k _ h (rw q (confirm_with-Without n now i j m.1 m.0 rest k hi (Best-other i m hi best) h))

  pub confirm_hall_orders-Without :
      (n now : ℕ) (k : Book)
      → Without e k.orders
      → Without e (confirm_hall_orders n now states k).orders
  unfolding confirm_hall_orders
  confirm_hall_orders-Without n now =
      for_grid_inv (Lacks e) (confirm_round n now states) k_floors k_buttons
        (λ i j k hi _. confirm_round-Without n now i j k hi)

  reassign_hall_order-Without :
      (num_elevs i j prev : ℕ) (t : OrderTable)
      → i < k_floors
      → (t i j).assigned_id ≡ pos prev
      → prev < k_elevs
      → prev ≢ e
      → Without e t
      → Returns (Without e) (reassign_hall_order num_elevs states i j t)
  unfolding reassign_hall_order
  reassign_hall_order-Without num_elevs i j prev t hi q lp ne h =
      let (a, la, act, c) = others in
      Returns->>= {P = TakesOver states prev} (reassigned num_elevs states i (t i j).assigned_id) _
        (rw q (reassigned-Returns num_elevs states i prev a lp la act (c i hi)))
        (λ x (new, qx, _, w). (
          _,
          refl,
          put-Without e i j (on_reassignment x (t i j)) t h
              (λ _. rw qx (on_reassignment-off e new (t i j) (taker-other prev new ne w))),
        ))
    where
      taker-other :
          (prev new : ℕ) → prev ≢ e → (new ≡ prev) ⊎ ((states new).active ≡ true) → new ≢ e
      taker-other prev new ne (inl same) own = ne (sym same ∙ own)
      taker-other prev new ne (inr act) own = let act' = rw own at act in cc

  reassign_confirmed-Without :
      (n now num_elevs i j : ℕ) (k : Book)
      → i < k_floors
      → j < k_buttons
      → is_cab j ≡ false
      → not (eq_status (k.orders i j).status OrderStatus.confirmed) ≡ false
      → AllSound k.orders × Without e k.orders
      → Returns (Lacks e) (reassign_and_time n now num_elevs states i j k)
  unfolding reassign_and_time
  reassign_confirmed-Without n now num_elevs i j k hi hj cab conf (sound, h) =
      let (prev, q, lp) = (sound i j hi hj).assigned (ground arith) in
      let off = h i j hi (ground arith) in
      let ne : prev ≢ e = λ own. ground arith in
      Returns->>= {P = Without e} (reassign_hall_order num_elevs states i j k.orders) _
        (reassign_hall_order-Without num_elevs i j prev k.orders hi q lp ne h)
        (λ t ht. (_, refl, keep_if (Lacks e) (eqb_ℤ (t i j).assigned_id (pos n)) _ _ ht ht))

  abbrev Both : OrderTable → Type 0
  Both t = AllSound t × Without e t

  reassign_confirmed-Both :
      (n now num_elevs i j : ℕ) (k : Book)
      → i < k_floors
      → j < k_buttons
      → is_cab j ≡ false
      → not (eq_status (k.orders i j).status OrderStatus.confirmed) ≡ false
      → Both k.orders
      → Returns (λ k'. Both k'.orders) (reassign_and_time n now num_elevs states i j k)
  reassign_confirmed-Both n now num_elevs i j k hi hj cab conf h =
      Returns-both (reassign_and_time n now num_elevs states i j k)
        (reassign_confirmed-keep n now num_elevs states i j k others hi hj cab conf h.0)
        (reassign_confirmed-Without n now num_elevs i j k hi hj cab conf h)

  pub monitor_hall_order_timers-Without :
      (n now num_elevs : ℕ) (k : Book)
      → AllSound k.orders
      → Without e k.orders
      → Returns
          (λ k'. AllSound k'.orders × Without e k'.orders)
          (monitor_hall_order_timers n now num_elevs states k)
  monitor_hall_order_timers-Without n now num_elevs k sound h =
      monitor_hall_order_timers-keep Both n now num_elevs states
        (reassign_confirmed-Both n now num_elevs) k (sound, h)

  pub reassign_hall_orders-Without :
      (n now num_elevs elev_id : ℕ) (k : Book)
      → AllSound k.orders
      → Without e k.orders
      → Returns
          (λ k'. AllSound k'.orders × Without e k'.orders)
          (reassign_hall_orders n now num_elevs states elev_id k)
  reassign_hall_orders-Without n now num_elevs elev_id k sound h =
      reassign_hall_orders-keep Both n now num_elevs states
        (reassign_confirmed-Both n now num_elevs) elev_id k (sound, h)
