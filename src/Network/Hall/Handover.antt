-- ===== src/Network/Hall/Handover.antt =====
-- libs/network, Peers::ReassignHallOrders: the orders of an elevator that is out of use.
use cpp_elevator.Base.{
  ℕ, keep_if, keep_cases, ◌<◌, ◌≡◌, ◌≢◌, refl, sym, ap, ◌∙◌, arith, true, false, not, ◌&&◌, ◌==◌,
  Bool-cases, inl, inr, ◌⊎◌,
}
use cpp_elevator.Base.Int.{ℤ, pos, negsuc, eqb_ℤ}
use cpp_elevator.Base.Outcome.{done, Ensures, done-Ensures, Ensures->>=, for_grid!-reaches}
use cpp_elevator.Common.{k_elevs, k_floors, k_buttons, OrderStatus, eq_status}
use cpp_elevator.OrderSync.Order.{Order, on_reassignment}
use cpp_elevator.OrderSync.Table.{OrderTable, assigned_to}
use cpp_elevator.Elevator.State.{ElevatorState, usable}
use cpp_elevator.Network.Costs.{int_max, cost_of}
use cpp_elevator.Network.Assign.{reassigned, reassign_hall_order}
use cpp_elevator.Network.Assign.Reassigned.{reassigned-unusable}
use mathlib.Core.Path.{subst}
use cpp_elevator.Network.Hall.Requested.{reassign_and_time-other}
use cpp_elevator.Network.Hall.{
  Book, is_cab, reassign_and_time, reassign_round, reassign_hall_orders,
}

equal_ids : (a : ℤ) (e : ℕ) → eqb_ℤ a (pos e) ≡ true → a ≡ pos e
equal_ids (pos n) e h = let q : n ≡ e = ground arith in ap pos q
equal_ids (negsuc n) e h = absurd (ground arith)

assigned_to-id :
    (e : ℕ) (o : Order)
    → assigned_to (pos e) o ≡ true
    → (eq_status o.status OrderStatus.confirmed ≡ true) × (eqb_ℤ o.assigned_id (pos e) ≡ true)
assigned_to-id e o h = (ground arith, ground arith)

-- The hall order `o` was handed over to an active elevator other than `e`.
abbrev pub HandedOver : (ℕ → ElevatorState) → ℕ → Order → Order → Type 0
HandedOver states e o o' =
    (a : ℕ) × (o' ≡ on_reassignment (pos a) o)
    × (a < k_elevs)
    × (a ≢ e)
    × ((states a).active ≡ true)

-- An elevator `e` out of use, beside an active one whose cost is below the largest int.
pub record Replaceable (num_elevs : ℕ) (states : ℕ → ElevatorState) (e : ℕ) : Type 0 where
  pub in_range : e < k_elevs
  pub not_alone : num_elevs ≢ 1
  pub out_of_use : usable (states e) ≡ false
  pub other : ℕ
  pub other_in_range : other < k_elevs
  pub other_than : other ≢ e
  pub other_active : (states other).active ≡ true
  pub other_cost : (f : ℕ) → f < k_floors → cost_of (pos f) (states other) < int_max

module _ (n now num_elevs : ℕ) (states : ℕ → ElevatorState) (e : ℕ)
    (r : Replaceable num_elevs states e) (f b : ℕ) (hf : f < k_floors) (hb : b < 2) (o : Order)
    (assigned : assigned_to (pos e) o ≡ true) where
  abbrev Given : Book → Type 0
  Given k = HandedOver states e o (k.orders f b)

  abbrev Waiting : Book → Type 0
  Waiting k = (k.orders f b ≡ o) ⊎ Given k

  hand_over :
      (t : OrderTable)
      → t f b ≡ o
      → Ensures (λ t'. HandedOver states e o (t' f b)) (reassign_hall_order num_elevs states f b t)
  unfolding reassign_hall_order
  hand_over t h =
      let own : o.assigned_id ≡ pos e = equal_ids o.assigned_id e (assigned_to-id e o assigned).1 in
      let (a, q, ha, ne, act, _) =
        reassigned-unusable num_elevs states f e r.other r.in_range r.not_alone r.out_of_use
          r.other_in_range r.other_than r.other_active (r.other_cost f hf) in
      let found : Ensures (λ x. x ≡ pos a) (reassigned num_elevs states f (t f b).assigned_id) =
        λ x found.
          let same : done x ≡ done (pos a) =
            sym found
            ∙ ap (λ (o : Order). reassigned num_elevs states f o.assigned_id) h
            ∙ ap (reassigned num_elevs states f) own
            ∙ q in
          cc in
      let here : f == f && b == b ≡ true = ground arith in
      Ensures->>= {P = λ x. x ≡ pos a} (reassigned num_elevs states f (t f b).assigned_id) _ found
        (λ x hx.
          done-Ensures (λ t'. HandedOver states e o (t' f b)) _
            (a, rw (here, hx, h) refl, ha, ne, act))

  hand_over_timed :
      (k : Book) → k.orders f b ≡ o → Ensures Given (reassign_and_time n now num_elevs states f b k)
  unfolding reassign_and_time
  hand_over_timed k h =
      Ensures->>= {P = λ t. HandedOver states e o (t f b)}
        (reassign_hall_order num_elevs states f b k.orders) _ (hand_over k.orders h)
        (λ t g. done-Ensures Given _ (keep_if Given (eqb_ℤ (t f b).assigned_id (pos n)) _ _ g g))

  handed_elsewhere :
      (o' : Order) → HandedOver states e o o' → ¬ (not (eqb_ℤ o'.assigned_id (pos e)) ≡ false)
  unfolding on_reassignment
  handed_elsewhere o' (a, q, ha, ne, act) own = let own' = (rw q at own) in ne (ground arith)

  -- The round of the order itself.
  hit : (k : Book) → Waiting k → Ensures Given (reassign_round n now num_elevs states e f b k)
  hit k (inl h) =
      let cab : is_cab b ≡ false = ground arith in
      let (conf, own) = assigned_to-id e o assigned in rw (cab, h, conf, own) (hand_over_timed k h)
  hit k (inr g) =
      let stays = done-Ensures Given k g in
      keep_if (Ensures Given) (is_cab b) _ _ stays (
        keep_if (Ensures Given) (not (eq_status (k.orders f b).status OrderStatus.confirmed)) _ _
          stays
          (keep_cases (Ensures Given) (not (eqb_ℤ (k.orders f b).assigned_id (pos e))) _ _
            (λ _. stays) (λ own. absurd (handed_elsewhere (k.orders f b) g own))))

  -- The round of another order.
  unchanged :
      (i j : ℕ) (k : Book)
      → f == i && b == j ≡ false
      → Ensures (λ k'. k'.orders f b ≡ k.orders f b) (reassign_round n now num_elevs states e i j k)
  unchanged i j k other =
      let Same : Book → Type 0 = λ k'. k'.orders f b ≡ k.orders f b in
      let stays = done-Ensures Same k refl in
      keep_if (Ensures Same) (is_cab j) _ _ stays (
        keep_if (Ensures Same) (not (eq_status (k.orders i j).status OrderStatus.confirmed)) _ _
          stays
          (keep_if (Ensures Same) (not (eqb_ℤ (k.orders i j).assigned_id (pos e))) _ _ stays
            (λ k' q.
              (reassign_and_time-other f b (k.orders f b) (k.order_timers f b) n now num_elevs
                states i j k other (refl, refl) k' q).0)))

  at_cell :
      (i j : ℕ) (k : Book)
      → f == i && b == j ≡ true
      → Waiting k
      → Ensures Given (reassign_round n now num_elevs states e i j k)
  at_cell i j k here w k' q =
      let ef : f ≡ i = ground arith in let eb : b ≡ j = ground arith in hit k w k' (rw (ef, eb) q)

  keep :
      (i j : ℕ) (k : Book)
      → Waiting k
      → Ensures Waiting (reassign_round n now num_elevs states e i j k)
  keep i j k w k' q = elim (Bool-cases (f == i && b == j)) [
    | inl here ↦ inr (at_cell i j k here w k' q)
    | inr other ↦
        subst (λ x. (x ≡ o) ⊎ HandedOver states e o x) (sym (unchanged i j k other k' q)) w
  ]

  stay :
      (i j : ℕ) (k : Book) → Given k → Ensures Given (reassign_round n now num_elevs states e i j k)
  stay i j k g k' q = elim (Bool-cases (f == i && b == j)) [
    | inl here ↦ at_cell i j k here (inr g) k' q
    | inr other ↦ subst (HandedOver states e o) (sym (unchanged i j k other k' q)) g
  ]

  -- Every confirmed hall order of an elevator out of use is handed over.
  pub reassign_hall_orders-HandedOver :
      (k : Book)
      → k.orders f b ≡ o
      → Ensures
          (λ k'. HandedOver states e o (k'.orders f b))
          (reassign_hall_orders n now num_elevs states e k)
  unfolding reassign_hall_orders
  reassign_hall_orders-HandedOver k h =
      for_grid!-reaches Waiting Given (reassign_round n now num_elevs states e) f b k_floors
        k_buttons (λ i j k _ _. keep i j k) hit (λ i j k _ _. stay i j k) hf (omega arith) k (inl h)
