-- ===== src/OrderSync/Table/Cells.antt =====
-- libs/ordersync, class OrderTable, cell by cell.
use cpp_elevator.Base.{ℕ, ◌<◌, ◌^◌, ◌≡◌, arith, true, false, ◌==◌, if◌then◌else◌, ◌↔◌}
use cpp_elevator.Base.Int.{ℤ, eq_of_parts}
use cpp_elevator.Base.Grid.{for_grid-get, all_grid_elim, all_grid_intro, put}
use cpp_elevator.Common.{
  k_floors, k_buttons, BtnType, btn_index, OrderStatus, BoolTable, status_code-injective,
}
use cpp_elevator.OrderSync.Order.{Order, on_update}
use cpp_elevator.OrderSync.Order
use cpp_elevator.OrderSync.Order.Merge.{Agree}
use cpp_elevator.OrderSync.Order.Observed.{IsValid, valid-IsValid, on_update-IsValid}
use cpp_elevator.OrderSync.Table.{OrderTable, to_bool_table, valid, join, join_round, assigned_to}

-- `Join` merges each hall order with the received one, and leaves every cab order alone.
pub join-cell :
    (t rcv : OrderTable) (f b : ℕ)
    → f < k_floors
    → b < k_buttons
    → join t rcv f b ≡ (if b == btn_index BtnType.cab then t f b else on_update (t f b) (rcv f b))
unfolding join
join-cell t rcv f b hf hb = ground (
  arith,
  for_grid-get (λ (s : OrderTable). s) (join_round rcv)
      (λ i j o. if j == 2 then o else on_update o (rcv i j)) (λ i j s f b. ground arith) k_floors
      k_buttons t f b,
)

pub to_bool_table-assigned :
    (e : ℤ) (t : OrderTable) (f b : ℕ)
    → f < k_floors
    → b < k_buttons
    → to_bool_table e t f b ≡ assigned_to e (t f b)
unfolding to_bool_table
to_bool_table-assigned e t f b hf hb = ground (
  arith,
  for_grid-get (λ (s : BoolTable). s) (λ i j s. put s i j (assigned_to e (t i j)))
      (λ i j _. assigned_to e (t i j)) (λ i j s f b. ground arith) k_floors k_buttons (λ f b. false)
      f b,
)

-- The request table of an elevator holds the confirmed orders that are assigned to it, no others.
pub to_bool_table-cell :
    (e : ℤ) (t : OrderTable) (f b : ℕ)
    → f < k_floors
    → b < k_buttons
    → (to_bool_table e t f b ≡ true)
      ↔ ((t f b).status ≡ OrderStatus.confirmed) × ((t f b).assigned_id ≡ e)
to_bool_table-cell e t f b hf hb = rw (to_bool_table-assigned e t f b hf hb) (
  λ h. ground (
    arith,
    status_code-injective (t f b).status OrderStatus.confirmed,
    eq_of_parts (t f b).assigned_id e,
  ),
  λ h. ground arith,
)

-- On nodes that agree on an order, it stands in the request table of one elevator at most.
pub to_bool_table_exclusive :
    (d e : ℤ) (t u : OrderTable) (f b : ℕ)
    → f < k_floors
    → b < k_buttons
    → Agree (t f b) (u f b)
    → to_bool_table d t f b ≡ true
    → to_bool_table e u f b ≡ true
    → d ≡ e
to_bool_table_exclusive d e t u f b hf hb agree p q =
    let (c, p') = (to_bool_table-cell d t f b hf hb).0 p in
    let (c', q') = (to_bool_table-cell e u f b hf hb).0 q in cc (p', q', agree.3 c)

pub valid_iff :
    (t : OrderTable)
    → ((f b : ℕ) → (t f b).observed_mask < 2 ^ 32)
    → (valid t ≡ true) ↔ ((f b : ℕ) → f < k_floors → b < k_buttons → IsValid (t f b))
unfolding valid
valid_iff t words = (
  λ v f b hf hb.
      (valid-IsValid (t f b) (words f b)).0
        (all_grid_elim k_floors k_buttons (λ f b. Order.valid (t f b)) f b v hf hb),
  λ h.
      all_grid_intro k_floors k_buttons (λ f b. Order.valid (t f b))
        (λ f b hf hb. (valid-IsValid (t f b) (words f b)).1 (h f b hf hb)),
)

-- A table that takes over what a valid packet says stays valid.
pub join-IsValid :
    (t rcv : OrderTable)
    → ((f b : ℕ) → (t f b).observed_mask < 2 ^ 32)
    → ((f b : ℕ) → (rcv f b).observed_mask < 2 ^ 32)
    → valid t ≡ true
    → valid rcv ≡ true
    → (f b : ℕ) → f < k_floors
    → b < k_buttons
    → IsValid (join t rcv f b)
join-IsValid t rcv wt wr vt vr f b hf hb = rw (join-cell t rcv f b hf hb) (
    ground (
      arith,
      (valid_iff t wt).0 vt f b hf hb,
      on_update-IsValid (t f b) (rcv f b) ((valid_iff t wt).0 vt f b hf hb)
          ((valid_iff rcv wr).0 vr f b hf hb),
    ))
