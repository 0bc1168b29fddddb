-- ===== src/OrderSync/Table.antt =====
-- libs/ordersync, class OrderTable: an order for each floor and button. The indices that the code
-- passes are loop counters and enumerators, so none is out of range.
pub mod Cells
use cpp_elevator.Base.{ℕ, Bool, true, false, ◌&&◌, ◌==◌, if◌then◌else◌}
use cpp_elevator.Base.Int.{ℤ, eqb_ℤ}
use cpp_elevator.Base.Grid.{Grid, put, for_grid, all_grid}
use cpp_elevator.Common.{k_floors, k_buttons, BoolTable, BtnType, btn_index, OrderStatus, eq_status}
use cpp_elevator.OrderSync.Order.{Order, default_order, on_update}
use cpp_elevator.OrderSync.Order

abbrev pub OrderTable : Type 0
OrderTable = Grid Order

abbrev pub default_table : OrderTable
default_table f b = default_order

-- `OrderTable::Order(floor, btn)`.
abbrev pub order : OrderTable → ℕ → ℕ → Order
order t floor btn = t floor btn

abbrev pub assigned_to : ℤ → Order → Bool
assigned_to elev_id o = eq_status o.status OrderStatus.confirmed && eqb_ℤ o.assigned_id elev_id

unfoldable pub to_bool_table : ℤ → OrderTable → BoolTable
to_bool_table elev_id t =
    for_grid k_floors k_buttons (λ f b result. put result f b (assigned_to elev_id (order t f b)))
      (λ f b. false)

unfoldable pub valid : OrderTable → Bool
valid t = all_grid k_floors k_buttons (λ f b. Order.valid (t f b))

abbrev pub join_round : OrderTable → ℕ → ℕ → OrderTable → OrderTable
join_round rcv f b t =
    if b == btn_index BtnType.cab then t else put t f b (on_update (order t f b) (order rcv f b))

-- `join t rcv` is `t.Join(rcv)`.
unfoldable pub join : OrderTable → OrderTable → OrderTable
join t rcv = for_grid k_floors k_buttons (join_round rcv) t
