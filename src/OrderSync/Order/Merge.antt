-- ===== src/OrderSync/Order/Merge.antt =====
-- libs/ordersync, Order::OnUpdate as the join of a replicated value.
use Prim.Native.Nat.{bit_or}
use cpp_elevator.Base.{◌<◌, ◌≡◌, arith}
use cpp_elevator.Base.Bits.{bit_or_comm, bit_or_assoc, bit_or_idem}
use cpp_elevator.Base.Int.{eq_of_parts}
use cpp_elevator.Common.{OrderStatus, status_code-injective}
use cpp_elevator.OrderSync.Order.{Order, merge_equal, on_update}

pub on_update_idem : (o : Order) → on_update o o ≡ o
unfolding on_update
on_update_idem o = ground (arith, bit_or_idem o.observed_mask)

pub newer : (a b : Order) → a.version < b.version → on_update a b ≡ b
unfolding on_update
newer a b h = ground arith

pub older : (a b : Order) → b.version < a.version → on_update a b ≡ a
unfolding on_update
older a b h = ground arith

-- `a.OnUpdate(b)` for equal versions.
join_equal : Order → Order → Order
join_equal a b = merge_equal (record a { observed_mask = bit_or a.observed_mask b.observed_mask }) b

same : (a b : Order) → a.version ≡ b.version → on_update a b ≡ join_equal a b
unfolding on_update join_equal
same a b h = ground arith

join_equal-version : (a b : Order) → (join_equal a b).version ≡ a.version
unfolding join_equal merge_equal
join_equal-version a b = ground arith

join_equal-mask :
    (a b : Order) → (join_equal a b).observed_mask ≡ bit_or a.observed_mask b.observed_mask
unfolding join_equal merge_equal
join_equal-mask a b = ground arith

join_equal_assoc : (a b c : Order) → join_equal (join_equal a b) c ≡ join_equal a (join_equal b c)
unfolding join_equal merge_equal
join_equal_assoc a b c =
    ground (arith, bit_or_assoc a.observed_mask b.observed_mask c.observed_mask)

-- Merging three states gives one result, however the merges are bracketed.
pub on_update_assoc : (a b c : Order) → on_update (on_update a b) c ≡ on_update a (on_update b c)
on_update_assoc a b c = ground (
  arith,
  newer a b,
  older a b,
  same a b,
  newer b c,
  older b c,
  same b c,
  newer a c,
  older a c,
  same a c,
  newer (join_equal a b) c,
  older (join_equal a b) c,
  same (join_equal a b) c,
  newer a (join_equal b c),
  older a (join_equal b c),
  same a (join_equal b c),
  join_equal-version a b,
  join_equal-version b c,
  join_equal_assoc a b c,
)

-- What two replicas must have in common: the assignee counts once the order is confirmed.
abbrev pub Agree : Order → Order → Type 0
Agree a b =
    (a.version ≡ b.version)
    × (a.status ≡ b.status)
    × (a.observed_mask ≡ b.observed_mask)
    × (a.status ≡ OrderStatus.confirmed → a.assigned_id ≡ b.assigned_id)

pub on_update-Agree_comm : (a b : Order) → Agree (on_update a b) (on_update b a)
unfolding on_update
on_update-Agree_comm a b = ground (
  arith,
  bit_or_comm a.observed_mask b.observed_mask,
  status_code-injective a.status b.status,
  eq_of_parts a.assigned_id b.assigned_id,
)
