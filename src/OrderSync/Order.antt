-- ===== src/OrderSync/Order.antt =====
-- libs/ordersync, class Order: a call of a button as each node holds it, with its merge and its
-- state machine. A version is a `uint64_t` and wraps; a mask is a `uint32_t` with one bit for each
-- elevator.
pub mod Merge
pub mod Convergence
pub mod Observed
pub mod Lifecycle
pub mod Sound
use Prim.Native.Nat.{bit_and, bit_or}
use cpp_elevator.Base.{
  ℕ, ◌+◌, ◌-◌, ◌%◌, ◌^◌, Bool, true, false, not, ◌&&◌, ◌||◌, ltb, ◌==◌, if◌then◌else◌,
}
use cpp_elevator.Base.Int.{ℤ, pos, negsuc, ltb_ℤ, leb_ℤ}
use cpp_elevator.Common.{k_elevs, OrderStatus, status_code, eq_status}

pub record Order : Type 0 where
  pub assigned_id : ℤ
  pub observed_mask : ℕ
  pub status : OrderStatus
  pub version : ℕ

abbrev pub default_order : Order
default_order = record {
  assigned_id = negsuc 0;
  observed_mask = 0;
  status = OrderStatus.none;
  version = 0;
}

-- `version_++` on a `uint64_t`.
abbrev pub next_version : ℕ → ℕ
next_version v = (v + 1) % 2 ^ 64

-- `1u << elev_id`, defined for 0 <= elev_id < 32.
unfoldable pub observe : ℕ → Order → Order
observe elev_id o = record o { observed_mask = bit_or o.observed_mask (2 ^ elev_id) }

unfoldable pub observed_by : ℕ → Order → Bool
observed_by elev_id o = not (bit_and o.observed_mask (2 ^ elev_id) == 0)

unfoldable pub valid : Order → Bool
valid o =
    if ltb_ℤ o.assigned_id (negsuc 0) || leb_ℤ (pos k_elevs) o.assigned_id
    then false
    else if ltb (status_code OrderStatus.clear) (status_code o.status)
    then false
    else if bit_and o.observed_mask (2 ^ 32 - 1 - (2 ^ k_elevs - 1)) == 0
    then true
    else false

-- The part of `OnUpdate` for equal versions, behind the union of the masks.
unfoldable pub merge_equal : Order → Order → Order
merge_equal o rcv =
    if ltb (status_code o.status) (status_code rcv.status)
    then record o { status = rcv.status; assigned_id = rcv.assigned_id }
    else if eq_status o.status OrderStatus.confirmed
        && eq_status rcv.status OrderStatus.confirmed
        && ltb_ℤ rcv.assigned_id o.assigned_id
    then record o { assigned_id = rcv.assigned_id }
    else o

-- `on_update o rcv` is `o.OnUpdate(rcv)`.
unfoldable pub on_update : Order → Order → Order
unfolding merge_equal
on_update o rcv =
    if ltb o.version rcv.version
    then record {
      assigned_id = rcv.assigned_id;
      observed_mask = rcv.observed_mask;
      status = rcv.status;
      version = rcv.version;
    }
    else if rcv.version == o.version
    then merge_equal (record o { observed_mask = bit_or o.observed_mask rcv.observed_mask }) rcv
    else o

unfoldable pub on_request : ℕ → Order → Order
unfolding observe
on_request elev_id o =
    if eq_status o.status OrderStatus.none || eq_status o.status OrderStatus.clear
    then observe elev_id (record o {
      status = OrderStatus.requested;
      version = next_version o.version;
      observed_mask = 0;
    })
    else o

unfoldable pub on_confirm : ℤ → Order → Order
on_confirm elev_id o =
    if eq_status o.status OrderStatus.requested
    then record o {
      status = OrderStatus.confirmed;
      assigned_id = elev_id;
      version = next_version o.version;
    }
    else o

unfoldable pub on_clear : Order → Order
on_clear o =
    if eq_status o.status OrderStatus.confirmed
    then record o { status = OrderStatus.clear; version = next_version o.version }
    else o

unfoldable pub on_reset : Order → Order
on_reset o =
    if eq_status o.status OrderStatus.clear
    then record o { status = OrderStatus.none; version = next_version o.version }
    else o

unfoldable pub on_revoke : Order → Order
on_revoke o =
    if eq_status o.status OrderStatus.confirmed
    then record o { status = OrderStatus.requested; version = next_version o.version }
    else o

unfoldable pub set_assigned_id : ℤ → Order → Order
set_assigned_id assigned_id o = record o { assigned_id = assigned_id }

unfoldable pub on_reassignment : ℤ → Order → Order
on_reassignment assigned_id o = record o {
  assigned_id = assigned_id;
  version = next_version o.version;
}
