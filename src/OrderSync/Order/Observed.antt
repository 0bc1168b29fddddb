-- ===== src/OrderSync/Order/Observed.antt =====
-- libs/ordersync, the mask of an order: Observe, ObservedBy, and the mask test of Order::Valid.
use Prim.Native.Nat.{bit_and}
use native.Mathlib.Nat.{one-le-pow}
use cpp_elevator.Base.{ℕ, ◌-◌, ◌*◌, ◌/◌, ◌^◌, ◌<◌, ◌≡◌, arith, true, ◌||◌, ◌==◌, if◌then◌else◌, ◌↔◌}
use cpp_elevator.Base.Bits.{
  bit, bit-lt_two, bit-bit_or, bit-pow_self, bit-pow_ne, bit_and-pow, bit_and-ones, bit_or_bound,
  and_halves,
}
use cpp_elevator.Base.Int.{pos, negsuc, ◌≤ℤ◌, ◌<ℤ◌}
use cpp_elevator.Common.{k_elevs, status_code}
use cpp_elevator.OrderSync.Order.{Order, observe, observed_by, on_update, valid}

-- `ObservedBy` reads one digit of the mask.
observed_by-bit : (e : ℕ) (o : Order) → observed_by e o ≡ (bit o.observed_mask e == 1)
unfolding observed_by
observed_by-bit e o =
    grind (arith, bit_and-pow e o.observed_mask, one-le-pow e 2, bit-lt_two e o.observed_mask)

bit-pow : (e i : ℕ) → bit (2 ^ e) i ≡ (if i == e then 1 else 0)
bit-pow e i = ground (arith, bit-pow_self e, bit-pow_ne e i)

-- Observing adds the elevator to those that `ObservedBy` reports, and changes nothing for others.
pub observed_by-observe :
    (e i : ℕ) (o : Order) → observed_by i (observe e o) ≡ (i == e || observed_by i o)
unfolding observe
observed_by-observe e i o = ground (
  arith,
  observed_by-bit i (observe e o),
  observed_by-bit i o,
  bit-bit_or i o.observed_mask (2 ^ e),
  bit-pow e i,
  bit-lt_two i o.observed_mask,
)

-- Merging two states of one version unites the observers of both.
pub observed_by-on_update :
    (i : ℕ) (a b : Order)
    → a.version ≡ b.version
    → observed_by i (on_update a b) ≡ (observed_by i a || observed_by i b)
unfolding on_update
observed_by-on_update i a b h = ground (
  arith,
  observed_by-bit i (on_update a b),
  observed_by-bit i a,
  observed_by-bit i b,
  bit-bit_or i a.observed_mask b.observed_mask,
  bit-lt_two i a.observed_mask,
  bit-lt_two i b.observed_mask,
)

-- The mask test of `Order::Valid` clears the four low bits and looks for any other.
high_bits : (m : ℕ) → m < 2 ^ 32 → bit_and m (2 ^ 32 - 1 - (2 ^ k_elevs - 1)) ≡ m / 16 * 16
high_bits m h = omega (
  arith,
  and_halves m 0xfffffff0,
  and_halves (m / 2) 0x7ffffff8,
  and_halves (m / 2 / 2) 0x3ffffffc,
  and_halves (m / 2 / 2 / 2) 0x1ffffffe,
  bit_and-ones 28 (m / 2 / 2 / 2 / 2) (omega arith),
)

-- An assignee from -1 up to the last elevator, a status that is an enumerator, and no observer
-- beyond the last elevator.
pub record IsValid (o : Order) : Type 0 where
  pub assigned_from : negsuc 0 ≤ℤ o.assigned_id
  pub assigned_below : o.assigned_id <ℤ pos k_elevs
  pub status_named : status_code o.status < 4
  pub mask_below : o.observed_mask < 2 ^ k_elevs

pub valid-IsValid : (o : Order) → o.observed_mask < 2 ^ 32 → (valid o ≡ true) ↔ IsValid o
unfolding valid
valid-IsValid o h = (
  λ v. ground (arith, high_bits o.observed_mask h),
  λ v. ground (arith, high_bits o.observed_mask h),
)

-- Merging valid states gives a valid state.
pub on_update-IsValid : (a b : Order) → IsValid a → IsValid b → IsValid (on_update a b)
unfolding on_update
on_update-IsValid a b p q =
    ground (arith, bit_or_bound 4 a.observed_mask b.observed_mask p.mask_below q.mask_below)
