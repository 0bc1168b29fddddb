-- ===== src/OrderSync/Order/Sound.antt =====
-- libs/ordersync, class Order: the orders that a node can work with, under the local calls and the
-- merge. `Order::Valid` leaves one thing open, a confirmed order without an assignee.
use cpp_elevator.Base.{
  ℕ, zero, suc, ◌<◌, ◌^◌, ◌≡◌, refl, arith, true, ◌&&◌, ◌||◌, ◌==◌, ltb, keep_if, keep_cases,
}
use cpp_elevator.Base.Int.{pos, ltb_ℤ}
use cpp_elevator.Base.Bits.{bit_or_bound}
use cpp_elevator.Common.{k_elevs, OrderStatus, eq_status, status_code}
use cpp_elevator.OrderSync.Order.{
  Order, default_order, observe, on_update, merge_equal, on_clear, on_request, on_confirm, on_reset,
  on_reassignment,
}
use cpp_elevator.OrderSync.Order.Observed.{IsValid, on_update-IsValid}
use cpp_elevator.OrderSync.Order.Lifecycle.{Op, apply, apply-IsValid}

-- A confirmed order has an elevator of the system for its assignee.
abbrev pub IsAssigned : Order → Type 0
IsAssigned o =
    eq_status o.status OrderStatus.confirmed ≡ true
    → (e : ℕ) × (o.assigned_id ≡ pos e) × (e < k_elevs)

pub record IsSound (o : Order) : Type 0 where
  pub valid : IsValid o
  pub assigned : IsAssigned o

pub default_order-IsSound : IsSound default_order
default_order-IsSound = record {
  valid = record {
    assigned_from = omega arith;
    assigned_below = omega arith;
    status_named = omega arith;
    mask_below = omega arith;
  };
  assigned = λ h. absurd cc;
}

elevator_bit : (n : ℕ) → n < k_elevs → 2 ^ n < 2 ^ k_elevs
elevator_bit zero h = omega arith
elevator_bit (suc zero) h = omega arith
elevator_bit (suc (suc zero)) h = omega arith
elevator_bit (suc (suc (suc zero))) h = omega arith
elevator_bit (suc (suc (suc (suc n)))) h = absurd (omega arith)

observe-IsValid : (n : ℕ) (o : Order) → n < k_elevs → IsValid o → IsValid (observe n o)
unfolding observe
observe-IsValid n o h v = record {
  assigned_from = v.assigned_from;
  assigned_below = v.assigned_below;
  status_named = v.status_named;
  mask_below = bit_or_bound k_elevs o.observed_mask (2 ^ n) v.mask_below (elevator_bit n h);
}

pub observe-IsSound : (n : ℕ) (o : Order) → n < k_elevs → IsSound o → IsSound (observe n o)
unfolding observe
observe-IsSound n o h s = record { valid = observe-IsValid n o h s.valid; assigned = s.assigned }

-- An order after a call, in the form of the call that the table of calls gives.
pub on_request-IsSound : (n : ℕ) (o : Order) → n < k_elevs → IsSound o → IsSound (on_request n o)
unfolding on_request observe apply
on_request-IsSound n o h s = record {
  valid = apply-IsValid (Op.request n) o h s.valid;
  assigned =
      keep_if IsAssigned
        (eq_status o.status OrderStatus.none || eq_status o.status OrderStatus.clear) _ o
        (λ q. absurd cc) s.assigned;
}

pub on_confirm-IsSound :
    (e : ℕ) (o : Order) → e < k_elevs → IsSound o → IsSound (on_confirm (pos e) o)
unfolding on_confirm apply
on_confirm-IsSound e o h s = record {
  valid = apply-IsValid (Op.confirm (pos e)) o (omega arith) s.valid;
  assigned =
      keep_if IsAssigned (eq_status o.status OrderStatus.requested) _ o (λ _. (e, refl, h))
        s.assigned;
}

pub on_clear-IsSound : (o : Order) → IsSound o → IsSound (on_clear o)
unfolding on_clear apply
on_clear-IsSound o s = record {
  valid = apply-IsValid Op.clear o tt s.valid;
  assigned =
      keep_if IsAssigned (eq_status o.status OrderStatus.confirmed) _ o (λ q. absurd cc) s.assigned;
}

pub on_reset-IsSound : (o : Order) → IsSound o → IsSound (on_reset o)
unfolding on_reset apply
on_reset-IsSound o s = record {
  valid = apply-IsValid Op.reset o tt s.valid;
  assigned =
      keep_if IsAssigned (eq_status o.status OrderStatus.clear) _ o (λ q. absurd cc) s.assigned;
}

pub on_reassignment-IsSound :
    (e : ℕ) (o : Order) → e < k_elevs → IsSound o → IsSound (on_reassignment (pos e) o)
unfolding on_reassignment apply
on_reassignment-IsSound e o h s = record {
  valid = apply-IsValid (Op.reassign (pos e)) o (omega arith) s.valid;
  assigned = λ _. (e, refl, h);
}

merge_equal-IsAssigned :
    (o rcv : Order) → IsAssigned o → IsAssigned rcv → IsAssigned (merge_equal o rcv)
unfolding merge_equal
merge_equal-IsAssigned o rcv h r =
    keep_if IsAssigned (ltb (status_code o.status) (status_code rcv.status)) _ _ r (
      keep_cases IsAssigned
        (eq_status o.status OrderStatus.confirmed
          && eq_status rcv.status OrderStatus.confirmed
          && ltb_ℤ rcv.assigned_id o.assigned_id)
        _ o (λ q _. r (ground arith)) (λ _. h))

-- Merging two sound orders gives a sound order.
pub on_update-IsSound : (o rcv : Order) → IsSound o → IsSound rcv → IsSound (on_update o rcv)
unfolding on_update
on_update-IsSound o rcv s r = record {
  valid = on_update-IsValid o rcv s.valid r.valid;
  assigned = keep_if IsAssigned (ltb o.version rcv.version) _ _ r.assigned (
      keep_if IsAssigned (rcv.version == o.version) _ _
        (merge_equal-IsAssigned _ rcv s.assigned r.assigned) s.assigned);
}
