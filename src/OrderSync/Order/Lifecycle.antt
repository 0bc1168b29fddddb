-- ===== src/OrderSync/Order/Lifecycle.antt =====
-- libs/ordersync, the state machine of an order: what the local operations may do to it, and how
-- their results meet older and concurrent states on other nodes.
use Prim.Native.Nat.{bit_or}
use cpp_elevator.Base.{zero, suc, ◌≢◌, ℕ, ◌+◌, ◌^◌, ◌<◌, ◌≡◌, refl, arith, ◌⊎◌, inl, inr}
use cpp_elevator.Base.Bits.{zero-bit_or}
use cpp_elevator.Base.Int.{ℤ, pos, ◌≤ℤ◌, ◌<ℤ◌}
use cpp_elevator.Common.{k_elevs, OrderStatus, status_code-injective}
use cpp_elevator.OrderSync.Order.{
  Order, next_version, on_update, on_request, on_confirm, on_clear, on_reset, on_revoke,
  on_reassignment,
}
use cpp_elevator.OrderSync.Order.Merge.{on_update_idem, newer, older}
use cpp_elevator.OrderSync.Order.Observed.{IsValid}

-- The calls that change an order by the node's own decision.
pub data Op : Type 0 where
  request : ℕ → Op
  confirm reassign : ℤ → Op
  clear reset revoke : Op

unfoldable pub apply : Op → Order → Order
unfolding on_request on_confirm on_clear on_reset on_revoke on_reassignment
apply (Op.request e) o = on_request e o
apply (Op.confirm id) o = on_confirm id o
apply (Op.reassign id) o = on_reassignment id o
apply Op.clear o = on_clear o
apply Op.reset o = on_reset o
apply Op.revoke o = on_revoke o

-- The edges of the state machine: the statuses that a call leads from and to.
pub data Edge : Op → OrderStatus → OrderStatus → Type 0 where
  call :
      {e : ℕ} {s t : OrderStatus}
      → (s ≡ OrderStatus.none) ⊎ (s ≡ OrderStatus.clear)
      → t ≡ OrderStatus.requested
      → Edge (Op.request e) s t
  assign :
      {id : ℤ} {s t : OrderStatus}
      → s ≡ OrderStatus.requested
      → t ≡ OrderStatus.confirmed
      → Edge (Op.confirm id) s t
  serve :
      {s t : OrderStatus} → s ≡ OrderStatus.confirmed → t ≡ OrderStatus.clear → Edge Op.clear s t
  close : {s t : OrderStatus} → s ≡ OrderStatus.clear → t ≡ OrderStatus.none → Edge Op.reset s t
  withdraw :
      {s t : OrderStatus}
      → s ≡ OrderStatus.confirmed
      → t ≡ OrderStatus.requested
      → Edge Op.revoke s t
  hand_over : {id : ℤ} {s t : OrderStatus} → s ≡ t → Edge (Op.reassign id) s t

-- What an edge leaves in the other fields: a new call has one observer, and a confirmation or a
-- reassignment names the assignee.
abbrev pub Effect : Op → Order → Order → Type 0
Effect (Op.request e) o o' = (o'.observed_mask ≡ 2 ^ e) × (o'.assigned_id ≡ o.assigned_id)
Effect (Op.confirm id) o o' = (o'.observed_mask ≡ o.observed_mask) × (o'.assigned_id ≡ id)
Effect (Op.reassign id) o o' = (o'.observed_mask ≡ o.observed_mask) × (o'.assigned_id ≡ id)
Effect _ o o' = (o'.observed_mask ≡ o.observed_mask) × (o'.assigned_id ≡ o.assigned_id)

abbrev pub Refused : Op → Order → Type 0
Refused op o = (t : OrderStatus) → ¬ Edge op o.status t

abbrev pub Moves : Op → Order → Order → Type 0
Moves op o o' =
    (Refused op o × (o' ≡ o))
    ⊎ (Edge op o.status o'.status × (o'.version ≡ next_version o.version) × Effect op o o')

status_cases : (o : Order) (s : OrderStatus) → (o.status ≡ s) ⊎ (o.status ≢ s)
status_cases o s = ground (arith, status_code-injective o.status s)

request-Refused :
    (e : ℕ) (o : Order)
    → o.status ≢ OrderStatus.none
    → o.status ≢ OrderStatus.clear
    → Refused (Op.request e) o
request-Refused e o h k t (call p q) = ground arith

confirm-Refused :
    (id : ℤ) (o : Order) → o.status ≢ OrderStatus.requested → Refused (Op.confirm id) o
confirm-Refused id o h t (assign p q) = h p

clear-Refused : (o : Order) → o.status ≢ OrderStatus.confirmed → Refused Op.clear o
clear-Refused o h t (serve p q) = h p

reset-Refused : (o : Order) → o.status ≢ OrderStatus.clear → Refused Op.reset o
reset-Refused o h t (close p q) = h p

revoke-Refused : (o : Order) → o.status ≢ OrderStatus.confirmed → Refused Op.revoke o
revoke-Refused o h t (withdraw p q) = h p

-- A call that has no edge from the order's status leaves the order as it was. Any other moves the
-- status along its edge, takes the next version and sets the other fields.
pub apply-Moves : (op : Op) (o : Order) → Moves op o (apply op o)
unfolding apply
apply-Moves (Op.request e) o = elim (status_cases o OrderStatus.none) [
  | inl h ↦ inr (call (inl h) (ground arith), ground arith, ground (arith, zero-bit_or (2 ^ e)))
  | inr h ↦ elim (status_cases o OrderStatus.clear) [
    | inl k ↦ inr (call (inr k) (ground arith), ground arith, ground (arith, zero-bit_or (2 ^ e)))
    | inr k ↦ inl (
      request-Refused e o h k,
      ground (
        arith,
        status_code-injective o.status OrderStatus.none,
        status_code-injective o.status OrderStatus.clear,
      ),
    )
  ]
]
apply-Moves (Op.confirm id) o = elim (status_cases o OrderStatus.requested) [
  | inl h ↦ inr (assign h (ground arith), ground arith, ground arith)
  | inr h ↦
      inl (
        confirm-Refused id o h,
        ground (arith, status_code-injective o.status OrderStatus.requested),
      )
]
apply-Moves (Op.reassign id) o = inr (hand_over refl, refl, (refl, refl))
apply-Moves Op.clear o = elim (status_cases o OrderStatus.confirmed) [
  | inl h ↦ inr (serve h (ground arith), ground arith, ground arith)
  | inr h ↦
      inl (clear-Refused o h, ground (arith, status_code-injective o.status OrderStatus.confirmed))
]
apply-Moves Op.reset o = elim (status_cases o OrderStatus.clear) [
  | inl h ↦ inr (close h (ground arith), ground arith, ground arith)
  | inr h ↦
      inl (reset-Refused o h, ground (arith, status_code-injective o.status OrderStatus.clear))
]
apply-Moves Op.revoke o = elim (status_cases o OrderStatus.confirmed) [
  | inl h ↦ inr (withdraw h (ground arith), ground arith, ground arith)
  | inr h ↦
      inl (revoke-Refused o h, ground (arith, status_code-injective o.status OrderStatus.confirmed))
]

-- The arguments that the program gives: a node or an assignee that is an elevator.
abbrev pub InRange : Op → Type 0
InRange (Op.request e) = e < k_elevs
InRange (Op.confirm id) = (pos 0 ≤ℤ id) × (id <ℤ pos k_elevs)
InRange (Op.reassign id) = (pos 0 ≤ℤ id) × (id <ℤ pos k_elevs)
InRange _ = Unit

pub one_bit : (e : ℕ) → e < k_elevs → bit_or 0 (2 ^ e) < 16
one_bit zero h = omega arith
one_bit (suc zero) h = omega arith
one_bit (suc (suc zero)) h = omega arith
one_bit (suc (suc (suc zero))) h = omega arith
one_bit (suc (suc (suc (suc e)))) h = absurd (omega arith)

-- A call with arguments in range keeps an order valid.
pub apply-IsValid : (op : Op) (o : Order) → InRange op → IsValid o → IsValid (apply op o)
unfolding apply
apply-IsValid (Op.request e) o r v = ground (arith, one_bit e r)
apply-IsValid op o r v = ground arith

-- As long as the version is not the largest, the result of a call replaces the state before it on
-- every node that has that state, and is never replaced by it.
pub apply-on_update :
    (op : Op) (o : Order)
    → o.version + 1 < 2 ^ 64
    → (on_update o (apply op o) ≡ apply op o) × (on_update (apply op o) o ≡ apply op o)
apply-on_update op o h = elim (apply-Moves op o) [
  | inl (_, e) ↦ rw e (on_update_idem o, on_update_idem o)
  | inr (_, e, _) ↦ ground (arith, newer o (apply op o), older (apply op o) o)
]

-- Two nodes hold the same order, whose version is not the largest, each makes one call, and then each
-- merges what the other made. If the order is confirmed, a clear on one side and a reassignment or a
-- revocation on the other leave it clear on both; if it is clear, a request on one side and a reset on
-- the other leave it requested on both.
pub concurrent_ops :
    (id : ℤ) (e : ℕ) (o : Order)
    → o.version + 1 < 2 ^ 64
    → (o.status ≡ OrderStatus.confirmed) ⊎ (o.status ≡ OrderStatus.clear)
    → ((o.status ≡ OrderStatus.confirmed)
        × ((on_update (on_reassignment id o) (on_clear o)).status ≡ OrderStatus.clear)
        × ((on_update (on_clear o) (on_reassignment id o)).status ≡ OrderStatus.clear)
        × ((on_update (on_revoke o) (on_clear o)).status ≡ OrderStatus.clear)
        × ((on_update (on_clear o) (on_revoke o)).status ≡ OrderStatus.clear))
      ⊎ ((o.status ≡ OrderStatus.clear)
          × ((on_update (on_reset o) (on_request e o)).status ≡ OrderStatus.requested)
          × ((on_update (on_request e o) (on_reset o)).status ≡ OrderStatus.requested))
unfolding on_update on_reassignment on_clear on_revoke on_reset on_request
concurrent_ops id e o h (inl c) = inl (c, ground arith, ground arith, ground arith, ground arith)
concurrent_ops id e o h (inr c) = inr (c, ground arith, ground arith)
