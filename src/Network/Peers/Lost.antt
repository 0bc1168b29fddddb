-- ===== src/Network/Peers/Lost.antt =====
-- libs/network, Peers::Step: an elevator whose watchdog has run out is left without hall orders.
use cpp_elevator.Base.{ℕ, keep_if, ◌<◌, ◌≡◌, ◌≢◌, refl, arith, true, not}
use cpp_elevator.Base.Loops.{for_range}
use cpp_elevator.Base.Outcome.{done, ◌>>=◌, Returns, Returns->>=, Returns-both, for_range!-Returns}
use cpp_elevator.Common.{k_elevs}
use cpp_elevator.Common.Timer.{expired}
use cpp_elevator.Elevator.State.{ElevatorState}
use cpp_elevator.Network.Hall.{Book, monitor_hall_order_timers}
use cpp_elevator.Network.Hall.Sound.{AllSound}
use cpp_elevator.Network.Hall.Without.{
  Without, observe_orders-Without, reset_hall_orders-Without, control-Without,
}
use cpp_elevator.Network.Hall.Inactive.{
  confirm_hall_orders-Without, monitor_hall_order_timers-Without,
}
use cpp_elevator.Network.Peers.Ok.{PeersOk, with_book-PeersOk}
use cpp_elevator.Network.Peers.Invariant.{
  some_active, observe-PeersOk, confirm-PeersOk, reset-PeersOk, control-Timed, step-keep,
  fault_round-Returns, update_num_elevs-PeersOk, expired-other,
}
use cpp_elevator.Network.Peers.Gone.{
  IsGone, IsLate, reassign_orders-IsGone, monitor_watchdog_timers-IsGone,
}
use cpp_elevator.Network.Peers.{
  Peers, count_active, update_num_elevs, fault_round, monitor_fault, step,
}

module _ (now e : ℕ) where
  fault_round-IsGone :
      {i : ℕ} (other : ℕ) (p : Peers)
      → PeersOk i p
      → IsGone e p
      → Returns (IsGone e) (fault_round now other p)
  unfolding fault_round
  fault_round-IsGone other p ok gone =
      keep_if (Returns (IsGone e)) (not (p.all_states other).active) _ _ (p, refl, gone)
        (keep_if (Returns (IsGone e)) (p.all_states other).fault _ _
          (reassign_orders-IsGone now e other p ok gone) (p, refl, gone))

  -- What the loops behind MonitorWatchdogTimers keep.
  abbrev Settled : ℕ → Peers → Type 0
  Settled i p = PeersOk i p × IsGone e p

  monitor_fault-Settled :
      {i : ℕ} (p : Peers) → Settled i p → Returns (Settled i) (monitor_fault now p)
  unfolding monitor_fault
  monitor_fault-Settled {i = i} =
      for_range!-Returns (Settled i) (fault_round now) k_elevs (λ j q _ h.
        Returns-both (fault_round now j q) (fault_round-Returns now j q h.0)
          (fault_round-IsGone j q h.0 h.1))

  monitor_timers-Settled :
      {i : ℕ} (p : Peers)
      → Settled i p
      → Returns (Settled i) (
          monitor_hall_order_timers p.node_id now p.num_elevs p.all_states p.book
          >>= (λ k. done (record p { book = k })))
  monitor_timers-Settled p (ok, gone) =
      Returns->>= {P = λ k. AllSound k.orders × Without e k.orders}
        (monitor_hall_order_timers p.node_id now p.num_elevs p.all_states p.book) _
        (monitor_hall_order_timers-Without e p.all_states gone.inactive (some_active p ok) p.node_id
          now p.num_elevs p.book ok.base.sound gone.orders)
        (λ k h. (
          _,
          refl,
          (with_book-PeersOk p k ok h.0, record { inactive = gone.inactive; orders = h.1 }),
        ))

  with_book-IsGone :
      (p : Peers) (k : Book) → IsGone e p → Without e k.orders → IsGone e (record p { book = k })
  with_book-IsGone p k gone h = record { inactive = gone.inactive; orders = h }

  step-Settled :
      {i : ℕ} (p : Peers)
      → e < k_elevs
      → PeersOk i p
      → IsLate now e (update_num_elevs p)
      → Returns (Settled i) (step now p)
  step-Settled {i = i} p he ok l =
      step-keep (Settled i) (Settled i) now p
        (monitor_watchdog_timers-IsGone now e (update_num_elevs p) he
          (update_num_elevs-PeersOk p ok) l)
        monitor_fault-Settled
        (λ q h. (
          observe-PeersOk q h.0,
          with_book-IsGone q _ h.1 (observe_orders-Without e q.node_id q.book h.1.orders),
        ))
        (λ q h. (
          confirm-PeersOk now q h.0,
          with_book-IsGone q _ h.1 (
              confirm_hall_orders-Without e q.all_states h.1.inactive (some_active q h.0) q.node_id
                now q.book h.1.orders),
        ))
        (λ q h. (
          reset-PeersOk q h.0,
          with_book-IsGone q _ h.1 (reset_hall_orders-Without e q.book h.1.orders),
        ))
        monitor_timers-Settled
        (λ q h. (
          (control-Timed now q h.0).0,
          with_book-IsGone q _ h.1 (control-Without e q.node_id now q.all_states q.book h.1.orders),
        ))

-- With two active elevators a node does not count itself alone.
two_active :
    (states : ℕ → ElevatorState) (a b : ℕ)
    → a < k_elevs
    → b < k_elevs
    → a ≢ b
    → (states a).active ≡ true
    → (states b).active ≡ true
    → count_active states ≢ 1
unfolding count_active for_range
two_active states a b ha hb ne on on' one = ground arith

-- When the watchdog of an active elevator has run out, a step of Peers leaves it inactive, with no hall
-- order confirmed for it; the step returns without a failed assertion or abort, and the invariant of
-- Peers holds before and after.
pub step-IsGone :
    {i : ℕ} (now e : ℕ) (p : Peers)
    → PeersOk i p
    → e < k_elevs
    → (p.all_states e).active ≡ true
    → expired now (p.watchdog_timers e) ≡ true
    → Returns (λ q. PeersOk i q × IsGone e q) (step now p)
unfolding update_num_elevs
step-IsGone now e p ok he active late = step-Settled now e p he ok (record {
  late = late;
  several =
      two_active p.all_states p.node_id e ok.base.in_range he (expired-other now e p ok late)
        ok.active active;
})
