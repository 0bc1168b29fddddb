-- ===== src/Network/Peers/Invariant.antt =====
-- libs/network, Peers::Step: that it returns, and what holds after it.
use cpp_elevator.Base.{ℕ, keep_if, keep_cases, ◌<◌, ◌≡◌, ◌≢◌, refl, arith, true, false, not}
use cpp_elevator.Base.Int.{pos}
use cpp_elevator.Base.Outcome.{done, ◌>>=◌, Returns, Returns->>=, for_range!-Returns}
use cpp_elevator.Common.{k_elevs, k_floors}
use cpp_elevator.Common.Timer.{expired}
use cpp_elevator.Network.Costs.Bounds.{cost_of-le}
use cpp_elevator.Network.Hall.{
  observe_orders, confirm_hall_orders, reset_hall_orders, monitor_hall_order_timers,
  reassign_hall_orders, control_hall_order_timers,
}
use cpp_elevator.Network.Hall.Sound.{
  AllSound, observe_orders-AllSound, confirm_hall_orders-AllSound, reset_hall_orders-AllSound,
  control-AllSound,
}
use cpp_elevator.Network.Hall.Reassign.{
  SomeActive, monitor_hall_order_timers-Returns, reassign_hall_orders-Returns,
}
use cpp_elevator.Network.Hall.Loops.{is_timed, control-is_timed}
use cpp_elevator.Network.Peers.Ok.{PeersOk, PeersOk-of, with_book-PeersOk, set_at_other}
use cpp_elevator.Network.Peers.{
  Peers, update_num_elevs, reassign_orders, watchdog_timeout, watchdog_round,
  monitor_watchdog_timers, fault_round, monitor_fault, with_book, step,
}

-- The timers of the hall orders run exactly for those confirmed and assigned to this node.
abbrev pub Timed : Peers → Type 0
Timed p =
    (f b : ℕ)
    → f < k_floors
    → b < 2
    → (p.book.order_timers f b).active ≡ is_timed p.node_id (p.book.orders f b)

-- A step keeps what each of its loops keeps, and ends with what the last one leads to.
pub step-keep :
    (J K : Peers → Type 0) (now : ℕ) (p : Peers)
    → Returns J (monitor_watchdog_timers now (update_num_elevs p))
    → ((q : Peers) → J q → Returns J (monitor_fault now q))
    → ((q : Peers) → J q → J (with_book (observe_orders q.node_id) q))
    → ((q : Peers) → J q → J (with_book (confirm_hall_orders q.node_id now q.all_states) q))
    → ((q : Peers) → J q → J (with_book reset_hall_orders q))
    → ((q : Peers)
        → J q
        → Returns J (
            monitor_hall_order_timers q.node_id now q.num_elevs q.all_states q.book
            >>= (λ k. done (record q { book = k }))))
    → ((q : Peers) → J q → K (with_book (control_hall_order_timers q.node_id now q.all_states) q))
    → Returns K (step now p)
unfolding step
step-keep J K now p watch fault observe confirm reset monitor control =
    let r₂ = Returns->>= {P = J} _ _ watch fault in
    let r₃ = Returns->>= {P = J} _ _ r₂ (λ q h. (_, refl, observe q h)) in
    let r₄ = Returns->>= {P = J} _ _ r₃ (λ q h. (_, refl, confirm q h)) in
    let r₅ = Returns->>= {P = J} _ _ r₄ (λ q h. (_, refl, reset q h)) in
    let r₆ = Returns->>= {P = J} _ _ r₅ monitor in
    Returns->>= {P = J} _ _ r₆ (λ q h. (_, refl, control q h))

module _ {i : ℕ} where
  pub some_active : (p : Peers) → PeersOk i p → SomeActive p.all_states
  some_active p ok = (
    p.node_id,
    ok.base.in_range,
    ok.active,
    λ f hf.
        (cost_of-le (pos f) (p.all_states p.node_id) (omega arith) (omega arith) ok.own.floor_from
          ok.own.floor_below).1,
  )

  reassign_orders-Returns :
      (now e : ℕ) (p : Peers) → PeersOk i p → Returns (PeersOk i) (reassign_orders now e p)
  unfolding reassign_orders
  reassign_orders-Returns now e p ok =
      Returns->>= {P = λ k. AllSound k.orders}
        (reassign_hall_orders p.node_id now p.num_elevs p.all_states e p.book) _
        (reassign_hall_orders-Returns p.node_id now p.num_elevs p.all_states e p.book
          (some_active p ok) ok.base.sound)
        (λ k h. (_, refl, with_book-PeersOk p k ok h))

  pub watchdog_timeout-PeersOk :
      (e : ℕ) (p : Peers) → p.node_id ≢ e → PeersOk i p → PeersOk i (watchdog_timeout e p)
  watchdog_timeout-PeersOk e p ne ok =
      let s = set_at_other e _ p.all_states p.node_id ne in
      let t = set_at_other e _ p.watchdog_timers p.node_id ne in
      PeersOk-of p (watchdog_timeout e p) ok refl s t ok.base.sound ok.base.cabs

  pub expired-other :
      (now e : ℕ) (p : Peers)
      → PeersOk i p
      → expired now (p.watchdog_timers e) ≡ true
      → p.node_id ≢ e
  unfolding expired
  expired-other now e p ok h q =
      let u : (p.watchdog_timers e).active ≡ false = rw q at ok.base.unwatched in ground arith

  pub watchdog_round-Returns :
      (now e : ℕ) (p : Peers) → PeersOk i p → Returns (PeersOk i) (watchdog_round now e p)
  unfolding watchdog_round
  watchdog_round-Returns now e p ok =
      keep_cases (Returns (PeersOk i)) (expired now (p.watchdog_timers e)) _ _
        (λ h.
          reassign_orders-Returns now e (watchdog_timeout e p)
            (watchdog_timeout-PeersOk e p (expired-other now e p ok h) ok))
        (λ _. (p, refl, ok))

  pub fault_round-Returns :
      (now e : ℕ) (p : Peers) → PeersOk i p → Returns (PeersOk i) (fault_round now e p)
  unfolding fault_round
  fault_round-Returns now e p ok =
      keep_if (Returns (PeersOk i)) (not (p.all_states e).active) _ _ (p, refl, ok)
        (keep_if (Returns (PeersOk i)) (p.all_states e).fault _ _
          (reassign_orders-Returns now e p ok) (p, refl, ok))

  pub update_num_elevs-PeersOk : (p : Peers) → PeersOk i p → PeersOk i (update_num_elevs p)
  unfolding update_num_elevs
  update_num_elevs-PeersOk p ok =
      PeersOk-of p (update_num_elevs p) ok refl refl refl ok.base.sound ok.base.cabs

  pub monitor_watchdog_timers-Returns :
      (now : ℕ) (p : Peers) → PeersOk i p → Returns (PeersOk i) (monitor_watchdog_timers now p)
  unfolding monitor_watchdog_timers
  monitor_watchdog_timers-Returns now =
      for_range!-Returns (PeersOk i) (watchdog_round now) k_elevs
        (λ e q _. watchdog_round-Returns now e q)

  pub monitor_fault-Returns :
      (now : ℕ) (p : Peers) → PeersOk i p → Returns (PeersOk i) (monitor_fault now p)
  unfolding monitor_fault
  monitor_fault-Returns now =
      for_range!-Returns (PeersOk i) (fault_round now) k_elevs
        (λ e q _. fault_round-Returns now e q)

  pub observe-PeersOk :
      (p : Peers) → PeersOk i p → PeersOk i (with_book (observe_orders p.node_id) p)
  observe-PeersOk p ok =
      with_book-PeersOk p _ ok
        (observe_orders-AllSound p.node_id p.book ok.base.in_range ok.base.sound)

  pub confirm-PeersOk :
      (now : ℕ) (p : Peers)
      → PeersOk i p
      → PeersOk i (with_book (confirm_hall_orders p.node_id now p.all_states) p)
  confirm-PeersOk now p ok =
      with_book-PeersOk p _ ok
        (confirm_hall_orders-AllSound p.node_id now p.all_states p.book ok.base.sound)

  pub reset-PeersOk : (p : Peers) → PeersOk i p → PeersOk i (with_book reset_hall_orders p)
  reset-PeersOk p ok = with_book-PeersOk p _ ok (reset_hall_orders-AllSound p.book ok.base.sound)

  pub monitor_timers-Returns :
      (now : ℕ) (p : Peers)
      → PeersOk i p
      → Returns (PeersOk i) (
          monitor_hall_order_timers p.node_id now p.num_elevs p.all_states p.book
          >>= (λ k. done (record p { book = k })))
  monitor_timers-Returns now p ok =
      Returns->>= {P = λ k. AllSound k.orders}
        (monitor_hall_order_timers p.node_id now p.num_elevs p.all_states p.book) _
        (monitor_hall_order_timers-Returns p.node_id now p.num_elevs p.all_states p.book
          (some_active p ok) ok.base.sound)
        (λ k h. (_, refl, with_book-PeersOk p k ok h))

  pub control-Timed :
      (now : ℕ) (p : Peers)
      → PeersOk i p
      → let q = with_book (control_hall_order_timers p.node_id now p.all_states) p in
        PeersOk i q × Timed q
  control-Timed now p ok = (
    with_book-PeersOk p _ ok (control-AllSound p.node_id now p.all_states p.book ok.base.sound),
    λ f b hf hb. (control-is_timed p.node_id now p.all_states p.book f b hf hb).0,
  )

  -- A step returns: no assertion fails, and `Abort` is not reached. After it the node is again an
  -- active elevator of the building whose orders are sound, and exactly the hall orders confirmed
  -- for this node are timed. This needs that the node is such an elevator before.
  pub step-Returns :
      (now : ℕ) (p : Peers) → PeersOk i p → Returns (λ q. PeersOk i q × Timed q) (step now p)
  step-Returns now p ok =
      step-keep (PeersOk i) (λ q. PeersOk i q × Timed q) now p
        (monitor_watchdog_timers-Returns now (update_num_elevs p) (update_num_elevs-PeersOk p ok))
        (monitor_fault-Returns now) observe-PeersOk (confirm-PeersOk now) reset-PeersOk
        (monitor_timers-Returns now) (control-Timed now)
