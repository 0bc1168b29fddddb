-- ===== src/Network/Peers/Gone.antt =====
-- libs/network, Peers::MonitorWatchdogTimers: an elevator whose watchdog has run out.
use cpp_elevator.Base.{
  ℕ, suc, keep_if, keep_cases, ◌<◌, ◌≡◌, ◌≢◌, refl, arith, true, false, ◌==◌, ◌≤◌, ltb, Bool-cases,
  inl, inr,
}
use cpp_elevator.Base.Int.{pos}
use cpp_elevator.Base.Outcome.{
  Returns, Returns->>=, Returns-map, Returns-both, Returns-Ensures, Ensures, done-Ensures,
  Ensures->>=, for_range!-Returns_at,
}
use cpp_elevator.Common.{k_elevs}
use cpp_elevator.Common.Timer.{expired}
use cpp_elevator.OrderSync.Order.{on_reassignment}
use cpp_elevator.OrderSync.Table.{assigned_to}
use cpp_elevator.Elevator.State.{on_watchdog_timeout}
use cpp_elevator.Network.Hall.{reassign_hall_orders}
use cpp_elevator.Network.Hall.Requested.{Holds, reassign_hall_orders-Holds}
use cpp_elevator.Network.Hall.Sound.{AllSound}
use cpp_elevator.Network.Hall.Without.{Without}
use cpp_elevator.Network.Hall.Inactive.{reassign_hall_orders-Without}
use cpp_elevator.Network.Peers.Ok.{PeersOk}
use cpp_elevator.Network.Peers.Invariant.{
  some_active, watchdog_timeout-PeersOk, watchdog_round-Returns, expired-other,
}
use cpp_elevator.Network.Peers.Handover.{watchdog_round-IsReplaced}
use cpp_elevator.Network.Peers.{
  Peers, reassign_orders, watchdog_timeout, watchdog_round, monitor_watchdog_timers,
}

-- The node counts elevator `e` as inactive, and no hall order is confirmed for it.
pub record IsGone (e : ℕ) (p : Peers) : Type 0 where
  pub inactive : (p.all_states e).active ≡ false
  pub orders : Without e p.book.orders

-- The watchdog of elevator `e` has run out, and the node has not counted itself alone.
pub record IsLate (now e : ℕ) (p : Peers) : Type 0 where
  pub late : expired now (p.watchdog_timers e) ≡ true
  pub several : p.num_elevs ≢ 1

module _ (now e : ℕ) where
  pub reassign_orders-IsGone :
      {i : ℕ} (other : ℕ) (p : Peers)
      → PeersOk i p
      → IsGone e p
      → Returns (IsGone e) (reassign_orders now other p)
  unfolding reassign_orders
  reassign_orders-IsGone other p ok gone =
      Returns->>= {P = λ k. AllSound k.orders × Without e k.orders}
        (reassign_hall_orders p.node_id now p.num_elevs p.all_states other p.book) _
        (reassign_hall_orders-Without e p.all_states gone.inactive (some_active p ok) p.node_id now
          p.num_elevs other p.book ok.base.sound gone.orders)
        (λ k h. (_, refl, record { inactive = gone.inactive; orders = h.1 }))

  reassign_orders-IsLate :
      (other : ℕ) (p : Peers)
      → IsLate now e p
      → Ensures (IsLate now e) (reassign_orders now other p)
  unfolding reassign_orders
  reassign_orders-IsLate other p l =
      Ensures->>= {0, 0, 0} {P = λ _. Unit}
        (reassign_hall_orders p.node_id now p.num_elevs p.all_states other p.book) _ (λ _ _. tt)
        (λ k _. done-Ensures (IsLate now e) _ (record { late = l.late; several = l.several }))

  timeout-inactive :
      (other : ℕ) (p : Peers)
      → (p.all_states e).active ≡ false
      → ((watchdog_timeout other p).all_states e).active ≡ false
  unfolding on_watchdog_timeout
  timeout-inactive other p h = ground arith

  timeout-IsLate :
      (other : ℕ) (p : Peers) → e ≢ other → IsLate now e p → IsLate now e (watchdog_timeout other p)
  timeout-IsLate other p ne l =
      let late = l.late in record { late = ground arith; several = l.several }

  watchdog_round-IsGone :
      {i : ℕ} (other : ℕ) (p : Peers)
      → PeersOk i p
      → IsGone e p
      → Returns (IsGone e) (watchdog_round now other p)
  unfolding watchdog_round
  watchdog_round-IsGone other p ok gone =
      keep_cases (Returns (IsGone e)) (expired now (p.watchdog_timers other)) _ _
        (λ h.
          reassign_orders-IsGone other (watchdog_timeout other p)
            (watchdog_timeout-PeersOk other p (expired-other now other p ok h) ok)
            (record { inactive = timeout-inactive other p gone.inactive; orders = gone.orders }))
        (λ _. (p, refl, gone))

  watchdog_round-IsLate :
      (other : ℕ) (p : Peers)
      → e ≢ other
      → IsLate now e p
      → Ensures (IsLate now e) (watchdog_round now other p)
  unfolding watchdog_round
  watchdog_round-IsLate other p ne l =
      keep_if (Ensures (IsLate now e)) (expired now (p.watchdog_timers other)) _ _
        (reassign_orders-IsLate other (watchdog_timeout other p) (timeout-IsLate other p ne l))
        (done-Ensures (IsLate now e) p l)

  -- The orders of others stay as they are.
  untouched :
      (p : Peers) (f b : ℕ)
      → assigned_to (pos e) (p.book.orders f b) ≡ false
      → Ensures (λ q. assigned_to (pos e) (q.book.orders f b) ≡ false) (watchdog_round now e p)
  unfolding watchdog_round reassign_orders
  untouched p f b off =
      let Off : Peers → Type 0 = λ q. assigned_to (pos e) (q.book.orders f b) ≡ false in
      let p' = watchdog_timeout e p in
      keep_if (Ensures Off) (expired now (p.watchdog_timers e)) _ _
        (Ensures->>= {P = Holds f b (p.book.orders f b) (p.book.order_timers f b)}
          (reassign_hall_orders p'.node_id now p'.num_elevs p'.all_states e p'.book) _
          (reassign_hall_orders-Holds f b (p.book.orders f b) (p.book.order_timers f b) p'.node_id
            now p'.num_elevs p'.all_states e p'.book off (refl, refl))
          (λ k h. done-Ensures Off _ (rw (h.0) off)))
        (done-Ensures Off p off)

  watchdog_round-leaves :
      {i : ℕ} (p : Peers)
      → PeersOk i p
      → e < k_elevs
      → IsLate now e p
      → Returns (IsGone e) (watchdog_round now e p)
  unfolding on_reassignment
  watchdog_round-leaves p ok he l =
      let (q, eq, (_, replaced)) = watchdog_round-IsReplaced now e p ok he l.late l.several in
      (
        q,
        eq,
        record {
          inactive = replaced.inactive;
          orders = λ f b hf hb. elim (Bool-cases (assigned_to (pos e) (p.book.orders f b))) [
            | inl on ↦ let (a, o, _, ne, _) = replaced.orders f b hf hb on in rw o (ground arith)
            | inr off ↦ untouched p f b off q eq
          ];
        },
      )

  -- Before round `j` of MonitorWatchdogTimers.
  abbrev Before : ℕ → Peers → Type 0
  Before j p = (j ≤ e → IsLate now e p) × (e < j → IsGone e p)

  watchdog_round-Before :
      {i : ℕ} (j : ℕ) (p : Peers)
      → e < k_elevs
      → PeersOk i p
      → Before j p
      → Returns (Before (suc j)) (watchdog_round now j p)
  watchdog_round-Before {i = i} j p he ok (late, gone) = elim (Bool-cases (ltb j e)) [
    | inl earlier ↦
        Returns-map _ (λ q h. ((λ _. h.1), λ lt. absurd (ground arith)))
          (Returns-Ensures (watchdog_round now j p) (watchdog_round-Returns now j p ok)
            (watchdog_round-IsLate j p (λ q. ground arith) (late (ground arith))))
    | inr later ↦ elim (Bool-cases (j == e)) [
      | inl now_it ↦
          let same : j ≡ e = ground arith in
          Returns-map _ (λ q h. ((λ lt. absurd (omega arith)), λ _. h))
            (rw same (watchdog_round-leaves p ok he (late (omega arith))))
      | inr past ↦
          Returns-map _ (λ q h. ((λ lt. absurd (ground arith)), λ _. h))
            (watchdog_round-IsGone j p ok (gone (ground arith)))
    ]
  ]

  pub monitor_watchdog_timers-IsGone :
      {i : ℕ} (p : Peers)
      → e < k_elevs
      → PeersOk i p
      → IsLate now e p
      → Returns (λ q. PeersOk i q × IsGone e q) (monitor_watchdog_timers now p)
  unfolding monitor_watchdog_timers
  monitor_watchdog_timers-IsGone {i = i} p he ok l =
      Returns-map _ (λ q h. (h.0, h.1.1 he))
        (for_range!-Returns_at (λ j q. PeersOk i q × Before j q) (watchdog_round now) k_elevs
          (λ j q _ h.
            Returns-both (watchdog_round now j q) (watchdog_round-Returns now j q h.0)
              (watchdog_round-Before j q he h.0 h.1))
          p (ok, ((λ _. l), λ lt. absurd (omega arith))))
