-- ===== src/Network/Peers/Lone.antt =====
-- libs/network, Peers::MonitorWatchdogTimers and MonitorFault on a node that hears nothing from the
-- others.
use cpp_elevator.Base.{
  ℕ, suc, ltb, keep_if, keep_cases, ◌<◌, ◌≡◌, ◌≢◌, ap, ◌∙◌, arith, true, false, not, ◌&&◌, ◌||◌,
}
use cpp_elevator.Base.Outcome.{Ensures, done-Ensures, Ensures->>=}
use cpp_elevator.Common.{k_elevs, OrderStatus, eq_status}
use cpp_elevator.Common.Timer.{Timer, expired}
use cpp_elevator.OrderSync.Order.{Order}
use cpp_elevator.Elevator.State.{ElevatorState, on_watchdog_timeout}
use cpp_elevator.Network.Hall.{Book, reassign_hall_orders}
use cpp_elevator.Network.Hall.Alone.{IsAlone}
use cpp_elevator.Network.Hall.Requested.{Holds, reassign_hall_orders-Holds}
use cpp_elevator.Network.Peers.{
  Peers, reassign_orders, watchdog_timeout, watchdog_round, fault_round,
}

-- Node `n`, in a state `s`, behind the first `j` rounds of the watchdog monitor: the others among them
-- are inactive, and the rest are inactive or late. The hall order at `f` and `b` is `o`.
pub record Lone (now n : ℕ) (s : ElevatorState) (f b : ℕ) (o : Order) (t : Timer) (j : ℕ)
    (p : Peers) : Type 0 where
  pub own_id : p.node_id ≡ n
  pub own : p.all_states n ≡ s
  pub unwatched : (p.watchdog_timers n).active ≡ false
  pub silent :
      (e : ℕ)
      → e < k_elevs
      → e ≢ n
      → (p.all_states e).active && (ltb e j || not (expired now (p.watchdog_timers e))) ≡ false
  pub holds : Holds f b o t p.book

module _ {now n : ℕ} {s : ElevatorState} {f b : ℕ} {o : Order} {t : Timer} where
  pub Lone-IsAlone :
      (p : Peers) → s.active ≡ true → Lone now n s f b o t k_elevs p → IsAlone n p.all_states
  Lone-IsAlone p act h = (
    ap (λ (x : ElevatorState). x.active) h.own ∙ act,
    λ e he other. let q = h.silent e he other in ground arith,
  )

  pub with_book-Lone :
      (j : ℕ) (p : Peers) (k : Book) (o' : Order) (t' : Timer)
      → Lone now n s f b o t j p
      → Holds f b o' t' k
      → Lone now n s f b o' t' j (record p { book = k })
  with_book-Lone j p k o' t' h hk = record {
    own_id = h.own_id;
    own = h.own;
    unwatched = h.unwatched;
    silent = h.silent;
    holds = hk;
  }

module _ (now n : ℕ) (s : ElevatorState) (f b : ℕ) (o : Order) (t : Timer)
    (asked : eq_status o.status OrderStatus.requested ≡ true) where
  reassign_orders-Lone :
      (j e : ℕ) (p : Peers)
      → Lone now n s f b o t j p
      → Ensures (Lone now n s f b o t j) (reassign_orders now e p)
  unfolding reassign_orders
  reassign_orders-Lone j e p h =
      Ensures->>= {P = Holds f b o t}
        (reassign_hall_orders p.node_id now p.num_elevs p.all_states e p.book) _
        (reassign_hall_orders-Holds f b o t p.node_id now p.num_elevs p.all_states e p.book
          (ground arith) h.holds)
        (λ k hk. done-Ensures (Lone now n s f b o t j) _ (with_book-Lone j p k o t h hk))

  expired-other :
      (j : ℕ) (p : Peers)
      → Lone now n s f b o t j p
      → expired now (p.watchdog_timers j) ≡ true
      → n ≢ j
  unfolding expired
  expired-other j p h late q =
      let u : (p.watchdog_timers j).active ≡ false = rw q at h.unwatched in ground arith

  watchdog_timeout-Lone :
      (j : ℕ) (p : Peers)
      → Lone now n s f b o t j p
      → n ≢ j
      → Lone now n s f b o t (suc j) (watchdog_timeout j p)
  unfolding on_watchdog_timeout
  watchdog_timeout-Lone j p h ne = record {
    own_id = h.own_id;
    own = let q = h.own in ground arith;
    unwatched = let q = h.unwatched in ground arith;
    silent = λ e he other. let q = h.silent e he other in ground arith;
    holds = h.holds;
  }

  pub watchdog_round-Lone :
      (j : ℕ) (p : Peers)
      → Lone now n s f b o t j p
      → Ensures (Lone now n s f b o t (suc j)) (watchdog_round now j p)
  unfolding watchdog_round
  watchdog_round-Lone j p h =
      keep_cases (Ensures (Lone now n s f b o t (suc j))) (expired now (p.watchdog_timers j)) _ _
        (λ late.
          reassign_orders-Lone (suc j) j (watchdog_timeout j p)
            (watchdog_timeout-Lone j p h (expired-other j p h late)))
        (λ early. done-Ensures (Lone now n s f b o t (suc j)) p (record {
          own_id = h.own_id;
          own = h.own;
          unwatched = h.unwatched;
          silent = λ e he other. let q = h.silent e he other in ground arith;
          holds = h.holds;
        }))

  pub fault_round-Lone :
      (j e : ℕ) (p : Peers)
      → Lone now n s f b o t j p
      → Ensures (Lone now n s f b o t j) (fault_round now e p)
  unfolding fault_round
  fault_round-Lone j e p h =
      let stays = done-Ensures (Lone now n s f b o t j) p h in
      keep_if (Ensures (Lone now n s f b o t j)) (not (p.all_states e).active) _ _ stays (
        keep_if (Ensures (Lone now n s f b o t j)) (p.all_states e).fault _ _
          (reassign_orders-Lone j e p h) stays)
