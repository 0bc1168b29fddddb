-- ===== src/Network/Peers/Handover.antt =====
-- libs/network, Peers::MonitorWatchdogTimers: the orders of an elevator that was lost.
use cpp_elevator.Base.{ℕ, ◌<◌, ◌≡◌, ◌≢◌, refl, arith, true, false}
use cpp_elevator.Base.Int.{pos}
use cpp_elevator.Base.Outcome.{Returns, Ensures, done-Ensures, Ensures->>=, Returns-Ensures}
use cpp_elevator.Common.{k_elevs, k_floors}
use cpp_elevator.Common.Timer.{expired}
use cpp_elevator.OrderSync.Table.{assigned_to}
use cpp_elevator.Elevator.State.{on_watchdog_timeout, usable}
use cpp_elevator.Network.Costs.Bounds.{cost_of-le}
use cpp_elevator.Network.Hall.{Book, reassign_hall_orders}
use cpp_elevator.Network.Hall.Handover.{HandedOver, Replaceable, reassign_hall_orders-HandedOver}
use cpp_elevator.Network.Peers.{Peers, reassign_orders, watchdog_timeout, watchdog_round}
use cpp_elevator.Network.Peers.Ok.{PeersOk, set_at_other}
use cpp_elevator.Network.Peers.Invariant.{watchdog_round-Returns, expired-other}

timeout-Replaceable :
    {i : ℕ} (e : ℕ) (p : Peers)
    → PeersOk i p
    → e < k_elevs
    → p.node_id ≢ e
    → p.num_elevs ≢ 1
    → Replaceable p.num_elevs (watchdog_timeout e p).all_states e
unfolding on_watchdog_timeout usable
timeout-Replaceable e p ok he ne several =
    let same = set_at_other e (on_watchdog_timeout (p.all_states e)) p.all_states p.node_id ne in
    record {
      in_range = he;
      not_alone = several;
      out_of_use = ground arith;
      other = p.node_id;
      other_in_range = ok.base.in_range;
      other_than = ne;
      other_active = rw same ok.active;
      other_cost = λ f hf.
          rw same
            (cost_of-le (pos f) (p.all_states p.node_id) (omega arith) (omega arith)
              ok.own.floor_from ok.own.floor_below).1;
    }

-- Elevator `e` is inactive in `q`, and each hall order that was confirmed for it in `p` is now that of
-- an active one.
pub record IsReplaced (e : ℕ) (p q : Peers) : Type 0 where
  pub inactive : (q.all_states e).active ≡ false
  pub orders :
      (f b : ℕ)
      → f < k_floors
      → b < 2
      → assigned_to (pos e) (p.book.orders f b) ≡ true
      → HandedOver q.all_states e (p.book.orders f b) (q.book.orders f b)

timeout-IsReplaced :
    (now e : ℕ) (p : Peers)
    → Replaceable p.num_elevs (watchdog_timeout e p).all_states e
    → Ensures (IsReplaced e p) (reassign_orders now e (watchdog_timeout e p))
unfolding reassign_orders on_watchdog_timeout
timeout-IsReplaced now e p r =
    let p' = watchdog_timeout e p in
    let Given : Book → Type 0 = λ k.
      (f b : ℕ)
      → f < k_floors
      → b < 2
      → assigned_to (pos e) (p.book.orders f b) ≡ true
      → HandedOver p'.all_states e (p.book.orders f b) (k.orders f b) in
    Ensures->>= {P = Given} (reassign_hall_orders p.node_id now p.num_elevs p'.all_states e p.book)
      _
      (λ k q f b hf hb given.
        reassign_hall_orders-HandedOver p.node_id now p.num_elevs p'.all_states e r f b hf hb
          (p.book.orders f b) given p.book refl k q)
      (λ k h.
        done-Ensures (IsReplaced e p) (record p' { book = k })
          (record { inactive = ground arith; orders = h }))

-- When the watchdog of an elevator runs out, the node counts it as inactive and hands each hall order
-- that is confirmed for it over to another elevator, an active one, unless the node has counted only
-- one elevator; nothing aborts, and the invariant holds before and after.
pub watchdog_round-IsReplaced :
    {i : ℕ} (now e : ℕ) (p : Peers)
    → PeersOk i p
    → e < k_elevs
    → expired now (p.watchdog_timers e) ≡ true
    → p.num_elevs ≢ 1
    → Returns (λ q. PeersOk i q × IsReplaced e p q) (watchdog_round now e p)
unfolding watchdog_round
watchdog_round-IsReplaced now e p ok he late several =
    let r = timeout-Replaceable e p ok he (expired-other now e p ok late) several in
    Returns-Ensures (watchdog_round now e p) (watchdog_round-Returns now e p ok)
      (rw late (timeout-IsReplaced now e p r))
