-- ===== src/Network/Peers/Alone.antt =====
-- libs/network, Peers::Step on a node that hears nothing from the others.
use cpp_elevator.Base.{ℕ, ◌<◌, ◌≡◌, ◌≢◌, refl, ap, ◌∙◌, arith, true, false, not, ◌&&◌}
use cpp_elevator.Base.Int.{pos}
use cpp_elevator.Base.Outcome.{
  Outcome, done, ◌>>=◌, Returns, Ensures, done-Ensures, Ensures->>=, for_range!-Ensures,
  Returns-Ensures,
}
use cpp_elevator.Common.{k_elevs, k_floors, OrderStatus, eq_status, status_code-injective}
use cpp_elevator.Common.Timer.{Timer, expired}
use cpp_elevator.OrderSync.Order.{Order, observed_by, on_confirm}
use cpp_elevator.Elevator.State.{ElevatorState}
use cpp_elevator.Network.Costs.{int_max, cost_of}
use cpp_elevator.Network.Costs.Bounds.{cost_of-le}
use cpp_elevator.Network.Hall.{
  Book, observe_orders, confirm_hall_orders, reset_hall_orders, monitor_hall_order_timers,
  control_hall_order_timers,
}
use cpp_elevator.Network.Hall.Loops.{control-is_timed}
use cpp_elevator.Network.Hall.Alone.{confirm_hall_orders-IsAlone, confirm_hall_orders-timer}
use cpp_elevator.Network.Hall.Requested.{
  Holds, seen, seen-status, observe_orders-requested, reset_hall_orders-order,
  reset_hall_orders-timer, monitor_hall_order_timers-Holds, observed_by-seen,
}
use cpp_elevator.Network.Peers.Lone.{
  Lone, Lone-IsAlone, with_book-Lone, watchdog_round-Lone, fault_round-Lone,
}
use cpp_elevator.Network.Peers.Ok.{PeersOk}
use cpp_elevator.Network.Peers.Invariant.{Timed, step-Returns}
use cpp_elevator.Network.Peers.{
  Peers, update_num_elevs, watchdog_round, monitor_watchdog_timers, fault_round, monitor_fault,
  with_book, step,
}

module _ (now n : ℕ) (s : ElevatorState) (f b : ℕ) (o : Order) (t : Timer)
    (asked : eq_status o.status OrderStatus.requested ≡ true) where
  -- The order after the loops that observe and confirm.
  abbrev taken : Order
  taken = on_confirm (pos n) (seen n o)

  taken-confirmed : eq_status taken.status OrderStatus.confirmed ≡ true
  unfolding on_confirm
  taken-confirmed =
      let q : eq_status (seen n o).status OrderStatus.requested ≡ true =
        rw (seen-status n o) asked in
      ground arith

  observe-Lone :
      (p : Peers)
      → f < k_floors
      → b < 2
      → Lone now n s f b o t k_elevs p
      → (t' : Timer) × Lone now n s f b
          (seen n o)
          t'
          k_elevs
          (with_book (observe_orders p.node_id) p)
  observe-Lone p hf hb h =
      let k = observe_orders p.node_id p.book in
      let seen_order : k.orders f b ≡ seen n o =
        observe_orders-requested p.node_id p.book f b hf hb (rw h.holds.0 asked)
        ∙ rw (h.own_id, h.holds.0) refl in
      (
        k.order_timers f b,
        with_book-Lone k_elevs p k (seen n o) (k.order_timers f b) h (seen_order, refl),
      )

  confirm-Lone :
      (p : Peers) (t' : Timer)
      → f < k_floors
      → b < 2
      → n < k_elevs
      → s.active ≡ true
      → cost_of (pos f) s < int_max
      → Lone now n s f b (seen n o) t' k_elevs p
      → (t'' : Timer) × Lone now n s f b taken t'' k_elevs
          (with_book (confirm_hall_orders p.node_id now p.all_states) p)
        × (expired now t'' ≡ false)
  confirm-Lone p t' hf hb hn act cheap h =
      let alone = Lone-IsAlone p act h in
      let k = confirm_hall_orders p.node_id now p.all_states p.book in
      let cost : cost_of (pos f) (p.all_states n) < int_max = rw h.own cheap in
      let status : (p.book.orders f b).status ≡ OrderStatus.requested =
        ap (λ (x : Order). x.status) h.holds.0
        ∙ seen-status n o
        ∙ status_code-injective o.status OrderStatus.requested (ground arith) in
      let saw : observed_by n (p.book.orders f b) ≡ true = rw h.holds.0 (observed_by-seen n o) in
      let order : k.orders f b ≡ taken =
        rw h.own_id
          (confirm_hall_orders-IsAlone n now p.all_states p.book f b hf hb hn alone cost status saw)
        ∙ ap (on_confirm (pos n)) h.holds.0 in
      let early : expired now (k.order_timers f b) ≡ false =
        rw h.own_id (
          confirm_hall_orders-timer n now p.all_states p.book f b hf hb hn alone cost status saw) in
      (
        k.order_timers f b,
        with_book-Lone k_elevs p k taken (k.order_timers f b) h (order, refl),
        early,
      )

  reset-Lone :
      (p : Peers) (t' : Timer)
      → Lone now n s f b taken t' k_elevs p
      → Lone now n s f b taken t' k_elevs (with_book reset_hall_orders p)
  reset-Lone p t' h =
      let order =
        reset_hall_orders-order p.book f b
          (rw h.holds.0 (let q = taken-confirmed in ground arith)) in
      with_book-Lone k_elevs p (reset_hall_orders p.book) taken t' h
        (order ∙ h.holds.0, reset_hall_orders-timer p.book f b ∙ h.holds.1)

  -- A loop over the book, behind which `Q` holds.
  with_book-Ensures :
      {P : Peers → Type 0} (Q : Peers → Type 0) (g : Peers → Book → Book)
      → ((p : Peers) → P p → Q (with_book (g p) p))
      → (r : Outcome Peers) → Ensures P r
      → Ensures Q (r >>= (λ p. done (with_book (g p) p)))
  with_book-Ensures Q g keep r h = Ensures->>= r _ h (λ p hp. done-Ensures Q _ (keep p hp))

  abbrev Taken : Peers → Type 0
  Taken p = (t' : Timer) × Lone now n s f b taken t' k_elevs p × (expired now t' ≡ false)

  monitor-Taken :
      (p : Peers)
      → Taken p
      → Ensures
          (λ q. q.book.orders f b ≡ taken)
          (monitor_hall_order_timers p.node_id now p.num_elevs p.all_states p.book
            >>= (λ k. done (record p { book = k })))
  monitor-Taken p (t', h, early) =
      Ensures->>= {P = Holds f b taken t'}
        (monitor_hall_order_timers p.node_id now p.num_elevs p.all_states p.book) _
        (monitor_hall_order_timers-Holds f b taken t' p.node_id now p.num_elevs p.all_states p.book
          early h.holds)
        (λ k hk. done-Ensures (λ (q : Peers). q.book.orders f b ≡ taken) _ hk.0)

  step-taken :
      (p : Peers)
      → f < k_floors
      → b < 2
      → n < k_elevs
      → s.active ≡ true
      → cost_of (pos f) s < int_max
      → Lone now n s f b o t 0 p
      → Ensures (λ q. q.book.orders f b ≡ taken) (step now p)
  unfolding step monitor_watchdog_timers monitor_fault update_num_elevs
  step-taken p hf hb hn act cheap h =
      let counted : Lone now n s f b o t 0 (update_num_elevs p) = record {
        own_id = h.own_id;
        own = h.own;
        unwatched = h.unwatched;
        silent = h.silent;
        holds = h.holds;
      } in
      let e₁ =
        for_range!-Ensures (Lone now n s f b o t) (watchdog_round now) k_elevs
          (λ j q _. watchdog_round-Lone now n s f b o t asked j q) (update_num_elevs p) counted in
      let e₂ = Ensures->>= {P = Lone now n s f b o t k_elevs} _ _ e₁ (
        for_range!-Ensures (λ _. Lone now n s f b o t k_elevs) (fault_round now) k_elevs
          (λ e q _. fault_round-Lone now n s f b o t asked k_elevs e q)) in
      let e₃ =
        with_book-Ensures (λ q. (t' : Timer) × Lone now n s f b (seen n o) t' k_elevs q)
          (λ p. observe_orders p.node_id) (λ p. observe-Lone p hf hb) _ e₂ in
      let e₄ =
        with_book-Ensures Taken (λ p. confirm_hall_orders p.node_id now p.all_states)
          (λ p (t', hp). confirm-Lone p t' hf hb hn act cheap hp) _ e₃ in
      let e₅ =
        with_book-Ensures Taken (λ _. reset_hall_orders)
          (λ p (t', hp, early). (t', reset-Lone p t' hp, early)) _ e₄ in
      let e₆ = Ensures->>= {P = Taken} _ _ e₅ monitor-Taken in
      with_book-Ensures (λ q. q.book.orders f b ≡ taken)
        (λ p. control_hall_order_timers p.node_id now p.all_states)
        (λ q hq. (control-is_timed q.node_id now q.all_states q.book f b hf hb).1 ∙ hq) _ e₆

-- No elevator but the node itself is active with a watchdog that has not run out.
abbrev pub NoneHeard : ℕ → Peers → Type 0
NoneHeard now p =
    (e : ℕ)
    → e < k_elevs
    → e ≢ p.node_id
    → (p.all_states e).active && not (expired now (p.watchdog_timers e)) ≡ false

-- A node that hears from no other elevator confirms every requested hall call for itself within one
-- step of Peers, and its timer runs then; the step returns, and the node is sound before and after.
pub step-NoneHeard :
    {i : ℕ} (now : ℕ) (p : Peers) (f b : ℕ)
    → f < k_floors
    → b < 2
    → PeersOk i p
    → NoneHeard now p
    → eq_status (p.book.orders f b).status OrderStatus.requested ≡ true
    → Returns
        (λ q.
          (PeersOk i q × Timed q)
          × (q.book.orders f b ≡ on_confirm (pos p.node_id) (seen p.node_id (p.book.orders f b))))
        (step now p)
step-NoneHeard now p f b hf hb ok silent asked =
    let n = p.node_id in
    let cheap =
      cost_of-le (pos f) (p.all_states n) (omega arith) (omega arith) ok.own.floor_from
        ok.own.floor_below in
    Returns-Ensures (step now p) (step-Returns now p ok) (
      step-taken now n (p.all_states n) f b (p.book.orders f b) (p.book.order_timers f b) asked p hf
        hb ok.base.in_range ok.active cheap.1
        (record {
          own_id = refl;
          own = refl;
          unwatched = ok.base.unwatched;
          silent = λ e he ne. let q = silent e he ne in ground arith;
          holds = (refl, refl);
        }))
