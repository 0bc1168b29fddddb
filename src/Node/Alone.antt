-- ===== src/Node/Alone.antt =====
-- services/elevator-node, ElevatorNode::Step on a node that hears nothing from the others.
use cpp_elevator.Base.{ℕ, keep_if, ◌<◌, ◌≡◌, refl, sym, ◌∙◌, arith, true, false, not}
use cpp_elevator.Base.Int.{pos, eqb_ℤ_refl}
use cpp_elevator.Base.Grid.{for_grid_inv}
use cpp_elevator.Base.Outcome.{Returns, Returns->>=}
use cpp_elevator.Common.{
  k_elevs, k_floors, k_buttons, BoolTable, OrderStatus, eq_status, status_code,
}
use cpp_elevator.OrderSync.Order.{Order, on_request, on_confirm}
use cpp_elevator.OrderSync.Table.{assigned_to}
use cpp_elevator.Elevator.State.{ElevatorState}
use cpp_elevator.Elevator
use cpp_elevator.Network.Hall.{is_cab}
use cpp_elevator.Network.Hall.Requested.{seen, seen-status}
use cpp_elevator.Network.Peers.{Peers, set_at, state}
use cpp_elevator.Network.Peers
use cpp_elevator.Network.Peers.Ok.{PeersOk}
use cpp_elevator.Network.Peers.Alone.{NoneHeard, step-NoneHeard}
use cpp_elevator.Node.{
  ElevatorNode, set_elev, set_state, register_round, register_button_signals, press_round,
  sync_button_signals, sync_peers, sample,
}
use cpp_elevator.Node.Calls.{sync_button_signals-order}
use cpp_elevator.Node.Cabin.{step-CabinOk}
use cpp_elevator.Node.Sync.{NodeOk, NodeBase, sync_peers-NodeOk}
use cpp_elevator.Node.Step.{register-NodeBase, state-Returns}

-- The node in the first half of a step, when it has read its buttons.
abbrev pub registered : ElevatorNode → ElevatorNode
registered n = register_button_signals (set_elev (Elevator.step n.rig.elev) n)

registered-peers : (n : ElevatorNode) → (registered n).peers ≡ n.peers
unfolding register_button_signals
registered-peers n =
    for_grid_inv (λ (m : ElevatorNode). m.peers ≡ n.peers) register_round k_floors k_buttons
      (λ f b m _ _ h. h) (set_elev (Elevator.step n.rig.elev) n) refl

registered-NodeBase : {i : ℕ} (n : ElevatorNode) → NodeOk i n → NodeBase i (registered n)
registered-NodeBase n ok =
    register-NodeBase _
      (record { own_id = ok.own_id; cabin = step-CabinOk n.rig ok.cabin; peers = ok.peers.base })

sync_button_signals-NoneHeard :
    (now n : ℕ) (signals : BoolTable) (p : Peers)
    → NoneHeard now p
    → NoneHeard now (sync_button_signals n signals p)
unfolding sync_button_signals
sync_button_signals-NoneHeard now n signals =
    for_grid_inv (NoneHeard now) (press_round n signals) k_floors k_buttons (λ f b p _ _ h.
      keep_if (NoneHeard now) (not (signals f b)) _ _ h
        (keep_if (NoneHeard now) (is_cab b) _ _ h h))

set_state-NoneHeard :
    (now i : ℕ) (s : ElevatorState) (p : Peers)
    → p.node_id ≡ i
    → NoneHeard now p
    → NoneHeard now (set_state i s p)
set_state-NoneHeard now i s p own h e he ne = let q = h e he ne in ground arith

sync_button_signals-node_id :
    (n : ℕ) (signals : BoolTable) (p : Peers)
    → (sync_button_signals n signals p).node_id ≡ p.node_id
unfolding sync_button_signals
sync_button_signals-node_id n signals p =
    for_grid_inv (λ (q : Peers). q.node_id ≡ p.node_id) (press_round n signals) k_floors k_buttons
      (λ f b q _ _ h. ground arith) p refl

sync_peers-NoneHeard :
    (now : ℕ) (n : ElevatorNode)
    → n.peers.node_id ≡ n.node_id
    → NoneHeard now n.peers
    → NoneHeard now (sync_peers n).peers
unfolding sync_peers
sync_peers-NoneHeard now n own h =
    set_state-NoneHeard now n.node_id _ (sync_button_signals n.node_id n.button_signals n.peers)
      (sync_button_signals-node_id n.node_id n.button_signals n.peers ∙ own)
      (sync_button_signals-NoneHeard now n.node_id n.button_signals n.peers h)

on_request-status :
    (n : ℕ) (o : Order)
    → status_code o.status < 4
    → eq_status o.status OrderStatus.confirmed ≡ false
    → eq_status (on_request n o).status OrderStatus.requested ≡ true
unfolding on_request
on_request-status n o named waits = ground arith

taken-assigned :
    (n : ℕ) (o : Order)
    → eq_status o.status OrderStatus.requested ≡ true
    → assigned_to (pos n) (on_confirm (pos n) (seen n o)) ≡ true
unfolding on_confirm
taken-assigned n o asked =
    let q : eq_status (seen n o).status OrderStatus.requested ≡ true = rw (seen-status n o) asked in
    ground (arith, eqb_ℤ_refl (pos n))

sync_peers-asked :
    (n : ElevatorNode) (f b : ℕ)
    → f < k_floors
    → b < 2
    → n.button_signals f b ≡ true
    → status_code (n.peers.book.orders f b).status < 4
    → eq_status (n.peers.book.orders f b).status OrderStatus.confirmed ≡ false
    → eq_status ((sync_peers n).peers.book.orders f b).status OrderStatus.requested ≡ true
unfolding sync_peers
sync_peers-asked n f b hf hb signal named waits =
    let cab : is_cab b ≡ false = ground arith in
    let o = sync_button_signals-order n.node_id n.button_signals n.peers f b hf (omega arith) in
    let asked = on_request-status n.node_id (n.peers.book.orders f b) named waits in
    let called : (sync_button_signals n.node_id n.button_signals n.peers).book.orders f b
        ≡ on_request n.node_id (n.peers.book.orders f b) =
      (rw (signal, cab) at o) in
    rw called asked

-- The hall order is confirmed for elevator `i`, and its timer runs.
abbrev TakenBy : ℕ → ℕ → ℕ → Peers → Type 0
TakenBy i f b p =
    PeersOk i p
    × (assigned_to (pos i) (p.book.orders f b) ≡ true)
    × ((p.book.order_timers f b).active ≡ true)

-- A node that hears from no other elevator takes every hall call that is pressed there for itself in
-- the same step, with its timer running, unless the order is confirmed already; the step's first half
-- returns, and the invariant of the node holds before and after.
pub sample-NoneHeard :
    {i : ℕ} (now : ℕ) (n : ElevatorNode) (f b : ℕ)
    → f < k_floors
    → b < 2
    → NodeOk i n
    → NoneHeard now n.peers
    → (registered n).button_signals f b ≡ true
    → eq_status (n.peers.book.orders f b).status OrderStatus.confirmed ≡ false
    → Returns
        (λ m.
          NodeOk i m
          × (assigned_to (pos i) (m.peers.book.orders f b) ≡ true)
          × ((m.peers.book.order_timers f b).active ≡ true))
        (sample now n)
unfolding sample
sample-NoneHeard {i = i} now n f b hf hb ok silent signal waits =
    let m = registered n in
    let base : NodeBase i m = registered-NodeBase n ok in
    let ok' : NodeOk i (sync_peers m) = sync_peers-NodeOk m base in
    let same = registered-peers n in
    let sound = ok.peers.base.sound f b hf (omega arith) in
    let asked =
      sync_peers-asked m f b hf hb signal (rw same sound.valid.status_named) (rw same waits) in
    let quiet = sync_peers-NoneHeard now m (base.peers.own_id ∙ sym base.own_id) (rw same silent) in
    let (p, e, ((h, timed), taken)) =
      step-NoneHeard now (sync_peers m).peers f b hf hb ok'.peers quiet asked in
    let below : n.node_id < k_elevs =
      rw (ok.peers.base.own_id ∙ sym ok.own_id) at ok.peers.base.in_range in
    let assigned : assigned_to (pos i) (p.book.orders f b) ≡ true =
      rw taken (rw ok'.peers.base.own_id (taken-assigned i _ asked)) in
    let timer : (p.book.order_timers f b).active ≡ true =
      timed f b hf hb ∙ rw h.base.own_id assigned in
    Returns->>= {P = λ s. Unit {0}} (state n.node_id n.peers) _
      (state-Returns n.node_id n.peers below)
      (λ s _.
        Returns->>= {P = TakenBy i f b} (Peers.step now (sync_peers m).peers) _
          (p, e, (h, assigned, timer))
          (λ q (k, a, t).
            (_, refl, (record { own_id = ok'.own_id; cabin = ok'.cabin; peers = k }, a, t))))
