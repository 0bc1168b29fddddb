-- ===== src/Node/Sync.antt =====
-- services/elevator-node, ElevatorNode::SyncPeers and Event: what the node's own state becomes.
use mathlib.Core.Path.{subst}
use cpp_elevator.Base.{ℕ, keep_if, ◌<◌, ◌≡◌, refl, arith, true, not}
use cpp_elevator.Base.Int.{pos}
use cpp_elevator.Base.Grid.{for_grid_inv}
use cpp_elevator.Base.Outcome.{Returns, Returns->>=}
use cpp_elevator.Common.{k_elevs, k_floors, k_buttons, ButtonFlags, BoolTable}
use cpp_elevator.OrderSync.Order.{Order, on_request, on_confirm}
use cpp_elevator.OrderSync.Table.{to_bool_table}
use cpp_elevator.Elevator.State.{ElevatorState}
use cpp_elevator.Control.Controller.{Controller, set_requests}
use cpp_elevator.Control.Fsm.{Rig}
use cpp_elevator.Network.Hall.{is_cab}
use cpp_elevator.Network.Hall.Sound.{put-AllSound}
use cpp_elevator.OrderSync.Order.Sound.{IsSound, on_confirm-IsSound, on_request-IsSound}
use cpp_elevator.Elevator.State.Updates.{IsValid}
use cpp_elevator.Network.Peers.{Peers, set_at}
use cpp_elevator.Network.Peers.Ok.{PeersOk, PeersBase, PeersBase-of, put-CabsSound}
use cpp_elevator.Network.Peers.Clear.{clear_orders-Returns}
use cpp_elevator.Node.{
  ElevatorNode, set_state, press_round, sync_button_signals, sync_peers, sync_after_event, event,
  is_zero,
}
use cpp_elevator.Node.Cabin.{CabinOk}

-- Node `i`: its cabin is safe and active, and its view of the elevators is one that a step of Peers
-- can rely on.
pub record NodeOk (i : ℕ) (n : ElevatorNode) : Type 0 where
  pub own_id : n.node_id ≡ i
  pub cabin : CabinOk i n.rig
  pub peers : PeersOk i n.peers

-- The invariant of a cabin reads its elevator except for the version and the requests.
CabinOk-of_state :
    {i : ℕ} (r : Rig) (ctl : Controller) (version : ℕ) (requests : BoolTable)
    → ctl.inertia ≡ r.ctl.inertia
    → CabinOk i r
    → CabinOk i (record {
      ctl = ctl;
      elev = record (r.elev) {
        state = record (r.elev.state) { version = version; requests = requests };
      };
    })
CabinOk-of_state r ctl version requests same ok = record {
  safe = record {
    floor_from = ok.safe.floor_from;
    floor_below = ok.safe.floor_below;
    door_still = ok.safe.door_still;
    moving_shut = ok.safe.moving_shut;
    parked_still = ok.safe.parked_still;
    stopped_still = ok.safe.stopped_still;
    stopped_parked = ok.safe.stopped_parked;
    motor_wire = ok.safe.motor_wire;
    door_wire = ok.safe.door_wire;
    alive = ok.safe.alive;
  };
  named = ok.named;
  active = ok.active;
  valid = (
    record {
      id_from = ok.valid.0.id_from;
      id_below = ok.valid.0.id_below;
      floor_from = ok.valid.0.floor_from;
      floor_below = ok.valid.0.floor_below;
      motor_named = ok.valid.0.motor_named;
      moving_named = ok.valid.0.moving_named;
      inertia_named = ok.valid.0.inertia_named;
    },
    rw same ok.valid.1,
  );
}

pub set_requests_inertia : (t : BoolTable) (c : Controller) → (set_requests t c).inertia ≡ c.inertia
unfolding set_requests
set_requests_inertia t c = refl

set_at_same : (i : ℕ) (s : ElevatorState) (a : ℕ → ElevatorState) → set_at i s a i ≡ s
set_at_same i s a = ground arith

-- Peers that know the node, with its own valid and active state put in.
set_own_state-PeersOk :
    {i : ℕ} (p : Peers) (s : ElevatorState)
    → s.active ≡ true
    → s.id ≡ pos i
    → IsValid s
    → PeersBase i p
    → PeersOk i (set_state i s p)
set_own_state-PeersOk {i = i} p s a w v ok =
    let q : set_at i s p.all_states p.node_id ≡ s = rw ok.own_id (set_at_same i s p.all_states) in
    record {
      base = PeersBase-of p (set_state i s p) ok refl refl ok.sound ok.cabs;
      active = rw q a;
      named = rw q w;
      own = rw q v;
    }

press-IsSound :
    (i : ℕ) (o : Order) → i < k_elevs → IsSound o → IsSound (on_confirm (pos i) (on_request i o))
press-IsSound i o h s = on_confirm-IsSound i (on_request i o) h (on_request-IsSound i o h s)

press_round-PeersBase :
    {i : ℕ} (signals : BoolTable) (f b : ℕ) (p : Peers)
    → f < k_floors
    → PeersBase i p
    → PeersBase i (press_round i signals f b p)
press_round-PeersBase {i = i} signals f b p hf ok =
    let hi : i < k_elevs = rw ok.own_id at ok.in_range in
    let asked =
      put-AllSound p.book.orders f b (on_request i (p.book.orders f b)) ok.sound
        (λ hb. on_request-IsSound i (p.book.orders f b) hi (ok.sound f b hf hb)) in
    let given =
      put-AllSound p.book.orders f b (on_confirm (pos i) (on_request i (p.book.orders f b)))
        ok.sound (λ hb. press-IsSound i (p.book.orders f b) hi (ok.sound f b hf hb)) in
    let kept =
      put-CabsSound p.cab_button_orders i f _ ok.cabs
        (press-IsSound i (p.cab_button_orders i f) hi (ok.cabs i f hi hf)) in
    keep_if (PeersBase i) (not (signals f b)) p _ ok (
      keep_if (PeersBase i) (is_cab b) _ _ (PeersBase-of p _ ok refl refl given kept)
        (PeersBase-of p _ ok refl refl asked ok.cabs))

sync_button_signals-PeersBase :
    {i : ℕ} (signals : BoolTable) (p : Peers)
    → PeersBase i p
    → PeersBase i (sync_button_signals i signals p)
unfolding sync_button_signals
sync_button_signals-PeersBase {i = i} signals =
    for_grid_inv (PeersBase i) (press_round i signals) k_floors k_buttons
      (λ f b p hf _. press_round-PeersBase signals f b p hf)

-- The cabin is safe and active, and the peers know the node, but not yet its state.
pub record NodeBase (i : ℕ) (n : ElevatorNode) : Type 0 where
  pub own_id : n.node_id ≡ i
  pub cabin : CabinOk i n.rig
  pub peers : PeersBase i n.peers

pub NodeBase-of_Ok : {i : ℕ} (n : ElevatorNode) → NodeOk i n → NodeBase i n
NodeBase-of_Ok n ok = record { own_id = ok.own_id; cabin = ok.cabin; peers = ok.peers.base }

-- What holds under the id in the node, holds under any name of that id.
by_own_id {ℓ κ} :
    (P : ℕ → Type ℓ) (Q : ℕ → Type κ) (n : ElevatorNode) {i : ℕ}
    → n.node_id ≡ i
    → (P n.node_id → Q n.node_id)
    → P i
    → Q i
by_own_id P Q n e f = subst (λ j. P j → Q j) e f

sync_peers-own : (n : ElevatorNode) → NodeBase n.node_id n → NodeOk n.node_id (sync_peers n)
unfolding sync_peers
sync_peers-own n ok =
    let p = sync_button_signals n.node_id n.button_signals n.peers in
    let table = to_bool_table (pos n.node_id) p.book.orders in
    let c =
      CabinOk-of_state n.rig (set_requests table n.rig.ctl) _ n.rig.elev.state.requests
        (set_requests_inertia table n.rig.ctl) ok.cabin in
    record {
      own_id = refl;
      cabin = c;
      peers =
          set_own_state-PeersOk p _ c.active c.named c.valid.0
            (sync_button_signals-PeersBase n.button_signals n.peers ok.peers);
    }

pub sync_peers-NodeOk : {i : ℕ} (n : ElevatorNode) → NodeBase i n → NodeOk i (sync_peers n)
sync_peers-NodeOk n ok =
    by_own_id (λ j. NodeBase j n) (λ j. NodeOk j (sync_peers n)) n ok.own_id (sync_peers-own n) ok

sync_after_event-own :
    (n : ElevatorNode) → NodeOk n.node_id n → NodeOk n.node_id (sync_after_event n)
unfolding sync_after_event
sync_after_event-own n ok =
    let table = to_bool_table (pos n.node_id) n.peers.book.orders in
    let c =
      CabinOk-of_state n.rig (set_requests table n.rig.ctl) n.rig.elev.state.version table
        (set_requests_inertia table n.rig.ctl) ok.cabin in
    record {
      own_id = refl;
      cabin = c;
      peers = set_own_state-PeersOk n.peers _ c.active c.named c.valid.0 ok.peers.base;
    }

sync_after_event-NodeOk : {i : ℕ} (n : ElevatorNode) → NodeOk i n → NodeOk i (sync_after_event n)
sync_after_event-NodeOk n ok =
    by_own_id (λ j. NodeOk j n) (λ j. NodeOk j (sync_after_event n)) n ok.own_id
      (sync_after_event-own n) ok

pub event-Returns :
    {i : ℕ} (b2c : ButtonFlags) (n : ElevatorNode) → NodeOk i n → Returns (NodeOk i) (event b2c n)
unfolding event
event-Returns {i = i} b2c n ok =
    Returns->>= {P = PeersOk i} _ _
      (keep_if (Returns (PeersOk i)) (is_zero b2c) _ _ (n.peers, refl, ok.peers)
        (clear_orders-Returns n.rig.elev.state.floor b2c n.peers ok.cabin.safe.floor_from
          ok.cabin.safe.floor_below ok.peers))
      (λ p h. (
        _,
        refl,
        sync_after_event-NodeOk _ (record {
          own_id = ok.own_id;
          cabin = CabinOk-of_state n.rig n.rig.ctl _ n.rig.elev.state.requests refl ok.cabin;
          peers = h;
        }),
      ))
