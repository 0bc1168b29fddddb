-- ===== src/Node/Step.antt =====
-- services/elevator-node, ElevatorNode::Step and the threads that call into a node.
use cpp_elevator.Base.{
  ◌∙◌, sym, keep_if, keep_cases, lt→ltb, ℕ, ◌<◌, ◌≡◌, refl, arith, true, List, [], ◌∷◌,
}
use cpp_elevator.Base.Int.{pos, eqb_ℤ}
use cpp_elevator.Base.Grid.{for_grid_inv}
use cpp_elevator.Base.Outcome.{Outcome, done, ◌>>=◌, Returns, Returns->>=}
use cpp_elevator.Common.{k_elevs, k_floors, k_buttons}
use cpp_elevator.Common.Timer.{expired}
use cpp_elevator.Elevator.{Elevator, emergency_stop, emergency_stop_reset, hit_new_floor}
use cpp_elevator.Elevator
use cpp_elevator.Control.Controller.{request_table_updated}
use cpp_elevator.Control.Fsm.Safety.{FsmEvent, handle}
use cpp_elevator.Node.Receive.{PacketSound}
use cpp_elevator.Network.Packet.{NetworkPacket, valid}
use cpp_elevator.Network.Peers.{Peers, state}
use cpp_elevator.Network.Peers
use cpp_elevator.Network.Peers.Ok.{PeersOk}
use cpp_elevator.Network.Peers.Invariant.{step-Returns}
use cpp_elevator.Node.{
  ElevatorNode, set_elev, set_ctl, register_round, register_button_signals, lamp_round,
  set_button_lamps, sync_peers, run, timers_event, request_event, floor_event, dispatch, sample,
  respond, step, rx_packet_processing,
}
use cpp_elevator.Node.Cabin.{
  handle-CabinOk, step-CabinOk, register_round-CabinOk, lamp_round-CabinOk,
}
use cpp_elevator.Node.Sync.{NodeOk, NodeBase, NodeBase-of_Ok, sync_peers-NodeOk, event-Returns}
use cpp_elevator.Node.Receive.{recieved-PeersOk}

pub run-Returns :
    {i : ℕ} (ev : FsmEvent) (now : ℕ) (n : ElevatorNode)
    → NodeOk i n
    → Returns (NodeOk i) (run (handle ev now) n)
run-Returns ev now n ok =
    event-Returns _ _ (record {
      own_id = ok.own_id;
      cabin = handle-CabinOk ev now n.rig ok.cabin;
      peers = ok.peers;
    })

timers_event-Returns :
    {i : ℕ} (now : ℕ) (n : ElevatorNode) → NodeOk i n → Returns (NodeOk i) (timers_event now n)
unfolding timers_event handle
timers_event-Returns {i = i} now n ok =
    keep_if (Returns (NodeOk i)) (expired now n.rig.ctl.door_timer) _ _
      (run-Returns FsmEvent.door_timeout now n ok)
      (keep_if (Returns (NodeOk i)) (expired now n.rig.ctl.floor_timer) _ _
        (run-Returns FsmEvent.floor_timeout now n ok) (n, refl, ok))

-- Neither the previous requests nor the previous floor is read by the invariant.
request_table_updated-NodeOk :
    {i : ℕ} (n : ElevatorNode)
    → NodeOk i n
    → NodeOk i (set_ctl (request_table_updated n.rig.ctl).1 n)
unfolding request_table_updated
request_table_updated-NodeOk n ok = ground arith

hit_new_floor-NodeOk :
    {i : ℕ} (n : ElevatorNode) → NodeOk i n → NodeOk i (set_elev (hit_new_floor n.rig.elev).1 n)
unfolding hit_new_floor
hit_new_floor-NodeOk n ok = ground arith

request_event-Returns :
    {i : ℕ} (now : ℕ) (n : ElevatorNode) → NodeOk i n → Returns (NodeOk i) (request_event now n)
unfolding request_event handle
request_event-Returns {i = i} now n ok =
    let ok' = request_table_updated-NodeOk n ok in
    keep_if (Returns (NodeOk i)) (request_table_updated n.rig.ctl).0 _ _
      (run-Returns FsmEvent.table_update now _ ok') (timers_event-Returns now _ ok')

floor_event-Returns :
    {i : ℕ} (now : ℕ) (n : ElevatorNode) → NodeOk i n → Returns (NodeOk i) (floor_event now n)
unfolding floor_event handle
floor_event-Returns {i = i} now n ok =
    let ok' = hit_new_floor-NodeOk n ok in
    keep_if (Returns (NodeOk i)) (hit_new_floor n.rig.elev).0 _ _
      (run-Returns FsmEvent.floor_arrival now _ ok') (request_event-Returns now _ ok')

dispatch-Returns :
    {i : ℕ} (now : ℕ) (n : ElevatorNode) → NodeOk i n → Returns (NodeOk i) (dispatch now n)
unfolding dispatch handle
dispatch-Returns {i = i} now n ok =
    keep_if (Returns (NodeOk i)) (emergency_stop n.rig.elev) _ _
      (run-Returns FsmEvent.emergency_stop now n ok)
      (keep_if (Returns (NodeOk i)) (emergency_stop_reset n.rig.elev) _ _
        (run-Returns FsmEvent.emergency_stop_reset now n ok) (floor_event-Returns now n ok))

pub register-NodeBase :
    {i : ℕ} (n : ElevatorNode) → NodeBase i n → NodeBase i (register_button_signals n)
unfolding register_button_signals
register-NodeBase {i = i} =
    for_grid_inv (NodeBase i) register_round k_floors k_buttons (λ f b n _ _ ok. record {
      own_id = ok.own_id;
      cabin = register_round-CabinOk f b n ok.cabin;
      peers = ok.peers;
    })

lamp_round-node_id : (f b : ℕ) (n : ElevatorNode) → (lamp_round f b n).node_id ≡ n.node_id
lamp_round-node_id f b n = ground arith

lamp_round-NodeOk :
    {i : ℕ} (f b : ℕ) (n : ElevatorNode) → f < k_floors → NodeOk i n → NodeOk i (lamp_round f b n)
lamp_round-NodeOk f b n hf ok =
    let c = lamp_round-CabinOk f b n hf ok.cabin in
    record { own_id = lamp_round-node_id f b n ∙ ok.own_id; cabin = c; peers = ground arith }

lamps-NodeOk : {i : ℕ} (n : ElevatorNode) → NodeOk i n → NodeOk i (set_button_lamps n)
unfolding set_button_lamps
lamps-NodeOk {i = i} =
    for_grid_inv (NodeOk i) lamp_round k_floors k_buttons (λ f b n hf _. lamp_round-NodeOk f b n hf)

pub state-Returns : (e : ℕ) (p : Peers) → e < k_elevs → Returns (λ s. Unit {0}) (state e p)
unfolding state
state-Returns e p h = (p.all_states e, rw (lt→ltb e k_elevs h), tt)

-- The first half of a step tells the peers the node's state, so it may be missing there before.
pub sample-Returns :
    {i : ℕ} (now : ℕ) (n : ElevatorNode) → NodeBase i n → Returns (NodeOk i) (sample now n)
unfolding sample
sample-Returns {i = i} now n ok =
    let ok₁ : NodeBase i (set_elev (Elevator.step n.rig.elev) n) = record {
      own_id = ok.own_id;
      cabin = step-CabinOk n.rig ok.cabin;
      peers = ok.peers;
    } in
    let n' = sync_peers (register_button_signals (set_elev (Elevator.step n.rig.elev) n)) in
    let ok₂ : NodeOk i n' = sync_peers-NodeOk _ (register-NodeBase _ ok₁) in
    let (p, e, (h, _)) = step-Returns now n'.peers ok₂.peers in
    let below : n.node_id < k_elevs = rw (ok.peers.own_id ∙ sym ok.own_id) at ok.peers.in_range in
    Returns->>= {P = λ s. Unit {0}} (state n.node_id n.peers) _
      (state-Returns n.node_id n.peers below)
      (λ s _.
        Returns->>= {P = PeersOk i} (Peers.step now n'.peers) _ (p, e, h)
          (λ q k. (_, refl, record { own_id = ok₂.own_id; cabin = ok₂.cabin; peers = k })))

pub respond-Returns :
    {i : ℕ} (now : ℕ) (n : ElevatorNode) → NodeOk i n → Returns (NodeOk i) (respond now n)
unfolding respond
respond-Returns now n ok = dispatch-Returns now _ (lamps-NodeOk n ok)

-- So a node's first step establishes the invariant.
pub first_step-NodeOk :
    {i : ℕ} (now : ℕ) (n : ElevatorNode) → NodeBase i n → Returns (NodeOk i) (step now n)
unfolding step
first_step-NodeOk {i = i} now n ok =
    Returns->>= {P = NodeOk i} (sample now n) (respond now) (sample-Returns now n ok)
      (respond-Returns now)

-- A control step returns and keeps the node's invariant: the cabin is safe and active afterwards,
-- whatever the sensors and buttons report, and no assertion fails. This needs the invariant before.
pub step-NodeOk :
    {i : ℕ} (now : ℕ) (n : ElevatorNode) → NodeOk i n → Returns (NodeOk i) (step now n)
step-NodeOk now n ok = first_step-NodeOk now n (NodeBase-of_Ok n ok)

-- What the threads do with a node between two uses of its mutex: the control thread samples and
-- responds, the receiver processes a packet.
pub data Action : Type 0 where
  samples responds : ℕ → Action
  recieves : ℕ → NetworkPacket → Action

unfoldable pub act : Action → ElevatorNode → Outcome ElevatorNode
act (Action.samples now) n = sample now n
act (Action.responds now) n = respond now n
act (Action.recieves now packet) n = done (rx_packet_processing now packet n)

unfoldable pub act_all : List Action → ElevatorNode → Outcome ElevatorNode
unfolding act
act_all [] n = done n
act_all (a ∷ rest) n = act a n >>= act_all rest

-- A received packet is valid, and its orders are sound.
abbrev pub Acceptable : Action → Type 0
Acceptable (Action.samples now) = Unit {0}
Acceptable (Action.responds now) = Unit {0}
Acceptable (Action.recieves now packet) = (valid packet ≡ true) × PacketSound packet

abbrev pub AllAcceptable : List Action → Type 0
AllAcceptable [] = Unit {0}
AllAcceptable (a ∷ rest) = Acceptable a × AllAcceptable rest

pub recieved-NodeOk :
    {i : ℕ} (now : ℕ) (packet : NetworkPacket) (n : ElevatorNode)
    → valid packet ≡ true
    → PacketSound packet
    → NodeOk i n
    → NodeOk i (rx_packet_processing now packet n)
unfolding rx_packet_processing
recieved-NodeOk {i = i} now packet n v r ok =
    keep_cases (NodeOk i) (eqb_ℤ packet.id (pos n.node_id)) n _ (λ _. ok)
      (λ other. record {
        own_id = ok.own_id;
        cabin = ok.cabin;
        peers = recieved-PeersOk now packet n v r other ok.own_id ok.peers;
      })

act-Returns :
    {i : ℕ} (a : Action) (n : ElevatorNode)
    → Acceptable a
    → NodeOk i n
    → Returns (NodeOk i) (act a n)
unfolding act
act-Returns (Action.samples now) n h ok = sample-Returns now n (NodeBase-of_Ok n ok)
act-Returns (Action.responds now) n h ok = respond-Returns now n ok
act-Returns (Action.recieves now packet) n h ok = (_, refl, recieved-NodeOk now packet n h.0 h.1 ok)

-- In every order of the threads' actions, none faults, and the node's invariant holds at the end:
-- the cabin is safe and active, and all orders are sound. This needs the invariant at the start, and
-- that the packets received are valid and their orders sound.
pub act_all-NodeOk :
    {i : ℕ} (actions : List Action) (n : ElevatorNode)
    → AllAcceptable actions
    → NodeOk i n
    → Returns (NodeOk i) (act_all actions n)
unfolding act_all
act_all-NodeOk {i = i} [] n h ok = (n, refl, ok)
act_all-NodeOk {i = i} (a ∷ rest) n h ok =
    Returns->>= {P = NodeOk i} (act a n) (act_all rest) (act-Returns a n h.0 ok)
      (λ m. act_all-NodeOk rest m h.1)
