-- ===== src/System/Sound.antt =====
-- The elevators together: what holds in every state that they reach.
use mathlib.Core.Option.{some}
use mathlib.Core.Path.{subst}
use cpp_elevator.Base.{
  keep_cases, ◌∙◌, sym, ℕ, zero, suc, ◌<◌, ◌≡◌, ◌==◌, true, arith, List, [], ◌∷◌,
}
use cpp_elevator.Base.Outcome.{Outcome, done, Returns}
use cpp_elevator.Common.{k_elevs, k_floors, k_buttons}
use cpp_elevator.Base.Grid.{all_grid_intro}
use cpp_elevator.Elevator.State.Updates.{IsValid, valid_iff}
use cpp_elevator.OrderSync.Order.Sound.{IsSound}
use cpp_elevator.OrderSync.Order.Observed.{valid-IsValid}
use cpp_elevator.OrderSync.Order.{Order}
use cpp_elevator.OrderSync.Table.{OrderTable}
use cpp_elevator.Control.Fsm.Safety.{Safe}
use cpp_elevator.OrderSync.Order
use cpp_elevator.OrderSync.Table
use cpp_elevator.Network.Hall.Sound.{AllSound}
use cpp_elevator.Network.Packet.{NetworkPacket, valid}
use cpp_elevator.Network.Packet
use cpp_elevator.Node.{ElevatorNode, tx_packet_copy, sample, respond}
use cpp_elevator.Node.Sync.{NodeOk, NodeBase-of_Ok}
use cpp_elevator.Node.Receive.{PacketSound}
use cpp_elevator.Node.Step.{sample-Returns, respond-Returns}
use cpp_elevator.Main.Loops.{rx_round-NodeOk}
use cpp_elevator.System.{
  System, pick, set_node, Step, samples, responds, sends, recieves, Reach, here, next,
}

-- A packet that every node accepts, and whose orders are sound.
pub record PacketOk (packet : NetworkPacket) : Type 0 where
  pub sound : PacketSound packet
  pub accepted : valid packet ≡ true

abbrev pub AllPackets : (NetworkPacket → Type 0) → List NetworkPacket → Type 0
AllPackets P [] = Unit {0}
AllPackets P (p ∷ ps) = P p × AllPackets P ps

pick-AllPackets :
    (P : NetworkPacket → Type 0) (k : ℕ) (ps : List NetworkPacket) (packet : NetworkPacket)
    → AllPackets P ps
    → pick k ps ≡ some packet
    → P packet
pick-AllPackets P k [] packet h e = absurd cc
pick-AllPackets P zero (p ∷ ps) packet h e = subst P (cc) h.0
pick-AllPackets P (suc k) (p ∷ ps) packet h e = pick-AllPackets P k ps packet h.1 e

-- Every node keeps its invariant, and every packet that was sent is one that a node can work with.
pub record SystemOk (s : System) : Type 0 where
  pub nodes : (i : ℕ) → i < k_elevs → NodeOk i (s.nodes i)
  pub air : AllPackets PacketOk s.air

sound-valid : (o : Order) → IsSound o → Order.valid o ≡ true
sound-valid o s = let v = s.valid in (valid-IsValid o (omega (arith, v.mask_below))).1 v

orders-valid : (t : OrderTable) → AllSound t → Table.valid t ≡ true
unfolding Table.valid
orders-valid t h =
    all_grid_intro k_floors k_buttons _ (λ f b hf hb. sound-valid (t f b) (h f b hf hb))

-- A node sends a packet that every node accepts.
pub tx_packet_copy-PacketOk : {i : ℕ} (n : ElevatorNode) → NodeOk i n → PacketOk (tx_packet_copy n)
unfolding tx_packet_copy Packet.init valid
tx_packet_copy-PacketOk n ok =
    let p = n.peers in
    let own : IsValid (p.all_states n.node_id) =
      rw (ok.peers.base.own_id ∙ sym ok.own_id) at ok.peers.own in
    let state_ok = (valid_iff (p.all_states n.node_id)).1 own in
    let orders_ok = orders-valid p.book.orders ok.peers.base.sound in
    let cabs_ok =
      all_grid_intro k_elevs k_floors (λ e f. Order.valid (p.cab_button_orders e f))
        (λ e f he hf. sound-valid (p.cab_button_orders e f) (ok.peers.base.cabs e f he hf)) in
    record {
      sound = record { orders = ok.peers.base.sound; cabs = ok.peers.base.cabs };
      accepted = ground arith;
    }

set_node-NodeOk :
    (i j : ℕ) (n : ElevatorNode) (s : System)
    → NodeOk i n
    → NodeOk j (s.nodes j)
    → NodeOk j ((set_node i n s).nodes j)
set_node-NodeOk i j n s h k =
    keep_cases (NodeOk j) (j == i) n (s.nodes j)
      (λ e. let same : i ≡ j = ground arith in subst (λ l. NodeOk l n) same h) (λ _. k)

set_node-SystemOk :
    (i : ℕ) (n : ElevatorNode) (s : System) → NodeOk i n → SystemOk s → SystemOk (set_node i n s)
set_node-SystemOk i n s h ok = record {
  nodes = λ j hj. set_node-NodeOk i j n s h (ok.nodes j hj);
  air = ok.air;
}

-- What a call returned that returns with `P`, has `P`.
pub done_of-Returns {ℓ κ} :
    {A : Type ℓ} (P : A → Type κ) (r : Outcome A) (a : A) → r ≡ done a → Returns P r → P a
done_of-Returns P r a e (b, q, h) = subst P (cc) h

Step-SystemOk : {s t : System} → Step s t → SystemOk s → SystemOk t
Step-SystemOk {s} (samples i now {n} hi e) ok =
    set_node-SystemOk i n s
      (done_of-Returns (NodeOk i) _ n e
        (sample-Returns now (s.nodes i) (NodeBase-of_Ok _ (ok.nodes i hi))))
      ok
Step-SystemOk {s} (responds i now {n} hi e) ok =
    set_node-SystemOk i n s
      (done_of-Returns (NodeOk i) _ n e (respond-Returns now (s.nodes i) (ok.nodes i hi))) ok
Step-SystemOk {s} (sends i hi) ok = record {
  nodes = ok.nodes;
  air = (tx_packet_copy-PacketOk (s.nodes i) (ok.nodes i hi), ok.air);
}
Step-SystemOk {s} (recieves i now k size bytes r {packet} hi e) ok =
    let p = pick-AllPackets PacketOk k s.air packet ok.air e in
    set_node-SystemOk i _ s
      (rx_round-NodeOk size bytes packet now r (s.nodes i) (λ _. p.sound) (ok.nodes i hi)).1 ok

pub Reach-SystemOk : {s t : System} → SystemOk s → Reach s t → SystemOk t
Reach-SystemOk h here = h
Reach-SystemOk h (next r st) = Step-SystemOk st (Reach-SystemOk h r)

-- In every state that the elevators reach, each node can do both halves of a control step: no
-- assertion fails and nothing aborts. Its cabin is safe, and every packet that was sent is
-- accepted. This needs the nodes' invariants at the start, with packets that are accepted and sound.
pub elevators_never_fault :
    {s t : System} (i now : ℕ)
    → i < k_elevs
    → SystemOk s
    → Reach s t
    → Returns (NodeOk i) (sample now (t.nodes i))
      × Returns (NodeOk i) (respond now (t.nodes i))
      × Safe (t.nodes i).rig
      × AllPackets (λ p. valid p ≡ true) t.air
elevators_never_fault {t = t} i now hi h r =
    let ok = Reach-SystemOk h r in
    let n = ok.nodes i hi in
    (
      sample-Returns now (t.nodes i) (NodeBase-of_Ok _ n),
      respond-Returns now (t.nodes i) n,
      n.cabin.safe,
      all_accepted t.air ok.air,
    )
  where
    all_accepted :
        (ps : List NetworkPacket) → AllPackets PacketOk ps → AllPackets (λ p. valid p ≡ true) ps
    all_accepted [] h = tt
    all_accepted (p ∷ ps) h = (h.0.accepted, all_accepted ps h.1)
