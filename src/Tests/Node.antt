-- ===== src/Tests/Node.antt =====
-- services/elevator-node and the packets, on a concrete node.
use cpp_elevator.Base.{inl, inr, ◌≡◌, ◌↔◌, refl, arith, true, false, List, [], ◌∷◌}
use cpp_elevator.Base.Int.{pos}
use cpp_elevator.Base.Grid.{all_grid, for_grid}
use cpp_elevator.Base.Outcome.{Returns}
use cpp_elevator.OrderSync.Order.{default_order, on_update, valid}
use cpp_elevator.OrderSync.Order
use cpp_elevator.OrderSync.Table.{default_table}
use cpp_elevator.OrderSync.Table
use cpp_elevator.Elevator.State
use cpp_elevator.Elevator.State.Updates.{IsValid}
use cpp_elevator.Node.Receive.{PacketSound}
use cpp_elevator.Network.Hall.Sound.{default_table-AllSound}
use cpp_elevator.Network.Peers.Ok.{default_cabs-CabsSound}
use cpp_elevator.Network.Packet.{NetworkPacket, recieve_packet}
use cpp_elevator.Network.Packet
use cpp_elevator.Network.Packet.Valid.{Accepted, recieve_packet_iff}
use cpp_elevator.Node.{ElevatorNode, step, recieve_from, sample, register_button_signals}
use cpp_elevator.Node.Alone.{registered, sample-NoneHeard}
use cpp_elevator.Network.Peers.{set_at}
use cpp_elevator.Network.Peers.Alone.{NoneHeard}
use cpp_elevator.Common.Timer.{default_timer, expired}
use cpp_elevator.Elevator
use cpp_elevator.Elevator.Buttons.{pressed, default_buttons}
use cpp_elevator.Elevator.Buttons
use cpp_elevator.Node.{sync_peers}
use cpp_elevator.Node.Calls.{called, sync_peers-requests}
use cpp_elevator.OrderSync.Table.{assigned_to}
use cpp_elevator.Base.{if◌then◌else◌}
use cpp_elevator.Node.Calls.{sync_peers-cab}
use cpp_elevator.OrderSync.Table.{assigned_to}
use cpp_elevator.Base.{◌&&◌, ◌==◌}
use cpp_elevator.Node.Cabin.{CabinOk}
use cpp_elevator.Node.Sync.{NodeOk}
use cpp_elevator.Node.Step.{Action, act_all, AllAcceptable, act_all-NodeOk, step-NodeOk}
use cpp_elevator.Node.Cabs.{recieve_from-cabs}
use cpp_elevator.Tests.Network.{peers, peers-PeersOk}
use cpp_elevator.Tests.Cabin.{at_floor, top, top-Safe}

-- Node 2, with the cabin at the top floor.
abbrev pub node : ElevatorNode
node = record {
  node_id = 2;
  running = true;
  button_signals = λ f b. false;
  button_lamps = λ f b. false;
  peers = peers;
  rig = top;
}

at_floor-IsValid : IsValid (at_floor 3)
at_floor-IsValid = record {
  id_from = omega arith;
  id_below = omega arith;
  floor_from = omega arith;
  floor_below = omega arith;
  motor_named = inr (inl refl);
  moving_named = omega arith;
  inertia_named = omega arith;
}

top-CabinOk : CabinOk 2 top
top-CabinOk = record {
  safe = top-Safe;
  named = refl;
  active = refl;
  valid = (at_floor-IsValid, omega arith);
}

pub node-NodeOk : NodeOk 2 node
node-NodeOk = record { own_id = refl; cabin = top-CabinOk; peers = peers-PeersOk }

-- A packet of elevator 1 without calls.
abbrev pub packet : NetworkPacket
packet = record {
  id = pos 1;
  orders = default_table;
  state = record (at_floor 2) { id = pos 1 };
  cab_button_orders = λ e f. default_order;
}

pub packet-valid : Packet.valid packet ≡ true
unfolding Packet.valid State.valid Table.valid Order.valid all_grid
packet-valid = refl

pub packet-PacketSound : PacketSound packet
packet-PacketSound = record { orders = default_table-AllSound; cabs = default_cabs-CabsSound }

abbrev actions : List Action
actions = Action.samples 9 ∷ Action.recieves 10 packet ∷ Action.responds 11 ∷ []

actions_acceptable : AllAcceptable actions
actions_acceptable = (tt, ((packet-valid, packet-PacketSound), (tt, tt)))

act_all-NodeOk_example : Returns (NodeOk 2) (act_all actions node)
act_all-NodeOk_example = act_all-NodeOk actions node actions_acceptable node-NodeOk

step-NodeOk_example : Returns (NodeOk 2) (step 9 node)
step-NodeOk_example = step-NodeOk 9 node node-NodeOk

recieve_packet_iff_example :
    (recieve_packet (pos 3) 700 (pos 700) packet ≡ true) ↔ Accepted (pos 3) 700 (pos 700) packet
recieve_packet_iff_example = recieve_packet_iff (pos 3) 700 (pos 700) packet

recieve_from-cabs_example :
    let s' = recieve_from 9 2 1 packet peers in
    (s'.cab_button_orders 1 3 ≡ on_update default_order default_order)
    × (s'.cab_button_orders 2 3 ≡ on_update default_order default_order)
    × (s'.cab_button_orders 0 3 ≡ default_order)
    × (s'.book.orders 3 2 ≡ on_update default_order default_order)
recieve_from-cabs_example =
    recieve_from-cabs 9 2 1 packet peers 3 0 (omega arith) (λ h. omega arith) (λ h. omega arith)
      (λ h. omega arith)

-- The cab button of floor 1 is pressed.
abbrev pressing : ElevatorNode
pressing = record node { button_signals = λ f b. f == 1 && b == 2 }

pressing-NodeOk : NodeOk 2 pressing
pressing-NodeOk = record { own_id = refl; cabin = top-CabinOk; peers = peers-PeersOk }

sync_peers-cab_example : (sync_peers pressing).rig.ctl.requests.table 1 2 ≡ true
sync_peers-cab_example =
    sync_peers-cab pressing 1 (omega arith) refl pressing-NodeOk (λ h. absurd cc)

-- Node 2 when the watchdogs of all others have run out.
abbrev unheard : ElevatorNode
unheard = record node {
  peers = record peers {
    watchdog_timers = set_at 2 default_timer (λ e. record { end_time = 5; active = true });
  };
}

unheard-NodeOk : NodeOk 2 unheard
unheard-NodeOk = record {
  own_id = refl;
  cabin = top-CabinOk;
  peers = record {
    base = record {
      own_id = refl;
      in_range = omega arith;
      unwatched = refl;
      sound = peers-PeersOk.base.sound;
      cabs = default_cabs-CabsSound;
    };
    active = refl;
    named = refl;
    own = peers-PeersOk.own;
  };
}

unheard-NoneHeard : NoneHeard 9 unheard.peers
unfolding expired
unheard-NoneHeard e he ne = ground arith

-- The server reports every button as pressed.
unheard_signal : (registered unheard).button_signals 3 1 ≡ true
unfolding register_button_signals pressed for_grid Elevator.step default_buttons Buttons.init
unheard_signal = refl

sample-NoneHeard_example :
    Returns
      (λ m.
        NodeOk 2 m
        × (assigned_to (pos 2) (m.peers.book.orders 3 1) ≡ true)
        × ((m.peers.book.order_timers 3 1).active ≡ true))
      (sample 9 unheard)
sample-NoneHeard_example =
    sample-NoneHeard 9 unheard 3 1 (omega arith) (omega arith) unheard-NodeOk unheard-NoneHeard
      unheard_signal refl

sync_peers-requests_example :
    (sync_peers pressing).rig.ctl.requests.table 3 1
    ≡ assigned_to (pos 2) (
        if pressing.button_signals 3 1
        then called 2 1 (pressing.peers.book.orders 3 1)
        else pressing.peers.book.orders 3 1)
sync_peers-requests_example = sync_peers-requests pressing 3 1 (omega arith) (omega arith)
