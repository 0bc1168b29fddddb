-- ===== src/System.antt =====
-- The elevators together: numbered nodes that send packets to each other. A packet that was sent
-- reaches any node at any time, any number of times or never, which is what UDP promises. The
-- threads of one node take turns by its mutex, in any order; those of different nodes share nothing.
pub mod Sound
pub mod Start
pub mod Exchange
pub mod Agreement
use cpp_elevator.Base.{ℕ, zero, suc, true, ◌<◌, ◌≡◌, List, [], ◌∷◌}
use mathlib.Core.Option.{Option, none, some}
use cpp_elevator.Common.{k_elevs}
use cpp_elevator.Base.Outcome.{done}
use cpp_elevator.Network.Packet.{NetworkPacket}
use cpp_elevator.Network.Sockets.{UdpReciever}
use cpp_elevator.Base.Int.{ℤ}
use cpp_elevator.Main.{rx_round}
use cpp_elevator.Network.Peers.{set_at}
use cpp_elevator.Node.{ElevatorNode, tx_packet_copy, sample, respond}

-- `air` holds the packets that were sent.
pub record System : Type 0 where
  pub nodes : ℕ → ElevatorNode
  pub air : List NetworkPacket

abbrev pub set_node : ℕ → ElevatorNode → System → System
set_node i n s = record s { nodes = set_at i n s.nodes }

-- The packet at a place of the list, if there is one.
abbrev pub pick : ℕ → List NetworkPacket → Option NetworkPacket
pick k [] = none
pick zero (p ∷ ps) = some p
pick (suc k) (p ∷ ps) = pick k ps

-- What the threads of node `i` do, and a node that they leave. There is no step where a process
-- ends by an assertion or an abort.
pub data Step (s : System) : System → Type 0 where
  samples :
      (i now : ℕ) {n : ElevatorNode}
      → i < k_elevs
      → sample now (s.nodes i) ≡ done n
      → Step s (set_node i n s)
  responds :
      (i now : ℕ) {n : ElevatorNode}
      → i < k_elevs
      → respond now (s.nodes i) ≡ done n
      → Step s (set_node i n s)
  sends : (i : ℕ) → i < k_elevs → Step s (record s { air = tx_packet_copy (s.nodes i) ∷ s.air })
  recieves :
      (i now k size : ℕ) (bytes : ℤ) (r : UdpReciever) {packet : NetworkPacket}
      → i < k_elevs
      → pick k s.air ≡ some packet
      → Step s (set_node i (rx_round size bytes packet now (r, s.nodes i)).1 s)

-- The states that the nodes reach from `s`.
pub data Reach (s : System) : System → Type 0 where
  here : Reach s s
  next : {t u : System} → Reach s t → Step t u → Reach s u
