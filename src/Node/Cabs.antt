-- ===== src/Node/Cabs.antt =====
-- services/elevator-node, ElevatorNode::RxPacketProcessing: the orders of the cab buttons, which
-- the nodes keep for each other.
use cpp_elevator.Base.{ℕ, ◌<◌, ◌≡◌, ◌≢◌, arith}
use cpp_elevator.Base.Loops.{for_range}
use cpp_elevator.Common.{k_floors}
use cpp_elevator.OrderSync.Order.{on_update}
use cpp_elevator.OrderSync.Table.Cells.{join-cell}
use cpp_elevator.Network.Packet.{NetworkPacket}
use cpp_elevator.Network.Peers.{Peers, update_watchdog_timer}
use cpp_elevator.Node.{recieve_from}

-- A packet of elevator `p` merges its own cab orders into what the node keeps for `p`, and what `p`
-- has kept for the node into the node's cab orders, in the table too; the cab orders of the other
-- elevators are unchanged.
pub recieve_from-cabs :
    (now n p : ℕ) (packet : NetworkPacket) (s : Peers) (f e : ℕ)
    → f < k_floors
    → n ≢ p
    → e ≢ n
    → e ≢ p
    → let s' = recieve_from now n p packet s in
      (s'.cab_button_orders p f ≡ on_update (s.cab_button_orders p f) (packet.orders f 2))
      × (s'.cab_button_orders n f
          ≡ on_update (s.cab_button_orders n f) (packet.cab_button_orders n f))
      × (s'.cab_button_orders e f ≡ s.cab_button_orders e f)
      × (s'.book.orders f 2 ≡ on_update (s.book.orders f 2) (packet.cab_button_orders n f))
unfolding recieve_from for_range update_watchdog_timer
recieve_from-cabs now n p packet s f e h np en ep =
    let kept = join-cell s.book.orders packet.orders f 2 h (omega arith) in ground arith
