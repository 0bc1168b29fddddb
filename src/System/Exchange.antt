-- ===== src/System/Exchange.antt =====
-- The elevators together: what two nodes that exchange packets make of a hall order.
use cpp_elevator.Node.Sync.{NodeOk}
use cpp_elevator.Base.{sym, ◌∙◌, ◌≢◌, ℕ, ◌<◌, ◌≡◌, arith, refl, false}
use cpp_elevator.Base.Int.{pos, pos_part, eqb_ℤ}
use cpp_elevator.Base.Loops.{for_range_inv}
use cpp_elevator.Common.{k_floors}
use cpp_elevator.OrderSync.Order.{on_update}
use cpp_elevator.OrderSync.Order.Merge.{Agree, on_update-Agree_comm}
use cpp_elevator.OrderSync.Table.{join}
use cpp_elevator.OrderSync.Table.Cells.{join-cell}
use cpp_elevator.Network.Packet.{NetworkPacket}
use cpp_elevator.Network.Packet
use cpp_elevator.Network.Peers.{Peers, update_watchdog_timer}
use cpp_elevator.Node.{ElevatorNode, cab_round, recieve_from, rx_packet_processing, tx_packet_copy}

-- The rounds over the cab orders leave the hall orders alone.
recieve_from-hall :
    (now n p : ℕ) (packet : NetworkPacket) (s : Peers) (f b : ℕ)
    → f < k_floors
    → b < 2
    → (recieve_from now n p packet s).book.orders f b
      ≡ on_update (s.book.orders f b) (packet.orders f b)
unfolding recieve_from update_watchdog_timer
recieve_from-hall now n p packet s f b hf hb =
    let merged : join s.book.orders packet.orders f b
        ≡ on_update (s.book.orders f b) (packet.orders f b) =
      let cell = join-cell s.book.orders packet.orders f b hf (omega arith) in ground arith in
    for_range_inv
      (λ (q : Peers). q.book.orders f b ≡ on_update (s.book.orders f b) (packet.orders f b))
      (cab_round n p packet) k_floors (λ i q hi h. ground arith) _ merged

rx_packet_processing-hall :
    (now : ℕ) (packet : NetworkPacket) (n : ElevatorNode) (f b : ℕ)
    → f < k_floors
    → b < 2
    → eqb_ℤ packet.id (pos n.node_id) ≡ false
    → (rx_packet_processing now packet n).peers.book.orders f b
      ≡ on_update (n.peers.book.orders f b) (packet.orders f b)
unfolding rx_packet_processing
rx_packet_processing-hall now packet n f b hf hb other =
    rw other (recieve_from-hall now n.node_id (pos_part packet.id) packet n.peers f b hf hb)

tx_packet_copy-order :
    (n : ElevatorNode) (f b : ℕ) → (tx_packet_copy n).orders f b ≡ n.peers.book.orders f b
unfolding tx_packet_copy Packet.init
tx_packet_copy-order n f b = refl

tx_packet_copy-id : (i : ℕ) (n : ElevatorNode) → NodeOk i n → (tx_packet_copy n).id ≡ pos i
unfolding tx_packet_copy Packet.init
tx_packet_copy-id i n ok = rw (ok.peers.base.own_id ∙ sym ok.own_id) at ok.peers.named

-- A packet of node `j` is not one of node `i` itself.
pub not_own :
    (i j : ℕ) (n m : ElevatorNode)
    → NodeOk i n
    → NodeOk j m
    → i ≢ j
    → eqb_ℤ (tx_packet_copy m).id (pos n.node_id) ≡ false
not_own i j n m ok ok' ne =
    let p = tx_packet_copy-id j m ok' in let q = ok.own_id in rw (p, q) (ground arith)

-- Two nodes of different ids that have each received the packet that the other made before agree on
-- every hall order: on its version, its status, its observers and the confirmed assignee. The
-- invariants of both nodes hold.
pub exchange-Agree :
    (i j : ℕ) (n m : ElevatorNode) (now later f b : ℕ)
    → NodeOk i n
    → NodeOk j m
    → i ≢ j
    → f < k_floors
    → b < 2
    → Agree
        ((rx_packet_processing now (tx_packet_copy m) n).peers.book.orders f b)
        ((rx_packet_processing later (tx_packet_copy n) m).peers.book.orders f b)
exchange-Agree i j n m now later f b ok ok' ne hf hb =
    rw
      (
        rx_packet_processing-hall now (tx_packet_copy m) n f b hf hb (not_own i j n m ok ok' ne),
        rx_packet_processing-hall later (tx_packet_copy n) m f b hf hb
            (not_own j i m n ok' ok (λ e. ne (sym e))),
        tx_packet_copy-order n f b,
        tx_packet_copy-order m f b,
      )
      (on_update-Agree_comm (n.peers.book.orders f b) (m.peers.book.orders f b))
