-- ===== src/System/Agreement.antt =====
-- The elevators together: any two nodes can come to agree.
use mathlib.Core.Path.{subst}
use cpp_elevator.Base.{ℕ, ◌<◌, ◌≡◌, ◌≢◌, ◌∙◌, sym, arith, refl, true, false, ◌∷◌}
use cpp_elevator.Base.Int.{ℤ, pos, ◌≤ℤ◌, eqb_ℤ}
use cpp_elevator.Common.{k_elevs, k_floors}
use cpp_elevator.OrderSync.Order.Merge.{Agree}
use cpp_elevator.Network.Packet.{NetworkPacket, valid, recieve_packet}
use cpp_elevator.Network.Sockets.{UdpReciever, recieve}
use cpp_elevator.Node.{ElevatorNode, tx_packet_copy, rx_packet_processing}
use cpp_elevator.Main.{rx_round}
use cpp_elevator.System.{System, Reach, set_node, sends, recieves, here, next}
use cpp_elevator.System.Sound.{Reach-SystemOk, tx_packet_copy-PacketOk}
use cpp_elevator.System.Start.{PoweredOn, PoweredOn-SystemOk}
use cpp_elevator.System.Exchange.{exchange-Agree, not_own}

recieve_packet_whole :
    (fd : ℤ) (size : ℕ) (p : NetworkPacket)
    → pos 0 ≤ℤ fd
    → valid p ≡ true
    → recieve_packet fd size (pos size) p ≡ true
unfolding recieve_packet
recieve_packet_whole fd size p h v = ground arith

-- A whole and valid packet of another node is processed.
rx_round_whole :
    (size now : ℕ) (packet : NetworkPacket) (r : UdpReciever) (n : ElevatorNode)
    → pos 0 ≤ℤ r.socket_fd
    → valid packet ≡ true
    → eqb_ℤ packet.id (pos n.node_id) ≡ false
    → (rx_round size (pos size) packet now (r, n)).1 ≡ rx_packet_processing now packet n
unfolding rx_round recieve
rx_round_whole size now packet r n fd_open v other =
    rw (recieve_packet_whole r.socket_fd size packet fd_open v, other) refl

-- Nodes `i` and `j` have sent a packet each.
abbrev pub both_sent : ℕ → ℕ → System → System
both_sent i j t = record t { air = tx_packet_copy (t.nodes j) ∷ tx_packet_copy (t.nodes i) ∷ t.air }

-- Then node `i` has received the packet of `j`, and node `j` that of `i`.
abbrev pub one_recieved : ℕ → ℕ → ℕ → ℕ → UdpReciever → System → System
one_recieved i j size now r t =
    set_node i (rx_round size (pos size) (tx_packet_copy (t.nodes j)) now (r, t.nodes i)).1
      (both_sent i j t)

abbrev pub exchanged : ℕ → ℕ → ℕ → ℕ → ℕ → UdpReciever → UdpReciever → System → System
exchanged i j size now later r r' t =
    set_node j (rx_round size (pos size) (tx_packet_copy (t.nodes i)) later (r', t.nodes j)).1
      (one_recieved i j size now r t)

set_node_other :
    (i j : ℕ) (n : ElevatorNode) (s : System) → i ≢ j → (set_node i n s).nodes j ≡ s.nodes j
set_node_other i j n s ne = ground arith

set_node_same : (i : ℕ) (n : ElevatorNode) (s : System) → (set_node i n s).nodes i ≡ n
set_node_same i n s = ground arith

exchanged-Reach :
    (i j size now later : ℕ) (r r' : UdpReciever) (t : System)
    → i < k_elevs
    → j < k_elevs
    → i ≢ j
    → Reach t (exchanged i j size now later r r' t)
exchanged-Reach i j size now later r r' t hi hj ne =
    let third : Reach t (one_recieved i j size now r t) =
      next (next (next here (sends i hi)) (sends j hj))
        (recieves i now 0 size (pos size) r hi refl) in
    subst
      (λ m. Reach t (
        set_node j (rx_round size (pos size) (tx_packet_copy (t.nodes i)) later (r', m)).1
          (one_recieved i j size now r t)))
      (set_node_other i j _ (both_sent i j t) ne)
      (next third (recieves j later 1 size (pos size) r' hj refl))

-- From every state that the elevators reach, when two of them each send a packet and then each receive
-- the packet of the other, they agree on all hall orders, and the system can reach that state. The
-- elevators were powered on, with servers that serve them; the packets arrive whole, on open sockets.
pub two_nodes_converge :
    {s t : System} (i j size now later : ℕ) (r r' : UdpReciever)
    → i < k_elevs
    → j < k_elevs
    → i ≢ j
    → pos 0 ≤ℤ r.socket_fd
    → pos 0 ≤ℤ r'.socket_fd
    → PoweredOn s
    → Reach s t
    → let u = exchanged i j size now later r r' t in
      Reach t u
      × ((f b : ℕ)
          → f < k_floors
          → b < 2
          → Agree ((u.nodes i).peers.book.orders f b) ((u.nodes j).peers.book.orders f b))
two_nodes_converge {t = t} i j size now later r r' hi hj ne fd_open fd_open' on reached =
    let n = t.nodes i in
    let m = t.nodes j in
    let u = exchanged i j size now later r r' t in
    let ok = Reach-SystemOk (PoweredOn-SystemOk _ on) reached in
    let n_ok = ok.nodes i hi in
    let m_ok = ok.nodes j hj in
    let back : j ≢ i = λ e. ne (sym e) in
    let at_i : u.nodes i ≡ rx_packet_processing now (tx_packet_copy m) n =
      set_node_other j i _ (one_recieved i j size now r t) back
      ∙ set_node_same i _ (both_sent i j t)
      ∙ rx_round_whole size now (tx_packet_copy m) r n fd_open
          (tx_packet_copy-PacketOk m m_ok).accepted (not_own i j n m n_ok m_ok ne) in
    let at_j : u.nodes j ≡ rx_packet_processing later (tx_packet_copy n) m =
      set_node_same j _ (one_recieved i j size now r t)
      ∙ rx_round_whole size later (tx_packet_copy n) r' m fd_open'
          (tx_packet_copy-PacketOk n n_ok).accepted (not_own j i m n m_ok n_ok back) in
    (
      exchanged-Reach i j size now later r r' t hi hj ne,
      λ f b hf hb. rw (at_i, at_j) (exchange-Agree i j n m now later f b n_ok m_ok ne hf hb),
    )
