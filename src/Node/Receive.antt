-- ===== src/Node/Receive.antt =====
-- services/elevator-node, ElevatorNode::RxPacketProcessing: a packet of another elevator.
use cpp_elevator.Base.{sym, ◌∙◌, ℕ, refl, ◌<◌, keep_if, ◌≡◌, ◌≢◌, arith, true, false, ◌==◌}
use cpp_elevator.Base.Int.{pos, pos_part, eqb_ℤ}
use cpp_elevator.Base.Loops.{for_range_inv}
use cpp_elevator.Common.{k_elevs, k_floors, BtnType, btn_index}
use cpp_elevator.OrderSync.Table.{OrderTable, join}
use cpp_elevator.OrderSync.Table.Cells.{join-cell}
use cpp_elevator.Elevator.State.{ElevatorState}
use cpp_elevator.Network.Hall.Sound.{AllSound, put-AllSound}
use cpp_elevator.OrderSync.Order.Sound.{IsSound, on_update-IsSound}
use cpp_elevator.Network.Packet.{NetworkPacket, valid}
use cpp_elevator.Network.Peers.{Peers, update_watchdog_timer}
use cpp_elevator.Network.Peers.Ok.{
  PeersOk, PeersOk-of, CabsSound, put-CabsSound, with_book-PeersOk, set_at_other,
}
use cpp_elevator.Node.{ElevatorNode, cab_round, recieve_from, set_state}

join-AllSound : (t rcv : OrderTable) → AllSound t → AllSound rcv → AllSound (join t rcv)
join-AllSound t rcv h r f b hf hb = rw (join-cell t rcv f b hf hb) (
    keep_if IsSound (b == btn_index BtnType.cab) _ _ (h f b hf hb)
      (on_update-IsSound (t f b) (rcv f b) (h f b hf hb) (r f b hf hb)))

watchdog-PeersOk :
    {i : ℕ} (now e : ℕ) (p : Peers)
    → p.node_id ≢ e
    → PeersOk i p
    → PeersOk i (update_watchdog_timer now e p)
unfolding update_watchdog_timer
watchdog-PeersOk now e p ne ok =
    PeersOk-of p (update_watchdog_timer now e p) ok refl refl
      (set_at_other e _ p.watchdog_timers p.node_id ne) ok.base.sound ok.base.cabs

set_other-PeersOk :
    {i : ℕ} (e : ℕ) (p : Peers) (s : ElevatorState)
    → p.node_id ≢ e
    → PeersOk i p
    → PeersOk i (set_state e s p)
set_other-PeersOk e p s ne ok =
    PeersOk-of p (set_state e s p) ok refl (set_at_other e s p.all_states p.node_id ne) refl
      ok.base.sound ok.base.cabs

-- The orders that a packet carries are sound.
pub record PacketSound (packet : NetworkPacket) : Type 0 where
  pub orders : AllSound packet.orders
  pub cabs : CabsSound packet.cab_button_orders

cab_round-PeersOk :
    {i : ℕ} (n p : ℕ) (packet : NetworkPacket) (f : ℕ) (s : Peers)
    → f < k_floors
    → n < k_elevs
    → p < k_elevs
    → PacketSound packet
    → PeersOk i s
    → PeersOk i (cab_round n p packet f s)
cab_round-PeersOk n p packet f s hf hn hp r ok =
    let cab_node = r.cabs n f hn hf in
    let kept = put-CabsSound s.cab_button_orders p f _ ok.base.cabs (
      on_update-IsSound (s.cab_button_orders p f) (packet.orders f 2) (ok.base.cabs p f hp hf)
        (r.orders f 2 hf (omega arith))) in
    let own = on_update-IsSound _ (packet.cab_button_orders n f) (kept n f hn hf) cab_node in
    PeersOk-of s (cab_round n p packet f s) ok refl refl refl
      (put-AllSound s.book.orders f 2 _ ok.base.sound (λ h.
        on_update-IsSound (s.book.orders f 2) (packet.cab_button_orders n f)
          (ok.base.sound f 2 hf h) cab_node))
      (put-CabsSound _ n f _ kept own)

recieve_from-PeersOk :
    {i : ℕ} (now n p : ℕ) (packet : NetworkPacket) (s : Peers)
    → s.node_id ≢ p
    → n < k_elevs
    → p < k_elevs
    → PacketSound packet
    → PeersOk i s
    → PeersOk i (recieve_from now n p packet s)
unfolding recieve_from update_watchdog_timer
recieve_from-PeersOk {i = i} now n p packet s ne hn hp r ok =
    let ok₁ = watchdog-PeersOk now p s ne ok in
    let ok₂ = set_other-PeersOk p (update_watchdog_timer now p s) _ ne ok₁ in
    for_range_inv (PeersOk i) (cab_round n p packet) k_floors
      (λ f s hf. cab_round-PeersOk n p packet f s hf hn hp r) _
      (with_book-PeersOk _ _ ok₂ (join-AllSound s.book.orders packet.orders ok.base.sound r.orders))

pub recieved-PeersOk :
    {i : ℕ} (now : ℕ) (packet : NetworkPacket) (n : ElevatorNode)
    → valid packet ≡ true
    → PacketSound packet
    → eqb_ℤ packet.id (pos n.node_id) ≡ false
    → n.node_id ≡ i
    → PeersOk i n.peers
    → PeersOk i (recieve_from now n.node_id (pos_part packet.id) packet n.peers)
unfolding valid
recieved-PeersOk now packet n v r other own ok =
    let ne : n.peers.node_id ≢ pos_part packet.id =
      λ q. let same = ok.base.own_id in ground arith in
    recieve_from-PeersOk now n.node_id (pos_part packet.id) packet n.peers ne
      (rw (ok.base.own_id ∙ sym own) at ok.base.in_range) (ground arith) r ok
