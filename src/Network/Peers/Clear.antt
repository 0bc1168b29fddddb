-- ===== src/Network/Peers/Clear.antt =====
-- libs/network, Peers::ClearOrders.
use cpp_elevator.Base.{ℕ, keep_if, ◌<◌, ◌≡◌, refl, arith, false, not, ◌&&◌, ◌||◌}
use cpp_elevator.Base.Int.{ℤ, pos, pos_part, eqb_ℤ, ltb_ℤ, leb_ℤ, ◌≤ℤ◌, ◌<ℤ◌}
use cpp_elevator.Base.Outcome.{Returns, for_range!-Returns}
use cpp_elevator.Common.{k_floors, k_buttons, ButtonFlags}
use cpp_elevator.OrderSync.Order.{on_clear, on_reset}
use cpp_elevator.Network.Hall.Sound.{put-AllSound}
use cpp_elevator.OrderSync.Order.Sound.{on_clear-IsSound, on_reset-IsSound}
use cpp_elevator.Network.Hall.{is_cab}
use cpp_elevator.Network.Peers.{Peers, flag, clear_round, clear_cab, clear_orders}
use cpp_elevator.Network.Peers.Ok.{PeersOk, PeersOk-of, put-CabsSound}

clear_round-PeersOk :
    {i : ℕ} (b2c : ButtonFlags) (floor b : ℕ) (p : Peers)
    → floor < k_floors
    → PeersOk i p
    → PeersOk i (clear_round b2c floor b p)
unfolding clear_round
clear_round-PeersOk {i = i} b2c floor b p hf ok =
    let cleared =
      put-AllSound p.book.orders floor b (on_clear (p.book.orders floor b)) ok.base.sound
        (λ hb. on_clear-IsSound (p.book.orders floor b) (ok.base.sound floor b hf hb)) in
    let reset =
      put-AllSound p.book.orders floor b (on_reset (on_clear (p.book.orders floor b))) ok.base.sound
        (λ hb.
          on_reset-IsSound (on_clear (p.book.orders floor b))
            (on_clear-IsSound (p.book.orders floor b) (ok.base.sound floor b hf hb))) in
    let kept =
      put-CabsSound p.cab_button_orders p.node_id floor
        (on_reset (on_clear (p.cab_button_orders p.node_id floor))) ok.base.cabs
        (on_reset-IsSound (on_clear (p.cab_button_orders p.node_id floor)) (
          on_clear-IsSound (p.cab_button_orders p.node_id floor)
            (ok.base.cabs p.node_id floor ok.base.in_range hf))) in
    keep_if (PeersOk i) (not (flag b2c b)) p _ ok (
      keep_if (PeersOk i) (is_cab b) _ _
        (PeersOk-of p (clear_cab floor b p) ok refl refl refl reset kept)
        (keep_if (PeersOk i) (eqb_ℤ (p.book.orders floor b).assigned_id (pos p.node_id)) _ p
          (PeersOk-of p _ ok refl refl refl cleared ok.base.cabs) ok))

-- At a floor of the building the clearing of orders returns, and keeps the invariant.
pub clear_orders-Returns :
    {i : ℕ} (floor : ℤ) (b2c : ButtonFlags) (p : Peers)
    → pos 0 ≤ℤ floor
    → floor <ℤ pos k_floors
    → PeersOk i p
    → Returns (PeersOk i) (clear_orders floor b2c p)
unfolding clear_orders
clear_orders-Returns {i = i} floor b2c p low high =
    for_range!-Returns (PeersOk i) _ k_buttons
      (λ b q _ ok.
        let hf : pos_part floor < k_floors = ground arith in
        let inside : flag b2c b && (ltb_ℤ floor (pos 0) || leb_ℤ (pos k_floors) floor) ≡ false =
          ground arith in
        rw inside (_, refl, clear_round-PeersOk b2c (pos_part floor) b q hf ok))
      p
