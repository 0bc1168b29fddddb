-- ===== src/Network/Packet/Valid.antt =====
-- libs/network, NetworkPacket::Valid and UdpReciever::RecievePacket: which packets are accepted.
use cpp_elevator.Base.{ℕ, ◌<◌, ◌≡◌, ◌↔◌, arith, true}
use cpp_elevator.Base.Int.{ℤ, pos, ◌≤ℤ◌, ◌<ℤ◌}
use cpp_elevator.Base.Grid.{all_grid, all_grid_elim, all_grid_intro}
use cpp_elevator.Common.{k_elevs, k_floors}
use cpp_elevator.OrderSync.Order
use cpp_elevator.OrderSync.Table
use cpp_elevator.Elevator.State
use cpp_elevator.Network.Packet.{NetworkPacket, valid, recieve_packet}

-- The call returned a whole packet on an open socket, and all parts of the packet are valid.
pub record Accepted (socket_fd : ℤ) (packet_size : ℕ) (bytes_rcvd : ℤ) (p : NetworkPacket)
    : Type 0 where
  pub socket_open : pos 0 ≤ℤ socket_fd
  pub whole : bytes_rcvd ≡ pos packet_size
  pub id_from : pos 0 ≤ℤ p.id
  pub id_below : p.id <ℤ pos k_elevs
  pub state_valid : State.valid p.state ≡ true
  pub orders_valid : Table.valid p.orders ≡ true
  pub cabs_valid :
      (e f : ℕ) → e < k_elevs → f < k_floors → Order.valid (p.cab_button_orders e f) ≡ true

-- A received packet is accepted exactly if it is whole and all its parts are valid.
pub recieve_packet_iff :
    (socket_fd : ℤ) (packet_size : ℕ) (bytes_rcvd : ℤ) (p : NetworkPacket)
    → (recieve_packet socket_fd packet_size bytes_rcvd p ≡ true)
      ↔ Accepted socket_fd packet_size bytes_rcvd p
unfolding recieve_packet valid
recieve_packet_iff fd size bytes p = (
  λ h. record {
    socket_open = ground arith;
    whole = ground arith;
    id_from = ground arith;
    id_below = ground arith;
    state_valid = ground arith;
    orders_valid = ground arith;
    cabs_valid = λ e f he hf.
        let all : all_grid k_elevs k_floors (λ e f. Order.valid (p.cab_button_orders e f)) ≡ true =
          ground arith in
        all_grid_elim k_elevs k_floors (λ e f. Order.valid (p.cab_button_orders e f)) e f all he hf;
  },
  λ a.
      let all =
        all_grid_intro k_elevs k_floors (λ e f. Order.valid (p.cab_button_orders e f))
          a.cabs_valid in
      let w = a.whole in ground arith,
)

pub Accepted-valid :
    (socket_fd : ℤ) (packet_size : ℕ) (bytes_rcvd : ℤ) (p : NetworkPacket)
    → Accepted socket_fd packet_size bytes_rcvd p
    → valid p ≡ true
unfolding recieve_packet
Accepted-valid fd size bytes p a =
    let got = (recieve_packet_iff fd size bytes p).1 a in ground arith
