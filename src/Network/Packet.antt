-- ===== src/Network/Packet.antt =====
-- libs/network, udp_bcast.cpp: the packet, and the tests around the socket calls. What a call
-- returns is an argument: the number of bytes sent or received, negative for an error.
pub mod Valid
use cpp_elevator.Base.{ℕ, Bool, true, false, not, ◌&&◌, ◌||◌, if◌then◌else◌}
use cpp_elevator.Base.Int.{ℤ, pos, ltb_ℤ, leb_ℤ, eqb_ℤ}
use cpp_elevator.Base.Grid.{Grid, all_grid}
use cpp_elevator.Common.{k_elevs, k_floors}
use cpp_elevator.OrderSync.Order.{Order}
use cpp_elevator.OrderSync.Order
use cpp_elevator.OrderSync.Table.{OrderTable}
use cpp_elevator.OrderSync.Table
use cpp_elevator.Elevator.State.{ElevatorState}
use cpp_elevator.Elevator.State

-- `CabOrderTable`: an order for each elevator and floor.
abbrev pub CabOrderTable : Type 0
CabOrderTable = Grid Order

pub record NetworkPacket : Type 0 where
  pub id : ℤ
  pub orders : OrderTable
  pub state : ElevatorState
  pub cab_button_orders : CabOrderTable

-- `Init`, whose three pointers are not null.
unfoldable pub init : OrderTable → ElevatorState → CabOrderTable → NetworkPacket
init orders state cab_button_orders = record {
  id = state.id;
  orders = orders;
  state = state;
  cab_button_orders = cab_button_orders;
}

abbrev pub id_out_of_range : NetworkPacket → Bool
id_out_of_range p = ltb_ℤ p.id (pos 0) || leb_ℤ (pos k_elevs) p.id

unfoldable pub valid : NetworkPacket → Bool
valid p =
    if id_out_of_range p
    then false
    else if not (State.valid p.state)
    then false
    else if not (Table.valid p.orders)
    then false
    else all_grid k_elevs k_floors (λ e f. Order.valid (p.cab_button_orders e f))

-- Whether `SendPacket` calls `sendto`, and what it then returns.
unfoldable pub send_packet : ℤ → ℕ → ℤ → NetworkPacket → Bool
send_packet socket_fd packet_size bytes_sent p =
    if ltb_ℤ socket_fd (pos 0)
    then false
    else if id_out_of_range p
    then false
    else if ltb_ℤ bytes_sent (pos 0)
    then false
    else eqb_ℤ bytes_sent (pos packet_size)

unfoldable pub recieve_packet : ℤ → ℕ → ℤ → NetworkPacket → Bool
unfolding valid
recieve_packet socket_fd packet_size bytes_rcvd p =
    if ltb_ℤ socket_fd (pos 0)
    then false
    else if ltb_ℤ bytes_rcvd (pos 0) || not (eqb_ℤ bytes_rcvd (pos packet_size))
    then false
    else if not (valid p)
    then false
    else true
