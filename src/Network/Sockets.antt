-- ===== src/Network/Sockets.antt =====
-- libs/network, udp_bcast.cpp: the sockets of UdpBroadcaster and UdpReciever, from the constructor
-- to the destructor. What a system call returns is an argument, and the calls that are made are
-- recorded, the newest first. What is printed is left out.
pub mod Life
use cpp_elevator.Base.{ℕ, Bool, ◌||◌, List, [], ◌∷◌, if◌then◌else◌}
use cpp_elevator.Base.Int.{ℤ, pos, negsuc, ltb_ℤ, leb_ℤ}
use cpp_elevator.Network.Packet.{NetworkPacket, id_out_of_range, send_packet, recieve_packet}

pub data SockOpt : Type 0 where
  so_broadcast so_reuseaddr so_rcvtimeo : SockOpt

-- The system calls with the descriptor that they are given; `socket` has the one that it returned.
pub data SysCall : Type 0 where
  socket bind shutdown close sendto recvfrom : ℤ → SysCall
  setsockopt : SockOpt → ℤ → SysCall

-- `bcast_addr` is the address of `bcast_addr_`, which `memset` has set to zero.
pub record UdpBroadcaster : Type 0 where
  pub socket_fd : ℤ
  pub bcast_addr : ℕ
  pub calls : List SysCall

pub record UdpReciever : Type 0 where
  pub socket_fd : ℤ
  pub calls : List SysCall

abbrev pub no_socket : ℤ
no_socket = negsuc 0

unfoldable pub new_broadcaster : ℤ → ℤ → ℤ → ℕ → UdpBroadcaster
new_broadcaster fd enabled parsed addr =
    let created = SysCall.socket fd ∷ [] in
    let set = SysCall.setsockopt SockOpt.so_broadcast fd ∷ created in
    if ltb_ℤ fd (pos 0)
    then record { socket_fd = fd; bcast_addr = 0; calls = created }
    else if ltb_ℤ enabled (pos 0)
    then record { socket_fd = no_socket; bcast_addr = 0; calls = SysCall.close fd ∷ set }
    else record {
      socket_fd = fd;
      bcast_addr = if leb_ℤ parsed (pos 0) then 0 else addr;
      calls = set;
    }

-- `~UdpBroadcaster`.
unfoldable pub drop_broadcaster : UdpBroadcaster → UdpBroadcaster
drop_broadcaster b =
    if ltb_ℤ (pos 0) b.socket_fd
    then record b { calls = SysCall.close b.socket_fd ∷ b.calls }
    else b

-- `SendPacket` with the call that it makes.
unfoldable pub send : ℕ → ℤ → NetworkPacket → UdpBroadcaster → Bool × UdpBroadcaster
unfolding send_packet
send packet_size bytes_sent p b = (
  send_packet b.socket_fd packet_size bytes_sent p,
  if ltb_ℤ b.socket_fd (pos 0) || id_out_of_range p
      then b
      else record b { calls = SysCall.sendto b.socket_fd ∷ b.calls },
)

-- The results of `setsockopt` for the reuse and the timeout change nothing.
unfoldable pub new_reciever : ℤ → ℤ → UdpReciever
new_reciever fd bound =
    let created = SysCall.socket fd ∷ [] in
    let bind = SysCall.bind fd ∷ SysCall.setsockopt SockOpt.so_reuseaddr fd ∷ created in
    if ltb_ℤ fd (pos 0)
    then record { socket_fd = fd; calls = created }
    else if ltb_ℤ bound (pos 0)
    then record { socket_fd = no_socket; calls = SysCall.close fd ∷ bind }
    else record { socket_fd = fd; calls = SysCall.setsockopt SockOpt.so_rcvtimeo fd ∷ bind }

-- `~UdpReciever`.
unfoldable pub drop_reciever : UdpReciever → UdpReciever
drop_reciever r =
    if leb_ℤ (pos 0) r.socket_fd
    then record r { calls = SysCall.close r.socket_fd ∷ r.calls }
    else r

-- `RecievePacket` with the call that it makes, which received `p`.
unfoldable pub recieve : ℕ → ℤ → NetworkPacket → UdpReciever → Bool × UdpReciever
unfolding recieve_packet
recieve packet_size bytes_rcvd p r = (
  recieve_packet r.socket_fd packet_size bytes_rcvd p,
  if ltb_ℤ r.socket_fd (pos 0)
      then r
      else record r { calls = SysCall.recvfrom r.socket_fd ∷ r.calls },
)

-- `UdpReciever::Close`.
unfoldable pub close_reciever : UdpReciever → UdpReciever
close_reciever r =
    if leb_ℤ (pos 0) r.socket_fd
    then record {
      socket_fd = no_socket;
      calls = SysCall.close r.socket_fd ∷ SysCall.shutdown r.socket_fd ∷ r.calls;
    }
    else r
