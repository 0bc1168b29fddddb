-- ===== src/Network/Sockets/Life.antt =====
-- libs/network, udp_bcast.cpp: what becomes of a descriptor over the life of its object.
use cpp_elevator.Base.{ℕ, ◌∙◌, ◌≡◌, ◌⊎◌, refl, arith, List, [], ◌∷◌, if◌then◌else◌, ◌&&◌}
use cpp_elevator.Base.Int.{ℤ, pos, ltb_ℤ, eqb_ℤ, leb_ℤ, ◌≤ℤ◌, ◌<ℤ◌}
use cpp_elevator.Network.Packet.{NetworkPacket}
use cpp_elevator.Network.Sockets.{
  SysCall, UdpBroadcaster, UdpReciever, new_broadcaster, drop_broadcaster, send, new_reciever,
  drop_reciever, recieve, close_reciever,
}

-- What the operating system knows of the one descriptor. `misused` is a call on a descriptor that is
-- not open, a second `close` among them, or a second `socket`.
pub data Descriptor : Type 0 where
  unopened closed misused : Descriptor
  opened : ℤ → Descriptor

-- A call on `fd`, after which the descriptor is `next`.
abbrev pub used : ℤ → Descriptor → Descriptor → Descriptor
used fd next Descriptor.unopened = Descriptor.misused
used fd next Descriptor.closed = Descriptor.misused
used fd next Descriptor.misused = Descriptor.misused
used fd next (Descriptor.opened mine) = if eqb_ℤ fd mine then next else Descriptor.misused

abbrev pub created : ℤ → Descriptor → Descriptor
created fd Descriptor.unopened =
    if ltb_ℤ fd (pos 0) then Descriptor.unopened else Descriptor.opened fd
created fd Descriptor.closed = Descriptor.misused
created fd Descriptor.misused = Descriptor.misused
created fd (Descriptor.opened mine) = Descriptor.misused

abbrev pub after : List SysCall → Descriptor
after [] = Descriptor.unopened
after (SysCall.socket fd ∷ cs) = created fd (after cs)
after (SysCall.bind fd ∷ cs) = used fd (Descriptor.opened fd) (after cs)
after (SysCall.shutdown fd ∷ cs) = used fd (Descriptor.opened fd) (after cs)
after (SysCall.close fd ∷ cs) = used fd Descriptor.closed (after cs)
after (SysCall.sendto fd ∷ cs) = used fd (Descriptor.opened fd) (after cs)
after (SysCall.recvfrom fd ∷ cs) = used fd (Descriptor.opened fd) (after cs)
after (SysCall.setsockopt name fd ∷ cs) = used fd (Descriptor.opened fd) (after cs)

-- The end that a descriptor should have: closed once, or not created at all.
abbrev pub released : ℤ → Descriptor
released fd = if ltb_ℤ fd (pos 0) then Descriptor.unopened else Descriptor.closed

-- What an object holds: its descriptor, which is open, or a negative number when that is released.
abbrev pub Holds : ℤ → ℤ → List SysCall → Type 0
Holds fd held calls =
    ((held <ℤ pos 0) × (after calls ≡ released fd))
    ⊎ ((held ≡ fd) × (pos 0 ≤ℤ fd) × (after calls ≡ Descriptor.opened fd))

-- The calls of a receiver between its constructor and its destructor, with their results.
pub data RecieverOp : Type 0 where
  recieves : ℕ → ℤ → NetworkPacket → RecieverOp
  closes : RecieverOp

unfoldable pub do_op : RecieverOp → UdpReciever → UdpReciever
unfolding recieve close_reciever
do_op (RecieverOp.recieves size bytes p) r = (recieve size bytes p r).1
do_op RecieverOp.closes r = close_reciever r

unfoldable pub do_ops : List RecieverOp → UdpReciever → UdpReciever
unfolding do_op
do_ops [] r = r
do_ops (o ∷ os) r = do_ops os (do_op o r)

new_reciever-Holds :
    (fd bound : ℤ) → Holds fd (new_reciever fd bound).socket_fd (new_reciever fd bound).calls
unfolding new_reciever
new_reciever-Holds fd bound = ground arith

do_op-Holds :
    (fd : ℤ) (o : RecieverOp) (r : UdpReciever)
    → Holds fd r.socket_fd r.calls
    → Holds fd (do_op o r).socket_fd (do_op o r).calls
unfolding do_op recieve close_reciever
do_op-Holds fd (RecieverOp.recieves size bytes p) r h = ground arith
do_op-Holds fd RecieverOp.closes r h = ground arith

do_ops-Holds :
    (fd : ℤ) (os : List RecieverOp) (r : UdpReciever)
    → Holds fd r.socket_fd r.calls
    → Holds fd (do_ops os r).socket_fd (do_ops os r).calls
unfolding do_ops
do_ops-Holds fd [] r h = h
do_ops-Holds fd (o ∷ os) r h = do_ops-Holds fd os (do_op o r) (do_op-Holds fd o r h)

drop_reciever-released :
    (fd : ℤ) (r : UdpReciever)
    → Holds fd r.socket_fd r.calls
    → after (drop_reciever r).calls ≡ released fd
unfolding drop_reciever
drop_reciever-released fd r h = ground arith

-- Whatever the system calls return, and whatever is received and closed in between, a receiver has
-- closed its descriptor exactly once at its end, and has used none that was not open.
pub reciever-released :
    (fd bound : ℤ) (os : List RecieverOp)
    → after (drop_reciever (do_ops os (new_reciever fd bound))).calls ≡ released fd
reciever-released fd bound os =
    drop_reciever-released fd _
      (do_ops-Holds fd os (new_reciever fd bound) (new_reciever-Holds fd bound))

-- A call of `SendPacket`: the bytes that were sent, and the packet.
abbrev pub Sending : Type 0
Sending = ℕ × ℤ × NetworkPacket

unfoldable pub send_all : List Sending → UdpBroadcaster → UdpBroadcaster
unfolding send
send_all [] b = b
send_all ((size, bytes, p) ∷ rest) b = send_all rest (send size bytes p b).1

new_broadcaster-Holds :
    (fd enabled parsed : ℤ) (addr : ℕ)
    → let b = new_broadcaster fd enabled parsed addr in Holds fd b.socket_fd b.calls
unfolding new_broadcaster
new_broadcaster-Holds fd enabled parsed addr = ground arith

send-Holds :
    (fd : ℤ) (size : ℕ) (bytes : ℤ) (p : NetworkPacket) (b : UdpBroadcaster)
    → Holds fd b.socket_fd b.calls
    → Holds fd (send size bytes p b).1.socket_fd (send size bytes p b).1.calls
unfolding send
send-Holds fd size bytes p b h = ground arith

send_all-Holds :
    (fd : ℤ) (xs : List Sending) (b : UdpBroadcaster)
    → Holds fd b.socket_fd b.calls
    → Holds fd (send_all xs b).socket_fd (send_all xs b).calls
unfolding send_all
send_all-Holds fd [] b h = h
send_all-Holds fd ((size, bytes, p) ∷ rest) b h =
    send_all-Holds fd rest (send size bytes p b).1 (send-Holds fd size bytes p b h)

drop_broadcaster-released :
    (fd : ℤ) (b : UdpBroadcaster)
    → Holds fd b.socket_fd b.calls
    → after (drop_broadcaster b).calls
      ≡ (if eqb_ℤ b.socket_fd (pos 0) then Descriptor.opened (pos 0) else released fd)
unfolding drop_broadcaster
drop_broadcaster-released fd b h = ground arith

send_all_fd : (xs : List Sending) (b : UdpBroadcaster) → (send_all xs b).socket_fd ≡ b.socket_fd
unfolding send_all send
send_all_fd [] b = refl
send_all_fd ((size, bytes, p) ∷ rest) b = send_all_fd rest (send size bytes p b).1 ∙ ground arith

-- Whatever the system calls return and whatever is sent, a broadcaster has used no descriptor that
-- was not open, and has closed its own exactly once at its end; but the descriptor 0, if the option
-- was set on it, is left open.
pub broadcaster-released :
    (fd enabled parsed : ℤ) (addr : ℕ) (xs : List Sending)
    → after (drop_broadcaster (send_all xs (new_broadcaster fd enabled parsed addr))).calls ≡ (
        if eqb_ℤ fd (pos 0) && leb_ℤ (pos 0) enabled
        then Descriptor.opened (pos 0)
        else released fd)
unfolding new_broadcaster
broadcaster-released fd enabled parsed addr xs =
    let b = new_broadcaster fd enabled parsed addr in
    let keeps = send_all_fd xs b in
    drop_broadcaster-released fd (send_all xs b)
      (send_all-Holds fd xs b (new_broadcaster-Holds fd enabled parsed addr))
    ∙ rw keeps (ground arith)
