-- ===== src/Tests/Main.antt =====
-- The loops of main.cpp and the sockets, on concrete inputs.
use mathlib.Core.Option.{some, none}
use cpp_elevator.Base.{
  ℕ, Bool, ◌+◌, ◌*◌, ◌≤◌, ◌<◌, ◌⊎◌, ◌≡◌, refl, arith, false, [], ◌∷◌, ltb, ◌&&◌, if◌then◌else◌,
}
use cpp_elevator.Base.Int.{pos, eqb_ℤ, leb_ℤ}
use cpp_elevator.Base.Outcome.{Returns}
use cpp_elevator.Hardware.Connection.{port_of}
use cpp_elevator.Network.Sockets.{new_reciever, drop_reciever, new_broadcaster, drop_broadcaster}
use cpp_elevator.Network.Sockets.Life.{
  Descriptor, after, released, RecieverOp, do_ops, reciever-released, send_all,
  broadcaster-released,
}
use cpp_elevator.Node.{ElevatorNode}
use cpp_elevator.Node.Sync.{NodeOk}
use cpp_elevator.Main.{Arguments, arguments, Heard, keeps_on, run_until_signal, k_tx_period}
use cpp_elevator.Main.Loops.{run_until_signal_ends}
use cpp_elevator.Main.Pace.{next_tx_at, next_tx_at-spaced}
use cpp_elevator.Tests.Node.{node, node-NodeOk, packet, packet-PacketSound, packet-valid}

-- With the second argument no number, and with too few.
exits : arguments 3 (some (pos 2)) none ≡ Arguments.exits_1
unfolding arguments
exits = refl

aborts : arguments 2 (some (pos 2)) none ≡ Arguments.aborts
unfolding arguments
aborts = refl

-- An id with so many digits that the buffer cuts the port off.
cut_port : port_of (pos 99_984_343) (pos 1) ≡ pos 1_000_000
unfolding port_of
cut_port = refl

-- A signal during the third round.
abbrev signal : ℕ → Bool
signal k = ltb k 3

-- A packet of another node in each round.
abbrev one_each : ℕ → Heard × Heard
one_each k = ((k * 40, packet) ∷ [], [])

run_until_signal_ends_example :
    Returns
      (λ r.
        (n' : ElevatorNode) × (r ≡ some n') × NodeOk 2 n' × ((g : Bool) → keeps_on g n' ≡ false))
      (run_until_signal 4 signal (λ k. k * 40) one_each node)
run_until_signal_ends_example =
    run_until_signal_ends 4 3 signal (λ k. k * 40) one_each node (omega arith) refl
      (λ k. (((packet-valid, packet-PacketSound), tt), tt)) node-NodeOk

next_tx_at-spaced_example :
    let late : ℕ → ℕ = λ k. 900_000_000 in
    (next_tx_at late 7 1 + 2 * k_tx_period ≤ next_tx_at late 7 (2 + 1))
    × (late 1 ≤ next_tx_at late 7 2)
    × ((late 1 ≤ next_tx_at late 7 1 + k_tx_period
          × (next_tx_at late 7 2 ≡ next_tx_at late 7 1 + k_tx_period))
        ⊎ (next_tx_at late 7 1 + k_tx_period < late 1
            × (next_tx_at late 7 2 ≡ late 1 + k_tx_period)))
next_tx_at-spaced_example = next_tx_at-spaced (λ k. 900_000_000) 7 1 2

-- What `main` does, which closes the socket before it is destroyed.
reciever-released_example :
    after
      (drop_reciever (
        do_ops
          (RecieverOp.recieves 700 (pos 700) packet ∷ RecieverOp.closes ∷ [])
          (new_reciever (pos 5) (pos 0)))).calls
    ≡ released (pos 5)
reciever-released_example =
    reciever-released (pos 5) (pos 0)
      (RecieverOp.recieves 700 (pos 700) packet ∷ RecieverOp.closes ∷ [])

broadcaster-released_example :
    after
      (drop_broadcaster
        (send_all ((700, pos 700, packet) ∷ []) (new_broadcaster (pos 0) (pos 0) (pos 1) 7))).calls
    ≡ (if eqb_ℤ (pos 0) (pos 0) && leb_ℤ (pos 0) (pos 0)
        then Descriptor.opened (pos 0)
        else released (pos 0))
broadcaster-released_example =
    broadcaster-released (pos 0) (pos 0) (pos 1) 7 ((700, pos 700, packet) ∷ [])
