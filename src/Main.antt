-- ===== src/Main.antt =====
-- services/elevator-node, main.cpp: the arguments, the start, the loops of the three threads and the
-- order of the shutdown. The clock and `g_running` are read anew in every round, so they are
-- functions of the number of the round. `sleep_until` and the printing are left out.
pub mod Loops
pub mod Pace
pub mod Start
use mathlib.Core.Option
use mathlib.Core.Option.{Option, none, some}
use cpp_elevator.Base.{ℕ, zero, suc, ◌+◌, ◌*◌, Bool, ◌&&◌, ltb, if◌then◌else◌, List, [], ◌∷◌}
use cpp_elevator.Base.Int.{ℤ, pos, eqb_ℤ}
use cpp_elevator.Base.Outcome.{Outcome, done, fault, ◌>>=◌}
use cpp_elevator.Common.Timer.{ticks_per_ms}
use cpp_elevator.Hardware.{Hardware, shutdown_hardware}
use cpp_elevator.Hardware.Connection.{Network, init_hardware}
use cpp_elevator.Network.Packet.{NetworkPacket}
use cpp_elevator.Network.Sockets.{UdpBroadcaster, UdpReciever, send, recieve}
use cpp_elevator.Node.{
  ElevatorNode, set_elev, new, init, sample, respond, step, stop, tx_packet_copy,
  rx_packet_processing,
}

-- How the reading of the arguments ends: by an abort, with the exit code 1, or with both numbers.
pub data Arguments : Type 0 where
  aborts exits_1 : Arguments
  given : ℤ → ℤ → Arguments

-- `stoi` of the arguments is `none` where it throws.
unfoldable pub arguments : ℕ → Option ℤ → Option ℤ → Arguments
arguments argc none sim = if ltb argc 3 then Arguments.aborts else Arguments.exits_1
arguments argc (some id) none = if ltb argc 3 then Arguments.aborts else Arguments.exits_1
arguments argc (some id) (some sim) =
    if ltb argc 3 then Arguments.aborts else Arguments.given id sim

-- What `main` does with a node before the threads start: `Init`, and a control step.
unfoldable pub start : ℕ → ℕ → ElevatorNode → Option (Outcome ElevatorNode)
unfolding init step
start fuel now n = Option.map (step now) (init fuel n)

start_on : ℕ → ℕ → ℕ → ℕ → Outcome Hardware → Option (Outcome ElevatorNode)
unfolding start
start_on fuel now unset id (done hw) = start fuel now (new unset id hw)
start_on fuel now unset id fault = some fault

-- From the arguments to the threads, for an id that is not negative.
unfoldable pub launch : Network → ℕ → ℕ → ℕ → ℕ → ℤ → Option (Outcome ElevatorNode)
unfolding start_on init_hardware
launch net fuel now unset id sim = start_on fuel now unset id (init_hardware net (pos id) sim)

-- The test of every loop.
abbrev pub keeps_on : Bool → ElevatorNode → Bool
keeps_on g_running n = g_running && n.running

-- Packets that the receiver processes one after the other, each with the time.
abbrev pub Heard : Type 0
Heard = List (ℕ × NetworkPacket)

unfoldable pub hear : Heard → ElevatorNode → ElevatorNode
unfolding rx_packet_processing
hear [] n = n
hear ((now, packet) ∷ rest) n = hear rest (rx_packet_processing now packet n)

-- A round of the control loop, beside the receiver, which takes the mutex between the two locked
-- sections of the step, and until the next round.
unfoldable pub control_round : ℕ → Heard → Heard → ElevatorNode → Outcome ElevatorNode
unfolding sample respond hear
control_round now within after n =
    sample now n >>= (λ m. respond now (hear within m)) >>= (λ m. done (hear after m))

-- The control loop, from round `k`, at most `fuel` rounds; `none` is a loop that still runs. What is
-- heard during round `k` and until the next one is `heard k`.
unfoldable pub control_loop :
    ℕ
    → ℕ
    → (ℕ → Bool)
    → (ℕ → ℕ)
    → (ℕ → Heard × Heard)
    → ElevatorNode
    → Outcome (Option ElevatorNode)
unfolding control_round
control_loop zero k g_running clock heard n = done none
control_loop (suc fuel) k g_running clock heard n =
    let (within, after) = heard k in
    let rest =
      control_round (clock k) within after n >>= control_loop fuel (suc k) g_running clock heard in
    if keeps_on (g_running k) n then rest else done (some n)

-- The shutdown behind the control loop, without the joins: the sender ends when it finds the node
-- stopped, and the receiver when it does so behind the packet that it waits for.
unfoldable pub shut_down : ElevatorNode → ElevatorNode
unfolding stop shutdown_hardware
shut_down n =
    let n' = stop n in set_elev (record (n'.rig.elev) { hw = shutdown_hardware n'.rig.elev.hw }) n'

-- The main thread from the control loop to its end.
unfoldable pub run_until_signal :
    ℕ → (ℕ → Bool) → (ℕ → ℕ) → (ℕ → Heard × Heard) → ElevatorNode → Outcome (Option ElevatorNode)
unfolding control_loop shut_down
run_until_signal fuel g_running clock heard n =
    control_loop fuel 0 g_running clock heard n >>= (λ r. done (Option.map shut_down r))

-- A round of `RxThreadLoop`, where `recvfrom` returned `bytes_rcvd` and wrote `packet`.
unfoldable pub rx_round :
    ℕ → ℤ → NetworkPacket → ℕ → UdpReciever × ElevatorNode → UdpReciever × ElevatorNode
unfolding recieve rx_packet_processing
rx_round packet_size bytes_rcvd packet now (r, n) =
    let (ok, r') = recieve packet_size bytes_rcvd packet r in
    if ok
    then (if eqb_ℤ packet.id (pos n.node_id)
        then (r', n)
        else (r', rx_packet_processing now packet n))
    else (r', n)

-- A round of `TxThreadLoop`, where `sendto` returned `bytes_sent`.
unfoldable pub tx_round : ℕ → ℤ → UdpBroadcaster × ElevatorNode → Bool × UdpBroadcaster
unfolding send tx_packet_copy
tx_round packet_size bytes_sent (b, n) = send packet_size bytes_sent (tx_packet_copy n) b

-- `kTxPeriod`, in ticks.
abbrev pub k_tx_period : ℕ
k_tx_period = 50 * ticks_per_ms

-- When the next round of `TxThreadLoop` starts, after one that ended at `now`.
unfoldable pub next_tx : ℕ → ℕ → ℕ
next_tx now next =
    let next' = next + k_tx_period in if ltb next' now then now + k_tx_period else next'
