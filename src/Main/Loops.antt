-- ===== src/Main/Loops.antt =====
-- services/elevator-node, main.cpp: the loops of the threads.
use mathlib.Core.Option.{Option, some}
use cpp_elevator.Base.{
  ℕ, zero, suc, ◌+◌, ◌<◌, ◌≤◌, ◌≡◌, refl, arith, Bool, true, false, keep_if, [], ◌∷◌, keep_cases,
  ◌⊎◌, inl, inr, Bool-cases, sym, if◌then◌else◌,
}
use cpp_elevator.Base.Int.{ℤ, pos, eqb_ℤ}
use cpp_elevator.Base.Outcome.{Returns, Returns->>=}
use cpp_elevator.Network.Packet.{NetworkPacket, valid, recieve_packet}
use cpp_elevator.Network.Packet.Valid.{Accepted, Accepted-valid, recieve_packet_iff}
use mathlib.Core.Path.{subst}
use cpp_elevator.Network.Sockets.{UdpReciever, recieve}
use cpp_elevator.Node.{ElevatorNode, sample, rx_packet_processing}
use cpp_elevator.Node.Receive.{PacketSound}
use cpp_elevator.Node.Sync.{NodeOk, NodeBase-of_Ok}
use cpp_elevator.Node.Step.{sample-Returns, respond-Returns, recieved-NodeOk}
use cpp_elevator.Main.{
  Heard, hear, control_round, shut_down, keeps_on, control_loop, run_until_signal, rx_round,
}

-- A loop that ended, with the invariant of the node.
abbrev pub Ended : ℕ → Option ElevatorNode → Type 0
Ended i r = (n : ElevatorNode) × (r ≡ some n) × NodeOk i n

later_than :
    (k m : ℕ) (g_running : ℕ → Bool) (n : ElevatorNode)
    → keeps_on (g_running k) n ≡ true
    → g_running m ≡ false
    → k ≤ m
    → suc k ≤ m
later_than k m g_running n on off le = grind arith

-- All packets are valid, and their orders sound.
abbrev pub AllSound : Heard → Type 0
AllSound [] = Unit {0}
AllSound ((now, packet) ∷ rest) = ((valid packet ≡ true) × PacketSound packet) × AllSound rest

hear-NodeOk :
    {i : ℕ} (heard : Heard) (n : ElevatorNode)
    → AllSound heard
    → NodeOk i n
    → NodeOk i (hear heard n)
unfolding hear
hear-NodeOk [] n h ok = ok
hear-NodeOk ((now, packet) ∷ rest) n ((v, sound), h) ok =
    hear-NodeOk rest _ h (recieved-NodeOk now packet n v sound ok)

control_round-NodeOk :
    {i : ℕ} (now : ℕ) (within after : Heard) (n : ElevatorNode)
    → AllSound within
    → AllSound after
    → NodeOk i n
    → Returns (NodeOk i) (control_round now within after n)
unfolding control_round
control_round-NodeOk {i = i} now within after n hw ha ok =
    Returns->>= {P = NodeOk i} _ _
      (Returns->>= {P = NodeOk i} (sample now n) _ (sample-Returns now n (NodeBase-of_Ok n ok))
        (λ m h. respond-Returns now (hear within m) (hear-NodeOk within m hw h)))
      (λ m h. (hear after m, refl, hear-NodeOk after m ha h))

control_loop-Ended :
    {i : ℕ} (fuel k m : ℕ) (g_running : ℕ → Bool) (clock : ℕ → ℕ) (heard : ℕ → Heard × Heard)
    (n : ElevatorNode)
    → k ≤ m
    → m < k + fuel
    → g_running m ≡ false
    → ((j : ℕ) → AllSound (heard j).0 × AllSound (heard j).1)
    → NodeOk i n
    → Returns (Ended i) (control_loop fuel k g_running clock heard n)
unfolding control_loop
control_loop-Ended zero k m g_running clock heard n le lt off h ok = absurd (omega arith)
control_loop-Ended {i = i} (suc fuel) k m g_running clock heard n le lt off h ok =
    keep_cases (Returns (Ended i)) (keeps_on (g_running k) n) _ _
      (λ on.
        let later : suc k ≤ m = later_than k m g_running n on off le in
        Returns->>= {P = NodeOk i} (control_round (clock k) (heard k).0 (heard k).1 n) _
          (control_round-NodeOk (clock k) (heard k).0 (heard k).1 n (h k).0 (h k).1 ok)
          (λ n' ok'.
            control_loop-Ended fuel (suc k) m g_running clock heard n' later (omega arith) off h
              ok'))
      (λ _. (some n, refl, (n, refl, ok)))

shut_down-NodeOk : {i : ℕ} (n : ElevatorNode) → NodeOk i n → NodeOk i (shut_down n)
unfolding shut_down
shut_down-NodeOk n ok = ground arith

-- When a signal has been caught by some round, the control loop ends at that round at the latest,
-- without a fault, whatever packets the receiver processes beside it, as long as they are valid and
-- their orders sound. The node is stopped then, so that the test of every thread's loop fails, and its
-- invariant holds, as it does at the start.
pub run_until_signal_ends :
    {i : ℕ} (fuel m : ℕ) (g_running : ℕ → Bool) (clock : ℕ → ℕ) (heard : ℕ → Heard × Heard)
    (n : ElevatorNode)
    → m < fuel
    → g_running m ≡ false
    → ((j : ℕ) → AllSound (heard j).0 × AllSound (heard j).1)
    → NodeOk i n
    → Returns
        (λ r.
          (n' : ElevatorNode) × (r ≡ some n') × NodeOk i n' × ((g : Bool) → keeps_on g n' ≡ false))
        (run_until_signal fuel g_running clock heard n)
unfolding run_until_signal shut_down
run_until_signal_ends {i = i} fuel m g_running clock heard n lt off h ok =
    Returns->>= {P = Ended i} (control_loop fuel 0 g_running clock heard n) _
      (control_loop-Ended fuel 0 m g_running clock heard n (omega arith) (omega arith) off h ok)
      (λ r (n', e, ok').
        (_, refl, (shut_down n', rw e, shut_down-NodeOk n' ok', λ g. ground arith)))

-- What a round of the receiver makes of the node: an accepted packet of another node is processed;
-- one of its own, or one that is not accepted, leaves the node as it was.
abbrev pub Handled : ℕ → ℤ → NetworkPacket → ℕ → UdpReciever → ElevatorNode → ElevatorNode → Type 0
Handled packet_size bytes_rcvd packet now r n n' =
    (Accepted r.socket_fd packet_size bytes_rcvd packet
      × (n' ≡ (if eqb_ℤ packet.id (pos n.node_id) then n else rx_packet_processing now packet n)))
    ⊎ ((¬ Accepted r.socket_fd packet_size bytes_rcvd packet) × (n' ≡ n))

rx_round-Handled :
    (packet_size : ℕ) (bytes_rcvd : ℤ) (packet : NetworkPacket) (now : ℕ) (r : UdpReciever)
    (n : ElevatorNode)
    → Handled packet_size bytes_rcvd packet now r n
        (rx_round packet_size bytes_rcvd packet now (r, n)).1
unfolding rx_round recieve
rx_round-Handled size bytes packet now r n =
    let accepts = recieve_packet_iff r.socket_fd size bytes packet in
    elim (Bool-cases (recieve_packet r.socket_fd size bytes packet)) [
      | inl got ↦ inl (accepts.0 got, rw got (ground arith))
      | inr not_got ↦ inr ((λ a. let got = accepts.1 a in cc), rw not_got refl)
    ]

pub rx_round-NodeOk :
    {i : ℕ} (packet_size : ℕ) (bytes_rcvd : ℤ) (packet : NetworkPacket) (now : ℕ) (r : UdpReciever)
    (n : ElevatorNode)
    → (valid packet ≡ true → PacketSound packet)
    → NodeOk i n
    → let n' = (rx_round packet_size bytes_rcvd packet now (r, n)).1 in
      Handled packet_size bytes_rcvd packet now r n n' × NodeOk i n'
rx_round-NodeOk {i = i} packet_size bytes_rcvd packet now r n sound ok =
    let handled = rx_round-Handled packet_size bytes_rcvd packet now r n in
    (handled, by_case (rx_round packet_size bytes_rcvd packet now (r, n)).1 handled)
  where
    by_case : (n' : ElevatorNode) → Handled packet_size bytes_rcvd packet now r n n' → NodeOk i n'
    by_case n' (inr (_, same)) = subst (NodeOk i) (sym same) ok
    by_case n' (inl (a, e)) =
        let v = Accepted-valid r.socket_fd packet_size bytes_rcvd packet a in
        subst (NodeOk i) (sym e) (
          keep_if (NodeOk i) (eqb_ℤ packet.id (pos n.node_id)) _ _ ok
            (recieved-NodeOk now packet n v (sound v) ok))
