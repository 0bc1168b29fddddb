-- ===== src/Main/Start.antt =====
-- services/elevator-node, main.cpp: from the arguments to the threads.
use mathlib.Core.Option.{Option, some}
use mathlib.Core.Option
use cpp_elevator.Base.{ℕ, ap, ◌<◌, ◌≡◌, false, inl, inr}
use cpp_elevator.Base.Int.{ℤ, pos, negsuc, eqb_ℤ}
use cpp_elevator.Base.Outcome.{Outcome, done, Returns}
use cpp_elevator.Common.{k_elevs, k_between_floors, MotorDir}
use cpp_elevator.Hardware.Connection.{
  Network, connected, port_of, init_hardware, init_hardware-Decided,
}
use cpp_elevator.Elevator.{set_motor_dir}
use cpp_elevator.Elevator
use cpp_elevator.Elevator.Arrival.{reading, Docks}
use cpp_elevator.Network.Peers.{Peers}
use cpp_elevator.Node.{ElevatorNode, new, step}
use cpp_elevator.Node.Sync.{NodeOk}
use cpp_elevator.Node.Step.{first_step-NodeOk}
use cpp_elevator.Node.Start.{init-NodeBase}
use cpp_elevator.Main.{start, start_on, launch}

-- The connection to the server of node `id` is made, the server reports floors of the building, it
-- reports one after `arrival` readings, and it keeps a stopped cabin at its floor.
pub record Serves (net : Network) (id : ℕ) (sim : ℤ) (arrival : ℕ) : Type 0 where
  pub created : eqb_ℤ net.socket_result (negsuc 0) ≡ false
  pub found : net.getaddrinfo_result (port_of (pos id) sim) ≡ pos 0
  pub accepted : net.connect_result (port_of (pos id) sim) ≡ pos 0
  pub docks : Docks (net.server (port_of (pos id) sim))
  pub arrives :
      eqb_ℤ
        (reading arrival (
          set_motor_dir MotorDir.down
            (Elevator.new (pos id) (connected (net.server (port_of (pos id) sim))))))
        k_between_floors
      ≡ false

init_hardware-connected :
    (net : Network) (id : ℕ) (sim : ℤ) (arrival : ℕ)
    → Serves net id sim arrival
    → init_hardware net (pos id) sim ≡ done (connected (net.server (port_of (pos id) sim)))
init_hardware-connected net id sim arrival s = elim (init_hardware-Decided net (pos id) sim) [
  | inl (_, made) ↦ made
  | inr (not_made, _) ↦
      absurd (not_made (record { created = s.created; found = s.found; accepted = s.accepted }))
]

-- With an id of the system and a server that serves it, `main` gets to its threads: the connection,
-- `Init` and the first control step end without a fault, and then the node's invariant holds. The
-- fuel allows for the readings until the sensor reports a floor.
pub launch-NodeOk :
    (net : Network) (fuel now unset id : ℕ) (sim : ℤ) (arrival : ℕ)
    → id < k_elevs
    → arrival < fuel
    → Serves net id sim arrival
    → (r : Outcome ElevatorNode) × (launch net fuel now unset id sim ≡ some r)
      × Returns (NodeOk id) r
unfolding launch start_on start
launch-NodeOk net fuel now unset id sim arrival hid lt s =
    let w = init_hardware-connected net id sim arrival s in
    let (n, e, base) =
      init-NodeBase fuel arrival unset id (net.server (port_of (pos id) sim)) hid lt s.arrives
        s.docks in
    (step now n, rw w (ap (Option.map (step now)) e), first_step-NodeOk now n base)
