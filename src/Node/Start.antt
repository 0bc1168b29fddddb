-- ===== src/Node/Start.antt =====
-- services/elevator-node, from the constructor to the end of Init.
use mathlib.Core.Option.{Option, none, some}
use mathlib.Core.Option
use mathlib.Core.List.{Mem}
use cpp_elevator.Base.{ℕ, ap, ◌<◌, ◌≡◌, refl, arith, false, List}
use cpp_elevator.Base.Int.{pos, eqb_ℤ}
use cpp_elevator.Common.{k_elevs, k_between_floors, MotorDir}
use cpp_elevator.Hardware.{Event, Reply}
use cpp_elevator.Control.Controller
use cpp_elevator.Elevator.{Elevator, set_motor_dir}
use cpp_elevator.Elevator
use cpp_elevator.Elevator.Arrival.{reading, Docks}
use cpp_elevator.Elevator.Start.{downwards, init_arrives, init_ends}
use cpp_elevator.Hardware.Connection.{connected}
use cpp_elevator.Network.Peers.Ok.{init-PeersBase}
use cpp_elevator.Node.{ElevatorNode, new, init}
use cpp_elevator.Node.Sync.{NodeBase}

pub init-NodeBase :
    (fuel k unset id : ℕ) (world : List Event → Reply)
    → id < k_elevs
    → k < fuel
    → eqb_ℤ
        (reading k (set_motor_dir MotorDir.down (Elevator.new (pos id) (connected world))))
        k_between_floors
      ≡ false
    → Docks world
    → (n : ElevatorNode) × (init fuel (new unset id (connected world)) ≡ some n) × NodeBase id n
unfolding init Controller.init Controller.new
init-NodeBase fuel k unset id world hid lt r docks =
    let (e, w, safe, active, named, valid) =
      init_arrives fuel k id world (Controller.init Controller.new) hid lt r docks in
    (
      _,
      ap (Option.map _) w,
      record {
        own_id = refl;
        cabin = record {
          safe = safe;
          named = named;
          active = active;
          valid = (valid, omega arith);
        };
        peers = init-PeersBase unset id hid;
      },
    )

pub init_ends-node_id :
    (fuel k : ℕ) (n : ElevatorNode)
    → k < fuel
    → eqb_ℤ (reading k (set_motor_dir MotorDir.down n.rig.elev)) k_between_floors ≡ false
    → n.rig.elev.state.stopped ≡ false
    → (n' : ElevatorNode) × (init fuel n ≡ some n')
      × (n'.node_id ≡ n.node_id)
      × Mem downwards n'.rig.elev.hw.trace
unfolding init
init_ends-node_id fuel k n lt r free =
    let (e, w, sent) = init_ends fuel k n.rig.elev lt r free in (_, ap (Option.map _) w, refl, sent)
