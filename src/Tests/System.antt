-- ===== src/Tests/System.antt =====
-- The elevators together, from a start at the top floor.
use mathlib.Core.Option.{Option, none, some}
use cpp_elevator.Base.{sym, ◌+◌, ℕ, ◌<◌, ◌≡◌, refl, ◌∙◌, ap, arith, true, false, List, [], ◌∷◌}
use cpp_elevator.Base.Int.{pos, eqb_ℤ}
use cpp_elevator.Base.Outcome.{Outcome, done, fault, Returns}
use cpp_elevator.Hardware.{Event, Reply}
use cpp_elevator.Common.{k_elevs, k_floors, k_between_floors, MotorDir}
use cpp_elevator.Control.Fsm.Safety.{Safe}
use cpp_elevator.Elevator.{Elevator, set_motor_dir, floor_sensor, wait_for_floor}
use cpp_elevator.Elevator
use cpp_elevator.Elevator.State.Updates.{IsValid}
use cpp_elevator.Elevator.Arrival.{reading, Docks, Queried, AtFloor, wait_for_floor_ends}
use cpp_elevator.Elevator.Start.{init_arrives}
use cpp_elevator.Hardware.Connection.{connected}
use cpp_elevator.Control.Controller
use cpp_elevator.Network.Packet.{valid}
use cpp_elevator.Node.{ElevatorNode, new, init, sample, respond}
use cpp_elevator.Node.Sync.{NodeOk}
use cpp_elevator.Main.{launch}
use cpp_elevator.Main.Start.{Serves, launch-NodeOk}
use cpp_elevator.Hardware.Connection.{Network, Decided, init_hardware, init_hardware_own_port}
use cpp_elevator.System.{System, Reach, sends, here, next}
use cpp_elevator.System.Sound.{PacketOk, AllPackets, tx_packet_copy-PacketOk}
use cpp_elevator.System.Start.{PoweredOn, PoweredOn-never_faults}
use cpp_elevator.Node.{tx_packet_copy}
use cpp_elevator.OrderSync.Order.Merge.{Agree}
use cpp_elevator.System.Agreement.{exchanged, two_nodes_converge}
use cpp_elevator.Network.Sockets.{UdpReciever}
use cpp_elevator.Tests.Cabin.{reports}
use cpp_elevator.Tests.Node.{node, node-NodeOk}

reports-Docks : Docks reports
reports-Docks = record { low = λ es h. omega arith; high = λ es h. omega arith }

arrives_at_once :
    (i : ℕ)
    → eqb_ℤ
        (reading 0 (set_motor_dir MotorDir.down (Elevator.new (pos i) (connected reports))))
        k_between_floors
      ≡ false
unfolding floor_sensor set_motor_dir
arrives_at_once i = refl

-- A server whose sensor reports no floor before the third reading.
abbrev late : List Event → Reply
late (a ∷ b ∷ c ∷ es) = record { b1 = pos 1; b2 = pos 1 }
late es = record { b1 = pos 0; b2 = pos 0 }

reads_a_floor :
    eqb_ℤ (reading 2 (Elevator.new (pos 2) (record { trace = []; world = late }))) k_between_floors
    ≡ false
unfolding floor_sensor
reads_a_floor = refl

wait_for_floor_ends_example :
    (e' : Elevator) × (wait_for_floor 4 (Elevator.new (pos 2) (record { trace = []; world = late }))
      ≡ some e')
    × Queried (Elevator.new (pos 2) (record { trace = []; world = late })) e'
    × AtFloor e'.hw
wait_for_floor_ends_example =
    wait_for_floor_ends 4 2 (Elevator.new (pos 2) (record { trace = []; world = late }))
      (omega arith) reads_a_floor

init_arrives_example :
    (e : Elevator) × (Elevator.init 1 (Elevator.new (pos 2) (connected reports)) ≡ some e)
    × Safe (record { ctl = Controller.new; elev = e })
    × (e.state.active ≡ true)
    × (e.state.id ≡ pos 2)
    × IsValid e.state
init_arrives_example =
    init_arrives 1 0 2 reports Controller.new (omega arith) (omega arith) (arrives_at_once 2)
      reports-Docks

-- A server for every port, at which all calls succeed.
abbrev net : Network
net = record {
  socket_result = pos 3;
  getaddrinfo_result = λ port. pos 0;
  connect_result = λ port. pos 0;
  server = λ port. reports;
}

net-Serves : (i : ℕ) → Serves net i (pos 1) 0
net-Serves i = record {
  created = refl;
  found = refl;
  accepted = refl;
  docks = reports-Docks;
  arrives = arrives_at_once i;
}

init_hardware_own_port_example : Decided net (pos (15_657 + 2)) (init_hardware net (pos 2) (pos 1))
init_hardware_own_port_example = init_hardware_own_port net 2 (omega arith)

launch-NodeOk_example :
    (r : Outcome ElevatorNode) × (launch net 1 9 9 2 (pos 1) ≡ some r) × Returns (NodeOk 2) r
launch-NodeOk_example =
    launch-NodeOk net 1 9 9 2 (pos 1) 0 (omega arith) (omega arith) (net-Serves 2)

-- The node that a launch ends with; `node` stands for none.
abbrev node_of : Option (Outcome ElevatorNode) → ElevatorNode
node_of (some (done n)) = n
node_of (some fault) = node
node_of none = node

abbrev powered_on : System
powered_on = record { nodes = λ i. node_of (launch net 1 9 9 i (pos 1)); air = [] }

launches : (i : ℕ) → i < k_elevs → launch net 1 9 9 i (pos 1) ≡ some (done (powered_on.nodes i))
launches i hi =
    let (r, e, (n, q, ok)) = launch-NodeOk net 1 9 9 i (pos 1) 0 hi (omega arith) (net-Serves i) in
    let w : launch net 1 9 9 i (pos 1) ≡ some (done n) = e ∙ ap some q in
    w ∙ ap (λ r. some (done (node_of r))) (sym w)

powered_on-PoweredOn : PoweredOn powered_on
powered_on-PoweredOn = record {
  nodes = λ i hi. record {
    net = net;
    sim = pos 1;
    fuel = 1;
    arrival = 0;
    unset = 9;
    now = 9;
    allowed = omega arith;
    serves = net-Serves i;
    ends = launches i hi;
  };
  silent = refl;
}

abbrev one_sent : System
one_sent = record powered_on { air = tx_packet_copy (powered_on.nodes 2) ∷ [] }

PoweredOn-never_faults_example :
    Returns (NodeOk 1) (sample 20 (one_sent.nodes 1))
    × Returns (NodeOk 1) (respond 20 (one_sent.nodes 1))
    × Safe (one_sent.nodes 1).rig
    × AllPackets (λ p. valid p ≡ true) one_sent.air
PoweredOn-never_faults_example =
    PoweredOn-never_faults 1 20 (omega arith) powered_on-PoweredOn
      (next here (sends 2 (omega arith)))

tx_packet_copy-PacketOk_example : PacketOk (tx_packet_copy node)
tx_packet_copy-PacketOk_example = tx_packet_copy-PacketOk node node-NodeOk

abbrev socket_3 : UdpReciever
socket_3 = record { socket_fd = pos 3; calls = [] }

two_nodes_converge_example :
    let u = exchanged 1 2 700 9 11 socket_3 socket_3 one_sent in
    Reach one_sent u
    × ((f b : ℕ)
        → f < k_floors
        → b < 2
        → Agree ((u.nodes 1).peers.book.orders f b) ((u.nodes 2).peers.book.orders f b))
two_nodes_converge_example =
    two_nodes_converge 1 2 700 9 11 socket_3 socket_3 (omega arith) (omega arith) (λ e. omega arith)
      (omega arith) (omega arith) powered_on-PoweredOn (next here (sends 2 (omega arith)))
