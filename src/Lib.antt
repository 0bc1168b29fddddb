-- ===== src/Lib.antt =====
-- cpp-elevator: the peer-to-peer elevator nodes of the repository.
--
-- A node runs one elevator and shares the hall orders with the other nodes by UDP broadcast. Every
-- node keeps the same table of orders and merges what it receives; an order that all active nodes
-- have observed is confirmed for one elevator, and that elevator's controller serves it. The parts,
-- from the cabin up to the node:
--
--   Common            libs/common: config.hpp and types.hpp; Common.Timer is timer.hpp, over a clock
--                     in ticks of a nanosecond that is passed in. Common.Utils is utils.hpp, over
--                     the texts that were printed so far.
--   Hardware          libs/hardware: each function of hardware.cpp appends its four bytes to a
--                     trace; replies come from an arbitrary function of the trace.
--   Elevator.Buttons  libs/buttons: OrderButton, OrderButtonTable, StopButton.
--   Elevator.State    libs/elevator, elevator_state.cpp: a record with one function per method; the
--                     getters are its fields.
--   Elevator          libs/elevator, elevator.cpp: the methods as functions on a record that also
--                     carries the socket.
--   OrderSync.Order   libs/ordersync, class Order: `on_update o rcv` is `o.OnUpdate(rcv)`; the other
--                     methods have the order last.
--   OrderSync.Table   libs/ordersync, class OrderTable.
--   Control.Requests  libs/control, requests.cpp.
--   Control.Controller, Control.Fsm
--                     libs/control, controller.cpp: decisions, and event handlers on a record of
--                     controller and elevator.
--   Network.Costs     libs/network, peers.cpp, CalculateElevatorCosts.
--   Network.Assign    libs/network, peers.cpp, ReassignHallOrder.
--   Network.Hall      libs/network, peers.cpp, the loops over the hall orders and their timers; `Book`
--                     is the pair of members that they change, orders_ and order_timers_.
--   Network.Peers     libs/network, peers.cpp, Step with its monitors, ClearOrders and the watchdogs.
--                     A failed assertion, `Abort` or an index out of range is `fault` there.
--   Network.Packet    libs/network, udp_bcast.cpp, the packet and the tests around the socket calls.
--   Node              services/elevator-node, elevator_node.cpp: Step, split at the end of its first
--                     locked section into `sample` and `respond`, and RxPacketProcessing.
--   Node.Step         the threads of main.cpp as sequences of these actions, in any order.
--   Network.Sockets   libs/network, udp_bcast.cpp, the sockets from constructor to destructor, as the
--                     list of the system calls on a descriptor; their results are arguments.
--   Hardware.Connection
--                     libs/hardware, init_hardware, over what the system calls return.
--   Elevator.Arrival, Elevator.Start, Node.Start
--                     the `Init` methods, from the constructors on a fresh connection.
--   Main              services/elevator-node, main.cpp: the arguments, the start, the loops of the
--                     three threads, the pace of the sender and the stop by a signal.
--   System            the elevators together: nodes that send packets to each other, over a network
--                     that loses, repeats, delays and reorders them.
--   Base              booleans, signed integers, bits, loops and grids that the parts share.
--   Tests             runs of the definitions, and the theorems at concrete inputs.
--
-- Conventions. An `int` is a signed integer without bounds; a `uint64_t` version wraps at 2 ^ 64;
-- `1u << e` is 2 ^ e, for e below 32. An array is a function of its indices, and loops run over the
-- constants of config.hpp. Enumerations have further constructors for bytes that name no enumerator.
-- A failed assertion or `Abort` in the hardware functions is the event `halted` of the trace: what
-- follows it in the trace does not happen. A handler, and a step of Peers, reads the clock once. The
-- id of a node is a natural number, as its uses for an index and a shift require; one that is no
-- elevator of the system fails in Peers::State. The rounds of the floor searches are counted from
-- the floor and the number of floors, which is what their loop conditions allow; waiting for a floor
-- takes a number of readings as fuel, and `none` says that the cabin is still on its way then. The
-- control loop takes a number of rounds as fuel, and `none` says that it still runs then. An `int`
-- is printed with ten digits at most.
--
-- Not modelled: the calls that print a message on the way of an operation, whose result they do not
-- change; sleeping, the mutexes and the threads themselves, and the bytes of a packet: the source sends the memory of the object, which is carried along whole. The
-- operating system, the elevator server and the clock are arguments.
pub mod Base
pub mod Common
pub mod OrderSync
pub mod Hardware
pub mod Elevator
pub mod Control
pub mod Network
pub mod Node
pub mod System
pub mod Main
pub mod Tests
