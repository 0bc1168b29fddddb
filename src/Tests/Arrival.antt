-- ===== src/Tests/Arrival.antt =====
-- services/elevator-node: a cabin that arrives with a call on board.
use cpp_elevator.Hardware.{msg}
use cpp_elevator.Control.Fsm.Safety.{Safe}
use cpp_elevator.Elevator.State.Updates.{IsValid}
use cpp_elevator.Tests.Cabin.{reports}
use cpp_elevator.Tests.Node.{node}
use cpp_elevator.Base.{[], ◌∷◌, refl, arith, ◌&&◌, ◌==◌, inl, inr}
use cpp_elevator.Base.Int.{pos}
use cpp_elevator.Base.Grid.{put}
use cpp_elevator.Base.Outcome.{Returns}
use cpp_elevator.Common.{MotorDir, MovingState, OrderStatus}
use cpp_elevator.OrderSync.Order.{Order, default_order}
use cpp_elevator.OrderSync.Order.Sound.{IsSound}
use cpp_elevator.Network.Hall.Sound.{put-AllSound}
use cpp_elevator.Network.Peers.Ok.{default_cabs-CabsSound}
use cpp_elevator.Control.Controller.{should_stop}
use cpp_elevator.Control.Requests.{value}
use cpp_elevator.Control.Fsm.{fsm_floor_arrival}
use cpp_elevator.Control.Fsm.Arrival.{StopsAt}
use cpp_elevator.Node.{ElevatorNode, run}
use cpp_elevator.Node.Sync.{NodeOk}
use cpp_elevator.Node.Arrival.{HasServed, arrival-HasServed}
use cpp_elevator.Tests.Network.{peers, peers-PeersOk, some_orders, some_orders-AllSound}

-- Node 2 on its way up.
abbrev on_the_way : ElevatorNode
on_the_way = record node {
  rig = record (node.rig) {
    elev = record (node.rig.elev) {
      state = record (node.rig.elev.state) {
        motor_dir = MotorDir.up;
        moving_state = MovingState.moving;
      };
      hw = record { trace = msg 1 1 0 0 ∷ []; world = reports };
    };
  };
}

on_the_way-Safe : Safe on_the_way.rig
on_the_way-Safe = record {
  floor_from = omega arith;
  floor_below = omega arith;
  door_still = λ h. cc;
  moving_shut = λ h. refl;
  parked_still = λ h. absurd (h refl);
  stopped_still = λ h. cc;
  stopped_parked = λ h k. cc;
  motor_wire = refl;
  door_wire = refl;
  alive = tt;
}

on_the_way-IsValid : IsValid on_the_way.rig.elev.state
on_the_way-IsValid = record {
  id_from = omega arith;
  id_below = omega arith;
  floor_from = omega arith;
  floor_below = omega arith;
  motor_named = inr (inr (inl refl));
  moving_named = omega arith;
  inertia_named = omega arith;
}

-- A cab call of elevator 2.
abbrev pub cab_order : Order
cab_order = record default_order {
  status = OrderStatus.confirmed;
  assigned_id = pos 2;
  observed_mask = 4;
  version = 2;
}

cab_order-IsSound : IsSound cab_order
cab_order-IsSound = record {
  valid = record {
    assigned_from = omega arith;
    assigned_below = omega arith;
    status_named = omega arith;
    mask_below = omega arith;
  };
  assigned = λ h. (2, refl, omega arith);
}

-- Node 2 at floor 3 on its way up, with that call to floor 3.
abbrev arriving : ElevatorNode
arriving = record on_the_way {
  rig = record (on_the_way.rig) {
    ctl = record (on_the_way.rig.ctl) { requests = record { table = λ f b. f == 3 && b == 2 } };
  };
  peers = record peers { book = record (peers.book) { orders = put some_orders 3 2 cab_order } };
}

arriving-NodeOk : NodeOk 2 arriving
arriving-NodeOk = record {
  own_id = refl;
  cabin = record {
    safe = record {
      floor_from = on_the_way-Safe.floor_from;
      floor_below = on_the_way-Safe.floor_below;
      door_still = on_the_way-Safe.door_still;
      moving_shut = on_the_way-Safe.moving_shut;
      parked_still = on_the_way-Safe.parked_still;
      stopped_still = on_the_way-Safe.stopped_still;
      stopped_parked = on_the_way-Safe.stopped_parked;
      motor_wire = on_the_way-Safe.motor_wire;
      door_wire = on_the_way-Safe.door_wire;
      alive = on_the_way-Safe.alive;
    };
    named = refl;
    active = refl;
    valid = (on_the_way-IsValid, omega arith);
  };
  peers = record {
    base = record {
      own_id = refl;
      in_range = omega arith;
      unwatched = refl;
      sound = put-AllSound some_orders 3 2 cab_order some_orders-AllSound (λ h. cab_order-IsSound);
      cabs = default_cabs-CabsSound;
    };
    active = refl;
    named = refl;
    own = peers-PeersOk.own;
  };
}

arriving-StopsAt : StopsAt 3 arriving.rig
unfolding should_stop value
arriving-StopsAt = record { floor = refl; moving = refl; stops = refl }

arrival-HasServed_example :
    Returns (λ m. NodeOk 2 m × HasServed 2 3 arriving m) (run (fsm_floor_arrival 9) arriving)
arrival-HasServed_example =
    arrival-HasServed 9 3 arriving (omega arith) arriving-NodeOk arriving-StopsAt
