-- ===== src/Node/Arrival.antt =====
-- services/elevator-node, ElevatorNode::Event behind a stop at a floor: the calls that are served
-- leave the orders and the controller.
use cpp_elevator.Base.{
  ℕ, ◌<◌, ◌≡◌, ◌≢◌, refl, ap, ◌∙◌, arith, true, false, ◌&&◌, ◌==◌, ltb, if◌then◌else◌,
}
use cpp_elevator.Base.Int.{pos}
use cpp_elevator.Base.Outcome.{done, Returns, Returns->>=, Returns-both}
use cpp_elevator.Common.{k_floors, k_buttons, ButtonFlags, BtnType, btn_index, MotorDir}
use cpp_elevator.OrderSync.Order.{Order, on_clear, on_reset}
use cpp_elevator.OrderSync.Table.{assigned_to, to_bool_table}
use cpp_elevator.OrderSync.Table.Cells.{to_bool_table-assigned}
use cpp_elevator.Control.Controller.Stops.{
  flag, Served, clear_current_floor-Served, clear_current_floor-cab,
}
use cpp_elevator.Control.Controller.Tables.{set_requests-cell}
use cpp_elevator.Control.Fsm.{Rig, fsm_floor_arrival}
use cpp_elevator.Control.Fsm.Arrival.{StopsAt, IsServing, fsm_floor_arrival-IsServing}
use cpp_elevator.Control.Fsm.Safety.{FsmEvent, handle}
use cpp_elevator.Common.Timer.{Timer}
use cpp_elevator.Network.Peers
use cpp_elevator.Network.Peers.{Peers, clear_orders}
use cpp_elevator.Elevator.State.{ElevatorState, increment_version}
use cpp_elevator.Network.Peers.Cleared.{Cells, cleared, clear_orders-Cells}
use cpp_elevator.Node.{ElevatorNode, set_state, is_zero, sync_after_event, event, run}
use cpp_elevator.Node.Sync.{NodeOk}
use cpp_elevator.Node.Step.{run-Returns}

-- What was cleared is no request of the node any more.
cleared-unassigned :
    (b2c : ButtonFlags) (n b : ℕ) (o : Order)
    → Peers.flag b2c b ≡ true
    → assigned_to (pos n) (cleared b2c n b o) ≡ false
unfolding on_clear on_reset
cleared-unassigned b2c n b o flagged = ground arith

pub sync_after_event-requests :
    (n : ElevatorNode) (f b : ℕ)
    → f < k_floors
    → b < k_buttons
    → (sync_after_event n).rig.ctl.requests.table f b
      ≡ assigned_to (pos n.node_id) (n.peers.book.orders f b)
unfolding sync_after_event
sync_after_event-requests n f b hf hb =
    set_requests-cell (to_bool_table (pos n.node_id) n.peers.book.orders) n.rig.ctl f b hf hb
    ∙ to_bool_table-assigned (pos n.node_id) n.peers.book.orders f b hf hb

-- The orders at the floor are cleared by the flags, the requests are those of the orders, and the
-- cabin is left as it was.
record ClearedAt (b2c : ButtonFlags) (f : ℕ) (n m : ElevatorNode) : Type 0 where
  door : m.rig.elev.state.door_open ≡ n.rig.elev.state.door_open
  motor : m.rig.elev.state.motor_dir ≡ n.rig.elev.state.motor_dir
  door_timer : m.rig.ctl.door_timer ≡ n.rig.ctl.door_timer
  cells : Cells b2c f k_buttons n.peers m.peers
  requests :
      (g b : ℕ)
      → g < k_floors
      → b < k_buttons
      → m.rig.ctl.requests.table g b ≡ assigned_to (pos n.node_id) (m.peers.book.orders g b)

Cells-set_state :
    (b2c : ButtonFlags) (f k e : ℕ) (s : ElevatorState) (p q : Peers)
    → Cells b2c f k p q
    → Cells b2c f k p (set_state e s q)
Cells-set_state b2c f k e s p q h = record {
  own_id = h.own_id;
  order = h.order;
  timer = h.timer;
  cab = h.cab;
}

event-ClearedAt :
    (b2c : ButtonFlags) (f : ℕ) (n : ElevatorNode)
    → n.rig.elev.state.floor ≡ pos f
    → f < k_floors
    → b2c.cab ≡ true
    → Returns (ClearedAt b2c f n) (event b2c n)
unfolding event sync_after_event increment_version
event-ClearedAt b2c f n at_floor hf cab =
    let some_flag : is_zero b2c ≡ false = ground arith in
    let served : Returns (Cells b2c f k_buttons n.peers)
        (if is_zero b2c then done n.peers else clear_orders n.rig.elev.state.floor b2c n.peers) =
      rw (some_flag, at_floor) (clear_orders-Cells b2c f n.peers hf) in
    Returns->>= {P = Cells b2c f k_buttons n.peers} _ _ served (λ p h. (
      _,
      refl,
      record {
        door = refl;
        motor = refl;
        door_timer = refl;
        cells = Cells-set_state b2c f k_buttons _ _ n.peers p h;
        requests = sync_after_event-requests (record n {
          rig = record (n.rig) {
            elev = record (n.rig.elev) { state = increment_version n.rig.elev.state };
          };
          peers = p;
        });
      },
    ))

pub stop_flags : (btn : BtnType) (b2c : ButtonFlags) → Peers.flag b2c (btn_index btn) ≡ flag b2c btn
stop_flags BtnType.hall_up b2c = refl
stop_flags BtnType.hall_down b2c = refl
stop_flags BtnType.cab b2c = refl

pub btn_index_below : (btn : BtnType) → btn_index btn < k_buttons
btn_index_below BtnType.hall_up = omega arith
btn_index_below BtnType.hall_down = omega arith
btn_index_below BtnType.cab = omega arith

-- Node `n` has become `m` by serving floor `f`: its door is open and timed, and its cabin stands. No
-- call that the stop serves is left among its orders or its requests, and the orders of other
-- floors are as before.
pub record HasServed (i f : ℕ) (n m : ElevatorNode) : Type 0 where
  pub door : m.rig.elev.state.door_open ≡ true
  pub motor : m.rig.elev.state.motor_dir ≡ MotorDir.stop
  pub timed : m.rig.ctl.door_timer.active ≡ true
  pub order :
      (btn : BtnType)
      → Served n.rig.ctl.inertia n.rig.ctl.requests (pos f) btn
      → assigned_to (pos i) (m.peers.book.orders f (btn_index btn)) ≡ false
  pub request :
      (btn : BtnType)
      → Served n.rig.ctl.inertia n.rig.ctl.requests (pos f) btn
      → m.rig.ctl.requests.table f (btn_index btn) ≡ false
  pub others : (g b : ℕ) → g < k_floors → g ≢ f → m.peers.book.orders g b ≡ n.peers.book.orders g b

served_order :
    (i f : ℕ) (b2c : ButtonFlags) (n m : ElevatorNode) (btn : BtnType)
    → n.peers.node_id ≡ i
    → Cells b2c f k_buttons n.peers m.peers
    → flag b2c btn ≡ true
    → assigned_to (pos i) (m.peers.book.orders f (btn_index btn)) ≡ false
served_order i f b2c n m btn own cells flagged =
    let b = btn_index btn in
    let below = btn_index_below btn in
    let here : f == f && ltb b k_buttons ≡ true = ground arith in
    let o : m.peers.book.orders f b ≡ cleared b2c i b (n.peers.book.orders f b) =
      cells.order f b ∙ rw (here, own) refl in
    rw o (cleared-unassigned b2c i b (n.peers.book.orders f b) (stop_flags btn b2c ∙ flagged))

HasServed-of :
    (i f : ℕ) (old : Rig) (b2c : ButtonFlags) (n m : ElevatorNode)
    → n.node_id ≡ i
    → n.peers.node_id ≡ i
    → f < k_floors
    → IsServing f old b2c n.rig
    → ClearedAt b2c f n m
    → HasServed i f (record n { rig = old }) m
HasServed-of i f old b2c n m own own' hf s c =
    let order : (btn : BtnType) → Served old.ctl.inertia old.ctl.requests (pos f) btn → _ = λ btn h.
      served_order i f b2c n m btn own' c.cells
        (ap (λ x. flag x btn) s.flags ∙ (clear_current_floor-Served (pos f) btn old.ctl).1 h) in
    record {
      door = c.door ∙ s.door;
      motor = c.motor ∙ s.motor;
      timed = ap (λ (t : Timer). t.active) c.door_timer ∙ s.timed;
      order = order;
      request =
          λ btn h. c.requests f (btn_index btn) hf (btn_index_below btn) ∙ rw own (order btn h);
      others = λ g b hg ne. c.cells.order g b ∙ ground arith;
    }

-- When a moving cabin arrives at a floor where it has to stop, the node opens the door, and all calls
-- that the stop serves leave its orders and its requests; the orders of other floors stay, and the
-- invariant of the node holds before and after.
pub arrival-HasServed :
    {i : ℕ} (now f : ℕ) (n : ElevatorNode)
    → f < k_floors
    → NodeOk i n
    → StopsAt f n.rig
    → Returns (λ m. NodeOk i m × HasServed i f n m) (run (fsm_floor_arrival now) n)
unfolding handle
arrival-HasServed {i = i} now f n hf ok s =
    let b2c = (fsm_floor_arrival now n.rig).0 in
    let n' : ElevatorNode = record n { rig = (fsm_floor_arrival now n.rig).1 } in
    let serving = fsm_floor_arrival-IsServing now f n.rig s in
    let cab : b2c.cab ≡ true =
      ap (λ (x : ButtonFlags). x.cab) serving.flags ∙ clear_current_floor-cab (pos f) n.rig.ctl in
    let (m, e, c) = event-ClearedAt b2c f n' serving.floor hf cab in
    Returns-both _ (run-Returns FsmEvent.floor_arrival now n ok)
      (m, e, HasServed-of i f n.rig b2c n' m ok.own_id ok.peers.base.own_id hf serving c)
