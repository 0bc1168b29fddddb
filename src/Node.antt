-- ===== src/Node.antt =====
-- services/elevator-node, class ElevatorNode: one node, with the locked sections as functions. The
-- service state is left out, since `Step` does the same in each.
pub mod Receive
pub mod Cabs
pub mod Calls
pub mod Alone
pub mod Arrival
pub mod Cabin
pub mod Sync
pub mod Step
pub mod Start
use mathlib.Core.Option
use mathlib.Core.Option.{Option}
use cpp_elevator.Base.{ℕ, Bool, true, false, not, ◌&&◌, ◌==◌, if◌then◌else◌}
use cpp_elevator.Base.Int.{ℤ, pos, pos_part, eqb_ℤ}
use cpp_elevator.Base.Loops.{for_range}
use cpp_elevator.Base.Grid.{Grid, put, for_grid}
use cpp_elevator.Base.Outcome.{Outcome, done, fault, ◌>>=◌}
use cpp_elevator.Common.{k_floors, k_buttons, BoolTable, BtnType, btn_index, ButtonFlags}
use cpp_elevator.Common.Timer.{expired}
use cpp_elevator.OrderSync.Order.{Order, on_update, on_request, on_confirm}
use cpp_elevator.OrderSync.Table.{OrderTable, join, to_bool_table}
use cpp_elevator.Elevator.State.{ElevatorState, copy_from, increment_version}
use cpp_elevator.Elevator.State
use cpp_elevator.Elevator.Buttons.{btn_of_index, pressed}
use cpp_elevator.Elevator.{
  Elevator, set_button_lamp, emergency_stop, emergency_stop_reset, hit_new_floor,
}
use cpp_elevator.Elevator
use cpp_elevator.Hardware.{Hardware}
use cpp_elevator.Control.Requests.{value}
use cpp_elevator.Control.Controller
use cpp_elevator.Control.Controller.{Controller, same_bool, set_requests, request_table_updated}
use cpp_elevator.Control.Fsm.{
  Rig, fsm_emergency_stop, fsm_emergency_stop_reset, fsm_floor_arrival, fsm_table_update,
  fsm_door_timeout, fsm_floor_timeout,
}
use cpp_elevator.Network.Hall.{Book, is_cab, set_order}
use cpp_elevator.Network.Packet.{NetworkPacket}
use cpp_elevator.Network.Packet
use cpp_elevator.Network.Peers.{Peers, state, set_at, clear_orders, update_watchdog_timer}
use cpp_elevator.Network.Peers

pub record ElevatorNode : Type 0 where
  pub node_id : ℕ
  pub running : Bool
  pub button_signals : BoolTable
  pub button_lamps : BoolTable
  pub peers : Peers
  pub rig : Rig

-- `ElevatorNode(id, ip)`, with the socket as it is.
abbrev pub new : ℕ → ℕ → Hardware → ElevatorNode
new unset id hw = record {
  node_id = id;
  running = true;
  button_signals = λ f b. false;
  button_lamps = λ f b. false;
  peers = Peers.new unset;
  rig = record { ctl = Controller.new; elev = Elevator.new (pos id) hw };
}

abbrev pub set_elev : Elevator → ElevatorNode → ElevatorNode
set_elev e n = record n { rig = record (n.rig) { elev = e } }

abbrev pub set_ctl : Controller → ElevatorNode → ElevatorNode
set_ctl c n = record n { rig = record (n.rig) { ctl = c } }

-- `fuel` bounds the readings until the cabin is at a floor. The sleep at the end is left out.
unfoldable pub init : ℕ → ElevatorNode → Option ElevatorNode
unfolding Elevator.init Peers.init Controller.init
init fuel n =
    Option.map
      (λ e. record n {
        rig = record { ctl = Controller.init n.rig.ctl; elev = e };
        peers = Peers.init n.node_id n.peers;
      })
      (Elevator.init fuel n.rig.elev)

unfoldable pub stop : ElevatorNode → ElevatorNode
stop n = record n { running = false }

abbrev pub register_round : ℕ → ℕ → ElevatorNode → ElevatorNode
register_round f b n =
    let (p, button, hw) = pressed (n.rig.elev.order_buttons f b) n.rig.elev.hw in
    let e = record (n.rig.elev) {
      order_buttons = put n.rig.elev.order_buttons f b button;
      hw = hw;
    } in
    record (set_elev e n) { button_signals = put n.button_signals f b p }

unfoldable pub register_button_signals : ElevatorNode → ElevatorNode
register_button_signals = for_grid k_floors k_buttons register_round

abbrev pub lamp_round : ℕ → ℕ → ElevatorNode → ElevatorNode
lamp_round f b n =
    let light = value (pos f) (btn_of_index b) n.rig.ctl.requests in
    if same_bool light (n.button_lamps f b)
    then n
    else set_elev
        (set_button_lamp (pos f) (btn_of_index b) (if light then pos 1 else pos 0) n.rig.elev)
        (record n { button_lamps = put n.button_lamps f b light })

unfoldable pub set_button_lamps : ElevatorNode → ElevatorNode
set_button_lamps = for_grid k_floors k_buttons lamp_round

-- The branches of `SyncButtonSignals` at a pressed button.
abbrev pub press_cab : ℕ → ℕ → ℕ → Peers → Peers
press_cab n f b p = record p {
  book = set_order f b (on_confirm (pos n) (on_request n (p.book.orders f b))) p.book;
  cab_button_orders =
      put p.cab_button_orders n f (on_confirm (pos n) (on_request n (p.cab_button_orders n f)));
}

abbrev pub press_hall : ℕ → ℕ → ℕ → Peers → Peers
press_hall n f b p = record p { book = set_order f b (on_request n (p.book.orders f b)) p.book }

abbrev pub press_round : ℕ → BoolTable → ℕ → ℕ → Peers → Peers
press_round n signals f b p =
    if not (signals f b) then p else if is_cab b then press_cab n f b p else press_hall n f b p

unfoldable pub sync_button_signals : ℕ → BoolTable → Peers → Peers
sync_button_signals n signals = for_grid k_floors k_buttons (press_round n signals)

abbrev pub set_state : ℕ → ElevatorState → Peers → Peers
set_state e s p = record p { all_states = set_at e s p.all_states }

unfoldable pub sync_peers : ElevatorNode → ElevatorNode
unfolding sync_button_signals set_requests increment_version copy_from
sync_peers n =
    let p = sync_button_signals n.node_id n.button_signals n.peers in
    let c = set_requests (to_bool_table (pos n.node_id) p.book.orders) n.rig.ctl in
    let s = increment_version n.rig.elev.state in
    record n {
      rig = record { ctl = c; elev = record (n.rig.elev) { state = s } };
      peers = set_state n.node_id (copy_from s (p.all_states n.node_id)) p;
    }

abbrev pub is_zero : ButtonFlags → Bool
is_zero b2c = not b2c.hall_up && not b2c.hall_down && not b2c.cab

-- The part of `Event` behind `ClearOrders`.
unfoldable pub sync_after_event : ElevatorNode → ElevatorNode
unfolding set_requests copy_from
sync_after_event n =
    let table = to_bool_table (pos n.node_id) n.peers.book.orders in
    let s = State.set_requests table n.rig.elev.state in
    record n {
      rig = record { ctl = set_requests table n.rig.ctl; elev = record (n.rig.elev) { state = s } };
      peers = set_state n.node_id (copy_from s (n.peers.all_states n.node_id)) n.peers;
    }

unfoldable pub event : ButtonFlags → ElevatorNode → Outcome ElevatorNode
unfolding sync_after_event increment_version
event b2c n =
    let n' = set_elev (record (n.rig.elev) { state = increment_version n.rig.elev.state }) n in
    (if is_zero b2c then done n'.peers else clear_orders n'.rig.elev.state.floor b2c n'.peers)
    >>= (λ p. done (sync_after_event (record n' { peers = p })))

abbrev pub run : (Rig → ButtonFlags × Rig) → ElevatorNode → Outcome ElevatorNode
run handler n = let (b2c, r) = handler n.rig in event b2c (record n { rig = r })

-- The events of `Step`, the first of which is handled.
unfoldable pub timers_event : ℕ → ElevatorNode → Outcome ElevatorNode
timers_event now n =
    if expired now n.rig.ctl.door_timer
    then run (fsm_door_timeout now) n
    else if expired now n.rig.ctl.floor_timer
    then run fsm_floor_timeout n
    else done n

unfoldable pub request_event : ℕ → ElevatorNode → Outcome ElevatorNode
unfolding timers_event
request_event now n =
    let (updated, c) = request_table_updated n.rig.ctl in
    let n' = set_ctl c n in if updated then run (fsm_table_update now) n' else timers_event now n'

unfoldable pub floor_event : ℕ → ElevatorNode → Outcome ElevatorNode
unfolding request_event
floor_event now n =
    let (hit, e) = hit_new_floor n.rig.elev in
    let n' = set_elev e n in if hit then run (fsm_floor_arrival now) n' else request_event now n'

unfoldable pub dispatch : ℕ → ElevatorNode → Outcome ElevatorNode
unfolding floor_event
dispatch now n =
    if emergency_stop n.rig.elev
    then run (fsm_emergency_stop now) n
    else if emergency_stop_reset n.rig.elev
    then run (fsm_emergency_stop_reset now) n
    else floor_event now n

-- `Step` up to the end of its first locked section. `SyncPeers` reads the node's own state by
-- `State`, which fails for an id that is none of the system's.
unfoldable pub sample : ℕ → ElevatorNode → Outcome ElevatorNode
unfolding register_button_signals sync_peers
sample now n =
    let n' = sync_peers (register_button_signals (set_elev (Elevator.step n.rig.elev) n)) in
    state n.node_id n.peers
    >>= (λ s. Peers.step now n'.peers >>= (λ p. done (record n' { peers = p })))

-- The rest of `Step`. The second locked section is at its end, in `event`; what comes before it
-- does not use the peers.
unfoldable pub respond : ℕ → ElevatorNode → Outcome ElevatorNode
unfolding set_button_lamps dispatch
respond now n = dispatch now (set_button_lamps n)

unfoldable pub step : ℕ → ElevatorNode → Outcome ElevatorNode
unfolding sample respond
step now n = sample now n >>= respond now

-- The loop of `RxPacketProcessing` over the cab orders.
abbrev pub cab_round : ℕ → ℕ → NetworkPacket → ℕ → Peers → Peers
cab_round n p packet f s =
    let cab = btn_index BtnType.cab in
    let cab_node = packet.cab_button_orders n f in
    let from_packet =
      put s.cab_button_orders p f (on_update (s.cab_button_orders p f) (packet.orders f cab)) in
    record s {
      cab_button_orders = put from_packet n f (on_update (from_packet n f) cab_node);
      book = set_order f cab (on_update (s.book.orders f cab) cab_node) s.book;
    }

-- The locked section, for a packet of elevator `p`.
unfoldable pub recieve_from : ℕ → ℕ → ℕ → NetworkPacket → Peers → Peers
unfolding update_watchdog_timer
recieve_from now n p packet s =
    let s₁ = update_watchdog_timer now p s in
    let s₂ = set_state p (State.on_update packet.state (s₁.all_states p)) s₁ in
    let s₃ = record s₂ { book = record (s₂.book) { orders = join s₂.book.orders packet.orders } } in
    for_range k_floors (cab_round n p packet) s₃

-- The packet has passed `Valid`, so its id is the index of an elevator.
unfoldable pub rx_packet_processing : ℕ → NetworkPacket → ElevatorNode → ElevatorNode
unfolding recieve_from
rx_packet_processing now packet n =
    if eqb_ℤ packet.id (pos n.node_id)
    then n
    else record n { peers = recieve_from now n.node_id (pos_part packet.id) packet n.peers }

unfoldable pub tx_packet_copy : ElevatorNode → NetworkPacket
unfolding Packet.init
tx_packet_copy n =
    Packet.init n.peers.book.orders (n.peers.all_states n.node_id) n.peers.cab_button_orders
