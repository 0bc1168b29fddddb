-- ===== src/Elevator/Start.antt =====
-- libs/elevator, Elevator::Init, from the constructor on a fresh connection.
use mathlib.Core.Option.{some}
use mathlib.Core.List.{Mem, mem-cons_self, mem-cons_of_mem}
use cpp_elevator.Base.{◌∙◌, ℕ, ap, ◌<◌, ◌≡◌, arith, true, false, List, ◌∷◌, keep_if, ◌||◌}
use cpp_elevator.Base.Int.{pos, eqb_ℤ, ltb_ℤ, leb_ℤ, ◌≤ℤ◌, ◌<ℤ◌}
use cpp_elevator.Common.{k_elevs, k_floors, k_between_floors, MotorDir, motor_code, eq_motor}
use cpp_elevator.Hardware
use cpp_elevator.Elevator.State
use cpp_elevator.Hardware.{Event, Reply, Hardware, msg, to_char}
use cpp_elevator.Hardware.Connection.{connected}
use cpp_elevator.Hardware.Wire.{last_arg, Alive}
use cpp_elevator.Control.Controller.{Controller}
use cpp_elevator.Control.Fsm.Safety.{Safe}
use cpp_elevator.Elevator.State.Updates.{IsValid}
use cpp_elevator.Elevator.{
  Elevator, init, init_to_floor, read_signals, set_motor_dir, set_floor_indicator, new,
  floor_sensor, stop_signal, obstruction_signal, truthy,
}
use cpp_elevator.Elevator.Arrival.{
  reading, floor_query, floor_of, Queried, AtFloor, Docks, wait_for_floor_ends,
}

-- The outputs before the signals are read: no door was opened, and no assertion has failed.
record Quiet (e : Elevator) : Type 0 where
  unstopped : e.state.stopped ≡ false
  id_from : pos 0 ≤ℤ e.state.id
  id_below : e.state.id <ℤ pos k_elevs
  door_wire : last_arg 4 0 e.hw.trace ≡ 0
  alive : Alive e.hw.trace
  low : pos 0 ≤ℤ floor_of (e.hw.world (floor_query ∷ msg 1 0 0 0 ∷ e.hw.trace))
  high : floor_of (e.hw.world (floor_query ∷ msg 1 0 0 0 ∷ e.hw.trace)) <ℤ pos k_floors

read_signals-Safe :
    (ctl : Controller) (e : Elevator)
    → Quiet e
    → Safe (record { ctl = ctl; elev = read_signals (set_motor_dir MotorDir.stop e) })
unfolding read_signals set_motor_dir
read_signals-Safe ctl e q = ground arith

read_signals-IsValid :
    (e : Elevator) → Quiet e → IsValid (read_signals (set_motor_dir MotorDir.stop e)).state
unfolding read_signals set_motor_dir
read_signals-IsValid e q = ground arith

read_signals_active : (e : Elevator) → (read_signals e).state.active ≡ true
unfolding read_signals
read_signals_active e = ground arith

read_signals_id :
    (e : Elevator) → (read_signals (set_motor_dir MotorDir.stop e)).state.id ≡ e.state.id
unfolding read_signals set_motor_dir
read_signals_id e = ground arith

Queried-id :
    (id : ℕ) (hw : Hardware) (e : Elevator)
    → Queried (set_motor_dir MotorDir.down (new (pos id) hw)) e
    → e.state.id ≡ pos id
unfolding set_motor_dir
Queried-id id hw e q = ap (λ s. s.id) q.state

-- A cabin on the way down, as the server has it when it arrives.
Quiet-of_arrival :
    (id : ℕ) (world : List Event → Reply) (e : Elevator)
    → id < k_elevs
    → Docks world
    → Queried (set_motor_dir MotorDir.down (new (pos id) (connected world))) e
    → AtFloor e.hw
    → Quiet e
unfolding set_motor_dir
Quiet-of_arrival id world e h docks q (es, t, f) =
    let w : e.hw.world ≡ world = q.world in
    let f' : eqb_ℤ (floor_of (world (floor_query ∷ es))) k_between_floors ≡ false = rw w at f in
    record {
      unstopped = ap (λ s. s.stopped) q.state;
      id_from = rw q.state (omega arith);
      id_below = rw q.state (omega arith);
      door_wire = q.door_wire;
      alive = q.alive tt;
      low = rw (w, t) (docks.low es f');
      high = rw (w, t) (docks.high es f');
    }

-- The messages stay in the trace.
set_floor_indicator-Mem :
    (ev : Event) (e : Elevator) → Mem ev e.hw.trace → Mem ev (set_floor_indicator e).hw.trace
unfolding set_floor_indicator
set_floor_indicator-Mem ev e h =
    keep_if (λ (x : Elevator). Mem ev x.hw.trace) (eqb_ℤ e.state.floor k_between_floors) _ _ h
      (keep_if (λ (x : Hardware). Mem ev x.trace)
        (ltb_ℤ e.state.floor (pos 0) || leb_ℤ (pos k_floors) e.state.floor) _ _
        (mem-cons_of_mem _ h) (mem-cons_of_mem _ h))

read_signals-Mem :
    (ev : Event) (e : Elevator) → Mem ev e.hw.trace → Mem ev (read_signals e).hw.trace
unfolding read_signals floor_sensor stop_signal obstruction_signal
read_signals-Mem ev e h =
    let (f, e₂) = floor_sensor (record e { state = State.init e.state }) in
    let (s, e₄) = stop_signal (record e₂ { state = State.set_floor f e₂.state }) in
    let (o, e₆) =
      obstruction_signal (record e₄ { state = State.set_stopped (truthy s) e₄.state }) in
    set_floor_indicator-Mem ev (record e₆ { state = State.set_obstruction (truthy o) e₆.state })
      (mem-cons_of_mem _ (mem-cons_of_mem _ (mem-cons_of_mem _ h)))

sets_motor-Mem :
    (ev : Event) (dir : MotorDir) (h : Hardware)
    → Mem ev h.trace
    → Mem ev (Hardware.set_motor_dir dir h).trace
unfolding Hardware.set_motor_dir
sets_motor-Mem ev dir h m =
    keep_if (λ (x : Hardware). Mem ev x.trace) (eq_motor dir MotorDir.err) _ _ (mem-cons_of_mem _ m)
      (mem-cons_of_mem _ m)

set_motor_dir-Mem :
    (ev : Event) (e : Elevator)
    → Mem ev e.hw.trace
    → Mem ev (set_motor_dir MotorDir.stop e).hw.trace
unfolding set_motor_dir
set_motor_dir-Mem ev e h = sets_motor-Mem ev _ e.hw h

-- The message that starts the motor downwards.
abbrev pub downwards : Event
downwards = msg 1 (to_char (motor_code MotorDir.down)) 0 0

downwards_sent :
    (e : Elevator)
    → e.state.stopped ≡ false
    → Mem downwards (set_motor_dir MotorDir.down e).hw.trace
unfolding set_motor_dir
downwards_sent e s = rw s (mem-cons_self)

-- Whatever the id and the server, `Init` of a cabin that is not stopped sends it downwards, and ends
-- when the sensor reports a floor.
pub init_ends :
    (fuel k : ℕ) (e : Elevator)
    → k < fuel
    → eqb_ℤ (reading k (set_motor_dir MotorDir.down e)) k_between_floors ≡ false
    → e.state.stopped ≡ false
    → (e' : Elevator) × (init fuel e ≡ some e') × Mem downwards e'.hw.trace
unfolding init init_to_floor
init_ends fuel k e lt r free =
    let (e', w, q, f) = wait_for_floor_ends fuel k (set_motor_dir MotorDir.down e) lt r in
    (
      read_signals (set_motor_dir MotorDir.stop e'),
      rw w,
      read_signals-Mem downwards (set_motor_dir MotorDir.stop e')
          (set_motor_dir-Mem downwards e' (q.keeps downwards (downwards_sent e free))),
    )

-- From the constructor on a fresh connection, `Init` ends when the sensor reports a floor on the way
-- down, and leaves the cabin safe and active, with a valid state under its own id. The server is assumed to report
-- floors of the building, and to keep a stopped cabin at its floor.
pub init_arrives :
    (fuel k id : ℕ) (world : List Event → Reply) (ctl : Controller)
    → id < k_elevs
    → k < fuel
    → eqb_ℤ
        (reading k (set_motor_dir MotorDir.down (new (pos id) (connected world))))
        k_between_floors
      ≡ false
    → Docks world
    → (e : Elevator) × (init fuel (new (pos id) (connected world)) ≡ some e)
      × Safe (record { ctl = ctl; elev = e })
      × (e.state.active ≡ true)
      × (e.state.id ≡ pos id)
      × IsValid e.state
unfolding init init_to_floor
init_arrives fuel k id world ctl hid lt r docks =
    let (e, w, q, f) =
      wait_for_floor_ends fuel k (set_motor_dir MotorDir.down (new (pos id) (connected world))) lt
        r in
    let quiet = Quiet-of_arrival id world e hid docks q f in
    (
      read_signals (set_motor_dir MotorDir.stop e),
      rw w,
      read_signals-Safe ctl e quiet,
      read_signals_active (set_motor_dir MotorDir.stop e),
      read_signals_id e ∙ Queried-id id (connected world) e q,
      read_signals-IsValid e quiet,
    )
