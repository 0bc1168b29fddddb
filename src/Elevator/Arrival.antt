-- ===== src/Elevator/Arrival.antt =====
-- libs/elevator, Elevator::InitToFloor and Init: the way to the first floor. What is assumed of the
-- elevator server is stated of its replies, `world`.
use mathlib.Core.Option.{some}
use mathlib.Core.List.{Mem, mem-cons_of_mem}
use cpp_elevator.Base.{
  ℕ, zero, suc, ◌<◌, ◌≡◌, refl, ◌∙◌, arith, false, List, ◌∷◌, if◌then◌else◌, Bool-cases, inl, inr,
}
use cpp_elevator.Base.Int.{ℤ, pos, negsuc, eqb_ℤ, ◌≤ℤ◌, ◌<ℤ◌}
use cpp_elevator.Common.{k_floors, k_between_floors}
use cpp_elevator.Hardware.{Event, Reply, Hardware, msg}
use cpp_elevator.Hardware.Wire.{last_arg, Alive}
use cpp_elevator.Elevator.{Elevator, floor_sensor, wait_for_floor}

-- The value of the floor sensor after `k` other readings of it.
abbrev pub reading : ℕ → Elevator → ℤ
reading zero e = (floor_sensor e).0
reading (suc k) e = reading k (floor_sensor e).1

abbrev pub floor_query : Event
floor_query = msg 7 0 0 0

-- A cabin to which only queries were sent.
pub record Queried (e e' : Elevator) : Type 0 where
  pub state : e'.state ≡ e.state
  pub world : e'.hw.world ≡ e.hw.world
  pub motor_wire : last_arg 1 0 e'.hw.trace ≡ last_arg 1 0 e.hw.trace
  pub door_wire : last_arg 4 0 e'.hw.trace ≡ last_arg 4 0 e.hw.trace
  pub alive : Alive e.hw.trace → Alive e'.hw.trace
  pub keeps : (ev : Event) → Mem ev e.hw.trace → Mem ev e'.hw.trace

floor_sensor-Queried : (e : Elevator) → Queried e (floor_sensor e).1
unfolding floor_sensor
floor_sensor-Queried e = record {
  state = refl;
  world = refl;
  motor_wire = refl;
  door_wire = refl;
  alive = λ a. a;
  keeps = λ ev h. mem-cons_of_mem floor_query h;
}

Queried-trans : (a b c : Elevator) → Queried a b → Queried b c → Queried a c
Queried-trans a b c p q = record {
  state = q.state ∙ p.state;
  world = q.world ∙ p.world;
  motor_wire = q.motor_wire ∙ p.motor_wire;
  door_wire = q.door_wire ∙ p.door_wire;
  alive = λ h. q.alive (p.alive h);
  keeps = λ ev h. q.keeps ev (p.keeps ev h);
}

-- What `get_floor_sensor` makes of a reply.
abbrev pub floor_of : Reply → ℤ
floor_of r = if eqb_ℤ r.b1 (pos 0) then negsuc 0 else r.b2

-- The newest query was for the floor, and the reply was one.
abbrev pub AtFloor : Hardware → Type 0
AtFloor hw =
    (es : List Event) × (hw.trace ≡ floor_query ∷ es)
    × (eqb_ℤ (floor_of (hw.world (floor_query ∷ es))) k_between_floors ≡ false)

floor_sensor-AtFloor :
    (e : Elevator)
    → eqb_ℤ (floor_sensor e).0 k_between_floors ≡ false
    → AtFloor (floor_sensor e).1.hw
unfolding floor_sensor
floor_sensor-AtFloor e h = (e.hw.trace, refl, h)

-- With a reading of a floor among the first `fuel`, the waiting ends there. Only queries are sent.
pub wait_for_floor_ends :
    (fuel k : ℕ) (e : Elevator)
    → k < fuel
    → eqb_ℤ (reading k e) k_between_floors ≡ false
    → (e' : Elevator) × (wait_for_floor fuel e ≡ some e') × Queried e e' × AtFloor e'.hw
unfolding wait_for_floor
wait_for_floor_ends zero k e lt h = absurd (omega arith)
wait_for_floor_ends (suc fuel) zero e lt h =
    ((floor_sensor e).1, rw h, floor_sensor-Queried e, floor_sensor-AtFloor e h)
wait_for_floor_ends (suc fuel) (suc k) e lt h =
    elim (Bool-cases (eqb_ℤ (floor_sensor e).0 k_between_floors)) [
      | inl q ↦
          let (e', r, s, f) = wait_for_floor_ends fuel k (floor_sensor e).1 (omega arith) h in
          (e', rw q r, Queried-trans e _ e' (floor_sensor-Queried e) s, f)
      | inr q ↦ ((floor_sensor e).1, rw q, floor_sensor-Queried e, floor_sensor-AtFloor e q)
    ]

-- The server reports floors of the building, and a cabin that is stopped while the sensor reports a
-- floor is still at one at the next reading.
pub record Docks (world : List Event → Reply) : Type 0 where
  pub low :
      (es : List Event)
      → eqb_ℤ (floor_of (world (floor_query ∷ es))) k_between_floors ≡ false
      → pos 0 ≤ℤ floor_of (world (floor_query ∷ msg 1 0 0 0 ∷ floor_query ∷ es))
  pub high :
      (es : List Event)
      → eqb_ℤ (floor_of (world (floor_query ∷ es))) k_between_floors ≡ false
      → floor_of (world (floor_query ∷ msg 1 0 0 0 ∷ floor_query ∷ es)) <ℤ pos k_floors
