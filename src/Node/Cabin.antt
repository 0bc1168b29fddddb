-- ===== src/Node/Cabin.antt =====
-- services/elevator-node: the cabin of a node, in what the node does with it.
use cpp_elevator.Base.{ℕ, ◌<◌, ◌≡◌, ◌∙◌, arith, true}
use cpp_elevator.Base.Int.{pos}
use cpp_elevator.Common.{k_floors, inertia_code}
use cpp_elevator.Elevator.{Elevator, set_button_lamp}
use cpp_elevator.Elevator
use cpp_elevator.Elevator.Buttons.{pressed}
use cpp_elevator.Elevator.State.Updates.{IsValid}
use cpp_elevator.Control.Controller.Direction.{choose_direction_cases}
use cpp_elevator.Control.Fsm.{
  stop_door_timer, Rig, on_elev, fsm_emergency_stop, fsm_emergency_stop_reset, fsm_table_update,
  fsm_floor_arrival, fsm_door_timeout, fsm_floor_timeout,
}
use cpp_elevator.Control.Fsm.Safety.{Safe, FsmEvent, handle, handle-Safe, step-Safe}
use cpp_elevator.Node.{ElevatorNode, register_round, lamp_round}

-- The state of the elevator is valid, and the direction that the controller keeps is an enumerator.
abbrev pub IsNamed : Rig → Type 0
IsNamed r = IsValid r.elev.state × (inertia_code r.ctl.inertia < 3)

-- The cabin of node `i` is safe, and its elevator is active with a valid state and the node's id.
pub record CabinOk (i : ℕ) (r : Rig) : Type 0 where
  pub safe : Safe r
  pub named : r.elev.state.id ≡ pos i
  pub active : r.elev.state.active ≡ true
  pub valid : IsNamed r

-- What no event handler changes.
abbrev Same : Rig → Rig → Type 0
Same r r' = (r'.elev.state.active ≡ r.elev.state.active) × (r'.elev.state.id ≡ r.elev.state.id)

emergency_stop-Same : (now : ℕ) (r : Rig) → Same r (fsm_emergency_stop now r).1
unfolding fsm_emergency_stop
emergency_stop-Same now r = ground arith

emergency_stop_reset-Same : (now : ℕ) (r : Rig) → Same r (fsm_emergency_stop_reset now r).1
unfolding fsm_emergency_stop_reset
emergency_stop_reset-Same now r = ground arith

table_update-Same : (now : ℕ) (r : Rig) → Same r (fsm_table_update now r).1
unfolding fsm_table_update
table_update-Same now r = ground arith

floor_arrival-Same : (now : ℕ) (r : Rig) → Same r (fsm_floor_arrival now r).1
unfolding fsm_floor_arrival
floor_arrival-Same now r = ground arith

door_timeout-Same : (now : ℕ) (r : Rig) → Same r (fsm_door_timeout now r).1
unfolding fsm_door_timeout
door_timeout-Same now r = ground arith

floor_timeout-Same : (r : Rig) → Same r (fsm_floor_timeout r).1
unfolding fsm_floor_timeout
floor_timeout-Same r = ground arith

emergency_stop-IsNamed : (now : ℕ) (r : Rig) → IsNamed r → IsNamed (fsm_emergency_stop now r).1
unfolding fsm_emergency_stop
emergency_stop-IsNamed now r v = ground arith

emergency_stop_reset-IsNamed :
    (now : ℕ) (r : Rig) → IsNamed r → IsNamed (fsm_emergency_stop_reset now r).1
unfolding fsm_emergency_stop_reset
emergency_stop_reset-IsNamed now r v = ground arith

table_update-IsNamed : (now : ℕ) (r : Rig) → IsNamed r → IsNamed (fsm_table_update now r).1
unfolding fsm_table_update
table_update-IsNamed now r v = ground (arith, choose_direction_cases r.elev.state.floor r.ctl)

floor_arrival-IsNamed : (now : ℕ) (r : Rig) → IsNamed r → IsNamed (fsm_floor_arrival now r).1
unfolding fsm_floor_arrival
floor_arrival-IsNamed now r v = ground arith

door_timeout-IsNamed : (now : ℕ) (r : Rig) → IsNamed r → IsNamed (fsm_door_timeout now r).1
unfolding fsm_door_timeout
door_timeout-IsNamed now r v =
    ground (arith, choose_direction_cases r.elev.state.floor (stop_door_timer r).ctl)

floor_timeout-IsNamed : (r : Rig) → IsNamed r → IsNamed (fsm_floor_timeout r).1
unfolding fsm_floor_timeout
floor_timeout-IsNamed r v = ground arith

handle-Same : (ev : FsmEvent) (now : ℕ) (r : Rig) → Same r (handle ev now r).1
unfolding handle
handle-Same FsmEvent.emergency_stop now r = emergency_stop-Same now r
handle-Same FsmEvent.emergency_stop_reset now r = emergency_stop_reset-Same now r
handle-Same FsmEvent.table_update now r = table_update-Same now r
handle-Same FsmEvent.floor_arrival now r = floor_arrival-Same now r
handle-Same FsmEvent.door_timeout now r = door_timeout-Same now r
handle-Same FsmEvent.floor_timeout now r = floor_timeout-Same r

handle-IsNamed : (ev : FsmEvent) (now : ℕ) (r : Rig) → IsNamed r → IsNamed (handle ev now r).1
unfolding handle
handle-IsNamed FsmEvent.emergency_stop now r v = emergency_stop-IsNamed now r v
handle-IsNamed FsmEvent.emergency_stop_reset now r v = emergency_stop_reset-IsNamed now r v
handle-IsNamed FsmEvent.table_update now r v = table_update-IsNamed now r v
handle-IsNamed FsmEvent.floor_arrival now r v = floor_arrival-IsNamed now r v
handle-IsNamed FsmEvent.door_timeout now r v = door_timeout-IsNamed now r v
handle-IsNamed FsmEvent.floor_timeout now r v = floor_timeout-IsNamed r v

pub handle-CabinOk :
    {i : ℕ} (ev : FsmEvent) (now : ℕ) (r : Rig) → CabinOk i r → CabinOk i (handle ev now r).1
handle-CabinOk ev now r ok = record {
  safe = handle-Safe ev now r ok.safe;
  named = (handle-Same ev now r).1 ∙ ok.named;
  active = (handle-Same ev now r).0 ∙ ok.active;
  valid = handle-IsNamed ev now r ok.valid;
}

step_same :
    (e : Elevator)
    → ((Elevator.step e).state.active ≡ e.state.active) × ((Elevator.step e).state.id ≡ e.state.id)
unfolding Elevator.step
step_same e = ground arith

step-IsValid : (e : Elevator) → IsValid e.state → IsValid (Elevator.step e).state
unfolding Elevator.step
step-IsValid e v = ground arith

pub step-CabinOk : {i : ℕ} (r : Rig) → CabinOk i r → CabinOk i (on_elev Elevator.step r)
step-CabinOk r ok = record {
  safe = step-Safe r ok.safe;
  named = (step_same r.elev).1 ∙ ok.named;
  active = (step_same r.elev).0 ∙ ok.active;
  valid = (step-IsValid r.elev ok.valid.0, ok.valid.1);
}

pub register_round-CabinOk :
    {i : ℕ} (f b : ℕ) (n : ElevatorNode) → CabinOk i n.rig → CabinOk i (register_round f b n).rig
unfolding pressed
register_round-CabinOk f b n ok = ground arith

pub lamp_round-CabinOk :
    {i : ℕ} (f b : ℕ) (n : ElevatorNode)
    → f < k_floors
    → CabinOk i n.rig
    → CabinOk i (lamp_round f b n).rig
unfolding set_button_lamp
lamp_round-CabinOk f b n hf ok = ground arith
