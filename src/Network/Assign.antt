-- ===== src/Network/Assign.antt =====
-- libs/network, Peers::ReassignHallOrder: who takes over a hall order. The asserted range and
-- `Abort` are faults.

pub mod Takeover
pub mod Reassigned
use cpp_elevator.Base.{
  ℕ, ◌+◌, Bool, true, false, not, ◌&&◌, ◌||◌, ◌==◌, if◌then◌else◌, List, [], ◌∷◌,
}
use cpp_elevator.Base.Int.{ℤ, pos, negsuc, pos_part, ltb_ℤ, leb_ℤ, eqb_ℤ}
use cpp_elevator.Base.Grid.{put}
use cpp_elevator.Base.Outcome.{Outcome, done, fault, ◌>>=◌}
use cpp_elevator.Common.{k_elevs}
use cpp_elevator.OrderSync.Order.{Order, on_reassignment}
use cpp_elevator.OrderSync.Table.{OrderTable, order}
use cpp_elevator.Elevator.State.{ElevatorState, usable}
use cpp_elevator.Network.Costs.{Cost, int_max, calculate_elevator_costs}

-- `e != prev_assignee && cost != max`.
unfoldable pub is_other : ℤ → Cost → Bool
is_other prev (cost, e) = not (eqb_ℤ (pos e) prev) && not (cost == int_max)

-- The loops over the costs, left at the first that passes the test; -1 when none does.
unfoldable pub first_elevator : (Cost → Bool) → List Cost → ℤ
first_elevator p [] = negsuc 0
first_elevator p ((cost, e) ∷ rest) = if p (cost, e) then pos e else first_elevator p rest

abbrev pub is_other_usable : (ℕ → ElevatorState) → ℤ → Cost → Bool
is_other_usable states prev x = is_other prev x && usable (states x.1)

-- `new_assignee` behind the two rules.
unfoldable pub pick_assignee : (ℕ → ElevatorState) → List Cost → ℤ → ℤ
pick_assignee states costs prev =
    if not (usable (states (pos_part prev)))
    then first_elevator (is_other prev) costs
    else let best_other_usable = first_elevator (is_other_usable states prev) costs in
      if not (eqb_ℤ best_other_usable (negsuc 0)) then best_other_usable else prev

-- The part behind the two rules.
unfoldable pub settled : (ℕ → ElevatorState) → ℤ → ℤ → Outcome ℤ
settled states prev new_assignee =
    if eqb_ℤ new_assignee (negsuc 0)
    then if (states (pos_part prev)).active then done prev else fault
    else done new_assignee

unfoldable pub reassigned : ℕ → (ℕ → ElevatorState) → ℕ → ℤ → Outcome ℤ
unfolding settled pick_assignee
reassigned num_elevs states floor prev =
    if ltb_ℤ prev (pos 0) || leb_ℤ (pos k_elevs) prev
    then fault
    else if num_elevs == 1
    then done prev
    else settled states prev
        (pick_assignee states (calculate_elevator_costs (pos floor) states) prev)

unfoldable pub reassign_hall_order :
    ℕ → (ℕ → ElevatorState) → ℕ → ℕ → OrderTable → Outcome OrderTable
unfolding reassigned
reassign_hall_order num_elevs states floor btn t =
    reassigned num_elevs states floor (order t floor btn).assigned_id
    >>= (λ a. done (put t floor btn (on_reassignment a (order t floor btn))))
