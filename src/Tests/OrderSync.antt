-- ===== src/Tests/OrderSync.antt =====
-- Orders and tables on concrete inputs.
use mathlib.Core.List.{Subset, cons-subset, nil-subset, mem-cons_self, mem-cons_of_mem}
use cpp_elevator.Base.{
  ◌≡◌, refl, arith, inl, ◌⊎◌, ◌↔◌, true, ◌||◌, ◌==◌, List, [], ◌∷◌, if◌then◌else◌,
}
use cpp_elevator.Base.Int.{pos, negsuc}
use cpp_elevator.Base.Loops.{for_range}
use cpp_elevator.Base.Grid.{for_grid}
use cpp_elevator.Common.{OrderStatus, BtnType, btn_index}
use cpp_elevator.OrderSync.Order.{
  Order, default_order, observe, observed_by, valid, on_update, on_request, on_confirm, on_clear,
  on_reset, on_revoke, on_reassignment,
}
use cpp_elevator.OrderSync.Order.Merge.{on_update_assoc, Agree, on_update-Agree_comm}
use cpp_elevator.OrderSync.Order.Convergence.{receive_all, receive_all-Agree}
use cpp_elevator.OrderSync.Order.Observed.{
  observed_by-observe, observed_by-on_update, IsValid, valid-IsValid,
}
use cpp_elevator.OrderSync.Order.Lifecycle.{
  Op, apply, Moves, apply-Moves, apply-IsValid, apply-on_update, concurrent_ops,
}
use cpp_elevator.OrderSync.Table.{OrderTable, default_table, to_bool_table, join}
use cpp_elevator.OrderSync.Table
use cpp_elevator.OrderSync.Table.Cells.{
  join-cell, to_bool_table-cell, to_bool_table_exclusive, valid_iff, join-IsValid,
}

-- A call by node 1, confirmed for elevator 2, and the same call as node 0 confirmed it for itself.
abbrev asked : Order
asked = record {
  assigned_id = negsuc 0;
  observed_mask = 2;
  status = OrderStatus.requested;
  version = 1;
}

abbrev given : Order
given = record {
  assigned_id = pos 2;
  observed_mask = 2;
  status = OrderStatus.confirmed;
  version = 2;
}

abbrev taken : Order
taken = record {
  assigned_id = pos 0;
  observed_mask = 3;
  status = OrderStatus.confirmed;
  version = 2;
}

abbrev served : Order
served = record { assigned_id = pos 2; observed_mask = 2; status = OrderStatus.clear; version = 3 }

asked_run : on_request 1 default_order ≡ asked
unfolding on_request
asked_run = refl

given_run : on_confirm (pos 2) asked ≡ given
unfolding on_confirm
given_run = refl

served_run : on_clear given ≡ served
unfolding on_clear
served_run = refl

tie_run : (on_update given taken).assigned_id ≡ pos 0
unfolding on_update
tie_run = refl

on_update_assoc_example :
    on_update (on_update asked given) taken ≡ on_update asked (on_update given taken)
on_update_assoc_example = on_update_assoc asked given taken

on_update-Agree_comm_example : Agree (on_update given taken) (on_update taken given)
on_update-Agree_comm_example = on_update-Agree_comm given taken

abbrev first_way : List Order
first_way = given ∷ taken ∷ []

abbrev other_way : List Order
other_way = taken ∷ given ∷ taken ∷ []

first-other : Subset first_way other_way
first-other =
    cons-subset.1
      (mem-cons_of_mem taken mem-cons_self, cons-subset.1 (mem-cons_self, nil-subset other_way))

other-first : Subset other_way first_way
other-first = cons-subset.1 (
  mem-cons_of_mem given mem-cons_self,
  cons-subset.1
      (mem-cons_self, cons-subset.1 (mem-cons_of_mem given mem-cons_self, nil-subset first_way)),
)

receive_all-Agree_example : Agree (receive_all asked first_way) (receive_all asked other_way)
receive_all-Agree_example = receive_all-Agree asked first_way other_way first-other other-first

observed_by-observe_example : observed_by 3 (observe 3 asked) ≡ (3 == 3 || observed_by 3 asked)
observed_by-observe_example = observed_by-observe 3 3 asked

observed_by-on_update_example :
    observed_by 0 (on_update given taken) ≡ (observed_by 0 given || observed_by 0 taken)
observed_by-on_update_example = observed_by-on_update 0 given taken refl

valid-IsValid_example : (valid taken ≡ true) ↔ IsValid taken
valid-IsValid_example = valid-IsValid taken (omega arith)

apply-Moves_example : Moves (Op.confirm (pos 2)) asked (apply (Op.confirm (pos 2)) asked)
apply-Moves_example = apply-Moves (Op.confirm (pos 2)) asked

taken-IsValid : IsValid taken
taken-IsValid = omega arith

apply-IsValid_example : IsValid (apply Op.clear taken)
apply-IsValid_example = apply-IsValid Op.clear taken tt taken-IsValid

apply-on_update_example :
    (on_update given (apply Op.clear given) ≡ apply Op.clear given)
    × (on_update (apply Op.clear given) given ≡ apply Op.clear given)
apply-on_update_example = apply-on_update Op.clear given (omega arith)

concurrent_ops_example :
    ((given.status ≡ OrderStatus.confirmed)
      × ((on_update (on_reassignment (pos 3) given) (on_clear given)).status ≡ OrderStatus.clear)
      × ((on_update (on_clear given) (on_reassignment (pos 3) given)).status ≡ OrderStatus.clear)
      × ((on_update (on_revoke given) (on_clear given)).status ≡ OrderStatus.clear)
      × ((on_update (on_clear given) (on_revoke given)).status ≡ OrderStatus.clear))
    ⊎ ((given.status ≡ OrderStatus.clear)
        × ((on_update (on_reset given) (on_request 1 given)).status ≡ OrderStatus.requested)
        × ((on_update (on_request 1 given) (on_reset given)).status ≡ OrderStatus.requested))
concurrent_ops_example = concurrent_ops (pos 3) 1 given (omega arith) (inl refl)

-- Every hall order given to elevator 2, on a node; every order taken, on another.
abbrev ours : OrderTable
ours f b = given

abbrev theirs : OrderTable
theirs f b = taken

join_run : (join ours theirs 1 0).assigned_id ≡ pos 0
unfolding join for_grid for_range on_update
join_run = refl

join-cell_example :
    join ours theirs 1 0 ≡ (if 0 == btn_index BtnType.cab then given else on_update given taken)
join-cell_example = join-cell ours theirs 1 0 (omega arith) (omega arith)

to_bool_table-cell_example :
    (to_bool_table (pos 2) ours 3 1 ≡ true)
    ↔ (given.status ≡ OrderStatus.confirmed) × (given.assigned_id ≡ pos 2)
to_bool_table-cell_example = to_bool_table-cell (pos 2) ours 3 1 (omega arith) (omega arith)

ours_run : to_bool_table (pos 2) ours 3 1 ≡ true
ours_run = to_bool_table-cell_example.1 (refl, refl)

to_bool_table_exclusive_example : pos 2 ≡ pos 2
to_bool_table_exclusive_example =
    to_bool_table_exclusive (pos 2) (pos 2) ours ours 3 1 (omega arith) (omega arith)
      (refl, refl, refl, λ _. refl) ours_run ours_run

given-IsValid : IsValid given
given-IsValid = omega arith

ours-valid : Table.valid ours ≡ true
ours-valid = (valid_iff ours (λ f b. omega arith)).1 (λ f b hf hb. given-IsValid)

theirs-valid : Table.valid theirs ≡ true
theirs-valid = (valid_iff theirs (λ f b. omega arith)).1 (λ f b hf hb. taken-IsValid)

join-IsValid_example : IsValid (join ours theirs 1 0)
join-IsValid_example =
    join-IsValid ours theirs (λ f b. omega arith) (λ f b. omega arith) ours-valid theirs-valid 1 0
      (omega arith) (omega arith)
