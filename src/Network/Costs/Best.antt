-- ===== src/Network/Costs/Best.antt =====
-- libs/network, Peers::CalculateElevatorCosts: the first of the sorted costs, and its entries.
use cpp_elevator.Base.{
  ℕ, zero, suc, ◌<◌, ◌≡◌, refl, ap, arith, true, List, [], ◌∷◌, Bool-cases, inl, inr,
}
use cpp_elevator.Base.Int.{ℤ}
use cpp_elevator.Common.{k_elevs}
use cpp_elevator.Elevator.State.{ElevatorState}
use cpp_elevator.Network.Costs.{
  int_max, cost_of, Cost, entry, not_after, insert, sort, calculate_elevator_costs,
}
use cpp_elevator.Network.Costs.Sorted.{
  Least, IsSorted, sort-IsSorted, not_after_refl, All-of_sort, All, All-sort,
}

abbrev pub entries : ℤ → (ℕ → ElevatorState) → List Cost
entries floor states =
    entry floor states 0 ∷ entry floor states 1 ∷ entry floor states 2 ∷ entry floor states 3 ∷ []

-- A pair of the list belongs to an elevator of the system.
abbrev pub IsEntry : ℤ → (ℕ → ElevatorState) → Cost → Type 0
IsEntry floor states x = (x.1 < k_elevs) × (x ≡ entry floor states x.1)

entry-IsEntry :
    (floor : ℤ) (states : ℕ → ElevatorState) (e : ℕ)
    → e < k_elevs
    → IsEntry floor states (entry floor states e)
unfolding entry
entry-IsEntry floor states e h = (h, refl)

pub costs-IsEntry :
    (floor : ℤ) (states : ℕ → ElevatorState)
    → All (IsEntry floor states) (calculate_elevator_costs floor states)
unfolding calculate_elevator_costs
costs-IsEntry floor states = All-sort (IsEntry floor states) (entries floor states) (
  entry-IsEntry floor states 0 (omega arith),
  (
    entry-IsEntry floor states 1 (omega arith),
    (entry-IsEntry floor states 2 (omega arith), (entry-IsEntry floor states 3 (omega arith), tt)),
  ),
)

insert-cons :
    (x : Cost) (xs : List Cost) → (m : Cost) × (rest : List Cost) × (insert x xs ≡ m ∷ rest)
unfolding insert
insert-cons x [] = (x, [], refl)
insert-cons x (y ∷ ys) = elim (Bool-cases (not_after x y)) [
  | inl e ↦ (x, y ∷ ys, rw e)
  | inr e ↦ (y, insert x ys, rw e)
]

-- The pair of an elevator whose cost is not greater than any other's, the first such elevator.
pub record Best (floor : ℤ) (states : ℕ → ElevatorState) (m : Cost) : Type 0 where
  pub is_entry : IsEntry floor states m
  pub least : (e : ℕ) → e < k_elevs → not_after m (entry floor states e) ≡ true

pub All-entry :
    (P : Cost → Type 0) (floor : ℤ) (states : ℕ → ElevatorState)
    → All P (entries floor states)
    → (e : ℕ) → e < k_elevs
    → P (entry floor states e)
All-entry P floor states h zero lt = h.0
All-entry P floor states h (suc zero) lt = h.1.0
All-entry P floor states h (suc (suc zero)) lt = h.1.1.0
All-entry P floor states h (suc (suc (suc zero))) lt = h.1.1.1.0
All-entry P floor states h (suc (suc (suc (suc e)))) lt = absurd (omega arith)

-- What holds of every pair of the list, holds of every elevator's.
pub All-costs :
    (P : Cost → Type 0) (floor : ℤ) (states : ℕ → ElevatorState)
    → All P (calculate_elevator_costs floor states)
    → (e : ℕ) → e < k_elevs
    → P (entry floor states e)
unfolding calculate_elevator_costs
All-costs P floor states h = All-entry P floor states (All-of_sort P (entries floor states) h)

pub costs-IsSorted :
    (floor : ℤ) (states : ℕ → ElevatorState) → IsSorted (calculate_elevator_costs floor states)
unfolding calculate_elevator_costs
costs-IsSorted floor states = sort-IsSorted (entries floor states)

costs-cons :
    (floor : ℤ) (states : ℕ → ElevatorState)
    → (m : Cost) × (rest : List Cost) × (calculate_elevator_costs floor states ≡ m ∷ rest)
unfolding calculate_elevator_costs sort
costs-cons floor states =
    insert-cons (entry floor states 0)
      (sort (entry floor states 1 ∷ entry floor states 2 ∷ entry floor states 3 ∷ []))

-- The list begins with the best elevator.
pub costs-Best :
    (floor : ℤ) (states : ℕ → ElevatorState)
    → (m : Cost) × (rest : List Cost) × (calculate_elevator_costs floor states ≡ m ∷ rest)
      × Best floor states m
costs-Best floor states =
    let (m, rest, e) = costs-cons floor states in
    let sorted : IsSorted (m ∷ rest) = rw e at (costs-IsSorted floor states) in
    let least : Least m (calculate_elevator_costs floor states) =
      rw e (not_after_refl m, sorted.0) in
    let own : All (IsEntry floor states) (m ∷ rest) = rw e at (costs-IsEntry floor states) in
    (
      m,
      rest,
      e,
      record { is_entry = own.0; least = All-costs (λ x. not_after m x ≡ true) floor states least },
    )

entry-active :
    (floor : ℤ) (states : ℕ → ElevatorState) (m : Cost) (i : ℕ)
    → m ≡ entry floor states m.1
    → not_after m (entry floor states i) ≡ true
    → (states i).active ≡ true
    → cost_of floor (states i) < int_max
    → ((states m.1).active ≡ true) × (m.0 < int_max)
unfolding entry
entry-active floor states m i e h a c = let q = ap (λ x. x.0) e in (ground arith, ground arith)

-- With an active elevator whose cost is not the largest `int`, the best elevator is an active one.
pub Best-active :
    (floor : ℤ) (states : ℕ → ElevatorState) (m : Cost) (i : ℕ)
    → Best floor states m
    → i < k_elevs
    → (states i).active ≡ true
    → cost_of floor (states i) < int_max
    → ((states m.1).active ≡ true) × (m.0 < int_max)
Best-active floor states m i best h = entry-active floor states m i best.is_entry.1 (best.least i h)
