-- ===== src/Network/Assign/Takeover.antt =====
-- libs/network, Peers::ReassignHallOrder: its two rules.
use cpp_elevator.Base.{
  ℕ, ◌<◌, ◌≡◌, ◌≢◌, refl, ap, ◌∙◌, arith, Bool, true, false, not, List, [], ◌∷◌, if◌then◌else◌,
  Bool-cases, ◌⊎◌, inl, inr,
}
use cpp_elevator.Base.Int.{ℤ, pos, negsuc, eqb_ℤ}
use cpp_elevator.Common.{k_elevs}
use cpp_elevator.Elevator.State.{ElevatorState, usable}
use cpp_elevator.Network.Costs.{Cost, entry, not_after, int_max, cost_of, calculate_elevator_costs}
use cpp_elevator.Network.Costs.Sorted.{All, All-weaken, IsSorted, not_after_refl}
use cpp_elevator.Network.Costs.Best.{IsEntry, costs-IsEntry, costs-IsSorted, All-costs}
use cpp_elevator.Network.Assign.{is_other, first_elevator, is_other_usable, pick_assignee}

-- The pair that a loop over the costs stops at.
pub record First (P : Cost → Type 0) (p : Cost → Bool) (xs : List Cost) : Type 0 where
  pub cost : Cost
  pub holds : P cost
  pub passes : p cost ≡ true
  pub result : first_elevator p xs ≡ pos cost.1
  pub least : All (λ x. p x ≡ true → not_after cost x ≡ true) xs

-- A loop finds a pair, or no pair passes.
abbrev pub Search : (P : Cost → Type 0) (p : Cost → Bool) (xs : List Cost) → Type 0
Search P p xs = First P p xs ⊎ ((first_elevator p xs ≡ negsuc 0) × All (λ x. p x ≡ false) xs)

first_elevator-Search :
    (P : Cost → Type 0) (p : Cost → Bool) (xs : List Cost) → All P xs → IsSorted xs → Search P p xs
unfolding first_elevator
first_elevator-Search P p [] h s = inr (refl, tt)
first_elevator-Search P p ((c, e) ∷ xs) h s = elim (Bool-cases (p (c, e))) [
  | inl q ↦ inl record {
    cost = (c, e);
    holds = h.0;
    passes = q;
    result = rw q;
    least = (
      λ _. not_after_refl (c, e),
      All-weaken (λ x. not_after (c, e) x ≡ true) _ (λ x l _. l) xs s.0,
    );
  }
  | inr q ↦ elim (first_elevator-Search P p xs h.1 s.1) [
    | inl m ↦ inl record {
      cost = m.cost;
      holds = m.holds;
      passes = m.passes;
      result = rw q m.result;
      least = ((λ t. cc), m.least);
    }
    | inr n ↦ inr (rw q n.0, (q, n.1))
  ]
]

pub costs-Search :
    (p : Cost → Bool) (floor : ℤ) (states : ℕ → ElevatorState)
    → Search (IsEntry floor states) p (calculate_elevator_costs floor states)
costs-Search p floor states =
    first_elevator-Search (IsEntry floor states) p (calculate_elevator_costs floor states)
      (costs-IsEntry floor states) (costs-IsSorted floor states)

pub is_other-entry :
    (prev : ℕ) (floor : ℤ) (states : ℕ → ElevatorState) (e : ℕ)
    → is_other (pos prev) (entry floor states e) ≡ true
    → (e ≢ prev) × ((states e).active ≡ true)
unfolding is_other entry
is_other-entry prev floor states e h = ((λ q. ground arith), ground arith)

pub is_other-active :
    (prev : ℕ) (floor : ℤ) (states : ℕ → ElevatorState) (e : ℕ)
    → e ≢ prev
    → (states e).active ≡ true
    → cost_of floor (states e) < int_max
    → is_other (pos prev) (entry floor states e) ≡ true
unfolding is_other entry
is_other-active prev floor states e ne a c = ground arith

-- The new assignee is an elevator of the system: an active one, or the previous assignee.
abbrev pub TakesOver : (ℕ → ElevatorState) → ℕ → ℤ → Type 0
TakesOver states prev a =
    (e : ℕ) × (a ≡ pos e) × (e < k_elevs) × ((e ≡ prev) ⊎ ((states e).active ≡ true))

-- What the loops pick, if they pick one, is another active elevator.
first-TakesOver :
    (p : Cost → Bool) (prev : ℕ) (floor : ℤ) (states : ℕ → ElevatorState)
    → ((x : Cost) → p x ≡ true → is_other (pos prev) x ≡ true)
    → (first_elevator p (calculate_elevator_costs floor states) ≡ negsuc 0)
      ⊎ TakesOver states prev (first_elevator p (calculate_elevator_costs floor states))
first-TakesOver p prev floor states h = elim (costs-Search p floor states) [
  | inl m ↦ inr (
    m.cost.1,
    m.result,
    m.holds.0,
    inr (is_other-entry prev floor states m.cost.1 (rw (m.holds.1) at (h m.cost m.passes))).1,
  )
  | inr n ↦ inl n.0
]

pub pick-unusable :
    (states : ℕ → ElevatorState) (xs : List Cost) (prev : ℕ)
    → usable (states prev) ≡ false
    → pick_assignee states xs (pos prev) ≡ first_elevator (is_other (pos prev)) xs
unfolding pick_assignee
pick-unusable states xs prev h = rw h

pick-usable :
    (states : ℕ → ElevatorState) (xs : List Cost) (prev : ℕ) (a : ℤ)
    → usable (states prev) ≡ true
    → first_elevator (is_other_usable states (pos prev)) xs ≡ a
    → pick_assignee states xs (pos prev) ≡ (if not (eqb_ℤ a (negsuc 0)) then a else pos prev)
unfolding pick_assignee
pick-usable states xs prev a h e =
    rw h (ap (λ z. if not (eqb_ℤ z (negsuc 0)) then z else pos prev) e)

pub pick_assignee-TakesOver :
    (prev : ℕ) (floor : ℤ) (states : ℕ → ElevatorState)
    → prev < k_elevs
    → let a = pick_assignee states (calculate_elevator_costs floor states) (pos prev) in
      (a ≡ negsuc 0) ⊎ TakesOver states prev a
pick_assignee-TakesOver prev floor states lt =
    let costs = calculate_elevator_costs floor states in
    elim (Bool-cases (usable (states prev))) [
      | inl u ↦
          elim (first-TakesOver (is_other_usable states (pos prev)) prev floor states
            (λ x h. ground arith)) [
              | inl n ↦ inr (prev, pick-usable states costs prev (negsuc 0) u n, lt, inl refl)
              | inr (e, q, le, w) ↦
                  inr (e, pick-usable states costs prev (pos e) u q ∙ ground arith, le, w)
            ]
      | inr u ↦
          rw (pick-unusable states costs prev u)
            (first-TakesOver (is_other (pos prev)) prev floor states (λ x h. h))
    ]

-- No pair passes only when no other elevator is active.
pub First-of_active :
    (prev : ℕ) (floor : ℤ) (states : ℕ → ElevatorState) (e : ℕ)
    → e < k_elevs
    → e ≢ prev
    → (states e).active ≡ true
    → cost_of floor (states e) < int_max
    → First (IsEntry floor states) (is_other (pos prev)) (calculate_elevator_costs floor states)
First-of_active prev floor states e lt ne act c =
    elim (costs-Search (is_other (pos prev)) floor states) [
      | inl m ↦ m
      | inr n ↦
          let none = All-costs (λ x. is_other (pos prev) x ≡ false) floor states n.1 e lt in
          let some = is_other-active prev floor states e ne act c in absurd cc
    ]
