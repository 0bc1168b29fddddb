-- ===== src/Network/Assign/Reassigned.antt =====
-- libs/network, Peers::ReassignHallOrder: that an order is taken over, and by whom.
use cpp_elevator.Base.{
  ◌==◌, ℕ, ◌≤◌, ◌<◌, ◌≡◌, ◌≢◌, refl, sym, ap, ◌∙◌, arith, true, false, Bool-cases, inl, inr,
}
use cpp_elevator.Base.Int.{ℤ, pos, negsuc}
use cpp_elevator.Base.Outcome.{done, Returns}
use cpp_elevator.Common.{k_elevs}
use cpp_elevator.Elevator.State.{ElevatorState, usable}
use cpp_elevator.Network.Costs.{entry, not_after, int_max, cost_of, calculate_elevator_costs}
use cpp_elevator.Network.Costs.Best.{All-costs}
use cpp_elevator.Network.Assign.{pick_assignee, settled, reassigned}
use cpp_elevator.Network.Assign.Takeover.{
  TakesOver, pick-unusable, pick_assignee-TakesOver, First-of_active, is_other-entry,
  is_other-active,
}

reassigned-alone :
    (num_elevs : ℕ) (states : ℕ → ElevatorState) (floor prev : ℕ)
    → prev < k_elevs
    → num_elevs ≡ 1
    → reassigned num_elevs states floor (pos prev) ≡ done (pos prev)
unfolding reassigned
reassigned-alone n states floor prev lt h = ground arith

pub reassigned-others :
    (num_elevs : ℕ) (states : ℕ → ElevatorState) (floor prev : ℕ)
    → prev < k_elevs
    → num_elevs ≢ 1
    → reassigned num_elevs states floor (pos prev)
      ≡ settled states
          (pos prev)
          (pick_assignee states (calculate_elevator_costs (pos floor) states) (pos prev))
unfolding reassigned
reassigned-others n states floor prev lt h = ground arith

settled-found :
    (states : ℕ → ElevatorState) (prev e : ℕ) → settled states (pos prev) (pos e) ≡ done (pos e)
unfolding settled
settled-found states prev e = ground arith

settled-none :
    (states : ℕ → ElevatorState) (prev : ℕ)
    → (states prev).active ≡ true
    → settled states (pos prev) (negsuc 0) ≡ done (pos prev)
unfolding settled
settled-none states prev h = ground arith

-- When neither rule picks an elevator, the previous assignee is active.
active_of_none :
    (states : ℕ → ElevatorState) (floor : ℤ) (prev n : ℕ)
    → n < k_elevs
    → (states n).active ≡ true
    → cost_of floor (states n) < int_max
    → pick_assignee states (calculate_elevator_costs floor states) (pos prev) ≡ negsuc 0
    → (states prev).active ≡ true
unfolding usable
active_of_none states floor prev n ln act c none = elim (Bool-cases (prev == n)) [
  | inl e ↦ let e' : prev ≡ n = ground arith in rw e' act
  | inr d ↦ elim (Bool-cases (usable (states prev))) [
    | inl u ↦ ground arith
    | inr u ↦
        let ne : n ≢ prev = λ q. ground arith in
        let m = First-of_active prev floor states n ln ne act c in
        let q : negsuc 0 ≡ pos m.cost.1 =
          sym none
          ∙ pick-unusable states (calculate_elevator_costs floor states) prev u
          ∙ m.result in
        absurd cc
  ]
]

-- With an active elevator whose cost is below the largest `int` and a previous assignee in range, a
-- reassignment finds an assignee, an active elevator or the previous one.
pub reassigned-Returns :
    (num_elevs : ℕ) (states : ℕ → ElevatorState) (floor prev n : ℕ)
    → prev < k_elevs
    → n < k_elevs
    → (states n).active ≡ true
    → cost_of (pos floor) (states n) < int_max
    → Returns (TakesOver states prev) (reassigned num_elevs states floor (pos prev))
reassigned-Returns num_elevs states floor prev n lt ln act c = elim (Bool-cases (num_elevs == 1)) [
  | inl e ↦ (
    pos prev,
    reassigned-alone num_elevs states floor prev lt (ground arith),
    (prev, refl, lt, inl refl),
  )
  | inr d ↦
      rw (reassigned-others num_elevs states floor prev lt (λ q. ground arith))
        (elim (pick_assignee-TakesOver prev (pos floor) states lt) [
          | inl none ↦
              let h = active_of_none states (pos floor) prev n ln act c none in
              (pos prev, rw none (settled-none states prev h), (prev, refl, lt, inl refl))
          | inr (e, q, le, w) ↦ (pos e, rw q (settled-found states prev e), (e, refl, le, w))
        ])
]

not_after-le :
    (floor : ℤ) (states : ℕ → ElevatorState) (i e : ℕ)
    → (states i).active ≡ true
    → (states e).active ≡ true
    → not_after (entry floor states i) (entry floor states e) ≡ true
    → cost_of floor (states i) ≤ cost_of floor (states e)
unfolding entry
not_after-le floor states i e a b h = ground arith

-- If the previous assignee is not usable and another elevator is active, the order goes to an
-- active elevator other than the previous one, and none of these costs less.
pub reassigned-unusable :
    (num_elevs : ℕ) (states : ℕ → ElevatorState) (floor prev e : ℕ)
    → prev < k_elevs
    → num_elevs ≢ 1
    → usable (states prev) ≡ false
    → e < k_elevs
    → e ≢ prev
    → (states e).active ≡ true
    → cost_of (pos floor) (states e) < int_max
    → (i : ℕ) × (reassigned num_elevs states floor (pos prev) ≡ done (pos i))
      × (i < k_elevs)
      × (i ≢ prev)
      × ((states i).active ≡ true)
      × (cost_of (pos floor) (states i) ≤ cost_of (pos floor) (states e))
reassigned-unusable num_elevs states floor prev e lt nh u le ne act c =
    let m = First-of_active prev (pos floor) states e le ne act c in
    let own = is_other-entry prev (pos floor) states m.cost.1 (rw (m.holds.1) at m.passes) in
    let least =
      All-costs _ (pos floor) states m.least e le
        (is_other-active prev (pos floor) states e ne act c) in
    (
      m.cost.1,
      reassigned-others num_elevs states floor prev lt nh
          ∙ ap (settled states (pos prev))
              (pick-unusable states (calculate_elevator_costs (pos floor) states) prev u ∙ m.result)
          ∙ settled-found states prev m.cost.1,
      m.holds.0,
      own.0,
      own.1,
      not_after-le (pos floor) states m.cost.1 e own.1 act (rw (m.holds.1) at least),
    )
