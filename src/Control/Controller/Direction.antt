-- ===== src/Control/Controller/Direction.antt =====
-- libs/control, class Controller: what the decisions say of the requests.
use cpp_elevator.Base.{◌<◌, ◌≡◌, ◌≢◌, refl, arith, ◌⊎◌, inl, inr, Bool, true, false}
use cpp_elevator.Base.Int.{ℤ, pos, ◌<ℤ◌, ◌+ℤ◌}
use cpp_elevator.Common.{k_floors, MotorDir, Inertia, inertia_code, DirMovPair}
use cpp_elevator.Control.Requests.{
  RequestTable, is_request_here, is_request_above, is_request_below,
}
use cpp_elevator.Control.Requests.Search.{
  value-in_range, Requested, RequestedAbove, RequestedBelow, is_request_here_iff,
  is_request_above_iff, is_request_below_iff,
}
use cpp_elevator.Control.Controller.{
  Controller, choose_by, choose_direction, go_up, go_down, stop_here, stay,
}

pub choose_direction_cases :
    (floor : ℤ) (c : Controller)
    → (choose_direction floor c ≡ go_up)
      ⊎ (choose_direction floor c ≡ go_down)
      ⊎ (choose_direction floor c ≡ stop_here)
      ⊎ (choose_direction floor c ≡ stay)
unfolding choose_direction
choose_direction_cases floor c = ground arith

no_above :
    (floor : ℤ) (t : RequestTable) → is_request_above floor t ≡ false → ¬ RequestedAbove t floor
no_above floor t h q = cc (h, (is_request_above_iff floor t).1 q)

no_below :
    (floor : ℤ) (t : RequestTable) → is_request_below floor t ≡ false → ¬ RequestedBelow t floor
no_below floor t h q = cc (h, (is_request_below_iff floor t).1 q)

no_here : (floor : ℤ) (t : RequestTable) → is_request_here floor t ≡ false → ¬ Requested t floor
no_here floor t h q = cc (h, (is_request_here_iff floor t).1 q)

-- What may lead to each decision. `i` is the direction of the last movement.
pub data Choice (i : Inertia) (t : RequestTable) (floor : ℤ) (p : DirMovPair) : Type 0 where
  keep_up : p ≡ go_up → i ≡ Inertia.up → RequestedAbove t floor → Choice i t floor p
  keep_down : p ≡ go_down → i ≡ Inertia.down → RequestedBelow t floor → Choice i t floor p
  serve_up :
      p ≡ stop_here
      → i ≡ Inertia.up
      → Requested t floor
      → ¬ RequestedAbove t floor
      → Choice i t floor p
  serve_down :
      p ≡ stop_here
      → i ≡ Inertia.down
      → Requested t floor
      → ¬ RequestedBelow t floor
      → Choice i t floor p
  serve_first : p ≡ stop_here → i ≡ Inertia.none → Requested t floor → Choice i t floor p
  turn_up :
      p ≡ go_up
      → i ≢ Inertia.up
      → RequestedAbove t floor
      → ¬ Requested t floor
      → (i ≡ Inertia.none) ⊎ ¬ RequestedBelow t floor
      → Choice i t floor p
  turn_down :
      p ≡ go_down
      → i ≢ Inertia.down
      → RequestedBelow t floor
      → ¬ Requested t floor
      → ¬ RequestedAbove t floor
      → Choice i t floor p
  rest :
      p ≡ stay
      → ¬ Requested t floor
      → ¬ RequestedAbove t floor
      → ¬ RequestedBelow t floor
      → Choice i t floor p

-- The three answers about a floor, as statements about the requests.
pub record Answers (t : RequestTable) (floor : ℤ) : Type 0 where
  pub above :
      ((is_request_above floor t ≡ true) × RequestedAbove t floor)
      ⊎ ((is_request_above floor t ≡ false) × ¬ RequestedAbove t floor)
  pub below :
      ((is_request_below floor t ≡ true) × RequestedBelow t floor)
      ⊎ ((is_request_below floor t ≡ false) × ¬ RequestedBelow t floor)
  pub here :
      ((is_request_here floor t ≡ true) × Requested t floor)
      ⊎ ((is_request_here floor t ≡ false) × ¬ Requested t floor)

answer :
    {P : Type 0} (b : Bool)
    → (b ≡ true → P)
    → (b ≡ false → ¬ P)
    → ((b ≡ true) × P) ⊎ ((b ≡ false) × ¬ P)
answer true f g = inl (refl, f refl)
answer false f g = inr (refl, g refl)

pub answers : (t : RequestTable) (floor : ℤ) → Answers t floor
answers t floor = record {
  above = answer (is_request_above floor t) (is_request_above_iff floor t).0 (no_above floor t);
  below = answer (is_request_below floor t) (is_request_below_iff floor t).0 (no_below floor t);
  here = answer (is_request_here floor t) (is_request_here_iff floor t).0 (no_here floor t);
}

choose_up :
    (floor : ℤ) (t : RequestTable) → Choice Inertia.up t floor (choose_by Inertia.up floor t)
unfolding choose_by
choose_up floor t = elim ((answers t floor).above) [
  | inl (a, A) ↦ keep_up (ground arith) refl A
  | inr (a, A) ↦ elim ((answers t floor).here) [
    | inl (h, H) ↦ serve_up (ground arith) refl H A
    | inr (h, H) ↦ elim ((answers t floor).below) [
      | inl (b, B) ↦ turn_down (ground arith) (cc) B H A
      | inr (b, B) ↦ rest (ground arith) H A B
    ]
  ]
]

choose_down :
    (floor : ℤ) (t : RequestTable) → Choice Inertia.down t floor (choose_by Inertia.down floor t)
unfolding choose_by
choose_down floor t = elim ((answers t floor).below) [
  | inl (b, B) ↦ keep_down (ground arith) refl B
  | inr (b, B) ↦ elim ((answers t floor).here) [
    | inl (h, H) ↦ serve_down (ground arith) refl H B
    | inr (h, H) ↦ elim ((answers t floor).above) [
      | inl (a, A) ↦ turn_up (ground arith) (cc) A H (inr B)
      | inr (a, A) ↦ rest (ground arith) H A B
    ]
  ]
]

choose_first :
    (floor : ℤ) (t : RequestTable) → Choice Inertia.none t floor (choose_by Inertia.none floor t)
unfolding choose_by
choose_first floor t = elim ((answers t floor).here) [
  | inl (h, H) ↦ serve_first (ground arith) refl H
  | inr (h, H) ↦ elim ((answers t floor).above) [
    | inl (a, A) ↦ turn_up (ground arith) (cc) A H (inl refl)
    | inr (a, A) ↦ elim ((answers t floor).below) [
      | inl (b, B) ↦ turn_down (ground arith) (cc) B H A
      | inr (b, B) ↦ rest (ground arith) H A B
    ]
  ]
]

-- The decision serves the requests ahead first, then those at this floor, then those behind. An
-- elevator rests only if there are none.
pub choose_direction-Choice :
    (floor : ℤ) (c : Controller)
    → inertia_code c.inertia < 3
    → Choice c.inertia c.requests floor (choose_direction floor c)
unfolding choose_direction
choose_direction-Choice floor c h = by_inertia c.inertia h
  where
    by_inertia :
        (i : Inertia)
        → inertia_code i < 3
        → Choice i c.requests floor (choose_by i floor c.requests)
    by_inertia Inertia.up k = choose_up floor c.requests
    by_inertia Inertia.down k = choose_down floor c.requests
    by_inertia Inertia.none k = choose_first floor c.requests
    by_inertia (Inertia.other n) k = absurd (omega arith)

pub above_in_shaft :
    (floor : ℤ) (t : RequestTable) → RequestedAbove t floor → floor +ℤ pos 1 <ℤ pos k_floors
unfolding ◌+ℤ◌
above_in_shaft floor t (f, above, (b, h)) = ground (arith, value-in_range f b t h)

pub below_in_shaft : (floor : ℤ) (t : RequestTable) → RequestedBelow t floor → pos 0 <ℤ floor
below_in_shaft floor t (f, below, (b, h)) = ground (arith, value-in_range f b t h)

up_needs_above :
    (floor : ℤ) (c : Controller)
    → (choose_direction floor c).motor_dir ≡ MotorDir.up
    → is_request_above floor c.requests ≡ true
unfolding choose_direction
up_needs_above floor c h = ground arith

down_needs_below :
    (floor : ℤ) (c : Controller)
    → (choose_direction floor c).motor_dir ≡ MotorDir.down
    → is_request_below floor c.requests ≡ true
unfolding choose_direction
down_needs_below floor c h = ground arith

-- There is a floor on the way.
abbrev pub InShaft : ℤ → MotorDir → Type 0
InShaft floor MotorDir.up = floor +ℤ pos 1 <ℤ pos k_floors
InShaft floor MotorDir.down = pos 0 <ℤ floor
InShaft floor d = d ≡ MotorDir.stop

choose_direction_stops :
    (floor : ℤ) (c : Controller) (d : MotorDir)
    → (choose_direction floor c).motor_dir ≡ d
    → (d ≡ MotorDir.up) ⊎ (d ≡ MotorDir.down) ⊎ (d ≡ MotorDir.stop)
choose_direction_stops floor c d h = ground (arith, choose_direction_cases floor c)

-- The elevator is only ever sent up, down or nowhere, and never beyond the top or bottom floor.
pub choose_direction-InShaft :
    (floor : ℤ) (c : Controller) → InShaft floor (choose_direction floor c).motor_dir
choose_direction-InShaft floor c = sent (choose_direction floor c).motor_dir refl
  where
    sent : (d : MotorDir) → (choose_direction floor c).motor_dir ≡ d → InShaft floor d
    sent MotorDir.up h =
        above_in_shaft floor c.requests
          ((is_request_above_iff floor c.requests).0 (up_needs_above floor c h))
    sent MotorDir.down h =
        below_in_shaft floor c.requests
          ((is_request_below_iff floor c.requests).0 (down_needs_below floor c h))
    sent MotorDir.stop h = refl
    sent MotorDir.err h = ground (arith, choose_direction_stops floor c MotorDir.err h)
    sent (MotorDir.under n) h = ground (arith, choose_direction_stops floor c (MotorDir.under n) h)
    sent (MotorDir.over n) h = ground (arith, choose_direction_stops floor c (MotorDir.over n) h)
