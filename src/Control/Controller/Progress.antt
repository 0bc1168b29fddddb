-- ===== src/Control/Controller/Progress.antt =====
-- libs/control, class Controller: a stop that the decisions lead to clears a call.
use cpp_elevator.Base.{◌<◌, ◌≡◌, ◌⊎◌, inl, inr, true, false, Bool-cases}
use cpp_elevator.Base.Int.{ℤ}
use cpp_elevator.Common.{Inertia, inertia_code, BtnType}
use cpp_elevator.Control.Requests.{value}
use cpp_elevator.Control.Requests.Search.{Requested, RequestedAbove, RequestedBelow}
use cpp_elevator.Control.Controller.{
  Controller, should_stop, clear_current_floor, choose_direction, go_up, go_down, stop_here, stay,
}
use cpp_elevator.Control.Controller.Direction.{answers, Choice, choose_direction-Choice}
use cpp_elevator.Control.Controller.Stops.{
  flag, Served, clear_current_floor-Served, OnTheWay, should_stop-OnTheWay,
}

-- A call at the floor that a stop there clears.
abbrev pub Clears : Controller → ℤ → Type 0
Clears c floor =
    (btn : BtnType) × (value floor btn c.requests ≡ true)
    × (flag (clear_current_floor floor c) btn ≡ true)

served-Clears :
    (floor : ℤ) (c : Controller) (btn : BtnType)
    → value floor btn c.requests ≡ true
    → Served c.inertia c.requests floor btn
    → Clears c floor
served-Clears floor c btn v s = (btn, v, (clear_current_floor-Served floor btn c).1 s)

cab-Clears :
    (floor : ℤ) (c : Controller) → value floor BtnType.cab c.requests ≡ true → Clears c floor
cab-Clears floor c v = served-Clears floor c BtnType.cab v (always c.inertia)
  where
    always : (i : Inertia) → Served i c.requests floor BtnType.cab
    always Inertia.up = tt
    always Inertia.down = tt
    always Inertia.none = tt
    always (Inertia.other n) = tt

-- Where the cabin turns or stands, each call at the floor leads to one that is cleared.
turning_up :
    (floor : ℤ) (c : Controller)
    → c.inertia ≡ Inertia.up
    → Requested c.requests floor
    → ¬ RequestedAbove c.requests floor
    → Clears c floor
turning_up floor c i (BtnType.hall_up, v) none = served-Clears floor c BtnType.hall_up v (rw i tt)
turning_up floor c i (BtnType.cab, v) none = cab-Clears floor c v
turning_up floor c i (BtnType.hall_down, v) none =
    elim (Bool-cases (value floor BtnType.hall_up c.requests)) [
      | inl up ↦ served-Clears floor c BtnType.hall_up up (rw i tt)
      | inr up ↦ served-Clears floor c BtnType.hall_down v (rw i (none, up))
    ]

turning_down :
    (floor : ℤ) (c : Controller)
    → c.inertia ≡ Inertia.down
    → Requested c.requests floor
    → ¬ RequestedBelow c.requests floor
    → Clears c floor
turning_down floor c i (BtnType.hall_down, v) none =
    served-Clears floor c BtnType.hall_down v (rw i tt)
turning_down floor c i (BtnType.cab, v) none = cab-Clears floor c v
turning_down floor c i (BtnType.hall_up, v) none =
    elim (Bool-cases (value floor BtnType.hall_down c.requests)) [
      | inl down ↦ served-Clears floor c BtnType.hall_down down (rw i tt)
      | inr down ↦ served-Clears floor c BtnType.hall_up v (rw i (none, down))
    ]

standing :
    (floor : ℤ) (c : Controller)
    → c.inertia ≡ Inertia.none
    → Requested c.requests floor
    → Clears c floor
standing floor c i (BtnType.hall_up, v) = served-Clears floor c BtnType.hall_up v (rw i tt)
standing floor c i (BtnType.hall_down, v) = served-Clears floor c BtnType.hall_down v (rw i tt)
standing floor c i (BtnType.cab, v) = cab-Clears floor c v

-- The decision to open the door leads to a stop that clears a call; every other decision but that to
-- rest leads towards a request.
pub data Progress (c : Controller) (floor : ℤ) : Type 0 where
  opens : choose_direction floor c ≡ stop_here → Clears c floor → Progress c floor
  rises : choose_direction floor c ≡ go_up → RequestedAbove c.requests floor → Progress c floor
  sinks : choose_direction floor c ≡ go_down → RequestedBelow c.requests floor → Progress c floor
  rests :
      choose_direction floor c ≡ stay
      → ¬ Requested c.requests floor
      → ¬ RequestedAbove c.requests floor
      → ¬ RequestedBelow c.requests floor
      → Progress c floor

-- Every decision makes progress: it opens the door only where some requested call is one that the stop
-- clears, moves only towards a request, and rests only when there is none anywhere. The inertia is a
-- named one.
pub choose_direction-Progress :
    (floor : ℤ) (c : Controller) → inertia_code c.inertia < 3 → Progress c floor
choose_direction-Progress floor c h = of_choice (choose_direction-Choice floor c h)
  where
    of_choice : Choice c.inertia c.requests floor (choose_direction floor c) → Progress c floor
    of_choice (Choice.keep_up p i a) = rises p a
    of_choice (Choice.keep_down p i b) = sinks p b
    of_choice (Choice.serve_up p i r a) = opens p (turning_up floor c i r a)
    of_choice (Choice.serve_down p i r b) = opens p (turning_down floor c i r b)
    of_choice (Choice.serve_first p i r) = opens p (standing floor c i r)
    of_choice (Choice.turn_up p i a r n) = rises p a
    of_choice (Choice.turn_down p i b r n) = sinks p b
    of_choice (Choice.rest p r a b) = rests p r a b

-- A cabin on its way up to a request stops only to clear a call, and passes a floor only if there is a
-- request above it.
arrives_up :
    (floor : ℤ) (c : Controller)
    → c.inertia ≡ Inertia.up
    → Requested c.requests floor ⊎ RequestedAbove c.requests floor
    → ((should_stop floor c ≡ true) × Clears c floor)
      ⊎ ((should_stop floor c ≡ false) × RequestedAbove c.requests floor)
arrives_up floor c i ahead = elim (Bool-cases (should_stop floor c)) [
  | inl stops ↦ inl (stops, by_call (rw i at ((should_stop-OnTheWay floor c).0 stops)))
  | inr passes ↦ inr (
    passes,
    elim ((answers c.requests floor).above) [
      | inl (_, A) ↦ A
      | inr (_, A) ↦ let stops = (should_stop-OnTheWay floor c).1 (rw i (inr (inr A))) in cc
    ],
  )
]
  where
    by_call : OnTheWay Inertia.up c.requests floor → Clears c floor
    by_call (inl up) = served-Clears floor c BtnType.hall_up up (rw i tt)
    by_call (inr (inl cab)) = cab-Clears floor c cab
    by_call (inr (inr none)) = elim ahead [
      | inl here ↦ turning_up floor c i here none
      | inr above ↦ absurd (none above)
    ]

-- So does a cabin on its way down.
arrives_down :
    (floor : ℤ) (c : Controller)
    → c.inertia ≡ Inertia.down
    → Requested c.requests floor ⊎ RequestedBelow c.requests floor
    → ((should_stop floor c ≡ true) × Clears c floor)
      ⊎ ((should_stop floor c ≡ false) × RequestedBelow c.requests floor)
arrives_down floor c i ahead = elim (Bool-cases (should_stop floor c)) [
  | inl stops ↦ inl (stops, by_call (rw i at ((should_stop-OnTheWay floor c).0 stops)))
  | inr passes ↦ inr (
    passes,
    elim ((answers c.requests floor).below) [
      | inl (_, B) ↦ B
      | inr (_, B) ↦ let stops = (should_stop-OnTheWay floor c).1 (rw i (inr (inr B))) in cc
    ],
  )
]
  where
    by_call : OnTheWay Inertia.down c.requests floor → Clears c floor
    by_call (inl down) = served-Clears floor c BtnType.hall_down down (rw i tt)
    by_call (inr (inl cab)) = cab-Clears floor c cab
    by_call (inr (inr none)) = elim ahead [
      | inl here ↦ turning_down floor c i here none
      | inr below ↦ absurd (none below)
    ]

-- The controller heads for a request at the floor or beyond it.
abbrev pub HeadsFor : Controller → ℤ → Type 0
HeadsFor c floor =
    ((c.inertia ≡ Inertia.up) × (Requested c.requests floor ⊎ RequestedAbove c.requests floor))
    ⊎ ((c.inertia ≡ Inertia.down) × (Requested c.requests floor ⊎ RequestedBelow c.requests floor))

-- There is a request beyond the floor in the direction of travel.
abbrev pub MoreAhead : Controller → ℤ → Type 0
MoreAhead c floor =
    ((c.inertia ≡ Inertia.up) × RequestedAbove c.requests floor)
    ⊎ ((c.inertia ≡ Inertia.down) × RequestedBelow c.requests floor)

-- A cabin that arrives at a floor, with a request there or beyond it in its direction, does not stop
-- in vain and does not pass its last request: either it should stop, and some call that is requested
-- at the floor is one that the stop clears, or it should not, and there is a request beyond the floor.
pub should_stop-Clears :
    (floor : ℤ) (c : Controller)
    → HeadsFor c floor
    → ((should_stop floor c ≡ true) × Clears c floor)
      ⊎ ((should_stop floor c ≡ false) × MoreAhead c floor)
should_stop-Clears floor c (inl (up, ahead)) = elim (arrives_up floor c up ahead) [
  | inl stops ↦ inl stops
  | inr (passes, above) ↦ inr (passes, inl (up, above))
]
should_stop-Clears floor c (inr (down, ahead)) = elim (arrives_down floor c down ahead) [
  | inl stops ↦ inl stops
  | inr (passes, below) ↦ inr (passes, inr (down, below))
]
