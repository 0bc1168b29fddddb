-- ===== src/Control/Controller/Stops.antt =====
-- libs/control, class Controller: where the elevator stops, and which calls it clears there.
use cpp_elevator.Base.{◌≡◌, refl, arith, ◌⊎◌, inl, inr, ◌↔◌, Bool, true, false}
use cpp_elevator.Base.Int.{ℤ}
use cpp_elevator.Common.{Inertia, BtnType, ButtonFlags}
use cpp_elevator.Control.Requests.{RequestTable, value}
use cpp_elevator.Control.Requests.Search.{RequestedAbove, RequestedBelow}
use cpp_elevator.Control.Controller.{
  Controller, stop_by, clear_by, should_stop, clear_current_floor,
}
use cpp_elevator.Control.Controller.Direction.{answers}

-- The calls at a floor that an elevator in the given direction has to serve there.
abbrev pub OnTheWay : Inertia → RequestTable → ℤ → Type 0
OnTheWay Inertia.up t floor =
    (value floor BtnType.hall_up t ≡ true)
    ⊎ (value floor BtnType.cab t ≡ true)
    ⊎ (¬ RequestedAbove t floor)
OnTheWay Inertia.down t floor =
    (value floor BtnType.hall_down t ≡ true)
    ⊎ (value floor BtnType.cab t ≡ true)
    ⊎ (¬ RequestedBelow t floor)
OnTheWay _ t floor = Unit

-- The elevator stops at a floor exactly if a call for its direction or from the cabin is there, or
-- nothing is left ahead.
pub should_stop-OnTheWay :
    (floor : ℤ) (c : Controller)
    → (should_stop floor c ≡ true) ↔ OnTheWay c.inertia c.requests floor
unfolding should_stop
should_stop-OnTheWay floor c = by_inertia c.inertia
  where
    by_inertia : (i : Inertia) → (stop_by i floor c.requests ≡ true) ↔ OnTheWay i c.requests floor
    by_inertia Inertia.up = elim ((answers c.requests floor).above) [
      | inl (a, A) ↦ (λ h. ground arith, λ q. ground (arith, q))
      | inr (a, A) ↦ (λ h. inr (inr A), λ q. ground arith)
    ]
    by_inertia Inertia.down = elim ((answers c.requests floor).below) [
      | inl (b, B) ↦ (λ h. ground arith, λ q. ground (arith, q))
      | inr (b, B) ↦ (λ h. inr (inr B), λ q. ground arith)
    ]
    by_inertia Inertia.none = (λ h. tt, λ q. refl)
    by_inertia (Inertia.other n) = (λ h. tt, λ q. refl)

abbrev pub flag : ButtonFlags → BtnType → Bool
flag f BtnType.hall_up = f.hall_up
flag f BtnType.hall_down = f.hall_down
flag f BtnType.cab = f.cab

-- The calls that a stop serves: those from the cabin and those for the direction of travel, and
-- those for the other direction where the elevator is to turn and nobody enters for its own.
abbrev pub Served : Inertia → RequestTable → ℤ → BtnType → Type 0
Served Inertia.up t floor BtnType.hall_down =
    ¬ RequestedAbove t floor × (value floor BtnType.hall_up t ≡ false)
Served Inertia.down t floor BtnType.hall_up =
    ¬ RequestedBelow t floor × (value floor BtnType.hall_down t ≡ false)
Served _ t floor _ = Unit

-- A call is cleared at a stop exactly if the stop serves it.
pub clear_current_floor-Served :
    (floor : ℤ) (btn : BtnType) (c : Controller)
    → (flag (clear_current_floor floor c) btn ≡ true) ↔ Served c.inertia c.requests floor btn
unfolding clear_current_floor
clear_current_floor-Served floor btn c = by_inertia c.inertia btn
  where
    by_inertia :
        (i : Inertia) (btn : BtnType)
        → (flag (clear_by i floor c.requests) btn ≡ true) ↔ Served i c.requests floor btn
    by_inertia Inertia.up BtnType.hall_down = elim ((answers c.requests floor).above) [
      | inl (a, A) ↦ (λ h. ground arith, λ q. absurd (q.0 A))
      | inr (a, A) ↦ (λ h. (A, ground arith), λ q. ground arith)
    ]
    by_inertia Inertia.down BtnType.hall_up = elim ((answers c.requests floor).below) [
      | inl (b, B) ↦ (λ h. ground arith, λ q. absurd (q.0 B))
      | inr (b, B) ↦ (λ h. (B, ground arith), λ q. ground arith)
    ]
    by_inertia Inertia.up BtnType.hall_up = (λ h. tt, λ q. refl)
    by_inertia Inertia.up BtnType.cab = (λ h. tt, λ q. refl)
    by_inertia Inertia.down BtnType.hall_down = (λ h. tt, λ q. refl)
    by_inertia Inertia.down BtnType.cab = (λ h. tt, λ q. refl)
    by_inertia Inertia.none BtnType.hall_up = (λ h. tt, λ q. refl)
    by_inertia Inertia.none BtnType.hall_down = (λ h. tt, λ q. refl)
    by_inertia Inertia.none BtnType.cab = (λ h. tt, λ q. refl)
    by_inertia (Inertia.other n) BtnType.hall_up = (λ h. tt, λ q. refl)
    by_inertia (Inertia.other n) BtnType.hall_down = (λ h. tt, λ q. refl)
    by_inertia (Inertia.other n) BtnType.cab = (λ h. tt, λ q. refl)

-- A stop serves the calls from the cabin.
pub clear_current_floor-cab :
    (floor : ℤ) (c : Controller) → (clear_current_floor floor c).cab ≡ true
unfolding clear_current_floor
clear_current_floor-cab floor c = by_inertia c.inertia
  where
    by_inertia : (i : Inertia) → (clear_by i floor c.requests).cab ≡ true
    by_inertia Inertia.up = refl
    by_inertia Inertia.down = refl
    by_inertia Inertia.none = refl
    by_inertia (Inertia.other n) = refl
