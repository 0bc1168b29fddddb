-- ===== src/Common.antt =====
-- libs/common: the configuration (config.hpp) and the enumerations of types.hpp. A scoped
-- enumeration with a fixed underlying type holds any value of that type, and a packet from the
-- network is read into one as raw bytes; so each enumeration that a packet carries has, besides
-- the source's enumerators, constructors for the values that none of them names.
pub mod Timer
pub mod Utils
use cpp_elevator.Base.{ℕ, suc, ◌+◌, ◌≡◌, refl, arith, Bool, true, false, ◌==◌}
use cpp_elevator.Base.Int.{ℤ, pos, negsuc, eqb_ℤ}
use cpp_elevator.Base.Grid.{Grid}

abbrev pub k_elevs : ℕ
k_elevs = 4

abbrev pub k_floors : ℕ
k_floors = 4

abbrev pub k_buttons : ℕ
k_buttons = 3

abbrev pub k_between_floors : ℤ
k_between_floors = negsuc 0

abbrev pub k_door_open_time_ms : ℕ
k_door_open_time_ms = 3000

abbrev pub k_fault_timeout_ms : ℕ
k_fault_timeout_ms = 5000

abbrev pub BoolTable : Type 0
BoolTable = Grid Bool

-- `std::array<bool, kButtons>`, by its three indices.
pub record ButtonFlags : Type 0 where
  pub hall_up : Bool
  pub hall_down : Bool
  pub cab : Bool

pub data BtnType : Type 0 where
  hall_up hall_down cab : BtnType

abbrev pub btn_index : BtnType → ℕ
btn_index BtnType.hall_up = 0
btn_index BtnType.hall_down = 1
btn_index BtnType.cab = 2

pub data OrderStatus : Type 0 where
  none requested confirmed clear : OrderStatus
  other : ℕ → OrderStatus

-- The value as `uint8_t`; `other n` is the byte 4 + n.
abbrev pub status_code : OrderStatus → ℕ
status_code OrderStatus.none = 0
status_code OrderStatus.requested = 1
status_code OrderStatus.confirmed = 2
status_code OrderStatus.clear = 3
status_code (OrderStatus.other n) = suc (suc (suc (suc n)))

abbrev pub eq_status : OrderStatus → OrderStatus → Bool
eq_status s t = status_code s == status_code t

pub status_code-injective : (s t : OrderStatus) → status_code s ≡ status_code t → s ≡ t
status_code-injective s t h = ground arith

pub data Inertia : Type 0 where
  up down none : Inertia
  other : ℕ → Inertia

-- The value as `uint8_t`; `other n` is the byte 3 + n.
abbrev pub inertia_code : Inertia → ℕ
inertia_code Inertia.up = 0
inertia_code Inertia.down = 1
inertia_code Inertia.none = 2
inertia_code (Inertia.other n) = suc (suc (suc n))

pub data MotorDir : Type 0 where
  down stop up err : MotorDir
  under over : ℕ → MotorDir

-- The value as `int8_t`; `under n` is -2 - n and `over n` is 3 + n.
abbrev pub motor_code : MotorDir → ℤ
motor_code MotorDir.down = negsuc 0
motor_code MotorDir.stop = pos 0
motor_code MotorDir.up = pos 1
motor_code MotorDir.err = pos 2
motor_code (MotorDir.under n) = negsuc (suc n)
motor_code (MotorDir.over n) = pos (suc (suc (suc n)))

abbrev pub eq_motor : MotorDir → MotorDir → Bool
eq_motor d e = eqb_ℤ (motor_code d) (motor_code e)

pub data MovingState : Type 0 where
  idle door_open moving err : MovingState
  other : ℕ → MovingState

-- The value as `uint8_t`; `other n` is the byte 4 + n.
abbrev pub moving_code : MovingState → ℕ
moving_code MovingState.idle = 0
moving_code MovingState.door_open = 1
moving_code MovingState.moving = 2
moving_code MovingState.err = 3
moving_code (MovingState.other n) = suc (suc (suc (suc n)))

abbrev pub eq_moving : MovingState → MovingState → Bool
eq_moving s t = moving_code s == moving_code t

abbrev pub k_sample_time_ms : ℕ
k_sample_time_ms = 40

abbrev pub k_reassign_order_time_ms : ℕ
k_reassign_order_time_ms = 25_000

abbrev pub k_obstruction_reassign_order_time_ms : ℕ
k_obstruction_reassign_order_time_ms = 4800

abbrev pub k_watchdog_time_ms : ℕ
k_watchdog_time_ms = 600

pub record DirMovPair : Type 0 where
  pub motor_dir : MotorDir
  pub moving_state : MovingState
