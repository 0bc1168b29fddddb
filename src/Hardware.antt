-- ===== src/Hardware.antt =====
-- libs/hardware: the socket to the elevator server. Each call sends four bytes, and a query then
-- reads four. The server, and the cabin behind it, is the argument `world`: its reply to the last
-- message may depend on all that was sent before. A failed assertion or `Abort` ends the process:
-- the trace has `halted` there, and what follows it in the trace does not happen.
pub mod Wire
pub mod Connection
use cpp_elevator.Base.{
  ℕ, ◌+◌, ◌-◌, ◌%◌, Bool, true, false, ◌||◌, ◌&&◌, not, List, [], ◌∷◌, if◌then◌else◌, ◌==◌,
}
use cpp_elevator.Base.Int.{ℤ, pos, negsuc, ltb_ℤ, leb_ℤ, eqb_ℤ}
use cpp_elevator.Common.{k_floors, MotorDir, motor_code, eq_motor, BtnType, btn_index}

-- `char msg[4]`, each a byte; `static_cast<char>` keeps the low eight bits.
pub record Message : Type 0 where
  pub m0 : ℕ
  pub m1 : ℕ
  pub m2 : ℕ
  pub m3 : ℕ

abbrev pub to_char : ℤ → ℕ
to_char (pos n) = n % 256
to_char (negsuc n) = 255 - n % 256

-- `closed` is the end of the connection.
pub data Event : Type 0 where
  sent : Message → Event
  halted : Event
  closed : Event

-- `buf[1]` and `buf[2]` of a reply, as signed characters.
pub record Reply : Type 0 where
  pub b1 : ℤ
  pub b2 : ℤ

-- The newest event comes first.
pub record Hardware : Type 0 where
  pub trace : List Event
  pub world : List Event → Reply

abbrev pub emit : Event → Hardware → Hardware
emit e h = record h { trace = e ∷ h.trace }

abbrev pub msg : ℕ → ℕ → ℕ → ℕ → Event
msg a b c d = Event.sent (record { m0 = a; m1 = b; m2 = c; m3 = d })

unfoldable pub set_motor_dir : MotorDir → Hardware → Hardware
set_motor_dir dir h =
    if eq_motor dir MotorDir.err
    then emit Event.halted h
    else emit (msg 1 (to_char (motor_code dir)) 0 0) h

unfoldable pub set_btn_lamp : BtnType → ℤ → ℤ → Hardware → Hardware
set_btn_lamp btn floor value h =
    if ltb_ℤ floor (pos 0) || leb_ℤ (pos k_floors) floor
    then emit Event.halted h
    else emit (msg 2 (btn_index btn) (to_char floor) (to_char value)) h

unfoldable pub set_floor_indicator : ℤ → Hardware → Hardware
set_floor_indicator floor h =
    if ltb_ℤ floor (pos 0) || leb_ℤ (pos k_floors) floor
    then emit Event.halted h
    else emit (msg 3 (to_char floor) 0 0) h

unfoldable pub set_door_open_lamp : ℤ → Hardware → Hardware
set_door_open_lamp value h = emit (msg 4 (to_char value) 0 0) h

unfoldable pub set_stop_lamp : ℤ → Hardware → Hardware
set_stop_lamp value h = emit (msg 5 (to_char value) 0 0) h

-- `send` and `recv` of a query.
abbrev pub ask : Event → Hardware → Reply × Hardware
ask e h = let h' = emit e h in (h.world (e ∷ h.trace), h')

unfoldable pub get_button_signal : BtnType → ℤ → Hardware → ℤ × Hardware
get_button_signal btn floor h =
    let (r, h') = ask (msg 6 (btn_index btn) (to_char floor) 0) h in (r.b1, h')

unfoldable pub get_floor_sensor : Hardware → ℤ × Hardware
get_floor_sensor h =
    let (r, h') = ask (msg 7 0 0 0) h in (if eqb_ℤ r.b1 (pos 0) then negsuc 0 else r.b2, h')

unfoldable pub get_stop_signal : Hardware → ℤ × Hardware
get_stop_signal h = let (r, h') = ask (msg 8 0 0 0) h in (r.b1, h')

unfoldable pub get_obstruction_signal : Hardware → ℤ × Hardware
get_obstruction_signal h = let (r, h') = ask (msg 9 0 0 0) h in (r.b1, h')

-- `close(sockfd)`.
unfoldable pub shutdown_hardware : Hardware → Hardware
shutdown_hardware h = emit Event.closed h
