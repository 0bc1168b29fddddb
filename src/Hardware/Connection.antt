-- ===== src/Hardware/Connection.antt =====
-- libs/hardware, init_hardware: the connection to the elevator server. What the operating system
-- answers to the calls is an argument. `shutdown_hardware`, the last call of `main`, closes it.
use cpp_elevator.Base.{
  ℕ, zero, suc, ◌+◌, ◌-◌, ◌/◌, ◌<◌, ◌≡◌, ◌⊎◌, inl, inr, Bool-cases, refl, arith, false, not, ltb,
  List, [], ◌∷◌, if◌then◌else◌,
}
use cpp_elevator.Base.Int.{ℤ, pos, negsuc, eqb_ℤ, ◌+ℤ◌}
use cpp_elevator.Base.Outcome.{Outcome, done, fault}
use cpp_elevator.Hardware.{Event, Reply, Hardware, msg}

-- `kPortHw`.
abbrev pub k_port_hw : ℕ
k_port_hw = 15_657

-- The digits of `n` that a buffer has room for, whose numbers are below `limit`: the last ones are
-- cut off. `times` is enough for as many digits too many.
unfoldable pub cut : ℕ → ℕ → ℕ → ℕ
cut zero limit n = n
cut (suc times) limit n =
    let shorter = cut times limit (n / 10) in if ltb n limit then n else shorter

-- `snprintf` of an `int` into `port`, which holds seven characters; an `int` has ten digits at most.
unfoldable pub printed : ℤ → ℤ
unfolding cut
printed (pos n) = pos (cut 3 10_000_000 n)
printed (negsuc n) = negsuc (cut 4 1_000_000 (n + 1) - 1)

unfoldable pub port_of : ℤ → ℤ → ℤ
unfolding printed ◌+ℤ◌
port_of id sim = if eqb_ℤ sim (pos 1) then printed (pos k_port_hw +ℤ id) else pos k_port_hw

-- What the calls return, for a port; and the server there.
pub record Network : Type 0 where
  pub socket_result : ℤ
  pub getaddrinfo_result : ℤ → ℤ
  pub connect_result : ℤ → ℤ
  pub server : ℤ → List Event → Reply

-- The connection after the four zeros that are sent at the end.
abbrev pub connected : (List Event → Reply) → Hardware
connected world = record { trace = msg 0 0 0 0 ∷ []; world = world }

-- The calls behind the choice of the port.
unfoldable pub connect_to : Network → ℤ → Outcome Hardware
connect_to net port =
    if eqb_ℤ net.socket_result (negsuc 0)
    then fault
    else if not (eqb_ℤ (net.getaddrinfo_result port) (pos 0))
    then fault
    else if not (eqb_ℤ (net.connect_result port) (pos 0))
    then fault
    else done (connected (net.server port))

unfoldable pub init_hardware : Network → ℤ → ℤ → Outcome Hardware
unfolding port_of connect_to
init_hardware net id sim = connect_to net (port_of id sim)

-- What the system calls for a port must return for a connection.
pub record Connects (net : Network) (port : ℤ) : Type 0 where
  pub created : eqb_ℤ net.socket_result (negsuc 0) ≡ false
  pub found : net.getaddrinfo_result port ≡ pos 0
  pub accepted : net.connect_result port ≡ pos 0

-- Either all calls succeed and there is a connection, or one fails and the process aborts.
abbrev pub Decided : Network → ℤ → Outcome Hardware → Type 0
Decided net port r =
    (Connects net port × (r ≡ done (connected (net.server port))))
    ⊎ ((¬ Connects net port) × (r ≡ fault))

connect_to-Decided : (net : Network) (port : ℤ) → Decided net port (connect_to net port)
unfolding connect_to
connect_to-Decided net port = elim (Bool-cases (eqb_ℤ net.socket_result (negsuc 0))) [
  | inl bad ↦ inr ((λ c. let s = c.created in cc), rw bad refl)
  | inr made ↦ elim (Bool-cases (eqb_ℤ (net.getaddrinfo_result port) (pos 0))) [
    | inr bad ↦ inr ((λ c. let s = c.found in ground arith), rw (made, bad) refl)
    | inl got ↦ elim (Bool-cases (eqb_ℤ (net.connect_result port) (pos 0))) [
      | inr bad ↦ inr ((λ c. let s = c.accepted in ground arith), rw (made, got, bad) refl)
      | inl on ↦ inl (
        record { created = made; found = ground arith; accepted = ground arith },
        rw (made, got, on) refl,
      )
    ]
  ]
]

pub init_hardware-Decided :
    (net : Network) (id sim : ℤ) → Decided net (port_of id sim) (init_hardware net id sim)
unfolding init_hardware
init_hardware-Decided net id sim = connect_to-Decided net (port_of id sim)

port_of_own : (id : ℕ) → id < 9_000_000 → port_of (pos id) (pos 1) ≡ pos (15_657 + id)
unfolding port_of
port_of_own id h = ground arith

-- In a simulation, `init_hardware` connects a node to a server of its own, at the base port and its
-- id, if the socket was created and the calls for that port succeed; if one of them fails, it aborts.
-- The id must be small enough for the buffer of the port's digits.
pub init_hardware_own_port :
    (net : Network) (id : ℕ)
    → id < 9_000_000
    → Decided net (pos (15_657 + id)) (init_hardware net (pos id) (pos 1))
unfolding init_hardware
init_hardware_own_port net id h = rw (port_of_own id h) (connect_to-Decided net (pos (15_657 + id)))
