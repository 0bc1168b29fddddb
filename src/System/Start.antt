-- ===== src/System/Start.antt =====
-- The elevators together, from the start of their processes.
use mathlib.Core.Option.{some}
use cpp_elevator.Base.{ℕ, ◌<◌, ◌≡◌, true, []}
use cpp_elevator.Base.Int.{ℤ}
use cpp_elevator.Base.Outcome.{done, Returns}
use cpp_elevator.Common.{k_elevs}
use cpp_elevator.Control.Fsm.Safety.{Safe}
use cpp_elevator.Hardware.Connection.{Network}
use cpp_elevator.Network.Packet.{valid}
use cpp_elevator.Node.{ElevatorNode, sample, respond}
use cpp_elevator.Node.Sync.{NodeOk}
use cpp_elevator.Main.{launch}
use cpp_elevator.Main.Start.{Serves, launch-NodeOk}
use cpp_elevator.System.{System, Reach}
use cpp_elevator.System.Sound.{SystemOk, AllPackets, done_of-Returns, elevators_never_fault}

-- Node `i` as `main` has it before its threads start, with a server that serves it.
pub record Started (i : ℕ) (n : ElevatorNode) : Type 0 where
  pub net : Network
  pub sim : ℤ
  pub fuel : ℕ
  pub arrival : ℕ
  pub unset : ℕ
  pub now : ℕ
  pub allowed : arrival < fuel
  pub serves : Serves net i sim arrival
  pub ends : launch net fuel now unset i sim ≡ some (done n)

Started-NodeOk : (i : ℕ) (n : ElevatorNode) → i < k_elevs → Started i n → NodeOk i n
Started-NodeOk i n hi s =
    let (r, e, ok) =
      launch-NodeOk s.net s.fuel s.now s.unset i s.sim s.arrival hi s.allowed s.serves in
    done_of-Returns (NodeOk i) r n (cc (e, s.ends)) ok

-- The elevators of the building are started, and nothing was sent.
pub record PoweredOn (s : System) : Type 0 where
  pub nodes : (i : ℕ) → i < k_elevs → Started i (s.nodes i)
  pub silent : s.air ≡ []

pub PoweredOn-SystemOk : (s : System) → PoweredOn s → SystemOk s
PoweredOn-SystemOk s on = record {
  nodes = λ i hi. Started-NodeOk i (s.nodes i) hi (on.nodes i hi);
  air = rw on.silent tt;
}

-- From the start of the processes, in every state that the elevators reach, each node can do both
-- halves of a control step: no assertion fails and nothing aborts. Its cabin is safe, and every
-- packet that was sent is accepted by the others. The servers are assumed to report floors of the
-- building, to report one on each cabin's way down, and to keep a stopped cabin at its floor.
pub PoweredOn-never_faults :
    {s t : System} (i now : ℕ)
    → i < k_elevs
    → PoweredOn s
    → Reach s t
    → Returns (NodeOk i) (sample now (t.nodes i))
      × Returns (NodeOk i) (respond now (t.nodes i))
      × Safe (t.nodes i).rig
      × AllPackets (λ p. valid p ≡ true) t.air
PoweredOn-never_faults {s = s} i now hi on r =
    elevators_never_fault i now hi (PoweredOn-SystemOk s on) r
