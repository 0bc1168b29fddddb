-- ===== src/Main/Pace.antt =====
-- services/elevator-node, main.cpp: the time that TxThreadLoop sleeps until.
use cpp_elevator.Base.{ℕ, zero, suc, ◌+◌, ◌*◌, ◌≤◌, ◌<◌, ◌≡◌, ◌⊎◌, arith}
use cpp_elevator.Main.{k_tx_period, next_tx}

-- `next_tx` when round `k` starts, where the clock was read as `ended j` in round `j`, and as `first`
-- before the loop. `sleep_until` returns at this time at the earliest.
unfoldable pub next_tx_at : (ℕ → ℕ) → ℕ → ℕ → ℕ
unfolding next_tx
next_tx_at ended first zero = first
next_tx_at ended first (suc k) = next_tx (ended k) (next_tx_at ended first k)

-- `next_tx` moves on by a period at least, never to the past, and either by exactly a period, or to a
-- period after a clock that has passed the time by then.
pub next_tx_cases :
    (now next : ℕ)
    → (next + k_tx_period ≤ next_tx now next)
      × (now ≤ next_tx now next)
      × ((next_tx now next ≡ next + k_tx_period)
          ⊎ (next + k_tx_period < now × (next_tx now next ≡ now + k_tx_period)))
unfolding next_tx
next_tx_cases now next = ground arith

at_least :
    (ended : ℕ → ℕ) (first k m : ℕ)
    → next_tx_at ended first k + m * k_tx_period ≤ next_tx_at ended first (m + k)
unfolding next_tx_at
at_least ended first k zero = grind arith
at_least ended first k (suc m) =
    let ih = at_least ended first k m in
    let later = (next_tx_cases (ended (m + k)) (next_tx_at ended first (m + k))).0 in
    let e : suc m + k ≡ suc (m + k) = omega arith in rw e (omega arith)

-- However late the clock is read in the rounds of the sending thread, the time that it sleeps until
-- moves on by at least a period with each round, and is never before the clock as the round has read
-- it: behind a round that is late by more than a period, it is a whole period after that reading, so
-- rounds that were missed are not made up for.
pub next_tx_at-spaced :
    (ended : ℕ → ℕ) (first k m : ℕ)
    → (next_tx_at ended first k + m * k_tx_period ≤ next_tx_at ended first (m + k))
      × (ended k ≤ next_tx_at ended first (suc k))
      × ((ended k ≤ next_tx_at ended first k + k_tx_period
            × (next_tx_at ended first (suc k) ≡ next_tx_at ended first k + k_tx_period))
          ⊎ (next_tx_at ended first k + k_tx_period < ended k
              × (next_tx_at ended first (suc k) ≡ ended k + k_tx_period)))
unfolding next_tx_at
next_tx_at-spaced ended first k m =
    let (_, _, cases) = next_tx_cases (ended k) (next_tx_at ended first k) in
    (at_least ended first k m, ground arith, ground arith)
