-- ===== src/Control/Controller/Tables.antt =====
-- libs/control, class Controller: how the request table gets in, and when its change is reported.
use cpp_elevator.Base.{
  ℕ, ◌<◌, ◌≡◌, refl, arith, ◌↔◌, Bool, true, false, ◌&&◌, ◌==◌, ltb, if◌then◌else◌,
}
use cpp_elevator.Base.Grid.{for_grid-get, all_grid, all_grid_elim, all_grid_intro}
use cpp_elevator.Common.{k_floors, k_buttons, BoolTable}
use cpp_elevator.Control.Requests.{RequestTable, set_value}
use cpp_elevator.Control.Controller.{
  Controller, set_request_round, set_requests, same_bool, request_table_updated,
}

round_cell :
    (t : BoolTable) (i j : ℕ) (r : RequestTable) (f b : ℕ)
    → (set_request_round t i j r).table f b ≡ (
        if f == i && b == j
        then (if ltb i k_floors && ltb j k_buttons then t i j else r.table i j)
        else r.table f b)
unfolding set_value
round_cell t i j r f b = ground arith

-- `SetRequests` takes over every cell of the table.
pub set_requests-cell :
    (t : BoolTable) (c : Controller) (f b : ℕ)
    → f < k_floors
    → b < k_buttons
    → (set_requests t c).requests.table f b ≡ t f b
unfolding set_requests
set_requests-cell t c f b hf hb = ground (
  arith,
  for_grid-get (λ (r : RequestTable). r.table) (set_request_round t)
      (λ i j v. if ltb i k_floors && ltb j k_buttons then t i j else v) (round_cell t) k_floors
      k_buttons c.requests f b,
)

abbrev pub SameTable : BoolTable → BoolTable → Type 0
SameTable t u = (f b : ℕ) → f < k_floors → b < k_buttons → t f b ≡ u f b

same_grid :
    (t u : BoolTable)
    → (all_grid k_floors k_buttons (λ f b. same_bool (t f b) (u f b)) ≡ true) ↔ SameTable t u
same_grid t u = (
  λ h f b hf hb. eq (t f b) (u f b) (all_grid_elim k_floors k_buttons _ f b h hf hb),
  λ h. all_grid_intro k_floors k_buttons _ (λ f b hf hb. bool_refl (t f b) (u f b) (h f b hf hb)),
)
  where
    eq : (a b : Bool) → same_bool a b ≡ true → a ≡ b
    eq a b h = ground arith

    bool_refl : (a b : Bool) → a ≡ b → same_bool a b ≡ true
    bool_refl a b h = ground arith

-- A change of the table is reported exactly if some cell differs from the last time, and once only.
pub request_table_updated_once :
    (c : Controller)
    → (((request_table_updated c).0 ≡ false) ↔ SameTable c.requests.table c.prev_requests.table)
      × ((request_table_updated (request_table_updated c).1).0 ≡ false)
unfolding request_table_updated
request_table_updated_once c = (
  (
    λ h. (same_grid c.requests.table c.prev_requests.table).0 (ground arith),
    λ h. rw ((same_grid c.requests.table c.prev_requests.table).1 h),
  ),
  rw ((same_grid c.requests.table c.requests.table).1 (λ f b hf hb. refl)),
)
