-- ===== src/Control/Requests.antt =====
-- libs/control, class RequestTable (requests.cpp). A floor is an `int`, and is tested before the
-- table is read; a button is an enumerator at every call but that of `SetValue`, which tests it.
pub mod Search
use cpp_elevator.Base.{ℕ, zero, suc, ◌+◌, Bool, true, false, ◌&&◌, ◌||◌, if◌then◌else◌}
use cpp_elevator.Base.Int.{ℤ, pos, negsuc, pos_part, ◌+ℤ◌, ◌-ℤ◌, ltb_ℤ, leb_ℤ}
use cpp_elevator.Base.Loops.{any_range}
use cpp_elevator.Base.Grid.{put}
use cpp_elevator.Common.{k_floors, k_buttons, BoolTable, BtnType, btn_index}

pub record RequestTable : Type 0 where
  pub table : BoolTable

abbrev pub empty_requests : RequestTable
empty_requests = record { table = λ f b. false }

-- `i < 0 || i >= n`.
abbrev pub out_of_range : ℤ → ℕ → Bool
out_of_range i n = ltb_ℤ i (pos 0) || leb_ℤ (pos n) i

unfoldable pub set_value : ℤ → ℤ → Bool → RequestTable → RequestTable
set_value floor btn value t =
    if out_of_range floor k_floors
    then t
    else if out_of_range btn k_buttons
    then t
    else record t { table = put t.table (pos_part floor) (pos_part btn) value }

unfoldable pub value : ℤ → BtnType → RequestTable → Bool
value floor btn t =
    if out_of_range floor k_floors then false else t.table (pos_part floor) (btn_index btn)

unfoldable pub is_request_here : ℤ → RequestTable → Bool
unfolding any_range
is_request_here floor t =
    if out_of_range floor k_floors
    then false
    else any_range k_buttons (λ b. t.table (pos_part floor) b)

-- The rounds of `for (int f = floor + 1; f < kFloors; f++)`, by their number.
unfoldable pub any_up : ℕ → ℤ → (ℤ → Bool) → Bool
unfolding ◌+ℤ◌
any_up zero f p = false
any_up (suc n) f p = p f || any_up n (f +ℤ pos 1) p

unfoldable pub is_request_above : ℤ → RequestTable → Bool
unfolding any_up ◌-ℤ◌ is_request_here
is_request_above floor t =
    let f = floor +ℤ pos 1 in any_up (pos_part (pos k_floors -ℤ f)) f (λ f. is_request_here f t)

-- The rounds of `for (int df = floor - 1; df >= 0; df--)`: as many as floors below.
unfoldable pub any_down : ℕ → ℤ → (ℤ → Bool) → Bool
unfolding ◌-ℤ◌
any_down zero df p = false
any_down (suc n) df p = p df || any_down n (df -ℤ pos 1) p

unfoldable pub is_request_below : ℤ → RequestTable → Bool
unfolding any_down ◌+ℤ◌ is_request_here
is_request_below floor t =
    let df = floor -ℤ pos 1 in any_down (pos_part (df +ℤ pos 1)) df (λ df. is_request_here df t)
