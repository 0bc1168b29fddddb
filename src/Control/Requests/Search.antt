-- ===== src/Control/Requests/Search.antt =====
-- libs/control, class RequestTable: writes, reads and the three searches.
use cpp_elevator.Base.{
  ℕ, zero, suc, ◌<◌, ◌≡◌, arith, Bool, true, false, ◌&&◌, ◌↔◌, Bool-cases, inl, inr, if◌then◌else◌,
  ◌==◌,
}
use cpp_elevator.Base.Int.{ℤ, pos, pos_part, ◌+ℤ◌, ◌-ℤ◌, ◌<ℤ◌, ◌≤ℤ◌, eqb_ℤ}
use cpp_elevator.Base.Loops.{any_range_elim}
use cpp_elevator.Common.{k_floors, k_buttons, BtnType, btn_index}
use cpp_elevator.Control.Requests.{
  RequestTable, out_of_range, set_value, value, is_request_here, any_up, is_request_above, any_down,
  is_request_below,
}

-- There is a request at `floor`: some button of a floor of the building is set.
abbrev pub Requested : RequestTable → ℤ → Type 0
Requested t floor = (btn : BtnType) × (value floor btn t ≡ true)

-- A write is read back at its floor and button, and changes no other value; out of range it is
-- ignored.
pub value-set_value :
    (floor f : ℤ) (btn b : BtnType) (v : Bool) (t : RequestTable)
    → value f b (set_value floor (pos (btn_index btn)) v t) ≡ (
        if eqb_ℤ f floor && btn_index b == btn_index btn
        then (if out_of_range f k_floors then false else v)
        else value f b t)
unfolding value set_value
value-set_value floor f btn b v t = ground arith

pub Requested-of_index :
    (floor : ℤ) (t : RequestTable) (i : ℕ)
    → out_of_range floor k_floors ≡ false
    → i < k_buttons
    → t.table (pos_part floor) i ≡ true
    → Requested t floor
unfolding value
Requested-of_index floor t zero r lt h = (BtnType.hall_up, ground arith)
Requested-of_index floor t (suc zero) r lt h = (BtnType.hall_down, ground arith)
Requested-of_index floor t (suc (suc zero)) r lt h = (BtnType.cab, ground arith)
Requested-of_index floor t (suc (suc (suc i))) r lt h = absurd (omega arith)

pub value-in_range :
    (floor : ℤ) (b : BtnType) (t : RequestTable)
    → value floor b t ≡ true
    → (pos 0 ≤ℤ floor) × (floor <ℤ pos k_floors)
unfolding value
value-in_range floor b t h = ground arith

pub is_request_here_iff :
    (floor : ℤ) (t : RequestTable) → (is_request_here floor t ≡ true) ↔ Requested t floor
unfolding is_request_here value
is_request_here_iff floor t = (found, asked)
  where
    found : is_request_here floor t ≡ true → Requested t floor
    found h = elim (Bool-cases (out_of_range floor k_floors)) [
      | inl out ↦ absurd (ground arith)
      | inr r ↦
          let (i, lt, q) =
            any_range_elim k_buttons (λ b. t.table (pos_part floor) b) (ground arith) in
          Requested-of_index floor t i r lt q
    ]

    asked : Requested t floor → is_request_here floor t ≡ true
    asked (b, h) =
        elim b as (λ c. value floor c t ≡ true → is_request_here floor t ≡ true) [
          | BtnType.hall_up ↦ λ q. ground arith
          | BtnType.hall_down ↦ λ q. ground arith
          | BtnType.cab ↦ λ q. ground arith
        ]
          h

add-zero : (f : ℤ) → f +ℤ pos 0 ≡ f
unfolding ◌+ℤ◌
add-zero f = ground arith

sub-zero : (f : ℤ) → f -ℤ pos 0 ≡ f
unfolding ◌-ℤ◌
sub-zero f = ground arith

add_next : (f : ℤ) (k : ℕ) → f +ℤ pos 1 +ℤ pos k ≡ f +ℤ pos (suc k)
unfolding ◌+ℤ◌
add_next f k = ground arith

sub_next : (f : ℤ) (k : ℕ) → f -ℤ pos 1 -ℤ pos k ≡ f -ℤ pos (suc k)
unfolding ◌-ℤ◌
sub_next f k = ground arith

any_up_elim :
    (n : ℕ) (f : ℤ) (p : ℤ → Bool)
    → any_up n f p ≡ true
    → (k : ℕ) × (k < n) × (p (f +ℤ pos k) ≡ true)
unfolding any_up
any_up_elim zero f p h = cc
any_up_elim (suc n) f p h = elim (Bool-cases (p f)) [
  | inl e ↦ (0, omega arith, rw (add-zero f) e)
  | inr e ↦
      let (k, lt, q) = any_up_elim n (f +ℤ pos 1) p (ground arith) in
      (suc k, omega arith, rw (add_next f k) at q)
]

any_up_intro :
    (n : ℕ) (f : ℤ) (p : ℤ → Bool) (k : ℕ) → k < n → p (f +ℤ pos k) ≡ true → any_up n f p ≡ true
unfolding any_up
any_up_intro zero f p k lt h = absurd (omega arith)
any_up_intro (suc n) f p zero lt h = rw (rw (add-zero f) at h)
any_up_intro (suc n) f p (suc k) lt h =
    let later = any_up_intro n (f +ℤ pos 1) p k (omega arith) (rw (add_next f k) h) in ground arith

any_down_elim :
    (n : ℕ) (f : ℤ) (p : ℤ → Bool)
    → any_down n f p ≡ true
    → (k : ℕ) × (k < n) × (p (f -ℤ pos k) ≡ true)
unfolding any_down
any_down_elim zero f p h = cc
any_down_elim (suc n) f p h = elim (Bool-cases (p f)) [
  | inl e ↦ (0, omega arith, rw (sub-zero f) e)
  | inr e ↦
      let (k, lt, q) = any_down_elim n (f -ℤ pos 1) p (ground arith) in
      (suc k, omega arith, rw (sub_next f k) at q)
]

any_down_intro :
    (n : ℕ) (f : ℤ) (p : ℤ → Bool) (k : ℕ) → k < n → p (f -ℤ pos k) ≡ true → any_down n f p ≡ true
unfolding any_down
any_down_intro zero f p k lt h = absurd (omega arith)
any_down_intro (suc n) f p zero lt h = rw (rw (sub-zero f) at h)
any_down_intro (suc n) f p (suc k) lt h =
    let later = any_down_intro n (f -ℤ pos 1) p k (omega arith) (rw (sub_next f k) h) in
    ground arith

-- The rounds that reach a floor of the building from the first floor of a search.
up_rounds :
    (floor f : ℤ)
    → floor <ℤ f
    → f <ℤ pos k_floors
    → (k : ℕ) × (k < pos_part (pos k_floors -ℤ (floor +ℤ pos 1))) × (floor +ℤ pos 1 +ℤ pos k ≡ f)
unfolding ◌+ℤ◌ ◌-ℤ◌
up_rounds floor f above top = (pos_part (f -ℤ (floor +ℤ pos 1)), ground arith, ground arith)

up_above : (floor : ℤ) (k : ℕ) → floor <ℤ floor +ℤ pos 1 +ℤ pos k
unfolding ◌+ℤ◌
up_above floor k = ground arith

down_rounds :
    (floor f : ℤ)
    → f <ℤ floor
    → pos 0 ≤ℤ f
    → (k : ℕ) × (k < pos_part (floor -ℤ pos 1 +ℤ pos 1)) × (floor -ℤ pos 1 -ℤ pos k ≡ f)
unfolding ◌+ℤ◌ ◌-ℤ◌
down_rounds floor f below bottom = (pos_part (floor -ℤ pos 1 -ℤ f), ground arith, ground arith)

down_below : (floor : ℤ) (k : ℕ) → floor -ℤ pos 1 -ℤ pos k <ℤ floor
unfolding ◌-ℤ◌
down_below floor k = ground arith

abbrev pub RequestedAbove : RequestTable → ℤ → Type 0
RequestedAbove t floor = (f : ℤ) × (floor <ℤ f) × Requested t f

abbrev pub RequestedBelow : RequestTable → ℤ → Type 0
RequestedBelow t floor = (f : ℤ) × (f <ℤ floor) × Requested t f

pub is_request_above_iff :
    (floor : ℤ) (t : RequestTable) → (is_request_above floor t ≡ true) ↔ RequestedAbove t floor
unfolding is_request_above
is_request_above_iff floor t = (found, asked)
  where
    found : is_request_above floor t ≡ true → RequestedAbove t floor
    found h =
        let (k, lt, q) =
          any_up_elim (pos_part (pos k_floors -ℤ (floor +ℤ pos 1))) (floor +ℤ pos 1)
            (λ f. is_request_here f t) h in
        (floor +ℤ pos 1 +ℤ pos k, up_above floor k, (is_request_here_iff _ t).0 q)

    asked : RequestedAbove t floor → is_request_above floor t ≡ true
    asked (f, above, (b, h)) =
        let (k, lt, e) = up_rounds floor f above (value-in_range f b t h).1 in
        any_up_intro _ _ _ k lt (rw e ((is_request_here_iff f t).1 (b, h)))

pub is_request_below_iff :
    (floor : ℤ) (t : RequestTable) → (is_request_below floor t ≡ true) ↔ RequestedBelow t floor
unfolding is_request_below
is_request_below_iff floor t = (found, asked)
  where
    found : is_request_below floor t ≡ true → RequestedBelow t floor
    found h =
        let (k, lt, q) =
          any_down_elim (pos_part (floor -ℤ pos 1 +ℤ pos 1)) (floor -ℤ pos 1)
            (λ f. is_request_here f t) h in
        (floor -ℤ pos 1 -ℤ pos k, down_below floor k, (is_request_here_iff _ t).0 q)

    asked : RequestedBelow t floor → is_request_below floor t ≡ true
    asked (f, below, (b, h)) =
        let (k, lt, e) = down_rounds floor f below (value-in_range f b t h).0 in
        any_down_intro _ _ _ k lt (rw e ((is_request_here_iff f t).1 (b, h)))
