-- ===== src/Tap/Laws.antt =====
-- How the TAP controller walks along a sequence of TMS bits.
use jtag_remote_server.Base.{
  ℕ, zero, suc, ◌+◌, Bool, true, false, ◌||◌, List, [], ◌∷◌, ◌++◌, ◌≡◌, refl, arith, bit_at,
  bits_from, replicate, ap, ◌∙◌, if◌then◌else◌,
}
use jtag_remote_server.Tap.{
  JtagState, test_logic_reset, shift_dr, shift_ir, next_state, state_eq, walk_bits,
}

-- The state behind a sequence of TMS bits, first bit first.
abbrev pub walk : JtagState → List Bool → JtagState
walk s [] = s
walk s (b ∷ bs) = walk (next_state s b) bs

pub walk-append : (s : JtagState) (xs ys : List Bool) → walk s (xs ++ ys) ≡ walk (walk s xs) ys
walk-append s [] ys = refl
walk-append s (x ∷ xs) ys = walk-append (next_state s x) xs ys

pub walk_bits-eq-walk :
    (bytes : List ℕ) (i n : ℕ) (s : JtagState)
    → walk_bits bytes i n s ≡ walk s (bits_from bytes i n)
unfolding walk_bits bits_from
walk_bits-eq-walk bytes i zero s = refl
walk_bits-eq-walk bytes i (suc n) s =
    walk_bits-eq-walk bytes (i + 1) n (next_state s (bit_at bytes i))

-- Whether data is shifted in this state.
abbrev pub is_shift : JtagState → Bool
is_shift shift_dr = true
is_shift shift_ir = true
is_shift _ = false

pub is_shift-state_eq : (s : JtagState) → is_shift s ≡ (state_eq s shift_dr || state_eq s shift_ir)
unfolding state_eq
is_shift-state_eq s = ground arith

-- A shift state is kept by TMS = 0 and left by TMS = 1.
pub next_state_of_shift :
    (s : JtagState)
    → is_shift s ≡ true
    → (next_state s false ≡ s) × (is_shift (next_state s true) ≡ false)
unfolding next_state
next_state_of_shift s h = ground arith

-- Five ones reset the controller from every state.
pub walk_ones : (s : JtagState) → walk s (replicate 5 true) ≡ test_logic_reset
unfolding next_state
walk_ones s = ground arith

walk_zeros : (s : JtagState) (n : ℕ) → is_shift s ≡ true → walk s (replicate n false) ≡ s
walk_zeros s zero h = refl
walk_zeros s (suc n) h =
    ap (λ t. walk t (replicate n false)) (next_state_of_shift s h).0 ∙ walk_zeros s n h

-- A data region stays in its shift state, or leaves it with its last bit.
pub walk_of_data :
    (s : JtagState) (n : ℕ) (flip_tms : Bool)
    → is_shift s ≡ true
    → walk s (replicate n false ++ flip_tms ∷ []) ≡ (if flip_tms then next_state s true else s)
walk_of_data s n true h =
    walk-append s (replicate n false) (true ∷ []) ∙ ap (λ t. next_state t true) (walk_zeros s n h)
walk_of_data s n false h =
    walk-append s (replicate n false) (false ∷ [])
    ∙ ap (λ t. next_state t false) (walk_zeros s n h)
    ∙ (next_state_of_shift s h).0
