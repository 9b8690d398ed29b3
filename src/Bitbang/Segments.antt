-- ===== src/Bitbang/Segments.antt =====
-- What the regions of `analyze_bitbang` are: they cut the bits without gap or overlap, and each is
-- all TMS walk or all data shift.
use jtag_remote_server.Base.{
  ℕ, zero, suc, ◌+◌, ◌-◌, ◌<◌, Bool, true, false, not, ◌&&◌, List, [], ◌∷◌, ◌++◌, ◌≡◌, refl, sym,
  ap, ◌∙◌, arith, bit_at, bits_from, bits_from-add, replicate,
}
use native.Mathlib.Nat.{suc-add}
use jtag_remote_server.Tap.{JtagState, next_state, state_eq}
use jtag_remote_server.Tap.Laws.{walk, is_shift}
use jtag_remote_server.Bitbang.{Region, region_length, enters_shift, leaves_shift}

pub enters_shift_lem :
    (s : JtagState) (b : Bool)
    → enters_shift s (next_state s b) ≡ (not (is_shift s) && is_shift (next_state s b))
unfolding enters_shift next_state state_eq
enters_shift_lem s b = ground arith

pub leaves_shift_lem :
    (s : JtagState) (b : Bool)
    → leaves_shift s (next_state s b) ≡ (is_shift s && not (is_shift (next_state s b)))
unfolding leaves_shift next_state state_eq
leaves_shift_lem s b = ground arith

pub bits_from-snoc :
    (bytes : List ℕ) (i n : ℕ)
    → bits_from bytes i (n + 1) ≡ bits_from bytes i n ++ bit_at bytes (i + n) ∷ []
unfolding bits_from
bits_from-snoc bytes i n = bits_from-add bytes i n 1

pub replicate-snoc : (n : ℕ) (b : Bool) → replicate n b ++ b ∷ [] ≡ replicate (n + 1) b
replicate-snoc zero b = refl
replicate-snoc (suc n) b =
    ap (λ t. b ∷ t) (replicate-snoc n b) ∙ ap (λ k. replicate k b) (sym (suc-add n 1))

module _ (tms : List ℕ) where
  abbrev pub region_bits : Region → List Bool
  region_bits r = bits_from tms r.begin (region_length r)

  -- `r` starts at bit `i`, where the controller is in state `s`. Its kind is told by `s`: in a
  -- shift state it is data, all its TMS bits are 0 but the last, which is `flip_tms`; in any other
  -- state it is TMS, and no shift state is met before its end.
  pub record IsSegment (s : JtagState) (i : ℕ) (r : Region) : Type 0 where
    pub starts : r.begin ≡ i
    pub nonempty : r.begin < r.end
    pub kind : r.is_tms ≡ not (is_shift s)
    pub held :
        r.is_tms ≡ false → region_bits r ≡ replicate (region_length r - 1) false ++ r.flip_tms ∷ []
    pub walks :
        r.is_tms ≡ true
        → (k : ℕ) → k < region_length r
        → is_shift (walk s (bits_from tms r.begin k)) ≡ false

  -- The regions lead from state `s` at bit `i` to state `t` at bit `n`.
  abbrev pub Segments : JtagState → ℕ → List Region → JtagState → ℕ → Type 0
  Segments s i [] t n = (s ≡ t) × (i ≡ n)
  Segments s i (r ∷ rs) t n = IsSegment s i r × Segments (walk s (region_bits r)) r.end rs t n

  pub Segments-snoc :
      (s : JtagState) (i : ℕ) (rs : List Region) {t : JtagState} {n : ℕ} (r : Region)
      → Segments s i rs t n
      → IsSegment t n r
      → Segments s i (rs ++ r ∷ []) (walk t (region_bits r)) r.end
  Segments-snoc s i [] r (e, f) g = (rw (e, f) g, (rw e, refl))
  Segments-snoc s i (q ∷ rs) r (g, rest) h =
      (g, Segments-snoc (walk s (region_bits q)) q.end rs r rest h)
