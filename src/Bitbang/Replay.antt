-- ===== src/Bitbang/Replay.antt =====
-- What follows from the shape of the regions: nothing of the input is lost, and the state that
-- `analyze_bitbang` reports is the one that the whole input leads to.
use jtag_remote_server.Base.{
  ℕ, ◌+◌, ◌-◌, ◌≤◌, Bool, List, [], ◌∷◌, ◌++◌, ◌≡◌, refl, sym, ap, ap₂, ◌∙◌, arith, bits_from,
  bits_from-add,
}
use jtag_remote_server.Tap.{JtagState, walk_bits}
use jtag_remote_server.Tap.Laws.{walk, walk-append, walk_bits-eq-walk}
use jtag_remote_server.Bitbang.{Region, region_length, analyze_bitbang}
use jtag_remote_server.Bitbang.Segments.{region_bits, IsSegment, Segments}
use jtag_remote_server.Bitbang.Scanned.{analyze_bitbang-Segments}

-- The TMS bits of the regions, one region after the other.
abbrev pub all_bits : List ℕ → List Region → List Bool
all_bits tms [] = []
all_bits tms (r ∷ rs) = region_bits tms r ++ all_bits tms rs

module _ (tms : List ℕ) where
  pub Segments-le :
      (s : JtagState) (i : ℕ) (rs : List Region) (t : JtagState) (n : ℕ)
      → Segments tms s i rs t n
      → i ≤ n
  Segments-le s i [] t n (e, f) = omega (arith, f)
  Segments-le s i (r ∷ rs) t n (g, rest) =
      omega (arith, g, Segments-le (walk s (region_bits tms r)) r.end rs t n rest)

  -- The first region is the first part of the input.
  split_first :
      (s : JtagState) (i : ℕ) (r : Region) (n : ℕ)
      → IsSegment tms s i r
      → r.end ≤ n
      → bits_from tms i (n - i) ≡ region_bits tms r ++ bits_from tms r.end (n - r.end)
  split_first s i r n g le =
      ap (λ k. bits_from tms i k) size
      ∙ bits_from-add tms i (region_length r) (n - r.end)
      ∙ ap₂ ◌++◌ (ap (λ k. bits_from tms k (region_length r)) (sym g.starts))
          (ap (λ k. bits_from tms k (n - r.end)) ends)
    where
      size : n - i ≡ region_length r + (n - r.end)
      size = omega (arith, g)

      ends : i + region_length r ≡ r.end
      ends = omega (arith, g)

  pub all_bits_of_Segments :
      (s : JtagState) (i : ℕ) (rs : List Region) (t : JtagState) (n : ℕ)
      → Segments tms s i rs t n
      → (all_bits tms rs ≡ bits_from tms i (n - i)) × (t ≡ walk s (bits_from tms i (n - i)))
  unfolding bits_from
  all_bits_of_Segments s i [] t n (e, f) = rw none_left (refl, sym e)
    where
      none_left : n - i ≡ 0
      none_left = omega (arith, f)
  all_bits_of_Segments s i (r ∷ rs) t n (g, rest) =
      let (bits, path) = all_bits_of_Segments (walk s (region_bits tms r)) r.end rs t n rest in
      rw first
        (ap (λ x. region_bits tms r ++ x) bits, path ∙ sym (walk-append s (region_bits tms r) tail))
    where
      tail : List Bool
      tail = bits_from tms r.end (n - r.end)

      first : bits_from tms i (n - i) ≡ region_bits tms r ++ tail
      first = split_first s i r n g (Segments-le (walk s (region_bits tms r)) r.end rs t n rest)

-- The regions hold every TMS bit of the input once and in order, and the reported state is where
-- the input leads from the state at the call.
pub analyze_bitbang_lossless :
    (junk : Bool) (tms : List ℕ) (n : ℕ) (state : JtagState)
    → (all_bits tms (analyze_bitbang junk tms n state).0 ≡ bits_from tms 0 n)
      × ((analyze_bitbang junk tms n state).1 ≡ walk_bits tms 0 n state)
analyze_bitbang_lossless junk tms n state =
    let (regions, t) = analyze_bitbang junk tms n state in
    let (bits, path) =
      all_bits_of_Segments tms state 0 regions t n (analyze_bitbang-Segments tms junk n state) in
    (
      bits ∙ ap (λ k. bits_from tms 0 k) whole,
      path ∙ ap (λ k. walk state (bits_from tms 0 k)) whole ∙ sym (walk_bits-eq-walk tms 0 n state),
    )
  where
    whole : n - 0 ≡ n
    whole = omega arith
