-- ===== src/Bitbang/Scanned.antt =====
-- The loop of `analyze_bitbang`, round by round, and the region behind it.
use jtag_remote_server.Base.{
  ℕ, zero, suc, ◌+◌, ◌-◌, ◌<◌, Bool, true, false, not, ◌&&◌, inl, inr, List, [], ◌∷◌, ◌++◌, ◌≡◌,
  refl, sym, ap, subst, ◌∙◌, arith, ◌==◌, ==_iff, Bool-cases, bit_at, bits_from, replicate,
}
use mathlib.Core.Path.{subst₂}
use native.Mathlib.Nat.{zero-add, add-zero}
use jtag_remote_server.Tap.{JtagState, shift_dr, shift_ir, next_state, state_eq}
use jtag_remote_server.Tap.Laws.{walk, is_shift}
use jtag_remote_server.Bitbang.{Region, Scan, scan_bit, scan_bits, close_scan, analyze_bitbang}
use jtag_remote_server.Bitbang.Segments.{
  enters_shift_lem, leaves_shift_lem, replicate-snoc, region_bits, IsSegment, Segments,
  Segments-snoc,
}
use jtag_remote_server.Bitbang.Round.{Scanned, walk_none, extend, close_region, leaving, rest_kind}

module _ (tms : List ℕ) where
  scan_bit-Scanned :
      (junk : Bool) (start : JtagState) (i : ℕ) (s : Scan)
      → Scanned tms start i s
      → Scanned tms start (i + 1) (scan_bit junk tms i s)
  unfolding scan_bit
  scan_bit-Scanned junk start i s v =
      rw (enters_shift_lem s.cur_state b, leaves_shift_lem s.cur_state b)
        (elim (Bool-cases (is_shift s.cur_state)) [
          | inl e ↦ elim (Bool-cases (is_shift (next_state s.cur_state b))) [
            | inl f ↦ rw (e, f) (extend tms start i s v (f ∙ sym e))
            | inr f ↦
                rw (e, f)
                  (rw e at (close_region tms start i s v true (λ _. leaving s.cur_state b e f)))
          ]
          | inr e ↦ elim (Bool-cases (is_shift (next_state s.cur_state b))) [
            | inl f ↦ rw (e, f) (rw e at (close_region tms start i s v junk (λ h. cc)))
            | inr f ↦ rw (e, f) (extend tms start i s v (f ∙ sym e))
          ]
        ])
    where
      b : Bool
      b = bit_at tms i

  scan_bits-Scanned :
      (junk : Bool) (start : JtagState) (i n : ℕ) (s : Scan)
      → Scanned tms start i s
      → Scanned tms start (i + n) (scan_bits junk tms i n s)
  unfolding scan_bits
  scan_bits-Scanned junk start i zero s v = rw (add-zero i) v
  scan_bits-Scanned junk start i (suc n) s v = rw shift (
      scan_bits-Scanned junk start (i + 1) n (scan_bit junk tms i s)
        (scan_bit-Scanned junk start i s v))
    where
      shift : i + suc n ≡ i + 1 + n
      shift = omega arith

  -- The bits behind the last cut make one more region.
  close_scan-Segments :
      (start : JtagState) (n : ℕ) (s : Scan)
      → Scanned tms start n s
      → Segments tms start 0 (close_scan n s) s.cur_state n
  unfolding close_scan
  close_scan-Segments start n s v = elim (Bool-cases (s.shift_pos == n)) [
    | inl e ↦ rw e (
        subst₂ (λ t k. Segments tms start 0 s.regions t k) (nothing_open e)
          ((==_iff s.shift_pos n).0 e) v.so_far)
    | inr e ↦ rw e (
        subst (λ t. Segments tms start 0 (s.regions ++ rest ∷ []) t n) arrived
          (Segments-snoc tms start 0 s.regions rest v.so_far (rest-IsSegment e)))
  ]
    where
      nothing_open : (s.shift_pos == n) ≡ true → v.from ≡ s.cur_state
      nothing_open e = sym (
          v.path
          ∙ walk_none tms v.from s.shift_pos v.open_bits
              (omega (arith, v.count, (==_iff s.shift_pos n).0 e)))

      rest : Region
      rest = record {
        is_tms = not (state_eq s.cur_state shift_dr) && not (state_eq s.cur_state shift_ir);
        flip_tms = false;
        begin = s.shift_pos;
        end = n;
      }

      size : n - s.shift_pos ≡ v.open_bits
      size = omega (arith, v.count)

      arrived : walk v.from (region_bits tms rest) ≡ s.cur_state
      arrived = ap (λ k. walk v.from (bits_from tms s.shift_pos k)) size ∙ sym v.path

      rest-IsSegment : (s.shift_pos == n) ≡ false → IsSegment tms v.from s.shift_pos rest
      rest-IsSegment e = record {
        starts = refl;
        nonempty = some_left;
        kind = rest_kind s.cur_state ∙ ap not v.mode;
        held = λ h. rw size (
            (v.data_held (shifts h)).1
            ∙ sym (replicate-snoc (v.open_bits - 1) false ∙ ap (λ k. replicate k false) whole));
        walks = λ h k q. v.tms_walks (tms_mode h) k (omega (arith, v.count));
      }
        where
          some_left : s.shift_pos < n
          some_left = ground (arith, v.count)

          whole : v.open_bits - 1 + 1 ≡ v.open_bits
          whole = ground (arith, v.count)

          shifts : rest.is_tms ≡ false → is_shift v.from ≡ true
          shifts h = ground (arith, rest_kind s.cur_state, v.mode)

          tms_mode : rest.is_tms ≡ true → is_shift v.from ≡ false
          tms_mode h = ground (arith, rest_kind s.cur_state, v.mode)

  -- The regions of `analyze_bitbang` lead from the state at the call to the state that it reports,
  -- and cut the given bits.
  pub analyze_bitbang-Segments :
      (junk : Bool) (n : ℕ) (state : JtagState)
      → let (regions, cur_state) = analyze_bitbang junk tms n state in
        Segments tms state 0 regions cur_state n
  unfolding analyze_bitbang bits_from
  analyze_bitbang-Segments junk n state =
      close_scan-Segments state n (scan_bits junk tms 0 n init) scanned
    where
      init : Scan
      init = record { shift_pos = 0; regions = []; cur_state = state }

      scanned : Scanned tms state n (scan_bits junk tms 0 n init)
      scanned = rw (zero-add n) at (
          scan_bits-Scanned junk state 0 n init (record {
            from = state;
            open_bits = 0;
            so_far = (refl, refl);
            count = omega arith;
            path = refl;
            mode = refl;
            data_held = λ h. (refl, refl);
            tms_walks = λ h k q. ap is_shift (walk_none tms state 0 k q) ∙ h;
          }))
