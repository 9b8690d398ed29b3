-- ===== src/Bitbang/Round.antt =====
-- What holds before each round of the loop of `analyze_bitbang`, and what the two kinds of round do to
-- it: one ends a region, the other reads on.
use jtag_remote_server.Base.{
  ℕ, zero, suc, ◌+◌, ◌-◌, ◌≤◌, Bool, true, false, not, ◌&&◌, List, [], ◌∷◌, ◌++◌, ◌≡◌, refl, sym,
  ap, ◌∙◌, arith, bit_at, bits_from, replicate,
}
use native.Mathlib.Decide.{dec_le}
use jtag_remote_server.Tap.{JtagState, shift_dr, shift_ir, next_state, state_eq}
use jtag_remote_server.Tap.Laws.{walk, walk-append, is_shift}
use jtag_remote_server.Bitbang.{Region, Scan}
use jtag_remote_server.Bitbang.Segments.{
  bits_from-snoc, replicate-snoc, IsSegment, Segments, Segments-snoc,
}

-- From shift state to shift state only a 0 leads, and it changes nothing.
quiet :
    (s : JtagState) (b : Bool)
    → is_shift s ≡ true
    → is_shift (next_state s b) ≡ true
    → (b ≡ false) × (next_state s b ≡ s)
unfolding next_state
quiet s b h k = ground arith

pub leaving :
    (s : JtagState) (b : Bool) → is_shift s ≡ true → is_shift (next_state s b) ≡ false → true ≡ b
unfolding next_state
leaving s b h k = ground arith

pub rest_kind :
    (s : JtagState) → (not (state_eq s shift_dr) && not (state_eq s shift_ir)) ≡ not (is_shift s)
unfolding state_eq
rest_kind s = ground arith

module _ (tms : List ℕ) where
  -- What holds before round `i` of the loop. `from` is the state at `shift_pos`, and `open_bits` is
  -- the number of bits read since.
  pub record Scanned (start : JtagState) (i : ℕ) (s : Scan) : Type 0 where
    pub from : JtagState
    pub open_bits : ℕ
    pub so_far : Segments tms start 0 s.regions from s.shift_pos
    pub count : s.shift_pos + open_bits ≡ i
    pub path : s.cur_state ≡ walk from (bits_from tms s.shift_pos open_bits)
    pub mode : is_shift s.cur_state ≡ is_shift from
    pub data_held :
        is_shift from ≡ true
        → (s.cur_state ≡ from) × (bits_from tms s.shift_pos open_bits ≡ replicate open_bits false)
    pub tms_walks :
        is_shift from ≡ false
        → (k : ℕ) → k ≤ open_bits
        → is_shift (walk from (bits_from tms s.shift_pos k)) ≡ false

  pub walk_none : (s : JtagState) (i k : ℕ) → k ≤ 0 → walk s (bits_from tms i k) ≡ s
  unfolding bits_from
  walk_none s i zero h = refl
  walk_none s i (suc k) h = absurd (omega arith)

  module _ (start : JtagState) (i : ℕ) (s : Scan) (v : Scanned start i s) where
    abbrev open_run : List Bool
    open_run = bits_from tms s.shift_pos v.open_bits

    bits_with_next : bits_from tms s.shift_pos (i + 1 - s.shift_pos) ≡ open_run ++ bit_at tms i ∷ []
    bits_with_next = rw (longer, bits_from-snoc tms s.shift_pos v.open_bits, v.count)
      where
        longer : i + 1 - s.shift_pos ≡ v.open_bits + 1
        longer = omega (arith, v.count)

    arrives :
        next_state s.cur_state (bit_at tms i)
        ≡ walk v.from (bits_from tms s.shift_pos (i + 1 - s.shift_pos))
    arrives = rw (bits_with_next, walk-append v.from open_run (bit_at tms i ∷ []), ← v.path)

    abbrev cut : Bool → Region
    cut flip = record {
      is_tms = not (is_shift s.cur_state);
      flip_tms = flip;
      begin = s.shift_pos;
      end = i + 1;
    }

    cut-IsSegment :
        (flip : Bool)
        → (is_shift s.cur_state ≡ true → flip ≡ bit_at tms i)
        → IsSegment tms v.from s.shift_pos (cut flip)
    cut-IsSegment flip last = record {
      starts = refl;
      nonempty = omega (arith, v.count);
      kind = ap not v.mode;
      held = λ h. bits_with_next ∙ run (ground arith);
      walks = λ h k q. v.tms_walks (ground (arith, v.mode)) k (omega (arith, v.count));
    }
      where
        shorter : i + 1 - s.shift_pos - 1 ≡ v.open_bits
        shorter = omega (arith, v.count)

        run :
            is_shift s.cur_state ≡ true
            → open_run ++ bit_at tms i ∷ [] ≡ replicate (i + 1 - s.shift_pos - 1) false ++ flip ∷ []
        run h = rw ((v.data_held (sym v.mode ∙ h)).1, last h, shorter)

    -- A region closed at `i + 1`, behind the bit that enters or leaves a shift state.
    pub close_region :
        (flip : Bool)
        → (is_shift s.cur_state ≡ true → flip ≡ bit_at tms i)
        → Scanned start (i + 1) (record {
          shift_pos = i + 1;
          regions = s.regions ++ cut flip ∷ [];
          cur_state = next_state s.cur_state (bit_at tms i);
        })
    unfolding bits_from
    close_region flip last = record {
      from = next_state s.cur_state (bit_at tms i);
      open_bits = 0;
      so_far =
          rw arrives
            (Segments-snoc tms start 0 s.regions (cut flip) v.so_far (cut-IsSegment flip last));
      count = omega arith;
      path = refl;
      mode = refl;
      data_held = λ h. (refl, refl);
      tms_walks =
          λ h k q. ap is_shift (walk_none (next_state s.cur_state (bit_at tms i)) (i + 1) k q) ∙ h;
    }

    -- A bit that neither enters nor leaves a shift state.
    pub extend :
        is_shift (next_state s.cur_state (bit_at tms i)) ≡ is_shift s.cur_state
        → Scanned start (i + 1) (record s { cur_state = next_state s.cur_state (bit_at tms i) })
    extend same = record {
      from = v.from;
      open_bits = v.open_bits + 1;
      so_far = v.so_far;
      count = omega (arith, v.count);
      path = arrives ∙ ap (λ n. walk v.from (bits_from tms s.shift_pos n)) longer;
      mode = same ∙ v.mode;
      data_held = λ h. held h (quiet s.cur_state (bit_at tms i) (v.mode ∙ h) (same ∙ v.mode ∙ h));
      tms_walks = λ h k q. walks h k (dec_le k v.open_bits) q;
    }
      where
        longer : i + 1 - s.shift_pos ≡ v.open_bits + 1
        longer = omega (arith, v.count)

        held :
            is_shift v.from ≡ true
            → (bit_at tms i ≡ false) × (next_state s.cur_state (bit_at tms i) ≡ s.cur_state)
            → (next_state s.cur_state (bit_at tms i) ≡ v.from)
              × (bits_from tms s.shift_pos (v.open_bits + 1) ≡ replicate (v.open_bits + 1) false)
        held h (low, stays) = (
          stays ∙ (v.data_held h).0,
          rw (bits_from-snoc tms s.shift_pos v.open_bits, v.count, low, (v.data_held h).1)
              (replicate-snoc v.open_bits false),
        )

        walks :
            is_shift v.from ≡ false
            → (k : ℕ) → Dec (k ≤ v.open_bits)
            → k ≤ v.open_bits + 1
            → is_shift (walk v.from (bits_from tms s.shift_pos k)) ≡ false
        walks h k (yes below) q = v.tms_walks h k below
        walks h k (no above) q =
            ap (λ n. is_shift (walk v.from (bits_from tms s.shift_pos n))) (last ∙ sym longer)
            ∙ ap is_shift (sym arrives)
            ∙ same
            ∙ v.mode
            ∙ h
          where
            last : k ≡ v.open_bits + 1
            last = omega arith
