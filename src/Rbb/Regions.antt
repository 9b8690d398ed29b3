-- ===== src/Rbb/Regions.antt =====
-- The region loop of `jtag_rbb_tick` over a driver that tracks the TAP state and works.
use jtag_remote_server.Base.{
  ℕ, zero, suc, ◌+◌, ◌-◌, ◌*◌, ◌^◌, ◌≤◌, ◌<◌, ◌≡◌, refl, sym, ap, ◌∙◌, Bool, true, false, not, ◌&&◌,
  ◌||◌, Option, none, some, List, [], ◌∷◌, arith, if◌then◌else◌, leb, ltb, map, replicate,
  Bool-cases, inl, inr, u32, bit_at, bits_from,
}
use jtag_remote_server.Tap.{JtagState, next_state}
use jtag_remote_server.Tap.Laws.{walk, walk_bits-eq-walk, walk_of_data}
use jtag_remote_server.World.{World, M, ◌>>=◌}
use jtag_remote_server.Jtag.{Driver, jtag_scan_chain}
use jtag_remote_server.Jtag.Law.{IsTracking, IsReliable, IsWorking-of_IsReliable}
use jtag_remote_server.Jtag.Works.{tms_seq_works, scan_chain_works}
use jtag_remote_server.Bitbang.{Region, region_length}
use jtag_remote_server.Bitbang.Segments.{region_bits, IsSegment, Segments}
use jtag_remote_server.Bitbang.Replay.{Segments-le}
use jtag_remote_server.Bitbang.Copy.{
  length-cut_bits, buffer_size, cut_bits, bits_from-cut_bits, length-cut_bits,
}
use jtag_remote_server.Socket.Laws.{write_full-Sends}
use jtag_remote_server.Rbb.{Batch, answer, agree_read, shift_region, run_region, run_regions}

agreed : (b : Bool) (x : Option Bool) → (if (b && b) || (not b && not b) then x else none) ≡ x
agreed true x = refl
agreed false x = refl

or_self : (b : Bool) → (b || b) ≡ b
or_self true = refl
or_self false = refl

-- A run of equal read bits passes the assertion, and is found.
agree_read_again :
    (read_input : List ℕ) (i n : ℕ) (b : Bool)
    → bits_from read_input i n ≡ replicate n b
    → agree_read read_input i n b ≡ some b
unfolding agree_read bits_from
agree_read_again read_input i zero b e = refl
agree_read_again read_input i (suc n) b e =
    rw (head, or_self b) (agreed b _ ∙ agree_read_again read_input (i + 1) n b cc)
  where
    head : bit_at read_input i ≡ b
    head = cc

agree_read_of_same :
    (read_input : List ℕ) (i n : ℕ) (b : Bool)
    → bits_from read_input i n ≡ replicate n b
    → 0 < n
    → agree_read read_input i n false ≡ some b
unfolding agree_read bits_from
agree_read_of_same read_input i zero b e some_bits = absurd (omega arith)
agree_read_of_same read_input i (suc n) b e some_bits =
    rw head (agreed b _ ∙ agree_read_again read_input (i + 1) n b cc)
  where
    head : bit_at read_input i ≡ b
    head = cc

pub if_true : {A : Type 0} {c : Bool} (x y : A) → c ≡ true → (if c then x else y) ≡ x
if_true x y e = rw e refl

pub if_false : {A : Type 0} {c : Bool} (x y : A) → c ≡ false → (if c then x else y) ≡ y
if_false x y e = rw e refl

-- How many bits the data regions answer, if each of them is read whole or not at all.
abbrev pub ReadsAre : Batch → List Region → ℕ → Type 0
ReadsAre b [] m = m ≡ 0
ReadsAre b (r ∷ rs) m =
    (do_read : Bool) × (rest : ℕ) × (r.is_tms ≡ false
      → bits_from b.read_input r.begin (region_length r) ≡ replicate (region_length r) do_read)
    × ReadsAre b rs rest
    × (m ≡ (if r.is_tms then 0 else if do_read then region_length r else 0) + rest)

module _ (d : Driver) (P : World → Type 0) (track : IsTracking d) (works : IsReliable d P) where
  shift_region_works :
      (b : Batch) (r : Region) (do_read : Bool) (w : World)
      → P w
      → 0 < region_length r
      → region_length r ≤ 8 * buffer_size
      → (w' : World) × (shift_region d b r do_read w
          ≡ some (if do_read then region_length r else 0, w'))
        × P w'
        × (w'.state ≡ (if r.flip_tms then next_state w.state true else w.state))
  unfolding shift_region
  shift_region_works b r do_read w p some_bits fits =
      let (tdo, w', e, p', s) =
        scan_chain_works d P track (IsWorking-of_IsReliable d P works)
          (cut_bits b.tdi_input r.begin (region_length r)) (replicate buffer_size 0)
          (region_length r) r.flip_tms do_read w p some_bits
          (omega (arith, length-cut_bits b.tdi_input r.begin (region_length r))) fits
          (omega arith) in
      answers do_read tdo w' e p' s
    where
      answers :
          (do_read : Bool) (tdo : List ℕ) (w' : World)
          → jtag_scan_chain d
              (cut_bits b.tdi_input r.begin (region_length r))
              (replicate buffer_size 0)
              (region_length r)
              r.flip_tms
              do_read
              w
            ≡ some ((true, tdo), w')
          → P w'
          → w'.state ≡ (if r.flip_tms then next_state w.state true else w.state)
          → (w' : World) × (shift_region d b r do_read w
              ≡ some (if do_read then region_length r else 0, w'))
            × P w'
            × (w'.state ≡ (if r.flip_tms then next_state w.state true else w.state))
      answers true tdo w' e p' s =
          let sends =
            write_full-Sends (map answer (bits_from tdo 0 (region_length r))) (region_length r)
              w' in
          (
            record w' { net = sends.net },
            rw (e, ◌>>=◌, sends.returns, ◌>>=◌),
            works.frame w' _ p' refl refl refl,
            s,
          )
      answers false tdo w' e p' s = (w', rw (e, ◌>>=◌), p', s)

  -- One region that starts where the controller is.
  run_region_works :
      (b : Batch) (r : Region) (i : ℕ) (do_read : Bool) (w : World)
      → P w
      → IsSegment b.tms_input w.state i r
      → r.end ≤ b.bits
      → b.bits ≤ 8 * buffer_size
      → (r.is_tms ≡ false
          → bits_from b.read_input r.begin (region_length r) ≡ replicate (region_length r) do_read)
      → (w' : World) × (run_region d b r w
          ≡ some (if r.is_tms then 0 else if do_read then region_length r else 0, w'))
        × P w'
        × (w'.state ≡ walk w.state (region_bits b.tms_input r))
  unfolding run_region
  run_region_works b r i do_read w p seg inside fits reads = elim (Bool-cases r.is_tms) [
    | inl e ↦
        let (w', f, p', s) =
          tms_seq_works d P track (IsWorking-of_IsReliable d P works)
            (cut_bits b.tms_input r.begin (region_length r)) (region_length r) w p
            (omega (arith, inside, fits, length-cut_bits b.tms_input r.begin (region_length r))) in
        (
          w',
          rw guards (
              ap (λ (m : M ℕ). m w) (if_true _ _ e)
              ∙ rw (f, ◌>>=◌) (ap (λ k. some (k, w')) (sym (if_true _ _ e)))),
          p',
          s
              ∙ walk_bits-eq-walk (cut_bits b.tms_input r.begin (region_length r)) 0
                  (region_length r) w.state
              ∙ ap (walk w.state)
                  (bits_from-cut_bits b.tms_input r.begin (region_length r) (omega arith)),
        )
    | inr e ↦
        let (w', f, p', s) =
          shift_region_works b r do_read w p (omega (arith, seg.nonempty)) (omega arith) in
        (
          w',
          rw guards (
              ap (λ (m : M ℕ). m w) (if_false _ _ e)
              ∙ rw
                  (agree_read_of_same b.read_input r.begin (region_length r) do_read (reads e)
                    (omega (arith, seg.nonempty)))
                  f
              ∙ ap (λ k. some (k, w')) (sym (if_false _ _ e))),
          p',
          s
              ∙ sym (
                  ap (walk w.state) (seg.held e)
                  ∙ walk_of_data w.state (region_length r - 1) r.flip_tms
                      (ground (arith, seg.kind))),
        )
  ]
    where
      guards : (ltb r.begin r.end && leb r.end b.bits) ≡ true
      guards = ground (arith, seg.nonempty)

  -- The loop runs to its end and is in the state where the regions lead.
  pub run_regions_works :
      (b : Batch) (rs : List Region) (s t : JtagState) (i m total : ℕ) (w : World)
      → P w
      → w.state ≡ s
      → Segments b.tms_input s i rs t b.bits
      → b.bits ≤ 8 * buffer_size
      → ReadsAre b rs m
      → total + m < 2 ^ 32
      → (w' : World) × (run_regions d b rs total w ≡ some (total + m, w')) × P w' × (w'.state ≡ t)
  unfolding run_regions
  run_regions_works b [] s t i m total w p at (e, f) fits reads small =
      (w, ap (λ k. some (k, w)) (omega (arith, reads)), p, at ∙ e)
  run_regions_works b (r ∷ rs) s t i m total w p at (seg, segs) fits
        (do_read, rest, same, reads, size) small =
      let (w', f, p', s') =
        run_region_works b r i do_read w p (rw at seg)
          (Segments-le b.tms_input _ r.end rs t b.bits segs) fits same in
      let (w'', g, p'', s'') =
        run_regions_works b rs (walk s (region_bits b.tms_input r)) t r.end rest
          (u32 (total + gain)) w' p' (s' ∙ ap (λ v. walk v (region_bits b.tms_input r)) at) segs
          fits reads (omega (arith, size)) in
      (w'', rw (f, ◌>>=◌) (g ∙ ap (λ k. some (k, w'')) (omega (arith, size))), p'', s'')
    where
      gain : ℕ
      gain = if r.is_tms then 0 else if do_read then region_length r else 0
