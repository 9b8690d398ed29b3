-- ===== src/Xvc/Shifted.antt =====
-- A `shift:` command over a driver that tracks the TAP state and works.
use jtag_remote_server.Base.{
  ℕ, zero, suc, ◌+◌, ◌-◌, ◌*◌, ◌≤◌, ◌<◌, ◌≡◌, refl, sym, ap, ◌∙◌, Bool, true, false, ◌&&◌, some,
  List, [], ◌∷◌, arith, if◌then◌else◌, leb, ltb, replicate, Bool-cases, inl, inr, bit_at, bits_from,
}
use jtag_remote_server.Tap.{JtagState, run_test_idle, next_state, state_eq, enum_value, walk_bits}
use jtag_remote_server.Tap.Laws.{walk, walk_bits-eq-walk, walk_of_data}
use jtag_remote_server.World.{World, M, pure, check, ◌>>=◌, ◌>>◌}
use jtag_remote_server.Jtag.{Driver}
use jtag_remote_server.Jtag.Law.{IsTracking, IsWorking}
use jtag_remote_server.Jtag.Works.{tms_seq_works, send_works, clock_works}
use jtag_remote_server.Bitbang.{Region, region_length, analyze_bitbang}
use jtag_remote_server.Bitbang.Segments.{region_bits, IsSegment, Segments}
use jtag_remote_server.Bitbang.Scanned.{analyze_bitbang-Segments}
use jtag_remote_server.Bitbang.Replay.{Segments-le, analyze_bitbang_lossless}
use jtag_remote_server.Bitbang.Copy.{
  length-cut_bits, buffer_size, cut_bits, bits_from-cut_bits, length-cut_bits,
}
use jtag_remote_server.Rbb.Regions.{if_true, if_false}
use jtag_remote_server.Rbb.Batches.{state_eq_self}
use jtag_remote_server.Xvc.{keeps_clock_only, send_tms_region, send_region, send_regions, run_shift}

-- If `clock_only` is left set, it was set, and the bits are all zero.
clock_only_lem :
    (tms : List ℕ) (i n : ℕ) (c : Bool)
    → keeps_clock_only tms i n c ≡ true
    → (c ≡ true) × (bits_from tms i n ≡ replicate n false)
unfolding keeps_clock_only bits_from
clock_only_lem tms i zero c e = (e, refl)
clock_only_lem tms i (suc n) c e =
    let (kept, zeros) = clock_only_lem tms (i + 1) n (if bit_at tms i then false else c) e in
    both (bit_at tms i) c kept zeros
  where
    both :
        (b c : Bool)
        → (if b then false else c) ≡ true
        → bits_from tms (i + 1) n ≡ replicate n false
        → (c ≡ true) × (b ∷ bits_from tms (i + 1) n ≡ false ∷ replicate n false)
    both true c kept zeros = absurd (ground arith)
    both false c kept zeros = (kept, ap (λ x. false ∷ x) zeros)

idle_of_state_eq : (s : JtagState) → state_eq s run_test_idle ≡ true → s ≡ run_test_idle
unfolding state_eq enum_value
idle_of_state_eq s e = ground arith

walk_idle : (n : ℕ) → walk run_test_idle (replicate n false) ≡ run_test_idle
unfolding next_state
walk_idle zero = refl
walk_idle (suc n) = walk_idle n

first_zero :
    (buffer : List ℕ) (n : ℕ)
    → 0 < n
    → bits_from buffer 0 n ≡ replicate n false
    → bits_from buffer 0 1 ≡ false ∷ []
unfolding bits_from
first_zero buffer zero h e = absurd (omega arith)
first_zero buffer (suc n) h e = ap (λ b. b ∷ []) cc

-- One step on zeros in Run-Test/Idle leads where all of them lead.
shortcut :
    (tms buffer : List ℕ) (i n : ℕ) (s : JtagState)
    → 0 < n
    → s ≡ run_test_idle
    → bits_from tms i n ≡ replicate n false
    → bits_from buffer 0 n ≡ bits_from tms i n
    → walk_bits buffer 0 1 s ≡ walk s (bits_from tms i n)
shortcut tms buffer i n s some_bits idle zeros same =
    walk_bits-eq-walk buffer 0 1 s
    ∙ rw (idle, first_zero buffer n some_bits (same ∙ zeros), zeros)
        (walk_idle 1 ∙ sym (walk_idle n))

module _ (d : Driver) (P : World → Type 0) (track : IsTracking d) (works : IsWorking d P) where
  -- The shortcut leads where the walk leads.
  send_tms_region_works :
      (tms : List ℕ) (r : Region) (w : World)
      → P w
      → r.begin < r.end
      → region_length r ≤ 8 * buffer_size
      → (w' : World) × (send_tms_region d tms r w ≡ some (tt, w'))
        × P w'
        × (w'.state ≡ walk w.state (region_bits tms r))
  unfolding send_tms_region
  send_tms_region_works tms r w p some_bits fits =
      elim (Bool-cases
        (keeps_clock_only tms r.begin (region_length r) (state_eq w.state run_test_idle))) [
          | inl e ↦
              let (idle, zeros) =
                clock_only_lem tms r.begin (region_length r) (state_eq w.state run_test_idle) e in
              let (w1, f, p1, s1) =
                tms_seq_works d P track works buffer 1 w p
                  (omega (arith, length-cut_bits tms r.begin (region_length r))) in
              let (w2, g, p2, s2) = clock_works d P track works (region_length r - 1) w1 p1 in
              (
                w2,
                rw (e, ◌>>=◌, f, g) refl,
                p2,
                s2
                    ∙ s1
                    ∙ shortcut tms buffer r.begin (region_length r) w.state (omega arith)
                        (idle_of_state_eq w.state idle) zeros
                        (bits_from-cut_bits tms r.begin (region_length r) fits),
              )
          | inr e ↦
              let (w1, f, p1, s1) =
                tms_seq_works d P track works buffer (region_length r) w p
                  (omega (arith, fits, length-cut_bits tms r.begin (region_length r))) in
              (
                w1,
                rw (e, ◌>>=◌, f) refl,
                p1,
                s1
                    ∙ walk_bits-eq-walk buffer 0 (region_length r) w.state
                    ∙ ap (walk w.state) (bits_from-cut_bits tms r.begin (region_length r) fits),
              )
        ]
    where
      buffer : List ℕ
      buffer = cut_bits tms r.begin (region_length r)

  send_region_works :
      (tms tdi : List ℕ) (bits : ℕ) (r : Region) (i : ℕ) (w : World)
      → P w
      → IsSegment tms w.state i r
      → r.end ≤ bits
      → bits ≤ 8 * buffer_size
      → (w' : World) × (send_region d tms tdi bits r w ≡ some (tt, w'))
        × P w'
        × (w'.state ≡ walk w.state (region_bits tms r))
  unfolding send_region
  send_region_works tms tdi bits r i w p seg inside fits = elim (Bool-cases r.is_tms) [
    | inl e ↦
        let (w', f, p', s) = send_tms_region_works tms r w p seg.nonempty (omega arith) in
        (w', rw guards (ap (λ (m : M (Unit {0})). m w) (if_true _ _ e) ∙ f), p', s)
    | inr e ↦
        let (w', f, p', s) =
          send_works d P track works (cut_bits tdi r.begin (region_length r)) (region_length r)
            r.flip_tms true w p (omega (arith, seg.nonempty))
            (omega (arith, length-cut_bits tdi r.begin (region_length r))) (omega arith) in
        (
          w',
          rw guards (ap (λ (m : M (Unit {0})). m w) (if_false _ _ e) ∙ rw (f, ◌>>=◌) refl),
          p',
          s
              ∙ sym (
                  ap (walk w.state) (seg.held e)
                  ∙ walk_of_data w.state (region_length r - 1) r.flip_tms
                      (ground (arith, seg.kind))),
        )
  ]
    where
      guards : (ltb r.begin r.end && leb r.end bits) ≡ true
      guards = ground (arith, seg.nonempty)

  send_regions_works :
      (tms tdi : List ℕ) (bits : ℕ) (rs : List Region) (s t : JtagState) (i : ℕ) (w : World)
      → P w
      → w.state ≡ s
      → Segments tms s i rs t bits
      → bits ≤ 8 * buffer_size
      → (w' : World) × (send_regions d tms tdi bits rs w ≡ some (tt, w')) × P w' × (w'.state ≡ t)
  unfolding send_regions
  send_regions_works tms tdi bits [] s t i w p at (e, f) fits = (w, refl, p, at ∙ e)
  send_regions_works tms tdi bits (r ∷ rs) s t i w p at (seg, segs) fits =
      let (w', f, p', s') =
        send_region_works tms tdi bits r i w p (rw at seg) (Segments-le tms _ r.end rs t bits segs)
          fits in
      let (w'', g, p'', s'') =
        send_regions_works tms tdi bits rs (walk s (region_bits tms r)) t r.end w' p'
          (s' ∙ ap (λ v. walk v (region_bits tms r)) at) segs fits in
      (w'', rw (f, ◌>>=◌) g, p'', s'')

  -- A `shift:` command whose bits fit the arrays is carried out with the assertion behind the loop met,
  -- over a driver that tracks the TAP state and works, long idle runs by the clock only or not: the state
  -- is where the TMS bits lead, and the regions to read back are those of `analyze_bitbang`.
  pub run_shift_works :
      (junk : Bool) (tms tdi : List ℕ) (bits : ℕ) (w : World)
      → P w
      → bits ≤ 8 * buffer_size
      → (w' : World) × (run_shift d junk tms tdi bits w
          ≡ some ((analyze_bitbang junk tms bits w.state).0, w'))
        × P w'
        × (w'.state ≡ walk_bits tms 0 bits w.state)
  unfolding run_shift
  run_shift_works junk tms tdi bits w p fits =
      let (regions, cur_state) = analyze_bitbang junk tms bits w.state in
      let (w', e, p', s) =
        send_regions_works tms tdi bits regions w.state cur_state 0 w p refl
          (analyze_bitbang-Segments tms junk bits w.state) fits in
      (
        w',
        rw (e, ◌>>=◌) (met cur_state regions w' s),
        p',
        s ∙ (analyze_bitbang_lossless junk tms bits w.state).1,
      )
    where
      met :
          (cur_state : JtagState) (regions : List Region) (v : World)
          → v.state ≡ cur_state
          → ((λ u. check (state_eq cur_state u.state) u) >> pure regions) v ≡ some (regions, v)
      met cur_state regions v at = rw (← at, ◌>>=◌, state_eq_self v.state) refl
