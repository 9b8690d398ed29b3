-- ===== src/Xvc/ShiftStep.antt =====
-- A `shift:` command of an XVC client is carried out, over a driver that works.
use jtag_remote_server.Base.{
  ℕ, ◌+◌, ◌-◌, ◌*◌, ◌/◌, ◌^◌, ◌≤◌, ◌<◌, ◌≡◌, refl, sym, ap, ap₂, subst, ◌∙◌, Bool, true, false,
  some, List, [], ◌∷◌, ◌++◌, map, arith, leb, length, length-append, take, drop, append_assoc,
  append-nil, take-append, drop-drop, u32, bits_from, bits_from-append,
}
use jtag_remote_server.Words.{word_at, le_bytes}
use jtag_remote_server.Tap.{JtagState, walk_bits}
use jtag_remote_server.Tap.Laws.{walk, walk_bits-eq-walk}
use jtag_remote_server.World.{World, Run, pure, ◌>>=◌}
use jtag_remote_server.World.Keeps.{outside}
use jtag_remote_server.Jtag.{Driver}
use jtag_remote_server.Jtag.Law.{
  IsTracking, IsQuiet, IsReliable, IsWorking-of_IsReliable, IsWorking-fixed,
}
use jtag_remote_server.Bitbang.{Region, analyze_bitbang}
use jtag_remote_server.Bitbang.Segments.{Segments, region_bits}
use jtag_remote_server.Bitbang.Scanned.{analyze_bitbang-Segments}
use jtag_remote_server.Bitbang.Copy.{buffer_size}
use jtag_remote_server.Socket.Stands.{Stands, Stands-behind}
use jtag_remote_server.Socket.Greedy.{IsGreedy}
use jtag_remote_server.Xvc.{run_shift}
use jtag_remote_server.Xvc.Shifted.{run_shift_works}
use jtag_remote_server.Xvc.Commands.{
  ShiftCommand, Session, starts_with, at_command, getinfo, settck, shift, consume,
  run_shift_command, run_command,
}
use jtag_remote_server.Xvc.Encode.{
  shift_bits, encode, at_command_seen, at_command_other, word_behind,
}
use jtag_remote_server.Xvc.Step.{Joined, AllReady, Carried}

Segments-Joined :
    (tms : List ℕ) (s : JtagState) (i : ℕ) (rs : List Region) (t : JtagState) (n : ℕ)
    → Segments tms s i rs t n
    → Joined rs i n
Segments-Joined tms s i [] t n segs = segs.1
Segments-Joined tms s i (r ∷ rs) t n (seg, segs) =
    (seg.starts, seg.nonempty, Segments-Joined tms (walk s (region_bits tms r)) r.end rs t n segs)

AllReady-snoc :
    (cs : List ShiftCommand) (c : ShiftCommand)
    → AllReady cs
    → AllReady (c ∷ [])
    → AllReady (cs ++ (c ∷ []))
AllReady-snoc [] c ready last = last
AllReady-snoc (k ∷ cs) c (within, few, small, ready) last =
    (within, few, small, AllReady-snoc cs c ready last)

counts-snoc :
    (cs : List ShiftCommand) (c : ShiftCommand)
    → map (λ (k : ShiftCommand). k.bytes) (cs ++ (c ∷ []))
      ≡ map (λ (k : ShiftCommand). k.bytes) cs ++ (c.bytes ∷ [])
counts-snoc [] c = refl
counts-snoc (k ∷ cs) c = ap (λ t. k.bytes ∷ t) (counts-snoc cs c)

-- The bytes of the arrays behind the header of the command.
body-Stands :
    (w : World) (bits : ℕ) (tms tdi rest stale : List ℕ)
    → Stands w (encode (shift_bits bits tms tdi) ++ rest) stale
    → drop (w.buffer_begin + 10) w.buffer ≡ tms ++ (tdi ++ (rest ++ stale))
unfolding le_bytes
body-Stands w bits tms tdi rest stale st =
    sym (drop-drop w.buffer_begin 10 w.buffer) ∙ ap (drop 10) st.at ∙ simp append_assoc

then_true :
    (m : Run Session (Unit {0})) (s s' : Session)
    → m s ≡ some (tt, s')
    → (m >>= λ u. pure true) s ≡ some (true, s')
then_true m s s' e = rw (◌>>=◌, e) refl

-- The arrays with the bytes of the command, and the session behind it.
abbrev filled_tms : ℕ → Session → List ℕ
filled_tms bytes s =
    take bytes (drop (s.world.buffer_begin + 10) s.world.buffer) ++ drop bytes s.tms

abbrev filled_tdi : ℕ → Session → List ℕ
filled_tdi bytes s =
    take bytes (drop bytes (drop (s.world.buffer_begin + 10) s.world.buffer)) ++ drop bytes s.tdi

abbrev ended : ℕ → ℕ → List Region → World → Session → Session
ended bits bytes regions w' s = record {
  tms = filled_tms bytes s;
  tdi = filled_tdi bytes s;
  tdo = s.tdo;
  shift_commands =
      s.shift_commands ++ (record { bits = bits; bytes = bytes; regions = regions } ∷ []);
  world = w';
}

module _ (d : Driver) (P : World → Type 0) (track : IsTracking d) (works : IsReliable d P)
    (quiet : IsQuiet d) (junk : Bool) where
  -- The header is read, and the whole command is there.
  shift_run :
      (s s' : Session)
      → at_command getinfo 8 s.world ≡ false
      → at_command settck 11 s.world ≡ false
      → at_command shift 10 s.world ≡ true
      → (bits bytes total_len : ℕ) → word_at s.world.buffer (s.world.buffer_begin + 6) ≡ bits
      → u32 (bits + 7) / 8 ≡ bytes
      → u32 (10 + 2 * bytes) ≡ total_len
      → leb (s.world.buffer_begin + total_len) s.world.buffer_end ≡ true
      → run_shift_command d junk bits bytes total_len s ≡ some (tt, s')
      → run_command d junk s ≡ some (true, s')
  unfolding run_command
  shift_run s s' e1 e2 e3 bits bytes total_len e4 e5 e6 e7 e8 =
      rw (e1, e2, e3, e4, e5, e6, e7)
        (then_true (run_shift_command d junk bits bytes total_len) s s' e8)

  -- The arrays are filled, and the regions sent.
  command_run :
      (s : Session) (bits bytes total_len : ℕ) (regions : List Region) (w' : World)
      → leb bits (8 * buffer_size) ≡ true
      → run_shift d junk (filled_tms bytes s) (filled_tdi bytes s) bits (consume total_len s.world)
        ≡ some (regions, w')
      → run_shift_command d junk bits bytes total_len s ≡ some (tt, ended bits bytes regions w' s)
  unfolding run_shift_command
  command_run s bits bytes total_len regions w' e3 e4 = rw (◌>>=◌, e3, e4) refl

  pub shift_step :
      (s : Session) (bits : ℕ) (tms tdi rest stale : List ℕ)
      → P s.world
      → IsGreedy s.world.net
      → Stands s.world (encode (shift_bits bits tms tdi) ++ rest) stale
      → length tms ≡ (bits + 7) / 8
      → length tdi ≡ (bits + 7) / 8
      → bits < 2 ^ 32 - 7
      → (s' : Session) × (run_command d junk s ≡ some (true, s'))
        × Carried P (shift_bits bits tms tdi) rest stale s s'
  unfolding starts_with le_bytes consume
  shift_step s bits tms tdi rest stale p greedy st size1 size2 small =
      let (w2, e, (p2, same), state) = ran in
      let s' = ended bits bytes regions w2 s in
      (
        s',
        shift_run s s' (at_command_other s.world getinfo _ stale 8 st refl)
            (at_command_other s.world settck _ stale 11 st refl)
            (at_command_seen s.world shift _ stale 10 st (omega arith)) bits bytes total word
            (omega (arith, small)) (omega (arith, room)) there
            (command_run s bits bytes total regions w2 inside e),
        record {
          healthy = p2;
          stands =
              Stands-behind s.world w2 (encode (shift_bits bits tms tdi)) rest stale st
                (ap (λ o. o.1) same) (ap (λ o. o.3) same) (ap (λ o. o.2) same ∙ advanced);
          greedy = subst IsGreedy (sym (ap (λ o. o.0) same)) greedy;
          sent = ap (λ o. o.0.sent) same ∙ sym (append-nil s.world.net.sent);
          state = state ∙ walks;
          ready = λ ready. AllReady-snoc s.shift_commands _ ready (
            Segments-Joined (filled_tms bytes s) s.world.state 0 regions _ bits
                (analyze_bitbang-Segments (filled_tms bytes s) junk bits s.world.state),
            omega arith,
            omega (arith, room),
            tt,
          );
          counts = counts-snoc s.shift_commands _;
        },
      )
    where
      bytes : ℕ
      bytes = (bits + 7) / 8

      total : ℕ
      total = 10 + 2 * bytes

      w1 : World
      w1 = consume total s.world

      regions : List Region
      regions = (analyze_bitbang junk (filled_tms bytes s) bits s.world.state).0

      len : length (encode (shift_bits bits tms tdi)) ≡ total
      len = omega (arith, length-append tms tdi, size1, size2)

      room : s.world.buffer_begin + total ≤ 4096
      room =
          omega
            (arith, st.end, st.within, length-append (encode (shift_bits bits tms tdi)) rest, len)

      there : leb (s.world.buffer_begin + total) s.world.buffer_end ≡ true
      there = ground (arith, st.end, length-append (encode (shift_bits bits tms tdi)) rest, len)

      inside : leb bits (8 * buffer_size) ≡ true
      inside = ground (arith, room)

      advanced :
          s.world.buffer_begin + total
          ≡ s.world.buffer_begin + length (encode (shift_bits bits tms tdi))
      advanced = omega (arith, len)

      word : word_at s.world.buffer (s.world.buffer_begin + 6) ≡ bits
      word =
          word_behind s.world shift ((tms ++ tdi) ++ rest) stale bits 6 st (omega (arith, small))
            refl

      filled : filled_tms bytes s ≡ tms ++ drop bytes s.tms
      filled =
          ap (λ xs. xs ++ drop bytes s.tms)
            (ap₂ take (sym size1) (body-Stands s.world bits tms tdi rest stale st)
              ∙ take-append tms (tdi ++ (rest ++ stale)))

      walks :
          walk_bits (filled_tms bytes s) 0 bits s.world.state
          ≡ walk s.world.state (bits_from tms 0 bits)
      walks =
          walk_bits-eq-walk (filled_tms bytes s) 0 bits s.world.state
          ∙ ap (walk s.world.state) (
              ap (λ xs. bits_from xs 0 bits) filled
              ∙ bits_from-append tms (drop bytes s.tms) bits (omega (arith, size1)))

      ran :
          (w2 : World) × (run_shift d junk (filled_tms bytes s) (filled_tdi bytes s) bits w1
            ≡ some (regions, w2))
          × (P w2 × (outside w2 ≡ outside w1))
          × (w2.state ≡ walk_bits (filled_tms bytes s) 0 bits s.world.state)
      ran =
          run_shift_works d (λ w. P w × (outside w ≡ outside w1)) track
            (IsWorking-fixed d P (outside w1) quiet (IsWorking-of_IsReliable d P works)) junk
            (filled_tms bytes s) (filled_tdi bytes s) bits w1
            (works.frame s.world w1 p refl refl refl, refl) (omega (arith, room))
