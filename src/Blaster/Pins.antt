-- ===== src/Blaster/Pins.antt =====
-- The USB Blaster as OpenOCD's driver describes it: what the bytes sent to it do on the pins. It is the
-- specification of the streams.
use jtag_remote_server.Base.{
  ℕ, zero, suc, ◌+◌, ◌*◌, ◌/◌, ◌%◌, ◌≤◌, ◌<◌, bit_or, ◌≡◌, refl, sym, ap, ap₂, ◌∙◌, Bool, true,
  false, not, ◌&&◌, List, [], ◌∷◌, ◌++◌, arith, if◌then◌else◌, leb, u8, test_bit, bits_from,
  append_assoc,
}
use jtag_remote_server.Mpsse.Engine.{Pulse, shift_pulses}
use jtag_remote_server.Base.{bit_or_step}
use jtag_remote_server.Blaster.{build_command, shift_command}

-- The levels of TCK and TMS, whether the shifted bits are sampled, and how many bytes are left to
-- shift.
pub record Pins : Type 0 where
  pub tck : Bool
  pub tms : Bool
  pub read : Bool
  pub left : ℕ

abbrev pub pins : Bool → Bool → Bool → ℕ → Pins
pins tck tms read left = record { tck = tck; tms = tms; read = read; left = left }

-- A byte with bit 7 announces bytes to shift, else it sets the pins: TCK, TMS, and TDI at bit 4. A
-- rising edge of TCK is a clock cycle; bit 6 asks for TDO.
abbrev pub pin_step : Pins → ℕ → List Pulse × Pins
pin_step p c = go p.left
  where
    go : ℕ → List Pulse × Pins
    go zero = if leb 128 c then ([], pins p.tck p.tms (test_bit c 6) (c % 64)) else (
      if not p.tck && test_bit c 0
          then record { tms = test_bit c 1; tdi = test_bit c 4; read = test_bit c 6 } ∷ []
          else [],
      pins (test_bit c 0) (test_bit c 1) p.read 0,
    )
    go (suc left) =
        (shift_pulses p.tms p.read (bits_from (c ∷ []) 0 8), pins p.tck p.tms p.read left)

abbrev pub run : Pins → List ℕ → List Pulse × Pins
run p [] = ([], p)
run p (c ∷ cs) = let (out, p') = pin_step p c in let (more, p'') = run p' cs in (out ++ more, p'')

run-append :
    (p : Pins) (xs ys : List ℕ)
    → run p (xs ++ ys) ≡ ((run p xs).0 ++ (run (run p xs).1 ys).0, (run (run p xs).1 ys).1)
run-append p [] ys = refl
run-append p (c ∷ cs) ys = rw (run-append (pin_step p c).1 cs ys) (
    ap (λ x. (x, (run (run (pin_step p c).1 cs).1 ys).1)) (sym (append_assoc (pin_step p c).0 _ _)))

-- Whatever the level of TCK was, with TMS at `tms` the bytes make these clock cycles and leave TMS at
-- `tms'`, with nothing left to shift.
pub record Drives (tms : Bool) (bytes : List ℕ) (ps : List Pulse) (tms' : Bool) : Type 0 where
  pub drive :
      (tck read : Bool)
      → (tck' : Bool) × (read' : Bool) × (run (pins tck tms read 0) bytes
          ≡ (ps, pins tck' tms' read' 0))

pub Drives-nil : (tms : Bool) → Drives tms [] [] tms
Drives-nil tms = record { drive = λ tck read. (tck, read, refl) }

pub Drives-append :
    {a b c : Bool} {xs ys : List ℕ} {ps qs : List Pulse}
    → Drives a xs ps b
    → Drives b ys qs c
    → Drives a (xs ++ ys) (ps ++ qs) c
Drives-append {a} {b} {c} {xs} {ys} first second = record {
  drive = λ tck read.
      let (tck1, read1, e) = first.drive tck read in
      let (tck2, read2, f) = second.drive tck1 read1 in
      (tck2, read2, run-append (pins tck a read 0) xs ys ∙ rw (e, f) refl);
}

-- A byte that takes TCK low, and the one that takes it high.
build_command_low :
    (tck tms t d read : Bool)
    → pin_step (pins tck tms read 0) (build_command t d false false) ≡ ([], pins false t read 0)
unfolding build_command
build_command_low tck tms t d read = ground arith

build_command_high :
    (tms t d rd read : Bool)
    → pin_step (pins false tms read 0) (build_command t d true rd)
      ≡ (record { tms = t; tdi = d; read = rd } ∷ [], pins true t read 0)
unfolding build_command
build_command_high tms t d rd read = ground arith

-- One clock cycle, with `d` on TDI and TMS at `t`.
pub clock-Drives :
    (tms t d read : Bool)
    → Drives tms
        (build_command t d false false ∷ build_command t d true read ∷ [])
        (record { tms = t; tdi = d; read = read } ∷ [])
        t
clock-Drives tms t d rd = record {
  drive = λ tck read.
      (true, read, rw (build_command_low tck tms t d read, build_command_high t t d rd read) refl);
}

pub low-Drives : (tms t d : Bool) → Drives tms (build_command t d false false ∷ []) [] t
low-Drives tms t d = record {
  drive = λ tck read. (false, read, rw (build_command_low tck tms t d read) refl);
}

-- An `or` with bits below it is a sum.
bit_or_below : (a t : ℕ) → t < 64 → bit_or a 0 ≡ a → bit_or (a * 64) t ≡ a * 64 + t
bit_or_below a t small h = omega (
  arith,
  bit_or_step (a * 64) t,
  bit_or_step (a * 64 / 2) (t / 2),
  bit_or_step (a * 64 / 2 / 2) (t / 2 / 2),
  bit_or_step (a * 64 / 2 / 2 / 2) (t / 2 / 2 / 2),
  bit_or_step (a * 64 / 2 / 2 / 2 / 2) (t / 2 / 2 / 2 / 2),
  bit_or_step (a * 64 / 2 / 2 / 2 / 2 / 2) (t / 2 / 2 / 2 / 2 / 2),
  top,
)
  where
    top : bit_or (a * 64 / 2 / 2 / 2 / 2 / 2 / 2) (t / 2 / 2 / 2 / 2 / 2 / 2) ≡ a
    top = ap₂ bit_or (omega arith) (omega arith) ∙ h

shift_command_lem :
    (read : Bool) (t : ℕ) → t ≤ 32 → shift_command read t ≡ (if read then 192 else 128) + t
unfolding shift_command
shift_command_lem true t small = ap u8 (bit_or_below 3 t (omega arith) refl) ∙ omega arith
shift_command_lem false t small = ap u8 (bit_or_below 2 t (omega arith) refl) ∙ omega arith

pub announced :
    (tck tms latch read : Bool) (t : ℕ)
    → t ≤ 32
    → pin_step (pins tck tms latch 0) (shift_command read t) ≡ ([], pins tck tms read t)
announced tck tms latch true t small = rw (shift_command_lem true t small) (ground arith)
announced tck tms latch false t small = rw (shift_command_lem false t small) (ground arith)
