-- ===== src/Mpsse/Engine.antt =====
-- The MPSSE engine as FTDI's application note describes it, for the commands that src/mpsse.cpp
-- puts into the buffer: what each does on the pins. It is the specification of the streams.
use jtag_remote_server.Base.{
  ℕ, ◌+◌, ◌*◌, ◌≡◌, Bool, true, false, Option, none, some, List, [], ◌∷◌, ◌++◌, map, if◌then◌else◌,
  ◌==◌, leb, length, take, drop, test_bit, bits_from,
}
use jtag_remote_server.Header.{Header}

-- The values of libftdi's ftdi.h.
abbrev pub documented : Header
documented = record {
  mpsse_write_neg = 0x01;
  mpsse_bitmode = 0x02;
  mpsse_lsb = 0x08;
  mpsse_do_write = 0x10;
  mpsse_do_read = 0x20;
  mpsse_write_tms = 0x40;
  set_bits_low = 0x80;
  set_bits_high = 0x82;
  tck_divisor = 0x86;
  dis_div_5 = 0x8a;
  send_immediate = 0x87;
}

abbrev pub IsDocumented : Header → Type 0
IsDocumented h = h ≡ documented

-- One clock cycle: the levels of TMS and TDI, and whether TDO is sampled.
pub record Pulse : Type 0 where
  pub tms : Bool
  pub tdi : Bool
  pub read : Bool

abbrev pub shift_pulses : Bool → Bool → List Bool → List Pulse
shift_pulses tms read tdi = map (λ b. record { tms = tms; tdi = b; read = read }) tdi

-- The low bits of `d` on TMS, with TDI at bit 7: a command has 7 bits of TMS at most.
abbrev pub tms_pulses : Bool → ℕ → List Bool → List Pulse
tms_pulses read d tms = map (λ b. record { tms = b; tdi = test_bit d 7; read = read }) tms

-- The engine keeps TMS at the level of the last TMS command. A step takes one command off a stream
-- and gives the clock cycles, the level of TMS behind them, and the rest.
abbrev pub Step : Type 0
Step = Option (List Pulse × Bool × List ℕ)

tms_step : Bool → List ℕ → Step
tms_step read (n ∷ d ∷ rest) =
    if leb n 6
    then some (tms_pulses read d (bits_from (d ∷ []) 0 (n + 1)), test_bit d n, rest)
    else none
tms_step read (n ∷ []) = none
tms_step read [] = none

bits_step : Bool → Bool → List ℕ → Step
bits_step line read (n ∷ d ∷ rest) =
    some (shift_pulses line read (bits_from (d ∷ []) 0 (n + 1)), line, rest)
bits_step line read (n ∷ []) = none
bits_step line read [] = none

-- `n` bytes of data, if the stream has them.
unfoldable pub data_step : Bool → Bool → ℕ → List ℕ → Step
data_step line read n rest =
    if leb n (length rest)
    then some (shift_pulses line read (bits_from (take n rest) 0 (8 * n)), line, drop n rest)
    else none

bytes_step : Bool → Bool → List ℕ → Step
bytes_step line read (lo ∷ hi ∷ rest) = data_step line read (lo + 256 * hi + 1) rest
bytes_step line read (lo ∷ []) = none
bytes_step line read [] = none

unfoldable pub step : Bool → List ℕ → Step
unfolding tms_step bits_step bytes_step
step line [] = none
step line (op ∷ rest) =
    if op == 0x4b
    then tms_step false rest
    else if op == 0x6b
    then tms_step true rest
    else if op == 0x19
    then bytes_step line false rest
    else if op == 0x39
    then bytes_step line true rest
    else if op == 0x1b
    then bits_step line false rest
    else if op == 0x3b
    then bits_step line true rest
    else if op == 0x87
    then some ([], line, rest)
    else none

-- A whole stream, from one level of TMS to another.
pub data Decodes : Bool → List ℕ → List Pulse → Bool → Type 0 where
  done : {line : Bool} → Decodes line [] [] line
  next :
      {line mid last : Bool} {stream rest : List ℕ} {ps qs all : List Pulse}
      → step line stream ≡ some (ps, mid, rest)
      → Decodes mid rest qs last
      → all ≡ ps ++ qs
      → Decodes line stream all last
