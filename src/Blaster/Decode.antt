-- ===== src/Blaster/Decode.antt =====
-- The streams of the USB Blaster driver, as clock cycles.
use jtag_remote_server.Base.{
  ℕ, zero, suc, ◌+◌, ◌*◌, ◌≤◌, ◌<◌, ◌≡◌, refl, sym, ap, ◌∙◌, Bool, true, false, List, [], ◌∷◌, ◌++◌,
  map, arith, length, take, drop, get_or, bit_at, bits_from, bits_from-add,
}
use jtag_remote_server.Mpsse.Engine.{shift_pulses}
use jtag_remote_server.Mpsse.Decode.{bits_of_byte}
use jtag_remote_server.Blaster.{tms_bytes, shift_command, rest_bytes, last_bytes}
use jtag_remote_server.Blaster.Pins.{
  pins, run, Drives, Drives-nil, Drives-append, clock-Drives, low-Drives, announced,
}

take-drop-suc :
    (t i : ℕ) (bytes : List ℕ)
    → i < length bytes
    → take (suc t) (drop i bytes) ≡ get_or bytes i 0 ∷ take t (drop (suc i) bytes)
take-drop-suc t zero [] h = absurd (omega arith)
take-drop-suc t zero (x ∷ xs) h = refl
take-drop-suc t (suc i) [] h = absurd (omega arith)
take-drop-suc t (suc i) (x ∷ xs) h = take-drop-suc t i xs (omega arith)

pub shift_pulses-append :
    (tms read : Bool) (xs ys : List Bool)
    → shift_pulses tms read (xs ++ ys) ≡ shift_pulses tms read xs ++ shift_pulses tms read ys
shift_pulses-append tms read [] ys = refl
shift_pulses-append tms read (x ∷ xs) ys =
    ap (λ t. record { tms = tms; tdi = x; read = read } ∷ t) (shift_pulses-append tms read xs ys)

no_bits : (bytes : List ℕ) (i : ℕ) → bits_from bytes i 0 ≡ []
unfolding bits_from
no_bits bytes i = refl

-- The bytes behind an announcement are shifted, lowest bit first.
shifted :
    (t i : ℕ) (bytes : List ℕ) (tck tms read : Bool)
    → i + t ≤ length bytes
    → run (pins tck tms read t) (take t (drop i bytes))
      ≡ (shift_pulses tms read (bits_from bytes (i * 8) (t * 8)), pins tck tms read 0)
shifted zero i bytes tck tms read fits = rw (no_bits bytes (i * 8)) refl
shifted (suc t) i bytes tck tms read fits =
    rw
      (
        take-drop-suc t i bytes (omega arith),
        shifted t (suc i) bytes tck tms read (omega arith),
        bits_of_byte bytes i 8 (omega arith),
      )
      (ap (λ ps. (ps, pins tck tms read 0)) joined)
  where
    joined :
        shift_pulses tms read (bits_from bytes (i * 8) 8)
          ++ shift_pulses tms read (bits_from bytes (suc i * 8) (t * 8))
        ≡ shift_pulses tms read (bits_from bytes (i * 8) (suc t * 8))
    joined =
        sym (
          shift_pulses-append tms read (bits_from bytes (i * 8) 8)
            (bits_from bytes (suc i * 8) (t * 8)))
        ∙ ap (shift_pulses tms read) (
            ap (λ k. bits_from bytes (i * 8) 8 ++ bits_from bytes k (t * 8)) next
            ∙ sym (bits_from-add bytes (i * 8) 8 (t * 8))
            ∙ ap (bits_from bytes (i * 8)) more)
      where
        next : suc i * 8 ≡ i * 8 + 8
        next = omega arith

        more : 8 + t * 8 ≡ suc t * 8
        more = omega arith

pub packet-Drives :
    (tms read : Bool) (t i : ℕ) (bytes : List ℕ)
    → t ≤ 32
    → i + t ≤ length bytes
    → Drives tms
        (shift_command read t ∷ take t (drop i bytes))
        (shift_pulses tms read (bits_from bytes (i * 8) (t * 8)))
        tms
packet-Drives tms read t i bytes small fits = record {
  drive = λ tck latch. (
    tck,
    read,
    rw (announced tck tms latch read t small, shifted t i bytes tck tms read fits) refl,
  );
}

-- A TMS sequence: one clock cycle for each bit, with TDI low, and TCK low behind it.
pub tms_bytes-Drives :
    (bytes : List ℕ) (i left : ℕ) (bit tms : Bool)
    → (last : Bool) × Drives tms
        (tms_bytes bytes i left bit)
        (map (λ b. record { tms = b; tdi = false; read = false }) (bits_from bytes i left))
        last
unfolding tms_bytes bits_from
tms_bytes-Drives bytes i zero bit tms = (bit, low-Drives tms bit false)
tms_bytes-Drives bytes i (suc left) bit tms =
    let (last, rest) = tms_bytes-Drives bytes (i + 1) left (bit_at bytes i) (bit_at bytes i) in
    (last, Drives-append (clock-Drives tms (bit_at bytes i) false false) rest)

pub rest_bytes-Drives :
    (bytes : List ℕ) (i left : ℕ) (read : Bool)
    → Drives false
        (rest_bytes bytes i left read)
        (shift_pulses false read (bits_from bytes i left))
        false
unfolding rest_bytes bits_from
rest_bytes-Drives bytes i zero read = Drives-nil false
rest_bytes-Drives bytes i (suc left) read =
    Drives-append (clock-Drives false false (bit_at bytes i) read)
      (rest_bytes-Drives bytes (i + 1) left read)

pub last_bytes-Drives :
    (bit read : Bool)
    → Drives false (last_bytes bit read) (record { tms = true; tdi = bit; read = read } ∷ []) true
unfolding last_bytes
last_bytes-Drives bit read =
    Drives-append (clock-Drives false true bit read) (low-Drives true true bit)
