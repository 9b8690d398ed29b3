-- ===== src/Rbb/Edges.antt =====
-- The edges of TCK in a batch of commands, and how the arrays of a batch grow.
use native.Mathlib.Nat.{zero-add}
use jtag_remote_server.Base.{
  ℕ, zero, suc, ◌+◌, ◌-◌, ◌*◌, ◌≤◌, ◌<◌, ◌≡◌, ap₂, ◌∙◌, Bool, true, false, not, ◌&&◌, ◌||◌, List,
  [], ◌∷◌, ◌++◌, arith, if◌then◌else◌, ◌==◌, leb, length, bit_at, or_bit, length-or_bit,
  bit_at-or_bit, bits_from, bits_from_ext,
}
use jtag_remote_server.Bitbang.Segments.{bits_from-snoc}
use jtag_remote_server.Rbb.{Batch, set_pins, parse_command}

-- The protocol: '4' to '7' raise TCK, with TDI high at '5' and '7' and TMS high at '6' and '7'.
abbrev pub raises : ℕ → Bool
raises c = leb b'4' c && leb c b'7'

abbrev pub tms_pin : ℕ → Bool
tms_pin c = c == b'6' || c == b'7'

abbrev pub tdi_pin : ℕ → Bool
tdi_pin c = c == b'5' || c == b'7'

-- The levels of a pin at the rising edges.
abbrev pub edges : (ℕ → Bool) → List ℕ → List Bool
edges pin [] = []
edges pin (c ∷ cs) = if raises c then pin c ∷ edges pin cs else edges pin cs

abbrev pub reads : List ℕ → ℕ
reads [] = 0
reads (c ∷ cs) = if c == b'R' then 1 + reads cs else reads cs

pub reads_le : (commands : List ℕ) → reads commands ≤ length commands
reads_le [] = omega arith
reads_le (c ∷ cs) = ground (arith, reads_le cs)

-- Whether there is a read behind exactly `k` rising edges.
abbrev pub asks : ℕ → List ℕ → Bool
asks k [] = false
asks zero (c ∷ cs) = c == b'R' || (not (raises c) && asks zero cs)
asks (suc k) (c ∷ cs) = if raises c then asks k cs else asks (suc k) cs

unfoldable pub raised : ℕ → Batch → Batch
raised c b = record b {
  tms_input = or_bit b.tms_input b.bits (tms_pin c);
  tdi_input = or_bit b.tdi_input b.bits (tdi_pin c);
  bits = b.bits + 1;
}

unfoldable pub asked : Batch → Batch
asked b = record b { read_input = or_bit b.read_input b.bits true; read_bits = b.read_bits + 1 }

pub parse_command_lem :
    (c : ℕ) (b : Batch)
    → parse_command c b ≡ (if raises c then raised c b else if c == b'R' then asked b else b)
unfolding parse_command set_pins raised asked
parse_command_lem c b = ground arith

-- Room for `left` bits behind the first `n`, all of it clear.
abbrev pub Room : List ℕ → ℕ → ℕ → Type 0
Room bytes n left = (n + left ≤ 8 * length bytes) × ((j : ℕ) → n ≤ j → bit_at bytes j ≡ false)

pub Room-less : (bytes : List ℕ) (n left : ℕ) → Room bytes n (suc left) → Room bytes n left
Room-less bytes n left (fits, clear) = (omega arith, clear)

abbrev pub Appends : List ℕ → ℕ → ℕ → Bool → Type 0
Appends bytes n left v =
    (bits_from (or_bit bytes n v) 0 (n + 1) ≡ bits_from bytes 0 n ++ v ∷ [])
    × Room (or_bit bytes n v) (n + 1) left

-- A bit put there is the next one, and there is room for one less.
pub or_bit-Appends :
    (bytes : List ℕ) (n left : ℕ) (v : Bool) → Room bytes n (suc left) → Appends bytes n left v
or_bit-Appends bytes n left v (fits, clear) = (
  bits_from-snoc (or_bit bytes n v) 0 n
      ∙ ap₂ (λ xs x. xs ++ x ∷ [])
          (bits_from_ext (or_bit bytes n v) bytes 0 0 n (λ k h. before k h)) last,
  (omega (arith, length-or_bit bytes n v), λ j h. ground (arith, put j, clear j (omega arith))),
)
  where
    put :
        (j : ℕ)
        → bit_at (or_bit bytes n v) j ≡ (if n == j then bit_at bytes j || v else bit_at bytes j)
    put j = bit_at-or_bit bytes n j v (omega arith)

    before : (k : ℕ) → k < n → bit_at (or_bit bytes n v) (0 + k) ≡ bit_at bytes (0 + k)
    before k h = put (0 + k) ∙ ground arith

    last : bit_at (or_bit bytes n v) (0 + n) ≡ v
    last = rw (zero-add n) (put n ∙ ground (arith, clear n (omega arith)))

pub asks_edge :
    (n c : ℕ) (cs : List ℕ) → raises c ≡ true → asks n (c ∷ cs) ≡ (not (n == 0) && asks (n - 1) cs)
asks_edge zero c cs e = ground arith
asks_edge (suc n) c cs e = ground arith

pub asks_read :
    (n c : ℕ) (cs : List ℕ) → (c == b'R') ≡ true → asks n (c ∷ cs) ≡ (n == 0 || asks n cs)
asks_read zero c cs e = ground arith
asks_read (suc n) c cs e = ground arith

pub asks_other :
    (n c : ℕ) (cs : List ℕ) → raises c ≡ false → (c == b'R') ≡ false → asks n (c ∷ cs) ≡ asks n cs
asks_other zero c cs e f = ground arith
asks_other (suc n) c cs e f = ground arith

pub marks_edge :
    (i j : ℕ) (a : ℕ → Bool)
    → (leb (i + 1) j && a (j - (i + 1))) ≡ (leb i j && (not (j - i == 0) && a (j - i - 1)))
marks_edge i j a = rw same (ground arith)
  where
    same : j - (i + 1) ≡ j - i - 1
    same = omega arith

pub marks_read :
    (i j : ℕ) (x y : Bool)
    → ((if i == j then x || true else x) || (leb i j && y)) ≡ (x || (leb i j && (j - i == 0 || y)))
marks_read i j true y = ground arith
marks_read i j false y = ground arith

pub marks_start : (j : ℕ) (a : ℕ → Bool) → (false || (leb 0 j && a (j - 0))) ≡ a j
marks_start j a = rw same (ground arith)
  where
    same : j - 0 ≡ j
    same = omega arith

-- What `commands` add to `b` to make `r`.
