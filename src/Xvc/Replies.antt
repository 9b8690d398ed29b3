-- ===== src/Xvc/Replies.antt =====
-- What the server reads back of a shift, and the bytes that it is answered with: the specification of
-- the answers.
use native.Mathlib.Nat.{zero-add}
use jtag_remote_server.Base.{
  ℕ, zero, suc, ◌+◌, ◌-◌, ◌*◌, ◌/◌, ◌%◌, ◌≤◌, ◌<◌, ◌≡◌, refl, sym, ap, ap₂, ◌∙◌, Bool, true, false,
  some, List, [], ◌∷◌, ◌++◌, arith, length, replicate, get_or-append, length-replicate,
  append_assoc, bit_at, test_bit, bits_from, bits_from-add, bits_from_ext,
}
use jtag_remote_server.World.{World, Net}
use jtag_remote_server.Jtag.{Driver, jtag_scan_chain_recv}
use jtag_remote_server.Bitbang.{Region, region_length}
use jtag_remote_server.Bitbang.Copy.{buffer_size, zeros-bit_at}
use jtag_remote_server.Xvc.Commands.{ShiftCommand}
use jtag_remote_server.Xvc.Answers.{paste_bits}
use jtag_remote_server.Xvc.Paste.{bit_at-paste_bits}
use jtag_remote_server.Xvc.Step.{Joined}

module _ (d : Driver) where
  -- The TDO bits of some regions: of a TMS region zeros, of a data region what the adapter gives when it
  -- is asked for as many bits, one region after the other.
  pub data Reads : List Region → World → List Bool → World → Type 0 where
    no_region : {w : World} → Reads [] w [] w
    walked :
        {r : Region} {rs : List Region} {w w' : World} {bits : List Bool}
        → r.is_tms ≡ true
        → Reads rs w bits w'
        → Reads (r ∷ rs) w (replicate (region_length r) false ++ bits) w'
    shifted :
        {r : Region} {rs : List Region} {w w1 w' : World} {buffer : List ℕ} {bits : List Bool}
        → r.is_tms ≡ false
        → jtag_scan_chain_recv d (replicate buffer_size 0) (region_length r) r.flip_tms w
          ≡ some ((true, buffer), w1)
        → Reads rs w1 bits w'
        → Reads (r ∷ rs) w (bits_from buffer 0 (region_length r) ++ bits) w'

  -- The answers to some shifts: of each, the bits that are read of its regions, and zeros up to whole
  -- bytes, sent before the next is read.
  pub data Replies : List ShiftCommand → World → List ℕ → World → Type 0 where
    no_shift : {w : World} → Replies [] w [] w
    next_shift :
        {c : ShiftCommand} {cs : List ShiftCommand} {w w1 w' : World} {net : Net} {bits : List Bool}
        {rest : List ℕ} (answer : List ℕ)
        → Reads c.regions w bits w1
        → length answer ≡ c.bytes
        → bits_from answer 0 (8 * c.bytes) ≡ bits ++ replicate (8 * c.bytes - c.bits) false
        → net.sent ≡ w.net.sent ++ answer
        → Replies cs (record w1 { net = net }) rest w'
        → Replies (c ∷ cs) w (answer ++ rest) w'

pub Joined-le : (rs : List Region) (i n : ℕ) → Joined rs i n → i ≤ n
Joined-le [] i n e = omega (arith, e)
Joined-le (r ∷ rs) i n (e, some_bits, rest) = omega (arith, e, some_bits, Joined-le rs r.end n rest)

bits_from_zeros :
    (bytes : List ℕ) (i n : ℕ)
    → ((j : ℕ) → i ≤ j → j < i + n → bit_at bytes j ≡ false)
    → bits_from bytes i n ≡ replicate n false
unfolding bits_from
bits_from_zeros bytes i zero zeros = refl
bits_from_zeros bytes i (suc n) zeros =
    ap₂ ◌∷◌ (zeros i (omega arith) (omega arith))
      (bits_from_zeros bytes (i + 1) n (λ j above below. zeros j (omega arith) (omega arith)))

pub cleared_zeros : (n j : ℕ) (rest : List ℕ) → j < 8 * n → bit_at (replicate n 0 ++ rest) j ≡ false
unfolding bit_at
cleared_zeros n j rest below =
    ap (λ b. test_bit b (j % 8))
      (get_or-append (replicate n 0) rest (j / 8) 0 (omega (arith, length-replicate {A = ℕ} n 0)))
    ∙ zeros-bit_at n j

-- From bit `i` on, the first `size` bytes are clear.
abbrev pub Clear : List ℕ → ℕ → ℕ → Type 0
Clear tdo i size = (j : ℕ) → i ≤ j → j < 8 * size → bit_at tdo j ≡ false

-- What the bytes hold if bits stand behind those below `i`, and zeros behind these.
abbrev pub Filled : List ℕ → List ℕ → ℕ → ℕ → ℕ → List Bool → Type 0
Filled out tdo i n size bits =
    bits_from out 0 (8 * size) ≡ bits_from tdo 0 i ++ (bits ++ replicate (8 * size - n) false)

pub Filled-nil :
    (tdo : List ℕ) (n size : ℕ) → n ≤ 8 * size → Clear tdo n size → Filled tdo tdo n n size []
Filled-nil tdo n size inside clear =
    ap (bits_from tdo 0) whole
    ∙ bits_from-add tdo 0 n (8 * size - n)
    ∙ ap (λ t. bits_from tdo 0 n ++ t)
        (ap (λ k. bits_from tdo k (8 * size - n)) (zero-add n)
          ∙ bits_from_zeros tdo n (8 * size - n)
              (λ j above below. clear j above (omega (arith, inside))))
  where
    whole : 8 * size ≡ n + (8 * size - n)
    whole = omega (arith, inside)

-- The bits of one region in front of those of the others.
Filled-cons :
    (out tdo1 tdo : List ℕ) (r : Region) (i n size : ℕ) (new bits : List Bool)
    → bits_from tdo1 0 r.end ≡ bits_from tdo 0 i ++ new
    → Filled out tdo1 r.end n size bits
    → Filled out tdo i n size (new ++ bits)
Filled-cons out tdo1 tdo r i n size new bits e filled =
    filled
    ∙ ap (λ t. t ++ (bits ++ replicate (8 * size - n) false)) e
    ∙ append_assoc (bits_from tdo 0 i) new _
    ∙ ap (λ t. bits_from tdo 0 i ++ t) (sym (append_assoc new bits _))

pub Filled-walked :
    (out tdo : List ℕ) (r : Region) (i n size : ℕ) (bits : List Bool)
    → r.begin ≡ i
    → r.begin < r.end
    → r.end ≤ 8 * size
    → Clear tdo i size
    → Filled out tdo r.end n size bits
    → Filled out tdo i n size (replicate (region_length r) false ++ bits)
Filled-walked out tdo r i n size bits e some_bits inside clear =
    Filled-cons out tdo tdo r i n size (replicate (region_length r) false) bits (
      ap (bits_from tdo 0) whole
      ∙ bits_from-add tdo 0 i (r.end - r.begin)
      ∙ ap (λ t. bits_from tdo 0 i ++ t)
          (ap (λ k. bits_from tdo k (r.end - r.begin)) (zero-add i)
            ∙ bits_from_zeros tdo i (r.end - r.begin)
                (λ j above below. clear j above (omega (arith, e, some_bits, inside)))))
  where
    whole : r.end ≡ i + (r.end - r.begin)
    whole = omega (arith, e, some_bits)

-- The bits of a data region, pasted.
abbrev pub pasted : List ℕ → Region → List ℕ → List ℕ
pasted buffer r tdo = paste_bits buffer r.begin 0 (region_length r) tdo

pub Clear-pasted :
    (buffer : List ℕ) (r : Region) (tdo : List ℕ) (size : ℕ)
    → r.begin < r.end
    → r.end ≤ 8 * size
    → size ≤ length tdo
    → Clear tdo r.begin size
    → Clear (pasted buffer r tdo) r.end size
Clear-pasted buffer r tdo size some_bits inside room clear j above below =
    bit_at-paste_bits buffer r.begin 0 (r.end - r.begin) tdo j
      (omega (arith, some_bits, inside, room))
    ∙ ground (arith, some_bits, clear j (omega (arith, some_bits, above)) below)

pub Filled-pasted :
    (buffer : List ℕ) (out tdo : List ℕ) (r : Region) (i n size : ℕ) (bits : List Bool)
    → r.begin ≡ i
    → r.begin < r.end
    → r.end ≤ 8 * size
    → size ≤ length tdo
    → Clear tdo i size
    → Filled out (pasted buffer r tdo) r.end n size bits
    → Filled out tdo i n size (bits_from buffer 0 (region_length r) ++ bits)
Filled-pasted buffer out tdo r i n size bits e some_bits inside room clear =
    Filled-cons out (pasted buffer r tdo) tdo r i n size _ bits (
      ap (bits_from (pasted buffer r tdo) 0) whole
      ∙ bits_from-add (pasted buffer r tdo) 0 i (r.end - r.begin)
      ∙ ap₂ ◌++◌ (bits_from_ext (pasted buffer r tdo) tdo 0 0 i before)
          (bits_from_ext (pasted buffer r tdo) buffer (0 + i) 0 (r.end - r.begin) region))
  where
    whole : r.end ≡ i + (r.end - r.begin)
    whole = omega (arith, e, some_bits)

    fits : r.begin + 0 + (r.end - r.begin) ≤ 8 * length tdo
    fits = omega (arith, some_bits, inside, room)

    before : (k : ℕ) → k < i → bit_at (pasted buffer r tdo) (0 + k) ≡ bit_at tdo (0 + k)
    before k below =
        bit_at-paste_bits buffer r.begin 0 (r.end - r.begin) tdo (0 + k) fits ∙ ground (arith, e)

    region :
        (k : ℕ)
        → k < r.end - r.begin
        → bit_at (pasted buffer r tdo) (0 + i + k) ≡ bit_at buffer (0 + k)
    region k below =
        bit_at-paste_bits buffer r.begin 0 (r.end - r.begin) tdo (0 + i + k) fits
        ∙ ground (
          arith,
          e,
          below,
          clear (0 + i + k) (omega arith) (omega (arith, e, inside)),
          ap (bit_at buffer) (back k),
        )
      where
        back : (k : ℕ) → 0 + i + k - r.begin ≡ 0 + k
        back k = omega (arith, e)
