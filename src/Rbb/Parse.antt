-- ===== src/Rbb/Parse.antt =====
-- What the command loop of `jtag_rbb_tick` gathers: TMS and TDI at each rising edge, and the reads.
use native.Mathlib.Nat.{zero-add, add-zero}
use jtag_remote_server.Base.{
  ℕ, ◌+◌, ◌-◌, ◌*◌, ◌/◌, ◌≤◌, ◌≡◌, refl, sym, ap, subst, ◌∙◌, true, false, ◌&&◌, ◌||◌, List, [],
  ◌∷◌, ◌++◌, arith, if◌then◌else◌, ◌==◌, leb, length, replicate, length-replicate, bit_at,
  length-or_bit, bit_at-or_bit, bits_from, Bool-cases, inl, inr, append_assoc, append-nil,
}
use jtag_remote_server.Bitbang.Copy.{zeros-bit_at}
use jtag_remote_server.Rbb.{Batch, parse_command, parse_commands, parse}
use jtag_remote_server.Rbb.Edges.{
  raises, tms_pin, tdi_pin, edges, reads, reads, asks, asks, raised, asked, parse_command_lem, Room,
  Room-less, Appends, or_bit-Appends, asks_edge, asks_edge, asks_read, asks_read, asks_other,
  asks_other, marks_edge, marks_read, marks_start,
}

record Gathered (commands : List ℕ) (b r : Batch) : Type 0 where
  tms : bits_from r.tms_input 0 r.bits ≡ bits_from b.tms_input 0 b.bits ++ edges tms_pin commands
  tdi : bits_from r.tdi_input 0 r.bits ≡ bits_from b.tdi_input 0 b.bits ++ edges tdi_pin commands
  marks :
      (j : ℕ)
      → bit_at r.read_input j
        ≡ (bit_at b.read_input j || (leb b.bits j && asks (j - b.bits) commands))
  count : r.read_bits ≡ b.read_bits + reads commands
  few : r.bits ≤ b.bits + length commands

abbrev HasRoom : List ℕ → Batch → Type 0
HasRoom commands b =
    Room b.tms_input b.bits (length commands)
    × Room b.tdi_input b.bits (length commands)
    × (b.bits + length commands ≤ 8 * length b.read_input)

gathers_edge :
    (c : ℕ) (cs : List ℕ) (b r : Batch)
    → raises c ≡ true
    → HasRoom (c ∷ cs) b
    → (HasRoom cs (raised c b) → Gathered cs (raised c b) r)
    → Gathered (c ∷ cs) b r
unfolding raised
gathers_edge c cs b r e (tms, tdi, room) later = record {
  tms = rest.tms ∙ rw (e, put_tms.0) (append_assoc _ (tms_pin c ∷ []) _);
  tdi = rest.tdi ∙ rw (e, put_tdi.0) (append_assoc _ (tdi_pin c ∷ []) _);
  marks = λ j.
      rest.marks j
      ∙ rw (asks_edge (j - b.bits) c cs e)
          (ap (λ x. bit_at b.read_input j || x) (marks_edge b.bits j (λ k. asks k cs)));
  count = ground (arith, rest.count);
  few = omega (arith, rest.few);
}
  where
    put_tms : Appends b.tms_input b.bits (length cs) (tms_pin c)
    put_tms = or_bit-Appends b.tms_input b.bits (length cs) (tms_pin c) tms

    put_tdi : Appends b.tdi_input b.bits (length cs) (tdi_pin c)
    put_tdi = or_bit-Appends b.tdi_input b.bits (length cs) (tdi_pin c) tdi

    rest : Gathered cs (raised c b) r
    rest = later (put_tms.1, put_tdi.1, omega arith)

gathers_read :
    (c : ℕ) (cs : List ℕ) (b r : Batch)
    → raises c ≡ false
    → (c == b'R') ≡ true
    → HasRoom (c ∷ cs) b
    → (HasRoom cs (asked b) → Gathered cs (asked b) r)
    → Gathered (c ∷ cs) b r
unfolding asked
gathers_read c cs b r e f (tms, tdi, room) later = record {
  tms = rw e rest.tms;
  tdi = rw e rest.tdi;
  marks = λ j.
      rest.marks j
      ∙ rw (asks_read (j - b.bits) c cs f, bit_at-or_bit b.read_input b.bits j true (omega arith))
          (marks_read b.bits j (bit_at b.read_input j) (asks (j - b.bits) cs));
  count = ground (arith, rest.count);
  few = omega (arith, rest.few);
}
  where
    rest : Gathered cs (asked b) r
    rest = later (
      Room-less b.tms_input b.bits (length cs) tms,
      Room-less b.tdi_input b.bits (length cs) tdi,
      omega (arith, length-or_bit b.read_input b.bits true),
    )

gathers_other :
    (c : ℕ) (cs : List ℕ) (b r : Batch)
    → raises c ≡ false
    → (c == b'R') ≡ false
    → HasRoom (c ∷ cs) b
    → (HasRoom cs b → Gathered cs b r)
    → Gathered (c ∷ cs) b r
gathers_other c cs b r e f (tms, tdi, room) later = record {
  tms = rw e rest.tms;
  tdi = rw e rest.tdi;
  marks = λ j. rest.marks j ∙ rw (asks_other (j - b.bits) c cs e f) refl;
  count = ground (arith, rest.count);
  few = omega (arith, rest.few);
}
  where
    rest : Gathered cs b r
    rest = later (
      Room-less b.tms_input b.bits (length cs) tms,
      Room-less b.tdi_input b.bits (length cs) tdi,
      omega arith,
    )

gathers : (cs : List ℕ) (b : Batch) → HasRoom cs b → Gathered cs b (parse_commands cs b)
unfolding parse_commands
gathers [] b room = record {
  tms = sym (append-nil _);
  tdi = sym (append-nil _);
  marks = λ j. ground arith;
  count = sym (add-zero _);
  few = omega arith;
}
gathers (c ∷ cs) b room = elim (Bool-cases (raises c)) [
  | inl e ↦
      gathers_edge c cs b _ e room
        (λ h. became (raised c b) (rw e refl) (gathers cs (raised c b) h))
  | inr e ↦ elim (Bool-cases (c == b'R')) [
    | inl f ↦
        gathers_read c cs b _ e f room
          (λ h. became (asked b) (rw (e, f) refl) (gathers cs (asked b) h))
    | inr f ↦ gathers_other c cs b _ e f room (λ h. became b (rw (e, f) refl) (gathers cs b h))
  ]
]
  where
    became :
        (next : Batch)
        → (if raises c then raised c b else if c == b'R' then asked b else b) ≡ next
        → Gathered cs next (parse_commands cs next)
        → Gathered cs next (parse_commands cs (parse_command c b))
    became next e g =
        subst (λ x. Gathered cs next (parse_commands cs x)) (sym (parse_command_lem c b ∙ e)) g

-- The batch of `commands` holds the levels of TMS and of TDI at each rising edge, in order, a mark at
-- each edge count where a read stands, and the number of reads.
pub parse_collects :
    (commands : List ℕ)
    → let b = parse commands in
      (bits_from b.tms_input 0 b.bits ≡ edges tms_pin commands)
      × (bits_from b.tdi_input 0 b.bits ≡ edges tdi_pin commands)
      × ((j : ℕ) → bit_at b.read_input j ≡ asks j commands)
      × (b.read_bits ≡ reads commands)
      × (b.bits ≤ length commands)
unfolding parse bits_from
parse_collects commands = (
  all.tms,
  all.tdi,
  λ j.
      all.marks j
      ∙ rw (zeros-bit_at ((length commands + 7) / 8) j) (marks_start j (λ k. asks k commands)),
  all.count ∙ zero-add (reads commands),
  omega (arith, all.few),
)
  where
    zeros : List ℕ
    zeros = replicate ((length commands + 7) / 8) 0

    empty : Batch
    empty = record {
      tms_input = zeros;
      tdi_input = zeros;
      read_input = zeros;
      bits = 0;
      read_bits = 0;
    }

    room : 0 + length commands ≤ 8 * length zeros
    room = omega (arith, length-replicate {A = ℕ} ((length commands + 7) / 8) 0)

    all : Gathered commands empty (parse_commands commands empty)
    all = gathers commands empty (
      (room, λ j h. zeros-bit_at ((length commands + 7) / 8) j),
      (room, λ j h. zeros-bit_at ((length commands + 7) / 8) j),
      room,
    )
