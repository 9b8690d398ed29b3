-- ===== src/Mpsse/Ensures.antt =====
-- What an operation of the MPSSE adapter adds to the stream of commands: the bytes that the chip
-- has taken, followed by those in the buffer.
use jtag_remote_server.Base.{
  ℕ, ◌+◌, ◌≤◌, ◌<◌, ◌≡◌, inl, inr, refl, sym, ap, ◌∙◌, Bool, true, false, Option, none, some, List,
  [], ◌∷◌, ◌++◌, arith, ◌==◌, leb, Bool-cases, length, length-append, take_all, append_assoc,
  append-nil,
}
use jtag_remote_server.Tap.{JtagState}
use jtag_remote_server.World.{World, M, or_fail, ◌>>=◌}
use jtag_remote_server.Ftdi.Retry.{IsHonest, IsSteady, ftdi_write_retry_delivers}
use jtag_remote_server.Mpsse.Buffer.{buffer_length, mpsse_buffer_flush, mpsse_buffer_ensure_space}

abbrev pub stream : World → List ℕ
stream w = w.ftdi.wire ++ w.mpsse_buffer

-- From `w` an operation came to `w'` with result `ok`. On success it has appended `bytes` to the
-- stream and the controller is in state `t`; on failure the commands still in the buffer are lost.
pub record Sent (bytes : List ℕ) (t : JtagState) (w : World) (ok : Bool) (w' : World) : Type 0 where
  pub sent : ok ≡ true → stream w' ≡ stream w ++ bytes
  pub arrived : ok ≡ true → w'.state ≡ t
  pub same_device : w'.ftdi.write_data ≡ w.ftdi.write_data
  pub same_reads : w'.ftdi.read_data ≡ w.ftdi.read_data
  pub same_count : w'.bits_send ≡ w.bits_send
  pub succeeds : IsSteady 82 w.ftdi → length w.mpsse_buffer ≤ buffer_length → ok ≡ true
  pub in_bounds : length w.mpsse_buffer ≤ buffer_length → length w'.mpsse_buffer ≤ buffer_length

-- The operation returns, and does so.
abbrev pub Ensures : List ℕ → JtagState → World → Option (Bool × World) → Type 0
Ensures bytes t w none = ⊥
Ensures bytes t w (some (ok, w')) = Sent bytes t w ok w'

pub Sent-nil : (w : World) → Sent [] w.state w true w
Sent-nil w = record {
  sent = λ h. sym (append-nil (stream w));
  arrived = λ h. refl;
  same_device = refl;
  same_reads = refl;
  same_count = refl;
  succeeds = λ s h. refl;
  in_bounds = λ h. h;
}

lt→not_leb : (a b : ℕ) → b < a → leb a b ≡ false
lt→not_leb a b h = ground arith

-- An empty buffer afterwards, on both ways.
pub flush_empties :
    (w : World)
    → IsHonest w.ftdi
    → (ok : Bool) × (w' : World) × (mpsse_buffer_flush w ≡ some (ok, w'))
      × Sent [] w.state w ok w'
      × (w'.mpsse_buffer ≡ [])
unfolding mpsse_buffer_flush
flush_empties w honest = elim (Bool-cases (length w.mpsse_buffer == 0)) [
  | inl e ↦ (true, w, rw e, Sent-nil w, nothing w.mpsse_buffer e)
  | inr e ↦
      let d = ftdi_write_retry_delivers w.mpsse_buffer (length w.mpsse_buffer) w honest in
      (
        d.ok,
        record w { ftdi = d.dev; mpsse_buffer = [] },
        rw e (rw (d.returns, ◌>>=◌)),
        record {
          sent = λ h.
              append-nil d.dev.wire
              ∙ d.wire
              ∙ ap (λ x. w.ftdi.wire ++ x) (take_all d.to w.mpsse_buffer (omega (arith, d.all.0 h)))
              ∙ sym (append-nil (stream w));
          arrived = λ h. refl;
          same_device = d.same_device;
          same_reads = d.same_reads;
          same_count = refl;
          succeeds = λ steady small. d.succeeds steady (omega arith);
          in_bounds = λ h. omega arith;
        },
        refl,
      )
]
  where
    nothing : (xs : List ℕ) → (length xs == 0) ≡ true → xs ≡ []
    nothing [] h = refl
    nothing (x ∷ xs) h = absurd (ground arith)

-- If `ensure_space` reports success, there is room for `num_bytes`.
pub ensure_space_makes_room :
    (n : ℕ) (w : World)
    → IsHonest w.ftdi
    → n < buffer_length
    → (ok : Bool) × (w' : World) × (mpsse_buffer_ensure_space n w ≡ some (ok, w'))
      × Sent [] w.state w ok w'
      × (ok ≡ true → length w'.mpsse_buffer + n ≤ buffer_length)
unfolding mpsse_buffer_ensure_space
ensure_space_makes_room n w honest fits =
    rw (lt→not_leb buffer_length n fits) (elim (Bool-cases (leb 2048 (length w.mpsse_buffer + n))) [
      | inl e ↦
          let (ok, w', returns, sent, empty) = flush_empties w honest in
          (ok, w', rw e returns, sent, λ h. omega (arith, ap length empty))
      | inr e ↦ (true, w, rw e, Sent-nil w, λ h. ground arith)
    ])

pub Sent-trans :
    {bytes more : List ℕ} {s t : JtagState} {w w' w'' : World} {ok : Bool}
    → Sent bytes s w true w'
    → Sent more t w' ok w''
    → Sent (bytes ++ more) t w ok w''
Sent-trans {bytes} {more} {w = w} {w' = w'} a b = record {
  sent = λ h. b.sent h ∙ ap (λ x. x ++ more) (a.sent refl) ∙ append_assoc (stream w) bytes more;
  arrived = b.arrived;
  same_device = b.same_device ∙ a.same_device;
  same_reads = b.same_reads ∙ a.same_reads;
  same_count = b.same_count ∙ a.same_count;
  succeeds = λ steady small. b.succeeds (rw a.same_device steady) (a.in_bounds small);
  in_bounds = λ h. b.in_bounds (a.in_bounds h);
}

-- A failure stays one, whatever was to follow.
pub Sent-fails :
    {bytes more : List ℕ} {s t : JtagState} {w w' : World}
    → Sent bytes s w false w'
    → Sent more t w false w'
Sent-fails a = record {
  sent = λ h. cc;
  arrived = λ h. cc;
  same_device = a.same_device;
  same_reads = a.same_reads;
  same_count = a.same_count;
  succeeds = a.succeeds;
  in_bounds = a.in_bounds;
}

-- Two operations in a row, the second only if the first succeeds.
pub Ensures-or_fail :
    (bytes more : List ℕ) (s t : JtagState) (m k : M Bool) (w : World)
    → Ensures bytes s w (m w)
    → ((w' : World) → Sent bytes s w true w' → Ensures more t w' (k w'))
    → Ensures (bytes ++ more) t w (or_fail m k w)
Ensures-or_fail bytes more s t m k w first second = go (m w) first
  where
    go :
        (r : Option (Bool × World))
        → Ensures bytes s w r
        → Ensures (bytes ++ more) t w (or_fail (λ v. r) k w)
    go none h = h
    go (some (false, w')) h = Sent-fails h
    go (some (true, w')) h = later (k w') (second w' h)
      where
        later : (q : Option (Bool × World)) → Ensures more t w' q → Ensures (bytes ++ more) t w q
        later none f = f
        later (some (ok, w'')) f = Sent-trans h f

-- Bytes that fit are appended at once.
pub Sent-append :
    (bytes : List ℕ) (w : World)
    → length w.mpsse_buffer + length bytes ≤ buffer_length
    → Sent bytes w.state w true (record w { mpsse_buffer = w.mpsse_buffer ++ bytes })
Sent-append bytes w fits = record {
  sent = λ h. sym (append_assoc w.ftdi.wire w.mpsse_buffer bytes);
  arrived = λ h. refl;
  same_device = refl;
  same_reads = refl;
  same_count = refl;
  succeeds = λ s h. refl;
  in_bounds = λ h. omega (arith, length-append w.mpsse_buffer bytes);
}
