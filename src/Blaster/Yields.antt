-- ===== src/Blaster/Yields.antt =====
-- What an operation of the USB Blaster driver writes and reads, if it succeeds.
use native.Mathlib.Nat.{add-zero}
use jtag_remote_server.Base.{
  ℕ, zero, suc, ◌+◌, ◌-◌, ◌≤◌, ◌≡◌, refl, sym, ap, ◌∙◌, Bool, true, false, Option, none, some, List,
  [], ◌++◌, arith, if◌then◌else◌, ==_iff, leb, ltb, length, length-append, take_all, append_assoc,
  append-nil, Bool-cases, Option-cases, inl, inr,
}
use jtag_remote_server.Tap.{JtagState}
use jtag_remote_server.World.{Ftdi, World, M, pure, modify, or_fail, ◌>>=◌, ◌>>◌}
use jtag_remote_server.Ftdi.{ftdi_write_retry, read_loop, ftdi_read_retry}
use jtag_remote_server.Ftdi.Retry.{IsHonest, ftdi_write_retry_delivers}
use jtag_remote_server.Blaster.{recv_length, read_immediately}

-- From `w` an operation came to `w'`. On success the device has taken `bytes` more, `n` bytes more are
-- received, and the controller is in state `t`.
pub record Wrote (bytes : List ℕ) (n : ℕ) (t : JtagState) (w : World) (ok : Bool) (w' : World)
    : Type 0 where
  pub sent : ok ≡ true → w'.ftdi.wire ≡ w.ftdi.wire ++ bytes
  pub received : ok ≡ true → length w'.recv_buffer ≡ length w.recv_buffer + n
  pub arrived : ok ≡ true → w'.state ≡ t
  pub same_device : w'.ftdi.write_data ≡ w.ftdi.write_data

-- The operation returns, and does so.
abbrev pub Yields : List ℕ → ℕ → JtagState → World → Option (Bool × World) → Type 0
Yields bytes n t w none = ⊥
Yields bytes n t w (some (ok, w')) = Wrote bytes n t w ok w'

pub Yields-nil : (w : World) → Yields [] 0 w.state w (some (true, w))
Yields-nil w = record {
  sent = λ h. sym (append-nil w.ftdi.wire);
  received = λ h. sym (add-zero _);
  arrived = λ h. refl;
  same_device = refl;
}

Wrote-trans :
    {bytes more : List ℕ} {m n : ℕ} {s t : JtagState} {w w' w'' : World} {ok : Bool}
    → Wrote bytes m s w true w'
    → Wrote more n t w' ok w''
    → Wrote (bytes ++ more) (m + n) t w ok w''
Wrote-trans {bytes} {more} {w = w} a b = record {
  sent = λ h. b.sent h ∙ ap (λ x. x ++ more) (a.sent refl) ∙ append_assoc w.ftdi.wire bytes more;
  received = λ h. omega (arith, a.received refl, b.received h);
  arrived = b.arrived;
  same_device = b.same_device ∙ a.same_device;
}

Wrote-fails :
    {bytes more : List ℕ} {m n : ℕ} {s t : JtagState} {w w' : World}
    → Wrote bytes m s w false w'
    → Wrote more n t w false w'
Wrote-fails a = record {
  sent = λ h. cc;
  received = λ h. cc;
  arrived = λ h. cc;
  same_device = a.same_device;
}

pub Yields-or_fail :
    (bytes more : List ℕ) (m n : ℕ) (s t : JtagState) (first second : M Bool) (w : World)
    → Yields bytes m s w (first w)
    → ((w' : World) → Wrote bytes m s w true w' → Yields more n t w' (second w'))
    → Yields (bytes ++ more) (m + n) t w (or_fail first second w)
Yields-or_fail bytes more m n s t first second w a later = go (first w) a
  where
    go :
        (r : Option (Bool × World))
        → Yields bytes m s w r
        → Yields (bytes ++ more) (m + n) t w (or_fail (λ v. r) second w)
    go none h = h
    go (some (false, w')) h = Wrote-fails h
    go (some (true, w')) h = join (second w') (later w' h)
      where
        join :
            (q : Option (Bool × World))
            → Yields more n t w' q
            → Yields (bytes ++ more) (m + n) t w q
        join none f = f
        join (some (ok, w'')) f = Wrote-trans h f

pub write-Yields :
    (bytes : List ℕ) (n : ℕ) (w : World)
    → IsHonest w.ftdi
    → length bytes ≡ n
    → Yields bytes 0 w.state w (ftdi_write_retry bytes n w)
write-Yields bytes n w honest size =
    let d = ftdi_write_retry_delivers bytes n w honest in
    rw d.returns (record {
      sent = λ h.
          d.wire
          ∙ ap (λ x. w.ftdi.wire ++ x) (take_all d.to bytes (omega (arith, d.all.0 h, size)));
      received = λ h. sym (add-zero _);
      arrived = λ h. refl;
      same_device = d.same_device;
    })

-- A read changes nothing on the wire, and on success has the bytes asked for.
read_loop_lem :
    (retry len : ℕ) (got : List ℕ) (dev : Ftdi)
    → ((read_loop retry len got dev).2.wire ≡ dev.wire)
      × ((read_loop retry len got dev).2.write_data ≡ dev.write_data)
      × ((read_loop retry len got dev).0 ≡ true → length (read_loop retry len got dev).1 ≡ len)
unfolding read_loop
read_loop_lem zero len got dev = (refl, refl, (==_iff (length got) len).0)
read_loop_lem (suc retry) len got dev = elim (Bool-cases (ltb (length got) len)) [
  | inl e ↦
      rw (e, read_loop)
        (elim (Option-cases (dev.read_data dev.calls (len - length got))) [
          | inl h ↦ rw (h, read_loop) (refl, refl, λ f. cc)
          | inr (bytes, h) ↦
              rw (h, read_loop)
                (read_loop_lem retry len (got ++ bytes) (record dev { calls = dev.calls + 1 }))
        ])
  | inr e ↦ rw (e, read_loop) (refl, refl, (==_iff (length got) len).0)
]

pub read_immediately-Yields :
    (do_read : Bool) (trans : ℕ) (w : World)
    → length w.recv_buffer + trans ≤ recv_length
    → Yields [] (if do_read then trans else 0) w.state w (read_immediately do_read trans w)
unfolding read_immediately ftdi_read_retry
read_immediately-Yields false trans w room = Yields-nil w
read_immediately-Yields true trans w room =
    let (wire, same, size) = read_loop_lem 100 trans [] w.ftdi in
    rw (◌>>=◌, fits) (finish (read_loop 100 trans [] w.ftdi) wire same size)
  where
    fits : leb (length w.recv_buffer + trans) recv_length ≡ true
    fits = ground arith

    finish :
        (r : Bool × List ℕ × Ftdi)
        → r.2.wire ≡ w.ftdi.wire
        → r.2.write_data ≡ w.ftdi.write_data
        → (r.0 ≡ true → length r.1 ≡ trans)
        → Yields [] trans w.state w (
            (if r.0
                then (do modify (λ v. record v { recv_buffer = v.recv_buffer ++ r.1 }); pure true)
                else pure false)
              (record w { ftdi = r.2 }))
    finish (true, got, dev) wire same size = record {
      sent = λ h. wire ∙ sym (append-nil w.ftdi.wire);
      received = λ h. omega (arith, length-append w.recv_buffer got, size refl);
      arrived = λ h. refl;
      same_device = same;
    }
    finish (false, got, dev) wire same size = record {
      sent = λ h. cc;
      received = λ h. cc;
      arrived = λ h. cc;
      same_device = same;
    }
