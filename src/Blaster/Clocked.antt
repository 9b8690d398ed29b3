-- ===== src/Blaster/Clocked.antt =====
-- What an operation of the USB Blaster driver writes, and the clock cycles that it stands for.
use jtag_remote_server.Base.{
  ℕ, ◌+◌, ◌≤◌, ◌≡◌, refl, subst, Bool, true, false, List, [], ◌++◌, arith, if◌then◌else◌, length,
  bits_from,
}
use jtag_remote_server.Tap.{JtagState}
use jtag_remote_server.World.{World, M, pure, or_fail}
use jtag_remote_server.Ftdi.{ftdi_write_retry}
use jtag_remote_server.Ftdi.Retry.{IsHonest}
use jtag_remote_server.Mpsse.Engine.{Pulse}
use jtag_remote_server.Blaster.{recv_length, read_immediately}
use jtag_remote_server.Blaster.Pins.{Drives, Drives-nil, Drives-append}
use jtag_remote_server.Blaster.Yields.{
  Yields, Yields-nil, Yields-or_fail, write-Yields, read_immediately-Yields,
}

-- Clock cycles that the bytes written stand for, and what the operation does with them. `n` bits are
-- received if they are read.
pub record Clocks (m : M Bool) (ps : List Pulse) (a b : Bool) (n : ℕ) (step : JtagState → JtagState)
    : Type 0 where
  pub stream : List ℕ
  pub drives : Drives a stream ps b
  pub yields :
      (w : World)
      → IsHonest w.ftdi
      → length w.recv_buffer + n ≤ recv_length
      → Yields stream n (step w.state) w (m w)

unfoldable pub stay : JtagState → JtagState
stay s = s

pub no_bits : (bytes : List ℕ) (i : ℕ) → bits_from bytes i 0 ≡ []
unfolding bits_from
no_bits bytes i = refl

pub Clocks-nil : (tms : Bool) → Clocks (pure true) [] tms tms 0 stay
unfolding stay
Clocks-nil tms = record {
  stream = [];
  drives = Drives-nil tms;
  yields = λ w honest room. Yields-nil w;
}

pub Clocks-or_fail :
    {first second : M Bool} {ps qs : List Pulse} {a b c : Bool} {m n : ℕ}
    {f : JtagState → JtagState}
    → Clocks first ps a b m stay
    → Clocks second qs b c n f
    → Clocks (or_fail first second) (ps ++ qs) a c (m + n) f
unfolding stay
Clocks-or_fail {first} {second} {m = m} {n = n} {f = f} x y = record {
  stream = x.stream ++ y.stream;
  drives = Drives-append x.drives y.drives;
  yields = λ w honest room.
      Yields-or_fail x.stream y.stream m n w.state (f w.state) first second w
        (x.yields w honest (omega arith))
        λ w' wrote.
          subst (λ s. Yields y.stream n (f s) w' (second w')) (wrote.arrived refl)
            (y.yields w' (rw wrote.same_device honest) (omega (arith, wrote.received refl)));
}

pub read_Clocks :
    (do_read : Bool) (trans : ℕ) (tms : Bool)
    → Clocks (read_immediately do_read trans) [] tms tms (if do_read then trans else 0) stay
unfolding stay read_immediately
read_Clocks true trans tms = record {
  stream = [];
  drives = Drives-nil tms;
  yields = λ w honest room. read_immediately-Yields true trans w room;
}
read_Clocks false trans tms = record {
  stream = [];
  drives = Drives-nil tms;
  yields = λ w honest room. Yields-nil w;
}

pub write_Clocks :
    (bytes : List ℕ) (n : ℕ) (ps : List Pulse) (a b : Bool)
    → length bytes ≡ n
    → Drives a bytes ps b
    → Clocks (ftdi_write_retry bytes n) ps a b 0 stay
unfolding stay
write_Clocks bytes n ps a b size drives = record {
  stream = bytes;
  drives = drives;
  yields = λ w honest room. write-Yields bytes n w honest size;
}

pub Clocks-cast :
    {m k : M Bool} {ps qs : List Pulse} {a b : Bool} {i j : ℕ} {f : JtagState → JtagState}
    → ((w : World) → m w ≡ k w)
    → ps ≡ qs
    → i ≡ j
    → Clocks k ps a b i f
    → Clocks m qs a b j f
Clocks-cast {f = f} same e size c = record {
  stream = c.stream;
  drives = rw (← e) c.drives;
  yields = λ w honest room. rw (same w, ← size) (c.yields w honest (omega (arith, size)));
}
