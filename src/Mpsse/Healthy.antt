-- ===== src/Mpsse/Healthy.antt =====
-- The worlds in which the MPSSE driver works, and its writes in them.
use jtag_remote_server.Base.{
  ℕ, ◌+◌, ◌≤◌, ◌≡◌, refl, ap, ◌∙◌, Bool, true, false, Option, none, some, List, if◌then◌else◌,
  length,
}
use jtag_remote_server.Tap.{JtagState}
use jtag_remote_server.World.{Ftdi, World, M, pure, or_fail, ◌>>=◌}
use jtag_remote_server.Ftdi.{ftdi_write_retry}
use jtag_remote_server.Ftdi.Retry.{IsHonest, IsSteady, ftdi_write_retry_delivers}
use jtag_remote_server.Mpsse.Buffer.{buffer_length, mpsse_buffer_flush}
use jtag_remote_server.Mpsse.Ensures.{Ensures, Sent, flush_empties}

-- A device that gives as many bytes as it is asked for.
abbrev pub IsServing : Ftdi → Type 0
IsServing dev = (k n : ℕ) → (bytes : List ℕ) × (dev.read_data k n ≡ some bytes) × (length bytes ≡ n)

-- The worlds in which the driver works.
pub record Healthy (w : World) : Type 0 where
  pub honest : IsHonest w.ftdi
  pub steady : IsSteady 82 w.ftdi
  pub serving : IsServing w.ftdi
  pub in_bounds : length w.mpsse_buffer ≤ buffer_length

pub Healthy-Sent :
    {bytes : List ℕ} {t : JtagState} {w w' : World} {ok : Bool}
    → Healthy w
    → Sent bytes t w ok w'
    → Healthy w'
Healthy-Sent p s = record {
  honest = rw s.same_device p.honest;
  steady = rw s.same_device p.steady;
  serving = rw s.same_reads p.serving;
  in_bounds = s.in_bounds p.in_bounds;
}

-- The operation returns true and the world stays healthy.
abbrev pub Works : M Bool → World → Type 0
Works m w = (w' : World) × (m w ≡ some (true, w')) × Healthy w'

pub Works-Ensures :
    (bytes : List ℕ) (t : JtagState) (w : World) (m : M Bool)
    → Healthy w
    → Ensures bytes t w (m w)
    → Works m w
Works-Ensures bytes t w m p e = go (m w) e
  where
    go :
        (r : Option (Bool × World))
        → Ensures bytes t w r
        → (w' : World) × (r ≡ some (true, w')) × Healthy w'
    go none h = absurd h
    go (some (ok, w')) s =
        (w', ap (λ b. some (b, w')) (s.succeeds p.steady p.in_bounds), Healthy-Sent p s)

pub Works-or_fail :
    (m k : M Bool) (w : World)
    → Works m w
    → ((w' : World) → Healthy w' → Works k w')
    → Works (or_fail m k) w
Works-or_fail m k w (w', e, p) later = rw (◌>>=◌, e) (later w' p)

pub flush-Works : (w : World) → Healthy w → Works mpsse_buffer_flush w
flush-Works w p =
    let (ok, w', e, s, empty) = flush_empties w p.honest in
    (w', e ∙ ap (λ b. some (b, w')) (s.succeeds p.steady p.in_bounds), Healthy-Sent p s)

pub write-Works :
    (bytes : List ℕ) (n : ℕ) (w : World) → Healthy w → n ≤ 8200 → Works (ftdi_write_retry bytes n) w
write-Works bytes n w p small =
    let d = ftdi_write_retry_delivers bytes n w p.honest in
    (
      record w { ftdi = d.dev },
      d.returns ∙ ap (λ b. some (b, record w { ftdi = d.dev })) (d.succeeds p.steady small),
      record {
        honest = rw d.same_device p.honest;
        steady = rw d.same_device p.steady;
        serving = rw d.same_reads p.serving;
        in_bounds = p.in_bounds;
      },
    )

pub write_unless-Works :
    (b : Bool) (bytes : List ℕ) (n : ℕ) (w : World)
    → Healthy w
    → n ≤ 8200
    → Works (if b then pure true else ftdi_write_retry bytes n) w
write_unless-Works true bytes n w p small = (w, refl, p)
write_unless-Works false bytes n w p small = write-Works bytes n w p small

pub served :
    (w : World)
    → Healthy w
    → Healthy (record w { ftdi = record (w.ftdi) { calls = w.ftdi.calls + 1 } })
served w p = record {
  honest = p.honest;
  steady = p.steady;
  serving = p.serving;
  in_bounds = p.in_bounds;
}
