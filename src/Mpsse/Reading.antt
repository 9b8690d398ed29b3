-- ===== src/Mpsse/Reading.antt =====
-- Reads of the MPSSE driver from a device that gives what it is asked for.
use jtag_remote_server.Base.{
  ℕ, zero, suc, ◌+◌, ◌-◌, ◌≡◌, refl, true, false, some, List, [], ◌∷◌, arith, ltb, length,
}
use jtag_remote_server.World.{World, ◌>>=◌}
use jtag_remote_server.Mpsse.Device.{read_data, read_bulk, read_last}
use jtag_remote_server.Mpsse.Healthy.{Healthy, served}

read_bulk_done :
    (tries len : ℕ) (got : List ℕ) (w : World)
    → length got ≡ len
    → read_bulk tries len got w ≡ some ((true, got), w)
unfolding read_bulk
read_bulk_done zero len got w e = ground arith
read_bulk_done (suc tries) len got w e = rw stop refl
  where
    stop : ltb (length got) len ≡ false
    stop = ground arith

one_byte : (bytes : List ℕ) → length bytes ≡ 1 → (b : ℕ) × (bytes ≡ b ∷ [])
one_byte [] e = absurd (omega arith)
one_byte (b ∷ []) e = (b, refl)
one_byte (b ∷ c ∷ bytes) e = absurd (omega arith)

-- One read is enough for the bulk, and one for the last bit.
pub read_bulk_works :
    (tries len : ℕ) (w : World)
    → Healthy w
    → (got : List ℕ) × (w' : World) × (read_bulk (suc tries) len [] w ≡ some ((true, got), w'))
      × Healthy w'
      × (length got ≡ len)
unfolding read_bulk read_data
read_bulk_works tries zero w p = ([], w, refl, p, refl)
read_bulk_works tries (suc n) w p =
    let (bytes, e, size) = p.serving w.ftdi.calls (suc n) in
    (
      bytes,
      record w { ftdi = record (w.ftdi) { calls = w.ftdi.calls + 1 } },
      rw (goes, whole, ◌>>=◌, e) (read_bulk_done tries (suc n) bytes _ size),
      served w p,
      size,
    )
  where
    goes : ltb 0 (suc n) ≡ true
    goes = ground arith

    whole : suc n - 0 ≡ suc n
    whole = omega arith

pub read_last_works :
    (tries : ℕ) (w : World)
    → Healthy w
    → (b : ℕ) × (w' : World) × (read_last (suc tries) w ≡ some (b, w')) × Healthy w'
unfolding read_last read_data
read_last_works tries w p =
    let (bytes, e, size) = p.serving w.ftdi.calls 1 in
    let (b, one) = one_byte bytes size in
    (
      b,
      record w { ftdi = record (w.ftdi) { calls = w.ftdi.calls + 1 } },
      rw (◌>>=◌, e, one) refl,
      served w p,
    )
