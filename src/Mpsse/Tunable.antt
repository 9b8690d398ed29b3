-- ===== src/Mpsse/Tunable.antt =====
-- src/mpsse.cpp: the clock frequency that `mpsse_set_tck_freq` asks the engine for, 30 MHz divided by
-- one more than the divisor.
use native.Mathlib.Nat.{mul-zero, mul-suc, suc-mul, div-add-mod, mod-lt}
use jtag_remote_server.Base.{
  ℕ, zero, suc, ◌+◌, ◌-◌, ◌*◌, ◌/◌, ◌%◌, ◌^◌, ◌≤◌, ◌<◌, ◌≡◌, refl, ap, Bool, true, false, not, [],
  ◌∷◌, arith, ◌==◌, u8, u64,
}
use jtag_remote_server.Header.{Header}
use jtag_remote_server.World.{World, check, ◌>>=◌, ◌>>◌}
use jtag_remote_server.Ftdi.{ftdi_write_retry}
use jtag_remote_server.Jtag.Law.{IsTunable}
use jtag_remote_server.Mpsse.Buffer.{mpsse_buffer_flush, mpsse_buffer_is_empty}
use jtag_remote_server.Mpsse.Device.{mpsse_set_tck_freq, mpsse_driver}
use jtag_remote_server.Mpsse.Healthy.{Healthy, Works, Works-or_fail, flush-Works, write-Works}
use jtag_remote_server.Mpsse.Tracking.{mpsse_driver-Views}

-- The quotient is at least 1, and the smallest that brings 30 MHz down to the frequency or below.
quotient_bounds :
    (freq_mhz q r : ℕ)
    → 0 < freq_mhz
    → 29 + freq_mhz ≡ freq_mhz * q + r
    → r < freq_mhz
    → (0 < q) × (30 ≤ freq_mhz * q) × (freq_mhz * (q - 1) < 30)
quotient_bounds f zero r some_mhz e less = absurd (omega (arith, e, less, mul-zero f))
quotient_bounds f (suc k) r some_mhz e less =
    (omega arith, omega (arith, e, less, mul-suc f k), omega (arith, e, less, mul-suc f k, same))
  where
    same : f * (suc k - 1) ≡ f * k
    same = ap (λ n. f * n) (omega arith)

tck_quotient :
    (freq_mhz : ℕ)
    → 0 < freq_mhz
    → freq_mhz < 2 ^ 63
    → (0 < u64 (30 + freq_mhz - 1) / freq_mhz)
      × (30 ≤ freq_mhz * (u64 (30 + freq_mhz - 1) / freq_mhz))
      × (freq_mhz * (u64 (30 + freq_mhz - 1) / freq_mhz - 1) < 30)
tck_quotient freq_mhz some_mhz small =
    quotient_bounds freq_mhz (u64 (30 + freq_mhz - 1) / freq_mhz)
      (u64 (30 + freq_mhz - 1) % freq_mhz) some_mhz
      (omega (arith, sum, div-add-mod (u64 (30 + freq_mhz - 1)) freq_mhz))
      (mod-lt (u64 (30 + freq_mhz - 1)) some_mhz)
  where
    sum : u64 (30 + freq_mhz - 1) ≡ 29 + freq_mhz
    sum = omega arith

positive_is_not_zero : (n : ℕ) → 0 < n → (n == 0) ≡ false
positive_is_not_zero n h = ground arith

grows : (f k : ℕ) → 0 < f → k ≤ f * k
grows zero k some_mhz = absurd (omega arith)
grows (suc g) k some_mhz = omega (arith, suc-mul g k)

module _ (h : Header) where
  -- For a frequency of 1 MHz or more and less than 2^63 MHz, with nothing gathered, the divisor is the
  -- smallest with which the clock is not faster than asked for. No division by zero is met.
  pub set_tck_freq_divisor :
      (freq_mhz : ℕ) (w : World)
      → 0 < freq_mhz
      → freq_mhz < 2 ^ 63
      → w.mpsse_buffer ≡ []
      → (divisor : ℕ) × (mpsse_set_tck_freq h freq_mhz w
          ≡ ftdi_write_retry (h.tck_divisor ∷ divisor ∷ 0x00 ∷ h.dis_div_5 ∷ []) 4 w)
        × (30 ≤ freq_mhz * (divisor + 1))
        × (freq_mhz * divisor < 30)
  unfolding mpsse_set_tck_freq mpsse_buffer_flush mpsse_buffer_is_empty
  set_tck_freq_divisor freq_mhz w some_mhz small empty = (
    q - 1,
    rw (empty, ◌>>=◌, positive_is_not_zero freq_mhz some_mhz, positive_is_not_zero q bounds.0, byte)
        refl,
    omega (arith, bounds.1, same),
    bounds.2,
  )
    where
      q : ℕ
      q = u64 (30 + freq_mhz - 1) / freq_mhz

      bounds : (0 < q) × (30 ≤ freq_mhz * q) × (freq_mhz * (q - 1) < 30)
      bounds = tck_quotient freq_mhz some_mhz small

      same : freq_mhz * (q - 1 + 1) ≡ freq_mhz * q
      same = ap (λ n. freq_mhz * n) (omega (arith, bounds.0))

      byte : u8 (u64 (30 + freq_mhz - 1) / freq_mhz - 1) ≡ q - 1
      byte = omega (arith, bounds.2, grows freq_mhz (q - 1) some_mhz)

  -- The clock of the MPSSE driver can be set to any whole number of MHz up to 4000.
  pub mpsse_driver-IsTunable :
      (tries : ℕ) (opened : Bool) → IsTunable (mpsse_driver h tries opened) Healthy
  unfolding mpsse_driver mpsse_set_tck_freq
  mpsse_driver-IsTunable tries opened = record {
    tck_works = λ freq_mhz w p some_mhz small.
        let (w', e, q) =
          Works-or_fail mpsse_buffer_flush _ w (flush-Works w p)
            λ v pv. rest freq_mhz v pv some_mhz small in
        (
          w',
          e,
          q,
          ap (λ u. u.0) ((mpsse_driver-Views h tries opened).set_tck_freq freq_mhz w w' true e),
        );
  }
    where
      rest :
          (freq_mhz : ℕ) (v : World)
          → Healthy v
          → 0 < freq_mhz
          → freq_mhz ≤ 4000
          → Works
              (check (not (freq_mhz == 0))
                >> (check (not (u64 (30 + freq_mhz - 1) / freq_mhz == 0))
                    >> ftdi_write_retry
                        (h.tck_divisor
                          ∷ u8 (u64 (30 + freq_mhz - 1) / freq_mhz - 1)
                          ∷ 0x00
                          ∷ h.dis_div_5
                          ∷ [])
                        4))
              v
      rest freq_mhz v pv some_mhz small =
          rw
            (
              positive_is_not_zero freq_mhz some_mhz,
              ◌>>=◌,
              positive_is_not_zero (u64 (30 + freq_mhz - 1) / freq_mhz)
                  (tck_quotient freq_mhz some_mhz (omega arith)).0,
            )
            (write-Works _ 4 v pv (omega arith))
