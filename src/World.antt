-- ===== src/World.antt =====
-- The globals that the components share (src/common.h, src/main.cpp), with the device and the
-- socket behind them, and the sequencing of C++ statements over them.
pub mod Keeps
use jtag_remote_server.Base.{ℕ, Bool, false, Option, none, some, List, if◌then◌else◌}
use jtag_remote_server.Tap.{JtagState}

-- The FTDI chip as libftdi shows it. What the `k`-th call of `ftdi_write_data` or `ftdi_read_data`
-- does is any function of `k` and of the length asked for: `none` for a negative result, else how
-- many bytes were taken, or the bytes that were read. `wire` is what was taken so far, in order.
pub record Ftdi : Type 0 where
  pub write_data : ℕ → ℕ → Option ℕ
  pub read_data : ℕ → ℕ → Option (List ℕ)
  pub calls : ℕ
  pub wire : List ℕ

-- The listening socket and the client's, as the system calls show them; each answer is any function
-- of the number of the call. `accepts`: `none` if `select` reports nothing, else what `accept`
-- returns. `reads`: `none` for a negative result, else the bytes, none of them at the end of the
-- stream. `writes`: how many bytes `write` takes, `none` for a negative result. `sent` is what was
-- written so far, in order. A file descriptor is `none` where it is negative.
pub record Net : Type 0 where
  pub accepts : ℕ → Option (Option ℕ)
  pub reads : ℕ → ℕ → Option (List ℕ)
  pub writes : ℕ → ℕ → Option ℕ
  pub calls : ℕ
  pub sent : List ℕ
  pub client_fd : Option ℕ

pub record World : Type 0 where
  pub state : JtagState
  pub bits_send : ℕ  -- uint64
  pub freq_mhz : ℕ  -- uint64
  pub ftdi : Ftdi
  pub mpsse_buffer : List ℕ  -- the first `mpsse_buffer_pos` bytes of the array
  pub recv_buffer : List ℕ  -- the first `recv_buffer_len` bytes of the array
  pub net : Net
  pub buffer : List ℕ  -- of 4096 bytes
  pub buffer_begin : ℕ
  pub buffer_end : ℕ

-- A function that may read and write a state. `none`: an assertion fails, or the behaviour is
-- undefined (an array is overrun, a division by zero).
abbrev pub Run : Type 0 → Type 0 → Type 0
Run S A = S → Option (A × S)

-- The state is that of the globals.
abbrev pub M : Type 0 → Type 0
M A = Run World A

abbrev pub pure : {S A : Type 0} → A → Run S A
pure a w = some (a, w)

infixl 5 ◌>>=◌ ◌>>◌
abbrev pub ◌>>=◌ : {S A B : Type 0} → Run S A → (A → Run S B) → Run S B
◌>>=◌ m f w = elim (m w) [ none ↦ none | some (a, w') ↦ f a w' ]

abbrev pub ◌>>◌ : {S B : Type 0} → Run S (Unit {0}) → Run S B → Run S B
m >> k = m >>= λ _. k

-- `assert(b)`
abbrev pub check : {S : Type 0} → Bool → Run S (Unit {0})
check b w = if b then some (tt, w) else none

-- `if (!m) return false; k`
abbrev pub or_fail : {S : Type 0} → Run S Bool → Run S Bool → Run S Bool
or_fail m k = m >>= λ b. if b then k else pure false

abbrev pub modify : {S : Type 0} → (S → S) → Run S (Unit {0})
modify f w = some (tt, f w)
