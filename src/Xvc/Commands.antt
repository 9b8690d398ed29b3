-- ===== src/Xvc/Commands.antt =====
-- src/xvc.cpp: the commands of one read, and their answers.
use jtag_remote_server.Base.{
  ℕ, zero, suc, ◌+◌, ◌*◌, ◌/◌, Bool, true, false, ◌&&◌, Option, none, some, List, [], ◌∷◌, ◌++◌,
  if◌then◌else◌, ◌==◌, leb, u32, take, drop,
}
use jtag_remote_server.Words.{word_at, le_bytes}
use jtag_remote_server.World.{World, M, Run, pure, check, modify, ◌>>=◌, ◌>>◌}
use jtag_remote_server.Jtag.{Driver}
use jtag_remote_server.Bitbang.{Region}
use jtag_remote_server.Bitbang.Copy.{buffer_size}
use jtag_remote_server.Socket.{write_full}
use jtag_remote_server.Xvc.{run_shift}

pub record ShiftCommand : Type 0 where
  pub bits : ℕ  -- uint32
  pub bytes : ℕ  -- uint32
  pub regions : List Region

-- The arrays of the file, of 4096 bytes each, the commands that are to be read back, and the globals.
pub record Session : Type 0 where
  pub tms : List ℕ
  pub tdi : List ℕ
  pub tdo : List ℕ
  pub shift_commands : List ShiftCommand
  pub world : World

-- A call that only touches the globals.
abbrev pub globally : {A : Type 0} → M A → Run Session A
globally m s = elim (m s.world) [ none ↦ none | some (a, w) ↦ some (a, record s { world = w }) ]

-- `memcmp(bytes, prefix, length of prefix) == 0`
unfoldable pub starts_with : List ℕ → List ℕ → Bool
starts_with bytes [] = true
starts_with [] (p ∷ prefix) = false
starts_with (b ∷ bytes) (p ∷ prefix) = b == p && starts_with bytes prefix

-- `prefix` stands at `buffer_begin`, and `needed` bytes are there.
unfoldable pub at_command : List ℕ → ℕ → World → Bool
unfolding starts_with
at_command prefix needed w =
    leb (w.buffer_begin + needed) w.buffer_end && starts_with (drop w.buffer_begin w.buffer) prefix

abbrev pub getinfo : List ℕ
getinfo = b'g' ∷ b'e' ∷ b't' ∷ b'i' ∷ b'n' ∷ b'f' ∷ b'o' ∷ b':' ∷ []

abbrev pub settck : List ℕ
settck = b's' ∷ b'e' ∷ b't' ∷ b't' ∷ b'c' ∷ b'k' ∷ b':' ∷ []

abbrev pub shift : List ℕ
shift = b's' ∷ b'h' ∷ b'i' ∷ b'f' ∷ b't' ∷ b':' ∷ []

-- "xvcServer_v1.0:2048\n"
abbrev pub info : List ℕ
info =
    b'x' ∷ b'v' ∷ b'c' ∷ b'S' ∷ b'e' ∷ b'r' ∷ b'v' ∷ b'e' ∷ b'r' ∷ b'_' ∷ b'v' ∷ b'1' ∷ b'.' ∷ b'0'
    ∷ b':' ∷ b'2' ∷ b'0' ∷ b'4' ∷ b'8' ∷ b'\n' ∷ []

-- `buffer_begin += n`
unfoldable pub consume : ℕ → World → World
consume n w = record w { buffer_begin = w.buffer_begin + n }

-- `assert(write_full(client_fd, bytes, count))`
unfoldable pub must_write : List ℕ → ℕ → M (Unit {0})
must_write bytes count = write_full bytes count >>= λ ok. check ok

-- `round(1000.0 / tck)`, with halves rounded up, as a `uint64_t`; undefined at 0, where the quotient is
-- infinite.
unfoldable pub period_to_mhz : ℕ → Option ℕ
period_to_mhz tck = if tck == 0 then none else some ((2000 + tck) / (2 * tck))

unfoldable pub run_getinfo : M (Unit {0})
unfolding consume must_write
run_getinfo = do modify (consume 8); must_write info 20

module _ (adapter : Driver) where
  unfoldable pub run_settck : M (Unit {0})
  unfolding consume must_write period_to_mhz
  run_settck w =
      let tck = word_at w.buffer (w.buffer_begin + 7) in
      (do
        modify (consume 11)
        (λ v. elim (period_to_mhz tck) [
          | none ↦ none
          | some freq_mhz ↦ (adapter.set_tck_freq freq_mhz >>= λ ok. pure tt) v
        ])
        must_write (le_bytes (tck ∷ [])) 4)
        w

  -- The arrays are filled, and the command is run; reading TMS and TDI behind the end of their arrays is
  -- undefined.
  unfoldable pub run_shift_command : Bool → ℕ → ℕ → ℕ → Run Session (Unit {0})
  unfolding consume
  run_shift_command junk bits bytes total_len s =
      let body = drop (s.world.buffer_begin + 10) s.world.buffer in
      let tms = take bytes body ++ drop bytes s.tms in
      let tdi = take bytes (drop bytes body) ++ drop bytes s.tdi in
      (do
        modify (λ t. record t { tms = tms; tdi = tdi })
        globally (modify (consume total_len))
        check (leb bits (8 * buffer_size))
        regions ← globally (run_shift adapter junk tms tdi bits)
        modify (λ t. record t {
          shift_commands =
              t.shift_commands ++ (record { bits = bits; bytes = bytes; regions = regions } ∷ []);
        }))
        s

  -- One round of the loop over the commands: false where it is left.
  unfoldable pub run_command : Bool → Run Session Bool
  unfolding at_command run_getinfo run_settck run_shift_command
  run_command junk s =
      if at_command getinfo 8 s.world
      then (globally run_getinfo >>= λ u. pure true) s
      else if at_command settck 11 s.world
      then (globally run_settck >>= λ u. pure true) s
      else if at_command shift 10 s.world
      then (let bits = word_at s.world.buffer (s.world.buffer_begin + 6) in
          let bytes = u32 (bits + 7) / 8 in
          let total_len = u32 (10 + 2 * bytes) in
          if leb (s.world.buffer_begin + total_len) s.world.buffer_end
          then (run_shift_command junk bits bytes total_len >>= λ u. pure true) s
          else some (false, s))
      else some (false, s)

  -- `while (true)`; `none` if it still runs after `rounds` rounds. Each round takes 8 bytes at least.
  unfoldable pub run_commands : Bool → ℕ → Run Session (Unit {0})
  unfolding run_command
  run_commands junk zero = λ s. none
  run_commands junk (suc rounds) =
      run_command junk >>= λ more. elim more [ true ↦ run_commands junk rounds | false ↦ pure tt ]
