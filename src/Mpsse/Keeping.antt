-- ===== src/Mpsse/Keeping.antt =====
-- The writes and reads of the MPSSE driver keep the state of the controller and the socket.
use jtag_remote_server.Base.{
  ℕ, zero, suc, ◌+◌, ◌-◌, refl, Bool, true, false, Option, none, some, List, [], ◌∷◌, ◌++◌,
  if◌then◌else◌, ◌==◌, leb, ltb, length, take,
}
use jtag_remote_server.World.{M, pure, check, modify, ◌>>◌}
use jtag_remote_server.World.Keeps.{
  KeepsState, Ends-if, KeepsState->>=, KeepsState->>, KeepsState-pure, KeepsState-check,
  KeepsState-if, view,
}
use jtag_remote_server.Ftdi.{ftdi_write_retry}
use jtag_remote_server.Mpsse.Buffer.{
  mpsse_buffer_flush, mpsse_buffer_ensure_space, mpsse_buffer_append_byte, mpsse_buffer_append,
}
use jtag_remote_server.Mpsse.Device.{read_data, read_bulk, read_last}

pub write_retry-KeepsState : (bytes : List ℕ) (n : ℕ) → KeepsState (ftdi_write_retry bytes n)
unfolding ftdi_write_retry
write_retry-KeepsState bytes n w = refl

pub flush-KeepsState : KeepsState mpsse_buffer_flush
unfolding mpsse_buffer_flush
flush-KeepsState w = Ends-if (view w) (length w.mpsse_buffer == 0) (some (true, w)) _ refl (
    KeepsState->>= (ftdi_write_retry w.mpsse_buffer (length w.mpsse_buffer))
      (λ ok. modify (λ v. record v { mpsse_buffer = [] }) >> pure ok) (write_retry-KeepsState _ _)
      (λ ok v. refl) w)

pub ensure_space-KeepsState : (n : ℕ) → KeepsState (mpsse_buffer_ensure_space n)
unfolding mpsse_buffer_ensure_space
ensure_space-KeepsState n w = Ends-if (view w) (leb 8192 n) (some (false, w)) _ refl (
    Ends-if (view w) (leb 2048 (length w.mpsse_buffer + n)) (mpsse_buffer_flush w) _
      (flush-KeepsState w) refl)

pub append_byte-KeepsState : (b : ℕ) → KeepsState (mpsse_buffer_append_byte b)
unfolding mpsse_buffer_append_byte
append_byte-KeepsState b w =
    KeepsState->> (check (ltb (length w.mpsse_buffer) 8192))
      (modify (λ v. record v { mpsse_buffer = v.mpsse_buffer ++ b ∷ [] })) (KeepsState-check _)
      (λ v. refl) w

pub append-KeepsState : (bytes : List ℕ) (n : ℕ) → KeepsState (mpsse_buffer_append bytes n)
unfolding mpsse_buffer_append
append-KeepsState bytes n w =
    KeepsState->> (check (leb n (length bytes))) _ (KeepsState-check _)
      (KeepsState->> (check (leb (length w.mpsse_buffer + n) 8192))
        (modify (λ v. record v { mpsse_buffer = v.mpsse_buffer ++ take n bytes }))
        (KeepsState-check _) (λ v. refl))
      w

-- A command of three bytes, then the rest.
pub command-KeepsState :
    (a b c : ℕ) (k : M Bool)
    → KeepsState k
    → KeepsState (
        mpsse_buffer_append_byte a
        >> (mpsse_buffer_append_byte b >> (mpsse_buffer_append_byte c >> k)))
command-KeepsState a b c k keep = KeepsState->> _ _ (append_byte-KeepsState a) (
    KeepsState->> _ _ (append_byte-KeepsState b)
      (KeepsState->> _ _ (append_byte-KeepsState c) keep))

pub read_bulk-KeepsState : (tries len : ℕ) (got : List ℕ) → KeepsState (read_bulk tries len got)
unfolding read_bulk read_data
read_bulk-KeepsState zero len got w =
    Ends-if (view w) (ltb (length got) len) none (some ((true, got), w)) tt refl
read_bulk-KeepsState (suc tries) len got w =
    Ends-if (view w) (ltb (length got) len) _ (some ((true, got), w))
      (KeepsState->>= (read_data (len - length got)) _ (λ v. refl)
        (taken (λ bytes. read_bulk-KeepsState tries len (got ++ bytes))) w)
      refl
  where
    taken :
        ((bytes : List ℕ) → KeepsState (read_bulk tries len (got ++ bytes)))
        → (r : Option (List ℕ))
        → KeepsState {A = Bool × List ℕ}
            (elim r [ none ↦ pure (false, got) | some bytes ↦ read_bulk tries len (got ++ bytes) ])
    taken again none = λ v. refl
    taken again (some bytes) = again bytes

pub read_last-KeepsState : (tries : ℕ) → KeepsState (read_last tries)
unfolding read_last read_data
read_last-KeepsState zero w = tt
read_last-KeepsState (suc tries) w =
    KeepsState->>= (read_data 1) _ (λ v. refl) (taken (read_last-KeepsState tries)) w
  where
    taken :
        KeepsState (read_last tries)
        → (r : Option (List ℕ))
        → KeepsState {A = ℕ} (elim r [
          | none ↦ read_last tries
          | some bytes ↦ elim bytes [
            | [] ↦ read_last tries
            | b ∷ bs ↦ elim bs [ [] ↦ pure b | _ ↦ read_last tries ]
          ]
        ])
    taken again none = again
    taken again (some []) = again
    taken again (some (b ∷ [])) = λ v. refl
    taken again (some (b ∷ c ∷ bs)) = again

pub write_unless-KeepsState :
    (b : Bool) (bytes : List ℕ) (n : ℕ)
    → KeepsState (if b then pure true else ftdi_write_retry bytes n)
write_unless-KeepsState b bytes n =
    KeepsState-if b (pure true) (ftdi_write_retry bytes n) (KeepsState-pure true)
      (write_retry-KeepsState bytes n)
