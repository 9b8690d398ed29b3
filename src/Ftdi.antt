-- ===== src/Ftdi.antt =====
-- `ftdi_write_retry` and `ftdi_read_retry` of src/common.cpp: libftdi may take or give fewer bytes
-- than asked, so both try up to 100 times.
pub mod Retry
use jtag_remote_server.Base.{
  ℕ, zero, suc, ◌+◌, ◌-◌, ◌≤◌, Bool, true, false, Option, none, some, List, [], ◌∷◌, ◌++◌,
  if◌then◌else◌, ◌==◌, ltb, length, take, drop,
}
use jtag_remote_server.World.{Ftdi, World, M}

-- One call of `ftdi_write_data(ftdi, bytes, count)`.
unfoldable pub write_data : List ℕ → ℕ → Ftdi → Option ℕ × Ftdi
write_data bytes count dev =
    let res = dev.write_data dev.calls count in
    (res, record dev { calls = dev.calls + 1; wire = dev.wire ++ taken res })
  where
    taken : Option ℕ → List ℕ
    taken none = []
    taken (some n) = take n bytes

-- The loop of `ftdi_write_retry`, over `retry` and `offset`.
unfoldable pub write_loop : ℕ → List ℕ → ℕ → ℕ → Ftdi → Bool × Ftdi
write_loop zero bytes len offset dev = (offset == len, dev)
write_loop (suc retry) bytes len offset dev = elim (ltb offset len) [
  | true ↦ elim (write_data (drop offset bytes) (len - offset) dev).0 [
    | none ↦ (false, (write_data (drop offset bytes) (len - offset) dev).1)
    | some res ↦
        write_loop retry bytes len (offset + res)
          (write_data (drop offset bytes) (len - offset) dev).1
  ]
  | false ↦ (offset == len, dev)
]

unfoldable pub ftdi_write_retry : List ℕ → ℕ → M Bool
ftdi_write_retry bytes len w =
    let (ok, dev) = write_loop 100 bytes len 0 w.ftdi in some (ok, record w { ftdi = dev })

-- The loop of `ftdi_read_retry`; `got` is what stands in the first `offset` bytes of the buffer.
unfoldable pub read_loop : ℕ → ℕ → List ℕ → Ftdi → Bool × List ℕ × Ftdi
read_loop zero len got dev = (length got == len, got, dev)
read_loop (suc retry) len got dev = elim (ltb (length got) len) [
  | true ↦ elim (dev.read_data dev.calls (len - length got)) [
    | none ↦ (false, got, record dev { calls = dev.calls + 1 })
    | some bytes ↦ read_loop retry len (got ++ bytes) (record dev { calls = dev.calls + 1 })
  ]
  | false ↦ (length got == len, got, dev)
]

-- The result, and the bytes that were put into the buffer.
unfoldable pub ftdi_read_retry : ℕ → M (Bool × List ℕ)
ftdi_read_retry len w =
    let (ok, got, dev) = read_loop 100 len [] w.ftdi in some ((ok, got), record w { ftdi = dev })
