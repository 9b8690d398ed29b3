-- ===== src/Jtagd/Handlers.antt =====
-- src/jtagd.cpp: what is done with each message.
use jtag_remote_server.Base.{
  ℕ, ◌+◌, ◌*◌, ◌/◌, ◌^◌, Bool, true, false, none, some, List, [], ◌∷◌, ◌++◌, if◌then◌else◌, ltb,
  leb, ◌==◌, u32, length, get_or, take, drop, replicate,
}
use jtag_remote_server.Tap.{shift_ir, shift_dr, run_test_idle}
use jtag_remote_server.World.{Run, pure, check, modify, ◌>>=◌, ◌>>◌}
use jtag_remote_server.Jtag.{Driver, jtag_tms_seq_to, jtag_scan_chain}
use jtag_remote_server.Jtag.Probe.{jtag_probe_devices}
use jtag_remote_server.Bitbang.Copy.{buffer_size}
use jtag_remote_server.Words.{word_at, le_bytes}
use jtag_remote_server.Jtagd.{Output, Server, shared, replying}
use jtag_remote_server.Jtagd.Sending.{
  add_string, add_int, add_array, add_response, end_response, do_send,
}

abbrev pub fifo_min : ℕ
fifo_min = 4

-- The result, and the content of `buffer` afterwards: `memcpy` takes `length` bytes of the elements,
-- and `length` elements are erased. Overrunning `buffer` is undefined.
unfoldable pub pop_fifo : List ℕ → ℕ → Run Server (Bool × List ℕ)
unfolding le_bytes
pop_fifo buffer n s =
    if leb n (length (s.fifos fifo_min))
    then (if leb n (length buffer)
        then some (
          (true, take n (le_bytes (s.fifos fifo_min)) ++ drop n buffer),
          record s { fifos = λ k. if k == fifo_min then drop n (s.fifos fifo_min) else s.fifos k },
        )
        else none)
    else some ((false, buffer), s)

abbrev pub device_name : List ℕ
device_name = b'd' ∷ b'e' ∷ b'v' ∷ b'i' ∷ b'c' ∷ b'e' ∷ b'0' ∷ []

abbrev hw_name : List ℕ
hw_name = b'h' ∷ b'w' ∷ b'0' ∷ []

abbrev port : List ℕ
port = b'p' ∷ b'o' ∷ b'r' ∷ b't' ∷ b'0' ∷ []

-- A response without arguments.
unfoldable pub respond : ℕ → Run Output (Unit {0})
unfolding add_response end_response
respond resp = do add_response resp; end_response

-- A response with one integer.
unfoldable pub respond_int : ℕ → Run Output (Unit {0})
unfolding add_response add_int end_response
respond_int value = do add_response 0; add_int value; end_response

unfoldable pub get_hardware : Run Server (Unit {0})
unfolding add_response add_int add_string end_response do_send
get_hardware = do
  replying (do
    add_response 0
    add_int 1
    add_int (4 + 1 + length hw_name + 1 + length port + 4 + 1 + length device_name + 4)
    end_response)
  do_send 0
  replying (do
    add_int 1
    add_string hw_name
    add_string port
    add_int 1
    add_string device_name
    add_int 0x0800)
  do_send fifo_min

unfoldable pub get_version_info : Run Output (Unit {0})
unfolding add_response add_string add_int end_response
get_version_info = do
  add_response 0
  add_string (b'1' ∷ b'.' ∷ b'0' ∷ [])
  add_int 0
  add_string (b'j' ∷ b't' ∷ b'a' ∷ b'g' ∷ b'd' ∷ [])
  end_response

unfoldable pub get_defined_devices : Run Output (Unit {0})
unfolding add_response add_int end_response
get_defined_devices = do add_response 0; add_int 1; add_int 0; add_int 0; end_response

-- The loop over the devices.
unfoldable pub describe_devices : List ℕ → Run Output (Unit {0})
unfolding add_int add_string
describe_devices [] = pure tt
describe_devices (device_id ∷ devices) = do
  add_int device_id
  add_int 10
  add_int 0
  add_int 0
  add_int 0
  add_string device_name
  describe_devices devices

unfoldable pub open_device : Run Server (Unit {0})
unfolding respond_int
open_device s = elim s.devices [ [] ↦ none | id ∷ ids ↦ replying (respond_int id) s ]

-- `ntohl` of the word at `i` of the body.
unfoldable pub be_word_at : List ℕ → ℕ → ℕ
be_word_at bytes i =
    get_or bytes i 0 * 2 ^ 24
    + get_or bytes (i + 1) 0 * 2 ^ 16
    + get_or bytes (i + 2) 0 * 2 ^ 8
    + get_or bytes (i + 3) 0

module _ (adapter : Driver) where
  -- `junk` and `junk2` are the arrays that `jtag_probe_devices` does not initialise.
  unfoldable pub read_chain : List ℕ → List ℕ → Run Server (Unit {0})
  unfolding describe_devices add_response add_int end_response do_send
  read_chain junk junk2 = do
    devices ← shared (jtag_probe_devices adapter junk junk2)
    modify (λ s. record s { devices = devices })
    replying (do
      add_response 0
      add_int 1
      add_int (length devices)
      add_int (length devices * (4 + 4 + 4 + 4 + 4 + 1 + length device_name))
      end_response)
    do_send 0
    replying (describe_devices devices)
    do_send fifo_min

  unfoldable pub access_ir : List ℕ → Run Server (Unit {0})
  unfolding respond_int do_send
  access_ir body = do
    check (ltb 15 (length body))
    ok ← shared (jtag_tms_seq_to adapter shift_ir)
    (scanned, read_back) ← shared (
        jtag_scan_chain adapter
          (get_or body 15 0 ∷ get_or body 14 0 ∷ get_or body 13 0 ∷ get_or body 12 0 ∷ [])
          (replicate 4 0) 10 true true)
    replying (respond_int (word_at read_back 0))
    do_send 0

  -- The scan, and the reply with what was read.
  unfoldable pub scan_dr : List ℕ → ℕ → ℕ → Run Server (Unit {0})
  unfolding respond add_array do_send
  scan_dr bytes length_dr read_length = do
    ok ← shared (jtag_tms_seq_to adapter shift_dr)
    (scanned, recv) ←
        shared (jtag_scan_chain adapter bytes (replicate buffer_size 0) length_dr true true)
    replying (respond 0)
    do_send 0
    if ltb 0 read_length
        then (do replying (add_array recv (u32 (read_length + 7) / 8)); do_send fifo_min)
        else pure tt

  -- False where there is not enough in the fifo: "try again later".
  unfoldable pub access_dr : List ℕ → Run Server Bool
  unfolding be_word_at pop_fifo scan_dr
  access_dr body = do
    check (ltb 31 (length body))
    (popped, bytes) ← pop_fifo (replicate buffer_size 0) (be_word_at body 20 / 8)
    if popped
        then (scan_dr bytes (be_word_at body 12) (be_word_at body 28) >>= λ u. pure true)
        else pure false

  unfoldable pub go_idle : Run Server (Unit {0})
  unfolding respond do_send
  go_idle = do ok ← shared (jtag_tms_seq_to adapter run_test_idle); replying (respond 0); do_send 0
