-- ===== src/Lib.antt =====
-- jtag-remote-server: a server that drives a JTAG chain through an FTDI adapter for a remote client.
--
-- The program reads a client's protocol (src/vpi.cpp, src/rbb.cpp, src/xvc.cpp, src/jtagd.cpp),
-- turns it into JTAG operations (src/common.cpp), and these into the commands of an adapter
-- (src/mpsse.cpp with src/mpsse_buffer.cpp, or src/usb_blaster.cpp). The state of the TAP controller
-- is tracked in a global, which decides what is walked with TMS and what is shifted as data.
--
-- - Base: shared names, lists over the native ℕ, bits of byte arrays.
-- - Tap: `JtagState`, `next_state`, the walk of `jtag_tms_seq`, `jtag_get_tms_seq` (src/common.cpp).
--   Tap/Route has the sequences of the table against the distances in the state diagram.
-- - Bitbang: `Region` (src/common.h) and `analyze_bitbang`; Bitbang/Segments says what the regions of
--   an input are, and Bitbang/Copy is the loop that cuts their bits out (src/rbb.cpp, src/xvc.cpp).
-- - World: the globals of src/main.cpp and of the adapters, the FTDI chip, and the sockets. A function
--   that may change them takes a world and gives a result and a world, or nothing where an assertion
--   fails or the behaviour is undefined, as for TMS bits behind the array that is given.
-- - Words: `uint32_t`s in memory.
-- - Ftdi: `ftdi_write_retry`, `ftdi_read_retry`. Socket: `write_full`, `try_accept`, `read_socket`.
-- - Jtag: the JTAG operations over the function table `driver`, with what the clients rely on in a
--   driver (Jtag/Law), and `jtag_probe_devices` (Jtag/Probe).
-- - Mpsse: the command buffer, the commands, and the driver. Mpsse/Engine is FTDI's description of
--   the engine, which the streams of commands are proved against; it has TMS commands
--   of 7 bits at most.
-- - Blaster: src/usb_blaster.cpp. Blaster/Pins is the description of the device that the streams are
--   proved against; both adapters are held to the same clock cycles.
-- - Rbb: `jtag_rbb_tick`.
-- - Vpi: `jtag_vpi_tick`, with the framing of its commands in Vpi/Framing.
-- - Xvc: src/xvc.cpp. Xvc has the regions of a `shift:` command, Xvc/Commands the loop over the
--   commands, Xvc/Answers the answers to the shifts and `jtag_xvc_tick`; Xvc/Encode says what a client
--   sends, Xvc/Replies what it is answered for the shifts, and Xvc/Faults which commands the server does
--   not survive.
-- - Jtagd: src/jtagd.cpp. Jtagd has the packets and messages that are read, Jtagd/Sending the send
--   buffer, Jtagd/Handlers the handlers, and Jtagd/Serve `jtag_jtagd_tick`; Jtagd/Messages and
--   Jtagd/Packets say what a client sends.
-- - Main: the options of src/main.cpp, up to the opening of the adapter. `getopt` and `sscanf` are
--   parameters, and Main/Described has what the options mean.
-- - Tests: a device, a socket, and the theorems applied to them.
--
-- libftdi and the system calls are parameters: what a call takes or gives is any function of the
-- number of the call, and the theorems name what they need of it. The constants of ftdi.h are a record.
-- Loops over a count are structural. `write_full` has as many rounds as bytes, which is enough since a
-- round that sends none ends the loop; so have the packets of a USB Blaster scan. The loops over the
-- buffer of `read_socket` (XVC commands, packets and messages of jtagd) have as many rounds as it has
-- bytes, and each takes some. The two read loops of the MPSSE driver have no bound in the source and
-- take one here, and one round is enough on a device that gives what it is asked for.
--
-- Not modelled: debug output, opening the devices and sockets, the loop of src/main.cpp over the
-- ticks with its clock and signals, and `sread` and `swrite` of src/xvc.cpp, which nothing
-- calls.
pub mod Base
pub mod Tap
pub mod Bitbang
pub mod Words
pub mod World
pub mod Ftdi
pub mod Header
pub mod Mpsse
pub mod Jtag
pub mod Socket
pub mod Rbb
pub mod Blaster
pub mod Jtagd
pub mod Main
pub mod Vpi
pub mod Xvc
pub mod Tests
