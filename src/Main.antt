-- ===== src/Main.antt =====
-- src/main.cpp: the options of the command line, and what `main` does up to the opening of the
-- adapter.
pub mod Described
pub mod Options
use jtag_remote_server.Base.{
  ℕ, ◌+◌, ◌-◌, Bool, true, false, ◌&&◌, Option, none, some, List, [], ◌∷◌, if◌then◌else◌, ◌==◌, leb,
  get_or,
}
use jtag_remote_server.World.{World, M, pure, modify, ◌>>=◌, ◌>>◌}
use jtag_remote_server.Jtag.{AdapterTypes, xilinx, digilent_hs2, digilent_hs3, Driver}

pub data Protocol : Type 0 where
  vpi rbb xvc jtagd : Protocol

-- What `getopt(argc, argv, "dvrxjbc:V:p:f:a:B:D:")` returns, with `optarg`: `-d`, `-v`, `-r`, `-x`,
-- `-j`, `-b`, `-a`, `-c`, `-V`, `-p`, `-B`, `-D`, `-f`, or `?`.
pub data Opt : Type 0 where
  debug_on use_vpi use_rbb use_xvc use_jtagd use_blaster unknown : Opt
  adapter_name channel vid pid bus_addr dev_addr freq : (optarg : List ℕ) → Opt

-- What `sscanf` stores for "%x", "%hhu" and "%lu": `none` if it stores nothing.
pub record Scanf : Type 0 where
  pub hex : List ℕ → Option ℕ
  pub uint8 : List ℕ → Option ℕ
  pub uint64 : List ℕ → Option ℕ

-- The globals and the locals of `main` that the options set. `blaster`: `adapter` points to
-- `usb_blaster_driver` instead of `mpsse_driver`.
pub record Settings : Type 0 where
  pub proto : Protocol
  pub debug : Bool
  pub blaster : Bool
  pub adapter_type : AdapterTypes
  pub ftdi_channel : ℕ
  pub ftdi_vid : ℕ
  pub ftdi_pid : ℕ
  pub use_bus_addr : Bool
  pub usb_bus_addr : ℕ
  pub usb_dev_addr : ℕ
  pub freq_mhz : ℕ
  pub usb_vid_pid_used : Bool
  pub usb_bus_dev_used : Bool

-- `interface_a`: the constant of ftdi.h.
unfoldable pub default_settings : ℕ → Settings
default_settings interface_a = record {
  proto = vpi;
  debug = false;
  blaster = false;
  adapter_type = xilinx;
  ftdi_channel = interface_a;
  ftdi_vid = 0x0403;
  ftdi_pid = 0x6011;
  use_bus_addr = false;
  usb_bus_addr = 1;
  usb_dev_addr = 1;
  freq_mhz = 15;
  usb_vid_pid_used = false;
  usb_bus_dev_used = false;
}

-- `strcmp(a, b) == 0`
unfoldable pub same : List ℕ → List ℕ → Bool
same [] [] = true
same [] (y ∷ ys) = false
same (x ∷ xs) [] = false
same (x ∷ xs) (y ∷ ys) = x == y && same xs ys

abbrev pub xilinx_name : List ℕ
xilinx_name = b'X' ∷ b'i' ∷ b'l' ∷ b'i' ∷ b'n' ∷ b'x' ∷ []

abbrev pub hs2_name : List ℕ
hs2_name = b'h' ∷ b's' ∷ b'2' ∷ []

abbrev pub hs3_name : List ℕ
hs3_name = b'h' ∷ b's' ∷ b'3' ∷ []

-- What the variable that `sscanf` is given holds afterwards.
abbrev pub stored : {A : Type 0} → Option A → A → A
stored none old = old
stored (some a) old = a

unfoldable pub select_adapter : List ℕ → Settings → Settings
unfolding same
select_adapter optarg o =
    if same optarg xilinx_name
    then record o { adapter_type = xilinx }
    else if same optarg hs2_name
    then record o { ftdi_pid = 0x6014; adapter_type = digilent_hs2 }
    else if same optarg hs3_name
    then record o { ftdi_pid = 0x6014; adapter_type = digilent_hs3 }
    else o

module _ (scanf : Scanf) where
  -- The body of the `switch`; `none`: the usage is printed, and `main` returns 1.
  unfoldable pub select_option : Opt → Settings → Option Settings
  unfolding select_adapter
  select_option debug_on o = some (record o { debug = true })
  select_option use_vpi o = some (record o { proto = vpi })
  select_option use_rbb o = some (record o { proto = rbb })
  select_option use_xvc o = some (record o { proto = xvc })
  select_option use_jtagd o = some (record o { proto = jtagd })
  select_option (adapter_name optarg) o = some (select_adapter optarg o)
  select_option use_blaster o = some (record o { blaster = true })
  select_option (channel optarg) o = some (
      if leb b'A' (get_or optarg 0 0) && leb (get_or optarg 0 0) b'D'
      then record o { ftdi_channel = get_or optarg 0 0 - b'A' + 1 }
      else o)
  select_option (vid optarg) o =
      some (record o { usb_vid_pid_used = true; ftdi_vid = stored (scanf.hex optarg) o.ftdi_vid })
  select_option (pid optarg) o =
      some (record o { usb_vid_pid_used = true; ftdi_pid = stored (scanf.hex optarg) o.ftdi_pid })
  select_option (bus_addr optarg) o = some (record o {
    use_bus_addr = true;
    usb_bus_dev_used = true;
    usb_bus_addr = stored (scanf.uint8 optarg) o.usb_bus_addr;
  })
  select_option (dev_addr optarg) o = some (record o {
    use_bus_addr = true;
    usb_bus_dev_used = true;
    usb_dev_addr = stored (scanf.uint8 optarg) o.usb_dev_addr;
  })
  select_option (freq optarg) o =
      some (record o { freq_mhz = stored (scanf.uint64 optarg) o.freq_mhz })
  select_option unknown o = none

  -- `while ((opt = getopt(...)) != -1)`
  unfoldable pub select_options : List Opt → Settings → Option Settings
  unfolding select_option
  select_options [] o = some o
  select_options (opt ∷ opts) o = elim (select_option opt o) [
    | none ↦ none
    | some o' ↦ select_options opts o'
  ]

  -- `none`: `main` returns 1.
  unfoldable pub configure : List Opt → Settings → Option Settings
  unfolding select_options
  configure opts o = elim (select_options opts o) [
    | none ↦ none
    | some o' ↦ if o'.usb_vid_pid_used && o'.usb_bus_dev_used then none else some o'
  ]

  -- `main` up to the opening of the adapter; `none` as the result if it returns 1.
  unfoldable pub start_up : Driver → Driver → List Opt → Settings → M (Option Settings)
  unfolding configure
  start_up mpsse_driver usb_blaster_driver opts o = elim (configure opts o) [
    | none ↦ pure none
    | some o' ↦ do
      modify (λ w. record w { freq_mhz = o'.freq_mhz })
      opened ← (if o'.blaster then usb_blaster_driver else mpsse_driver).init o'.adapter_type
      if opened then pure (some o') else pure none
  ]
