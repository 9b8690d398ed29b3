-- ===== src/Main/Described.antt =====
-- src/main.cpp: each setting on its own, as the options of a command line give it.
use jtag_remote_server.Base.{
  ℕ, ◌+◌, ◌-◌, Bool, true, false, ◌&&◌, ◌||◌, not, Option, none, some, List, [], ◌∷◌, if◌then◌else◌,
  leb, get_or,
}
use jtag_remote_server.World.{M}
use jtag_remote_server.Jtag.{AdapterTypes, xilinx, digilent_hs2, digilent_hs3, Driver}
use jtag_remote_server.Main.{
  Protocol, vpi, rbb, xvc, jtagd, Opt, debug_on, use_vpi, use_rbb, use_xvc, use_jtagd, use_blaster,
  unknown, adapter_name, channel, vid, pid, bus_addr, dev_addr, freq, Scanf, Settings, same,
  xilinx_name, hs2_name, hs3_name, stored,
}

-- The option names the device by its vendor and product, or by its place on the bus.
abbrev pub names_device : Opt → Bool
names_device (vid optarg) = true
names_device (pid optarg) = true
names_device _ = false

abbrev pub names_place : Opt → Bool
names_place (bus_addr optarg) = true
names_place (dev_addr optarg) = true
names_place _ = false

abbrev pub known : Opt → Bool
known unknown = false
known _ = true

abbrev pub sets_debug : Opt → Bool
sets_debug debug_on = true
sets_debug _ = false

abbrev pub sets_blaster : Opt → Bool
sets_blaster use_blaster = true
sets_blaster _ = false

abbrev pub proto_of : Opt → Option Protocol
proto_of use_vpi = some vpi
proto_of use_rbb = some rbb
proto_of use_xvc = some xvc
proto_of use_jtagd = some jtagd
proto_of _ = none

-- The adapter that a name stands for, and the product id that it implies.
unfoldable pub named : List ℕ → Option (AdapterTypes × Option ℕ)
unfolding same
named name =
    if same name xilinx_name
    then some (xilinx, none)
    else if same name hs2_name
    then some (digilent_hs2, some 0x6014)
    else if same name hs3_name
    then some (digilent_hs3, some 0x6014)
    else none

unfoldable pub adapter_type_of : Opt → Option AdapterTypes
unfolding named
adapter_type_of (adapter_name name) = elim (named name) [ none ↦ none | some (t, p) ↦ some t ]
adapter_type_of _ = none

unfoldable pub channel_of : Opt → Option ℕ
channel_of (channel name) =
    let letter = get_or name 0 0 in
    if leb b'A' letter && leb letter b'D' then some (letter - b'A' + 1) else none
channel_of _ = none

module _ (scanf : Scanf) where
  abbrev pub vid_of : Opt → Option ℕ
  vid_of (vid optarg) = scanf.hex optarg
  vid_of _ = none

  unfoldable pub pid_of : Opt → Option ℕ
  unfolding named
  pid_of (pid optarg) = scanf.hex optarg
  pid_of (adapter_name name) = elim (named name) [ none ↦ none | some (t, p) ↦ p ]
  pid_of _ = none

  abbrev pub bus_of : Opt → Option ℕ
  bus_of (bus_addr optarg) = scanf.uint8 optarg
  bus_of _ = none

  abbrev pub dev_of : Opt → Option ℕ
  dev_of (dev_addr optarg) = scanf.uint8 optarg
  dev_of _ = none

  abbrev pub freq_of : Opt → Option ℕ
  freq_of (freq optarg) = scanf.uint64 optarg
  freq_of _ = none

abbrev pub all : (Opt → Bool) → List Opt → Bool
all f [] = true
all f (opt ∷ opts) = f opt && all f opts

abbrev pub any : (Opt → Bool) → List Opt → Bool
any f [] = false
any f (opt ∷ opts) = f opt || any f opts

-- The value of the last option that gives one.
abbrev pub last_of : {A : Type 0} → (Opt → Option A) → List Opt → Option A
last_of f [] = none
last_of f (opt ∷ opts) = elim (last_of f opts) [ none ↦ f opt | some a ↦ some a ]

module _ (scanf : Scanf) where
  -- Each setting on its own, whatever the others are.
  unfoldable pub settled : List Opt → Settings → Settings
  unfolding adapter_type_of channel_of pid_of
  settled opts o = record {
    proto = stored (last_of proto_of opts) o.proto;
    debug = any sets_debug opts || o.debug;
    blaster = any sets_blaster opts || o.blaster;
    adapter_type = stored (last_of adapter_type_of opts) o.adapter_type;
    ftdi_channel = stored (last_of channel_of opts) o.ftdi_channel;
    ftdi_vid = stored (last_of (vid_of scanf) opts) o.ftdi_vid;
    ftdi_pid = stored (last_of (pid_of scanf) opts) o.ftdi_pid;
    use_bus_addr = any names_place opts || o.use_bus_addr;
    usb_bus_addr = stored (last_of (bus_of scanf) opts) o.usb_bus_addr;
    usb_dev_addr = stored (last_of (dev_of scanf) opts) o.usb_dev_addr;
    freq_mhz = stored (last_of (freq_of scanf) opts) o.freq_mhz;
    usb_vid_pid_used = any names_device opts || o.usb_vid_pid_used;
    usb_bus_dev_used = any names_place opts || o.usb_bus_dev_used;
  }

-- The adapter that is selected is opened; the settings stand if it opens.
abbrev pub opening : Driver → Driver → Settings → M (Option Settings)
opening mpsse_driver usb_blaster_driver s w =
    elim ((if s.blaster then usb_blaster_driver else mpsse_driver).init s.adapter_type
      (record w { freq_mhz = s.freq_mhz })) [
        | none ↦ none
        | some (opened, w') ↦ some ((if opened then some s else none), w')
      ]

-- The options are read, and do not name the device in both ways.
unfoldable pub is_accepted : List Opt → Settings → Bool
is_accepted opts o =
    all known opts
    && not (
        (any names_device opts || o.usb_vid_pid_used)
        && (any names_place opts || o.usb_bus_dev_used))
