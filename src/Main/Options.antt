-- ===== src/Main/Options.antt =====
-- src/main.cpp: what a whole command line sets is what its options set one by one.
use jtag_remote_server.Base.{
  ◌≡◌, refl, Bool, true, false, ◌&&◌, ◌||◌, Option, none, some, List, [], ◌∷◌, if◌then◌else◌, leb,
  get_or, Bool-cases, Option-cases, inl, inr,
}
use jtag_remote_server.World.{World, pure}
use jtag_remote_server.Jtag.{Driver}
use jtag_remote_server.Main.{
  Opt, debug_on, use_vpi, use_rbb, use_xvc, use_jtagd, use_blaster, unknown, adapter_name, channel,
  vid, pid, bus_addr, dev_addr, freq, Scanf, Settings, same, xilinx_name, hs2_name, hs3_name,
  stored, select_adapter, select_option, select_options, configure, start_up,
}
use jtag_remote_server.Main.Described.{
  names_device, names_place, known, named, adapter_type_of, channel_of, pid_of, all, any, last_of,
  settled, opening, is_accepted,
}

stored-last_of :
    {A : Type 0} (f : Opt → Option A) (opt : Opt) (opts : List Opt) (a : A)
    → stored (last_of f (opt ∷ opts)) a ≡ stored (last_of f opts) (stored (f opt) a)
stored-last_of f opt opts a = elim (Option-cases (last_of f opts)) [
  | inl e ↦ rw e refl
  | inr (b, e) ↦ rw e refl
]

or_swap : (a b c : Bool) → ((a || b) || c) ≡ (b || (a || c))
or_swap true true c = refl
or_swap true false c = refl
or_swap false true c = refl
or_swap false false c = refl

or_false : (b : Bool) → (b || false) ≡ b
or_false true = refl
or_false false = refl

opens :
    (s : Settings) (run : Option (Bool × World))
    → elim run [ none ↦ none | some (opened, w) ↦ (if opened then pure (some s) else pure none) w ]
      ≡ elim run [ none ↦ none | some (opened, w) ↦ some ((if opened then some s else none), w) ]
opens s none = refl
opens s (some (true, w)) = refl
opens s (some (false, w)) = refl

module _ (scanf : Scanf) where
  settled-cons :
      (opt : Opt) (opts : List Opt) (o : Settings)
      → settled scanf (opt ∷ opts) o ≡ settled scanf opts (settled scanf (opt ∷ []) o)
  unfolding settled
  settled-cons opt opts o = simp (stored-last_of, or_swap, or_false)

  select_option-settled :
      (opt : Opt) (o : Settings)
      → select_option scanf opt o ≡ (if known opt then some (settled scanf (opt ∷ []) o) else none)
  unfolding settled select_option channel_of adapter_type_of pid_of named select_adapter
  select_option-settled debug_on o = refl
  select_option-settled use_vpi o = refl
  select_option-settled use_rbb o = refl
  select_option-settled use_xvc o = refl
  select_option-settled use_jtagd o = refl
  select_option-settled use_blaster o = refl
  select_option-settled (vid optarg) o = refl
  select_option-settled (pid optarg) o = refl
  select_option-settled (bus_addr optarg) o = refl
  select_option-settled (dev_addr optarg) o = refl
  select_option-settled (freq optarg) o = refl
  select_option-settled (channel optarg) o =
      elim (Bool-cases (leb b'A' (get_or optarg 0 0) && leb (get_or optarg 0 0) b'D')) [
        | inl e ↦ rw e refl
        | inr e ↦ rw e refl
      ]
  select_option-settled (adapter_name optarg) o = elim (Bool-cases (same optarg xilinx_name)) [
    | inl x ↦ rw (stored, adapter_type_of, pid_of, named, x) refl
    | inr x ↦ elim (Bool-cases (same optarg hs2_name)) [
      | inl y ↦ rw (stored, adapter_type_of, pid_of, named, x, y) refl
      | inr y ↦ elim (Bool-cases (same optarg hs3_name)) [
        | inl z ↦ rw (stored, adapter_type_of, pid_of, named, x, y, z) refl
        | inr z ↦ rw (stored, adapter_type_of, pid_of, named, x, y, z) refl
      ]
    ]
  ]
  select_option-settled unknown o = refl

  select_options-settled :
      (opts : List Opt) (o : Settings)
      → select_options scanf opts o ≡ (if all known opts then some (settled scanf opts o) else none)
  unfolding settled select_options
  select_options-settled [] o = refl
  select_options-settled (opt ∷ opts) o = elim (Bool-cases (known opt)) [
    | inl e ↦
        rw (select_options, select_option-settled opt o, e, settled-cons opt opts o)
          (select_options-settled opts (settled scanf (opt ∷ []) o))
    | inr e ↦ rw (select_options, select_option-settled opt o, e) refl
  ]

  configure-settled :
      (opts : List Opt) (o : Settings)
      → configure scanf opts o ≡ (if is_accepted opts o then some (settled scanf opts o) else none)
  unfolding is_accepted settled configure
  configure-settled opts o = elim (Bool-cases (all known opts)) [
    | inr e ↦ rw (configure, select_options-settled opts o, e) refl
    | inl e ↦
        elim (Bool-cases (
          (any names_device opts || o.usb_vid_pid_used)
          && (any names_place opts || o.usb_bus_dev_used))) [
            | inl both ↦ rw (configure, select_options-settled opts o, e, both) refl
            | inr both ↦ rw (configure, select_options-settled opts o, e, both) refl
          ]
  ]

  -- Up to the opening of the adapter, `main` does what is described option by option: if there is no
  -- unknown option, and the device is not named in both ways, then each setting is the last that an
  -- option gives for it, and the adapter is opened with these settings, at their frequency; otherwise
  -- `main` returns, and no adapter is touched.
  pub start_up_settles :
      (mpsse_driver usb_blaster_driver : Driver) (opts : List Opt) (o : Settings) (w : World)
      → start_up scanf mpsse_driver usb_blaster_driver opts o w ≡ (
          if is_accepted opts o
          then opening mpsse_driver usb_blaster_driver (settled scanf opts o) w
          else some (none, w))
  unfolding start_up is_accepted
  start_up_settles m u opts o w = elim (Bool-cases (is_accepted opts o)) [
    | inr e ↦ rw (start_up, configure-settled opts o, e) refl
    | inl e ↦ rw (start_up, configure-settled opts o, e) (opens (settled scanf opts o) _)
  ]
