-- ===== src/Xvc/Stream.antt =====
-- The commands that an XVC client has sent, one after the other.
use jtag_remote_server.Base.{
  ℕ, zero, suc, ◌*◌, ◌≤◌, ◌<◌, ◌≡◌, refl, sym, ap, subst, ◌∙◌, Bool, true, false, some, List, [],
  ◌∷◌, ◌++◌, map, arith, length, length-append, append_assoc, append-nil,
}
use jtag_remote_server.Words.{le_bytes}
use jtag_remote_server.Tap.{JtagState}
use jtag_remote_server.World.{World, ◌>>=◌}
use jtag_remote_server.Jtag.{Driver}
use jtag_remote_server.Jtag.Law.{IsTracking, IsQuiet, IsReliable, IsTunable}
use jtag_remote_server.Bitbang.Copy.{buffer_size}
use jtag_remote_server.Socket.Buffer.{InOrder, pending}
use jtag_remote_server.Socket.Stands.{Stands, Stands-pending, pending-Stands}
use jtag_remote_server.Socket.Greedy.{IsGreedy}
use jtag_remote_server.Xvc.Commands.{
  ShiftCommand, Session, getinfo, settck, shift, run_command, run_commands,
}
use jtag_remote_server.Xvc.Encode.{
  Command, get_info, set_tck, shift_bits, encode, encode_all, IsProper, AllProper, at_command_short,
}
use jtag_remote_server.Xvc.Step.{
  after, answer_to, sizes, AllReady, Carried, getinfo_step, settck_step,
}
use jtag_remote_server.Xvc.ShiftStep.{shift_step}

abbrev pub after_all : List Command → JtagState → JtagState
after_all [] s = s
after_all (c ∷ cs) s = after_all cs (after c s)

abbrev pub answers_to : List Command → List ℕ
answers_to [] = []
answers_to (c ∷ cs) = answer_to c ++ answers_to cs

abbrev pub all_sizes : List Command → List ℕ
all_sizes [] = []
all_sizes (c ∷ cs) = sizes c ++ all_sizes cs

-- The commands are carried out, and fewer than 8 bytes stay pending.
pub record Served (P : World → Type 0) (cs : List Command) (tail : List ℕ) (s s' : Session)
    : Type 0 where
  pub healthy : P s'.world
  pub waits : pending s'.world ≡ tail
  pub greedy : IsGreedy s'.world.net
  pub sent : s'.world.net.sent ≡ s.world.net.sent ++ answers_to cs
  pub state : s'.world.state ≡ after_all cs s.world.state
  pub ready : AllReady s'.shift_commands
  pub counts :
      map (λ (k : ShiftCommand). k.bytes) s'.shift_commands
      ≡ map (λ (k : ShiftCommand). k.bytes) s.shift_commands ++ all_sizes cs

encode_long : (c : Command) → 8 ≤ length (encode c)
unfolding le_bytes
encode_long get_info = omega arith
encode_long (set_tck tck) = omega arith
encode_long (shift_bits bits tms tdi) = omega arith

encode_all_long : (cs : List Command) → 8 * length cs ≤ length (encode_all cs)
encode_all_long [] = omega arith
encode_all_long (c ∷ cs) =
    omega (arith, encode_long c, encode_all_long cs, length-append (encode c) (encode_all cs))

module _ (d : Driver) (P : World → Type 0) (track : IsTracking d) (works : IsReliable d P)
    (quiet : IsQuiet d) (tunes : IsTunable d P) (junk : Bool) where
  command_step :
      (s : Session) (c : Command) (rest stale : List ℕ)
      → P s.world
      → IsGreedy s.world.net
      → Stands s.world (encode c ++ rest) stale
      → IsProper c
      → (s' : Session) × (run_command d junk s ≡ some (true, s')) × Carried P c rest stale s s'
  command_step s get_info rest stale p greedy st proper =
      getinfo_step d P track works quiet tunes junk s rest stale p greedy st
  command_step s (set_tck tck) rest stale p greedy st (some_ns, short) =
      settck_step d P track works quiet tunes junk s tck rest stale p greedy st some_ns short
  command_step s (shift_bits bits tms tdi) rest stale p greedy st (size1, size2, small) =
      shift_step d P track works quiet junk s bits tms tdi rest stale p greedy st size1 size2 small

  -- With fewer than 8 bytes the loop is left.
  last_step :
      (s : Session) (tail stale : List ℕ)
      → Stands s.world tail stale
      → length tail < 8
      → run_command d junk s ≡ some (false, s)
  unfolding run_command
  last_step s tail stale st short =
      rw
        (
          at_command_short s.world getinfo tail stale 8 st short,
          at_command_short s.world settck tail stale 11 st (omega (arith, short)),
          at_command_short s.world shift tail stale 10 st (omega (arith, short)),
        )
        refl

  serve :
      (cs : List Command) (tail stale : List ℕ) (rounds : ℕ) (s : Session)
      → P s.world
      → IsGreedy s.world.net
      → Stands s.world (encode_all cs ++ tail) stale
      → AllProper cs
      → length tail < 8
      → AllReady s.shift_commands
      → length cs < rounds
      → (s' : Session) × (run_commands d junk rounds s ≡ some (tt, s')) × Served P cs tail s s'
  unfolding run_commands
  serve cs tail stale zero s p greedy st proper short ready enough = absurd (omega (arith, enough))
  serve [] tail stale (suc rounds) s p greedy st proper short ready enough = (
    s,
    rw (◌>>=◌, last_step s tail stale st short) refl,
    record {
      healthy = p;
      waits = pending-Stands s.world tail stale st;
      greedy = greedy;
      sent = sym (append-nil s.world.net.sent);
      state = refl;
      ready = ready;
      counts = sym (append-nil _);
    },
  )
  serve (c ∷ cs) tail stale (suc rounds) s p greedy st (q, proper) short ready enough =
      let (s1, e, k) =
        command_step s c (encode_all cs ++ tail) stale p greedy
          (subst (λ b. Stands s.world b stale) (append_assoc (encode c) (encode_all cs) tail) st)
          q in
      let (s2, f, l) =
        serve cs tail stale rounds s1 k.healthy k.greedy k.stands proper short (k.ready ready)
          (omega (arith, enough)) in
      (
        s2,
        rw (◌>>=◌, e) f,
        record {
          healthy = l.healthy;
          waits = l.waits;
          greedy = l.greedy;
          sent =
              l.sent
              ∙ ap (λ t. t ++ answers_to cs) k.sent
              ∙ append_assoc s.world.net.sent (answer_to c) (answers_to cs);
          state = l.state ∙ ap (after_all cs) k.state;
          ready = l.ready;
          counts =
              l.counts
              ∙ ap (λ t. t ++ all_sizes cs) k.counts
              ∙ append_assoc _ (sizes c) (all_sizes cs);
        },
      )

  -- The commands in the buffer are carried out in order, over a driver that tracks the TAP state, works
  -- and leaves the socket alone: the loop returns with less than a command pending, the immediate answers
  -- are sent, the state is where the TMS bits of all shifts lead, and each shift is kept for its answer.
  pub run_commands_works :
      (cs : List Command) (tail : List ℕ) (s : Session)
      → P s.world
      → IsGreedy s.world.net
      → InOrder s.world
      → pending s.world ≡ encode_all cs ++ tail
      → AllProper cs
      → length tail < 8
      → AllReady s.shift_commands
      → (s' : Session) × (run_commands d junk buffer_size s ≡ some (tt, s')) × Served P cs tail s s'
  run_commands_works cs tail s p greedy order holds proper short ready =
      serve cs tail _ buffer_size s p greedy (Stands-pending s.world _ order holds) proper short
        ready (few _ (Stands-pending s.world _ order holds))
    where
      few :
          (stale : List ℕ) → Stands s.world (encode_all cs ++ tail) stale → length cs < buffer_size
      few stale st =
          omega (arith, st.end, st.within, encode_all_long cs, length-append (encode_all cs) tail)
