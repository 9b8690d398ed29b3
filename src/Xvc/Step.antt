-- ===== src/Xvc/Step.antt =====
-- One command of an XVC client is carried out, over a driver that works.
use native.Mathlib.Nat.{div-add-mod, mod-lt, mul-zero, div-le_self}
use jtag_remote_server.Base.{
  ℕ, zero, suc, ◌+◌, ◌*◌, ◌/◌, ◌%◌, ◌≤◌, ◌<◌, ◌≡◌, refl, sym, ap, subst, ◌∙◌, Bool, true, false,
  some, List, [], ◌∷◌, ◌++◌, map, arith, ◌==◌, append-nil, bits_from,
}
use jtag_remote_server.Words.{word_at, le_bytes}
use jtag_remote_server.Tap.{JtagState}
use jtag_remote_server.Tap.Laws.{walk}
use jtag_remote_server.World.{World, ◌>>=◌}
use jtag_remote_server.Jtag.{Driver}
use jtag_remote_server.Jtag.Law.{IsTracking, IsQuiet, IsReliable, IsTunable}
use jtag_remote_server.Bitbang.{Region}
use jtag_remote_server.Socket.Stands.{Stands, Stands-behind}
use jtag_remote_server.Socket.Greedy.{IsGreedy, sent_more, write_full_greedy}
use jtag_remote_server.Socket.{write_full}
use jtag_remote_server.Xvc.Commands.{
  ShiftCommand, Session, starts_with, getinfo, settck, info, consume, must_write, period_to_mhz,
  run_getinfo, run_settck, run_command,
}
use jtag_remote_server.Xvc.Encode.{
  Command, get_info, set_tck, shift_bits, encode, at_command_seen, at_command_other, word_behind,
}

-- The state that a command leads to, what is answered at once, and the bytes that are answered later.
abbrev pub after : Command → JtagState → JtagState
after get_info s = s
after (set_tck tck) s = s
after (shift_bits bits tms tdi) s = walk s (bits_from tms 0 bits)

abbrev pub answer_to : Command → List ℕ
answer_to get_info = info
answer_to (set_tck tck) = le_bytes (tck ∷ [])
answer_to (shift_bits bits tms tdi) = []

abbrev pub sizes : Command → List ℕ
sizes get_info = []
sizes (set_tck tck) = []
sizes (shift_bits bits tms tdi) = (bits + 7) / 8 ∷ []

-- The regions to read back follow each other from bit `i` to bit `n`.
abbrev pub Joined : List Region → ℕ → ℕ → Type 0
Joined [] i n = i ≡ n
Joined (r ∷ rs) i n = (r.begin ≡ i) × (r.begin < r.end) × Joined rs r.end n

-- They make up the bits of the command, and these are within the array.
abbrev pub AllReady : List ShiftCommand → Type 0
AllReady [] = Unit
AllReady (c ∷ cs) =
    Joined c.regions 0 c.bits × (c.bits ≤ 8 * c.bytes) × (c.bytes ≤ 2043) × AllReady cs

-- The command is carried out, and the next stands at `buffer_begin`.
pub record Carried (P : World → Type 0) (c : Command) (rest stale : List ℕ) (s s' : Session)
    : Type 0 where
  pub healthy : P s'.world
  pub stands : Stands s'.world rest stale
  pub greedy : IsGreedy s'.world.net
  pub sent : s'.world.net.sent ≡ s.world.net.sent ++ answer_to c
  pub state : s'.world.state ≡ after c s.world.state
  pub ready : AllReady s.shift_commands → AllReady s'.shift_commands
  pub counts : map (λ k. k.bytes) s'.shift_commands ≡ map (λ k. k.bytes) s.shift_commands ++ sizes c

period_lem :
    (tck : ℕ)
    → 0 < tck
    → tck ≤ 2000
    → (0 < (2000 + tck) / (2 * tck))
      × ((2000 + tck) / (2 * tck) ≤ 4000)
      × (period_to_mhz tck ≡ some ((2000 + tck) / (2 * tck)))
unfolding period_to_mhz
period_lem tck some_ns short = (
  some_mhz ((2000 + tck) / (2 * tck)) (div-add-mod (2000 + tck) (2 * tck))
      (mod-lt (2000 + tck) (omega arith)),
  omega (arith, div-le_self (2000 + tck) (2 * tck)),
  rw not_zero refl,
)
  where
    not_zero : (tck == 0) ≡ false
    not_zero = ground arith

    some_mhz :
        (q : ℕ)
        → 2 * tck * q + (2000 + tck) % (2 * tck) ≡ 2000 + tck
        → (2000 + tck) % (2 * tck) < 2 * tck
        → 0 < q
    some_mhz zero e less = absurd (omega (arith, e, less, mul-zero (2 * tck)))
    some_mhz (suc q) e less = omega arith

module _ (d : Driver) (P : World → Type 0) (track : IsTracking d) (works : IsReliable d P)
    (quiet : IsQuiet d) (tunes : IsTunable d P) (junk : Bool) where
  pub getinfo_step :
      (s : Session) (rest stale : List ℕ)
      → P s.world
      → IsGreedy s.world.net
      → Stands s.world (getinfo ++ rest) stale
      → (s' : Session) × (run_command d junk s ≡ some (true, s'))
        × Carried P get_info rest stale s s'
  unfolding run_command run_getinfo must_write consume
  getinfo_step s rest stale p greedy st = (
    record s { world = after_info },
    rw
        (
          at_command_seen s.world getinfo rest stale 8 st (omega arith),
          ◌>>=◌,
          write_full_greedy info 20 (consume 8 s.world) greedy (omega arith),
        )
        refl,
    record {
      healthy = works.frame s.world after_info p refl refl refl;
      stands = Stands-behind s.world after_info getinfo rest stale st refl refl refl;
      greedy = greedy;
      sent = refl;
      state = refl;
      ready = λ r. r;
      counts = sym (append-nil (map (λ (k : ShiftCommand). k.bytes) s.shift_commands));
    },
  )
    where
      after_info : World
      after_info = sent_more info (consume 8 s.world)

  settck_run :
      (w w1 w2 : World) (freq_mhz : ℕ)
      → period_to_mhz (word_at w.buffer (w.buffer_begin + 7)) ≡ some freq_mhz
      → d.set_tck_freq freq_mhz (consume 11 w) ≡ some (true, w1)
      → write_full (le_bytes (word_at w.buffer (w.buffer_begin + 7) ∷ [])) 4 w1 ≡ some (true, w2)
      → run_settck d w ≡ some (tt, w2)
  unfolding run_settck must_write
  settck_run w w1 w2 freq_mhz period e sent = rw (◌>>=◌, period, e, sent) refl

  pub settck_step :
      (s : Session) (tck : ℕ) (rest stale : List ℕ)
      → P s.world
      → IsGreedy s.world.net
      → Stands s.world (encode (set_tck tck) ++ rest) stale
      → 0 < tck
      → tck ≤ 2000
      → (s' : Session) × (run_command d junk s ≡ some (true, s'))
        × Carried P (set_tck tck) rest stale s s'
  unfolding run_command consume starts_with le_bytes
  settck_step s tck rest stale p greedy st some_ns short =
      let (w1, e, p1, state) =
        tunes.tck_works ((2000 + tck) / (2 * tck)) begun
          (works.frame s.world begun p refl refl refl) (period_lem tck some_ns short).0
          (omega (arith, (period_lem tck some_ns short).1)) in
      let same = quiet.set_tck_freq ((2000 + tck) / (2 * tck)) begun w1 true e in
      let greedy1 = subst IsGreedy (sym (ap (λ o. o.0) same)) greedy in
      let w2 = sent_more (le_bytes (tck ∷ [])) w1 in
      (
        record s { world = w2 },
        rw
            (
              at_command_other s.world getinfo _ stale 8 st refl,
              at_command_seen s.world settck (le_bytes (tck ∷ []) ++ rest) stale 11 st
                  (omega arith),
              ◌>>=◌,
              settck_run s.world w1 w2 ((2000 + tck) / (2 * tck))
                  (ap period_to_mhz word ∙ (period_lem tck some_ns short).2) e
                  (ap (λ t. write_full (le_bytes (t ∷ [])) 4 w1) word
                    ∙ write_full_greedy (le_bytes (tck ∷ [])) 4 w1 greedy1 (omega arith)),
            )
            refl,
        record {
          healthy = works.frame w1 w2 p1 refl refl refl;
          stands =
              Stands-behind s.world w2 (encode (set_tck tck)) rest stale st (ap (λ o. o.1) same)
                (ap (λ o. o.3) same) (ap (λ o. o.2) same);
          greedy = greedy1;
          sent = ap (λ o. o.0.sent ++ le_bytes (tck ∷ [])) same;
          state = state;
          ready = λ r. r;
          counts = sym (append-nil (map (λ (k : ShiftCommand). k.bytes) s.shift_commands));
        },
      )
    where
      begun : World
      begun = consume 11 s.world

      word : word_at s.world.buffer (s.world.buffer_begin + 7) ≡ tck
      word = word_behind s.world settck rest stale tck 7 st (omega arith) refl
