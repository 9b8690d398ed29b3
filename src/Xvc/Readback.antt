-- ===== src/Xvc/Readback.antt =====
-- The answers to the shifts, over a driver that works.
use jtag_remote_server.Base.{
  ℕ, zero, suc, ◌*◌, ◌≤◌, ◌≡◌, refl, sym, ap, subst, ◌∙◌, some, List, [], ◌∷◌, ◌++◌, arith, length,
  length-append, length-take, take, drop, replicate, length-replicate, Bool, false, append-nil,
  append_assoc, bits_from, ◌-◌,
}
use jtag_remote_server.World.{World, Net, ◌>>=◌}
use jtag_remote_server.World.Keeps.{outside}
use jtag_remote_server.Jtag.{Driver}
use jtag_remote_server.Jtag.Law.{IsQuiet, IsReliable, IsWorking-of_IsReliable, IsWorking-fixed}
use jtag_remote_server.Socket.{write_full}
use jtag_remote_server.Socket.Greedy.{IsGreedy, sent_more, write_full_greedy}
use jtag_remote_server.Xvc.Commands.{ShiftCommand, must_write}
use jtag_remote_server.Xvc.Answers.{send_back, send_all_back}
use jtag_remote_server.Xvc.Replies.{Reads, Replies, no_shift, next_shift, cleared_zeros}
use jtag_remote_server.Mpsse.Decode.{bits_of_take}
use jtag_remote_server.Xvc.Step.{Joined, AllReady}
use jtag_remote_server.Xvc.Recalled.{Recalled, recalls}

-- An asserted write, of no bytes too.
must_write_works :
    (bytes : List ℕ) (count : ℕ) (w : World)
    → IsGreedy w.net
    → (net : Net) × (must_write bytes count w ≡ some (tt, record w { net = net }))
      × IsGreedy net
      × (net.sent ≡ w.net.sent ++ take count bytes)
unfolding must_write write_full
must_write_works bytes zero w greedy = (w.net, refl, greedy, sym (append-nil w.net.sent))
must_write_works bytes (suc n) w greedy = (
  (sent_more (take (suc n) bytes) w).net,
  rw (◌>>=◌, write_full_greedy bytes (suc n) w greedy (omega arith)) refl,
  greedy,
  refl,
)

module _ (d : Driver) (P : World → Type 0) (works : IsReliable d P) (quiet : IsQuiet d) where
  -- What comes of one command.
  record Replied (c : ShiftCommand) (tdo : List ℕ) (w : World) : Type 0 where
    out : List ℕ
    bits : List Bool
    between : World
    net : Net
    returns : send_back d c tdo w ≡ some (out, record between { net = net })
    healthy : P (record between { net = net })
    greedy : IsGreedy net
    reads : Reads d c.regions w bits between
    size : length (take c.bytes out) ≡ c.bytes
    holds :
        bits_from (take c.bytes out) 0 (8 * c.bytes)
        ≡ bits ++ replicate (8 * c.bytes - c.bits) false
    sent : net.sent ≡ w.net.sent ++ take c.bytes out

  replies_one :
      (c : ShiftCommand) (tdo : List ℕ) (w : World)
      → P w
      → IsGreedy w.net
      → Joined c.regions 0 c.bits
      → c.bits ≤ 8 * c.bytes
      → c.bytes ≤ 2043
      → Replied c tdo w
  unfolding send_back bits_from
  replies_one c tdo w p greedy joined few small = record {
    out = v.out;
    bits = v.bits;
    between = v.rest;
    net = written.0;
    returns = rw (◌>>=◌, v.returns, written.1) refl;
    healthy = works.frame v.rest _ v.healthy.0 refl refl refl;
    greedy = written.2;
    reads = v.reads;
    size = omega (arith, v.same_length, room, length-take c.bytes v.out);
    holds = bits_of_take c.bytes v.out ∙ v.filled;
    sent = written.3 ∙ ap (λ o. o.0.sent ++ take c.bytes v.out) v.healthy.1;
  }
    where
      cleared : List ℕ
      cleared = replicate c.bytes 0 ++ drop c.bytes tdo

      room : c.bytes ≤ length cleared
      room = omega (
        arith,
        length-append (replicate c.bytes 0) (drop c.bytes tdo),
        length-replicate {A = ℕ} c.bytes 0,
      )

      v :
          Recalled d
            (λ u. P u × (outside u ≡ outside w))
            (IsWorking-fixed d P (outside w) quiet (IsWorking-of_IsReliable d P works))
            c.regions
            0
            c.bits
            c.bytes
            cleared
            w
      v =
          recalls d (λ u. P u × (outside u ≡ outside w))
            (IsWorking-fixed d P (outside w) quiet (IsWorking-of_IsReliable d P works)) c.regions 0
            c.bits c.bytes cleared w (p, refl) joined few room small
            (λ j above below. cleared_zeros c.bytes j (drop c.bytes tdo) below)

      written :
          (net : Net) × (must_write v.out c.bytes v.rest ≡ some (tt, record (v.rest) { net = net }))
          × IsGreedy net
          × (net.sent ≡ v.rest.net.sent ++ take c.bytes v.out)
      written =
          must_write_works v.out c.bytes v.rest
            (subst IsGreedy (sym (ap (λ o. o.0) v.healthy.1)) greedy)

  -- Shifts of at most 2043 bytes each, whose regions make up their bits, and these fit their bytes, are
  -- answered in order, over a driver that works and leaves the socket alone, and a socket that takes
  -- what it is given. The answer to each has as many bytes as its arrays, which hold the bits that the
  -- adapter gives for the data regions at their places, and zeros elsewhere.
  pub send_all_back_works :
      (cs : List ShiftCommand) (tdo : List ℕ) (w : World)
      → P w
      → IsGreedy w.net
      → AllReady cs
      → (out : List ℕ) × (w' : World) × (bytes : List ℕ) × (send_all_back d cs tdo w
          ≡ some (out, w'))
        × P w'
        × Replies d cs w bytes w'
        × (w'.net.sent ≡ w.net.sent ++ bytes)
  unfolding send_all_back
  send_all_back_works [] tdo w p greedy ready =
      (tdo, w, [], refl, p, no_shift, sym (append-nil w.net.sent))
  send_all_back_works (c ∷ cs) tdo w p greedy (joined, few, small, ready) =
      let v = replies_one c tdo w p greedy joined few small in
      let (out, w', rest, e, p', replies, sent) =
        send_all_back_works cs v.out (record (v.between) { net = v.net }) v.healthy v.greedy
          ready in
      (
        out,
        w',
        take c.bytes v.out ++ rest,
        rw (◌>>=◌, v.returns) e,
        p',
        next_shift (take c.bytes v.out) v.reads v.size v.holds v.sent replies,
        sent ∙ ap (λ t. t ++ rest) v.sent ∙ append_assoc w.net.sent (take c.bytes v.out) rest,
      )
