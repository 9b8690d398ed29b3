-- ===== src/Socket/Greedy.antt =====
-- A socket that takes what it is given.
use jtag_remote_server.Base.{
  ℕ, zero, suc, ◌+◌, ◌-◌, ◌<◌, ◌≡◌, refl, true, false, some, List, ◌++◌, arith, ◌==◌, ltb, take,
}
use jtag_remote_server.World.{World, Net, ◌>>=◌}
use jtag_remote_server.Socket.{write_client, write_rounds, write_full}

-- `write` takes what it is given.
abbrev pub IsGreedy : Net → Type 0
IsGreedy net = (k n : ℕ) → net.writes k n ≡ some n

abbrev pub sent_more : List ℕ → World → World
sent_more bytes w = record w {
  net = record (w.net) { calls = w.net.calls + 1; sent = w.net.sent ++ bytes };
}

write_client_greedy :
    (bytes : List ℕ) (count : ℕ) (w : World)
    → IsGreedy w.net
    → write_client bytes count w ≡ some (some count, sent_more (take count bytes) w)
unfolding write_client
write_client_greedy bytes count w greedy = rw (greedy w.net.calls count) refl

pub write_full_greedy :
    (bytes : List ℕ) (count : ℕ) (w : World)
    → IsGreedy w.net
    → 0 < count
    → write_full bytes count w ≡ some (true, sent_more (take count bytes) w)
unfolding write_full write_rounds
write_full_greedy bytes zero w greedy some_bytes = absurd (omega arith)
write_full_greedy bytes (suc n) w greedy some_bytes =
    rw
      (
        write_full,
        write_rounds,
        more,
        minus,
        ◌>>=◌,
        write_client_greedy bytes (suc n) w greedy,
        full,
      )
      (done n)
  where
    minus : suc n - 0 ≡ suc n
    minus = omega arith

    more : ltb 0 (suc n) ≡ true
    more = ground arith

    full : (suc n == 0) ≡ false
    full = ground arith

    all : ltb (0 + suc n) (suc n) ≡ false
    all = ground arith

    done :
        (rounds : ℕ)
        → write_rounds rounds bytes (suc n) (0 + suc n) (sent_more (take (suc n) bytes) w)
          ≡ some (true, sent_more (take (suc n) bytes) w)
    done zero = rw (write_rounds, all) refl
    done (suc rounds) = rw (write_rounds, all) refl
