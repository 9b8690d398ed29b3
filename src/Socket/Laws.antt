-- ===== src/Socket/Laws.antt =====
-- `write_full` ends, and sends a prefix of its bytes: all of them exactly if it reports success.
use native.Mathlib.Nat.{le_refl}
use jtag_remote_server.Base.{
  ℕ, zero, suc, ◌+◌, ◌-◌, ◌≤◌, ◌<◌, ◌≡◌, refl, sym, ap, ◌∙◌, Bool, true, false, Option, some, List,
  ◌++◌, inl, inr, arith, ◌==◌, ==_iff, ltb, Bool-cases, Option-cases, take, drop, take-add,
  drop-drop, append_assoc, append-nil,
}
use jtag_remote_server.World.{World, Net, ◌>>=◌}
use jtag_remote_server.Socket.{write_client, write_rounds, write_full}

-- `write` takes no more than it is given.
abbrev pub IsHonest : Net → Type 0
IsHonest net = (k n m : ℕ) → net.writes k n ≡ some m → m ≤ n

-- The call returns, changes the socket only, and has sent the bytes `[from, to)`.
pub record Sends (bytes : List ℕ) (from count : ℕ) (w : World) (result : Option (Bool × World))
    : Type 0 where
  pub ok : Bool
  pub net : Net
  pub returns : result ≡ some (ok, record w { net = net })
  pub exact :
      IsHonest w.net
      → from ≤ count
      → (to : ℕ) × (net.sent ≡ w.net.sent ++ take (to - from) (drop from bytes))
        × (from ≤ to)
        × (to ≤ count)
        × (ok ≡ true → to ≡ count)
        × (to ≡ count → ok ≡ true)

no_bytes : (xs bytes : List ℕ) (i : ℕ) → xs ≡ xs ++ take (i - i) (drop i bytes)
no_bytes xs bytes i = rw nothing (sym (append-nil xs))
  where
    nothing : i - i ≡ 0
    nothing = omega arith

-- The loop stops with everything sent.
stops :
    (bytes : List ℕ) (from count : ℕ) (w : World)
    → ltb from count ≡ false
    → Sends bytes from count w (some (true, w))
stops bytes from count w e = record {
  ok = true;
  net = w.net;
  returns = refl;
  exact = λ honest le.
      (from, no_bytes w.net.sent bytes from, le_refl from, le, (λ h. ground arith), (λ h. refl));
}

-- A failing write takes nothing.
fails :
    (bytes : List ℕ) (from count : ℕ) (w : World) (net : Net)
    → from < count
    → net.sent ≡ w.net.sent
    → Sends bytes from count w (some (false, record w { net = net }))
fails bytes from count w net lt e = record {
  ok = false;
  net = net;
  returns = refl;
  exact = λ honest le. (
    from,
    e ∙ no_bytes w.net.sent bytes from,
    le_refl from,
    le,
    (λ h. cc),
    (λ h. absurd (omega arith)),
  );
}

-- A write of `n` bytes, then the rest of the loop.
continues :
    (bytes : List ℕ) (from count n : ℕ) (w : World) (net : Net) (result : Option (Bool × World))
    → net.sent ≡ w.net.sent ++ take n (drop from bytes)
    → net.writes ≡ w.net.writes
    → (IsHonest w.net → n ≤ count - from)
    → Sends bytes (from + n) count (record w { net = net }) result
    → Sends bytes from count w result
continues bytes from count n w net result sent same few rest = record {
  ok = rest.ok;
  net = rest.net;
  returns = rest.returns;
  exact = λ honest start.
      let (to, more, le, within, all, back) =
        rest.exact (rw same honest) (omega (arith, few honest)) in
      (
        to,
        more
            ∙ ap (λ x. x ++ take (to - (from + n)) (drop (from + n) bytes)) sent
            ∙ append_assoc w.net.sent (take n (drop from bytes)) _
            ∙ ap (λ x. w.net.sent ++ x) (sym (joined to le)),
        omega arith,
        within,
        all,
        back,
      );
}
  where
    joined :
        (to : ℕ)
        → from + n ≤ to
        → take (to - from) (drop from bytes)
          ≡ take n (drop from bytes) ++ take (to - (from + n)) (drop (from + n) bytes)
    joined to le =
        ap (λ k. take k (drop from bytes)) size
        ∙ take-add n (to - (from + n)) (drop from bytes)
        ∙ ap (λ x. take n (drop from bytes) ++ take (to - (from + n)) x) (drop-drop from n bytes)
      where
        size : to - from ≡ n + (to - (from + n))
        size = omega (arith, le)

nothing_taken : (xs : List ℕ) (n : ℕ) (bytes : List ℕ) → (n == 0) ≡ true → xs ++ take n bytes ≡ xs
nothing_taken xs n bytes z = ap (λ k. xs ++ take k bytes) ((==_iff n 0).0 z) ∙ append-nil xs

write_rounds-Sends :
    (rounds : ℕ) (bytes : List ℕ) (count from : ℕ) (w : World)
    → count ≤ from + rounds
    → Sends bytes from count w (write_rounds rounds bytes count from w)
unfolding write_rounds write_client
write_rounds-Sends zero bytes count from w enough = rw over (stops bytes from count w over)
  where
    over : ltb from count ≡ false
    over = ground arith
write_rounds-Sends (suc rounds) bytes count from w enough = elim (Bool-cases (ltb from count)) [
  | inl e ↦
      rw (e, write_rounds)
        (elim (Option-cases (w.net.writes w.net.calls (count - from))) [
          | inl h ↦
              rw (h, ◌>>=◌) (fails bytes from count w _ (ground arith) (append-nil w.net.sent))
          | inr (n, h) ↦
              rw (h, ◌>>=◌)
                (elim (Bool-cases (n == 0)) [
                  | inl z ↦ rw z (
                      fails bytes from count w _ (ground arith)
                        (nothing_taken w.net.sent n (drop from bytes) z))
                  | inr z ↦ rw z (
                      continues bytes from count n w _ _ refl refl
                        (λ honest. honest w.net.calls (count - from) n h)
                        (write_rounds-Sends rounds bytes count (from + n) _ (ground arith)))
                ])
        ])
  | inr e ↦ rw (e, write_rounds) (stops bytes from count w e)
]

-- `write_full` returns and changes nothing but the socket. If `write` takes no more than it is
-- given, a prefix of the first `count` bytes has been sent, in order and each byte once, and the
-- result is true exactly if that is all of them.
pub write_full-Sends :
    (bytes : List ℕ) (count : ℕ) (w : World) → Sends bytes 0 count w (write_full bytes count w)
unfolding write_full
write_full-Sends bytes count w = write_rounds-Sends count bytes count 0 w (omega arith)
