-- ===== src/Mpsse/Appends.antt =====
-- Appending to the command buffer of the MPSSE adapter, with the room made first.
use jtag_remote_server.Base.{
  ℕ, ◌+◌, ◌≤◌, ◌<◌, ◌≡◌, refl, ap, ap₂, ◌∙◌, Bool, true, false, Option, none, some, List, [], ◌∷◌,
  ◌++◌, arith, leb, ltb, length, length-append, take, append_assoc,
}
use jtag_remote_server.Tap.{JtagState}
use jtag_remote_server.World.{World, M, or_fail, check, modify, ◌>>=◌, ◌>>◌}
use jtag_remote_server.Ftdi.Retry.{IsHonest}
use jtag_remote_server.Mpsse.Buffer.{
  buffer_length, mpsse_buffer_ensure_space, mpsse_buffer_append_byte, mpsse_buffer_append,
}
use jtag_remote_server.Mpsse.Ensures.{
  Sent, Ensures, Sent-append, ensure_space_makes_room, Sent-trans, Sent-fails,
}

abbrev pub put : List ℕ → World → World
put bytes w = record w { mpsse_buffer = w.mpsse_buffer ++ bytes }

lt→ltb : (a b : ℕ) → a < b → ltb a b ≡ true
lt→ltb a b h = ground arith

le→leb : (a b : ℕ) → a ≤ b → leb a b ≡ true
le→leb a b h = ground arith

append_one :
    (a : ℕ) (k : M Bool) (w : World)
    → length w.mpsse_buffer < buffer_length
    → (mpsse_buffer_append_byte a >> k) w ≡ k (put (a ∷ []) w)
unfolding mpsse_buffer_append_byte
append_one a k w room =
    ap
      (λ ok.
        (check ok >> modify (λ v. record v { mpsse_buffer = v.mpsse_buffer ++ a ∷ [] }) >> k) w)
      (lt→ltb (length w.mpsse_buffer) buffer_length room)

put-put : (xs ys : List ℕ) (w : World) → put ys (put xs w) ≡ put (xs ++ ys) w
put-put xs ys w = λ i. record w { mpsse_buffer = append_assoc w.mpsse_buffer xs ys i }

length-put :
    (xs : List ℕ) (w : World) → length (put xs w).mpsse_buffer ≡ length w.mpsse_buffer + length xs
length-put xs w = length-append w.mpsse_buffer xs

-- Three bytes that fit, then the rest.
append_three :
    (a b c : ℕ) (k : M Bool) (w : World)
    → length w.mpsse_buffer + 3 ≤ buffer_length
    → (mpsse_buffer_append_byte a
          >> (mpsse_buffer_append_byte b >> (mpsse_buffer_append_byte c >> k)))
        w
      ≡ k (put (a ∷ b ∷ c ∷ []) w)
append_three a b c k w room =
    append_one a (mpsse_buffer_append_byte b >> (mpsse_buffer_append_byte c >> k)) w (omega arith)
    ∙ append_one b (mpsse_buffer_append_byte c >> k) (put (a ∷ []) w)
        (omega (arith, length-put (a ∷ []) w))
    ∙ ap (λ v. (mpsse_buffer_append_byte c >> k) v) (put-put (a ∷ []) (b ∷ []) w)
    ∙ append_one c k (put (a ∷ b ∷ []) w) (omega (arith, length-put (a ∷ b ∷ []) w))
    ∙ ap k (put-put (a ∷ b ∷ []) (c ∷ []) w)

pub append_bytes :
    (bytes : List ℕ) (n : ℕ) (k : M Bool) (w : World)
    → n ≤ length bytes
    → length w.mpsse_buffer + n ≤ buffer_length
    → (mpsse_buffer_append bytes n >> k) w ≡ k (put (take n bytes) w)
unfolding mpsse_buffer_append
append_bytes bytes n k w enough room =
    ap₂
      (λ p q.
        ((check p
              >> (check q
                  >> modify (λ v. record v { mpsse_buffer = v.mpsse_buffer ++ take n bytes })))
            >> k)
          w)
      (le→leb n (length bytes) enough) (le→leb (length w.mpsse_buffer + n) buffer_length room)

-- `if (!ensure_space(n)) return false;` in front of an operation that needs `n` bytes of room.
pub in_room :
    (n : ℕ) (more : List ℕ) (t : JtagState) (k : M Bool) (w : World)
    → IsHonest w.ftdi
    → n < buffer_length
    → ((w' : World)
        → Sent [] w.state w true w'
        → length w'.mpsse_buffer + n ≤ buffer_length
        → Ensures more t w' (k w'))
    → Ensures more t w (or_fail (mpsse_buffer_ensure_space n) k w)
in_room n more t k w honest fits rest =
    let (ok, w', returns, sent, room) = ensure_space_makes_room n w honest fits in
    rw (returns, ◌>>=◌) (go ok w' sent room)
  where
    go :
        (ok : Bool) (w' : World)
        → Sent [] w.state w ok w'
        → (ok ≡ true → length w'.mpsse_buffer + n ≤ buffer_length)
        → Ensures more t w (or_fail (λ v. some (ok, w')) k w)
    go true w' sent room = later (k w') (rest w' sent (room refl))
      where
        later : (q : Option (Bool × World)) → Ensures more t w' q → Ensures more t w q
        later none f = f
        later (some (b, w'')) f = Sent-trans sent f
    go false w' sent room = Sent-fails sent

-- One command of three bytes in front of the rest.
pub three_bytes :
    (a b c : ℕ) (more : List ℕ) (t : JtagState) (k : M Bool) (w : World)
    → length w.mpsse_buffer + 3 ≤ buffer_length
    → Ensures more t (put (a ∷ b ∷ c ∷ []) w) (k (put (a ∷ b ∷ c ∷ []) w))
    → Ensures (a ∷ b ∷ c ∷ more) t w (
        (mpsse_buffer_append_byte a
            >> (mpsse_buffer_append_byte b >> (mpsse_buffer_append_byte c >> k)))
          w)
three_bytes a b c more t k w room h =
    rw (append_three a b c k w room) (later (k (put (a ∷ b ∷ c ∷ []) w)) h)
  where
    later :
        (q : Option (Bool × World))
        → Ensures more t (put (a ∷ b ∷ c ∷ []) w) q
        → Ensures (a ∷ b ∷ c ∷ more) t w q
    later none f = f
    later (some (ok, w')) f = Sent-trans (Sent-append (a ∷ b ∷ c ∷ []) w room) f

pub IsHonest-after :
    {bytes : List ℕ} {t : JtagState} {w w' : World} {ok : Bool}
    → Sent bytes t w ok w'
    → IsHonest w.ftdi
    → IsHonest w'.ftdi
IsHonest-after s honest = rw s.same_device honest

-- The state before does not matter to what is ensured.
pub Ensures-of_state :
    (bytes : List ℕ) (t : JtagState) (s : JtagState) (w : World) (q : Option (Bool × World))
    → Ensures bytes t (record w { state = s }) q
    → Ensures bytes t w q
Ensures-of_state bytes t s w none f = f
Ensures-of_state bytes t s w (some (ok, w')) f = record {
  sent = f.sent;
  arrived = f.arrived;
  same_device = f.same_device;
  same_reads = f.same_reads;
  same_count = f.same_count;
  succeeds = f.succeeds;
  in_bounds = f.in_bounds;
}
