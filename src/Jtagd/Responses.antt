-- ===== src/Jtagd/Responses.antt =====
-- Responses: a header with the length of what follows, filled in at the end, and arguments.
use jtag_remote_server.Base.{
  ℕ, ◌+◌, ◌-◌, ◌/◌, ◌^◌, ◌<◌, ◌≡◌, refl, sym, ap, ap₂, subst, ◌∙◌, true, none, some, List, [], ◌∷◌,
  ◌++◌, arith, leb, u8, u16, length, length-append, set, append_assoc, append-nil, set-append,
  length-set,
}
use jtag_remote_server.World.{Run, ◌>>=◌, ◌>>◌}
use jtag_remote_server.Bitbang.Copy.{buffer_size}
use jtag_remote_server.Jtagd.{Output, Message}
use jtag_remote_server.Jtagd.Messages.{encode_message}
use jtag_remote_server.Jtagd.Sending.{put_byte, add_response, set_half, end_response}
use jtag_remote_server.Jtagd.Gathered.{Holds, Appends, put_byte-Holds}

-- The response as a message, which is how a client takes it.
abbrev pub response : ℕ → List ℕ → Message
response resp args = record { command = resp; body = args }

-- A response that has been begun, with the length still zero.
abbrev begun : List ℕ → ℕ → List ℕ → List ℕ
begun before resp args = before ++ (resp ∷ 0 ∷ 0 ∷ 0 ∷ args)

-- The calls append `args` to a response that has been begun, and end it.
abbrev pub Ends : Run Output (Unit {0}) → List ℕ → Type 0
Ends m args =
    (o : Output) (before : List ℕ) (resp : ℕ) (sofar : List ℕ)
    → Holds o (some (2 + length before)) (begun before resp sofar)
    → 6 + length before + length sofar + length args < 2 ^ 8
    → (o' : Output) × (m o ≡ some (tt, o'))
      × Holds o' none (before ++ encode_message (response resp (sofar ++ args)))

pub append-Ends :
    (m k : Run Output (Unit {0})) (xs args : List ℕ)
    → Appends m xs
    → Ends k args
    → Ends (m >> k) (xs ++ args)
append-Ends m k xs args first next o before resp sofar h room =
    let (o1, e, h1) = first o (some (2 + length before)) (begun before resp sofar) h (
      omega
        (arith, room, length-append xs args, length-append before (resp ∷ 0 ∷ 0 ∷ 0 ∷ sofar))) in
    let (o2, f, h2) =
      next o1 before resp (sofar ++ xs)
        (subst (Holds o1 (some (2 + length before)))
          (append_assoc before (resp ∷ 0 ∷ 0 ∷ 0 ∷ sofar) xs) h1)
        (omega (arith, room, length-append xs args, length-append sofar xs)) in
    (
      o2,
      rw (◌>>=◌, e) f,
      subst (λ b. Holds o2 none (before ++ encode_message (response resp b)))
          (append_assoc sofar xs args) h2,
    )

-- Filling in the length.
set_half_begun :
    (pre ys : List ℕ) (resp value : ℕ)
    → set_half (length pre + 2) value (pre ++ (resp ∷ 0 ∷ 0 ∷ 0 ∷ ys))
      ≡ pre ++ (resp ∷ 0 ∷ (value / 2 ^ 8) ∷ u8 value ∷ ys)
unfolding set_half
set_half_begun pre ys resp value =
    ap (λ xs. set xs (length pre + 2 + 1) (u8 value))
      (set-append pre (resp ∷ 0 ∷ 0 ∷ 0 ∷ ys) 2 (value / 2 ^ 8))
    ∙ ap (λ i. set (pre ++ (resp ∷ 0 ∷ (value / 2 ^ 8) ∷ 0 ∷ ys)) i (u8 value)) (omega arith)
    ∙ set-append pre (resp ∷ 0 ∷ (value / 2 ^ 8) ∷ 0 ∷ ys) 3 (u8 value)

length-set_half : (i value : ℕ) (bytes : List ℕ) → length (set_half i value bytes) ≡ length bytes
unfolding set_half
length-set_half i value bytes =
    length-set (set bytes i (value / 2 ^ 8)) (i + 1) (u8 value) ∙ length-set bytes i (value / 2 ^ 8)

pub end_response-Ends : Ends end_response []
unfolding end_response
end_response-Ends o before resp sofar h room = (
  ended,
  rw h.opened refl,
  subst (λ b. Holds ended none (before ++ encode_message (response resp b)))
      (sym (append-nil sofar))
      (record {
        high = h.high;
        low = h.low;
        stale = h.stale;
        shape = filled;
        size = length-set_half (2 + length before + 2) _ o.send_buffer ∙ h.size;
        used = omega (arith, h.used, lengths);
        fits = omega (arith, h.fits, lengths);
        opened = refl;
      }),
)
  where
    value : ℕ
    value = u16 (o.send_buffer_size + 2 ^ 16 - (2 + length before))

    ended : Output
    ended = record o {
      send_buffer = set_half (2 + length before + 2) value o.send_buffer;
      last_response = none;
    }

    lengths :
        length (before ++ encode_message (response resp sofar)) ≡ length (begun before resp sofar)
    lengths =
        length-append before (encode_message (response resp sofar))
        ∙ sym (length-append before (resp ∷ 0 ∷ 0 ∷ 0 ∷ sofar))

    value_is : value ≡ length sofar + 4
    value_is = omega (arith, h.used, room, length-append before (resp ∷ 0 ∷ 0 ∷ 0 ∷ sofar))

    pre : List ℕ
    pre = h.high ∷ h.low ∷ before

    place : 2 + length before + 2 ≡ length pre + 2
    place = omega arith

    filled :
        set_half (2 + length before + 2) value o.send_buffer
        ≡ (h.high ∷ h.low ∷ (before ++ encode_message (response resp sofar))) ++ h.stale
    filled =
        ap₂ (λ v bytes. set_half (2 + length before + 2) v bytes) value_is
          (h.shape ∙ append_assoc pre (resp ∷ 0 ∷ 0 ∷ 0 ∷ sofar) h.stale)
        ∙ ap (λ i. set_half i (length sofar + 4) (pre ++ (resp ∷ 0 ∷ 0 ∷ 0 ∷ (sofar ++ h.stale))))
            place
        ∙ set_half_begun pre (sofar ++ h.stale) resp (length sofar + 4)
        ∙ sym (append_assoc pre (encode_message (response resp sofar)) h.stale)

-- The calls append a whole response.
abbrev pub Replies : Run Output (Unit {0}) → Message → Type 0
Replies m msg =
    (o : Output) (content : List ℕ)
    → Holds o none content
    → 6 + length content + length msg.body < 2 ^ 8
    → (o' : Output) × (m o ≡ some (tt, o')) × Holds o' none (content ++ encode_message msg)

-- Between `add_response` and `end_response`, the arguments: the response has their length.
pub add_response-Replies :
    (resp : ℕ) (k : Run Output (Unit {0})) (args : List ℕ)
    → resp < 2 ^ 8
    → Ends k args
    → Replies (add_response resp >> k) (response resp args)
unfolding add_response
add_response-Replies resp k args byte next o content h room =
    let (o', e, h') = next opened content resp [] held (omega (arith, room)) in
    (o', rw (◌>>=◌, h.opened, within) e, h')
  where
    started : Output
    started = record o { last_response = some o.send_buffer_size }

    opened : Output
    opened = put_byte 0 (put_byte 0 (put_byte 0 (put_byte resp started)))

    within : leb (o.send_buffer_size + 4) buffer_size ≡ true
    within = ground (arith, h.used, room)

    first : Holds started (some (2 + length content)) content
    first = record {
      high = h.high;
      low = h.low;
      stale = h.stale;
      shape = h.shape;
      size = h.size;
      used = h.used;
      fits = h.fits;
      opened = ap some h.used;
    }

    add :
        (v : ℕ) (o1 : Output) (xs : List ℕ)
        → Holds o1 (some (2 + length content)) xs
        → 3 + length xs < 2 ^ 8
        → Holds (put_byte v o1) (some (2 + length content)) (xs ++ (u8 v ∷ []))
    add v o1 xs = put_byte-Holds v o1 (some (2 + length content)) xs

    len1 : length (content ++ (u8 resp ∷ [])) ≡ length content + 1
    len1 = length-append content (u8 resp ∷ [])

    len2 : length ((content ++ (u8 resp ∷ [])) ++ (0 ∷ [])) ≡ length content + 2
    len2 = omega (arith, length-append (content ++ (u8 resp ∷ [])) (0 ∷ []), len1)

    len3 : length (((content ++ (u8 resp ∷ [])) ++ (0 ∷ [])) ++ (0 ∷ [])) ≡ length content + 3
    len3 = omega (arith, length-append ((content ++ (u8 resp ∷ [])) ++ (0 ∷ [])) (0 ∷ []), len2)

    byte_is : u8 resp ≡ resp
    byte_is = omega (arith, byte)

    joined :
        (((content ++ (u8 resp ∷ [])) ++ (0 ∷ [])) ++ (0 ∷ [])) ++ (0 ∷ []) ≡ begun content resp []
    joined = rw byte_is (simp append_assoc)

    held : Holds opened (some (2 + length content)) (begun content resp [])
    held = subst (Holds opened (some (2 + length content))) joined (
        add 0 (put_byte 0 (put_byte 0 (put_byte resp started))) _
          (add 0 (put_byte 0 (put_byte resp started)) _
            (add 0 (put_byte resp started) _ (add resp started content first (omega (arith, room)))
              (omega (arith, room, len1)))
            (omega (arith, room, len1, len2)))
          (omega (arith, room, len1, len2, len3)))
