-- ===== src/Jtagd/Gathered.antt =====
-- What has been gathered in the send buffer, and what the calls that add to it append.
use jtag_remote_server.Base.{
  ℕ, ◌+◌, ◌^◌, ◌≤◌, ◌<◌, ◌≡◌, refl, sym, ap, ap₂, subst, ◌∙◌, true, Option, some, List, [], ◌∷◌,
  ◌++◌, arith, leb, u8, length, length-append, take, drop, append_assoc, take-append, drop-append,
  drop-drop, length-take, length-drop, set-take-drop,
}
use jtag_remote_server.World.{Run, ◌>>=◌, ◌>>◌}
use jtag_remote_server.Bitbang.Copy.{buffer_size}
use jtag_remote_server.Jtagd.{Output}
use jtag_remote_server.Jtagd.Sending.{put_byte, put_bytes, add_string, be_bytes, add_int, add_array}

-- The buffer holds `content` behind the two bytes that are left for the header, and the count is not
-- wrapped around; `last` is the response that is not ended.
pub record Holds (o : Output) (last : Option ℕ) (content : List ℕ) : Type 0 where
  pub high : ℕ
  pub low : ℕ
  pub stale : List ℕ
  pub shape : o.send_buffer ≡ (high ∷ low ∷ content) ++ stale
  pub size : length o.send_buffer ≡ buffer_size
  pub used : o.send_buffer_size ≡ 2 + length content
  pub fits : 2 + length content < 2 ^ 8
  pub opened : o.last_response ≡ last

put_bytes-Holds :
    (bytes : List ℕ) (o : Output) (last : Option ℕ) (content : List ℕ)
    → Holds o last content
    → 2 + length content + length bytes < 2 ^ 8
    → Holds (put_bytes bytes o) last (content ++ bytes)
unfolding put_bytes
put_bytes-Holds bytes o last content h room = record {
  high = h.high;
  low = h.low;
  stale = drop (length bytes) h.stale;
  shape = reshaped;
  size = omega (
    arith,
    ap length reshaped,
    length-append (h.high ∷ h.low ∷ (content ++ bytes)) (drop (length bytes) h.stale),
    length-append content bytes,
    length-drop (length bytes) h.stale,
    ap length h.shape,
    length-append (h.high ∷ h.low ∷ content) h.stale,
    h.size,
    room,
  );
  used = omega (arith, h.used, length-append content bytes);
  fits = omega (arith, length-append content bytes);
  opened = h.opened;
}
  where
    before : List ℕ
    before = h.high ∷ h.low ∷ content

    count : o.send_buffer_size ≡ length before
    count = omega (arith, h.used)

    kept : take o.send_buffer_size o.send_buffer ≡ before
    kept = ap₂ take count h.shape ∙ take-append before h.stale

    over : drop (o.send_buffer_size + length bytes) o.send_buffer ≡ drop (length bytes) h.stale
    over =
        sym (drop-drop o.send_buffer_size (length bytes) o.send_buffer)
        ∙ ap (drop (length bytes)) (ap₂ drop count h.shape ∙ drop-append before h.stale)

    reshaped :
        take o.send_buffer_size o.send_buffer
          ++ (bytes ++ drop (o.send_buffer_size + length bytes) o.send_buffer)
        ≡ (h.high ∷ h.low ∷ (content ++ bytes)) ++ drop (length bytes) h.stale
    reshaped = rw (kept, over) (sym (append_assoc before bytes (drop (length bytes) h.stale)))

-- A byte is a run of one.
put_byte-put_bytes :
    (v : ℕ) (o : Output)
    → o.send_buffer_size < length o.send_buffer
    → put_byte v o ≡ put_bytes (u8 v ∷ []) o
unfolding put_byte put_bytes
put_byte-put_bytes v o h =
    ap (λ b. record o { send_buffer = b; send_buffer_size = u8 (o.send_buffer_size + 1) })
      (set-take-drop o.send_buffer o.send_buffer_size (u8 v) h)

-- The call appends `bytes`, if there is room.
abbrev pub Appends : Run Output (Unit {0}) → List ℕ → Type 0
Appends m bytes =
    (o : Output) (last : Option ℕ) (content : List ℕ)
    → Holds o last content
    → 2 + length content + length bytes < 2 ^ 8
    → (o' : Output) × (m o ≡ some (tt, o')) × Holds o' last (content ++ bytes)

pub add_int-Appends : (value : ℕ) → Appends (add_int value) (be_bytes value)
unfolding add_int be_bytes
add_int-Appends value o last content h room = (
  put_bytes (be_bytes value) o,
  rw (◌>>=◌, within) refl,
  put_bytes-Holds (be_bytes value) o last content h room,
)
  where
    within : leb (o.send_buffer_size + 4) buffer_size ≡ true
    within = ground (arith, h.used)

pub add_array-Appends :
    (bytes : List ℕ) (n : ℕ) → n ≤ length bytes → Appends (add_array bytes n) (take n bytes)
unfolding add_array
add_array-Appends bytes n whole o last content h room = (
  put_bytes (take n bytes) o,
  rw (◌>>=◌, within) refl,
  put_bytes-Holds (take n bytes) o last content h room,
)
  where
    within : leb (o.send_buffer_size + n) buffer_size ≡ true
    within = ground (arith, h.used, room, length-take n bytes, whole)

pub add_string-Appends : (bytes : List ℕ) → Appends (add_string bytes) (u8 (length bytes) ∷ bytes)
unfolding add_string
add_string-Appends bytes o last content h room =
    let h1 =
      subst (λ o1. Holds o1 last (content ++ (u8 (length bytes) ∷ [])))
        (sym (put_byte-put_bytes (length bytes) o (omega (arith, h.used, h.size, room))))
        (put_bytes-Holds (u8 (length bytes) ∷ []) o last content h (omega (arith, room))) in
    (
      put_bytes bytes (put_byte (length bytes) o),
      rw (◌>>=◌, short, within) refl,
      subst (Holds _ last) (append_assoc content (u8 (length bytes) ∷ []) bytes) (
          put_bytes-Holds bytes (put_byte (length bytes) o) last _ h1
            (omega (arith, length-append content (u8 (length bytes) ∷ []), room))),
    )
  where
    short : leb (length bytes) 0xff ≡ true
    short = ground (arith, room)

    within : leb (o.send_buffer_size + 1 + length bytes) buffer_size ≡ true
    within = ground (arith, h.used, room)

-- One call behind the other.
pub then-Appends :
    (m k : Run Output (Unit {0})) (xs ys : List ℕ)
    → Appends m xs
    → Appends k ys
    → Appends (m >> k) (xs ++ ys)
then-Appends m k xs ys first next o last content h room =
    let (o1, e, h1) = first o last content h (omega (arith, room, length-append xs ys)) in
    let (o2, f, h2) =
      next o1 last (content ++ xs) h1
        (omega (arith, room, length-append xs ys, length-append content xs)) in
    (o2, rw (◌>>=◌, e) f, subst (Holds o2 last) (append_assoc content xs ys) h2)

pub put_byte-Holds :
    (v : ℕ) (o : Output) (last : Option ℕ) (content : List ℕ)
    → Holds o last content
    → 3 + length content < 2 ^ 8
    → Holds (put_byte v o) last (content ++ (u8 v ∷ []))
put_byte-Holds v o last content h room =
    subst (λ o1. Holds o1 last (content ++ (u8 v ∷ [])))
      (sym (put_byte-put_bytes v o (omega (arith, h.used, h.size, room))))
      (put_bytes-Holds (u8 v ∷ []) o last content h (omega (arith, room)))
