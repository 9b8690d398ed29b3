-- ===== src/Socket/Buffer.antt =====
-- The buffer of `read_socket`: what is in it, before and after.
use jtag_remote_server.Base.{
  ℕ, ◌+◌, ◌-◌, ◌≤◌, ◌<◌, ◌≡◌, refl, ap, ◌∙◌, Bool, true, false, Option, none, some, List, [], ◌∷◌,
  ◌++◌, arith, ◌&&◌, ◌==◌, ==_iff, ltb, Bool-cases, Option-cases, inl, inr, length, length-append,
  length-take, length-drop, take, drop,
}
use jtag_remote_server.World.{World, ◌>>=◌}
use jtag_remote_server.Bitbang.Copy.{buffer_size}
use jtag_remote_server.Socket.{
  read_client, close_client, make_room, fill_buffer, read_more, read_socket,
}

-- The positions are in order and within the array.
pub record InOrder (w : World) : Type 0 where
  pub size : length w.buffer ≡ buffer_size
  pub forward : w.buffer_begin ≤ w.buffer_end
  pub within : w.buffer_end ≤ buffer_size

-- The bytes that are not consumed yet.
abbrev pub pending : World → List ℕ
pending w = take (w.buffer_end - w.buffer_begin) (drop w.buffer_begin w.buffer)

make_room-InOrder : (w : World) → InOrder w → InOrder (make_room w)
unfolding make_room
make_room-InOrder w p = elim (Bool-cases (ltb 0 w.buffer_begin && w.buffer_end == buffer_size)) [
  | inl e ↦ rw e (record {
    size = omega (
      arith,
      p.size,
      p.forward,
      p.within,
      length-append (take (w.buffer_end - w.buffer_begin) (drop w.buffer_begin w.buffer))
          (drop (w.buffer_end - w.buffer_begin) w.buffer),
      length-take (w.buffer_end - w.buffer_begin) (drop w.buffer_begin w.buffer),
      length-drop w.buffer_begin w.buffer,
      length-drop (w.buffer_end - w.buffer_begin) w.buffer,
    );
    forward = omega arith;
    within = omega (arith, p.within);
  })
  | inr e ↦ elim (Bool-cases (w.buffer_begin == w.buffer_end)) [
    | inl f ↦ rw (e, f) (record { size = p.size; forward = omega arith; within = omega arith })
    | inr f ↦ rw (e, f) p
  ]
]

fill_buffer-InOrder :
    (bytes : List ℕ) (w : World)
    → InOrder w
    → length bytes ≤ buffer_size - w.buffer_end
    → InOrder (fill_buffer bytes w)
unfolding fill_buffer
fill_buffer-InOrder bytes w p fits = record {
  size = omega (
    arith,
    p.size,
    p.forward,
    p.within,
    fits,
    length-append (take w.buffer_begin w.buffer)
        (bytes ++ drop (w.buffer_begin + length bytes) w.buffer),
    length-append bytes (drop (w.buffer_begin + length bytes) w.buffer),
    length-take w.buffer_begin w.buffer,
    length-drop (w.buffer_begin + length bytes) w.buffer,
  );
  forward = omega (arith, p.forward);
  within = omega (arith, p.within, fits);
}

-- What `read_socket` comes to: it returns, with the positions in order; if it reports that the client
-- is gone, the descriptor is cleared and nothing is pending.
pub record Filled (result : Option (Bool × World)) : Type 0 where
  pub ok : Bool
  pub rest : World
  pub returns : result ≡ some (ok, rest)
  pub in_order : InOrder rest
  pub gone :
      ok ≡ false → (rest.net.client_fd ≡ none) × (rest.buffer_begin ≡ 0) × (rest.buffer_end ≡ 0)

calling : World → World
calling w = record w { net = record (w.net) { calls = w.net.calls + 1 } }

calling-InOrder : (w : World) → InOrder w → InOrder (calling w)
unfolding calling
calling-InOrder w p = record { size = p.size; forward = p.forward; within = p.within }

-- The three outcomes of the `read`.
read_more_full : (w : World) → ltb w.buffer_end buffer_size ≡ false → read_more w ≡ some (true, w)
unfolding read_more
read_more_full w e = rw e refl

read_more_fails :
    (w : World)
    → ltb w.buffer_end buffer_size ≡ true
    → w.net.reads w.net.calls (buffer_size - w.buffer_end) ≡ none
    → read_more w ≡ some (true, calling w)
unfolding read_more read_client calling
read_more_fails w e h = rw (e, ◌>>=◌, h) refl

read_more_ends :
    (w : World) (bytes : List ℕ)
    → ltb w.buffer_end buffer_size ≡ true
    → w.net.reads w.net.calls (buffer_size - w.buffer_end) ≡ some bytes
    → (length bytes == 0) ≡ true
    → read_more w
      ≡ some (
        false,
        record w {
          net = record (w.net) { calls = w.net.calls + 1; client_fd = none };
          buffer_begin = 0;
          buffer_end = 0;
        },
      )
unfolding read_more read_client close_client
read_more_ends w bytes e h z = rw (e, ◌>>=◌, h, z) refl

read_more_takes :
    (w : World) (bytes : List ℕ)
    → ltb w.buffer_end buffer_size ≡ true
    → w.net.reads w.net.calls (buffer_size - w.buffer_end) ≡ some bytes
    → (length bytes == 0) ≡ false
    → read_more w ≡ some (true, fill_buffer bytes (calling w))
unfolding read_more read_client calling
read_more_takes w bytes e h z = rw (e, ◌>>=◌, h, z) refl

read_more-Filled :
    (w : World)
    → ((k n : ℕ) (bytes : List ℕ) → w.net.reads k n ≡ some bytes → length bytes ≤ n)
    → InOrder w
    → Filled (read_more w)
unfolding calling
read_more-Filled w honest p = elim (Bool-cases (ltb w.buffer_end buffer_size)) [
  | inl e ↦ elim (Option-cases (w.net.reads w.net.calls (buffer_size - w.buffer_end))) [
    | inl h ↦ record {
      ok = true;
      rest = calling w;
      returns = read_more_fails w e h;
      in_order = calling-InOrder w p;
      gone = λ f. cc;
    }
    | inr (bytes, h) ↦ elim (Bool-cases (length bytes == 0)) [
      | inl z ↦ record {
        ok = false;
        rest = record w {
          net = record (w.net) { calls = w.net.calls + 1; client_fd = none };
          buffer_begin = 0;
          buffer_end = 0;
        };
        returns = read_more_ends w bytes e h z;
        in_order = record { size = p.size; forward = omega arith; within = omega arith };
        gone = λ f. (refl, refl, refl);
      }
      | inr z ↦ record {
        ok = true;
        rest = fill_buffer bytes (calling w);
        returns = read_more_takes w bytes e h z;
        in_order =
            fill_buffer-InOrder bytes (calling w) (calling-InOrder w p)
              (honest w.net.calls (buffer_size - w.buffer_end) bytes h);
        gone = λ f. cc;
      }
    ]
  ]
  | inr e ↦ record {
    ok = true;
    rest = w;
    returns = read_more_full w e;
    in_order = p;
    gone = λ f. cc;
  }
]

make_room-net : (w : World) → (make_room w).net ≡ w.net
unfolding make_room
make_room-net w = elim (Bool-cases (ltb 0 w.buffer_begin && w.buffer_end == buffer_size)) [
  | inl e ↦ rw e refl
  | inr e ↦ elim (Bool-cases (w.buffer_begin == w.buffer_end)) [
    | inl f ↦ rw (e, f) refl
    | inr f ↦ rw (e, f) refl
  ]
]

-- With a `read` that gives no more than it is asked for, and positions in order within the array,
-- `read_socket` returns and they are so again; if it reports that the client is gone, the descriptor is
-- cleared and the buffer is empty.
pub read_socket-Filled :
    (w : World)
    → ((k n : ℕ) (bytes : List ℕ) → w.net.reads k n ≡ some bytes → length bytes ≤ n)
    → InOrder w
    → Filled (read_socket w)
unfolding read_socket
read_socket-Filled w honest p =
    read_more-Filled (make_room w) (rw (make_room-net w) honest) (make_room-InOrder w p)

take_front : (xs ys : List ℕ) → take (length xs) (xs ++ ys) ≡ xs
take_front [] [] = refl
take_front [] (y ∷ ys) = refl
take_front (x ∷ xs) ys = ap (λ t. x ∷ t) (take_front xs ys)

make_room_empty :
    (w : World)
    → w.buffer_begin ≡ w.buffer_end
    → ((make_room w).buffer_begin ≡ 0) × ((make_room w).buffer_end ≡ 0)
unfolding make_room
make_room_empty w nothing =
    elim (Bool-cases (ltb 0 w.buffer_begin && w.buffer_end == buffer_size)) [
      | inl e ↦ rw e (refl, omega arith)
      | inr e ↦ rw (e, (==_iff w.buffer_begin w.buffer_end).1 nothing) (refl, refl)
    ]

fill_buffer_empty :
    (w : World) (bytes : List ℕ)
    → w.buffer_begin ≡ 0
    → w.buffer_end ≡ 0
    → pending (fill_buffer bytes w) ≡ bytes
unfolding fill_buffer
fill_buffer_empty w bytes b e =
    rw (b, e)
      (ap (λ n. take n (bytes ++ drop (0 + length bytes) w.buffer)) size ∙ take_front bytes _)
  where
    size : 0 + length bytes - 0 ≡ length bytes
    size = omega arith

-- If nothing is pending, what is pending afterwards are the bytes that are read.
pub read_socket_fresh :
    (w : World) (bytes : List ℕ)
    → w.buffer_begin ≡ w.buffer_end
    → w.net.reads w.net.calls buffer_size ≡ some bytes
    → 0 < length bytes
    → (w' : World) × (read_socket w ≡ some (true, w')) × (pending w' ≡ bytes)
unfolding read_socket calling
read_socket_fresh w bytes nothing e some_bytes =
    let (b, f) = make_room_empty w nothing in
    (
      fill_buffer bytes (calling (make_room w)),
      read_more_takes (make_room w) bytes (ground arith) (rw (make_room-net w, f) e) (ground arith),
      fill_buffer_empty (calling (make_room w)) bytes b f,
    )
