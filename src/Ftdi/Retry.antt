-- ===== src/Ftdi/Retry.antt =====
-- The retry loops neither lose nor repeat a byte, and report success exactly when all went through.
use jtag_remote_server.Base.{
  ℕ, zero, suc, ◌+◌, ◌-◌, ◌≤◌, ◌≡◌, refl, sym, ap, ◌∙◌, Bool, true, Option, none, some, inl, inr,
  Option-cases, List, ◌++◌, arith, ◌==◌, ==_iff, ltb, min, ◌*◌, Bool-cases, take, drop, take-add,
  drop-drop, append-nil, append_assoc,
}
use native.Mathlib.Nat.{zero-mul, suc-mul, le_refl}
use jtag_remote_server.World.{Ftdi, World}
use jtag_remote_server.Ftdi.{write_data, write_loop, ftdi_write_retry}

-- libftdi returns at most the number of bytes that it was given.
abbrev pub IsHonest : Ftdi → Type 0
IsHonest dev = (k n m : ℕ) → dev.write_data k n ≡ some m → m ≤ n

-- `dev'` is `dev` after some calls that took the bytes `[from, to)` of `bytes`.
pub record Took (bytes : List ℕ) (offset to : ℕ) (dev dev' : Ftdi) : Type 0 where
  pub wire : dev'.wire ≡ dev.wire ++ take (to - offset) (drop offset bytes)
  pub same_device : dev'.write_data ≡ dev.write_data
  pub same_reads : dev'.read_data ≡ dev.read_data
  pub forward : offset ≤ to

pub record Written (bytes : List ℕ) (len offset : ℕ) (dev : Ftdi) (result : Bool × Ftdi)
    : Type 0 where
  pub to : ℕ
  pub took : Took bytes offset to dev result.1
  pub within : to ≤ len
  pub all : (result.0 ≡ true → to ≡ len) × (to ≡ len → result.0 ≡ true)

Took-none : (bytes : List ℕ) (offset : ℕ) (dev : Ftdi) → Took bytes offset offset dev dev
Took-none bytes offset dev = record {
  wire = sym (ap (λ n. dev.wire ++ take n (drop offset bytes)) nothing ∙ append-nil dev.wire);
  same_device = refl;
  same_reads = refl;
  forward = le_refl offset;
}
  where
    nothing : offset - offset ≡ 0
    nothing = omega arith

Took-trans :
    {bytes : List ℕ} {i j k : ℕ} {dev dev' dev'' : Ftdi}
    → Took bytes i j dev dev'
    → Took bytes j k dev' dev''
    → Took bytes i k dev dev''
Took-trans {bytes} {i} {j} {k} {dev} s t = record {
  wire =
      t.wire
      ∙ ap (λ x. x ++ take (k - j) (drop j bytes)) s.wire
      ∙ append_assoc dev.wire _ _
      ∙ ap (λ x. dev.wire ++ x) (sym joined);
  same_device = t.same_device ∙ s.same_device;
  same_reads = t.same_reads ∙ s.same_reads;
  forward = omega (arith, s, t);
}
  where
    size : k - i ≡ j - i + (k - j)
    size = omega (arith, s.forward, t.forward)

    start : i + (j - i) ≡ j
    start = omega (arith, s.forward)

    joined :
        take (k - i) (drop i bytes) ≡ take (j - i) (drop i bytes) ++ take (k - j) (drop j bytes)
    joined =
        ap (λ n. take n (drop i bytes)) size
        ∙ take-add (j - i) (k - j) (drop i bytes)
        ∙ ap (λ x. take (j - i) (drop i bytes) ++ take (k - j) x)
            (drop-drop i (j - i) bytes ∙ ap (λ n. drop n bytes) start)

-- A loop that stops at `offset` reports whether that is the end.
stops :
    (bytes : List ℕ) (len offset : ℕ) (dev : Ftdi)
    → offset ≤ len
    → Written bytes len offset dev (offset == len, dev)
stops bytes len offset dev le = record {
  to = offset;
  took = Took-none bytes offset dev;
  within = le;
  all = ==_iff offset len;
}

continues :
    {bytes : List ℕ} {len offset next : ℕ} {dev dev' : Ftdi} {result : Bool × Ftdi}
    → Took bytes offset next dev dev'
    → Written bytes len next dev' result
    → Written bytes len offset dev result
continues t v = record { to = v.to; took = Took-trans t v.took; within = v.within; all = v.all }

-- One call that takes `n` bytes, and one that fails.
write_data-Took :
    (bytes : List ℕ) (offset count n : ℕ) (dev : Ftdi)
    → IsHonest dev
    → (write_data (drop offset bytes) count dev).0 ≡ some n
    → Took bytes offset (offset + n) dev (write_data (drop offset bytes) count dev).1 × (n ≤ count)
unfolding write_data
write_data-Took bytes offset count n dev honest h = (
  record {
    wire = rw h (ap (λ k. dev.wire ++ take k (drop offset bytes)) size);
    same_device = refl;
    same_reads = refl;
    forward = omega arith;
  },
  honest dev.calls count n h,
)
  where
    size : n ≡ offset + n - offset
    size = omega arith

write_data-none :
    (bytes : List ℕ) (offset count : ℕ) (dev : Ftdi)
    → (write_data (drop offset bytes) count dev).0 ≡ none
    → Took bytes offset offset dev (write_data (drop offset bytes) count dev).1
unfolding write_data
write_data-none bytes offset count dev h = record {
  wire = rw h (append-nil dev.wire ∙ (Took-none bytes offset dev).wire);
  same_device = refl;
  same_reads = refl;
  forward = le_refl offset;
}

write_loop-Written :
    (retry : ℕ) (bytes : List ℕ) (len offset : ℕ) (dev : Ftdi)
    → IsHonest dev
    → offset ≤ len
    → Written bytes len offset dev (write_loop retry bytes len offset dev)
unfolding write_loop
write_loop-Written zero bytes len offset dev honest le = stops bytes len offset dev le
write_loop-Written (suc retry) bytes len offset dev honest le = elim (Bool-cases (ltb offset len)) [
  | inl e ↦
      rw (e, write_loop)
        (elim (Option-cases (write_data (drop offset bytes) (len - offset) dev).0) [
          | inl h ↦
              rw (h, write_loop)
                (record {
                  to = offset;
                  took = write_data-none bytes offset (len - offset) dev h;
                  within = le;
                  all = ((λ f. cc), (λ f. ground arith));
                })
          | inr (n, h) ↦
              let (took, few) = write_data-Took bytes offset (len - offset) n dev honest h in
              rw (h, write_loop)
                (continues took (
                  write_loop-Written retry bytes len (offset + n)
                    (write_data (drop offset bytes) (len - offset) dev).1
                    (rw (took.same_device) honest) (omega (arith, few))))
        ])
  | inr e ↦ rw (e, write_loop) (stops bytes len offset dev le)
]

-- A device that takes at least `q` bytes of each write, or all of it.
abbrev pub IsSteady : ℕ → Ftdi → Type 0
IsSteady q dev = (k n : ℕ) → (m : ℕ) × (dev.write_data k n ≡ some m) × (min n q ≤ m)

write_data-IsSteady :
    (q : ℕ) (bytes : List ℕ) (count : ℕ) (dev : Ftdi)
    → IsSteady q dev
    → (n : ℕ) × ((write_data bytes count dev).0 ≡ some n)
      × (min count q ≤ n)
      × IsSteady q (write_data bytes count dev).1
unfolding write_data
write_data-IsSteady q bytes count dev steady =
    let (n, h, enough) = steady dev.calls count in (n, h, enough, steady)

write_loop_succeeds :
    (retry q : ℕ) (bytes : List ℕ) (len offset : ℕ) (dev : Ftdi)
    → IsSteady q dev
    → IsHonest dev
    → offset ≤ len
    → len ≤ offset + retry * q
    → (write_loop retry bytes len offset dev).0 ≡ true
unfolding write_loop
write_loop_succeeds zero q bytes len offset dev steady honest le room = ground (arith, zero-mul q)
write_loop_succeeds (suc retry) q bytes len offset dev steady honest le room =
    elim (Bool-cases (ltb offset len)) [
      | inl e ↦
          let (n, h, enough, still) =
            write_data-IsSteady q (drop offset bytes) (len - offset) dev steady in
          let (took, few) = write_data-Took bytes offset (len - offset) n dev honest h in
          rw (e, write_loop)
            (rw (h, write_loop)
              (write_loop_succeeds retry q bytes len (offset + n)
                (write_data (drop offset bytes) (len - offset) dev).1 still
                (rw took.same_device honest) (omega (arith, few))
                (omega (arith, few, enough, suc-mul retry q))))
      | inr e ↦ rw (e, write_loop) (ground arith)
    ]

-- What a call of `ftdi_write_retry` does: it returns, changes nothing but the device, and the device
-- has taken the first `to` bytes, all of them exactly if the call reports success.
pub record Delivery (bytes : List ℕ) (len : ℕ) (w : World) (result : Option (Bool × World))
    : Type 0 where
  pub ok : Bool
  pub to : ℕ
  pub dev : Ftdi
  pub returns : result ≡ some (ok, record w { ftdi = dev })
  pub wire : dev.wire ≡ w.ftdi.wire ++ take to bytes
  pub within : to ≤ len
  pub all : (ok ≡ true → to ≡ len) × (to ≡ len → ok ≡ true)
  pub same_device : dev.write_data ≡ w.ftdi.write_data
  pub same_reads : dev.read_data ≡ w.ftdi.read_data
  pub succeeds : IsSteady 82 w.ftdi → len ≤ 8200 → ok ≡ true

-- With a device that takes no more than it is given, `ftdi_write_retry` sends a prefix of the bytes,
-- in order and each once, and reports success exactly if that is all of them. If the device takes
-- at least 82 bytes of each write, or all of it, the 100 tries are enough for 8200 bytes.
pub ftdi_write_retry_delivers :
    (bytes : List ℕ) (len : ℕ) (w : World)
    → IsHonest w.ftdi
    → Delivery bytes len w (ftdi_write_retry bytes len w)
unfolding ftdi_write_retry
ftdi_write_retry_delivers bytes len w honest = record {
  ok = (write_loop 100 bytes len 0 w.ftdi).0;
  to = v.to;
  dev = (write_loop 100 bytes len 0 w.ftdi).1;
  returns = refl;
  wire = v.took.wire ∙ ap (λ k. w.ftdi.wire ++ take k bytes) whole;
  within = v.within;
  all = v.all;
  same_device = v.took.same_device;
  same_reads = v.took.same_reads;
  succeeds = λ steady small.
      write_loop_succeeds 100 82 bytes len 0 w.ftdi steady honest (omega arith) (omega arith);
}
  where
    v : Written bytes len 0 w.ftdi (write_loop 100 bytes len 0 w.ftdi)
    v = write_loop-Written 100 bytes len 0 w.ftdi honest (omega arith)

    whole : v.to - 0 ≡ v.to
    whole = omega arith
