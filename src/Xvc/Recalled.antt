-- ===== src/Xvc/Recalled.antt =====
-- The regions of one shift, read back over a driver that works.
use jtag_remote_server.Base.{
  ℕ, ◌*◌, ◌≤◌, ◌≡◌, refl, ◌∙◌, Bool-cases, inl, inr, some, List, [], ◌∷◌, ◌++◌, arith, length,
  replicate, length-replicate, Bool, true, false, bits_from,
}
use jtag_remote_server.World.{World, ◌>>=◌}
use jtag_remote_server.Jtag.{Driver, jtag_scan_chain_recv}
use jtag_remote_server.Jtag.Law.{IsWorking}
use jtag_remote_server.Bitbang.{Region, region_length}
use jtag_remote_server.Bitbang.Copy.{buffer_size}
use jtag_remote_server.Xvc.Answers.{recv_region, recv_regions}
use jtag_remote_server.Xvc.Paste.{length-paste_bits}
use jtag_remote_server.Xvc.Replies.{
  Reads, no_region, walked, shifted, Joined-le, Clear, Filled, Filled-nil, Filled-walked, pasted,
  Clear-pasted, Filled-pasted,
}
use jtag_remote_server.Xvc.Step.{Joined}

module _ (d : Driver) (P : World → Type 0) (works : IsWorking d P) where
  -- What comes of some regions: their bits are read, and stand in the array.
  pub record Recalled (rs : List Region) (i n size : ℕ) (tdo : List ℕ) (w : World) : Type 0 where
    pub out : List ℕ
    pub bits : List Bool
    pub rest : World
    pub returns : recv_regions d rs tdo w ≡ some (out, rest)
    pub healthy : P rest
    pub same_length : length out ≡ length tdo
    pub reads : Reads d rs w bits rest
    pub filled : Filled out tdo i n size bits

  recalled_one :
      (r : Region) (rs : List Region) (tdo out : List ℕ) (w w1 w2 : World)
      → recv_region d r tdo w ≡ some (out, w1)
      → (result : List ℕ) → recv_regions d rs out w1 ≡ some (result, w2)
      → recv_regions d (r ∷ rs) tdo w ≡ some (result, w2)
  unfolding recv_regions
  recalled_one r rs tdo out w w1 w2 e result f = rw (◌>>=◌, e) f

  skips :
      (r : Region) (tdo : List ℕ) (w : World)
      → r.is_tms ≡ true
      → recv_region d r tdo w ≡ some (tdo, w)
  unfolding recv_region
  skips r tdo w e = rw e refl

  pastes :
      (r : Region) (tdo buffer : List ℕ) (w w1 : World)
      → r.is_tms ≡ false
      → jtag_scan_chain_recv d (replicate buffer_size 0) (region_length r) r.flip_tms w
        ≡ some ((true, buffer), w1)
      → recv_region d r tdo w ≡ some (pasted buffer r tdo, w1)
  unfolding recv_region
  pastes r tdo buffer w w1 e f = rw (e, ◌>>=◌, f) refl

  pub recalls :
      (rs : List Region) (i n size : ℕ) (tdo : List ℕ) (w : World)
      → P w
      → Joined rs i n
      → n ≤ 8 * size
      → size ≤ length tdo
      → size ≤ 2043
      → Clear tdo i size
      → Recalled rs i n size tdo w
  unfolding recv_regions jtag_scan_chain_recv
  recalls [] i n size tdo w p e inside room few clear = record {
    out = tdo;
    bits = [];
    rest = w;
    returns = refl;
    healthy = p;
    same_length = refl;
    reads = no_region;
    filled =
        rw e (Filled-nil tdo n size inside (λ j above below. clear j (omega (arith, e)) below));
  }
  recalls (r ∷ rs) i n size tdo w p (e, some_bits, joined) inside room few clear =
      elim (Bool-cases r.is_tms) [
        | inl t ↦
            let v =
              recalls rs r.end n size tdo w p joined inside room few
                (λ j above below. clear j (omega (arith, e, some_bits)) below) in
            record {
              out = v.out;
              bits = replicate (region_length r) false ++ v.bits;
              rest = v.rest;
              returns = recalled_one r rs tdo tdo w w v.rest (skips r tdo w t) v.out v.returns;
              healthy = v.healthy;
              same_length = v.same_length;
              reads = walked t v.reads;
              filled = Filled-walked v.out tdo r i n size v.bits e some_bits within clear v.filled;
            }
        | inr f ↦
            let (buffer, w1, g, p1) = reading in
            let v =
              recalls rs r.end n size (pasted buffer r tdo) w1 p1 joined inside
                (omega (arith, room, length-paste_bits buffer r.begin 0 (region_length r) tdo)) few
                (Clear-pasted buffer r tdo size some_bits within room
                  (λ j above below. clear j (omega (arith, e)) below)) in
            record {
              out = v.out;
              bits = bits_from buffer 0 (region_length r) ++ v.bits;
              rest = v.rest;
              returns =
                  recalled_one r rs tdo (pasted buffer r tdo) w w1 v.rest
                    (pastes r tdo buffer w w1 f g) v.out v.returns;
              healthy = v.healthy;
              same_length =
                  v.same_length ∙ length-paste_bits buffer r.begin 0 (region_length r) tdo;
              reads = shifted f g v.reads;
              filled =
                  Filled-pasted buffer v.out tdo r i n size v.bits e some_bits within room clear
                    v.filled;
            }
      ]
    where
      within : r.end ≤ 8 * size
      within = omega (arith, inside, Joined-le rs r.end n joined)

      reading :
          (buffer : List ℕ) × (w1 : World) × (jtag_scan_chain_recv d
              (replicate buffer_size 0)
              (region_length r)
              r.flip_tms
              w
            ≡ some ((true, buffer), w1))
          × P w1
      reading =
          works.recv_works (replicate buffer_size 0) (region_length r) r.flip_tms w p
            (omega (arith, some_bits))
            (omega (arith, within, few, length-replicate {A = ℕ} buffer_size 0))
            (omega (arith, within, few))
