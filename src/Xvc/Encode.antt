-- ===== src/Xvc/Encode.antt =====
-- The commands of an XVC client as it sends them, and how they are told apart.
use native.Mathlib.Nat.{add-zero}
use jtag_remote_server.Base.{
  ℕ, ◌+◌, ◌-◌, ◌/◌, ◌%◌, ◌^◌, ◌≤◌, ◌<◌, ◌≡◌, refl, sym, ap, ◌∙◌, Bool, true, false, ◌&&◌, List, [],
  ◌∷◌, ◌++◌, arith, leb, ==_iff, length, get_or, append_assoc,
}
use jtag_remote_server.Words.{word_at, le_bytes}
use jtag_remote_server.World.{World}
use jtag_remote_server.Socket.Stands.{Stands, byte_at, Stands-behind}
use jtag_remote_server.Xvc.Commands.{starts_with, at_command, getinfo, settck, shift}

pub data Command : Type 0 where
  get_info : Command
  set_tck : ℕ → Command
  shift_bits : ℕ → List ℕ → List ℕ → Command

abbrev pub encode : Command → List ℕ
encode get_info = getinfo
encode (set_tck tck) = settck ++ le_bytes (tck ∷ [])
encode (shift_bits bits tms tdi) = shift ++ (le_bytes (bits ∷ []) ++ (tms ++ tdi))

abbrev pub encode_all : List Command → List ℕ
encode_all [] = []
encode_all (c ∷ cs) = encode c ++ encode_all cs

-- A period that makes a whole number of MHz from 1 to 1000; arrays that hold the bits.
abbrev pub IsProper : Command → Type 0
IsProper get_info = Unit
IsProper (set_tck tck) = (0 < tck) × (tck ≤ 2000)
IsProper (shift_bits bits tms tdi) =
    (length tms ≡ (bits + 7) / 8) × (length tdi ≡ (bits + 7) / 8) × (bits < 2 ^ 32 - 7)

abbrev pub AllProper : List Command → Type 0
AllProper [] = Unit
AllProper (c ∷ cs) = IsProper c × AllProper cs

starts_with_self : (prefix rest : List ℕ) → starts_with (prefix ++ rest) prefix ≡ true
unfolding starts_with
starts_with_self [] rest = refl
starts_with_self (p ∷ prefix) rest = rw ((==_iff p p).1 refl) (starts_with_self prefix rest)

-- The command that stands at `buffer_begin` is seen, once it is there.
pub at_command_seen :
    (w : World) (prefix rest stale : List ℕ) (needed : ℕ)
    → Stands w (prefix ++ rest) stale
    → needed ≤ length (prefix ++ rest)
    → at_command prefix needed w ≡ true
unfolding at_command
at_command_seen w prefix rest stale needed st there =
    rw (whole, st.at ∙ append_assoc prefix rest stale) (starts_with_self prefix (rest ++ stale))
  where
    whole : leb (w.buffer_begin + needed) w.buffer_end ≡ true
    whole = ground (arith, st.end, there)

-- What stands there is not taken for another command.
pub at_command_other :
    (w : World) (prefix bytes stale : List ℕ) (needed : ℕ)
    → Stands w bytes stale
    → starts_with (bytes ++ stale) prefix ≡ false
    → at_command prefix needed w ≡ false
unfolding at_command
at_command_other w prefix bytes stale needed st other =
    rw (st.at, other) (neither (leb (w.buffer_begin + needed) w.buffer_end))
  where
    neither : (b : Bool) → (b && false) ≡ false
    neither true = refl
    neither false = refl

-- With fewer bytes than a command needs, none is seen.
pub at_command_short :
    (w : World) (prefix bytes stale : List ℕ) (needed : ℕ)
    → Stands w bytes stale
    → length bytes < needed
    → at_command prefix needed w ≡ false
unfolding at_command
at_command_short w prefix bytes stale needed st short = rw few refl
  where
    few : leb (w.buffer_begin + needed) w.buffer_end ≡ false
    few = ground (arith, st.end, short)

-- The word behind the name of a command.
pub word_behind :
    (w : World) (name rest stale : List ℕ) (x k : ℕ)
    → Stands w (name ++ (le_bytes (x ∷ []) ++ rest)) stale
    → x < 2 ^ 32
    → k ≡ length name
    → word_at w.buffer (w.buffer_begin + k) ≡ x
unfolding word_at le_bytes
word_behind w name rest stale x k st small e =
    omega (arith, small, first, digit 1, digit 2, digit 3)
  where
    behind : World
    behind = record w { buffer_begin = w.buffer_begin + k }

    digit :
        (i : ℕ)
        → get_or w.buffer (w.buffer_begin + k + i) 0
          ≡ get_or ((le_bytes (x ∷ []) ++ rest) ++ stale) i 0
    digit i = byte_at behind (le_bytes (x ∷ []) ++ rest) stale i (
        Stands-behind w behind name (le_bytes (x ∷ []) ++ rest) stale st refl refl
          (ap (λ n. w.buffer_begin + n) e))

    first : get_or w.buffer (w.buffer_begin + k) 0 ≡ x % 2 ^ 8
    first = ap (λ j. get_or w.buffer j 0) (sym (add-zero (w.buffer_begin + k))) ∙ digit 0
