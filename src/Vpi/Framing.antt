-- ===== src/Vpi/Framing.antt =====
-- How the bytes of a client are cut into commands.
use jtag_remote_server.Base.{
  ℕ, ◌+◌, ◌≤◌, ◌<◌, ◌≡◌, refl, sym, ap, subst, ◌∙◌, true, false, Option, none, some, List, [], ◌∷◌,
  ◌++◌, ◌==◌, ==_iff, Bool-cases, inl, inr, length, length-append, arith, append_assoc, append-nil,
}
use jtag_remote_server.Vpi.{cmd_size, take_in}

-- `read` gives no more than it is asked for: each chunk fits behind what is received so far.
abbrev pub Fits : List ℕ → List (List ℕ) → Type 0
Fits received [] = Unit
Fits received (c ∷ cs) = (length received + length c ≤ cmd_size) × Fits (take_in received c).0 cs

abbrev prepend : Option (List ℕ) → List (List ℕ) → List (List ℕ)
prepend none cmds = cmds
prepend (some cmd) cmds = cmd ∷ cmds

-- The commands of a sequence of reads, and what is left over.
abbrev pub commands_of : List ℕ → List (List ℕ) → List (List ℕ)
commands_of received [] = []
commands_of received (c ∷ cs) =
    prepend (take_in received c).1 (commands_of (take_in received c).0 cs)

abbrev pub left_over : List ℕ → List (List ℕ) → List ℕ
left_over received [] = received
left_over received (c ∷ cs) = left_over (take_in received c).0 cs

abbrev pub concat : List (List ℕ) → List ℕ
concat [] = []
concat (x ∷ xs) = x ++ concat xs

abbrev pub AllWhole : List (List ℕ) → Type 0
AllWhole [] = Unit
AllWhole (c ∷ cs) = (length c ≡ cmd_size) × AllWhole cs

take_in_whole :
    (received c : List ℕ)
    → (length (received ++ c) == cmd_size) ≡ true
    → take_in received c ≡ ([], some (received ++ c))
unfolding take_in
take_in_whole received c e = rw e refl

take_in_part :
    (received c : List ℕ)
    → (length (received ++ c) == cmd_size) ≡ false
    → take_in received c ≡ (received ++ c, none)
unfolding take_in
take_in_part received c e = rw e refl

part_left :
    (received c : List ℕ)
    → (length (received ++ c) == cmd_size) ≡ false
    → length received + length c ≤ cmd_size
    → length (received ++ c) < cmd_size
part_left received c e room = ground (arith, room, length-append received c)

-- The statement below behind one read, by what came of it.
abbrev Lossless : List ℕ → List (List ℕ) → List ℕ × Option (List ℕ) → Type 0
Lossless bytes cs r =
    (concat (prepend r.1 (commands_of r.0 cs)) ++ left_over r.0 cs ≡ bytes)
    × AllWhole (prepend r.1 (commands_of r.0 cs))
    × (length (left_over r.0 cs) < cmd_size)

-- However the bytes of a client are split over the reads, with less than a command received before, and
-- each read giving no more than it is asked for, the commands and what is left over are these bytes in
-- order, none lost and none twice; each command is whole, and less than a command is left.
pub commands_lossless :
    (received : List ℕ) (chunks : List (List ℕ))
    → length received < cmd_size
    → Fits received chunks
    → (concat (commands_of received chunks) ++ left_over received chunks
        ≡ received ++ concat chunks)
      × AllWhole (commands_of received chunks)
      × (length (left_over received chunks) < cmd_size)
commands_lossless received [] few fits = (sym (append-nil received), tt, few)
commands_lossless received (c ∷ cs) few (room, fits) =
    elim (Bool-cases (length (received ++ c) == cmd_size)) [
      | inl e ↦
          let (bytes, whole, less) =
            commands_lossless [] cs (omega arith) (rw (take_in_whole received c e) at fits) in
          subst (Lossless (received ++ (c ++ concat cs)) cs) (sym (take_in_whole received c e)) (
            append_assoc (received ++ c) (concat (commands_of [] cs)) _
                ∙ ap (λ x. (received ++ c) ++ x) bytes
                ∙ append_assoc received c (concat cs),
            ((==_iff (length (received ++ c)) cmd_size).0 e, whole),
            less,
          )
      | inr e ↦
          let (bytes, whole, less) =
            commands_lossless (received ++ c) cs (part_left received c e room)
              (rw (take_in_part received c e) at fits) in
          subst (Lossless (received ++ (c ++ concat cs)) cs) (sym (take_in_part received c e))
            (bytes ∙ append_assoc received c (concat cs), whole, less)
    ]
