-- ===== src/Words.antt =====
-- `uint32_t`s in memory, on a little-endian host, as the protocols copy them (src/vpi.cpp, src/xvc.cpp,
-- src/jtagd.cpp).
use jtag_remote_server.Base.{ℕ, ◌+◌, ◌*◌, ◌/◌, ◌%◌, ◌^◌, List, [], ◌∷◌, get_or}

-- The word at `i`.
unfoldable pub word_at : List ℕ → ℕ → ℕ
word_at bytes i =
    get_or bytes i 0
    + get_or bytes (i + 1) 0 * 2 ^ 8
    + get_or bytes (i + 2) 0 * 2 ^ 16
    + get_or bytes (i + 3) 0 * 2 ^ 24

-- The bytes of words.
unfoldable pub le_bytes : List ℕ → List ℕ
le_bytes [] = []
le_bytes (x ∷ xs) =
    (x % 2 ^ 8) ∷ (x / 2 ^ 8 % 2 ^ 8) ∷ (x / 2 ^ 16 % 2 ^ 8) ∷ (x / 2 ^ 24 % 2 ^ 8) ∷ le_bytes xs
