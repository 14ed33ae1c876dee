-- ===== src/Fec/Wire.antt =====
-- lib/libfec/source/common.cpp: the big-endian and the reversed integer codec of the packet headers.
-- A writer returns the bytes that it stores from `p` on; a reader is given the buffer at `p`, and
-- `none` is a read past its end.
use fec_kcp.Prelude.{
  ℕ, ◌+◌, ◌*◌, ◌/◌, ◌%◌, ◌<◌, ◌≡◌, ap, Option, none, some, List, [], ◌∷◌, ◌++◌, arith,
}
use fec_kcp.Word.{word}

unfoldable pub write_u32 : ℕ → List ℕ
write_u32 l = (l / 16777216 % 256) ∷ (l / 65536 % 256) ∷ (l / 256 % 256) ∷ (l % 256) ∷ []

unfoldable pub write_u32_r : ℕ → List ℕ
write_u32_r l = (l % 256) ∷ (l / 256 % 256) ∷ (l / 65536 % 256) ∷ (l / 16777216 % 256) ∷ []

unfoldable pub read_u32 : List ℕ → Option ℕ
read_u32 (a ∷ b ∷ c ∷ d ∷ _) =
    some ((d + (c + (b + a * 256 % word) % word * 256 % word) % word * 256 % word) % word)
read_u32 _ = none

unfoldable pub read_u32_r : List ℕ → Option ℕ
read_u32_r (a ∷ b ∷ c ∷ d ∷ _) =
    some ((a + (b + (c + d * 256 % word) % word * 256 % word) % word * 256 % word) % word)
read_u32_r _ = none

unfoldable pub write_u16 : ℕ → List ℕ
write_u16 l = (l / 256 % 256) ∷ (l % 256) ∷ []

unfoldable pub read_u16 : List ℕ → Option ℕ
read_u16 (a ∷ b ∷ _) = some ((b + a * 256) % 65536)
read_u16 _ = none

-- Each reader gives back what its writer stored, for every value of the width, whatever follows in the
-- buffer.
pub read-write :
    (l w : ℕ) (rest : List ℕ)
    → l < word
    → w < 65536
    → (read_u32 (write_u32 l ++ rest) ≡ some l)
      × (read_u32_r (write_u32_r l ++ rest) ≡ some l)
      × (read_u16 (write_u16 w ++ rest) ≡ some w)
unfolding write_u32 write_u32_r read_u32 read_u32_r write_u16 read_u16
read-write l w rest h k = (ap some (omega arith), ap some (omega arith), ap some (omega arith))
