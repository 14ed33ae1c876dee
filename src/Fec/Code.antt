-- ===== src/Fec/Code.antt =====
-- What the coder and the decoder of lib/libfec rely on of the erasure code in lib/libfec/lib: the
-- contract that lib/rs.h documents for `rs_encode2` and `rs_decode2`.
pub mod Arrivals
use fec_kcp.Prelude.{
  ℕ, zero, suc, ◌+◌, ◌-◌, ◌≤◌, ◌<◌, ◌≡◌, refl, ap, Bool, true, false, ◌||◌, Option, none, some,
  List, [], ◌∷◌, ◌++◌, map, length, get_elem?, get_or, set, take, All, arith, ◌==◌, if◌then◌else◌,
}
use fec_kcp.Fec.Encode.{RsEncode}
use fec_kcp.Fec.Decode.{RsDecode}

abbrev pub contains : List ℕ → ℕ → Bool
contains [] i = false
contains (j ∷ js) i = j == i || contains js i

-- The rows, from index `i` on, of which those in `is` have arrived.
unfoldable pub arrived {ℓ} : {A : Type ℓ} → List ℕ → ℕ → List A → List (Option A)
arrived is i [] = []
arrived is i (row ∷ rows) = (if contains is i then some row else none) ∷ arrived is (i + 1) rows

-- The number of pointers that are not null.
unfoldable pub present {ℓ} : {A : Type ℓ} → List (Option A) → ℕ
present [] = 0
present (none ∷ ps) = present ps
present (some _ ∷ ps) = 1 + present ps

-- A code of `k` data rows in `n` rows: the redundant rows are as long as the data rows, and from any `k`
-- of the rows, each in its place, the data rows are recovered.
pub record IsCode (k n : ℕ) (rs_encode2 : RsEncode) (rs_decode2 : RsDecode) : Type 0 where
  pub encode_rows :
      (rows : List (List ℕ)) (size : ℕ)
      → length rows ≡ k
      → All (λ row. length row ≡ size) rows
      → (length (rs_encode2 k n rows size) ≡ n - k)
        × All (λ row. length row ≡ size) (rs_encode2 k n rows size)
  pub decode_any :
      (rows : List (List ℕ)) (size : ℕ) (is : List ℕ)
      → length rows ≡ k
      → All (λ row. length row ≡ size) rows
      → k ≤ present (arrived is 0 (rows ++ rs_encode2 k n rows size))
      → (out : List (Option (List ℕ))) × (rs_decode2 k n
            (arrived is 0 (rows ++ rs_encode2 k n rows size))
            size
          ≡ some out)
        × (take k out ≡ map some rows)
