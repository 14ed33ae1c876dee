-- ===== src/Endpoint/Rounds.antt =====
-- The loop of `FecKcp::DataInput` (source/fec_kcp.cpp), round by round.
use fec_kcp.Prelude.{
  ℕ, zero, suc, ◌-◌, ◌≤◌, ◌<◌, ◌≡◌, refl, ap, ◌∙◌, sym, Option, none, some, List, [], ◌∷◌, ◌++◌,
  append-nil, length, length-append, length-take, length-replicate, get_elem?, take, take-append,
  replicate, ltb_ℤ, if◌then◌else◌, ℤ, pos, negsuc, arith,
}
use fec_kcp.Kcp.State.{Kcp}
use fec_kcp.Kcp.Input.{input}
use fec_kcp.Fec.Decode.{Decoder, ◌>>=◌}
use fec_kcp.Fec.Decode.Output.{Result, output}
use fec_kcp.Fec.Decode.HandOut.{filled_up}
use fec_kcp.Endpoint.{FecKcp, buffer, after_input, after_output, input_rounds, Next}

-- The engine takes datagrams in, one after the other: the last result, or `ret` if there are none.
unfoldable pub kcp_inputs : ℤ → Kcp → List (List ℕ) → Option (ℤ × Kcp)
kcp_inputs ret k [] = some (ret, k)
kcp_inputs ret k (p ∷ ps) = do
  (temp_ret, k') ← input k p
  kcp_inputs (if ltb_ℤ temp_ret (pos 0) then temp_ret else pos 0) k' ps

-- The packets, each cut to its length.
unfoldable pub cut : List (List ℕ) → List ℕ → List (List ℕ)
cut (row ∷ rows) (len ∷ lens) = take len row ∷ cut rows lens
cut _ _ = []

abbrev pub with_decoder : FecKcp → Decoder → ℤ × Kcp → Option (ℤ × FecKcp)
with_decoder f d (ret, k) = some (ret, record f { kcp = k; fec_decode = d })

pub get_elem?-middle {ℓ} :
    {A : Type ℓ} (xs : List A) (y : A) (ys : List A) (i : ℕ)
    → length xs ≡ i
    → get_elem? (xs ++ y ∷ ys) i ≡ some y
get_elem?-middle [] y ys zero h = refl
get_elem?-middle [] y ys (suc i) h = absurd (omega arith)
get_elem?-middle (x ∷ xs) y ys zero h = absurd (omega arith)
get_elem?-middle (x ∷ xs) y ys (suc i) h = get_elem?-middle xs y ys i (omega arith)

length-filled_up :
    (n len : ℕ) (row : List ℕ) → len ≤ n → len ≤ length row → length (filled_up n len row) ≡ n
length-filled_up n len row room whole = omega (
  arith,
  length-append (take len row) (replicate (n - len) 0),
  length-take len row,
  length-replicate {A = ℕ} (n - len) 0,
)

pub buffer-filled_up :
    (n len : ℕ) (row : List ℕ)
    → len ≤ n
    → len ≤ length row
    → buffer (some (filled_up n len row)) n ≡ filled_up n len row
unfolding buffer
buffer-filled_up n len row room whole =
    take-append (filled_up n len row) (replicate n 0) n
      (sym (length-filled_up n len row room whole))

pub filled_up-exact : (len : ℕ) (row : List ℕ) → filled_up len len row ≡ take len row
filled_up-exact len row = let e : len - len ≡ 0 = omega arith in rw (e, append-nil) refl

pub input_rounds-end :
    (fuel now : ℕ) (f : FecKcp) (ret : ℤ)
    → 0 < fuel
    → input_rounds fuel now f (pos 0) ret ≡ some (ret, f)
unfolding input_rounds
input_rounds-end zero now f ret h = absurd (omega arith)
input_rounds-end (suc fuel) now f ret h = refl

-- A length that `Output` may hand out of a row.
abbrev pub IsLength : ℕ → ℕ → Type 0
IsLength size len = (0 < len) × (len ≤ size)

module _ (fuel now m n : ℕ) (f : FecKcp) (ret : ℤ) (st : List ℕ) (d : Decoder)
    (out : output now f.fec_decode (suc m) ≡ some (pos n, some st, d))
    (full : buffer (some st) (suc m) ≡ st) where
  input_rounds-after_input :
      input_rounds (suc fuel) now f (pos (suc m)) ret
      ≡ after_input f d n (λ f' len' ret'. input_rounds fuel now f' len' ret') (input f.kcp st)
  unfolding input_rounds after_output
  input_rounds-after_input =
      ap (after_output f (suc m) (λ f' len' ret'. input_rounds fuel now f' len' ret')) out
      ∙ ap
          (λ b.
            after_input f d n (λ f' len' ret'. input_rounds fuel now f' len' ret') (input f.kcp b))
          full

  pub input_rounds-step :
      (temp_ret : ℤ) (k : Kcp)
      → input f.kcp st ≡ some (temp_ret, k)
      → input_rounds (suc fuel) now f (pos (suc m)) ret
        ≡ input_rounds fuel now
            (record f { kcp = k; fec_decode = d })
            (pos n)
            (if ltb_ℤ temp_ret (pos 0) then temp_ret else pos n)
  unfolding after_input
  input_rounds-step temp_ret k e =
      input_rounds-after_input
      ∙ ap (after_input f d n (λ f' len' ret'. input_rounds fuel now f' len' ret')) e

  pub input_rounds-fault :
      input f.kcp st ≡ none → input_rounds (suc fuel) now f (pos (suc m)) ret ≡ none
  unfolding after_input
  input_rounds-fault e =
      input_rounds-after_input
      ∙ ap (after_input f d n (λ f' len' ret'. input_rounds fuel now f' len' ret')) e

-- A round looks at the decoder through `Output` only.
after_input-turned :
    (f : FecKcp) (d d' : Decoder) (m : ℕ) (next : Next) (o : Option (ℤ × Kcp))
    → after_input (record f { fec_decode = d }) d' m next o ≡ after_input f d' m next o
unfolding after_input
after_input-turned f d d' m next none = refl
after_input-turned f d d' m next (some (temp_ret, k)) = refl

after_output-turned :
    (f : FecKcp) (d : Decoder) (n : ℕ) (next : Next) (o : Result)
    → after_output (record f { fec_decode = d }) n next o ≡ after_output f n next o
unfolding after_output
after_output-turned f d n next none = refl
after_output-turned f d n next (some (negsuc e, stored, d')) = refl
after_output-turned f d n next (some (pos m, stored, d')) =
    after_input-turned f d d' m next (input f.kcp (buffer stored n))

pub input_rounds-turned :
    (fuel now m : ℕ) (f : FecKcp) (d : Decoder) (ret : ℤ)
    → output now f.fec_decode (suc m) ≡ output now d (suc m)
    → input_rounds fuel now f (pos (suc m)) ret
      ≡ input_rounds fuel now (record f { fec_decode = d }) (pos (suc m)) ret
unfolding input_rounds
input_rounds-turned zero now m f d ret e = refl
input_rounds-turned (suc fuel) now m f d ret e =
    let next : Next = λ f' len' ret'. input_rounds fuel now f' len' ret' in
    ap (after_output f (suc m) next) e
    ∙ sym (after_output-turned f d (suc m) next (output now d (suc m)))
