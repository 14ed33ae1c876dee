-- ===== src/Fec/Packets.antt =====
-- The packets of a group as `FecEncode` makes them and as `FecDecode` reads them (lib/libfec/source).
use fec_kcp.Prelude.{
  ℕ, zero, suc, ◌+◌, ◌-◌, ◌≤◌, ◌<◌, ◌≡◌, refl, ap, ◌∙◌, Option, none, some, List, [], ◌∷◌, ◌++◌,
  map, length, length-append, length-replicate, get_or, replicate, All, arith,
}
use fec_kcp.Fec.Encode.{header, pad, redundant_buffers}
use fec_kcp.Fec.Encode.Gather.{coded, longest}
use fec_kcp.Fec.Encode.Group.{IsPacket}
use fec_kcp.Fec.Decode.Arrive.{packet}

-- Headers with these lengths, in front of these rows, from index `j` on.
unfoldable pub headed : ℕ → ℕ → ℕ → ℕ → List ℕ → List (List ℕ) → List (Option (List ℕ))
headed seq k r j (len ∷ lens) (row ∷ rows) =
    some (header seq len k r (j + 1) ++ row) ∷ headed seq k r (j + 1) lens rows
headed seq k r j _ _ = []

pub coded-headed :
    (seq size k r j : ℕ) (ps : List (List ℕ))
    → coded seq size k r j ps ≡ headed seq k r j (map length ps) (map (pad size) ps)
unfolding coded headed pad
coded-headed seq size k r j [] = refl
coded-headed seq size k r j (p ∷ ps) =
    ap (λ l. some (header seq (length p) k r (j + 1) ++ pad size p) ∷ l)
      (coded-headed seq size k r (j + 1) ps)

pub redundant_buffers-headed :
    (seq size k r j n : ℕ) (rows : List (List ℕ))
    → n ≡ length rows
    → redundant_buffers seq size k r j rows ≡ headed seq k r j (replicate n size) rows
unfolding redundant_buffers headed
redundant_buffers-headed seq size k r j zero [] e = refl
redundant_buffers-headed seq size k r j (suc n) [] e = absurd (omega arith)
redundant_buffers-headed seq size k r j zero (row ∷ rows) e = absurd (omega arith)
redundant_buffers-headed seq size k r j (suc n) (row ∷ rows) e =
    ap (λ l. some (header seq size k r (j + 1) ++ row) ∷ l)
      (redundant_buffers-headed seq size k r (j + 1) n rows (omega arith))

pub headed-append :
    (seq k r j m : ℕ) (lens lens' : List ℕ) (rows rows' : List (List ℕ))
    → length lens ≡ length rows
    → m ≡ j + length lens
    → headed seq k r j lens rows ++ headed seq k r m lens' rows'
      ≡ headed seq k r j (lens ++ lens') (rows ++ rows')
unfolding headed
headed-append seq k r j m [] lens' [] rows' e h =
    ap (λ n. headed seq k r n lens' rows') (omega arith)
headed-append seq k r j m [] lens' (row ∷ rows) rows' e h = absurd (omega arith)
headed-append seq k r j m (len ∷ lens) lens' [] rows' e h = absurd (omega arith)
headed-append seq k r j m (len ∷ lens) lens' (row ∷ rows) rows' e h =
    ap (λ l. some (header seq len k r (j + 1) ++ row) ∷ l)
      (headed-append seq k r (j + 1) m lens lens' rows rows' (omega arith) (omega arith))

get_or-headed :
    (seq k r j i : ℕ) (lens : List ℕ) (rows : List (List ℕ))
    → length lens ≡ length rows
    → i < length rows
    → get_or (headed seq k r j lens rows) i none
      ≡ some (header seq (get_or lens i 0) k r (j + i + 1) ++ get_or rows i [])
unfolding headed
get_or-headed seq k r j i [] [] e h = absurd (omega arith)
get_or-headed seq k r j i [] (row ∷ rows) e h = absurd (omega arith)
get_or-headed seq k r j i (len ∷ lens) [] e h = absurd (omega arith)
get_or-headed seq k r j zero (len ∷ lens) (row ∷ rows) e h =
    ap (λ n. some (header seq len k r (n + 1) ++ row)) (omega arith)
get_or-headed seq k r j (suc i) (len ∷ lens) (row ∷ rows) e h =
    get_or-headed seq k r (j + 1) i lens rows (omega arith) (omega arith)
    ∙ ap (λ n. some (header seq (get_or lens i 0) k r (n + 1) ++ get_or rows i [])) (omega arith)

pub headed-packet :
    (seq k r i : ℕ) (lens : List ℕ) (rows : List (List ℕ))
    → length lens ≡ length rows
    → i < length rows
    → get_or (headed seq k r 0 lens rows) i none ≡ some (packet k r seq rows lens i)
headed-packet seq k r i lens rows e h =
    get_or-headed seq k r 0 i lens rows e h
    ∙ ap (λ n. some (header seq (get_or lens i 0) k r (n + 1) ++ get_or rows i [])) (omega arith)

pub length-pad : (size : ℕ) (p : List ℕ) → length p ≤ size → length (pad size p) ≡ size
unfolding pad
length-pad size p h = omega (
  arith,
  length-append p (replicate (size - length p) 0),
  length-replicate {A = ℕ} (size - length p) 0,
)

pub map-pad_even :
    (size : ℕ) (ps : List (List ℕ))
    → longest ps ≤ size
    → All (λ row. length row ≡ size) (map (pad size) ps)
unfolding longest
map-pad_even size [] h = tt
map-pad_even size (p ∷ ps) h = (length-pad size p (omega arith), map-pad_even size ps (omega arith))

pub lengths_short :
    (ps : List (List ℕ))
    → All IsPacket ps
    → All (λ l. l < 65536) (map length ps) × All (λ l. 0 < l) (map length ps)
lengths_short [] a = (tt, tt)
lengths_short (p ∷ ps) a = let (b, c) = lengths_short ps a.1 in ((a.0.1, b), (a.0.0, c))

pub longest_bounds :
    (ps : List (List ℕ)) → All IsPacket ps → 0 < length ps → (0 < longest ps) × (longest ps < 65536)
unfolding longest
longest_bounds [] a h = absurd (omega arith)
longest_bounds (p ∷ []) a h = (omega (arith, a.0.0), omega (arith, a.0.1))
longest_bounds (p ∷ q ∷ ps) a h =
    let (low, high) = longest_bounds (q ∷ ps) a.1 (omega arith) in
    (omega (arith, low), omega (arith, high, a.0.1))
