-- ===== src/Fec/Tests/Coded.antt =====
-- The coder and the decoder of lib/libfec with a code of two data rows and their sum.
use mathlib.Core.Option.{some-injective}
use fec_kcp.Kcp.Segment.Bytes.{IsByte}
use fec_kcp.Fec.Decode.Sound.{IsRow, WritesBytes}
use fec_kcp.Prelude.{
  subst, ℕ, suc, ◌+◌, ◌-◌, ◌≤◌, ◌≡◌, refl, ap, Bool-cases, inl, inr, Option, none, some, List, [],
  ◌∷◌, ◌++◌, map, length, replicate, take, All, pos, arith,
}
use fec_kcp.Fec.Encode.{Encoder, RsEncode, output, pad}
use fec_kcp.Fec.Encode as Encode
use fec_kcp.Fec.Encode.Gather.{longest}
use fec_kcp.Fec.Encode.Group.{inputs}
use fec_kcp.Fec.Groups.{Group, get, group_of}
use fec_kcp.Fec.Decode.{Decoder, RsDecode, input}
use fec_kcp.Fec.Decode as Decode
use fec_kcp.Fec.Decode.Recover.{Recovers}
use fec_kcp.Fec.Decode.Feed.{feed}
use fec_kcp.Fec.Code.{contains, arrived, present, IsCode}
use fec_kcp.Fec.Encode.{flush_unencoded}
use fec_kcp.Fec.Uncoded.{relay, handed_out, flush-relay}
use fec_kcp.Fec.Encode.{header}
use fec_kcp.Fec.Decode.Faults.{Returns, input-far_index, input-Returns}
use fec_kcp.Fec.RoundTrip.{sent, encode-decode}

abbrev plus : List ℕ → List ℕ → List ℕ
plus (a ∷ as') (b ∷ bs) = (a + b) ∷ plus as' bs
plus _ _ = []

abbrev minus : List ℕ → List ℕ → List ℕ
minus (a ∷ as') (b ∷ bs) = (a - b) ∷ minus as' bs
minus _ _ = []

minus-plus : (xs ys : List ℕ) → length xs ≡ length ys → minus (plus xs ys) xs ≡ ys
minus-plus [] [] h = refl
minus-plus [] (y ∷ ys) h = absurd (omega arith)
minus-plus (x ∷ xs) [] h = absurd (omega arith)
minus-plus (x ∷ xs) (y ∷ ys) h =
    let e : x + y - x ≡ y = omega arith in rw (e, minus-plus xs ys (omega arith)) refl

minus-plus_left : (xs ys : List ℕ) → length xs ≡ length ys → minus (plus xs ys) ys ≡ xs
minus-plus_left [] [] h = refl
minus-plus_left [] (y ∷ ys) h = absurd (omega arith)
minus-plus_left (x ∷ xs) [] h = absurd (omega arith)
minus-plus_left (x ∷ xs) (y ∷ ys) h =
    let e : x + y - y ≡ x = omega arith in rw (e, minus-plus_left xs ys (omega arith)) refl

length-plus : (xs ys : List ℕ) → length xs ≡ length ys → length (plus xs ys) ≡ length xs
length-plus [] [] h = refl
length-plus [] (y ∷ ys) h = refl
length-plus (x ∷ xs) [] h = absurd (omega arith)
length-plus (x ∷ xs) (y ∷ ys) h = ap (λ n. suc n) (length-plus xs ys (omega arith))

abbrev pub sum_of : RsEncode
sum_of k n (a ∷ b ∷ []) size = plus a b ∷ []
sum_of k n _ size = []

abbrev pub missing_of : RsDecode
missing_of k n (some a ∷ some b ∷ c ∷ []) size = some (some a ∷ some b ∷ c ∷ [])
missing_of k n (some a ∷ none ∷ some c ∷ []) size = some (some a ∷ some (minus c a) ∷ none ∷ [])
missing_of k n (none ∷ some b ∷ some c ∷ []) size = some (some (minus c b) ∷ some b ∷ none ∷ [])
missing_of k n _ size = none

encode_rows_lem :
    (rows : List (List ℕ)) (size : ℕ)
    → length rows ≡ 2
    → All (λ row. length row ≡ size) rows
    → (length (sum_of 2 3 rows size) ≡ 1) × All (λ row. length row ≡ size) (sum_of 2 3 rows size)
encode_rows_lem [] size h a = absurd (omega arith)
encode_rows_lem (x ∷ []) size h a = absurd (omega arith)
encode_rows_lem (x ∷ y ∷ []) size h a =
    (refl, (omega (arith, length-plus x y (omega (arith, a.0, a.1.0)), a.0), tt))
encode_rows_lem (x ∷ y ∷ z ∷ rows) size h a = absurd (omega arith)

decode_any_lem :
    (rows : List (List ℕ)) (size : ℕ) (is : List ℕ)
    → length rows ≡ 2
    → All (λ row. length row ≡ size) rows
    → 2 ≤ present (arrived is 0 (rows ++ sum_of 2 3 rows size))
    → (out : List (Option (List ℕ))) × (missing_of 2 3
          (arrived is 0 (rows ++ sum_of 2 3 rows size))
          size
        ≡ some out)
      × (take 2 out ≡ map some rows)
unfolding arrived present
decode_any_lem [] size is h a enough = absurd (omega arith)
decode_any_lem (x ∷ []) size is h a enough = absurd (omega arith)
decode_any_lem (x ∷ y ∷ []) size is h a enough =
    let same : length x ≡ length y = omega (arith, a.0, a.1.0) in
    elim (Bool-cases (contains is 0)) [
      | inl e0 ↦ elim (Bool-cases (contains is 1)) [
        | inl e1 ↦ elim (Bool-cases (contains is 2)) [
          | inl e2 ↦ (some x ∷ some y ∷ some (plus x y) ∷ [], rw (e0, e1, e2) refl, refl)
          | inr e2 ↦ (some x ∷ some y ∷ none ∷ [], rw (e0, e1, e2) refl, refl)
        ]
        | inr e1 ↦ elim (Bool-cases (contains is 2)) [
          | inl e2 ↦ (
            some x ∷ some (minus (plus x y) x) ∷ none ∷ [],
            rw (e0, e1, e2) refl,
            rw (minus-plus x y same) refl,
          )
          | inr e2 ↦ ground (arith, enough)
        ]
      ]
      | inr e0 ↦ elim (Bool-cases (contains is 1)) [
        | inl e1 ↦ elim (Bool-cases (contains is 2)) [
          | inl e2 ↦ (
            some (minus (plus x y) y) ∷ some y ∷ none ∷ [],
            rw (e0, e1, e2) refl,
            rw (minus-plus_left x y same) refl,
          )
          | inr e2 ↦ ground (arith, enough)
        ]
        | inr e1 ↦ ground (arith, enough)
      ]
    ]
decode_any_lem (x ∷ y ∷ z ∷ rows) size is h a enough = absurd (omega arith)

pub sum-IsCode : IsCode 2 3 sum_of missing_of
sum-IsCode = record { encode_rows = encode_rows_lem; decode_any = decode_any_lem }

minus-IsByte : (xs ys : List ℕ) → All IsByte xs → All IsByte (minus xs ys)
minus-IsByte [] ys a = tt
minus-IsByte (x ∷ xs) [] a = tt
minus-IsByte (x ∷ xs) (y ∷ ys) a = (omega (arith, a.0), minus-IsByte xs ys a.1)

pub missing-WritesBytes : WritesBytes missing_of
missing-WritesBytes k n (some a ∷ some b ∷ c ∷ []) size out r e =
    subst (All IsRow) (some-injective _ _ e) r
missing-WritesBytes k n (some a ∷ none ∷ some c ∷ []) size out r e =
    subst (All IsRow) (some-injective _ _ e) (r.0, (minus-IsByte c a r.1.1.0, (tt, tt)))
missing-WritesBytes k n (none ∷ some b ∷ some c ∷ []) size out r e =
    subst (All IsRow) (some-injective _ _ e) (minus-IsByte c b r.1.1.0, (r.1.0, (tt, tt)))
missing-WritesBytes k n [] size out r e = absurd (ground arith)
missing-WritesBytes k n (a ∷ []) size out r e = absurd (ground arith)
missing-WritesBytes k n (a ∷ b ∷ []) size out r e = absurd (ground arith)
missing-WritesBytes k n (none ∷ none ∷ c ∷ []) size out r e = absurd (ground arith)
missing-WritesBytes k n (some a ∷ none ∷ none ∷ []) size out r e = absurd (ground arith)
missing-WritesBytes k n (none ∷ some b ∷ none ∷ []) size out r e = absurd (ground arith)
missing-WritesBytes k n (a ∷ b ∷ c ∷ d ∷ rows) size out r e = absurd (ground arith)

abbrev pub coder : Encoder
coder = Encode.new 2 1 1 (some 700)

abbrev pub decoder : Decoder
decoder = Decode.new 10000

abbrev pub messages : List (List ℕ)
messages = (1 ∷ 2 ∷ 3 ∷ []) ∷ (4 ∷ []) ∷ []

abbrev pub at_once : ℕ → ℕ
at_once n = 5

-- The second packet is lost.
encode-decode_example :
    (packets : List (Option (List ℕ))) × (lengths : List ℕ) × (d' : Decoder) × (g : Group)
    × ((output (inputs sum_of coder messages).1).1 ≡ some (packets, lengths))
    × (feed missing_of at_once (sent packets) decoder (2 ∷ 0 ∷ [])
        ≡ some (pos (longest messages) ∷ replicate 1 (pos 0), d'))
    × Recovers coder.data_pkg_num coder.seq
        (longest messages)
        (map (pad (longest messages)) messages)
        (map length messages ++ replicate coder.redundant_pkg_num (longest messages))
        (2 ∷ 0 ∷ [])
        d'
        g
unfolding Encode.new Decode.new get arrived present
encode-decode_example =
    encode-decode sum_of missing_of coder messages at_once decoder (0 ∷ []) 2 sum-IsCode refl refl
      refl (omega arith) (omega arith) (omega arith) refl (omega arith) refl (omega arith)
      (omega arith) refl refl

flush-relay_example :
    (packets : List (List ℕ)) × (d' : Decoder) × ((flush_unencoded
        (inputs sum_of coder ((5 ∷ 6 ∷ []) ∷ [])).1).1
      ≡ some packets)
    × (relay missing_of at_once decoder packets ≡ some (map handed_out ((5 ∷ 6 ∷ []) ∷ []), d'))
    × (d'.ready_seqs_nums ≡ 0)
unfolding Encode.new Decode.new
flush-relay_example =
    flush-relay sum_of missing_of coder ((5 ∷ 6 ∷ []) ∷ []) at_once decoder refl refl refl
      (omega arith) ((omega arith, omega arith), tt) refl

-- The packet 127 of a group of 150, and the packet 3.
input-far_index_example :
    Decode.input missing_of 5 decoder (some (header 700 3 100 50 128 ++ 1 ∷ 2 ∷ 3 ∷ [])) ≡ none
unfolding Decode.new get group_of Decode.is_finished
input-far_index_example =
    input-far_index missing_of 5 decoder 700 3 100 50 127 (1 ∷ 2 ∷ 3 ∷ []) (omega arith)
      (omega arith) (omega arith) (omega arith) (omega arith) (omega arith) refl refl

input-Returns_example :
    Returns (Decode.input missing_of 5 decoder (some (header 700 3 100 50 4 ++ 1 ∷ 2 ∷ 3 ∷ [])))
unfolding Decode.new get
input-Returns_example =
    input-Returns missing_of 5 decoder 700 3 100 50 3 (1 ∷ 2 ∷ 3 ∷ []) (omega arith) (omega arith)
      (omega arith) (omega arith) (omega arith) (omega arith) refl
