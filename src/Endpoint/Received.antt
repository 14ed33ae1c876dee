-- ===== src/Endpoint/Received.antt =====
-- What `ikcp_input` gets of a group whose packets reach `DataInput` (source/fec_kcp.cpp).
use fec_kcp.Prelude.{
  ℕ, ◌+◌, ◌-◌, ◌≤◌, ◌<◌, ◌≡◌, refl, ap, false, ◌||◌, not, Bool-cases, inl, inr, List, [], ◌∷◌, ◌++◌,
  append-nil, map, length, take, take-append, take_all, replicate, ◌==◌, if◌then◌else◌, arith,
}
use fec_kcp.Fec.Encode.{pad}
use fec_kcp.Fec.Encode.Gather.{longest}
use fec_kcp.Fec.Decode.HandOut.{filled_up}
use fec_kcp.Fec.Code.{contains, arrived}
use fec_kcp.Fec.Code.Arrivals.{or_size}
use fec_kcp.Fec.Packets.{length-pad}
use fec_kcp.Endpoint.Rounds.{cut}
use fec_kcp.Endpoint.Run.{handed}

-- The datagrams as the engine gets them, from the j-th on: the first of the group and each that was lost
-- are followed by zeros up to the longest.
unfoldable pub received : List ℕ → ℕ → ℕ → List (List ℕ) → List (List ℕ)
received is size j [] = []
received is size j (d ∷ ds) =
    (if j == 0 || not (contains is j) then pad size d else d) ∷ received is size (j + 1) ds

take-pad : (size : ℕ) (d : List ℕ) → take (length d) (pad size d) ≡ d
unfolding pad
take-pad size d = take-append d (replicate (size - length d) 0) (length d) refl

take-pad_size : (size : ℕ) (d : List ℕ) → length d ≤ size → take size (pad size d) ≡ pad size d
take-pad_size size d h = take_all (pad size d) size (omega (arith, length-pad size d h))

cut-received :
    (is : List ℕ) (size j : ℕ) (ds : List (List ℕ)) (lens : List ℕ)
    → longest ds ≤ size
    → 0 < j
    → cut
        (map (pad size) ds)
        (take (length ds) (or_size size (arrived is j (map length ds ++ lens))))
      ≡ received is size j ds
unfolding or_size arrived received longest cut
cut-received is size j [] lens h p = refl
cut-received is size j (d ∷ ds) lens h p =
    let later : (j == 0) ≡ false = ground arith in
    let ih = cut-received is size (j + 1) ds lens (omega arith) (omega arith) in
    elim (Bool-cases (contains is j)) [
      | inl here ↦ rw (later, here, take-pad size d, ih) refl
      | inr away ↦ rw (later, away, take-pad_size size d (omega arith), ih) refl
    ]

filled_up-pad : (size : ℕ) (d : List ℕ) → filled_up size (length d) (pad size d) ≡ pad size d
unfolding pad
filled_up-pad size d = ap (λ l. l ++ replicate (size - length d) 0) (take-pad size d)

pub handed-received :
    (is : List ℕ) (size : ℕ) (ds : List (List ℕ)) (lens : List ℕ)
    → longest ds ≤ size
    → handed size
        (map (pad size) ds)
        (take (length ds) (or_size size (arrived is 0 (map length ds ++ lens))))
      ≡ received is size 0 ds
unfolding or_size arrived received longest cut
handed-received is size [] lens h = refl
handed-received is size (d ∷ ds) lens h =
    let ih = cut-received is size 1 ds lens (omega arith) (omega arith) in
    elim (Bool-cases (contains is 0)) [
      | inl here ↦ rw (here, filled_up-pad size d, ih) refl
      | inr away ↦
          let none_left : size - size ≡ 0 = omega arith in
          rw (away, take-pad_size size d (omega arith), none_left, append-nil, ih) refl
    ]
