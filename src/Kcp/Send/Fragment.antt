-- ===== src/Kcp/Send/Fragment.antt =====
-- `ikcp_send` against the loop "merge fragment" of `ikcp_recv` (lib/kcp/source/ikcp.c): the
-- fragments of a message, put together again, are the message.
use fec_kcp.Prelude.{
  ℕ, zero, suc, ◌+◌, ◌-◌, ◌*◌, ◌/◌, ◌≤◌, ◌<◌, ◌≡◌, ◌≢◌, refl, ap, Bool, false, List, [], ◌∷◌, ◌++◌,
  map, length, take, drop, length-take, length-drop, All, ltb, arith, if◌then◌else◌,
}
use fec_kcp.Kcp.Segment.{Segment}
use fec_kcp.Kcp.Send.{segment_new, fragment, fragment_count}
use fec_kcp.Kcp.Recv.{merge}

-- What a fragment carries through the network: stamping it for sending changes nothing of this.
abbrev pub body : Segment → ℕ × ℕ × List ℕ
body g = (g.frg, g.len, g.payload)

-- A segment of at most `mss` bytes, with as much data as its length says.
abbrev pub Fits : ℕ → Segment → Type 0
Fits mss g = (g.len ≤ mss) × (length g.payload ≡ g.len)

take-nil {ℓ} : (A : Type ℓ) (n : ℕ) → take {A = A} n [] ≡ []
take-nil A zero = refl
take-nil A (suc n) = refl

suc-sub-suc : (n m : ℕ) → suc n - suc m ≡ n - m
suc-sub-suc n m = omega arith

take-split {ℓ} :
    {A : Type ℓ} (m n : ℕ) (xs : List A) → m ≤ n → take m xs ++ take (n - m) (drop m xs) ≡ take n xs
take-split zero n xs h = ap (λ k. take k xs) (omega arith)
take-split (suc m) zero xs h = absurd (omega arith)
take-split {A} (suc m) (suc n) [] h = rw (suc-sub-suc n m) (take-nil A (n - m))
take-split (suc m) (suc n) (x ∷ xs) h =
    ap (λ l. x ∷ l) (rw (suc-sub-suc n m) (take-split m n xs (omega arith)))

take-take_self {ℓ} : {A : Type ℓ} (n : ℕ) (xs : List A) → take n (take n xs) ≡ take n xs
take-take_self zero xs = refl
take-take_self (suc n) [] = refl
take-take_self (suc n) (x ∷ xs) = ap (λ l. x ∷ l) (take-take_self n xs)

rounds_cover :
    (mss len : ℕ)
    → 0 < mss
    → 0 < len
    → (len ≤ (len + mss - 1) / mss * mss) × (0 < (len + mss - 1) / mss)
rounds_cover mss len h k = (grind arith, grind arith)

-- `count` fragments of `mss` bytes have room for the message.
pub fragment_count-covers :
    (mss len : ℕ) → 0 < mss → (len ≤ fragment_count mss len * mss) × (0 < fragment_count mss len)
unfolding fragment_count
fragment_count-covers mss len h = grind (arith, rounds_cover)

suc_mul : (n m : ℕ) → suc n * m ≡ n * m + m
suc_mul n m = omega arith

-- The length of the next fragment.
abbrev chunk : ℕ → ℕ → ℕ
chunk mss len = if ltb mss len then mss else len

chunk-le : (mss len : ℕ) → chunk mss len ≤ len
chunk-le mss len = ground arith

chunk_last : (mss len : ℕ) → len ≤ mss → chunk mss len ≡ len
chunk_last mss len h = ground arith

chunk_left : (mss n len : ℕ) → len ≤ suc n * mss → len - chunk mss len ≤ n * mss
chunk_left mss n len h = ground (arith, suc_mul n mss)

pub map-cons_inv :
    (g : Segment) (gs : List Segment) (b : ℕ × ℕ × List ℕ) (bs : List (ℕ × ℕ × List ℕ))
    → map body (g ∷ gs) ≡ b ∷ bs
    → (g.frg ≡ b.0) × (g.len ≡ b.1) × (g.payload ≡ b.2) × (map body gs ≡ bs)
map-cons_inv g gs b bs e = ground arith

-- The head of a cut message.
merge_last :
    (g : Segment) (q : List Segment)
    → g.frg ≡ 0
    → merge (g ∷ q) ≡ record { bytes = take g.len g.payload; total = g.len; passed = 1; rest = q }
unfolding merge
merge_last g q e = rw e

merge_more :
    (g : Segment) (q : List Segment)
    → g.frg ≢ 0
    → merge (g ∷ q) ≡ record {
      bytes = take g.len g.payload ++ (merge q).bytes;
      total = g.len + (merge q).total;
      passed = suc (merge q).passed;
      rest = (merge q).rest;
    }
unfolding merge
merge_more g q e = ground arith

-- Segments with the bodies of the fragments of a message, and anything behind them: the loop copies
-- the message, counts the fragments and stops in front of what follows.
pub merge-fragment :
    (mss n len : ℕ) (buf : List ℕ) (gs q : List Segment)
    → 0 < n
    → len ≤ n * mss
    → len ≤ length buf
    → map body gs ≡ map body (fragment mss false n buf len)
    → merge (gs ++ q) ≡ record { bytes = take len buf; total = len; passed = n; rest = q }
unfolding fragment segment_new
merge-fragment mss zero len buf gs q some_left fit room e = elim some_left [ ]
merge-fragment mss (suc n) len buf [] q some_left fit room e = cc
merge-fragment mss (suc zero) len buf (g ∷ []) q some_left fit room e =
    let (no_more, size, bytes, _) =
      map-cons_inv g [] (0, chunk mss len, take (chunk mss len) buf) [] e in
    ground (arith, merge_last g q no_more, chunk_last mss len (omega arith), take-take_self len buf)
merge-fragment mss (suc zero) len buf (g ∷ h ∷ gs) q some_left fit room e = cc
merge-fragment mss (suc (suc n)) len buf (g ∷ gs) q some_left fit room e =
    let m = chunk mss len in
    let (more, size, bytes, others) = map-cons_inv g gs (suc n, m, take m buf) _ e in
    ground (
      arith,
      merge_more g (gs ++ q) (omega (arith, more)),
      merge-fragment mss (suc n) (len - m) (drop m buf) gs q (omega arith)
          (omega (arith, chunk_left mss (suc n) len fit)) (omega (arith, length-drop m buf)) others,
      take-split m len buf (chunk-le mss len),
      take-take_self m buf,
      chunk-le mss len,
    )

-- Every fragment holds at most `mss` bytes, and as many as its length says.
pub fragment-Fits :
    (mss n len : ℕ) (stream : Bool) (buf : List ℕ)
    → len ≤ length buf
    → All (Fits mss) (fragment mss stream n buf len) × (length (fragment mss stream n buf len) ≡ n)
unfolding fragment segment_new
fragment-Fits mss zero len stream buf room = (tt, refl)
fragment-Fits mss (suc n) len stream buf room =
    let m = chunk mss len in
    let ih = fragment-Fits mss n (len - m) stream (drop m buf) (omega (arith, length-drop m buf)) in
    (((ground arith, omega (arith, length-take m buf, chunk-le mss len)), ih.0), ap suc ih.1)
