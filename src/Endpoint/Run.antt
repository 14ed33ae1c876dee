-- ===== src/Endpoint/Run.antt =====
-- `FecKcp::DataInput` (source/fec_kcp.cpp) over the packets of a whole group, from the socket to the engine.
use fec_kcp.Prelude.{
  ℕ, zero, suc, ◌+◌, ◌<◌, ◌≡◌, refl, ap, ◌∙◌, true, false, Bool-cases, Option-cases, inl, inr,
  Option, none, some, List, [], ◌∷◌, ◌++◌, map, length, length-take, replicate, take, All, ℤ, pos,
  arith,
}
use fec_kcp.Kcp.State.{Kcp}
use fec_kcp.Fec.Encode.{RsEncode}
use fec_kcp.Fec.Groups.{Group, get}
use fec_kcp.Fec.Decode.{Decoder, RsDecode, input, ◌>>=◌}
use fec_kcp.Fec.Decode.Quiet.{Quiet, Opened}
use fec_kcp.Fec.Decode.HandOut.{filled_up}
use fec_kcp.Fec.Decode.Arrive.{packet}
use fec_kcp.Fec.Decode.Feed.{feed, feed-Recovers}
use fec_kcp.Fec.Code.{contains, arrived, present, IsCode}
use fec_kcp.Fec.Code.Arrivals.{or_size, length-arrived}
use fec_kcp.Endpoint.{FecKcp, data_input, after_decode, rounds}
use fec_kcp.Endpoint.Rounds.{kcp_inputs, cut, with_decoder, IsLength, input_rounds-end}
use fec_kcp.Endpoint.Deliver.{data_input-delivers}

-- `DataInput` on packets, of which `is` lists the indices, the latest first: the results and the endpoint.
unfoldable pub data_inputs :
    RsDecode → (ℕ → ℕ) → (ℕ → List ℕ) → FecKcp → List ℕ → Option (List ℤ × FecKcp)
data_inputs rs_decode2 clock packets f [] = some ([], f)
data_inputs rs_decode2 clock packets f (i ∷ is) = do
  (results, f') ← data_inputs rs_decode2 clock packets f is
  (result, f'') ← data_input rs_decode2 (clock (length is)) f' (packets i)
  some (result ∷ results, f'')

-- The packets of a group as the engine gets them.
abbrev pub handed : ℕ → List (List ℕ) → List ℕ → List (List ℕ)
handed size (row ∷ rows) (len ∷ lens) = filled_up size len row ∷ cut rows lens
handed size _ _ = []

bind-some {ℓ κ} :
    {A : Type ℓ} {B : Type κ} (o : Option A) (f : A → Option B) (b : B)
    → (o >>= f) ≡ some b
    → (a : A) × (o ≡ some a) × (f a ≡ some b)
bind-some none f b h = absurd (ground (arith, h))
bind-some (some a) f b h = (a, refl, h)

some-injective {ℓ} : {A : Type ℓ} (a b : A) → some a ≡ some b → a ≡ b
some-injective a b h = ap (λ o. elim o [ none ↦ a | some x ↦ x ]) h

abbrev head : List ℤ → ℤ
head [] = pos 0
head (n ∷ ns) = n

abbrev tail : List ℤ → List ℤ
tail [] = []
tail (n ∷ ns) = ns

feed-split :
    (rs_decode2 : RsDecode) (clock : ℕ → ℕ) (packets : ℕ → List ℕ) (d : Decoder) (i : ℕ)
    (is : List ℕ) (result : ℤ) (results : List ℤ) (d' : Decoder)
    → feed rs_decode2 clock packets d (i ∷ is) ≡ some (result ∷ results, d')
    → (d₁ : Decoder) × (feed rs_decode2 clock packets d is ≡ some (results, d₁))
      × (input rs_decode2 (clock (length is)) d₁ (some (packets i)) ≡ some (result, d'))
unfolding feed
feed-split rs_decode2 clock packets d i is result results d' h =
    let ((rs, d₁), e, rest) = bind-some (feed rs_decode2 clock packets d is) _ _ h in
    let ((r, d₂), e', last) =
      bind-some (input rs_decode2 (clock (length is)) d₁ (some (packets i))) _ _ rest in
    let same = some-injective (r ∷ rs, d₂) (result ∷ results, d') last in
    (
      d₁,
      e ∙ ap (λ (p : List ℤ × Decoder). some (tail p.0, d₁)) same,
      e' ∙ ap (λ (p : List ℤ × Decoder). some (head p.0, p.1)) same,
    )

-- A packet that completes no group.
data_input_waits :
    (rs_decode2 : RsDecode) (now : ℕ) (f : FecKcp) (buf : List ℕ) (d : Decoder)
    → input rs_decode2 now f.fec_decode (some buf) ≡ some (pos 0, d)
    → data_input rs_decode2 now f buf ≡ some (pos 0, record f { fec_decode = d })
unfolding data_input after_decode rounds
data_input_waits rs_decode2 now f buf d e =
    ap (after_decode now f) e
    ∙ input_rounds-end (rounds d) now (record f { fec_decode = d }) (pos 0) (omega arith)

data_inputs_wait :
    (rs_decode2 : RsDecode) (clock : ℕ → ℕ) (packets : ℕ → List ℕ) (f : FecKcp) (is : List ℕ)
    (d : Decoder)
    → feed rs_decode2 clock packets f.fec_decode is ≡ some (replicate (length is) (pos 0), d)
    → data_inputs rs_decode2 clock packets f is
      ≡ some (replicate (length is) (pos 0), record f { fec_decode = d })
unfolding data_inputs feed
data_inputs_wait rs_decode2 clock packets f [] d h =
    ap (λ (p : List ℤ × Decoder). some (p.0, record f { fec_decode = p.1 }))
      (some-injective ([], f.fec_decode) ([], d) h)
data_inputs_wait rs_decode2 clock packets f (i ∷ is) d h =
    let (d₁, e, e') =
      feed-split rs_decode2 clock packets f.fec_decode i is (pos 0) (replicate (length is) (pos 0))
        d h in
    let ih = data_inputs_wait rs_decode2 clock packets f is d₁ e in
    let step =
      data_input_waits rs_decode2 (clock (length is)) (record f { fec_decode = d₁ }) (packets i) d
        e' in
    rw (ih, step) refl

All-take {ℓ κ} : {A : Type ℓ} (P : A → Type κ) (n : ℕ) (xs : List A) → All P xs → All P (take n xs)
All-take P zero xs a = tt
All-take P (suc n) [] a = tt
All-take P (suc n) (x ∷ xs) a = (a.0, All-take P n xs a.1)

or_size-IsLength :
    (size : ℕ) (is : List ℕ) (j : ℕ) (lens : List ℕ)
    → 0 < size
    → All (IsLength size) lens
    → All (IsLength size) (or_size size (arrived is j lens))
unfolding or_size arrived
or_size-IsLength size is j [] some_bytes a = tt
or_size-IsLength size is j (l ∷ lens) some_bytes a = elim (Bool-cases (contains is j)) [
  | inl here ↦ rw here (a.0, or_size-IsLength size is (j + 1) lens some_bytes a.1)
  | inr away ↦
      rw away ((some_bytes, omega arith), or_size-IsLength size is (j + 1) lens some_bytes a.1)
]

length-or_size : (size : ℕ) (ls : List (Option ℕ)) → length (or_size size ls) ≡ length ls
unfolding or_size
length-or_size size [] = refl
length-or_size size (none ∷ ls) = ap suc (length-or_size size ls)
length-or_size size (some l ∷ ls) = ap suc (length-or_size size ls)

data_input-hands :
    (rs_decode2 : RsDecode) (now seq n : ℕ) (f : FecKcp) (buf : List ℕ) (rows : List (List ℕ))
    (lens : List ℕ) (g : Group) (d : Decoder)
    → input rs_decode2 now f.fec_decode (some buf) ≡ some (pos n, d)
    → 0 < n
    → 0 < seq
    → seq < 65536
    → get seq d.groups ≡ some g
    → g.ready ≡ true
    → Opened seq n d
    → g.pkgs ≡ map some rows
    → g.pkgs_length ≡ lens
    → length lens ≡ length rows
    → 0 < length rows
    → All (λ r. length r ≡ n) rows
    → All (IsLength n) lens
    → (d' : Decoder) × (data_input rs_decode2 now f buf
        ≡ (kcp_inputs (pos 0) f.kcp (handed n rows lens) >>= with_decoder f d'))
      × (d'.ready_seqs_nums ≡ 0)
data_input-hands rs_decode2 now seq n f buf [] lens g d e some_bytes not_zero fits here is_ready o
      ps ls same some_rows even long =
    absurd (omega arith)
data_input-hands rs_decode2 now seq n f buf (row ∷ rows) [] g d e some_bytes not_zero fits here
      is_ready o ps ls same some_rows even long =
    absurd (omega arith)
data_input-hands rs_decode2 now seq n f buf (row ∷ rows) (len ∷ lens) g d e some_bytes not_zero fits
      here is_ready o ps ls same some_rows even long =
    data_input-delivers rs_decode2 now seq n len f buf row rows lens g d e some_bytes not_zero fits
      here is_ready o.one o.found o.no_plain o.idle ps ls (omega arith) even long

All-positive : (size : ℕ) (lens : List ℕ) → All (IsLength size) lens → All (λ l. 0 < l) lens
All-positive size [] a = tt
All-positive size (l ∷ lens) a = (a.0.0, All-positive size lens a.1)

-- What a call of `DataInput` that hands a group to the engine leaves, behind `n` calls that returned 0.
abbrev pub with_results : FecKcp → Decoder → ℕ → ℤ × Kcp → Option (List ℤ × FecKcp)
with_results f d n (ret, k) = some (ret ∷ replicate n (pos 0), record f { kcp = k; fec_decode = d })

-- A group of packets from the socket to the engine. Packets of a group that the decoder has not heard of
-- reach `DataInput`, in any order, repeated and with losses, at any times, until as many different
-- ones have arrived as the group has data packets. Nothing else waits in the decoder to be handed out,
-- the number of the group is not 0 and not the one of the group handed out last. The erasure code is
-- assumed to recover its rows, and the group to have at most 127 packets. Then each call but the last
-- returns 0 and leaves the engine alone. The last one gives the engine every data packet of the group,
-- in the order in which they were encoded: the first cut to its length and filled up with zeros to the
-- size of the rows, each later one cut to its length, where the length is the one that its header gives if
-- the packet has arrived, and the size of the rows if it has been recovered. Its result is that of the
-- last `ikcp_input`, or 0 where that is not negative. No group is ready behind.
pub data_inputs-handed :
    (rs_encode2 : RsEncode) (rs_decode2 : RsDecode) (clock : ℕ → ℕ) (k r seq size : ℕ)
    (rows : List (List ℕ)) (lens : List ℕ) (f : FecKcp) (is : List ℕ) (i : ℕ)
    → IsCode k (k + r) rs_encode2 rs_decode2
    → 0 < k
    → k + r < 128
    → 0 < seq
    → seq < 65536
    → 0 < size
    → length rows ≡ k
    → length lens ≡ k + r
    → All (λ row. length row ≡ size) rows
    → All (λ l. l < 65536) lens
    → All (IsLength size) lens
    → get seq f.fec_decode.groups ≡ none
    → Quiet seq f.fec_decode
    → All (λ j. j < k + r) is
    → i < k + r
    → contains is i ≡ false
    → present (arrived is 0 (rows ++ rs_encode2 k (k + r) rows size)) + 1 ≡ k
    → (d' : Decoder) × (data_inputs rs_decode2 clock
          (packet k r seq (rows ++ rs_encode2 k (k + r) rows size) lens)
          f
          (i ∷ is)
        ≡ (kcp_inputs
              (pos 0)
              f.kcp
              (handed size rows (take k (or_size size (arrived (i ∷ is) 0 lens))))
            >>= with_results f d' (length is)))
      × (d'.ready_seqs_nums ≡ 0)
unfolding data_inputs
data_inputs-handed rs_encode2 rs_decode2 clock k r seq size rows lens f is i code some_data wide
      not_zero fits some_bytes count_rows count_lens even short long fresh quiet a inside new
      enough =
    let packets = packet k r seq (rows ++ rs_encode2 k (k + r) rows size) lens in
    let out = take k (or_size size (arrived (i ∷ is) 0 lens)) in
    let (d₂, g, fed, w, late, opened) =
      feed-Recovers rs_encode2 rs_decode2 clock k r seq size rows lens f.fec_decode code some_data
        wide fits count_rows count_lens even short (All-positive size lens long) fresh is i i 0 a
        inside new enough inside in
    let (d₁, e, e') =
      feed-split rs_decode2 clock packets f.fec_decode i is (pos size)
        (replicate (length is) (pos 0)) d₂ fed in
    let waited = data_inputs_wait rs_decode2 clock packets f is d₁ e in
    let count : length out ≡ length rows = omega (
      arith,
      length-take k (or_size size (arrived (i ∷ is) 0 lens)),
      length-or_size size (arrived (i ∷ is) 0 lens),
      length-arrived (i ∷ is) 0 lens,
      count_lens,
      count_rows,
    ) in
    let (d', last, none_left) =
      data_input-hands rs_decode2 (clock (length is)) seq size (record f { fec_decode = d₁ })
        (packets i) rows out g d₂ e' some_bytes not_zero fits w.here w.is_ready (opened quiet)
        w.bodies w.lengths count (omega arith) even
        (All-take (IsLength size) k _ (or_size-IsLength size (i ∷ is) 0 lens some_bytes long)) in
    (
      d',
      elim (Option-cases (kcp_inputs (pos 0) f.kcp (handed size rows out))) [
        | inl fault ↦ rw (waited, last, fault) refl
        | inr ((ret, k'), done) ↦ rw (waited, last, done) refl
      ],
      none_left,
    )
