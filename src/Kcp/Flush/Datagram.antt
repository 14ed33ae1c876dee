-- ===== src/Kcp/Flush/Datagram.antt =====
-- The datagrams of `ikcp_flush` (lib/kcp/source/ikcp.c): none is longer than the MTU, and together
-- they are the encodings of the segments put, in order.
use fec_kcp.Prelude.{
  ℕ, ◌+◌, ◌≤◌, ◌≡◌, refl, ap, ◌∙◌, sym, List, [], ◌∷◌, ◌++◌, append-nil, append_assoc, length,
  length-append, length-take, take, All, All-append, ltb, arith, Bool-cases, inl, inr,
}
use fec_kcp.Kcp.Segment.{Segment, encode_seg, overhead}
use fec_kcp.Kcp.Segment.RoundTrip.{length-encode_seg}
use fec_kcp.Kcp.Flush.{Out, output, make_room, put_segment}

-- The bytes of one segment on the wire.
abbrev pub wire : Segment → List ℕ
wire g = encode_seg g ++ take g.len g.payload

unfoldable pub join : List (List ℕ) → List ℕ
join [] = []
join (d ∷ ds) = d ++ join ds

pub join-append : (ds es : List (List ℕ)) → join (ds ++ es) ≡ join ds ++ join es
unfolding join
join-append [] es = refl
join-append (d ∷ ds) es = rw (join-append ds es) (sym (append_assoc d (join ds) (join es)))

-- All the bytes put so far, output or pending.
abbrev pub stream : Out → List ℕ
stream o = join o.sent ++ o.pending

-- No datagram, output or pending, is longer than the MTU.
pub record IsBounded (mtu : ℕ) (o : Out) : Type 0 where
  pub now : length o.pending ≤ mtu
  pub past : All (λ d. length d ≤ mtu) o.sent

output_of :
    (p : List ℕ) (ds : List (List ℕ))
    → stream (output (record { pending = p; sent = ds })) ≡ join ds ++ p
unfolding output
output_of [] ds = refl
output_of (b ∷ bs) ds =
    rw (join-append ds ((b ∷ bs) ∷ []), append-nil)
      (unfold join in ap (λ l. join ds ++ l) (append-nil (b ∷ bs)))

pub stream-output : (o : Out) → stream (output o) ≡ stream o
stream-output o = output_of o.pending o.sent

pub output_bounded :
    (mtu : ℕ) (p : List ℕ) (ds : List (List ℕ))
    → length p ≤ mtu
    → All (λ d. length d ≤ mtu) ds
    → let o = output (record { pending = p; sent = ds }) in
      (length o.pending ≡ 0) × All (λ d. length d ≤ mtu) o.sent
unfolding output
output_bounded mtu [] ds h a = (refl, a)
output_bounded mtu (b ∷ bs) ds h a =
    (refl, All-append (λ d. length d ≤ mtu) ds ((b ∷ bs) ∷ []) a (h, tt))

pub output-empty :
    (p : List ℕ) (ds : List (List ℕ)) → (output (record { pending = p; sent = ds })).pending ≡ []
unfolding output
output-empty [] ds = refl
output-empty (b ∷ bs) ds = refl

length-wire : (g : Segment) → length (wire g) ≤ overhead + g.len
length-wire g = omega (
  arith,
  length-append (encode_seg g) (take g.len g.payload),
  length-encode_seg g,
  length-take g.len g.payload,
)

pub put_segment-IsBounded :
    (mtu : ℕ) (g : Segment) (o : Out)
    → overhead + g.len ≤ mtu
    → IsBounded mtu o
    → IsBounded mtu (put_segment mtu g o)
unfolding put_segment make_room
put_segment-IsBounded mtu g o fits v =
    elim (Bool-cases (ltb mtu (length o.pending + (overhead + g.len)))) [
      | inl full ↦
          let (empty, past) = output_bounded mtu o.pending o.sent v.now v.past in
          rw full (record {
            now = omega (arith, empty, length-append (output o).pending (wire g), length-wire g);
            past = past;
          })
      | inr room ↦ rw room (record {
        now = ground (arith, length-append o.pending (wire g), length-wire g);
        past = v.past;
      })
    ]

pub stream-put_segment :
    (mtu : ℕ) (g : Segment) (o : Out) → stream (put_segment mtu g o) ≡ stream o ++ wire g
unfolding put_segment make_room
stream-put_segment mtu g o = elim (Bool-cases (ltb mtu (length o.pending + (overhead + g.len)))) [
  | inl full ↦ rw full (
      sym (append_assoc (join (output o).sent) (output o).pending (wire g))
      ∙ ap (λ l. l ++ wire g) (stream-output o))
  | inr room ↦ rw room (sym (append_assoc (join o.sent) o.pending (wire g)))
]
