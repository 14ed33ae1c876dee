-- ===== src/Fec/RoundTrip.antt =====
-- lib/libfec from end to end: what `FecEncode` makes of a group of packets, `FecDecode` takes apart
-- again, whichever packets of the group get lost on the way, as long as enough of them arrive.
use fec_kcp.Prelude.{
  length-map, ℕ, ◌+◌, ◌<◌, ◌≡◌, refl, ap, ◌∙◌, sym, false, Option, none, some, List, [], ◌∷◌, ◌++◌,
  map, length, length-append, length-replicate, get_or, replicate, All, All-append, All-replicate,
  pos, arith,
}
use fec_kcp.Fec.Encode.{Encoder, RsEncode, output, pad, redundant_buffers, bytes_of, head_length}
use fec_kcp.Fec.Encode.Gather.{coded, longest}
use fec_kcp.Fec.Encode.Group.{IsPacket, inputs, inputs-output}
use fec_kcp.Fec.Groups.{Group, get}
use fec_kcp.Fec.Decode.{Decoder, RsDecode}
use fec_kcp.Fec.Decode.Arrive.{packet}
use fec_kcp.Fec.Decode.Recover.{Recovers}
use fec_kcp.Fec.Decode.Feed.{feed, feed-Recovers}
use fec_kcp.Fec.Code.{contains, arrived, present, IsCode}
use fec_kcp.Fec.Packets.{
  headed, coded-headed, redundant_buffers-headed, headed-append, headed-packet, map-pad_even,
  lengths_short, longest_bounds,
}

-- The packet `j` of those that `Output` has handed out.
abbrev pub sent : List (Option (List ℕ)) → ℕ → List ℕ
sent packets j = bytes_of (get_or packets j none)

feed-congr :
    (rs_decode2 : RsDecode) (clock : ℕ → ℕ) (f g : ℕ → List ℕ) (d : Decoder) (n : ℕ) (is : List ℕ)
    → ((j : ℕ) → j < n → f j ≡ g j)
    → All (λ j. j < n) is
    → feed rs_decode2 clock f d is ≡ feed rs_decode2 clock g d is
unfolding feed
feed-congr rs_decode2 clock f g d n [] same a = refl
feed-congr rs_decode2 clock f g d n (i ∷ is) same a =
    rw (feed-congr rs_decode2 clock f g d n is same a.1, same i a.0) refl

module _ (rs_encode2 : RsEncode) (rs_decode2 : RsDecode) (e : Encoder) (ps : List (List ℕ))
    (code : IsCode e.data_pkg_num
      (e.data_pkg_num + e.redundant_pkg_num)
      rs_encode2
      rs_decode2) where
  abbrev k : ℕ
  k = e.data_pkg_num

  abbrev r : ℕ
  r = e.redundant_pkg_num

  abbrev size : ℕ
  size = longest ps

  abbrev rows : List (List ℕ)
  rows = map (pad size) ps

  -- The packets of the group.
  abbrev pub group_packets : List (Option (List ℕ))
  group_packets =
      coded e.seq size k r 0 ps
      ++ redundant_buffers e.seq size k r k (rs_encode2 k (k + r) rows size)

  -- The lengths in their headers.
  abbrev pub header_lengths : List ℕ
  header_lengths = map length ps ++ replicate r size

  module _ (whole : length ps ≡ k) where
    pub count_rows : length rows ≡ k
    count_rows = length-map (pad size) ps ∙ whole

    pub count_lens : length header_lengths ≡ k + r
    count_lens = omega (
      arith,
      length-append (map length ps) (replicate r size),
      length-map (length {A = ℕ}) ps,
      whole,
      length-replicate {A = ℕ} r size,
    )

    pub even : All (λ row. length row ≡ size) rows
    even = map-pad_even size ps (omega arith)

    pub redundant : length (rs_encode2 k (k + r) rows size) ≡ r
    redundant = omega (arith, (code.encode_rows rows size count_rows even).0)

    group_packets-headed :
        group_packets ≡ headed e.seq k r 0 header_lengths (rows ++ rs_encode2 k (k + r) rows size)
    group_packets-headed =
        ap (λ l. l ++ redundant_buffers e.seq size k r k (rs_encode2 k (k + r) rows size))
          (coded-headed e.seq size k r 0 ps)
        ∙ ap (λ l. headed e.seq k r 0 (map length ps) rows ++ l)
            (redundant_buffers-headed e.seq size k r k r _ (sym redundant))
        ∙ headed-append e.seq k r 0 k (map length ps) (replicate r size) rows _
            (omega (arith, length-map (length {A = ℕ}) ps, length-map (pad size) ps))
            (omega (arith, length-map (length {A = ℕ}) ps, whole))

    pub sent-packet :
        (j : ℕ)
        → j < k + r
        → sent group_packets j
          ≡ packet k r e.seq (rows ++ rs_encode2 k (k + r) rows size) header_lengths j
    sent-packet j h =
        let n : length (rows ++ rs_encode2 k (k + r) rows size) ≡ k + r =
          omega
            (arith, length-append rows (rs_encode2 k (k + r) rows size), redundant, count_rows) in
        ap (λ l. bytes_of (get_or l j none)) group_packets-headed
        ∙ ap bytes_of (
            headed-packet e.seq k r j header_lengths (rows ++ rs_encode2 k (k + r) rows size)
              (omega (arith, n, count_lens)) (omega (arith, n)))

-- What `FecEncode` makes of a whole group, `FecDecode` takes apart. An encoder that starts a group is given
-- as many packets of 1 to 65535 bytes as the group holds, and the packets that it hands out reach a
-- decoder that has not heard of the group, in any order, repeated and with losses, at any times, until as
-- many different ones have arrived as the group has data packets. `Input` of the decoder returns 0 for
-- each but the last, and the length of the longest packet for the last. The decoder then holds every
-- packet of the group in its place, padded with zeros to the longest, with its own length if its packet
-- has arrived and the length of the longest if it has been recovered. The erasure code is assumed to
-- recover its rows, and the group to have at most 127 packets.
pub encode-decode :
    (rs_encode2 : RsEncode) (rs_decode2 : RsDecode) (e : Encoder) (ps : List (List ℕ))
    (clock : ℕ → ℕ) (d : Decoder) (is : List ℕ) (i : ℕ)
    → IsCode e.data_pkg_num (e.data_pkg_num + e.redundant_pkg_num) rs_encode2 rs_decode2
    → e.cur_data_pkgs_num ≡ 0
    → length e.data_pkgs ≡ e.data_pkg_num + e.redundant_pkg_num
    → length e.data_pkgs_length ≡ e.data_pkg_num + e.redundant_pkg_num
    → e.seq < 65536
    → 0 < e.data_pkg_num
    → e.data_pkg_num + e.redundant_pkg_num < 128
    → length ps ≡ e.data_pkg_num
    → All IsPacket ps
    → get e.seq d.groups ≡ none
    → All (λ j. j < e.data_pkg_num + e.redundant_pkg_num) is
    → i < e.data_pkg_num + e.redundant_pkg_num
    → contains is i ≡ false
    → present (
          arrived is 0 (
            map (pad (longest ps)) ps
            ++ rs_encode2 e.data_pkg_num
                (e.data_pkg_num + e.redundant_pkg_num)
                (map (pad (longest ps)) ps)
                (longest ps)))
        + 1
      ≡ e.data_pkg_num
    → (packets : List (Option (List ℕ))) × (lengths : List ℕ) × (d' : Decoder) × (g : Group)
      × ((output (inputs rs_encode2 e ps).1).1 ≡ some (packets, lengths))
      × (feed rs_decode2 clock (sent packets) d (i ∷ is)
          ≡ some (pos (longest ps) ∷ replicate (length is) (pos 0), d'))
      × Recovers e.data_pkg_num e.seq
          (longest ps)
          (map (pad (longest ps)) ps)
          (map length ps ++ replicate e.redundant_pkg_num (longest ps))
          (i ∷ is)
          d'
          g
encode-decode rs_encode2 rs_decode2 e ps clock d is i code start full measured fits some_data wide
      whole a fresh b inside new enough =
    let out = inputs-output rs_encode2 e ps start full measured whole some_data a in
    let (long, short) = longest_bounds ps a (omega arith) in
    let (short_own, not_empty_own) = lengths_short ps a in
    let (d', g, fed, w, late, opened) =
      feed-Recovers rs_encode2 rs_decode2 clock e.data_pkg_num e.redundant_pkg_num e.seq
        (longest ps) (map (pad (longest ps)) ps) (header_lengths rs_encode2 rs_decode2 e ps code) d
        code some_data wide fits (count_rows rs_encode2 rs_decode2 e ps code whole)
        (count_lens rs_encode2 rs_decode2 e ps code whole)
        (even rs_encode2 rs_decode2 e ps code whole)
        (All-append (λ l. l < 65536) (map length ps) _ short_own
          (All-replicate (λ l. l < 65536) e.redundant_pkg_num (longest ps) short))
        (All-append (λ l. 0 < l) (map length ps) _ not_empty_own
          (All-replicate (λ l. 0 < l) e.redundant_pkg_num (longest ps) long))
        fresh is i i 0 b inside new enough inside in
    (
      group_packets rs_encode2 rs_decode2 e ps code,
      replicate (e.data_pkg_num + e.redundant_pkg_num) (longest ps + head_length),
      d',
      g,
      out.2,
      feed-congr rs_decode2 clock (sent (group_packets rs_encode2 rs_decode2 e ps code)) _ d
            (e.data_pkg_num + e.redundant_pkg_num) (i ∷ is)
            (sent-packet rs_encode2 rs_decode2 e ps code whole) (inside, b)
          ∙ fed,
      w,
    )
