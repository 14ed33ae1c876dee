-- ===== src/Endpoint/Transit.antt =====
-- `FecKcp` (source/fec_kcp.cpp) from the engine of one endpoint to that of the other.
use fec_kcp.Prelude.{
  ℕ, zero, suc, ◌+◌, ◌≤◌, ◌<◌, ◌≡◌, refl, ap, ◌∙◌, sym, false, Option, none, List, [], ◌∷◌, ◌++◌,
  map, length, length-append, take, take_all, replicate, get_or, All, All-append, All-replicate,
  pos, arith,
}
use fec_kcp.Fec.Encode.{Encoder, RsEncode, header, pad, redundant_buffers, bytes_of, head_length}
use fec_kcp.Fec.Encode.Gather.{coded, longest}
use fec_kcp.Fec.Encode.Group.{IsPacket}
use fec_kcp.Fec.Groups.{get}
use fec_kcp.Fec.Decode.{Decoder, RsDecode, ◌>>=◌}
use fec_kcp.Fec.Decode.Quiet.{Quiet}
use fec_kcp.Fec.Decode.Arrive.{packet, All-get_or}
use fec_kcp.Fec.Code.{contains, arrived, present, IsCode}
use fec_kcp.Fec.Code.Arrivals.{or_size}
use fec_kcp.Fec.Packets.{lengths_short, longest_bounds}
use fec_kcp.Fec.RoundTrip.{
  group_packets, header_lengths, count_rows, count_lens, even, redundant, sent-packet,
}
use fec_kcp.Endpoint.{FecKcp, Sends, send_datagrams}
use fec_kcp.Endpoint.Group.{length-coded, length-redundant_buffers, send_datagrams-group}
use fec_kcp.Endpoint.Rounds.{kcp_inputs, IsLength}
use fec_kcp.Endpoint.Received.{received, handed-received}
use fec_kcp.Endpoint.Run.{data_inputs, handed, with_results, data_inputs-handed}

-- What the call `j` of the user's callback puts on the wire.
abbrev pub datagram : Sends → ℕ → List ℕ
datagram sends j = let (p, len) = get_or sends j (none, 0) in take len (bytes_of p)

data_inputs-congr :
    (rs_decode2 : RsDecode) (clock : ℕ → ℕ) (a b : ℕ → List ℕ) (f : FecKcp) (n : ℕ) (is : List ℕ)
    → ((j : ℕ) → j < n → a j ≡ b j)
    → All (λ j. j < n) is
    → data_inputs rs_decode2 clock a f is ≡ data_inputs rs_decode2 clock b f is
unfolding data_inputs
data_inputs-congr rs_decode2 clock a b f n [] same h = refl
data_inputs-congr rs_decode2 clock a b f n (i ∷ is) same h =
    rw (data_inputs-congr rs_decode2 clock a b f n is same h.1, same i h.0) refl

get_or-map {ℓ κ} :
    {A : Type ℓ} {B : Type κ} (f : A → B) (xs : List A) (j : ℕ) (x : A) (y : B)
    → j < length xs
    → get_or (map f xs) j y ≡ f (get_or xs j x)
get_or-map f [] j x y h = absurd (omega arith)
get_or-map f (z ∷ xs) zero x y h = refl
get_or-map f (z ∷ xs) (suc j) x y h = get_or-map f xs j x y (omega arith)

-- The lengths of packets, none of which is empty.
lengths-IsLength :
    (size : ℕ) (ds : List (List ℕ))
    → All IsPacket ds
    → longest ds ≤ size
    → All (IsLength size) (map length ds)
unfolding longest
lengths-IsLength size [] a h = tt
lengths-IsLength size (d ∷ ds) a h =
    ((a.0.0, omega arith), lengths-IsLength size ds a.1 (omega arith))

module _ (rs_encode2 : RsEncode) (rs_decode2 : RsDecode) (e : Encoder) (ds : List (List ℕ))
    (code : IsCode e.data_pkg_num (e.data_pkg_num + e.redundant_pkg_num) rs_encode2 rs_decode2)
    (whole : length ds ≡ e.data_pkg_num) where
  abbrev size : ℕ
  size = longest ds

  abbrev rows : List (List ℕ)
  rows = map (pad size) ds

  abbrev all_rows : List (List ℕ)
  all_rows = rows ++ rs_encode2 e.data_pkg_num (e.data_pkg_num + e.redundant_pkg_num) rows size

  abbrev calls : Sends
  calls = map (λ p. (p, size + head_length)) (group_packets rs_encode2 rs_decode2 e ds code)

  length-group_packets :
      length (group_packets rs_encode2 rs_decode2 e ds code) ≡ e.data_pkg_num + e.redundant_pkg_num
  length-group_packets =
      let k = e.data_pkg_num in
      let r = e.redundant_pkg_num in
      let more = rs_encode2 k (k + r) rows size in
      omega (
        arith,
        length-append (coded e.seq size k r 0 ds) (redundant_buffers e.seq size k r k more),
        length-coded e.seq size k r 0 ds,
        length-redundant_buffers e.seq size k r k more,
        redundant rs_encode2 rs_decode2 e ds code whole,
        whole,
      )

  datagram-packet :
      (j : ℕ)
      → j < e.data_pkg_num + e.redundant_pkg_num
      → datagram calls j
        ≡ packet e.data_pkg_num e.redundant_pkg_num e.seq all_rows
            (header_lengths rs_encode2 rs_decode2 e ds code)
            j
  unfolding header
  datagram-packet j h =
      let packets = group_packets rs_encode2 rs_decode2 e ds code in
      let k = e.data_pkg_num in
      let r = e.redundant_pkg_num in
      let row_even = even rs_encode2 rs_decode2 e ds code whole in
      let count = count_rows rs_encode2 rs_decode2 e ds code whole in
      let row =
        All-get_or (λ (x : List ℕ). length x ≡ size) all_rows j []
          (omega (
            arith,
            length-append rows (rs_encode2 k (k + r) rows size),
            count,
            redundant rs_encode2 rs_decode2 e ds code whole,
          ))
          (All-append (λ (x : List ℕ). length x ≡ size) rows _ row_even
            (code.encode_rows rows size count row_even).1) in
      ap (λ (s : Option (List ℕ) × ℕ). take s.1 (bytes_of s.0))
        (get_or-map (λ p. (p, size + head_length)) packets j none (none, 0)
          (omega (arith, length-group_packets)))
      ∙ ap (take (size + head_length)) (sent-packet rs_encode2 rs_decode2 e ds code whole j h)
      ∙ take_all _ (size + head_length) (omega (arith, row))

-- A group of the engine's datagrams from one endpoint to the other. The coder of the one starts a group
-- and gets, through the engine's callback, as many datagrams of 1 to 65535 bytes as the group holds. The
-- calls of the user's callback are put on the wire and reach `DataInput` of the other endpoint in any
-- order, repeated and with losses, at any times, until as many different ones have arrived as there are
-- datagrams. The other decoder has nothing else to hand out and has not heard of the group, the number of the
-- group is not 0 and not the one of the group handed out last, the group has at most 127 packets, and the
-- erasure code recovers its rows. Then the other engine is given exactly the datagrams, each once and in
-- order, as if they had reached `ikcp_input` directly, where the first of them and each that was lost
-- are followed by zeros up to the length of the longest.
pub send_datagrams-data_inputs :
    (rs_encode2 : RsEncode) (rs_decode2 : RsDecode) (clock : ℕ → ℕ) (e : Encoder)
    (ds : List (List ℕ)) (f : FecKcp) (is : List ℕ) (i : ℕ)
    → IsCode e.data_pkg_num (e.data_pkg_num + e.redundant_pkg_num) rs_encode2 rs_decode2
    → e.cur_data_pkgs_num ≡ 0
    → length e.data_pkgs ≡ e.data_pkg_num + e.redundant_pkg_num
    → length e.data_pkgs_length ≡ e.data_pkg_num + e.redundant_pkg_num
    → 0 < e.seq
    → e.seq < 65536
    → 0 < e.data_pkg_num
    → e.data_pkg_num + e.redundant_pkg_num < 128
    → length ds ≡ e.data_pkg_num
    → All IsPacket ds
    → get e.seq f.fec_decode.groups ≡ none
    → Quiet e.seq f.fec_decode
    → All (λ j. j < e.data_pkg_num + e.redundant_pkg_num) is
    → i < e.data_pkg_num + e.redundant_pkg_num
    → contains is i ≡ false
    → present (
          arrived is 0 (
            map (pad (longest ds)) ds
            ++ rs_encode2 e.data_pkg_num
                (e.data_pkg_num + e.redundant_pkg_num)
                (map (pad (longest ds)) ds)
                (longest ds)))
        + 1
      ≡ e.data_pkg_num
    → (d' : Decoder) × (data_inputs rs_decode2 clock
          (datagram (send_datagrams rs_encode2 e ds).0)
          f
          (i ∷ is)
        ≡ (kcp_inputs (pos 0) f.kcp (received (i ∷ is) (longest ds) 0 ds)
            >>= with_results f d' (length is)))
      × (d'.ready_seqs_nums ≡ 0)
send_datagrams-data_inputs rs_encode2 rs_decode2 clock e ds f is i code start full measured not_zero
      fits some_data wide whole a fresh quiet b inside new enough =
    let k = e.data_pkg_num in
    let r = e.redundant_pkg_num in
    let size = longest ds in
    let (long, short) = longest_bounds ds a (omega arith) in
    let lens = header_lengths rs_encode2 rs_decode2 e ds code in
    let (calls_made, _, _) =
      send_datagrams-group rs_encode2 e ds start full measured whole some_data a
        (redundant rs_encode2 rs_decode2 e ds code whole) in
    let (d', run, none_left) =
      data_inputs-handed rs_encode2 rs_decode2 clock k r e.seq size (map (pad size) ds) lens f is i
        code some_data wide not_zero fits long (count_rows rs_encode2 rs_decode2 e ds code whole)
        (count_lens rs_encode2 rs_decode2 e ds code whole)
        (even rs_encode2 rs_decode2 e ds code whole)
        (All-append (λ l. l < 65536) (map length ds) _ (lengths_short ds a).0
          (All-replicate (λ l. l < 65536) r size short))
        (All-append (IsLength size) (map length ds) _ (lengths-IsLength size ds a (omega arith))
          (All-replicate (IsLength size) r size (long, omega arith)))
        fresh quiet b inside new enough in
    let same =
      data_inputs-congr rs_decode2 clock (datagram (calls rs_encode2 rs_decode2 e ds code whole)) _
        f (k + r) (i ∷ is) (datagram-packet rs_encode2 rs_decode2 e ds code whole) (inside, b) in
    let as_sent = handed-received (i ∷ is) size ds (replicate r size) (omega arith) in
    let as_counted =
      ap (λ n. handed size (map (pad size) ds) (take n (or_size size (arrived (i ∷ is) 0 lens))))
        (sym whole) in
    (
      d',
      ap (λ s. data_inputs rs_decode2 clock (datagram s) f (i ∷ is)) calls_made
          ∙ same
          ∙ run
          ∙ ap (λ l. kcp_inputs (pos 0) f.kcp l >>= with_results f d' (length is))
              (as_counted ∙ as_sent),
      none_left,
    )
