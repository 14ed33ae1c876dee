-- ===== src/Fec/Decode/Feed.antt =====
-- `FecDecode::Input` (lib/libfec/source/fec_decode.cpp) on the packets of a group, one after the other.
use fec_kcp.Prelude.{
  ℕ, ◌+◌, ◌<◌, ◌≡◌, refl, false, Option, none, some, Bool-cases, inl, inr, List, [], ◌∷◌, ◌++◌,
  length, replicate, All, ℤ, pos, arith,
}
use fec_kcp.Fec.Encode.{RsEncode}
use fec_kcp.Fec.Groups.{Group, get}
use fec_kcp.Fec.Decode.{Decoder, RsDecode, input, ◌>>=◌}
use fec_kcp.Fec.Decode.Quiet.{Quiet, Opened}
use fec_kcp.Fec.Decode.Gather.{Waits, Waits-new}
use fec_kcp.Fec.Decode.Arrive.{packet, input-few, present_lem, input-repeated}
use fec_kcp.Fec.Code.{contains, arrived, present, IsCode}
use fec_kcp.Fec.Code.Arrivals.{present-arrived_mono}
use fec_kcp.Fec.Decode.Recover.{Recovers, count_all, even_all, input-enough, input-late}

-- `Input` on packets, of which `is` lists the indices, the latest first: the results and the decoder.
-- `clock` gives the time at which the decoder has read so many packets.
unfoldable pub feed :
    RsDecode → (ℕ → ℕ) → (ℕ → List ℕ) → Decoder → List ℕ → Option (List ℤ × Decoder)
feed rs_decode2 clock packets d [] = some ([], d)
feed rs_decode2 clock packets d (i ∷ is) = do
  (results, d') ← feed rs_decode2 clock packets d is
  (result, d'') ← input rs_decode2 (clock (length is)) d' (some (packets i))
  some (result ∷ results, d'')

module _ (rs_encode2 : RsEncode) (rs_decode2 : RsDecode) (clock : ℕ → ℕ) (k r seq size : ℕ)
    (rows : List (List ℕ)) (lens : List ℕ) (d : Decoder)
    (code : IsCode k (k + r) rs_encode2 rs_decode2) (some_data : 0 < k) (wide : k + r < 128)
    (fits : seq < 65536) (count_rows : length rows ≡ k) (count_lens : length lens ≡ k + r)
    (even : All (λ row. length row ≡ size) rows) (short : All (λ l. l < 65536) lens)
    (not_empty : All (λ l. 0 < l) lens) (fresh : get seq d.groups ≡ none) where
  abbrev sent_rows : List (List ℕ)
  sent_rows = rows ++ rs_encode2 k (k + r) rows size

  abbrev pub sent_packet : ℕ → List ℕ
  sent_packet = packet k r seq sent_rows lens

  feed-Waits :
      (is : List ℕ)
      → All (λ i. i < k + r) is
      → present (arrived is 0 sent_rows) < k
      → (d' : Decoder) × (feed rs_decode2 clock sent_packet d is
          ≡ some (replicate (length is) (pos 0), d'))
        × Waits k r seq size sent_rows lens is d'
        × (Quiet seq d → Quiet seq d')
  unfolding feed
  feed-Waits [] a few = (
    d,
    refl,
    Waits-new k r seq size sent_rows lens some_data
        (count_all rs_encode2 rs_decode2 k r seq size rows lens code some_data wide fits count_rows
          count_lens even short not_empty)
        count_lens d fresh,
    λ quiet. quiet,
  )
  feed-Waits (i ∷ is) a few =
      let mono = present-arrived_mono is i 0 sent_rows in
      let (d', e, v, q) = feed-Waits is a.1 (omega arith) in
      let count =
        count_all rs_encode2 rs_decode2 k r seq size rows lens code some_data wide fits count_rows
          count_lens even short not_empty in
      let evens =
        even_all rs_encode2 rs_decode2 k r seq size rows lens code some_data wide fits count_rows
          count_lens even short not_empty in
      elim (Bool-cases (contains is i)) [
        | inl old ↦
            let (d'', e', v', q') =
              input-repeated rs_decode2 k r seq size sent_rows lens some_data count count_lens is
                (clock (length is)) i d' v a.0 wide fits short evens old (omega arith) in
            (d'', rw (e, e') refl, v', λ quiet. q' (q quiet))
        | inr new ↦
            let more =
              present_lem rs_decode2 k r seq size sent_rows lens some_data count count_lens is
                (clock (length is)) i d' v a.0 wide fits short evens new in
            let (d'', e', v', q') =
              input-few rs_decode2 k r seq size sent_rows lens some_data count count_lens is
                (clock (length is)) i d' v a.0 wide fits short evens new (omega arith) in
            (d'', rw (e, e') refl, v', λ quiet. q' (q quiet))
      ]

  -- Any packets of a group that the decoder has not heard of come in, in any order and repeated, at any
  -- times, until `k` different ones have arrived. `Input` returns 0 for each but the last, and the
  -- length of the rows for the last. The group is ready then and holds the `k` data rows as they were
  -- encoded, each with the length from its header if it has arrived, and with the length of the rows
  -- if it has been recovered. A packet that comes late gets 1 and changes nothing.
  pub feed-Recovers :
      (is : List ℕ) (i late now : ℕ)
      → All (λ j. j < k + r) is
      → i < k + r
      → contains is i ≡ false
      → present (arrived is 0 sent_rows) + 1 ≡ k
      → late < k + r
      → (d' : Decoder) × (g : Group) × (feed rs_decode2 clock sent_packet d (i ∷ is)
          ≡ some (pos size ∷ replicate (length is) (pos 0), d'))
        × Recovers k seq size rows lens (i ∷ is) d' g
        × (input rs_decode2 now d' (some (sent_packet late)) ≡ some (pos 1, d'))
        × (Quiet seq d → Opened seq size d')
  unfolding feed
  feed-Recovers is i late now a inside new enough inside' =
      let (d', e, v, q) = feed-Waits is a (omega arith) in
      let (d'', g, e', w, o) =
        input-enough rs_encode2 rs_decode2 k r seq size rows lens code some_data wide fits
          count_rows count_lens even short not_empty is (clock (length is)) i d' v inside new
          enough in
      (
        d'',
        g,
        rw (e, e') refl,
        w,
        input-late rs_encode2 rs_decode2 k r seq size rows lens code some_data wide fits count_rows
            count_lens even short not_empty (i ∷ is) now late d'' g w inside',
        λ quiet. o (q quiet),
      )
