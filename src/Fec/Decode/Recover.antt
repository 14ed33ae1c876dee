-- ===== src/Fec/Decode/Recover.antt =====
-- `FecDecode::Input` (lib/libfec/source/fec_decode.cpp) over a whole group: from any `k` of its packets to
-- the data packets.
use fec_kcp.Prelude.{
  ℕ, ◌+◌, ◌<◌, ◌≡◌, refl, ap, ◌∙◌, true, false, Option, some, List, [], ◌∷◌, ◌++◌, map, length,
  length-append, get_or, take, take_all, drop, drop_all, All, All-append, pos, leb_ℤ, arith,
  append-nil,
}
use fec_kcp.Fec.Encode.{RsEncode}
use fec_kcp.Fec.Groups.{Group, get}
use fec_kcp.Fec.Groups.Laws.{get-put_self, group_of-some}
use fec_kcp.Fec.Decode.{Decoder, RsDecode, all_filled, fill_lengths, is_finished, input}
use fec_kcp.Fec.Decode.HeaderRead.{input-header}
use fec_kcp.Fec.Decode.Quiet.{Quiet, Opened, Quiet-stored, Opened-put}
use fec_kcp.Fec.Decode.Gather.{Waits, view, sum_lem}
use fec_kcp.Fec.Decode.Branches.{
  stored, filled, total, decoded_group, decoded, fill_slot_enough, decode_group_lem,
}
use fec_kcp.Fec.Decode.Arrive.{packet, All-get_or, Holds-filled, input-fill_slot}
use fec_kcp.Fec.Code.{contains, arrived, present, IsCode}
use fec_kcp.Fec.Code.Arrivals.{
  length-arrived, or_zero, length-or_zero, fill_lengths-or_zero, or_size, all_filled-arrived,
}

-- The group has been decoded: its data packets are there, each with its own length if it has arrived, and
-- with the longest length if it has been recovered.
pub record Recovers (k seq size : ℕ) (rows : List (List ℕ)) (lens is : List ℕ) (d : Decoder)
    (g : Group) : Type 0 where
  pub here : get seq d.groups ≡ some g
  pub is_ready : g.ready ≡ true
  pub bodies : g.pkgs ≡ map some rows
  pub lengths : g.pkgs_length ≡ take k (or_size size (arrived is 0 lens))

module _ (rs_encode2 : RsEncode) (rs_decode2 : RsDecode) (k r seq size : ℕ) (rows : List (List ℕ))
    (lens : List ℕ) (code : IsCode k (k + r) rs_encode2 rs_decode2) (some_data : 0 < k)
    (wide : k + r < 128) (fits : seq < 65536) (count_rows : length rows ≡ k)
    (count_lens : length lens ≡ k + r) (even : All (λ row. length row ≡ size) rows)
    (short : All (λ l. l < 65536) lens) (not_empty : All (λ l. 0 < l) lens) where
  -- The data rows, and the redundant ones.
  abbrev pub all_rows : List (List ℕ)
  all_rows = rows ++ rs_encode2 k (k + r) rows size

  pub count_all : length all_rows ≡ k + r
  count_all = omega (
    arith,
    length-append rows (rs_encode2 k (k + r) rows size),
    (code.encode_rows rows size count_rows even).0,
  )

  pub even_all : All (λ row. length row ≡ size) all_rows
  even_all =
      All-append (λ row. length row ≡ size) rows _ even
        (code.encode_rows rows size count_rows even).1

  take-drop_end :
      (out : List (Option (List ℕ))) (ps : List (Option (List ℕ)))
      → length ps ≡ k + r
      → take k (out ++ drop (total k r) ps) ≡ take k out
  take-drop_end out ps e =
      let gone : drop (total k r) ps ≡ [] =
        drop_all ps (total k r) (omega (arith, e, sum_lem k r)) in
      rw (gone, append-nil) refl

  final_lengths :
      (ls : List ℕ) (is : List ℕ)
      → ls ≡ or_zero (arrived is 0 lens)
      → take k (fill_lengths size (take (total k r) ls) ++ drop (total k r) ls)
        ≡ take k (or_size size (arrived is 0 lens))
  final_lengths ls is e =
      let n : length ls ≡ k + r =
        ap length e ∙ length-or_zero (arrived is 0 lens) ∙ length-arrived is 0 lens ∙ count_lens in
      let whole : take (total k r) ls ≡ ls =
        take_all ls (total k r) (omega (arith, n, sum_lem k r)) in
      let gone : drop (total k r) ls ≡ [] =
        drop_all ls (total k r) (omega (arith, n, sum_lem k r)) in
      rw (whole, gone, append-nil)
        (ap (λ l. take k (fill_lengths size l)) e
          ∙ ap (take k) (fill_lengths-or_zero size is 0 lens not_empty))

  pub input-enough :
      (is : List ℕ) (now i : ℕ) (d : Decoder)
      → Waits k r seq size all_rows lens is d
      → i < k + r
      → contains is i ≡ false
      → present (arrived is 0 all_rows) + 1 ≡ k
      → (d' : Decoder) × (g : Group) × (input rs_decode2 now d
            (some (packet k r seq all_rows lens i))
          ≡ some (pos size, d'))
        × Recovers k seq size rows lens (i ∷ is) d' g
        × (Quiet seq d → Opened seq size d')
  input-enough is now i d v inside new enough =
      let g = view k r seq size all_rows lens d i in
      let w = v.viewed i in
      let g' = filled g i (get_or lens i 0) (get_or all_rows i []) in
      let w' =
        Holds-filled rs_decode2 k r seq size all_rows lens some_data count_all count_lens is g i
          inside new w in
      let d₁ = stored now seq d g in
      let high : leb_ℤ (pos k) (pos (g.cur_recv + 1)) ≡ true = ground (arith, w.count) in
      let (out, e, back) =
        code.decode_any rows size (i ∷ is) count_rows even (omega (arith, w'.count, w.count)) in
      let slots : length g'.pkgs ≡ k + r =
        ap length w'.slots ∙ length-arrived (i ∷ is) 0 all_rows ∙ count_all in
      let found : rs_decode2 k (total k r) g'.pkgs g'.max_length ≡ some out =
        ap (λ n. rs_decode2 k n g'.pkgs g'.max_length) (sum_lem k r)
        ∙ ap (λ p. rs_decode2 k (k + r) p g'.max_length) w'.slots
        ∙ ap (rs_decode2 k (k + r) (arrived (i ∷ is) 0 all_rows)) w'.longest
        ∙ e in
      let full =
        ap (λ n. all_filled n g'.pkgs) w'.longest
        ∙ ap (all_filled size) w'.slots
        ∙ all_filled-arrived size (i ∷ is) 0 all_rows even_all in
      let d' = decoded k r seq d₁ g' out in
      (
        d',
        decoded_group k r g' out,
        input-fill_slot rs_decode2 k r seq size all_rows lens some_data count_all count_lens is now
              i d v inside wide fits short even_all new
            ∙ fill_slot_enough rs_decode2 now d₁ g seq (get_or lens i 0) k r i i
                (get_or all_rows i []) (rw (w.num) high)
            ∙ decode_group_lem rs_decode2 d₁ g' seq (get_or lens i 0) k r i out
                (omega (arith, slots, sum_lem k r)) (omega (arith, sum_lem k r)) full found
            ∙ ap (λ m. some (pos m, d')) w'.longest,
        record {
          here = get-put_self seq _ d₁.groups;
          is_ready = refl;
          bodies = take-drop_end out g'.pkgs slots ∙ back;
          lengths =
              ap
                (λ m. take k (
                  fill_lengths m (take (total k r) g'.pkgs_length)
                  ++ drop (total k r) g'.pkgs_length))
                w'.longest
              ∙ final_lengths g'.pkgs_length (i ∷ is) w'.lengths;
        },
        λ q.
            Opened-put seq size (decoded_group k r g' out) d₁ refl w'.longest
              (Quiet-stored now seq g d w.waiting q),
      )

  pub input-late :
      (is : List ℕ) (now j : ℕ) (d : Decoder) (g : Group)
      → Recovers k seq size rows lens is d g
      → j < k + r
      → input rs_decode2 now d (some (packet k r seq all_rows lens j)) ≡ some (pos 1, d)
  unfolding is_finished
  input-late is now j d g v inside =
      input-header rs_decode2 now d seq (get_or lens j 0) k r j (get_or all_rows j []) fits
        (All-get_or (λ l. l < 65536) lens j 0 (omega (arith, count_lens)) short) wide inside
      ∙ rw (v.here, group_of-some seq g d.groups v.here, v.is_ready, is_finished) refl
