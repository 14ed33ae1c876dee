-- ===== src/Fec/Decode/HeaderRead.antt =====
-- The packet header: `FecDecode::Input` reads what `FecEncode::Input` wrote.
use fec_kcp.Prelude.{
  ℕ, ◌+◌, ◌*◌, ◌/◌, ◌%◌, ◌<◌, ◌≡◌, refl, ap, ◌∙◌, false, ◌&&◌, ◌||◌, some, List, ◌++◌, length, drop,
  ltb, if◌then◌else◌, pos, ltb_ℤ, leb_ℤ, ◌+ℤ◌, arith,
}
use fec_kcp.Fec.Wire.{write_u32, write_u16, read_u32, read_u16}
use fec_kcp.Fec.Encode.{header, head_length, unique_header}
use fec_kcp.Fec.Groups.{get, group_of}
use fec_kcp.Fec.Decode.{
  Decoder, RsDecode, Head, signed8, read_head, input, input_coded, is_finished, receive,
}

-- The header of packet `i`, counted from 0, of a group with `k` and `r` packets.
abbrev pub head_of : ℕ → ℕ → ℕ → ℕ → ℕ → Head
head_of seq len k r i = record {
  seq = seq;
  package_length = len;
  data_pkg_num = pos k;
  redundant_pkg_num = pos r;
  index = pos (i + 1);
}

pub u16_lem : (w : ℕ) → w < 65536 → (w % 256 + w / 256 % 256 * 256) % 65536 ≡ w
u16_lem w h = omega arith

pub signed8_lem : (c : ℕ) → c < 128 → signed8 (c % 256) ≡ pos c
unfolding signed8
signed8_lem c h = ground arith

pub read_head-header :
    (seq len k r i : ℕ) (body : List ℕ)
    → seq < 65536
    → len < 65536
    → k < 128
    → r < 128
    → i + 1 < 128
    → read_head (header seq len k r (i + 1) ++ body) ≡ some (head_of seq len k r i)
unfolding read_head header write_u16 write_u32 read_u16
read_head-header seq len k r i body a b c d e = λ j. some (record {
  seq = u16_lem seq a j;
  package_length = u16_lem len b j;
  data_pkg_num = signed8_lem k c j;
  redundant_pkg_num = signed8_lem r d j;
  index = signed8_lem (i + 1) e j;
})

pub coded_input :
    (rs_decode2 : RsDecode) (now : ℕ) (d : Decoder) (b : List ℕ)
    → ltb (length b) 4 ≡ false
    → read_u32 b ≡ some unique_header
    → input rs_decode2 now d (some b) ≡ input_coded rs_decode2 now d b
unfolding input
coded_input rs_decode2 now d b long mark = rw (long, mark) refl

pub headed_input :
    (rs_decode2 : RsDecode) (now : ℕ) (d : Decoder) (b : List ℕ) (h : Head)
    → ltb (length b) head_length ≡ false
    → read_head b ≡ some h
    → (leb_ℤ h.index (pos 0) && leb_ℤ (pos 0) h.index
        || ltb_ℤ (h.data_pkg_num +ℤ h.redundant_pkg_num) h.index)
      ≡ false
    → input_coded rs_decode2 now d b ≡ (
        if is_finished (get h.seq d.groups)
        then some (pos 0, d)
        else if (group_of h.seq d.groups).ready
        then some (pos 1, d)
        else receive rs_decode2 now d h (drop head_length b))
unfolding input_coded
headed_input rs_decode2 now d b h long e inside = rw (long, e, inside) refl

pub long_header :
    (seq len k r i : ℕ) (body : List ℕ)
    → (ltb (length (header seq len k r i ++ body)) 4 ≡ false)
      × (ltb (length (header seq len k r i ++ body)) head_length ≡ false)
unfolding header
long_header seq len k r i body = (ground arith, ground arith)

pub mark_header :
    (seq len k r i : ℕ) (body : List ℕ)
    → read_u32 (header seq len k r i ++ body) ≡ some unique_header
unfolding header read_u32
mark_header seq len k r i body = refl

pub drop-header :
    (seq len k r i : ℕ) (body : List ℕ) → drop head_length (header seq len k r i ++ body) ≡ body
unfolding header
drop-header seq len k r i body = refl

pub inside_header :
    (k r i : ℕ)
    → i < k + r
    → (leb_ℤ (pos (i + 1)) (pos 0) && leb_ℤ (pos 0) (pos (i + 1))
        || ltb_ℤ (pos k +ℤ pos r) (pos (i + 1)))
      ≡ false
unfolding ◌+ℤ◌
inside_header k r i h = ground arith

-- `Input` on such a packet, up to `receive`.
pub input-header_near :
    (rs_decode2 : RsDecode) (now : ℕ) (d : Decoder) (seq len k r i : ℕ) (body : List ℕ)
    → seq < 65536
    → len < 65536
    → k < 128
    → r < 128
    → i + 1 < 128
    → i < k + r
    → input rs_decode2 now d (some (header seq len k r (i + 1) ++ body)) ≡ (
        if is_finished (get seq d.groups)
        then some (pos 0, d)
        else if (group_of seq d.groups).ready
        then some (pos 1, d)
        else receive rs_decode2 now d (head_of seq len k r i) body)
input-header_near rs_decode2 now d seq len k r i body a b k_short r_short near e =
    coded_input rs_decode2 now d _ (long_header seq len k r (i + 1) body).0
      (mark_header seq len k r (i + 1) body)
    ∙ headed_input rs_decode2 now d _ (head_of seq len k r i)
        (long_header seq len k r (i + 1) body).1
        (read_head-header seq len k r i body a b k_short r_short near) (inside_header k r i e)
    ∙ ap
        (λ rest.
          if is_finished (get seq d.groups)
          then some (pos 0, d)
          else if (group_of seq d.groups).ready
          then some (pos 1, d)
          else receive rs_decode2 now d (head_of seq len k r i) rest)
        (drop-header seq len k r (i + 1) body)

pub input-header :
    (rs_decode2 : RsDecode) (now : ℕ) (d : Decoder) (seq len k r i : ℕ) (body : List ℕ)
    → seq < 65536
    → len < 65536
    → k + r < 128
    → i < k + r
    → input rs_decode2 now d (some (header seq len k r (i + 1) ++ body)) ≡ (
        if is_finished (get seq d.groups)
        then some (pos 0, d)
        else if (group_of seq d.groups).ready
        then some (pos 1, d)
        else receive rs_decode2 now d (head_of seq len k r i) body)
input-header rs_decode2 now d seq len k r i body a b c e =
    input-header_near rs_decode2 now d seq len k r i body a b (omega arith) (omega arith)
      (omega arith) e
