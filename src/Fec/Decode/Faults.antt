-- ===== src/Fec/Decode/Faults.antt =====
-- `FecDecode::Input` (lib/libfec/source/fec_decode.cpp) and the accesses outside a vector: packets for which
-- there are none, and packets for which there are.
use fec_kcp.Prelude.{
  ℕ, zero, suc, ◌+◌, ◌-◌, ◌%◌, ◌≤◌, ◌<◌, ◌≡◌, refl, ap, ◌∙◌, true, false, ◌&&◌, ◌||◌, Bool-cases,
  Option-cases, inl, inr, Option, none, some, List, ◌++◌, length, length-replicate, length-set,
  get_elem?, set, take, take_all, replicate, ltb, leb, max, ℤ, pos, negsuc, ltb_ℤ, leb_ℤ, ◌+ℤ◌,
  arith,
}
use fec_kcp.Fec.Wire.{write_u32, write_u16, read_u16}
use fec_kcp.Fec.Encode.{header}
use fec_kcp.Fec.Groups.{Group, get, group_of, put}
use fec_kcp.Fec.Groups.Laws.{group_of-none}
use fec_kcp.Fec.Decode.{
  Decoder, RsDecode, Head, signed8, read_head, input, is_finished, receive, touched, fill_slot,
  decode_group, all_filled,
}
use fec_kcp.Fec.Decode.HeaderRead.{
  head_of, u16_lem, signed8_lem, coded_input, headed_input, long_header, mark_header,
  input-header_near,
}
use fec_kcp.Fec.Decode.Gather.{touched_new, sum_lem}
use fec_kcp.Fec.Decode.Branches.{
  stored, filled, total, decoded, decode_group_lem, receive_new, fill_slot_few, fill_slot_enough,
}

signed8_far : (c : ℕ) → 128 ≤ c → c < 256 → signed8 (c % 256) ≡ negsuc (255 - c)
unfolding signed8
signed8_far c h h' = ground arith

-- The header with an index that is 128 or more.
abbrev far_head : ℕ → ℕ → ℕ → ℕ → ℕ → Head
far_head seq len k r c = record {
  seq = seq;
  package_length = len;
  data_pkg_num = pos k;
  redundant_pkg_num = pos r;
  index = negsuc (255 - c);
}

read_head-far :
    (seq len k r c : ℕ) (body : List ℕ)
    → seq < 65536
    → len < 65536
    → k < 128
    → r < 128
    → 128 ≤ c
    → c < 256
    → read_head (header seq len k r c ++ body) ≡ some (far_head seq len k r c)
unfolding read_head header write_u16 write_u32 read_u16
read_head-far seq len k r c body a b e e' far byte = λ j. some (record {
  seq = u16_lem seq a j;
  package_length = u16_lem len b j;
  data_pkg_num = signed8_lem k e j;
  redundant_pkg_num = signed8_lem r e' j;
  index = signed8_far c far byte j;
})

far_inside :
    (k r n : ℕ)
    → (leb_ℤ (negsuc n) (pos 0) && leb_ℤ (pos 0) (negsuc n) || ltb_ℤ (pos k +ℤ pos r) (negsuc n))
      ≡ false
unfolding ◌+ℤ◌
far_inside k r n = ground arith

receive_far :
    (rs_decode2 : RsDecode) (now : ℕ) (d : Decoder) (seq len k r c : ℕ) (body : List ℕ)
    → receive rs_decode2 now d (far_head seq len k r c) body ≡ none
unfolding receive
receive_far rs_decode2 now d seq len k r c body = refl

-- A group with more than 127 packets: `Input` of the decoder on packet `i`, counted from 0, that is packet
-- 127 or a later one, while the group is neither ready nor finished, is an access outside a vector,
-- whatever the decoder holds otherwise. The group has less than 128 data packets and less than 128
-- redundant ones, and the packet is as `FecEncode` sends it.
pub input-far_index :
    (rs_decode2 : RsDecode) (now : ℕ) (d : Decoder) (seq len k r i : ℕ) (body : List ℕ)
    → seq < 65536
    → len < 65536
    → k < 128
    → r < 128
    → 127 ≤ i
    → i < k + r
    → is_finished (get seq d.groups) ≡ false
    → (group_of seq d.groups).ready ≡ false
    → input rs_decode2 now d (some (header seq len k r (i + 1) ++ body)) ≡ none
input-far_index rs_decode2 now d seq len k r i body a b e e' far inside unfinished unready =
    let p = header seq len k r (i + 1) ++ body in
    let h = far_head seq len k r (i + 1) in
    coded_input rs_decode2 now d p (long_header seq len k r (i + 1) body).0
      (mark_header seq len k r (i + 1) body)
    ∙ headed_input rs_decode2 now d p h (long_header seq len k r (i + 1) body).1
        (read_head-far seq len k r (i + 1) body a b e e' (omega arith) (omega arith))
        (far_inside k r (255 - (i + 1)))
    ∙ rw (unfinished, unready) (receive_far rs_decode2 now d seq len k r (i + 1) _)

get_elem?-replicate {ℓ} :
    {A : Type ℓ} (n i : ℕ) (a : A) → i < n → get_elem? (replicate n a) i ≡ some a
get_elem?-replicate zero i a h = absurd (omega arith)
get_elem?-replicate (suc n) zero a h = refl
get_elem?-replicate (suc n) (suc i) a h = get_elem?-replicate n i a (omega arith)

all_filled-replicate : (n size : ℕ) → all_filled size (replicate n none) ≡ true
unfolding all_filled
all_filled-replicate zero size = refl
all_filled-replicate (suc n) size = all_filled-replicate n size

all_filled-set :
    (n i size : ℕ) (b : List ℕ)
    → size ≤ length b
    → all_filled size (set (replicate n none) i (some b)) ≡ true
unfolding all_filled
all_filled-set zero i size b h = refl
all_filled-set (suc n) zero size b h =
    let t : leb size (length b) ≡ true = ground arith in rw (t, all_filled-replicate n size) refl
all_filled-set (suc n) (suc i) size b h = all_filled-set n i size b h

-- A result, and not a fault.
abbrev pub Returns : Option (ℤ × Decoder) → Type 0
Returns o = (result : ℤ) × (d : Decoder) × (o ≡ some (result, d))

decode_group-Returns :
    (rs_decode2 : RsDecode) (d : Decoder) (g : Group) (seq len k r i : ℕ)
    → length g.pkgs ≡ total k r
    → k ≤ total k r
    → all_filled g.max_length g.pkgs ≡ true
    → Returns (decode_group rs_decode2 d seq g (head_of seq len k r i))
unfolding decode_group
decode_group-Returns rs_decode2 d g seq len k r i count fits full =
    elim (Option-cases (rs_decode2 k (total k r) g.pkgs g.max_length)) [
      | inl e ↦
          let whole : take (total k r) g.pkgs ≡ g.pkgs =
            take_all g.pkgs (total k r) (omega (arith, count)) in
          let a : ltb (length g.pkgs) (total k r) ≡ false = ground (arith, count) in
          let b : ltb (length g.pkgs) k ≡ false = ground (arith, count) in
          (negsuc 0, record d { groups = put seq g d.groups }, rw (a, b, whole, full, e) refl)
      | inr (out, e) ↦ (
        pos g.max_length,
        decoded k r seq d g out,
        decode_group_lem rs_decode2 d g seq len k r i out count fits full e,
      )
    ]

-- The group that the first packet makes.
abbrev begun : ℕ → ℕ → ℕ → Group
begun size k r = record {
  pkgs_num = pos k;
  redundant_num = pos r;
  max_length = max 0 size;
  pkgs = replicate (total k r) none;
  pkgs_length = replicate (total k r) 0;
  cur_recv = 0;
  ready = false;
}

fill_slot-Returns :
    (rs_decode2 : RsDecode) (now : ℕ) (d : Decoder) (seq len k r j : ℕ) (body : List ℕ)
    → Returns (fill_slot rs_decode2 now d (begun (length body) k r) (head_of seq len k r j) j body)
fill_slot-Returns rs_decode2 now d seq len k r j body =
    let g = begun (length body) k r in
    let count : length (set g.pkgs j (some body)) ≡ total k r = omega (
      arith,
      length-set g.pkgs j (some body),
      length-replicate {A = Option (List ℕ)} (total k r) none,
    ) in
    elim (Bool-cases (leb_ℤ (pos k) (pos 1))) [
      | inl enough ↦
          let (result, d', e) =
            decode_group-Returns rs_decode2 d (filled g j len body) seq len k r j count
              (omega (arith, sum_lem k r))
              (all_filled-set (total k r) j (max 0 (length body)) body (omega arith)) in
          (result, d', fill_slot_enough rs_decode2 now d g seq len k r j j body enough ∙ e)
      | inr few ↦ (pos 0, _, fill_slot_few rs_decode2 now d g seq len k r j j body few)
    ]

-- `Input` on a packet of a group that the decoder has not heard of. The counts and the index in its header
-- are less than 128, the index is the number of a packet of the group, and the body has any length.
-- Then there is no access outside a vector, whatever the decoder holds and whatever the erasure code
-- makes of the packet: `Input` returns.
pub input-Returns :
    (rs_decode2 : RsDecode) (now : ℕ) (d : Decoder) (seq len k r i : ℕ) (body : List ℕ)
    → seq < 65536
    → len < 65536
    → k < 128
    → r < 128
    → i + 1 < 128
    → i < k + r
    → get seq d.groups ≡ none
    → Returns (input rs_decode2 now d (some (header seq len k r (i + 1) ++ body)))
unfolding is_finished
input-Returns rs_decode2 now d seq len k r i body a b e e' near inside fresh =
    let h = head_of seq len k r i in
    let unfinished : is_finished (get seq d.groups) ≡ false = rw (fresh, is_finished) refl in
    let unready : (group_of seq d.groups).ready ≡ false =
      rw (group_of-none seq d.groups fresh) refl in
    let t : touched (group_of seq d.groups) h (length body) ≡ begun (length body) k r =
      ap (λ g. touched g h (length body)) (group_of-none seq d.groups fresh)
      ∙ touched_new h (length body) in
    let slot : get_elem? (touched (group_of seq d.groups) h (length body)).pkgs (i + 1 - 1)
        ≡ some none =
      ap (λ (g : Group). get_elem? g.pkgs (i + 1 - 1)) t
      ∙ get_elem?-replicate (total k r) (i + 1 - 1) none (omega (arith, sum_lem k r)) in
    let (result, d', filled_lem) =
      fill_slot-Returns rs_decode2 now (stored now seq d (begun (length body) k r)) seq len k r i
        body in
    let received : input rs_decode2 now d (some (header seq len k r (i + 1) ++ body))
        ≡ receive rs_decode2 now d h body =
      input-header_near rs_decode2 now d seq len k r i body a b e e' near inside
      ∙ rw (unfinished, unready) refl in
    (
      result,
      d',
      received
          ∙ receive_new rs_decode2 now d seq len k r i body slot
          ∙ ap (λ g. fill_slot rs_decode2 now (stored now seq d g) g h (i + 1 - 1) body) t
          ∙ ap
              (λ j.
                let g = begun (length body) k r in
                fill_slot rs_decode2 now (stored now seq d g) g h j body)
              (omega arith)
          ∙ filled_lem,
    )
