-- ===== src/Fec/Decode/Branches.antt =====
-- The branches of `FecDecode::Input` (lib/libfec/source/fec_decode.cpp) as equations.
use fec_kcp.Prelude.{
  ℕ, ◌+◌, ◌-◌, ◌≤◌, ◌≡◌, refl, true, false, Option, none, some, List, ◌++◌, length, get_elem?, set,
  take, take_all, drop, ltb, if◌then◌else◌, pos, leb_ℤ, ◌+ℤ◌, pos_part, arith,
}
use fec_kcp.Fec.Timeout.{add}
use fec_kcp.Fec.Groups.{Group, group_of, put}
use fec_kcp.Fec.Decode.{
  Decoder, RsDecode, touched, receive, fill_slot, decode_group, clear_timeout, all_filled,
  fill_lengths,
}
use fec_kcp.Fec.Decode.HeaderRead.{head_of}

-- The decoder once the group has been touched.
abbrev pub stored : ℕ → ℕ → Decoder → Group → Decoder
stored now seq d g = record d {
  groups = put seq g d.groups;
  timeout_map = (add d.timeout_map seq now).1;
}

-- The group with the packet in its slot.
abbrev pub filled : Group → ℕ → ℕ → List ℕ → Group
filled g i len body = record g {
  pkgs = set g.pkgs i (some body);
  pkgs_length = set g.pkgs_length i len;
  cur_recv = g.cur_recv + 1;
}

-- `receive` on an occupied slot, and on an empty one.
pub receive_old :
    (rs_decode2 : RsDecode) (now : ℕ) (d : Decoder) (seq len k r i : ℕ) (body b : List ℕ)
    → let g = touched (group_of seq d.groups) (head_of seq len k r i) (length body) in
      get_elem? g.pkgs (i + 1 - 1) ≡ some (some b)
      → receive rs_decode2 now d (head_of seq len k r i) body ≡ some (pos 0, stored now seq d g)
unfolding receive
receive_old rs_decode2 now d seq len k r i body b e = rw (e, receive) refl

pub receive_new :
    (rs_decode2 : RsDecode) (now : ℕ) (d : Decoder) (seq len k r i : ℕ) (body : List ℕ)
    → let g = touched (group_of seq d.groups) (head_of seq len k r i) (length body) in
      get_elem? g.pkgs (i + 1 - 1) ≡ some none
      → receive rs_decode2 now d (head_of seq len k r i) body
        ≡ fill_slot rs_decode2 now (stored now seq d g) g (head_of seq len k r i) (i + 1 - 1) body
unfolding receive
receive_new rs_decode2 now d seq len k r i body e = rw (e, receive) refl

-- `fill_slot` before the group has enough packets, and when it has.
pub fill_slot_few :
    (rs_decode2 : RsDecode) (now : ℕ) (d : Decoder) (g : Group) (seq len k r i j : ℕ)
    (body : List ℕ)
    → leb_ℤ g.pkgs_num (pos (g.cur_recv + 1)) ≡ false
    → let d' = record d { groups = put seq (filled g j len body) d.groups } in
      fill_slot rs_decode2 now d g (head_of seq len k r i) j body
      ≡ some (pos 0, if ltb 50 (length d'.groups) then clear_timeout now d' else d')
unfolding fill_slot
fill_slot_few rs_decode2 now d g seq len k r i j body few = rw few refl

pub fill_slot_enough :
    (rs_decode2 : RsDecode) (now : ℕ) (d : Decoder) (g : Group) (seq len k r i j : ℕ)
    (body : List ℕ)
    → leb_ℤ g.pkgs_num (pos (g.cur_recv + 1)) ≡ true
    → fill_slot rs_decode2 now d g (head_of seq len k r i) j body
      ≡ decode_group rs_decode2 d seq (filled g j len body) (head_of seq len k r i)
unfolding fill_slot
fill_slot_enough rs_decode2 now d g seq len k r i j body enough = rw enough refl

abbrev pub total : ℕ → ℕ → ℕ
total k r = pos_part (pos k +ℤ pos r)

-- The group once it has been decoded, and the decoder with it.
abbrev pub decoded_group : ℕ → ℕ → Group → List (Option (List ℕ)) → Group
decoded_group k r g out = record g {
  pkgs = take k (out ++ drop (total k r) g.pkgs);
  pkgs_length = take k (
      fill_lengths g.max_length (take (total k r) g.pkgs_length) ++ drop (total k r) g.pkgs_length);
  ready = true;
}

abbrev pub decoded : ℕ → ℕ → ℕ → Decoder → Group → List (Option (List ℕ)) → Decoder
decoded k r seq d g out = record d {
  groups = put seq (decoded_group k r g out) d.groups;
  ready_seqs_nums = d.ready_seqs_nums + 1;
}

pub decode_group_lem :
    (rs_decode2 : RsDecode) (d : Decoder) (g : Group) (seq len k r i : ℕ)
    (out : List (Option (List ℕ)))
    → length g.pkgs ≡ total k r
    → k ≤ total k r
    → all_filled g.max_length g.pkgs ≡ true
    → rs_decode2 k (total k r) g.pkgs g.max_length ≡ some out
    → decode_group rs_decode2 d seq g (head_of seq len k r i)
      ≡ some (pos g.max_length, decoded k r seq d g out)
unfolding decode_group
decode_group_lem rs_decode2 d g seq len k r i out count fits full found =
    let whole : take (total k r) g.pkgs ≡ g.pkgs =
      take_all g.pkgs (total k r) (omega (arith, count)) in
    let a : ltb (length g.pkgs) (total k r) ≡ false = ground (arith, count) in
    let b : ltb (length g.pkgs) k ≡ false = ground (arith, count) in
    rw (a, b, whole, full, found) refl
