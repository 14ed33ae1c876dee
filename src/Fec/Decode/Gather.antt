-- ===== src/Fec/Decode/Gather.antt =====
-- A group of `FecDecode` (lib/libfec/source/fec_decode.cpp) while its packets arrive.
use fec_kcp.Prelude.{
  ℕ, zero, suc, ◌+◌, ◌<◌, ◌≡◌, refl, ap, ◌∙◌, sym, false, none, some, List, [], length, get_or,
  replicate, pos, leb_ℤ, ◌+ℤ◌, pos_part, max, arith,
}
use fec_kcp.Fec.Groups.{Group, get, group_of, no_group}
use fec_kcp.Fec.Groups.Laws.{group_of-some, group_of-none}
use fec_kcp.Fec.Decode.{Decoder, Head, touched, is_finished}
use fec_kcp.Fec.Decode.HeaderRead.{head_of}
use fec_kcp.Fec.Code.{arrived, present}
use fec_kcp.Fec.Code.Arrivals.{length-arrived, arrived-nil, or_zero, or_zero-replicate}

-- The group `seq` of `k` data rows and `r` redundant ones; `rows` are all the rows, `lens` the lengths
-- in the headers of their packets.
module _ (k r seq size : ℕ) (rows : List (List ℕ)) (lens : List ℕ) where
  -- The packets `is` have arrived.
  pub record Holds (is : List ℕ) (g : Group) : Type 0 where
    pub num : g.pkgs_num ≡ pos k
    pub waiting : g.ready ≡ false
    pub longest : g.max_length ≡ size
    pub slots : g.pkgs ≡ arrived is 0 rows
    pub lengths : g.pkgs_length ≡ or_zero (arrived is 0 lens)
    pub count : g.cur_recv ≡ present (arrived is 0 rows)

  -- What `Input` makes of the group before it looks at the slot.
  abbrev pub view : Decoder → ℕ → Group
  view d i = touched (group_of seq d.groups) (head_of seq (get_or lens i 0) k r i) size

  pub record Waits (is : List ℕ) (d : Decoder) : Type 0 where
    pub unfinished : is_finished (get seq d.groups) ≡ false
    pub unready : (group_of seq d.groups).ready ≡ false
    pub viewed : (i : ℕ) → Holds is (view d i)

pub sum_lem : (k r : ℕ) → pos_part (pos k +ℤ pos r) ≡ k + r
unfolding ◌+ℤ◌
sum_lem k r = ground arith

touched_more :
    (g : Group) (h : Head) (len : ℕ)
    → 0 < length g.pkgs
    → touched g h len ≡ record g {
      pkgs_num = h.data_pkg_num;
      redundant_num = h.redundant_pkg_num;
      max_length = max g.max_length len;
    }
unfolding touched
touched_more g h len some_slots = ground arith

pub touched_new :
    (h : Head) (len : ℕ)
    → touched no_group h len ≡ record {
      pkgs_num = h.data_pkg_num;
      redundant_num = h.redundant_pkg_num;
      max_length = max 0 len;
      pkgs = replicate (pos_part (h.data_pkg_num +ℤ h.redundant_pkg_num)) none;
      pkgs_length = replicate (pos_part (h.data_pkg_num +ℤ h.redundant_pkg_num)) 0;
      cur_recv = 0;
      ready = false;
    }
unfolding touched
touched_new h len = refl

present-replicate {ℓ} : (A : Type ℓ) (n : ℕ) → present {A = A} (replicate n none) ≡ 0
unfolding present
present-replicate A zero = refl
present-replicate A (suc n) = present-replicate A n

module _ (k r seq size : ℕ) (rows : List (List ℕ)) (lens : List ℕ) (some_data : 0 < k)
    (count_rows : length rows ≡ k + r) (count_lens : length lens ≡ k + r) where
  Holds-touched :
      (is : List ℕ) (g : Group) (len i : ℕ)
      → Holds k r seq size rows lens is g
      → Holds k r seq size rows lens is (touched g (head_of seq len k r i) size)
  Holds-touched is g len i v =
      rw
        (touched_more g (head_of seq len k r i) size
          (omega (arith, ap length v.slots, length-arrived is 0 rows)))
        (record {
          num = refl;
          waiting = v.waiting;
          longest = omega (arith, v.longest);
          slots = v.slots;
          lengths = v.lengths;
          count = v.count;
        })

  Holds-new :
      (len i : ℕ) → Holds k r seq size rows lens [] (touched no_group (head_of seq len k r i) size)
  Holds-new len i =
      rw (touched_new (head_of seq len k r i) size, sum_lem k r)
        (record {
          num = refl;
          waiting = refl;
          longest = omega arith;
          slots = ap (λ n. replicate n none) (sym count_rows) ∙ sym (arrived-nil 0 rows);
          lengths =
              ap (λ n. replicate n 0) (sym count_lens)
              ∙ sym (ap or_zero (arrived-nil 0 lens) ∙ or_zero-replicate (length lens));
          count = sym (ap present (arrived-nil 0 rows) ∙ present-replicate (List ℕ) (length rows));
        })

  -- A group that has not been heard of.
  pub Waits-new : (d : Decoder) → get seq d.groups ≡ none → Waits k r seq size rows lens [] d
  unfolding is_finished
  Waits-new d e = record {
    unfinished = rw (e, is_finished) refl;
    unready = rw (group_of-none seq d.groups e) refl;
    viewed = λ i. rw (group_of-none seq d.groups e) (Holds-new (get_or lens i 0) i);
  }

  pub Waits-some :
      (is : List ℕ) (d : Decoder) (g : Group)
      → get seq d.groups ≡ some g
      → Holds k r seq size rows lens is g
      → present (arrived is 0 rows) < k
      → Waits k r seq size rows lens is d
  unfolding is_finished
  Waits-some is d g e v few = record {
    unfinished =
        let low : leb_ℤ (pos k) (pos g.cur_recv) ≡ false = ground (arith, v.count) in
        rw (e, is_finished) (rw (v.waiting, v.num, low) refl);
    unready = rw (group_of-some seq g d.groups e) v.waiting;
    viewed = λ i. rw (group_of-some seq g d.groups e) (Holds-touched is g (get_or lens i 0) i v);
  }
