-- ===== src/Fec/Decode/Sound.antt =====
-- `FecDecode::Input` (lib/libfec/source/fec_decode.cpp) keeps the keys of the maps ascending, and what is
-- gathered consists of bytes.
use fec_kcp.Prelude.{
  ℕ, ◌+◌, ◌≡◌, refl, subst, ◌||◌, not, Bool-cases, Option-cases, inl, inr, ◌⊎◌, Option, none, some,
  List, [], ◌∷◌, All, All-append, All-take, All-drop, All-replicate, All-set, length, take, drop,
  get_elem?, ltb, ◌-◌, ◌&&◌, ◌==◌, ℤ, pos, negsuc, ltb_ℤ, leb_ℤ, ◌+ℤ◌, pos_part,
}
use fec_kcp.Kcp.Segment.Bytes.{IsByte}
use fec_kcp.Fec.Wire.{read_u32, read_u32_r}
use fec_kcp.Fec.Encode.{head_length, unique_header}
use fec_kcp.Fec.Timeout.{get_timeout_elements}
use fec_kcp.Fec.Groups.{Group, Groups, get, group_of, put}
use fec_kcp.Fec.Groups.Laws.{group_of-some, group_of-none}
use fec_kcp.Fec.Groups.Ordered.{
  Ascending, put-All, erase_group-All, get-All, put-Ascending, erase_group-Ascending,
}
use fec_kcp.Fec.Decode.{
  Decoder, RsDecode, Head, new, remove_seq, clear_seqs, clear_timeout, deal_unencode, read_head,
  touched, all_filled, is_finished, decode_group, fill_slot, receive, input_coded, input,
  larger_mem,
}
use fec_kcp.Fec.Decode.Clear.{without}
use fec_kcp.Fec.Decode.Branches.{stored, filled}

-- The bytes of a packet that is there.
abbrev pub IsRow : Option (List ℕ) → Type 0
IsRow none = Unit
IsRow (some row) = All IsByte row

abbrev pub HasRows : ℕ × Group → Type 0
HasRows (s, g) = All IsRow g.pkgs

pub record Sound (d : Decoder) : Type 0 where
  pub ascending : Ascending d.groups
  pub rows : All HasRows d.groups
  pub plain : All IsByte d.output_unit.bytes

-- Recovered packets consist of bytes if the given ones do, as `rs_decode2` writes to buffers of `char`.
abbrev pub WritesBytes : RsDecode → Type 0
WritesBytes rs_decode2 =
    (k n : ℕ) (rows : List (Option (List ℕ))) (size : ℕ) (out : List (Option (List ℕ)))
    → All IsRow rows
    → rs_decode2 k n rows size ≡ some out
    → All IsRow out

-- A decoder that is left, if there is one.
abbrev Keeps : Option (ℤ × Decoder) → Type 0
Keeps none = Unit
Keeps (some (ret, d)) = Sound d

pub new-Sound : (timeout_ms : ℕ) → Sound (new timeout_ms)
unfolding new
new-Sound timeout_ms = record { ascending = tt; rows = tt; plain = tt }

Sound-put :
    (seq : ℕ) (g : Group) (d : Decoder)
    → All IsRow g.pkgs
    → Sound d
    → Sound (record d { groups = put seq g d.groups })
Sound-put seq g d r s = record {
  ascending = put-Ascending seq g d.groups s.ascending;
  rows = put-All HasRows seq g d.groups r s.rows;
  plain = s.plain;
}

without-Sound : (seq : ℕ) (d : Decoder) → Sound d → Sound (without seq d)
unfolding remove_seq
without-Sound seq d s = elim (Bool-cases (group_of seq d.groups).ready) [
  | inl kept ↦ rw kept s
  | inr gone ↦ rw gone (record {
    ascending = erase_group-Ascending seq d.groups s.ascending;
    rows = erase_group-All HasRows seq d.groups s.rows;
    plain = s.plain;
  })
]

clear_seqs-Sound : (seqs : List ℕ) (d : Decoder) → Sound d → Sound (clear_seqs seqs d)
unfolding clear_seqs
clear_seqs-Sound [] d s = s
clear_seqs-Sound (seq ∷ seqs) d s = clear_seqs-Sound seqs (without seq d) (without-Sound seq d s)

pub clear_timeout-Sound : (now : ℕ) (d : Decoder) → Sound d → Sound (clear_timeout now d)
unfolding clear_timeout
clear_timeout-Sound now d s = clear_seqs-Sound (get_timeout_elements d.timeout_map now) d s

pub group_of-HasRows : (seq : ℕ) (m : Groups) → All HasRows m → All IsRow (group_of seq m).pkgs
group_of-HasRows seq m a = elim (Option-cases (get seq m)) [
  | inl absent ↦ rw (group_of-none seq m absent) tt
  | inr (g, here) ↦ rw (group_of-some seq g m here) (get-All HasRows seq g m here a)
]

list_cases {ℓ} : {A : Type ℓ} (xs : List A) → (xs ≡ []) ⊎ ((x : A) × (ys : List A) × (xs ≡ x ∷ ys))
list_cases [] = inl refl
list_cases (x ∷ ys) = inr (x, ys, refl)

int_cases : (z : ℤ) → ((n : ℕ) × (z ≡ pos n)) ⊎ ((n : ℕ) × (z ≡ negsuc n))
int_cases (pos n) = inl (n, refl)
int_cases (negsuc n) = inr (n, refl)

touched-IsRow :
    (g : Group) (h : Head) (len : ℕ) → All IsRow g.pkgs → All IsRow (touched g h len).pkgs
unfolding touched
touched-IsRow g h len a = elim (list_cases g.pkgs) [
  | inl e ↦ rw e (All-replicate IsRow _ none tt)
  | inr (x, ys, e) ↦ rw e (subst (All IsRow) e a)
]

deal_unencode-Keeps :
    (d : Decoder) (b : List ℕ) → All IsByte b → Sound d → Keeps (deal_unencode d b)
unfolding deal_unencode larger_mem
deal_unencode-Keeps d b a s = elim (Option-cases (read_u32_r b)) [
  | inl e ↦ rw (e, Keeps) tt
  | inr (mark, e) ↦
      rw (e, Keeps)
        (elim (Bool-cases (not (mark == unique_header))) [
          | inl other ↦ rw other s
          | inr same ↦
              rw same
                (record { ascending = s.ascending; rows = s.rows; plain = All-drop IsByte 4 b a })
        ])
]

module _ (rs_decode2 : RsDecode) (writes : WritesBytes rs_decode2) where
  decode_group-Keeps :
      (d : Decoder) (seq : ℕ) (g : Group) (h : Head)
      → All IsRow g.pkgs
      → Sound d
      → Keeps (decode_group rs_decode2 d seq g h)
  unfolding decode_group
  decode_group-Keeps d seq g h a s = elim (int_cases h.data_pkg_num) [
    | inr (k, e) ↦ rw (e, Keeps) tt
    | inl (k, e) ↦
        let n = pos_part (pos k +ℤ h.redundant_pkg_num) in
        let size = g.max_length in
        rw e
          (elim (Bool-cases (
            ltb (length g.pkgs) n
            || ltb (length g.pkgs) k
            || not (all_filled size (take n g.pkgs)))) [
              | inl faulty ↦ rw (faulty, Keeps) tt
              | inr fine ↦ elim (Option-cases (rs_decode2 k n (take n g.pkgs) size)) [
                | inl e' ↦ rw (fine, e', Keeps) (Sound-put seq g d a s)
                | inr (out, e') ↦
                    let a' =
                      All-append IsRow out (drop n g.pkgs)
                        (writes k n (take n g.pkgs) size out (All-take IsRow n g.pkgs a) e')
                        (All-drop IsRow n g.pkgs a) in
                    rw (fine, e', Keeps)
                      (record {
                        ascending = put-Ascending seq _ d.groups s.ascending;
                        rows = put-All HasRows seq _ d.groups (All-take IsRow k _ a') s.rows;
                        plain = s.plain;
                      })
              ]
            ])
  ]

  fill_slot-Keeps :
      (now : ℕ) (d : Decoder) (g : Group) (h : Head) (i : ℕ) (body : List ℕ)
      → All IsByte body
      → All IsRow g.pkgs
      → Sound d
      → Keeps (fill_slot rs_decode2 now d g h i body)
  unfolding fill_slot
  fill_slot-Keeps now d g h i body b a s =
      let g' = filled g i h.package_length body in
      let a' = All-set IsRow g.pkgs i (some body) b a in
      let s' = Sound-put h.seq g' d a' s in
      elim (Bool-cases (leb_ℤ g.pkgs_num (pos (g.cur_recv + 1)))) [
        | inl enough ↦ rw (enough, Keeps) (decode_group-Keeps d h.seq g' h a' s)
        | inr few ↦
            rw (few, Keeps)
              (elim (Bool-cases (ltb 50 (length (put h.seq g' d.groups)))) [
                | inl many ↦ rw many (clear_timeout-Sound now _ s')
                | inr room ↦ rw room s'
              ])
      ]

  receive-Keeps :
      (now : ℕ) (d : Decoder) (h : Head) (body : List ℕ)
      → All IsByte body
      → Sound d
      → Keeps (receive rs_decode2 now d h body)
  unfolding receive
  receive-Keeps now d h body b s =
      let g = touched (group_of h.seq d.groups) h (length body) in
      let a =
        touched-IsRow (group_of h.seq d.groups) h (length body)
          (group_of-HasRows h.seq d.groups s.rows) in
      let s₀ = Sound-put h.seq g d a s in
      let s' : Sound (stored now h.seq d g) = record {
        ascending = s₀.ascending;
        rows = s₀.rows;
        plain = s.plain;
      } in
      elim (int_cases h.index) [
        | inr (i, e) ↦ rw (e, Keeps) tt
        | inl (i, e) ↦ elim (Option-cases (get_elem? g.pkgs (i - 1))) [
          | inl e' ↦ rw (e, e', Keeps) tt
          | inr (none, e') ↦ rw (e, e', Keeps) (fill_slot-Keeps now _ g h (i - 1) body b a s')
          | inr (some row, e') ↦ rw (e, e', Keeps) s'
        ]
      ]

  input_coded-Keeps :
      (now : ℕ) (d : Decoder) (b : List ℕ)
      → All IsByte b
      → Sound d
      → Keeps (input_coded rs_decode2 now d b)
  unfolding input_coded
  input_coded-Keeps now d b a s = elim (Bool-cases (ltb (length b) head_length)) [
    | inl short ↦ rw (short, Keeps) s
    | inr long ↦ elim (Option-cases (read_head b)) [
      | inl e ↦ rw (long, e, Keeps) tt
      | inr (h, e) ↦
          rw (long, e, Keeps)
            (elim (Bool-cases (
              leb_ℤ h.index (pos 0) && leb_ℤ (pos 0) h.index
              || ltb_ℤ (h.data_pkg_num +ℤ h.redundant_pkg_num) h.index)) [
                | inl outside ↦ rw outside s
                | inr inside ↦ elim (Bool-cases (is_finished (get h.seq d.groups))) [
                  | inl over ↦ rw (inside, over) s
                  | inr unfinished ↦ elim (Bool-cases (group_of h.seq d.groups).ready) [
                    | inl waits ↦ rw (inside, unfinished, waits) s
                    | inr gathers ↦
                        rw (inside, unfinished, gathers)
                          (receive-Keeps now d h (drop head_length b)
                            (All-drop IsByte head_length b a) s)
                  ]
                ]
              ])
    ]
  ]

  input-Keeps :
      (now : ℕ) (d : Decoder) (b : List ℕ)
      → All IsByte b
      → Sound d
      → Keeps (input rs_decode2 now d (some b))
  unfolding input
  input-Keeps now d b a s = elim (Bool-cases (ltb (length b) 4)) [
    | inl short ↦ rw (short, Keeps) s
    | inr long ↦ elim (Option-cases (read_u32 b)) [
      | inl e ↦ rw (long, e, Keeps) tt
      | inr (mark, e) ↦ elim (Bool-cases (mark == unique_header)) [
        | inl coded ↦ rw (long, e, coded, Keeps) (input_coded-Keeps now d b a s)
        | inr plain ↦ rw (long, e, plain, Keeps) (deal_unencode-Keeps d b a s)
      ]
    ]
  ]

  pub input-Sound :
      (now : ℕ) (d : Decoder) (b : List ℕ) (ret : ℤ) (d' : Decoder)
      → All IsByte b
      → Sound d
      → input rs_decode2 now d (some b) ≡ some (ret, d')
      → Sound d'
  input-Sound now d b ret d' a s e = subst Keeps e (input-Keeps now d b a s)
