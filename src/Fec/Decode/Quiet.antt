-- ===== src/Fec/Decode/Quiet.antt =====
-- `FecDecode` (lib/libfec/source/fec_decode.cpp) while nothing is ready to be handed out, and once a first
-- group is.
use fec_kcp.Prelude.{
  ℕ, ◌+◌, ◌≤◌, ◌≡◌, refl, ap, ◌∙◌, true, false, Bool-cases, inl, inr, none, some, List, [], ◌∷◌,
  All, ltb, leb, ◌==◌, if◌then◌else◌, arith,
}
use fec_kcp.Fec.Groups.{Group, Groups, group_of, get, put, erase_group, first_ready, no_group}
use fec_kcp.Fec.Groups.Laws.{group_of-none, get-put}
use fec_kcp.Fec.Timeout.{get_timeout_elements}
use fec_kcp.Fec.Decode.{Decoder, OutputUnit, remove_seq, clear_seqs, clear_timeout}
use fec_kcp.Fec.Decode.Clear.{without, clear_timeout-ready_seqs_nums}
use fec_kcp.Fec.Decode.Branches.{stored}

-- No group is ready.
abbrev pub Idle : Groups → Type 0
Idle = All (λ (e : ℕ × Group). e.1.ready ≡ false)

pub put-Idle : (seq : ℕ) (g : Group) (m : Groups) → g.ready ≡ false → Idle m → Idle (put seq g m)
unfolding put
put-Idle seq g [] e a = (e, tt)
put-Idle seq g ((s, h) ∷ m) e a = elim (Bool-cases (seq == s)) [
  | inl same ↦ rw same (e, a.1)
  | inr other ↦ elim (Bool-cases (ltb seq s)) [
    | inl low ↦ rw (other, low) (e, a)
    | inr high ↦ rw (other, high) (a.0, put-Idle seq g m e a.1)
  ]
]

erase_group-Idle : (seq : ℕ) (m : Groups) → Idle m → Idle (erase_group seq m)
unfolding erase_group
erase_group-Idle seq [] a = tt
erase_group-Idle seq ((s, h) ∷ m) a = elim (Bool-cases (s == seq)) [
  | inl same ↦ rw same (erase_group-Idle seq m a.1)
  | inr other ↦ rw other (a.0, erase_group-Idle seq m a.1)
]

get_nil : (seq : ℕ) → get seq [] ≡ none
unfolding get
get_nil seq = refl

group_of_cons :
    (seq s : ℕ) (h : Group) (m : Groups)
    → group_of seq ((s, h) ∷ m) ≡ (if s == seq then h else group_of seq m)
unfolding group_of get
group_of_cons seq s h m = elim (Bool-cases (s == seq)) [
  | inl same ↦ rw (same, group_of, get) refl
  | inr other ↦ rw (other, group_of, get) refl
]

pub group_of-Idle : (seq : ℕ) (m : Groups) → Idle m → (group_of seq m).ready ≡ false
group_of-Idle seq [] a = rw (group_of-none seq [] (get_nil seq)) refl
group_of-Idle seq ((s, h) ∷ m) a = elim (Bool-cases (s == seq)) [
  | inl same ↦ rw (group_of_cons seq s h m, same) (a.0)
  | inr other ↦ rw (group_of_cons seq s h m, other) (group_of-Idle seq m a.1)
]

-- A group that is ready among others that are not is the one that is found.
pub first_ready-put :
    (n seq : ℕ) (g : Group) (m : Groups)
    → g.ready ≡ true
    → g.max_length ≤ n
    → Idle m
    → first_ready n (put seq g m) ≡ seq
unfolding first_ready put
first_ready-put n seq g [] e short a =
    let fits : leb g.max_length n ≡ true = ground arith in rw (e, fits) refl
first_ready-put n seq g ((s, h) ∷ m) e short a =
    let fits : leb g.max_length n ≡ true = ground arith in
    elim (Bool-cases (seq == s)) [
      | inl same ↦ rw (same, e, fits) (ground arith)
      | inr other ↦ elim (Bool-cases (ltb seq s)) [
        | inl low ↦ rw (other, low, e, fits) refl
        | inr high ↦ rw (other, high, a.0) (first_ready-put n seq g m e short a.1)
      ]
    ]

without-Idle : (s : ℕ) (d : Decoder) → Idle d.groups → Idle (without s d).groups
unfolding remove_seq
without-Idle s d a = elim (Bool-cases (group_of s d.groups).ready) [
  | inl kept ↦ rw kept a
  | inr gone ↦ rw gone (erase_group-Idle s d.groups a)
]

clear_seqs-Idle : (seqs : List ℕ) (d : Decoder) → Idle d.groups → Idle (clear_seqs seqs d).groups
unfolding clear_seqs
clear_seqs-Idle [] d a = a
clear_seqs-Idle (s ∷ seqs) d a = clear_seqs-Idle seqs (without s d) (without-Idle s d a)

-- Nothing is ready, and the group `seq` is not the one that was handed out last.
pub record Quiet (seq : ℕ) (d : Decoder) : Type 0 where
  pub idle : Idle d.groups
  pub none_ready : d.ready_seqs_nums ≡ 0
  pub no_plain : d.output_unit.ready_for_output ≡ false
  pub elsewhere : (seq == d.output_unit.last_process_seq) ≡ false

pub Quiet-stored :
    (now seq : ℕ) (g : Group) (d : Decoder)
    → g.ready ≡ false
    → Quiet seq d
    → Quiet seq (stored now seq d g)
Quiet-stored now seq g d e q = record {
  idle = put-Idle seq g d.groups e q.idle;
  none_ready = q.none_ready;
  no_plain = q.no_plain;
  elsewhere = q.elsewhere;
}

pub Quiet-put :
    (seq : ℕ) (g : Group) (d : Decoder)
    → g.ready ≡ false
    → Quiet seq d
    → Quiet seq (record d { groups = put seq g d.groups })
Quiet-put seq g d e q = record {
  idle = put-Idle seq g d.groups e q.idle;
  none_ready = q.none_ready;
  no_plain = q.no_plain;
  elsewhere = q.elsewhere;
}

pub Quiet-clear_timeout :
    (now seq : ℕ) (d : Decoder) → Quiet seq d → Quiet seq (clear_timeout now d)
unfolding clear_timeout
Quiet-clear_timeout now seq d q =
    let (n, u) = clear_timeout-ready_seqs_nums now d in
    record {
      idle = clear_seqs-Idle (get_timeout_elements d.timeout_map now) d q.idle;
      none_ready = n ∙ q.none_ready;
      no_plain = ap (λ (o : OutputUnit). o.ready_for_output) u ∙ q.no_plain;
      elsewhere = ap (λ (o : OutputUnit). seq == o.last_process_seq) u ∙ q.elsewhere;
    }

-- The group `seq` is the only ready one, and `Output` turns to it next.
pub record Opened (seq size : ℕ) (d : Decoder) : Type 0 where
  pub one : d.ready_seqs_nums ≡ 1
  pub found : first_ready size d.groups ≡ seq
  pub no_plain : d.output_unit.ready_for_output ≡ false
  pub idle : (group_of d.output_unit.last_process_seq d.groups).ready ≡ false

group_of-put :
    (j seq : ℕ) (g : Group) (m : Groups)
    → (seq == j) ≡ false
    → group_of j (put seq g m) ≡ group_of j m
unfolding group_of
group_of-put j seq g m other =
    let same : get j (put seq g m) ≡ get j m = get-put j seq g m ∙ rw other refl in
    ap (λ o. elim o [ none ↦ no_group | some h ↦ h ]) same

pub Opened-put :
    (seq size : ℕ) (g : Group) (d : Decoder)
    → g.ready ≡ true
    → g.max_length ≡ size
    → Quiet seq d
    → Opened seq size
        (record d { groups = put seq g d.groups; ready_seqs_nums = d.ready_seqs_nums + 1 })
Opened-put seq size g d e n q = record {
  one = omega (arith, q.none_ready);
  found = first_ready-put size seq g d.groups e (omega (arith, n)) q.idle;
  no_plain = q.no_plain;
  idle =
      ap (λ (h : Group). h.ready)
        (group_of-put d.output_unit.last_process_seq seq g d.groups q.elsewhere)
      ∙ group_of-Idle d.output_unit.last_process_seq d.groups q.idle;
}
