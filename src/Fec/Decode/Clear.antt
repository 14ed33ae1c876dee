-- ===== src/Fec/Decode/Clear.antt =====
-- `FecDecode::ClearTimeoutDatas` (lib/libfec/source/fec_decode.cpp) leaves a group alone that has just
-- been added to the timeouts.
use fec_kcp.Prelude.{
  ℕ, ◌-◌, ◌≡◌, refl, ap, ◌∙◌, true, false, ◌||◌, some, Option-cases, Bool-cases, inl, inr, List, [],
  ◌∷◌, ◌++◌, ltb, ◌==◌, if◌then◌else◌, arith,
}
use fec_kcp.Fec.Timeout.{TimeoutMap, find, assign, time_of, add, expired_from, get_timeout_elements}
use fec_kcp.Fec.Timeout.Keys.{add_absent, add_present, update_present}
use fec_kcp.Fec.Timeout.Refine.{find-assign}
use fec_kcp.Fec.Groups.{get, group_of}
use fec_kcp.Fec.Groups.Laws.{get-erase_group}
use fec_kcp.Fec.Decode.{Decoder, remove_seq, clear_seqs, clear_timeout}
use fec_kcp.Fec.Code.{contains}

find-assign_self : (key now : ℕ) (m : List (ℕ × ℕ)) → find key (assign key now m) ≡ some now
find-assign_self key now m = ground (arith, find-assign key key now m)

find-add : (m : TimeoutMap) (key now : ℕ) → find key (add m key now).1.times ≡ some now
find-add m key now = elim (Option-cases (find key m.times)) [
  | inl absent ↦ rw (add_absent m key now absent) (find-assign_self key now m.times)
  | inr (t, e) ↦
      rw (add_present m key now t e, update_present m key now t e)
        (find-assign_self key now m.times)
]

pub time_of-add : (m : TimeoutMap) (key now : ℕ) → time_of key (add m key now).1.times ≡ now
unfolding time_of
time_of-add m key now = rw (find-add m key now, time_of) refl

contains-append :
    (is js : List ℕ) (i : ℕ) → contains (is ++ js) i ≡ (contains is i || contains js i)
contains-append [] js i = refl
contains-append (j ∷ is) js i = ground (arith, contains-append is js i)

old_other :
    (limit now k key : ℕ) (m : List (ℕ × ℕ))
    → time_of key m ≡ now
    → ltb limit (now - time_of k m) ≡ true
    → (k == key) ≡ false
old_other limit now k key m e old = elim (Bool-cases (k == key)) [
  | inl same ↦ let h : k ≡ key = ground arith in ground (arith, ap (λ n. time_of n m) h)
  | inr other ↦ other
]

expired_from-fresh :
    (limit now key : ℕ) (m : List (ℕ × ℕ)) (ks : List ℕ)
    → time_of key m ≡ now
    → contains (expired_from limit now m ks).0 key ≡ false
unfolding expired_from
expired_from-fresh limit now key m [] e = refl
expired_from-fresh limit now key m (k ∷ ks) e =
    let ih = expired_from-fresh limit now key m ks e in
    elim (Bool-cases (expired_from limit now m ks).1) [
      | inl over ↦ rw over ih
      | inr on ↦ elim (Bool-cases (ltb limit (now - time_of k m))) [
        | inl old ↦
            rw (on, old)
              (contains-append (expired_from limit now m ks).0 (k ∷ []) key
                ∙ rw (ih, old_other limit now k key m e old) refl)
        | inr young ↦ rw (on, young) ih
      ]
    ]

-- The decoder after one round of the loop.
abbrev pub without : ℕ → Decoder → Decoder
without s d = if (group_of s d.groups).ready then d else remove_seq s d

without-get :
    (s seq : ℕ) (d : Decoder)
    → (s == seq) ≡ false
    → (get seq (without s d).groups ≡ get seq d.groups)
      × ((without s d).ready_seqs_nums ≡ d.ready_seqs_nums)
      × ((without s d).output_unit ≡ d.output_unit)
unfolding remove_seq
without-get s seq d other = elim (Bool-cases (group_of s d.groups).ready) [
  | inl kept ↦ rw kept (refl, refl, refl)
  | inr gone ↦ rw gone (get-erase_group seq s d.groups ∙ rw other refl, refl, refl)
]

clear_seqs-get :
    (seqs : List ℕ) (seq : ℕ) (d : Decoder)
    → contains seqs seq ≡ false
    → (get seq (clear_seqs seqs d).groups ≡ get seq d.groups)
      × ((clear_seqs seqs d).ready_seqs_nums ≡ d.ready_seqs_nums)
      × ((clear_seqs seqs d).output_unit ≡ d.output_unit)
unfolding clear_seqs
clear_seqs-get [] seq d e = (refl, refl, refl)
clear_seqs-get (s ∷ seqs) seq d e =
    let other : (s == seq) ≡ false = ground arith in
    let rest : contains seqs seq ≡ false = ground arith in
    let (g, n, u) = clear_seqs-get seqs seq (without s d) rest in
    let (g', n', u') = without-get s seq d other in (g ∙ g', n ∙ n', u ∙ u')

pub clear_timeout-get :
    (now seq : ℕ) (d : Decoder)
    → time_of seq d.timeout_map.times ≡ now
    → (get seq (clear_timeout now d).groups ≡ get seq d.groups)
      × ((clear_timeout now d).ready_seqs_nums ≡ d.ready_seqs_nums)
      × ((clear_timeout now d).output_unit ≡ d.output_unit)
unfolding clear_timeout get_timeout_elements
clear_timeout-get now seq d e = clear_seqs-get _ seq d (
    expired_from-fresh d.timeout_map.timeout_limit_ms now seq d.timeout_map.times
      d.timeout_map.elements e)

without-ready_seqs_nums :
    (s : ℕ) (d : Decoder)
    → ((without s d).ready_seqs_nums ≡ d.ready_seqs_nums)
      × ((without s d).output_unit ≡ d.output_unit)
unfolding remove_seq
without-ready_seqs_nums s d = elim (Bool-cases (group_of s d.groups).ready) [
  | inl kept ↦ rw kept (refl, refl)
  | inr gone ↦ rw gone (refl, refl)
]

clear_seqs-ready_seqs_nums :
    (seqs : List ℕ) (d : Decoder)
    → ((clear_seqs seqs d).ready_seqs_nums ≡ d.ready_seqs_nums)
      × ((clear_seqs seqs d).output_unit ≡ d.output_unit)
unfolding clear_seqs
clear_seqs-ready_seqs_nums [] d = (refl, refl)
clear_seqs-ready_seqs_nums (s ∷ seqs) d =
    let (n, u) = clear_seqs-ready_seqs_nums seqs (without s d) in
    let (n', u') = without-ready_seqs_nums s d in (n ∙ n', u ∙ u')

-- Which groups are cleared away changes neither the count of the ready ones nor what is handed out.
pub clear_timeout-ready_seqs_nums :
    (now : ℕ) (d : Decoder)
    → ((clear_timeout now d).ready_seqs_nums ≡ d.ready_seqs_nums)
      × ((clear_timeout now d).output_unit ≡ d.output_unit)
unfolding clear_timeout
clear_timeout-ready_seqs_nums now d =
    clear_seqs-ready_seqs_nums (get_timeout_elements d.timeout_map now) d
