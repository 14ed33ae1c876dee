-- ===== src/Fec/Decode/Progress.antt =====
-- `FecDecode::Output` (lib/libfec/source/fec_decode.cpp) on a decoder that holds bytes: it leaves less to be
-- handed out.
use mathlib.Core.Option.{some-injective}
use fec_kcp.Prelude.{
  ℕ, zero, suc, ◌+◌, ◌-◌, ◌≤◌, ◌<◌, ◌≡◌, refl, subst, if_cases, true, false, ◌||◌, Bool-cases,
  Option-cases, inl, inr, Option, none, some, List, [], ◌∷◌, ◌++◌, All, All-append, All-take,
  All-replicate, length, take, replicate, get_elem?, ltb, ◌==◌, if◌then◌else◌, arith,
}
use fec_kcp.Kcp.Segment.Bytes.{IsByte}
use fec_kcp.Fec.Groups.{Group, Groups, get, group_of, put, first_ready, ready_packets}
use fec_kcp.Fec.Groups.Laws.{group_of-some, group_of-none, get-ready_packets}
use fec_kcp.Fec.Groups.Ordered.{put-All, get-All, put-Ascending, ready_packets-put}
use fec_kcp.Fec.Decode.{Decoder, search_next, ◌>>=◌}
use fec_kcp.Fec.Decode.Sound.{IsRow, HasRows, Sound, clear_timeout-Sound, group_of-HasRows}
use fec_kcp.Fec.Decode.Output.{Result, advance, output_packet, output_next, output_step, output}
use fec_kcp.Fec.Decode.Measure.{
  current, measure, measure_coded, Progress, turned-Sound, start_seq-Progress,
  output_plain-Progress,
}

-- The packet `i` of the current group has been copied.
advance-Progress :
    (μ now i : ℕ) (d : Decoder) (g : Group) (stored : List ℕ)
    → All IsByte stored
    → Sound d
    → d.output_unit.ready_for_output ≡ false
    → current d ≡ true
    → get d.output_unit.last_process_seq d.groups ≡ some g
    → g.ready ≡ true
    → i < length g.pkgs
    → ready_packets d.groups - i ≤ μ
    → Progress μ (advance now d g i stored)
unfolding advance
advance-Progress μ now i d g stored b s no_plain cur here is_ready inside left =
    let seq = d.output_unit.last_process_seq in
    let u = record (d.output_unit) { last_process_index = i + 1 } in
    let d₁ = record d { output_unit = u } in
    let held = get-ready_packets seq g d.groups here is_ready in
    elim (Bool-cases (i + 1 == length g.pkgs)) [
      | inl last ↦
          let g' = record g { ready = false } in
          let fewer = ready_packets-put seq g g' d.groups s.ascending here is_ready refl in
          let row = get-All HasRows seq g d.groups here s.rows in
          let s' : Sound (record d₁ {
            groups = put seq g' d.groups;
            ready_seqs_nums = d.ready_seqs_nums - 1;
          }) =
            record {
              ascending = put-Ascending seq g' d.groups s.ascending;
              rows = put-All HasRows seq g' d.groups row s.rows;
              plain = s.plain;
            } in
          rw last
            (start_seq-Progress μ now (some stored) _ b s' no_plain (omega (arith, fewer, held)))
      | inr more ↦ elim (Option-cases (get_elem? g.pkgs_length (i + 1))) [
        | inl e ↦ rw (more, e, Progress) tt
        | inr (len, e) ↦
            let less : measure d₁ < μ = rw (no_plain, cur) (omega (arith, held)) in
            rw (more, e, Progress) (turned-Sound d u s.plain s, b, λ _. less)
      ]
    ]

get_elem?-less {ℓ} :
    {A : Type ℓ} (xs : List A) (i : ℕ) (x : A) → get_elem? xs i ≡ some x → i < length xs
get_elem?-less [] i x e = absurd (ground arith)
get_elem?-less (y ∷ xs) zero x e = omega arith
get_elem?-less (y ∷ xs) (suc i) x e = omega (arith, get_elem?-less xs i x e)

ready-get :
    (seq : ℕ) (m : Groups) → (group_of seq m).ready ≡ true → (get seq m ≡ some (group_of seq m))
ready-get seq m is_ready = elim (Option-cases (get seq m)) [
  | inl absent ↦ absurd (ground (arith, group_of-none seq m absent))
  | inr (g, here) ↦ rw (group_of-some seq g m here) here
]

get_elem?-IsRow :
    (rows : List (Option (List ℕ))) (i : ℕ) (slot : Option (List ℕ))
    → All IsRow rows
    → get_elem? rows i ≡ some slot
    → IsRow slot
get_elem?-IsRow [] i slot a e = absurd (ground arith)
get_elem?-IsRow (row ∷ rows) zero slot a e = subst IsRow (some-injective _ _ e) a.0
get_elem?-IsRow (row ∷ rows) (suc i) slot a e = get_elem?-IsRow rows i slot a.1 e

copied-Progress :
    (μ now size len i : ℕ) (d : Decoder) (g : Group) (slot : Option (List ℕ))
    → IsRow slot
    → ((stored : List ℕ) → All IsByte stored → Progress μ (advance now d g i stored))
    → Progress μ (
        slot >>= (λ row.
          if ltb size len || ltb (length row) len
          then none
          else advance now d g i (take len row ++ replicate (size - len) 0)))
copied-Progress μ now size len i d g none b h = tt
copied-Progress μ now size len i d g (some row) b h =
    if_cases (Progress μ) (ltb size len || ltb (length row) len) (λ _. tt)
      (λ _. h _ (
        All-append IsByte _ _ (All-take IsByte len row b) (All-replicate IsByte _ 0 (omega arith))))

output_packet-Progress :
    (μ now size : ℕ) (d : Decoder)
    → Sound d
    → d.output_unit.ready_for_output ≡ false
    → current d ≡ true
    → measure d ≤ μ
    → Progress μ (output_packet now d size)
unfolding output_packet
output_packet-Progress μ now size d s no_plain cur left =
    let seq = d.output_unit.last_process_seq in
    let i = d.output_unit.last_process_index in
    let g = group_of seq d.groups in
    let is_ready : g.ready ≡ true = ground arith in
    let here = ready-get seq d.groups is_ready in
    let left' : ready_packets d.groups - i ≤ μ =
      subst (λ t. t ≤ μ) (rw (no_plain, cur) (omega arith)) left in
    elim (Option-cases (get_elem? g.pkgs i)) [
      | inl e ↦ rw (e, Progress) tt
      | inr (slot, e) ↦ elim (Option-cases (get_elem? g.pkgs_length i)) [
        | inl e' ↦ rw (e, e', Progress) tt
        | inr (len, e') ↦
            let inside = get_elem?-less g.pkgs i slot e in
            let row = get_elem?-IsRow g.pkgs i slot (group_of-HasRows seq d.groups s.rows) e in
            rw (e, e')
              (copied-Progress μ now size len i d g slot row (λ stored b.
                advance-Progress μ now i d g stored b s no_plain cur here is_ready inside left'))
      ]
    ]

output_next-Progress :
    (μ now size : ℕ) (d : Decoder) (again : Decoder → Result)
    → ((d' : Decoder)
        → Sound d'
        → d'.output_unit.ready_for_output ≡ false
        → measure d' ≤ μ
        → Progress μ (again d'))
    → Sound d
    → d.output_unit.ready_for_output ≡ false
    → ready_packets d.groups ≤ μ
    → Progress μ (output_next now d size again)
unfolding output_next search_next
output_next-Progress μ now size d again h s no_plain left =
    elim (Bool-cases (d.ready_seqs_nums == 0)) [
      | inl none_ready ↦
          rw (none_ready, Progress)
            (clear_timeout-Sound now d s, tt, λ h. absurd (omega (arith, h)))
      | inr some_ready ↦
          let found = first_ready size d.groups in
          let d' = record d {
            output_unit = record (d.output_unit) {
              last_process_seq = found;
              last_process_index = 0;
            };
          } in
          elim (Bool-cases (found == 0)) [
            | inl nothing ↦
                rw (some_ready, nothing, Progress) (s, tt, λ h. absurd (omega (arith, h)))
            | inr other ↦
                rw (some_ready, other)
                  (h d' (turned-Sound d d'.output_unit s.plain s) no_plain
                    (omega (arith, measure_coded d' no_plain, left)))
          ]
    ]

output_step-Progress :
    (μ now size : ℕ) (again : Decoder → Result)
    → ((d' : Decoder)
        → Sound d'
        → d'.output_unit.ready_for_output ≡ false
        → measure d' ≤ μ
        → Progress μ (again d'))
    → (d : Decoder) → Sound d
    → measure d ≤ μ
    → Progress μ (output_step now size again d)
unfolding output_step
output_step-Progress μ now size again h d s left =
    if_cases (Progress μ) d.output_unit.ready_for_output
      (λ plain. output_plain-Progress μ now size d s (ground arith))
      (λ no_plain.
        if_cases (Progress μ) (d.ready_seqs_nums == 0) (λ _. clear_timeout-Sound now d s)
          (λ _.
            if_cases (Progress μ) (current d)
              (λ cur. output_packet-Progress μ now size d s no_plain cur left)
              (λ idle. output_next-Progress μ now size d again h s no_plain (ground arith))))

-- `Output` on a sound decoder.
pub output-Progress :
    (now size : ℕ) (d : Decoder) → Sound d → Progress (measure d) (output now d size)
unfolding output
output-Progress now size d s =
    output_step-Progress (measure d) now size (output_step now size (λ _. none))
      (λ d' s' _ left.
        output_step-Progress (measure d) now size (λ _. none) (λ _ _ _ _. tt) d' s' left)
      d s (omega arith)
