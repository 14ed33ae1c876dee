-- ===== src/Fec/Decode/HandOut.antt =====
-- `FecDecode::Output` (lib/libfec/source/fec_decode.cpp) on a group that is ready, packet by packet.
use fec_kcp.Prelude.{
  ℕ, ◌+◌, ◌-◌, ◌≤◌, ◌<◌, ◌≡◌, refl, ◌∙◌, sym, true, false, Bool-cases, inl, inr, none, some, List,
  ◌++◌, length, get_elem?, take, replicate, ltb, ◌==◌, pos, arith,
}
use fec_kcp.Word.{word}
use fec_kcp.Fec.Groups.{Group, get, group_of, put, first_ready}
use fec_kcp.Fec.Groups.Laws.{group_of-some}
use fec_kcp.Fec.Decode.{Decoder, search_next, clear_timeout}
use fec_kcp.Fec.Decode.Clear.{clear_timeout-ready_seqs_nums}
use fec_kcp.Fec.Decode.Output.{
  Result, start_seq, advance, output_packet, output_next, output_step, output,
}

-- The next packet that `Output` hands out is packet `i` of the only ready group.
pub record HandsOut (seq i : ℕ) (g : Group) (d : Decoder) : Type 0 where
  pub here : get seq d.groups ≡ some g
  pub is_ready : g.ready ≡ true
  pub one : d.ready_seqs_nums ≡ 1
  pub no_plain : d.output_unit.ready_for_output ≡ false
  pub at_seq : d.output_unit.last_process_seq ≡ seq
  pub at_index : d.output_unit.last_process_index ≡ i

-- The decoder once packet `i` has been handed out and is not the last.
abbrev pub moved : ℕ → Decoder → Decoder
moved i d = record d { output_unit = record (d.output_unit) { last_process_index = i + 1 } }

-- The decoder once the last packet, `i`, has been handed out.
abbrev pub finished : ℕ → ℕ → ℕ → Group → Decoder → Decoder
finished now seq i g d = clear_timeout now (record (moved i d) {
  groups = put seq (record g { ready = false }) d.groups;
  ready_seqs_nums = 0;
})

-- What is stored in a buffer of `n` bytes.
abbrev pub filled_up : ℕ → ℕ → List ℕ → List ℕ
filled_up n len row = take len row ++ replicate (n - len) 0

module _ (now seq i n : ℕ) (g : Group) (d : Decoder) (fits : seq < 65536)
    (v : HandsOut seq i g d) where
  step-output_packet :
      (again : Decoder → Result) → output_step now n again d ≡ output_packet now d n
  unfolding output_step
  step-output_packet again =
      let some_ready : (d.ready_seqs_nums == 0) ≡ false = ground (arith, v.one) in
      let known : (seq == word - 1) ≡ false = ground arith in
      rw (v.no_plain, some_ready, v.at_seq, known, group_of-some seq g d.groups v.here, v.is_ready)
        refl

  module _ (len : ℕ) (row : List ℕ) (slot : get_elem? g.pkgs i ≡ some (some row))
      (size : get_elem? g.pkgs_length i ≡ some len) (room : len ≤ n)
      (whole : len ≤ length row) where
    output-advance : output now d n ≡ advance now d g i (filled_up n len row)
    unfolding output output_packet
    output-advance =
        let a : ltb n len ≡ false = ground arith in
        let b : ltb (length row) len ≡ false = ground arith in
        step-output_packet (output_step now n (λ _. none))
        ∙ rw (v.at_seq, v.at_index, group_of-some seq g d.groups v.here, slot, size, a, b) refl

    pub output-moved :
        (len' : ℕ)
        → i + 1 < length g.pkgs
        → get_elem? g.pkgs_length (i + 1) ≡ some len'
        → output now d n ≡ some (pos len', some (filled_up n len row), moved i d)
    unfolding advance
    output-moved len' more size' =
        let inside : (i + 1 == length g.pkgs) ≡ false = ground arith in
        output-advance ∙ rw (inside, size') refl

    pub output-finished :
        i + 1 ≡ length g.pkgs
        → output now d n ≡ some (pos 0, some (filled_up n len row), finished now seq i g d)
    unfolding advance search_next start_seq
    output-finished last =
        let end : (i + 1 == length g.pkgs) ≡ true = ground arith in
        let none_left : d.ready_seqs_nums - 1 ≡ 0 = omega (arith, v.one) in
        output-advance ∙ rw (end, none_left, v.at_seq) refl

  pub HandsOut-moved : HandsOut seq (i + 1) g (moved i d)
  HandsOut-moved = record {
    here = v.here;
    is_ready = v.is_ready;
    one = v.one;
    no_plain = v.no_plain;
    at_seq = v.at_seq;
    at_index = refl;
  }

pub finished-ready_seqs_nums :
    (now seq i : ℕ) (g : Group) (d : Decoder) → (finished now seq i g d).ready_seqs_nums ≡ 0
finished-ready_seqs_nums now seq i g d = (clear_timeout-ready_seqs_nums now _).0

-- The decoder turns to the group `seq`.
abbrev pub turned : ℕ → Decoder → Decoder
turned seq d = record d {
  output_unit = record (d.output_unit) { last_process_seq = seq; last_process_index = 0 };
}

step-turned :
    (now seq n : ℕ) (d : Decoder) (again : Decoder → Result)
    → 0 < seq
    → d.ready_seqs_nums ≡ 1
    → d.output_unit.ready_for_output ≡ false
    → (group_of d.output_unit.last_process_seq d.groups).ready ≡ false
    → first_ready n d.groups ≡ seq
    → output_step now n again d ≡ again (turned seq d)
unfolding output_step output_next search_next
step-turned now seq n d again not_zero one no_plain idle found =
    let some_ready : (d.ready_seqs_nums == 0) ≡ false = ground (arith, one) in
    let known : (seq == 0) ≡ false = ground arith in
    elim (Bool-cases (d.output_unit.last_process_seq == word - 1)) [
      | inl e ↦ rw (no_plain, some_ready, e, found, known) refl
      | inr e ↦ rw (no_plain, some_ready, e, idle, found, known) refl
    ]

pub output-turned :
    (now seq n : ℕ) (g : Group) (d : Decoder)
    → seq < 65536
    → 0 < seq
    → get seq d.groups ≡ some g
    → g.ready ≡ true
    → d.ready_seqs_nums ≡ 1
    → d.output_unit.ready_for_output ≡ false
    → (group_of d.output_unit.last_process_seq d.groups).ready ≡ false
    → first_ready n d.groups ≡ seq
    → HandsOut seq 0 g (turned seq d) × (output now d n ≡ output now (turned seq d) n)
unfolding output
output-turned now seq n g d fits not_zero here is_ready one no_plain idle found =
    let v : HandsOut seq 0 g (turned seq d) = record {
      here = here;
      is_ready = is_ready;
      one = one;
      no_plain = no_plain;
      at_seq = refl;
      at_index = refl;
    } in
    let step = step-output_packet now seq 0 n g (turned seq d) fits v in
    (
      v,
      step-turned now seq n d (output_step now n (λ _. none)) not_zero one no_plain idle found
          ∙ step (λ _. none)
          ∙ sym (step (output_step now n (λ _. none))),
    )
