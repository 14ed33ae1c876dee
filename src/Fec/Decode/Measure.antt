-- ===== src/Fec/Decode/Measure.antt =====
-- `FecDecode::Output` (lib/libfec/source/fec_decode.cpp): each packet that is handed out brings the decoder
-- nearer to having none left, and what is stored consists of bytes.
use fec_kcp.Prelude.{
  ℕ, zero, suc, ◌+◌, ◌-◌, ◌^◌, ◌≤◌, ◌<◌, ◌≡◌, refl, Bool, false, ◌&&◌, not, Bool-cases,
  Option-cases, inl, inr, Option, none, some, List, [], All, get_elem?, ltb, ◌==◌, if◌then◌else◌,
  pos, negsuc, arith,
}
use fec_kcp.Word.{word}
use fec_kcp.Kcp.Segment.Bytes.{IsByte}
use fec_kcp.Fec.Groups.{group_of, first_ready, ready_packets}
use fec_kcp.Fec.Decode.{Decoder, OutputUnit, search_next}
use fec_kcp.Fec.Decode.Sound.{Sound, clear_timeout-Sound}
use fec_kcp.Fec.Decode.Output.{Result, start_seq, output_plain}

-- Whether `last_process_seq` names a ready group.
abbrev pub current : Decoder → Bool
current d =
    not (d.output_unit.last_process_seq == word - 1)
    && (group_of d.output_unit.last_process_seq d.groups).ready

-- How many packets can still be handed out. Behind an uncoded packet the current group starts again.
abbrev pub measure : Decoder → ℕ
measure d =
    let r = ready_packets d.groups in
    if d.output_unit.ready_for_output
    then r + 1
    else (if current d then r - d.output_unit.last_process_index else r)

-- `r` packets are left in the ready groups, and no uncoded one.
abbrev LeftAtMost : ℕ → Decoder → Type 0
LeftAtMost r d = (d.output_unit.ready_for_output ≡ false) × (ready_packets d.groups ≤ r)

abbrev pub IsStored : Option (List ℕ) → Type 0
IsStored none = Unit
IsStored (some bytes) = All IsByte bytes

-- What a call of `Output` does, where less than `μ` is left if it announces another packet.
abbrev pub Progress : ℕ → Result → Type 0
Progress μ none = Unit
Progress μ (some (negsuc e, stored, d)) = Sound d
Progress μ (some (pos m, stored, d)) = Sound d × IsStored stored × (0 < m → measure d < μ)

-- An uncoded packet and those of the ready groups.
pub measure_bound : (d : Decoder) → measure d ≤ ready_packets d.groups + 1
measure_bound d = ground arith

pub turned-Sound :
    (d : Decoder) (u : OutputUnit)
    → All IsByte u.bytes
    → Sound d
    → Sound (record d { output_unit = u })
turned-Sound d u b s = record { ascending = s.ascending; rows = s.rows; plain = b }

-- Without an uncoded packet there are at most as many left as the ready groups hold.
pub measure_coded :
    (d : Decoder) → d.output_unit.ready_for_output ≡ false → measure d ≤ ready_packets d.groups
measure_coded d e = ground arith

start_seq_found :
    (μ seq : ℕ) (stored : Option (List ℕ)) (d : Decoder)
    → IsStored stored
    → Sound d
    → d.output_unit.ready_for_output ≡ false
    → ready_packets d.groups < μ
    → Progress μ (start_seq stored (seq, d))
unfolding start_seq
start_seq_found μ zero stored d b s no_plain less = (s, b, λ h. absurd (omega (arith, h)))
start_seq_found μ (suc seq) stored d b s no_plain less =
    elim (Option-cases (get_elem? (group_of (suc seq) d.groups).pkgs_length 0)) [
      | inl e ↦ rw (e, Progress) tt
      | inr (len, e) ↦
          let d' = record d {
            output_unit = record (d.output_unit) {
              last_process_seq = suc seq;
              last_process_index = 0;
            };
          } in
          rw (e, Progress)
            (
              turned-Sound d d'.output_unit s.plain s,
              b,
              λ _. omega (arith, measure_coded d' no_plain, less),
            )
    ]

-- Another group is looked for, from a state with less left.
pub start_seq-Progress :
    (μ now : ℕ) (stored : Option (List ℕ)) (d : Decoder)
    → IsStored stored
    → Sound d
    → d.output_unit.ready_for_output ≡ false
    → ready_packets d.groups < μ
    → Progress μ (start_seq stored (search_next now (2 ^ 31 - 1) d))
unfolding search_next start_seq
start_seq-Progress μ now stored d b s no_plain less = elim (Bool-cases (d.ready_seqs_nums == 0)) [
  | inl none_ready ↦
      rw (none_ready, start_seq, Progress)
        (clear_timeout-Sound now d s, b, λ h. absurd (omega (arith, h)))
  | inr some_ready ↦
      rw some_ready
        (start_seq_found μ (first_ready (2 ^ 31 - 1) d.groups) stored d b s no_plain less)
]

pub output_plain-Progress :
    (μ now size : ℕ) (d : Decoder)
    → Sound d
    → ready_packets d.groups < μ
    → Progress μ (output_plain now d size)
unfolding output_plain
output_plain-Progress μ now size d s less = elim (Bool-cases (ltb size d.output_unit.actural_len)) [
  | inl long ↦ rw (long, Progress) s
  | inr fits ↦
      let u = record (d.output_unit) { bytes = []; actural_len = 0; ready_for_output = false } in
      rw fits (
        start_seq-Progress μ now (some d.output_unit.bytes) (record d { output_unit = u }) s.plain
          (turned-Sound d u tt s) refl less)
]
