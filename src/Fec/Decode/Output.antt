-- ===== src/Fec/Decode/Output.antt =====
-- `FecDecode::Output` (lib/libfec/source/fec_decode.cpp). The caller's buffer is its size; it is not
-- null, as the only caller has checked. What is stored there is a result, `none` if nothing is. `none`
-- for the whole is a fault.
use fec_kcp.Prelude.{
  ℕ, zero, suc, ◌+◌, ◌-◌, ◌^◌, false, ◌&&◌, ◌||◌, not, Option, none, some, List, [], ◌++◌, length,
  get_elem?, take, replicate, ltb, ◌==◌, if◌then◌else◌, ℤ, pos, negsuc,
}
use fec_kcp.Word.{word}
use fec_kcp.Fec.Groups.{Group, group_of, put}
use fec_kcp.Fec.Decode.{Decoder, search_next, clear_timeout, ◌>>=◌}

abbrev pub Result : Type 0
Result = Option (ℤ × Option (List ℕ) × Decoder)

-- `last_process_seq = seq; last_process_index = 0; return seq2data_pkgs_length_[seq][0];` behind
-- `if (ret <= 0) return ret;`, with what has been stored.
unfoldable pub start_seq : Option (List ℕ) → ℕ × Decoder → Result
start_seq stored (zero, d) = some (pos 0, stored, d)
start_seq stored (suc s, d) = do
  len ← get_elem? (group_of (suc s) d.groups).pkgs_length 0
  some (
    pos len,
    stored,
    record d {
      output_unit = record (d.output_unit) { last_process_seq = suc s; last_process_index = 0 };
    },
  )

-- The block that hands out a packet which came uncoded.
unfoldable pub output_plain : ℕ → Decoder → ℕ → Result
unfolding start_seq search_next
output_plain now d size =
    let u = d.output_unit in
    if ltb size u.actural_len
    then some (negsuc 1, none, d)
    else start_seq (some u.bytes) (
        search_next now (2 ^ 31 - 1) (record d {
          output_unit = record u { bytes = []; actural_len = 0; ready_for_output = false };
        }))

-- The end of `output_packet`, once the packet `index` has been copied.
unfoldable pub advance : ℕ → Decoder → Group → ℕ → List ℕ → Result
unfolding start_seq search_next
advance now d g index stored =
    let u = d.output_unit in
    let d' = record d { output_unit = record u { last_process_index = index + 1 } } in
    if index + 1 == length g.pkgs
    then start_seq (some stored) (
        search_next now (2 ^ 31 - 1) (record d' {
          groups = put u.last_process_seq (record g { ready = false }) d.groups;
          ready_seqs_nums = d.ready_seqs_nums - 1;
        }))
    else do len ← get_elem? g.pkgs_length (index + 1); some (pos len, some stored, d')

-- The block that hands out the next packet of the group at `last_process_seq`.
unfoldable pub output_packet : ℕ → Decoder → ℕ → Result
unfolding advance
output_packet now d size =
    let g = group_of d.output_unit.last_process_seq d.groups in
    let i = d.output_unit.last_process_index in
    do
      slot ← get_elem? g.pkgs i
      len ← get_elem? g.pkgs_length i
      row ← slot
      (if ltb size len || ltb (length row) len
          then none
          else advance now d g i (take len row ++ replicate (size - len) 0))

-- The code behind the block above: another group is looked for, and `Output` called again.
unfoldable pub output_next : ℕ → Decoder → ℕ → (Decoder → Result) → Result
unfolding search_next
output_next now d size again =
    let (ret, d') = search_next now size d in
    if ret == 0
    then some (pos 0, none, d')
    else again (record d' {
      output_unit = record (d'.output_unit) { last_process_seq = ret; last_process_index = 0 };
    })

-- `Output`, with its recursive call as `again`.
unfoldable pub output_step : ℕ → ℕ → (Decoder → Result) → Decoder → Result
unfolding output_plain output_packet output_next
output_step now size again d =
    let u = d.output_unit in
    if u.ready_for_output
    then output_plain now d size
    else if d.ready_seqs_nums == 0
    then some (negsuc 0, none, clear_timeout now d)
    else if not (u.last_process_seq == word - 1) && (group_of u.last_process_seq d.groups).ready
    then output_packet now d size
    else output_next now d size again

-- `Output`, which calls itself at most once: the group that it has found is ready then.
unfoldable pub output : ℕ → Decoder → ℕ → Result
unfolding output_step
output now d size = output_step now size (output_step now size (λ _. none)) d
