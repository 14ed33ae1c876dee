-- ===== src/Manager/Tests.antt =====
-- The sender of uncoded packets at concrete inputs.
use fec_kcp.Prelude.{
  ◌+◌, ℕ, ◌≡◌, refl, none, some, List, [], ◌∷◌, ◌++◌, map, replicate, take, ltb, if◌then◌else◌, ℤ,
  pos, negsuc, arith,
}
use fec_kcp.Fec.Encode.{Encoder}
use fec_kcp.Fec.Encode as Encode
use fec_kcp.Fec.Encode.Group.{inputs}
use fec_kcp.Fec.Encode.{pad, redundant_buffers, next_seq, head_length}
use fec_kcp.Fec.Encode.Gather.{coded, longest}
use fec_kcp.Fec.Tests.Coded.{sum_of, coder, messages}
use fec_kcp.Manager.Group.{send_inputs, send_inputs-group}
use fec_kcp.Manager.{flush_unencoded_data}
use fec_kcp.Manager.Flush.{marked_send, flush_unencoded_data-fails, flush_unencoded_data-succeeds}

abbrev wide : Encoder
wide = Encode.new 4 1 1 (some 9)

abbrev three : List (List ℕ)
three = (5 ∷ 6 ∷ []) ∷ (7 ∷ []) ∷ (8 ∷ []) ∷ []

-- The second send fails.
abbrev second_fails : ℕ → ℤ
second_fails i = if ltb i 1 then pos 6 else negsuc 0

abbrev all_sent : ℕ → ℤ
all_sent i = pos 6

flush_unencoded_data-fails_example :
    let (result, sends, e') = flush_unencoded_data second_fails (inputs sum_of wide three).1 in
    (result ≡ negsuc 1) × (sends ≡ take 2 (map marked_send three)) × (e'.cur_data_pkgs_num ≡ 0)
unfolding Encode.new
flush_unencoded_data-fails_example =
    flush_unencoded_data-fails sum_of wide three second_fails 1 refl refl refl (omega arith)
      (omega arith) (omega arith) (λ m h. ground (arith, h)) refl

flush_unencoded_data-succeeds_example :
    let (result, sends, e') = flush_unencoded_data all_sent (inputs sum_of wide three).1 in
    (result ≡ pos 0) × (sends ≡ map marked_send three) × (e'.cur_data_pkgs_num ≡ 0)
unfolding Encode.new
flush_unencoded_data-succeeds_example =
    flush_unencoded_data-succeeds sum_of wide three all_sent refl refl refl (omega arith)
      (omega arith) (λ m h. refl)

send_inputs-group_example :
    let size = longest messages in
    let packets =
      coded coder.seq size 2 1 0 messages
      ++ redundant_buffers coder.seq size 2 1 2 (sum_of 2 3 (map (pad size) messages) size) in
    let (results, sends, e') = send_inputs sum_of all_sent coder messages in
    (results ≡ replicate 2 none)
    × (sends ≡ map (λ p. (p, size + head_length)) packets)
    × (e'.cur_data_pkgs_num ≡ 0)
    × (e'.seq ≡ next_seq coder.seq)
unfolding Encode.new
send_inputs-group_example =
    send_inputs-group sum_of all_sent coder messages refl refl refl refl (omega arith)
      (omega arith, (omega arith, tt)) refl (λ m h. refl)
