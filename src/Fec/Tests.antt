-- ===== src/Fec/Tests.antt =====
-- lib/libfec at concrete inputs.
pub mod Coded
use fec_kcp.Prelude.{ℕ, ◌+◌, ◌-◌, ◌≡◌, refl, some, List, [], ◌∷◌, ◌++◌, map, replicate, pos, arith}
use fec_kcp.Fec.Wire.{write_u32, write_u32_r, read_u32, read_u32_r, write_u16, read_u16, read-write}
use fec_kcp.Fec.Encode.{
  Encoder, RsEncode, new, output, flush_unencoded, pad, redundant_buffers, next_seq, head_length,
}
use fec_kcp.Fec.Encode.Gather.{longest, coded}
use fec_kcp.Fec.Encode.Group.{inputs, inputs-output}
use fec_kcp.Fec.Encode.Partial.{marked, inputs-flush_unencoded}
use fec_kcp.Fec.Timeout.{TimeoutMap, find, get_timeout_elements}
use fec_kcp.Fec.Timeout.Keys.{IsLinked, empty-IsLinked}
use fec_kcp.Fec.Timeout.Refine.{
  Op, adds, updates, removes, apply_all, promised_all, apply_all-promised,
}
use fec_kcp.Fec.Timeout.Expiry.{expired}
use fec_kcp.Fec.Timeout.Recency.{apply_all-get_timeout_elements}

read-write_example :
    (read_u32 (write_u32 0x12345678 ++ 9 ∷ []) ≡ some 0x12345678)
    × (read_u32_r (write_u32_r 0x12345678 ++ 9 ∷ []) ≡ some 0x12345678)
    × (read_u16 (write_u16 65520 ++ 9 ∷ []) ≡ some 65520)
read-write_example = read-write 0x12345678 65520 (9 ∷ []) (omega arith) (omega arith)

-- One redundant row for two data rows: the first of them again.
abbrev repeat_first : RsEncode
repeat_first k n [] size = []
repeat_first k n (row ∷ rows) size = row ∷ []

abbrev fresh : Encoder
fresh = new 2 1 1 (some 700)

abbrev packets : List (List ℕ)
packets = (1 ∷ 2 ∷ 3 ∷ []) ∷ (4 ∷ []) ∷ []

inputs-output_example :
    let (results, e') = inputs repeat_first fresh packets in
    let (result, group, e'') = output e' in
    (results ≡ replicate (fresh.data_pkg_num - 1) (pos 0) ++ pos 1 ∷ [])
    × (result ≡ pos 0)
    × (group
        ≡ some (
          coded fresh.seq (longest packets) fresh.data_pkg_num fresh.redundant_pkg_num 0 packets
              ++ redundant_buffers fresh.seq
                  (longest packets)
                  fresh.data_pkg_num
                  fresh.redundant_pkg_num
                  fresh.data_pkg_num
                  (repeat_first fresh.data_pkg_num
                    (fresh.data_pkg_num + fresh.redundant_pkg_num)
                    (map (pad (longest packets)) packets)
                    (longest packets)),
          replicate (fresh.data_pkg_num + fresh.redundant_pkg_num) (longest packets + head_length),
        ))
    × (e''.cur_data_pkgs_num ≡ 0)
    × (e''.seq ≡ next_seq fresh.seq)
unfolding new
inputs-output_example =
    inputs-output repeat_first fresh packets refl refl refl refl (omega arith) (omega arith)

inputs-flush_unencoded_example :
    let (results, e') = inputs repeat_first fresh ((5 ∷ 6 ∷ []) ∷ []) in
    let (result, plain, e'') = flush_unencoded e' in
    (results ≡ pos 0 ∷ [])
    × (result ≡ pos 0)
    × (plain ≡ some (marked (5 ∷ 6 ∷ []) ∷ []))
    × (e''.cur_data_pkgs_num ≡ 0)
unfolding new
inputs-flush_unencoded_example =
    inputs-flush_unencoded repeat_first fresh ((5 ∷ 6 ∷ []) ∷ []) refl refl refl (omega arith)
      (omega arith)

abbrev no_keys : TimeoutMap
no_keys = record { elements = []; times = []; timeout_limit_ms = 100 }

abbrev calls : List Op
calls = adds 5 100 ∷ adds 7 110 ∷ updates 5 200 ∷ removes 7 ∷ []

apply_all-promised_example :
    IsLinked (apply_all no_keys calls)
    × (find 5 (apply_all no_keys calls).times ≡ promised_all calls (λ i. find i []) 5)
apply_all-promised_example = apply_all-promised no_keys calls 5 (empty-IsLinked 100)

apply_all-get_timeout_elements_example :
    let m = apply_all no_keys calls in
    get_timeout_elements m 250 ≡ expired m.timeout_limit_ms 250 m.times m.elements
apply_all-get_timeout_elements_example =
    apply_all-get_timeout_elements 100 calls 250
      (omega arith, (omega arith, (omega arith, (omega arith, tt))))
