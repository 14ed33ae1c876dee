-- ===== src/Fec/Uncoded.antt =====
-- Packets that `FecEncode` hands out uncoded (lib/libfec/source/fec_encode.cpp), taken in and handed out
-- by `FecDecode` (lib/libfec/source/fec_decode.cpp).
use fec_kcp.Prelude.{
  ℕ, suc, ◌+◌, ◌-◌, ◌<◌, ◌≡◌, refl, ◌∙◌, true, false, Option, some, List, [], ◌∷◌, map, length, All,
  ltb, ◌==◌, ℤ, pos, pos_part, arith,
}
use fec_kcp.Fec.Wire.{read_u32, read_u32_r, write_u32_r}
use fec_kcp.Fec.Encode.{Encoder, RsEncode, flush_unencoded}
use fec_kcp.Fec.Encode.Group.{IsPacket, inputs}
use fec_kcp.Fec.Encode.Partial.{marked, inputs-flush_unencoded}
use fec_kcp.Fec.Decode.{
  Decoder, RsDecode, larger_mem, clear_timeout, deal_unencode, search_next, input, ◌>>=◌,
}
use fec_kcp.Fec.Decode.Clear.{clear_timeout-ready_seqs_nums}
use fec_kcp.Fec.Decode.Output.{output, output_step, output_plain, start_seq}

-- Each packet goes through `Input`, and what it has made ready through `Output` into a buffer of the
-- length that `Input` returned: the two results and what is stored, for each packet.
unfoldable pub relay :
    RsDecode → (ℕ → ℕ) → Decoder → List (List ℕ) → Option (List (ℤ × ℤ × Option (List ℕ)) × Decoder)
relay rs_decode2 clock d [] = some ([], d)
relay rs_decode2 clock d (p ∷ ps) = do
  (taken, d') ← input rs_decode2 (clock (length ps)) d (some p)
  (left, stored, d'') ← output (clock (length ps)) d' (pos_part taken)
  (rest, d''') ← relay rs_decode2 clock d'' ps
  some ((taken, left, stored) ∷ rest, d''')

-- The decoder that holds the uncoded packet `p`.
abbrev holding : Decoder → List ℕ → Decoder
holding d p = record d {
  output_unit = record (larger_mem d.output_unit (length (marked p))) {
    bytes = p;
    actural_len = length p;
    ready_for_output = true;
  };
}

module _ (rs_decode2 : RsDecode) where
  input-marked :
      (now : ℕ) (d : Decoder) (p : List ℕ)
      → input rs_decode2 now d (some (marked p)) ≡ some (pos (length p), holding d p)
  unfolding input deal_unencode read_u32 read_u32_r write_u32_r
  input-marked now d p =
      let enough : ltb (suc (suc (suc (suc (length p))))) 4 ≡ false = ground arith in
      let rest : suc (suc (suc (suc (length p)))) - 4 ≡ length p = omega arith in
      rw (enough, rest) refl

-- The decoder that has handed it out.
abbrev emptied : ℕ → Decoder → List ℕ → Decoder
emptied now d p =
    let h = holding d p in
    clear_timeout now (record h {
      output_unit = record (h.output_unit) {
        bytes = [];
        actural_len = 0;
        ready_for_output = false;
      };
    })

output-holding :
    (now : ℕ) (d : Decoder) (p : List ℕ)
    → d.ready_seqs_nums ≡ 0
    → output now (holding d p) (length p) ≡ some (pos 0, some p, emptied now d p)
unfolding output output_step output_plain search_next start_seq larger_mem
output-holding now d p quiet =
    let e : ltb (length p) (length p) ≡ false = ground arith in
    let z : (d.ready_seqs_nums == 0) ≡ true = ground arith in rw (e, z) refl

-- What `relay` returns for a packet.
abbrev pub handed_out : List ℕ → ℤ × ℤ × Option (List ℕ)
handed_out p = (pos (length p), pos 0, some p)

relay-marked :
    (rs_decode2 : RsDecode) (clock : ℕ → ℕ) (ps : List (List ℕ)) (d : Decoder)
    → d.ready_seqs_nums ≡ 0
    → (d' : Decoder) × (relay rs_decode2 clock d (map marked ps) ≡ some (map handed_out ps, d'))
      × (d'.ready_seqs_nums ≡ 0)
unfolding relay larger_mem
relay-marked rs_decode2 clock [] d quiet = (d, refl, quiet)
relay-marked rs_decode2 clock (p ∷ ps) d quiet =
    let now = clock (length (map marked ps)) in
    let next = emptied now d p in
    let (d', e, quiet') =
      relay-marked rs_decode2 clock ps next ((clear_timeout-ready_seqs_nums now _).0 ∙ quiet) in
    (d', rw (input-marked rs_decode2 now d p, output-holding now d p quiet, e) refl, quiet')

-- A group that is flushed before it is complete reaches the user of the decoder. An encoder that starts
-- a group is given fewer packets of 1 to 65535 bytes than a group holds, and `FlushUnEncodedData`
-- hands out packets. Each of these goes through `Input` of a decoder with no ready group, at any time,
-- and what is ready then through `Output`. `Input` returns the length of the packet that the encoder
-- was given, and `Output` returns 0 and stores that packet. Still no group is ready.
pub flush-relay :
    (rs_encode2 : RsEncode) (rs_decode2 : RsDecode) (e : Encoder) (ps : List (List ℕ))
    (clock : ℕ → ℕ) (d : Decoder)
    → e.cur_data_pkgs_num ≡ 0
    → length e.data_pkgs ≡ e.data_pkg_num + e.redundant_pkg_num
    → length e.data_pkgs_length ≡ e.data_pkg_num + e.redundant_pkg_num
    → length ps < e.data_pkg_num
    → All IsPacket ps
    → d.ready_seqs_nums ≡ 0
    → (packets : List (List ℕ)) × (d' : Decoder) × ((flush_unencoded (inputs rs_encode2 e ps).1).1
        ≡ some packets)
      × (relay rs_decode2 clock d packets ≡ some (map handed_out ps, d'))
      × (d'.ready_seqs_nums ≡ 0)
flush-relay rs_encode2 rs_decode2 e ps clock d start full measured few a quiet =
    let plain = inputs-flush_unencoded rs_encode2 e ps start full measured few a in
    let (d', relayed, quiet') = relay-marked rs_decode2 clock ps d quiet in
    (map marked ps, d', plain.2, relayed, quiet')
