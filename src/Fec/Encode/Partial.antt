-- ===== src/Fec/Encode/Partial.antt =====
-- A group of `FecEncode` (lib/libfec/source/fec_encode.cpp) that is flushed before it is complete.
use fec_kcp.Prelude.{
  ℕ, ◌+◌, ◌<◌, ◌≡◌, refl, ap, ◌∙◌, sym, subst, false, some, List, [], ◌∷◌, ◌++◌, map, length,
  length-append, take, take-append, replicate, All, arith, ◌==◌, append_assoc, append-nil, pos,
}
use fec_kcp.Fec.Wire.{write_u32_r}
use fec_kcp.Fec.Encode.{
  Encoder, RsEncode, header, unique_header, store, begin_group, plain, plain_packets,
  flush_unencoded,
}
use fec_kcp.Fec.Encode.Gather.{
  slots, length-slots, Gathered, store-Gathered, Ready, Ready-new, Ready-Gathered,
}
use fec_kcp.Fec.Encode.Group.{IsPacket, begun, inputs, input-store}

-- What an uncoded packet is sent as.
abbrev pub marked : List ℕ → List ℕ
marked p = write_u32_r unique_header ++ p

plain_packets-slots :
    (seq k r i : ℕ) (ps : List (List ℕ)) → plain_packets (slots seq k r i ps) ≡ map marked ps
unfolding plain_packets plain slots header
plain_packets-slots seq k r i [] = refl
plain_packets-slots seq k r i (p ∷ ps) =
    ap (λ l. marked p ∷ l) (plain_packets-slots seq k r (i + 1) ps)

inputs-Ready :
    (rs_encode2 : RsEncode) (k r seq : ℕ) (qs : List (List ℕ)) (e : Encoder) (ps : List (List ℕ))
    → Ready k r seq qs e
    → All IsPacket ps
    → length qs + length ps < k
    → let (results, e') = inputs rs_encode2 e ps in
      (results ≡ replicate (length ps) (pos 0)) × Ready k r seq (qs ++ ps) e'
unfolding inputs
inputs-Ready rs_encode2 k r seq qs e [] v a few =
    (refl, subst (λ l. Ready k r seq l e) (sym (append-nil qs)) v)
inputs-Ready rs_encode2 k r seq qs e (p ∷ ps) v a few =
    let g = store-Gathered k r seq qs (begun e) p (omega arith) v.begun in
    let n = length-append qs (p ∷ []) in
    let ready = Ready-Gathered k r seq (qs ++ p ∷ []) _ (omega (arith, n)) g in
    let (results, v') =
      inputs-Ready rs_encode2 k r seq (qs ++ p ∷ []) _ ps ready a.1 (omega (arith, n)) in
    rw (input-store rs_encode2 k r seq qs e p v a.0 (omega arith)) (
      ap (λ l. pos 0 ∷ l) results,
      subst (λ l. Ready k r seq l (inputs rs_encode2 (store (begun e) p) ps).1)
          (append_assoc qs (p ∷ []) ps) v',
    )

begin_group-started : (e : Encoder) → (e.cur_data_pkgs_num == 0) ≡ false → begin_group e ≡ e
unfolding begin_group
begin_group-started e h = rw h refl

-- The packets that are in the slots, whether or not the next one starts a new group.
gathered-slots :
    (k r seq : ℕ) (ps : List (List ℕ)) (e : Encoder)
    → Ready k r seq ps e
    → take e.cur_data_pkgs_num e.data_pkgs ≡ slots seq k r 0 ps
unfolding slots
gathered-slots k r seq [] e v = rw (v.count) refl
gathered-slots k r seq (p ∷ ps) e v =
    let started : (e.cur_data_pkgs_num == 0) ≡ false = ground (arith, v.count) in
    let g : Gathered k r seq (p ∷ ps) (record e { newest_update_time = e.inside_timer }) =
      subst (Gathered k r seq (p ∷ ps))
        (begin_group-started (record e { newest_update_time = e.inside_timer }) started) v.begun in
    ap (take e.cur_data_pkgs_num) g.held
    ∙ take-append (slots seq k r 0 (p ∷ ps)) _ e.cur_data_pkgs_num
        (omega (arith, length-slots seq k r 0 (p ∷ ps), g.count))

-- A group that is flushed before it is complete. An encoder that starts a group is given fewer packets
-- of 1 to 65535 bytes than a group holds. `Input` returns 0 for each. `FlushUnEncodedData` then
-- returns 0 and hands out exactly these packets, in order, each behind the four bytes of the reversed
-- mark, and the next packet starts a group.
pub inputs-flush_unencoded :
    (rs_encode2 : RsEncode) (e : Encoder) (ps : List (List ℕ))
    → e.cur_data_pkgs_num ≡ 0
    → length e.data_pkgs ≡ e.data_pkg_num + e.redundant_pkg_num
    → length e.data_pkgs_length ≡ e.data_pkg_num + e.redundant_pkg_num
    → length ps < e.data_pkg_num
    → All IsPacket ps
    → let (results, e') = inputs rs_encode2 e ps in
      let (result, packets, e'') = flush_unencoded e' in
      (results ≡ replicate (length ps) (pos 0))
      × (result ≡ pos 0)
      × (packets ≡ some (map marked ps))
      × (e''.cur_data_pkgs_num ≡ 0)
unfolding flush_unencoded
inputs-flush_unencoded rs_encode2 e ps start full measured few a =
    let k = e.data_pkg_num in
    let r = e.redundant_pkg_num in
    let (results, v) =
      inputs-Ready rs_encode2 k r e.seq [] e ps (Ready-new e start full measured) a (omega arith) in
    let e' = (inputs rs_encode2 e ps).1 in
    let partial : (e'.cur_data_pkgs_num == e'.data_pkg_num) ≡ false =
      ground (arith, v.count, v.data_num) in
    rw (partial, gathered-slots k r e.seq ps _ v, plain_packets-slots e.seq k r 0 ps)
      (results, refl, refl, refl)
