-- ===== src/Endpoint/Deliver.antt =====
-- `FecKcp::DataInput` (source/fec_kcp.cpp) on a packet that completes a group.
use fec_kcp.Prelude.{
  length-map, ℕ, zero, suc, ◌+◌, ◌≤◌, ◌<◌, ◌≡◌, refl, ap, ◌∙◌, sym, true, false, Option, some,
  Option-cases, inl, inr, List, [], ◌∷◌, ◌++◌, append_assoc, map, length, length-append, get_elem?,
  All, ltb_ℤ, if◌then◌else◌, ℤ, pos, arith,
}
use fec_kcp.Kcp.State.{Kcp}
use fec_kcp.Kcp.Input.{input}
use fec_kcp.Fec.Groups.{Group, get, group_of, first_ready}
use fec_kcp.Fec.Groups.Laws.{get-ready_packets}
use fec_kcp.Fec.Decode.{Decoder, RsDecode, ◌>>=◌}
use fec_kcp.Fec.Decode as Decode
use fec_kcp.Fec.Decode.HandOut.{
  HandsOut, filled_up, moved, finished, turned, output-moved, output-finished, output-turned,
  HandsOut-moved, finished-ready_seqs_nums,
}
use fec_kcp.Endpoint.Rounds.{
  kcp_inputs, cut, with_decoder, IsLength, get_elem?-middle, buffer-filled_up, filled_up-exact,
  input_rounds-end, input_rounds-step, input_rounds-fault, input_rounds-turned,
}
use fec_kcp.Endpoint.{FecKcp, after_decode, input_rounds, rounds, data_input}

module _ (now seq size : ℕ) (g : Group) (fits : seq < 65536) where
  input_rounds-group :
      (rows : List (List ℕ)) (lens : List ℕ) (row : List ℕ) (len : ℕ)
      (gone : List (Option (List ℕ))) (gone_lens : List ℕ) (i m fuel : ℕ) (f : FecKcp) (ret : ℤ)
      → g.pkgs ≡ gone ++ some row ∷ map some rows
      → g.pkgs_length ≡ gone_lens ++ len ∷ lens
      → length gone ≡ i
      → length gone_lens ≡ i
      → length lens ≡ length rows
      → All (λ r. length r ≡ size) (row ∷ rows)
      → All (IsLength size) (len ∷ lens)
      → len ≤ suc m
      → length rows + 2 ≤ fuel
      → HandsOut seq i g f.fec_decode
      → (d : Decoder) × (input_rounds fuel now f (pos (suc m)) ret ≡ (
          kcp_inputs (pos 0) f.kcp (filled_up (suc m) len row ∷ cut rows lens)
          >>= with_decoder f d))
        × (d.ready_seqs_nums ≡ 0)
  unfolding input_rounds kcp_inputs cut
  input_rounds-group rows lens row len gone gone_lens i m zero f ret ps ls c c' same even long room
        fuelled v =
      absurd (omega arith)
  input_rounds-group [] lens row len gone gone_lens i m (suc fuel) f ret ps ls c c' same even long
        room fuelled v =
      let d = f.fec_decode in
      let st = filled_up (suc m) len row in
      let slot : get_elem? g.pkgs i ≡ some (some row) =
        ap (λ l. get_elem? l i) ps ∙ get_elem?-middle gone (some row) [] i c in
      let own : get_elem? g.pkgs_length i ≡ some len =
        ap (λ l. get_elem? l i) ls ∙ get_elem?-middle gone_lens len lens i c' in
      let last : i + 1 ≡ length g.pkgs =
        omega
          (arith, ap (length {A = Option (List ℕ)}) ps, length-append gone (some row ∷ []), c) in
      let whole : len ≤ length row = omega (arith, even.0, long.0.1) in
      let out = output-finished now seq i (suc m) g d fits v len row slot own room whole last in
      let full = buffer-filled_up (suc m) len row room whole in
      (
        finished now seq i g d,
        elim (Option-cases (input f.kcp st)) [
          | inl e ↦
              input_rounds-fault fuel now m 0 f ret st (finished now seq i g d) out full e
              ∙ rw e refl
          | inr ((temp_ret, k), e) ↦
              input_rounds-step fuel now m 0 f ret st (finished now seq i g d) out full temp_ret k e
              ∙ input_rounds-end fuel now _ _ (omega arith)
              ∙ rw e refl
        ],
        finished-ready_seqs_nums now seq i g d,
      )
  input_rounds-group (row' ∷ rows) [] row len gone gone_lens i m (suc fuel) f ret ps ls c c' same
        even long room fuelled v =
      absurd (omega arith)
  input_rounds-group (row' ∷ rows) (zero ∷ lens) row len gone gone_lens i m (suc fuel) f ret ps ls c
        c' same even long room fuelled v =
      absurd (omega (arith, long.1.0.0))
  input_rounds-group (row' ∷ rows) (suc m' ∷ lens) row len gone gone_lens i m (suc fuel) f ret ps ls
        c c' same even long room fuelled v =
      let d = f.fec_decode in
      let st = filled_up (suc m) len row in
      let slot : get_elem? g.pkgs i ≡ some (some row) =
        ap (λ l. get_elem? l i) ps
        ∙ get_elem?-middle gone (some row) (some row' ∷ map some rows) i c in
      let own : get_elem? g.pkgs_length i ≡ some len =
        ap (λ l. get_elem? l i) ls ∙ get_elem?-middle gone_lens len (suc m' ∷ lens) i c' in
      let ps' : g.pkgs ≡ (gone ++ some row ∷ []) ++ some row' ∷ map some rows =
        ps ∙ sym (append_assoc gone (some row ∷ []) (some row' ∷ map some rows)) in
      let ls' : g.pkgs_length ≡ (gone_lens ++ len ∷ []) ++ suc m' ∷ lens =
        ls ∙ sym (append_assoc gone_lens (len ∷ []) (suc m' ∷ lens)) in
      let n : length (gone ++ some row ∷ []) ≡ i + 1 =
        omega (arith, length-append gone (some row ∷ []), c) in
      let n' : length (gone_lens ++ len ∷ []) ≡ i + 1 =
        omega (arith, length-append gone_lens (len ∷ []), c') in
      let more : i + 1 < length g.pkgs = omega (
        arith,
        ap (length {A = Option (List ℕ)}) ps,
        length-append gone (some row ∷ some row' ∷ map some rows),
        c,
      ) in
      let next : get_elem? g.pkgs_length (i + 1) ≡ some (suc m') =
        ap (λ l. get_elem? l (i + 1)) ls'
        ∙ get_elem?-middle (gone_lens ++ len ∷ []) (suc m') lens (i + 1) n' in
      let whole : len ≤ length row = omega (arith, even.0, long.0.1) in
      let out =
        output-moved now seq i (suc m) g d fits v len row slot own room whole (suc m') more next in
      let full = buffer-filled_up (suc m) len row room whole in
      let ih = λ (k : Kcp) (ret' : ℤ).
        input_rounds-group rows lens row' (suc m') (gone ++ some row ∷ []) (gone_lens ++ len ∷ [])
          (i + 1) m' fuel (record f { kcp = k; fec_decode = moved i d }) ret' ps' ls' n n'
          (omega arith) even.1 long.1 (omega arith) (omega arith)
          (HandsOut-moved now seq i (suc m) g d fits v) in
      elim (Option-cases (input f.kcp st)) [
        | inl e ↦
            let (d', _, quiet) = ih f.kcp ret in
            (
              d',
              input_rounds-fault fuel now m (suc m') f ret st (moved i d) out full e ∙ rw e refl,
              quiet,
            )
        | inr ((temp_ret, k), e) ↦
            let (d', e', quiet) =
              ih k (if ltb_ℤ temp_ret (pos 0) then temp_ret else pos (suc m')) in
            (
              d',
              input_rounds-step fuel now m (suc m') f ret st (moved i d) out full temp_ret k e
                  ∙ e'
                  ∙ rw (e, filled_up-exact (suc m') row') refl,
              quiet,
            )
      ]

rounds_lem :
    (seq : ℕ) (g : Group) (d : Decoder) (row : List ℕ) (rows : List (List ℕ))
    → get seq d.groups ≡ some g
    → g.ready ≡ true
    → g.pkgs ≡ map some (row ∷ rows)
    → length rows + 2 ≤ rounds d
unfolding rounds
rounds_lem seq g d row rows here is_ready ps = omega (
  arith,
  get-ready_packets seq g d.groups here is_ready,
  ap (length {A = Option (List ℕ)}) ps,
  length-map (λ (r : List ℕ). some r) (row ∷ rows),
)

-- `DataInput` on a packet that makes a group ready. `Input` of the decoder returns the positive length
-- `n`, and the group `seq`, whose number is not 0, is then the only ready one, with rows of `n` bytes
-- and for each of them a positive length of at most `n`; nothing is being handed out. Then the engine
-- gets every data packet of the group through `ikcp_input`, once each, in order and one directly after
-- the other: the first cut to its length and filled up with zeros to `n` bytes, each later one cut to its
-- length. The result is that of the last `ikcp_input`, or 0 where that is not negative, whatever
-- the earlier ones return, and no group is ready any more. `DataInput` has a fault exactly where one of
-- these calls of `ikcp_input` has one; otherwise it returns.
pub data_input-delivers :
    (rs_decode2 : RsDecode) (now seq n len : ℕ) (f : FecKcp) (buf row : List ℕ)
    (rows : List (List ℕ)) (lens : List ℕ) (g : Group) (d : Decoder)
    → Decode.input rs_decode2 now f.fec_decode (some buf) ≡ some (pos n, d)
    → 0 < n
    → 0 < seq
    → seq < 65536
    → get seq d.groups ≡ some g
    → g.ready ≡ true
    → d.ready_seqs_nums ≡ 1
    → first_ready n d.groups ≡ seq
    → d.output_unit.ready_for_output ≡ false
    → (group_of d.output_unit.last_process_seq d.groups).ready ≡ false
    → g.pkgs ≡ map some (row ∷ rows)
    → g.pkgs_length ≡ len ∷ lens
    → length lens ≡ length rows
    → All (λ r. length r ≡ n) (row ∷ rows)
    → All (IsLength n) (len ∷ lens)
    → (d' : Decoder) × (data_input rs_decode2 now f buf
        ≡ (kcp_inputs (pos 0) f.kcp (filled_up n len row ∷ cut rows lens) >>= with_decoder f d'))
      × (d'.ready_seqs_nums ≡ 0)
unfolding data_input after_decode
data_input-delivers rs_decode2 now seq zero len f buf row rows lens g d e some_bytes not_zero fits
      here is_ready one found no_plain idle ps ls same even long =
    absurd (omega arith)
data_input-delivers rs_decode2 now seq (suc m) len f buf row rows lens g d e some_bytes not_zero
      fits here is_ready one found no_plain idle ps ls same even long =
    let (v, turn) =
      output-turned now seq (suc m) g d fits not_zero here is_ready one no_plain idle found in
    let f' = record f { fec_decode = d } in
    let (d', e', quiet) =
      input_rounds-group now seq (suc m) g fits rows lens row len [] [] 0 m (rounds d)
        (record f { fec_decode = turned seq d }) (pos 0) ps ls refl refl same even long long.0.1
        (rounds_lem seq g d row rows here is_ready ps) v in
    (
      d',
      ap (after_decode now f) e
          ∙ input_rounds-turned (rounds d) now m f' (turned seq d) (pos 0) turn
          ∙ e',
      quiet,
    )
