-- ===== src/Fec/Encode/Group.antt =====
-- `FecEncode` (lib/libfec/source/fec_encode.cpp) over a whole group: from the packets that go in to
-- the packets that come out.
use fec_kcp.Prelude.{
  ℕ, suc, ◌+◌, ◌-◌, ◌<◌, ◌≡◌, refl, ap, ◌∙◌, Option, some, List, [], ◌∷◌, ◌++◌, map, length,
  length-append, take, take-append, replicate, All, arith, append_assoc, subst, ℤ, pos,
}
use fec_kcp.Fec.Encode.{
  Encoder, RsEncode, head_length, store, begin_group, pad, redundant_buffers, next_seq, complete,
  input, output,
}
use fec_kcp.Fec.Encode.Gather.{
  slots, longest, length-slots, Gathered, store-Gathered, map-const, Ready, Ready-new,
  Ready-Gathered, coded, data_buffers-slots, data_rows-slots,
}

-- The encoder as the packet is put in.
abbrev pub begun : Encoder → Encoder
begun e = begin_group (record e { newest_update_time = e.inside_timer })

-- The lengths that `Input` takes.
abbrev pub IsPacket : List ℕ → Type 0
IsPacket p = (0 < length p) × (length p < 65536)

-- `Input` for each of the packets: the results, and the encoder behind.
unfoldable pub inputs : RsEncode → Encoder → List (List ℕ) → List ℤ × Encoder
inputs rs_encode2 e [] = ([], e)
inputs rs_encode2 e (p ∷ ps) =
    let (n, e') = input rs_encode2 e (some p) in
    let (ns, e'') = inputs rs_encode2 e' ps in (n ∷ ns, e'')

zeros :
    (n m : ℕ)
    → suc n ≡ m
    → pos 0 ∷ (replicate n (pos 0) ++ pos 1 ∷ []) ≡ replicate m (pos 0) ++ pos 1 ∷ []
zeros n m e = ap (λ m. replicate m (pos 0) ++ pos 1 ∷ []) e

module _ (rs_encode2 : RsEncode) (k r seq : ℕ) where
  pub input-store :
      (ps : List (List ℕ)) (e : Encoder) (p : List ℕ)
      → Ready k r seq ps e
      → IsPacket p
      → length ps + 1 < k
      → input rs_encode2 e (some p) ≡ (pos 0, store (begun e) p)
  unfolding input store
  input-store ps e p v q more = ground (arith, v.count, v.data_num, v.begun.count, v.begun.data_num)

  input-complete :
      (ps : List (List ℕ)) (e : Encoder) (p : List ℕ)
      → Ready k r seq ps e
      → IsPacket p
      → length ps + 1 ≡ k
      → input rs_encode2 e (some p) ≡ (pos 1, complete rs_encode2 (store (begun e) p))
  unfolding input store
  input-complete ps e p v q last =
      ground (arith, v.count, v.data_num, v.begun.count, v.begun.data_num)

  -- The packets of the group: the data packets, then the redundant ones from the code.
  abbrev pub group : List (List ℕ) → List (Option (List ℕ))
  group ps =
      let size = longest ps in
      coded seq size k r 0 ps
      ++ redundant_buffers seq size k r k (rs_encode2 k (k + r) (map (pad size) ps) size)

  -- `Output` hands out the group, and the encoder behind it starts the next one.
  abbrev pub HandsOut : List (List ℕ) → Encoder → Type 0
  HandsOut ps e =
      let (result, packets, e') = output e in
      (result ≡ pos 0)
      × (packets ≡ some (group ps, replicate (k + r) (longest ps + head_length)))
      × (e'.cur_data_pkgs_num ≡ 0)
      × (e'.seq ≡ next_seq seq)

  complete-HandsOut :
      (ps : List (List ℕ)) (e : Encoder)
      → Gathered k r seq ps e
      → length ps ≡ k
      → HandsOut ps (complete rs_encode2 e)
  unfolding complete output
  complete-HandsOut ps e g whole =
      let size = longest ps in
      let here : take k e.data_pkgs ≡ slots seq k r 0 ps =
        ap (take k) g.held
        ∙ take-append (slots seq k r 0 ps) _ k (omega (arith, length-slots seq k r 0 ps)) in
      rw
        (
          g.data_num,
          g.redundant_num,
          g.number,
          g.size,
          here,
          data_rows-slots size seq k r 0 ps,
          data_buffers-slots size seq k r 0 ps,
        )
        (
          refl,
          ap (λ l. some (group ps, l))
              (map-const (size + head_length) e.data_pkgs_length
                ∙ ap (λ n. replicate n (size + head_length)) g.lengths),
          refl,
          refl,
        )

  inputs-HandsOut :
      (qs : List (List ℕ)) (e : Encoder) (ps : List (List ℕ))
      → Ready k r seq qs e
      → All IsPacket ps
      → length qs + length ps ≡ k
      → 0 < length ps
      → let (results, e') = inputs rs_encode2 e ps in
        (results ≡ replicate (length ps - 1) (pos 0) ++ pos 1 ∷ []) × HandsOut (qs ++ ps) e'
  unfolding inputs
  inputs-HandsOut qs e [] v a whole more = absurd (omega arith)
  inputs-HandsOut qs e (p ∷ []) v a whole more =
      let g = store-Gathered k r seq qs (begun e) p (omega arith) v.begun in
      rw (input-complete qs e p v a.0 (omega arith))
        (refl, complete-HandsOut (qs ++ p ∷ []) _ g (omega (arith, length-append qs (p ∷ []))))
  inputs-HandsOut qs e (p ∷ p' ∷ ps) v a whole more =
      let g = store-Gathered k r seq qs (begun e) p (omega arith) v.begun in
      let n = length-append qs (p ∷ []) in
      let ready = Ready-Gathered k r seq (qs ++ p ∷ []) _ (omega (arith, n)) g in
      let (results, out) =
        inputs-HandsOut (qs ++ p ∷ []) _ (p' ∷ ps) ready a.1 (omega (arith, n)) (omega arith) in
      rw (input-store qs e p v a.0 (omega arith)) (
        ap (λ l. pos 0 ∷ l) results ∙ zeros (length (p' ∷ ps) - 1) _ (omega arith),
        subst (λ l. HandsOut l (inputs rs_encode2 (store (begun e) p) (p' ∷ ps)).1)
            (append_assoc qs (p ∷ []) (p' ∷ ps)) out,
      )

-- A whole group through `FecEncode`. An encoder that starts a group is given as many packets of 1 to
-- 65535 bytes as a group holds. `Input` returns 0 for each but the last, and 1 for the last. `Output`
-- then returns 0 and hands out, in order, each packet behind its header and padded with zeros to the
-- longest one, then the rows of the code over the padded packets behind theirs, all with the length
-- of the longest packet and a header. The next packet starts a group with the next sequence number.
pub inputs-output :
    (rs_encode2 : RsEncode) (e : Encoder) (ps : List (List ℕ))
    → e.cur_data_pkgs_num ≡ 0
    → length e.data_pkgs ≡ e.data_pkg_num + e.redundant_pkg_num
    → length e.data_pkgs_length ≡ e.data_pkg_num + e.redundant_pkg_num
    → length ps ≡ e.data_pkg_num
    → 0 < e.data_pkg_num
    → All IsPacket ps
    → let (results, e') = inputs rs_encode2 e ps in
      let k = e.data_pkg_num in
      let r = e.redundant_pkg_num in
      let size = longest ps in
      let (result, packets, e'') = output e' in
      (results ≡ replicate (k - 1) (pos 0) ++ pos 1 ∷ [])
      × (result ≡ pos 0)
      × (packets
          ≡ some (
            coded e.seq size k r 0 ps
                ++ redundant_buffers e.seq size k r k
                    (rs_encode2 k (k + r) (map (pad size) ps) size),
            replicate (k + r) (size + head_length),
          ))
      × (e''.cur_data_pkgs_num ≡ 0)
      × (e''.seq ≡ next_seq e.seq)
inputs-output rs_encode2 e ps start full measured whole some_data a =
    let (results, out) =
      inputs-HandsOut rs_encode2 e.data_pkg_num e.redundant_pkg_num e.seq [] e ps
        (Ready-new e start full measured) a (omega arith) (omega arith) in
    (results ∙ ap (λ n. replicate (n - 1) (pos 0) ++ pos 1 ∷ []) whole, out.0, out.1, out.2, out.3)
