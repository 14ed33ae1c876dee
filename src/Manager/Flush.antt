-- ===== src/Manager/Flush.antt =====
-- `FecEncodeManager::FlushUnEncodedData` (source/fec_manager.cpp) on an incomplete group, with sockets that
-- may fail.
use fec_kcp.Prelude.{
  length-map, ℕ, zero, suc, ◌+◌, ◌<◌, ◌≡◌, refl, ap, subst, Bool, true, false, Option, some, List,
  [], ◌∷◌, map, length, take, All, ltb_ℤ, ℤ, pos, negsuc, arith,
}
use fec_kcp.Fec.Encode.{Encoder, RsEncode}
use fec_kcp.Fec.Encode.Group.{IsPacket, inputs}
use fec_kcp.Fec.Encode.Partial.{marked, inputs-flush_unencoded}
use fec_kcp.Fec.Wire.{write_u32_r}
use fec_kcp.Endpoint.{Sends}
use fec_kcp.Manager.{send_all, plain_sends, flush_unencoded_data}

-- An uncoded packet as it is sent.
abbrev pub marked_send : List ℕ → Option (List ℕ) × ℕ
marked_send p = (some (marked p), length p + 4)

plain_sends-marked : (ps : List (List ℕ)) → plain_sends (some (map marked ps)) ≡ map marked_send ps
unfolding plain_sends write_u32_r
plain_sends-marked [] = refl
plain_sends-marked (p ∷ ps) =
    let n : length (marked p) ≡ length p + 4 = omega arith in
    rw n (ap (λ s. marked_send p ∷ s) (plain_sends-marked ps))

-- The packet does not go out.
abbrev pub fails : (ℕ → ℤ) → ℕ → Bool
fails sent i = ltb_ℤ (sent i) (pos 0)

pub send_all-succeeds :
    (sent : ℕ → ℤ) (ps : Sends) (i : ℕ)
    → ((m : ℕ) → m < length ps → fails sent (i + m) ≡ false)
    → send_all sent i ps ≡ (ps, true)
unfolding send_all
send_all-succeeds sent [] i ok = refl
send_all-succeeds sent (p ∷ ps) i ok =
    let now : fails sent i ≡ false =
      subst (λ n. fails sent n ≡ false) (omega arith) (ok 0 (omega arith)) in
    let rest =
      send_all-succeeds sent ps (i + 1)
        (λ m h. subst (λ n. fails sent n ≡ false) (omega arith) (ok (m + 1) (omega arith))) in
    rw (now, rest) refl

send_all-fails :
    (sent : ℕ → ℤ) (ps : Sends) (i j : ℕ)
    → j < length ps
    → ((m : ℕ) → m < j → fails sent (i + m) ≡ false)
    → fails sent (i + j) ≡ true
    → send_all sent i ps ≡ (take (suc j) ps, false)
unfolding send_all
send_all-fails sent [] i j inside ok bad = absurd (omega arith)
send_all-fails sent (p ∷ ps) i zero inside ok bad =
    let now : fails sent i ≡ true = subst (λ n. fails sent n ≡ true) (omega arith) bad in
    rw now refl
send_all-fails sent (p ∷ ps) i (suc j) inside ok bad =
    let now : fails sent i ≡ false =
      subst (λ n. fails sent n ≡ false) (omega arith) (ok 0 (omega arith)) in
    let rest =
      send_all-fails sent ps (i + 1) j (omega arith)
        (λ m h. subst (λ n. fails sent n ≡ false) (omega arith) (ok (m + 1) (omega arith)))
        (subst (λ n. fails sent n ≡ true) (omega arith) bad) in
    rw (now, rest) refl

-- What `FlushUnEncodedData` does with a group that is not complete, if sending fails. A coder that starts a
-- group has taken fewer packets of 1 to 65535 bytes than a group holds. The sends before the `j`-th
-- succeed, and the `j`-th fails. Then exactly these are sent, in order, each behind the four bytes of the
-- reversed mark and with its length, nothing of the packets behind, and the result is -2. All the
-- same the coder has given all of them up, and the next packet starts a group.
pub flush_unencoded_data-fails :
    (rs_encode2 : RsEncode) (e : Encoder) (ps : List (List ℕ)) (sent : ℕ → ℤ) (j : ℕ)
    → e.cur_data_pkgs_num ≡ 0
    → length e.data_pkgs ≡ e.data_pkg_num + e.redundant_pkg_num
    → length e.data_pkgs_length ≡ e.data_pkg_num + e.redundant_pkg_num
    → length ps < e.data_pkg_num
    → All IsPacket ps
    → j < length ps
    → ((m : ℕ) → m < j → fails sent m ≡ false)
    → fails sent j ≡ true
    → let (result, sends, e') = flush_unencoded_data sent (inputs rs_encode2 e ps).1 in
      (result ≡ negsuc 1) × (sends ≡ take (suc j) (map marked_send ps)) × (e'.cur_data_pkgs_num ≡ 0)
unfolding flush_unencoded_data
flush_unencoded_data-fails rs_encode2 e ps sent j start full measured few a inside ok bad =
    let plain = inputs-flush_unencoded rs_encode2 e ps start full measured few a in
    let stops =
      send_all-fails sent (map marked_send ps) 0 j (omega (arith, length-map marked_send ps))
        (λ m h. subst (λ n. fails sent n ≡ false) (omega arith) (ok m h))
        (subst (λ n. fails sent n ≡ true) (omega arith) bad) in
    rw (plain.2, plain_sends-marked ps, stops) (refl, refl, plain.3)

-- What `FlushUnEncodedData` does with a group that is not complete, if each packet can be sent. A coder that
-- starts a group has taken fewer packets of 1 to 65535 bytes than a group holds. Then exactly these
-- are sent, in order, each behind the four bytes of the reversed mark and with its length, the result
-- is 0, and the next packet starts a group.
pub flush_unencoded_data-succeeds :
    (rs_encode2 : RsEncode) (e : Encoder) (ps : List (List ℕ)) (sent : ℕ → ℤ)
    → e.cur_data_pkgs_num ≡ 0
    → length e.data_pkgs ≡ e.data_pkg_num + e.redundant_pkg_num
    → length e.data_pkgs_length ≡ e.data_pkg_num + e.redundant_pkg_num
    → length ps < e.data_pkg_num
    → All IsPacket ps
    → ((m : ℕ) → m < length ps → fails sent m ≡ false)
    → let (result, sends, e') = flush_unencoded_data sent (inputs rs_encode2 e ps).1 in
      (result ≡ pos 0) × (sends ≡ map marked_send ps) × (e'.cur_data_pkgs_num ≡ 0)
unfolding flush_unencoded_data
flush_unencoded_data-succeeds rs_encode2 e ps sent start full measured few a ok =
    let plain = inputs-flush_unencoded rs_encode2 e ps start full measured few a in
    let all = send_all-succeeds sent (map marked_send ps) 0 (λ m h.
      subst (λ n. fails sent n ≡ false) (omega arith)
        (ok m (omega (arith, h, length-map marked_send ps)))) in
    rw (plain.2, plain_sends-marked ps, all) (refl, refl, plain.3)
