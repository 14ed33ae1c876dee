-- ===== src/Endpoint/Group.antt =====
-- The datagrams of the engine on their way through `FecKcp::KcpSendFunc` (source/fec_kcp.cpp).
use fec_kcp.Prelude.{
  ℕ, zero, suc, ◌+◌, ◌-◌, ◌<◌, ◌≡◌, refl, ap, ◌∙◌, sym, true, Option, some, List, [], ◌∷◌, ◌++◌,
  append-nil, map, length, length-append, length-replicate, replicate, All, ◌==◌, ℤ, pos, arith,
}
use fec_kcp.Fec.Encode.{Encoder, RsEncode, output, pad, redundant_buffers, next_seq, head_length}
use fec_kcp.Fec.Encode as Encode
use fec_kcp.Fec.Encode.Gather.{coded, longest}
use fec_kcp.Fec.Encode.Group.{IsPacket, inputs, inputs-output}
use fec_kcp.Endpoint.{sends_of, kcp_send_func, send_datagrams}

abbrev pub head : List ℤ → ℤ
head [] = pos 0
head (n ∷ ns) = n

abbrev pub tail : List ℤ → List ℤ
tail [] = []
tail (n ∷ ns) = ns

pub sends_of-replicate :
    (ps : List (Option (List ℕ))) (n l : ℕ)
    → length ps ≡ n
    → sends_of ps (replicate n l) ≡ map (λ p. (p, l)) ps
unfolding sends_of
sends_of-replicate [] zero l h = refl
sends_of-replicate [] (suc n) l h = refl
sends_of-replicate (p ∷ ps) zero l h = absurd (omega arith)
sends_of-replicate (p ∷ ps) (suc n) l h =
    ap (λ s. (p, l) ∷ s) (sends_of-replicate ps n l (omega arith))

module _ (rs_encode2 : RsEncode) where
  kcp_send_func-quiet :
      (e : Encoder) (p : List ℕ)
      → (Encode.input rs_encode2 e (some p)).0 ≡ pos 0
      → kcp_send_func rs_encode2 e p ≡ (pos 0, [], (Encode.input rs_encode2 e (some p)).1)
  unfolding kcp_send_func
  kcp_send_func-quiet e p h = rw h refl

  kcp_send_func_complete :
      (e : Encoder) (p : List ℕ) (pkgs : List (Option (List ℕ))) (lengths : List ℕ)
      → (Encode.input rs_encode2 e (some p)).0 ≡ pos 1
      → (output (Encode.input rs_encode2 e (some p)).1).1 ≡ some (pkgs, lengths)
      → length pkgs ≡ length lengths
      → kcp_send_func rs_encode2 e p
        ≡ (pos 0, sends_of pkgs lengths, (output (Encode.input rs_encode2 e (some p)).1).2)
  unfolding kcp_send_func
  kcp_send_func_complete e p pkgs lengths h out same =
      let t : (length pkgs == length lengths) ≡ true = ground arith in rw (h, out, t) refl

  send_datagrams_complete :
      (ps : List (List ℕ)) (n : ℕ) (e : Encoder) (pkgs : List (Option (List ℕ))) (lengths : List ℕ)
      → (inputs rs_encode2 e ps).0 ≡ replicate n (pos 0) ++ pos 1 ∷ []
      → (output (inputs rs_encode2 e ps).1).1 ≡ some (pkgs, lengths)
      → length pkgs ≡ length lengths
      → send_datagrams rs_encode2 e ps
        ≡ (sends_of pkgs lengths, (output (inputs rs_encode2 e ps).1).2)
  unfolding send_datagrams inputs
  send_datagrams_complete [] zero e pkgs lengths h out same = absurd (omega (arith, ap length h))
  send_datagrams_complete [] (suc n) e pkgs lengths h out same = absurd (omega (arith, ap length h))
  send_datagrams_complete (p ∷ []) zero e pkgs lengths h out same =
      rw (kcp_send_func_complete e p pkgs lengths (ap head h) out same, append-nil) refl
  send_datagrams_complete (p ∷ q ∷ ps) zero e pkgs lengths h out same =
      absurd (omega (arith, ap length (ap tail h)))
  send_datagrams_complete (p ∷ ps) (suc n) e pkgs lengths h out same =
      rw (kcp_send_func-quiet e p (ap head h)) (
        send_datagrams_complete ps n (Encode.input rs_encode2 e (some p)).1 pkgs lengths (ap tail h)
          out same)

pub length-coded :
    (seq size k r i : ℕ) (ps : List (List ℕ)) → length (coded seq size k r i ps) ≡ length ps
unfolding coded
length-coded seq size k r i [] = refl
length-coded seq size k r i (p ∷ ps) = ap suc (length-coded seq size k r (i + 1) ps)

pub length-redundant_buffers :
    (seq size k r i : ℕ) (rows : List (List ℕ))
    → length (redundant_buffers seq size k r i rows) ≡ length rows
unfolding redundant_buffers
length-redundant_buffers seq size k r i [] = refl
length-redundant_buffers seq size k r i (row ∷ rows) =
    ap suc (length-redundant_buffers seq size k r (i + 1) rows)

-- A group of the engine's datagrams on their way to the user. A coder that starts a group gets, through
-- the engine's callback, as many datagrams of 1 to 65535 bytes as the group holds, and the erasure
-- code makes the redundant rows that it is asked for. The user's callback is then called exactly
-- once for each packet of the group, in order, with the packet that the coder makes and its length:
-- the datagrams behind their headers and padded to the longest, then the redundant rows behind
-- theirs. The coder starts the next group behind.
pub send_datagrams-group :
    (rs_encode2 : RsEncode) (e : Encoder) (ds : List (List ℕ))
    → e.cur_data_pkgs_num ≡ 0
    → length e.data_pkgs ≡ e.data_pkg_num + e.redundant_pkg_num
    → length e.data_pkgs_length ≡ e.data_pkg_num + e.redundant_pkg_num
    → length ds ≡ e.data_pkg_num
    → 0 < e.data_pkg_num
    → All IsPacket ds
    → length (
        rs_encode2 e.data_pkg_num
          (e.data_pkg_num + e.redundant_pkg_num)
          (map (pad (longest ds)) ds)
          (longest ds))
      ≡ e.redundant_pkg_num
    → let k = e.data_pkg_num in
      let r = e.redundant_pkg_num in
      let size = longest ds in
      let packets =
        coded e.seq size k r 0 ds
        ++ redundant_buffers e.seq size k r k (rs_encode2 k (k + r) (map (pad size) ds) size) in
      let (sends, e') = send_datagrams rs_encode2 e ds in
      (sends ≡ map (λ p. (p, size + head_length)) packets)
      × (e'.cur_data_pkgs_num ≡ 0)
      × (e'.seq ≡ next_seq e.seq)
send_datagrams-group rs_encode2 e ds start full measured whole some_data a redundant =
    let k = e.data_pkg_num in
    let r = e.redundant_pkg_num in
    let size = longest ds in
    let rows = rs_encode2 k (k + r) (map (pad size) ds) size in
    let out = inputs-output rs_encode2 e ds start full measured whole some_data a in
    let count : length (coded e.seq size k r 0 ds ++ redundant_buffers e.seq size k r k rows)
        ≡ k + r =
      omega (
        arith,
        length-append (coded e.seq size k r 0 ds) (redundant_buffers e.seq size k r k rows),
        length-coded e.seq size k r 0 ds,
        length-redundant_buffers e.seq size k r k rows,
        whole,
        redundant,
      ) in
    let same = count ∙ sym (length-replicate (k + r) (size + head_length)) in
    rw (send_datagrams_complete rs_encode2 ds (k - 1) e _ _ out.0 out.2 same)
      (sends_of-replicate _ (k + r) (size + head_length) count, out.3, out.4)
