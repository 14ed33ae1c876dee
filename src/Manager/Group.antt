-- ===== src/Manager/Group.antt =====
-- `FecEncodeManager::Input` (source/fec_manager.cpp) on the packets of a whole group.
use fec_kcp.Prelude.{
  length-map, ℕ, zero, suc, ◌+◌, ◌-◌, ◌<◌, ◌≡◌, refl, ap, ◌∙◌, sym, subst, true, false, Option,
  none, some, List, [], ◌∷◌, ◌++◌, append-nil, map, length, length-append, length-replicate,
  replicate, All, ◌==◌, ℤ, pos, arith,
}
use fec_kcp.Fec.Encode.{Encoder, RsEncode, output, pad, redundant_buffers, next_seq, head_length}
use fec_kcp.Fec.Encode as Encode
use fec_kcp.Fec.Encode.Gather.{coded, longest}
use fec_kcp.Fec.Encode.Group.{IsPacket, inputs, inputs-output}
use fec_kcp.Endpoint.{Sends, sends_of}
use fec_kcp.Endpoint.Group.{head, tail, sends_of-replicate, length-coded, length-redundant_buffers}
use fec_kcp.Manager.{send_all, input}
use fec_kcp.Manager.Flush.{fails, send_all-succeeds}

-- `Input` for each of the packets: the results, and what is sent.
unfoldable pub send_inputs :
    RsEncode → (ℕ → ℤ) → Encoder → List (List ℕ) → List (Option ℤ) × Sends × Encoder
send_inputs rs_encode2 sent e [] = ([], [], e)
send_inputs rs_encode2 sent e (p ∷ ps) =
    let (result, now, e') = input rs_encode2 sent e p in
    let (results, later, e'') = send_inputs rs_encode2 sent e' ps in
    (result ∷ results, now ++ later, e'')

module _ (rs_encode2 : RsEncode) (sent : ℕ → ℤ) where
  input_quiet :
      (e : Encoder) (p : List ℕ)
      → (Encode.input rs_encode2 e (some p)).0 ≡ pos 0
      → input rs_encode2 sent e p ≡ (none, [], (Encode.input rs_encode2 e (some p)).1)
  unfolding input
  input_quiet e p h = rw h refl

  input_complete :
      (e : Encoder) (p : List ℕ) (pkgs : List (Option (List ℕ))) (lengths : List ℕ)
      → (Encode.input rs_encode2 e (some p)).0 ≡ pos 1
      → (output (Encode.input rs_encode2 e (some p)).1).1 ≡ some (pkgs, lengths)
      → length pkgs ≡ length lengths
      → send_all sent 0 (sends_of pkgs lengths) ≡ (sends_of pkgs lengths, true)
      → input rs_encode2 sent e p
        ≡ (none, sends_of pkgs lengths, (output (Encode.input rs_encode2 e (some p)).1).2)
  unfolding input
  input_complete e p pkgs lengths h out same all =
      let t : (length pkgs == length lengths) ≡ true = ground arith in rw (h, out, t, all) refl

  send_inputs_complete :
      (ps : List (List ℕ)) (n : ℕ) (e : Encoder) (pkgs : List (Option (List ℕ))) (lengths : List ℕ)
      → (inputs rs_encode2 e ps).0 ≡ replicate n (pos 0) ++ pos 1 ∷ []
      → (output (inputs rs_encode2 e ps).1).1 ≡ some (pkgs, lengths)
      → length pkgs ≡ length lengths
      → send_all sent 0 (sends_of pkgs lengths) ≡ (sends_of pkgs lengths, true)
      → send_inputs rs_encode2 sent e ps
        ≡ (replicate (length ps) none, sends_of pkgs lengths, (output (inputs rs_encode2 e ps).1).2)
  unfolding send_inputs inputs
  send_inputs_complete [] zero e pkgs lengths h out same all = absurd (omega (arith, ap length h))
  send_inputs_complete [] (suc n) e pkgs lengths h out same all =
      absurd (omega (arith, ap length h))
  send_inputs_complete (p ∷ []) zero e pkgs lengths h out same all =
      rw (input_complete e p pkgs lengths (ap head h) out same all, append-nil) refl
  send_inputs_complete (p ∷ q ∷ ps) zero e pkgs lengths h out same all =
      absurd (omega (arith, ap length (ap tail h)))
  send_inputs_complete (p ∷ ps) (suc n) e pkgs lengths h out same all =
      rw
        (
          input_quiet e p (ap head h),
          send_inputs_complete ps n (Encode.input rs_encode2 e (some p)).1 pkgs lengths (ap tail h)
              out same all,
        )
        refl

-- A group of packets through `Input`. A coder that starts a group gets as many packets of 1 to 65535 bytes
-- as the group holds, the erasure code makes the redundant rows that it is asked for, and each packet of
-- the group can be sent. Then exactly the packets that the coder makes are sent, in order and with their
-- lengths: the data behind their headers and padded to the longest, then the redundant rows behind
-- theirs. The next packet starts a group. `Input` ends without a result each time.
pub send_inputs-group :
    (rs_encode2 : RsEncode) (sent : ℕ → ℤ) (e : Encoder) (ps : List (List ℕ))
    → e.cur_data_pkgs_num ≡ 0
    → length e.data_pkgs ≡ e.data_pkg_num + e.redundant_pkg_num
    → length e.data_pkgs_length ≡ e.data_pkg_num + e.redundant_pkg_num
    → length ps ≡ e.data_pkg_num
    → 0 < e.data_pkg_num
    → All IsPacket ps
    → length (
        rs_encode2 e.data_pkg_num
          (e.data_pkg_num + e.redundant_pkg_num)
          (map (pad (longest ps)) ps)
          (longest ps))
      ≡ e.redundant_pkg_num
    → ((m : ℕ) → m < e.data_pkg_num + e.redundant_pkg_num → fails sent m ≡ false)
    → let k = e.data_pkg_num in
      let r = e.redundant_pkg_num in
      let size = longest ps in
      let packets =
        coded e.seq size k r 0 ps
        ++ redundant_buffers e.seq size k r k (rs_encode2 k (k + r) (map (pad size) ps) size) in
      let (results, sends, e') = send_inputs rs_encode2 sent e ps in
      (results ≡ replicate k none)
      × (sends ≡ map (λ p. (p, size + head_length)) packets)
      × (e'.cur_data_pkgs_num ≡ 0)
      × (e'.seq ≡ next_seq e.seq)
send_inputs-group rs_encode2 sent e ps start full measured whole some_data a redundant ok =
    let k = e.data_pkg_num in
    let r = e.redundant_pkg_num in
    let size = longest ps in
    let rows = rs_encode2 k (k + r) (map (pad size) ps) size in
    let packets = coded e.seq size k r 0 ps ++ redundant_buffers e.seq size k r k rows in
    let out = inputs-output rs_encode2 e ps start full measured whole some_data a in
    let count : length packets ≡ k + r = omega (
      arith,
      length-append (coded e.seq size k r 0 ps) (redundant_buffers e.seq size k r k rows),
      length-coded e.seq size k r 0 ps,
      length-redundant_buffers e.seq size k r k rows,
      whole,
      redundant,
    ) in
    let same = count ∙ sym (length-replicate (k + r) (size + head_length)) in
    let sends : sends_of packets (replicate (k + r) (size + head_length))
        ≡ map (λ p. (p, size + head_length)) packets =
      sends_of-replicate packets (k + r) (size + head_length) count in
    let as_many =
      ap (length {A = Option (List ℕ) × ℕ}) sends
      ∙ length-map (λ (p : Option (List ℕ)). (p, size + head_length)) packets in
    let all =
      send_all-succeeds sent (sends_of packets (replicate (k + r) (size + head_length))) 0 (λ m h.
        subst (λ n. fails sent n ≡ false) (omega arith)
          (ok m (omega (arith, h, as_many, count)))) in
    rw (send_inputs_complete rs_encode2 sent ps (k - 1) e _ _ out.0 out.2 same all)
      (ap (λ n. replicate n none) whole, sends, out.3, out.4)
