-- ===== src/Samples/Client.antt =====
-- samples/fec_kcp_client.cpp: the event loop. The remote socket carries coded packets, the local one the
-- user's data.
use fec_kcp.Prelude.{
  ℕ, zero, suc, Option, none, some, List, [], ◌∷◌, length, ltb_ℤ, if◌then◌else◌, ℤ, pos,
}
use fec_kcp.Kcp.State.{Kcp}
use fec_kcp.Kcp.Send.{send}
use fec_kcp.Kcp.Recv.{recv}
use fec_kcp.Fec.Encode.{RsEncode}
use fec_kcp.Fec.Decode.{RsDecode}
use fec_kcp.Endpoint.{Sends}
use fec_kcp.Samples.{Peer, recv_buf_size, on_packet, on_timer, recv_rounds}

-- What `epoll_wait` reports, with what `recv`, `recvfrom` or `get_milliseconds` gives then; `none` is an
-- error. `now` is the time that the decoder reads, and `sent` what the sends return.
pub data Event : Type 0 where
  remote_readable : (now : ℕ) → Option (List ℕ) → Event
  local_readable : Option (ℕ × List ℕ) → Event
  timer : (sent : ℕ → ℕ → ℤ) → (millisec : ℕ) → Event

-- The calls of `sendto` to the local client: the bytes that were received and the length argument.
abbrev pub Given : Type 0
Given = List (List ℕ × ℤ)

-- `while (temp_ret > 0) { … }`, on fuel. The last result is given to `sendto` too.
unfoldable pub forward : ℕ → Kcp → Given × Kcp
forward zero k = ([], k)
forward (suc fuel) k =
    let (temp_ret, bytes, k') = recv k (pos recv_buf_size) in
    let (more, k'') = forward fuel k' in
    if ltb_ℤ (pos 0) temp_ret then ((bytes, temp_ret) ∷ more, k'') else ((bytes, temp_ret) ∷ [], k')

-- One turn of the loop: what goes to the remote socket and to the local client, and the variables.
unfoldable pub step : RsEncode → RsDecode → Peer → Event → Option (Sends × Given × Peer)
unfolding on_packet on_timer forward recv_rounds
step rs_encode2 rs_decode2 p (remote_readable now none) = some ([], [], p)
step rs_encode2 rs_decode2 p (remote_readable now (some bytes)) =
    elim (on_packet rs_decode2 now p.kcp p.fec_decoder bytes) [
      | none ↦ none
      | some (k, d) ↦ some ([], [], record p { kcp = k; fec_decoder = d })
    ]
step rs_encode2 rs_decode2 p (local_readable none) = some ([], [], p)
step rs_encode2 rs_decode2 p (local_readable (some (address, bytes))) =
    let (_, k) = send p.kcp bytes (pos (length bytes)) in
    some ([], [], record p { kcp = k; address = address })
step rs_encode2 rs_decode2 p (timer sent millisec) =
    let (sends, p') = on_timer rs_encode2 sent p millisec in
    let (given, k) = forward (recv_rounds p'.kcp) p'.kcp in
    some (sends, given, record p' { kcp = k })
