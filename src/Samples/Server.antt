-- ===== src/Samples/Server.antt =====
-- samples/fec_kcp_server.cpp: the event loop. The local socket carries coded packets, the remote one the
-- user's data.
use fec_kcp.Prelude.{
  ℕ, zero, suc, ◌+◌, Option, none, some, List, [], ◌∷◌, length, ltb_ℤ, if◌then◌else◌, ℤ, pos,
}
use fec_kcp.Kcp.State.{Kcp}
use fec_kcp.Kcp.Send.{send}
use fec_kcp.Kcp.Recv.{recv}
use fec_kcp.Fec.Encode.{RsEncode}
use fec_kcp.Fec.Decode.{RsDecode}
use fec_kcp.Endpoint.{Sends}
use fec_kcp.Samples.{Peer, recv_buf_size, on_packet, on_timer, recv_rounds}

-- What `epoll_wait` reports, as in the client; `forwarded` is what the sends to the remote return.
pub data Event : Type 0 where
  remote_readable : Option (List ℕ) → Event
  local_readable : (now : ℕ) → Option (ℕ × List ℕ) → Event
  timer : (sent : ℕ → ℕ → ℤ) → (forwarded : ℕ → ℤ) → (millisec : ℕ) → Event

-- `while (temp_ret > 0) { … }` from the i-th send on, on fuel: what is sent to the remote.
unfoldable pub forward : (ℕ → ℤ) → ℕ → ℕ → Kcp → List (List ℕ) × Kcp
forward forwarded i zero k = ([], k)
forward forwarded i (suc fuel) k =
    let (temp_ret, bytes, k') = recv k (pos recv_buf_size) in
    let (more, k'') = forward forwarded (i + 1) fuel k' in
    if ltb_ℤ (pos 0) temp_ret
    then (if ltb_ℤ (forwarded i) (pos 0) then (bytes ∷ [], k') else (bytes ∷ more, k''))
    else ([], k')

-- One turn of the loop: what goes to the peer's address and to the remote, and the variables. The address
-- is that of the last datagram, or a cleared one behind an error.
unfoldable pub step :
    RsEncode → RsDecode → Peer → Event → Option ((ℕ × Sends) × List (List ℕ) × Peer)
unfolding on_packet on_timer forward recv_rounds
step rs_encode2 rs_decode2 p (remote_readable none) = some ((p.address, []), [], p)
step rs_encode2 rs_decode2 p (remote_readable (some bytes)) =
    let (_, k) = send p.kcp bytes (pos (length bytes)) in
    some ((p.address, []), [], record p { kcp = k })
step rs_encode2 rs_decode2 p (local_readable now none) =
    some ((0, []), [], record p { address = 0 })
step rs_encode2 rs_decode2 p (local_readable now (some (address, bytes))) =
    elim (on_packet rs_decode2 now p.kcp p.fec_decoder bytes) [
      | none ↦ none
      | some (k, d) ↦
          some ((address, []), [], record p { kcp = k; fec_decoder = d; address = address })
    ]
step rs_encode2 rs_decode2 p (timer sent forwarded millisec) =
    let (sends, p') = on_timer rs_encode2 sent p millisec in
    let (given, k) = forward forwarded 0 (recv_rounds p'.kcp) p'.kcp in
    some ((p.address, sends), given, record p' { kcp = k })
