-- ===== src/Samples.antt =====
-- samples/fec_kcp_client.cpp and samples/fec_kcp_server.cpp: what their event loops have in common. Each
-- wires the engine, the coder behind a FecEncodeManager and the decoder to two sockets and a timer by
-- hand. The log and the allocation failures are left out.
pub mod Client
pub mod Server
pub mod Same
pub mod Forward
pub mod Ends
pub mod Life
pub mod Main
mod Tests
use fec_kcp.Prelude.{
  ℕ, zero, suc, ◌+◌, ◌%◌, Option, none, some, List, [], ◌∷◌, ◌++◌, length, if◌then◌else◌, ltb_ℤ, ℤ,
  pos, negsuc,
}
use fec_kcp.Word.{word}
use fec_kcp.Kcp.State.{Kcp, create}
use fec_kcp.Kcp.Recv.{recv}
use fec_kcp.Kcp.Input.{input}
use fec_kcp.Kcp.Update.{update}
use fec_kcp.Fec.Encode.{Encoder, RsEncode, update_time}
use fec_kcp.Fec.Encode as Encode
use fec_kcp.Fec.Decode.{Decoder, RsDecode}
use fec_kcp.Fec.Decode as Decode
use fec_kcp.Fec.Decode.Output.{Result, output}
use fec_kcp.Endpoint.{Sends, buffer, rounds}
use fec_kcp.Manager.{flush_unencoded_data}
use fec_kcp.Manager as Manager

-- The variables of `run`. An address is a number; `address` is that of `local_client` in the client and
-- `sp_conn->addr_` in the server, 0 for a cleared one.
pub record Peer : Type 0 where
  pub kcp : Kcp
  pub fec_encode : Encoder
  pub fec_decoder : Decoder
  pub address : ℕ

-- The start of `run`; `random` is what GetRandomNumberU16 returned to the coder.
unfoldable pub start : Option ℕ → Peer
start random = record {
  kcp = create 0x11111111;
  fec_encode = Encode.new 2 1 5 random;
  fec_decoder = Decode.new 10000;
  address = 0;
}

-- `sizeof(recv_buf)`
abbrev pub recv_buf_size : ℕ
recv_buf_size = 2048

-- How the decoding loop goes on with the variable `len`.
abbrev pub Next : Type 0
Next = Kcp → Decoder → ℤ → Option (Kcp × Decoder)

-- A round of the decoding loop from the result of `ikcp_input` on, which is logged only.
unfoldable pub after_input : Decoder → ℕ → Next → Option (ℤ × Kcp) → Option (Kcp × Decoder)
after_input d m next none = none
after_input d m next (some (temp, k)) = next k d (pos m)

-- A round from the result of `Output` into a buffer of `n` bytes on.
unfoldable pub after_output : Kcp → ℕ → Next → Result → Option (Kcp × Decoder)
unfolding after_input
after_output k n next none = none
after_output k n next (some (negsuc e, _, d)) = some (k, d)
after_output k n next (some (pos m, stored, d)) = after_input d m next (input k (buffer stored n))

-- `while (len > 0) { … }`, on fuel.
unfoldable pub decode_rounds : ℕ → ℕ → Kcp → Decoder → ℤ → Option (Kcp × Decoder)
unfolding after_output
decode_rounds zero now k d len = none
decode_rounds (suc fuel) now k d len = elim len [
  | pos (suc n) ↦
      after_output k (suc n) (λ k' d' len'. decode_rounds fuel now k' d' len')
        (output now d (suc n))
  | _ ↦ some (k, d)
]

unfoldable pub after_decode : ℕ → Kcp → Option (ℤ × Decoder) → Option (Kcp × Decoder)
unfolding decode_rounds
after_decode now k none = none
after_decode now k (some (len, d)) = decode_rounds (rounds d) now k d len

-- A datagram from the other peer.
unfoldable pub on_packet : RsDecode → ℕ → Kcp → Decoder → List ℕ → Option (Kcp × Decoder)
unfolding after_decode
on_packet rs_decode2 now k d bytes = after_decode now k (Decode.input rs_decode2 now d (some bytes))

-- `udpout` for each datagram of a flush; `sent j` says what the sends of the j-th return.
unfoldable pub udpout_all : RsEncode → (ℕ → ℕ → ℤ) → ℕ → Encoder → List (List ℕ) → Sends × Encoder
udpout_all rs_encode2 sent j e [] = ([], e)
udpout_all rs_encode2 sent j e (b ∷ bs) =
    let (_, now, e') = Manager.input rs_encode2 (sent j) e b in
    let (later, e'') = udpout_all rs_encode2 sent (j + 1) e' bs in (now ++ later, e'')

-- The first half of the timer's branch: `ikcp_update`, `FecEncodeUpdateTime` and, where that says so,
-- `FlushUnEncodedData`, whose sends return what `sent` says of the datagram behind the last.
unfoldable pub on_timer : RsEncode → (ℕ → ℕ → ℤ) → Peer → ℕ → Sends × Peer
unfolding udpout_all
on_timer rs_encode2 sent p millisec =
    let (k, datagrams) = update p.kcp (millisec % word) in
    let (sends, e) = udpout_all rs_encode2 sent 0 p.fec_encode datagrams in
    let (temp_ret, e') = update_time e millisec in
    let (_, flushed, e'') = flush_unencoded_data (sent (length datagrams)) e' in
    if ltb_ℤ (pos 0) temp_ret
    then (sends ++ flushed, record p { kcp = k; fec_encode = e'' })
    else (sends, record p { kcp = k; fec_encode = e' })

-- The rounds that the receiving loop can make: each but the last takes a segment off.
unfoldable pub recv_rounds : Kcp → ℕ
recv_rounds k = length k.rcv.rcv_queue + length k.rcv.rcv_buf + 1
