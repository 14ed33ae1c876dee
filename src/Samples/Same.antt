-- ===== src/Samples/Same.antt =====
-- The decoding loop of samples/fec_kcp_client.cpp and samples/fec_kcp_server.cpp is the one of
-- `FecKcp::DataInput` (source/fec_kcp.cpp), but for the result.
use fec_kcp.Prelude.{ℕ, zero, suc, ◌≡◌, refl, Option, none, some, List, ℤ, pos, negsuc}
use fec_kcp.Kcp.State.{Kcp}
use fec_kcp.Kcp.Input.{input}
use fec_kcp.Fec.Decode.{Decoder, RsDecode}
use fec_kcp.Fec.Decode as Decode
use fec_kcp.Fec.Decode.Output.{Result, output}
use fec_kcp.Endpoint.{FecKcp, buffer, input_rounds, rounds, data_input}
use fec_kcp.Endpoint as Endpoint
use fec_kcp.Samples.{Next, after_input, after_output, decode_rounds, after_decode, on_packet}

-- The engine and the decoder behind a call of `DataInput`.
abbrev pub engine_of : Option (ℤ × FecKcp) → Option (Kcp × Decoder)
engine_of none = none
engine_of (some (ret, f)) = some (f.kcp, f.fec_decode)

-- The two ways to go on agree.
abbrev Agree : Next → Endpoint.Next → Type 0
Agree next next' =
    (f : FecKcp) (len ret : ℤ) → next f.kcp f.fec_decode len ≡ engine_of (next' f len ret)

after_input-engine_of :
    (next : Next) (next' : Endpoint.Next) (f : FecKcp) (d : Decoder) (m : ℕ) (o : Option (ℤ × Kcp))
    → Agree next next'
    → after_input d m next o ≡ engine_of (Endpoint.after_input f d m next' o)
unfolding after_input Endpoint.after_input
after_input-engine_of next next' f d m none same = refl
after_input-engine_of next next' f d m (some (temp, k)) same =
    same (record f { kcp = k; fec_decode = d }) (pos m) _

after_output-engine_of :
    (next : Next) (next' : Endpoint.Next) (f : FecKcp) (n : ℕ) (o : Result)
    → Agree next next'
    → after_output f.kcp n next o ≡ engine_of (Endpoint.after_output f n next' o)
unfolding after_output Endpoint.after_output
after_output-engine_of next next' f n none same = refl
after_output-engine_of next next' f n (some (negsuc e, stored, d)) same = refl
after_output-engine_of next next' f n (some (pos m, stored, d)) same =
    after_input-engine_of next next' f d m (input f.kcp (buffer stored n)) same

decode_rounds-engine_of : (fuel now : ℕ) → Agree (decode_rounds fuel now) (input_rounds fuel now)
unfolding decode_rounds input_rounds
decode_rounds-engine_of zero now f len ret = refl
decode_rounds-engine_of (suc fuel) now f (pos zero) ret = refl
decode_rounds-engine_of (suc fuel) now f (negsuc n) ret = refl
decode_rounds-engine_of (suc fuel) now f (pos (suc n)) ret =
    after_output-engine_of (decode_rounds fuel now) (input_rounds fuel now) f (suc n)
      (output now f.fec_decode (suc n)) (decode_rounds-engine_of fuel now)

after_decode-engine_of :
    (now : ℕ) (f : FecKcp) (o : Option (ℤ × Decoder))
    → after_decode now f.kcp o ≡ engine_of (Endpoint.after_decode now f o)
unfolding after_decode Endpoint.after_decode
after_decode-engine_of now f none = refl
after_decode-engine_of now f (some (len, d)) =
    decode_rounds-engine_of (rounds d) now (record f { fec_decode = d }) len (pos 0)

-- A datagram that reaches a sample is treated as by `FecKcp::DataInput`: the engine and the decoder
-- are afterwards the same, and there is a fault in the one exactly if there is one in the other, for
-- every datagram and every state of both.
pub on_packet-data_input :
    (rs_decode2 : RsDecode) (now : ℕ) (f : FecKcp) (bytes : List ℕ)
    → on_packet rs_decode2 now f.kcp f.fec_decode bytes
      ≡ engine_of (data_input rs_decode2 now f bytes)
unfolding on_packet data_input
on_packet-data_input rs_decode2 now f bytes =
    after_decode-engine_of now f (Decode.input rs_decode2 now f.fec_decode (some bytes))
