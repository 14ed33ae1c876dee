-- ===== src/Endpoint.antt =====
-- source/fec_kcp.cpp: `FecKcp`, one endpoint: the engine of lib/kcp, whose datagrams go through the
-- coder of lib/libfec to the user's callback, and whose input comes from the decoder.
pub mod Group
pub mod Rounds
pub mod Deliver
pub mod Run
pub mod Ends
pub mod Received
pub mod Transit
pub mod Life
mod Tests
use fec_kcp.Prelude.{
  ℕ, zero, suc, ◌+◌, ◌*◌, ◌%◌, not, Option, none, some, List, [], ◌∷◌, ◌++◌, length, take,
  replicate, ltb_ℤ, ◌==◌, if◌then◌else◌, ℤ, pos, negsuc,
}
use fec_kcp.Word.{word}
use fec_kcp.Kcp.State.{Kcp, create}
use fec_kcp.Kcp.Send.{send}
use fec_kcp.Kcp.Recv.{recv}
use fec_kcp.Kcp.Input.{input}
use fec_kcp.Kcp.Update.{update}
use fec_kcp.Fec.Encode.{Encoder, RsEncode}
use fec_kcp.Fec.Encode as Encode
use fec_kcp.Fec.Groups.{ready_packets}
use fec_kcp.Fec.Decode.{Decoder, RsDecode}
use fec_kcp.Fec.Decode as Decode
use fec_kcp.Fec.Decode.Output.{Result, output}

pub record FecKcp : Type 0 where
  pub kcp : Kcp
  pub fec_encode : Encoder
  pub fec_decode : Decoder

-- The constructor; `random` is what GetRandomNumberU16 returned to the coder.
unfoldable pub new : ℕ → ℕ → Option ℕ → FecKcp
new data_pkg_num redundant_pkg_num random = record {
  kcp = create 0x11112222;
  fec_encode = Encode.new data_pkg_num redundant_pkg_num 1 random;
  fec_decode = Decode.new 10000;
}

-- `UserDataSend`
unfoldable pub user_data_send : FecKcp → List ℕ → ℤ → ℤ × FecKcp
user_data_send f buf len = let (ret, k) = send f.kcp buf len in (ret, record f { kcp = k })

-- `DataOutput`
unfoldable pub data_output : FecKcp → ℤ → ℤ × List ℕ × FecKcp
data_output f len = let (ret, bytes, k) = recv f.kcp len in (ret, bytes, record f { kcp = k })

-- `FecEncodeInput`
unfoldable pub fec_encode_input : RsEncode → FecKcp → Option (List ℕ) → ℤ × FecKcp
fec_encode_input rs_encode2 f buf =
    let (ret, e) = Encode.input rs_encode2 f.fec_encode buf in (ret, record f { fec_encode = e })

-- `FecEncodeOutput`, with the vectors that it fills, or `none` if it fails.
unfoldable pub fec_encode_output : FecKcp → ℤ × Option (List (Option (List ℕ)) × List ℕ) × FecKcp
fec_encode_output f =
    let (ret, packets, e) = Encode.output f.fec_encode in
    (ret, packets, record f { fec_encode = e })

-- The calls of the user's callback: a pointer and a length each.
abbrev pub Sends : Type 0
Sends = List (Option (List ℕ) × ℕ)

unfoldable pub sends_of : List (Option (List ℕ)) → List ℕ → Sends
sends_of (p ∷ ps) (l ∷ ls) = (p, l) ∷ sends_of ps ls
sends_of _ _ = []

-- `KcpSendFunc`. What the callback returns is not looked at.
unfoldable pub kcp_send_func : RsEncode → Encoder → List ℕ → ℤ × Sends × Encoder
unfolding sends_of
kcp_send_func rs_encode2 e buf =
    let (ret, e') = Encode.input rs_encode2 e (some buf) in
    let (ret', packets, e'') = Encode.output e' in
    if ltb_ℤ ret (pos 0) then (negsuc 0, [], e') else (elim ret [
      | pos (suc zero) ↦ (elim packets [
        | none ↦ (negsuc 1, [], e'')
        | some (pkgs, lengths) ↦
            if not (length pkgs == length lengths)
            then (negsuc 2, [], e'')
            else (pos 0, sends_of pkgs lengths, e'')
      ])
      | _ ↦ (pos 0, [], e')
    ])

-- The datagrams of one flush, one call each; `ikcp_output` drops what a call returns.
unfoldable pub send_datagrams : RsEncode → Encoder → List (List ℕ) → Sends × Encoder
unfolding kcp_send_func
send_datagrams rs_encode2 e [] = ([], e)
send_datagrams rs_encode2 e (d ∷ ds) =
    let (_, now, e') = kcp_send_func rs_encode2 e d in
    let (later, e'') = send_datagrams rs_encode2 e' ds in (now ++ later, e'')

-- `FecKcpUpdate`. The calls of the callback stand behind the flush; they touch the coder only.
unfoldable pub fec_kcp_update : RsEncode → FecKcp → ℕ → Sends × FecKcp
unfolding send_datagrams
fec_kcp_update rs_encode2 f milliseconds =
    let (k, datagrams) = update f.kcp (milliseconds % word) in
    let (sends, e) = send_datagrams rs_encode2 f.fec_encode datagrams in
    (sends, record f { kcp = k; fec_encode = e })

-- The cleared buffer of `len` bytes after what `Output` has stored.
unfoldable pub buffer : Option (List ℕ) → ℕ → List ℕ
buffer none len = replicate len 0
buffer (some b) len = take len (b ++ replicate len 0)

-- How the loop of `DataInput` goes on, with the variables `len` and `ret`.
abbrev pub Next : Type 0
Next = FecKcp → ℤ → ℤ → Option (ℤ × FecKcp)

-- The round from the result of `ikcp_input` on.
unfoldable pub after_input : FecKcp → Decoder → ℕ → Next → Option (ℤ × Kcp) → Option (ℤ × FecKcp)
after_input f d m next none = none
after_input f d m next (some (temp_ret, k)) =
    next (record f { kcp = k; fec_decode = d }) (pos m)
      (if ltb_ℤ temp_ret (pos 0) then temp_ret else pos m)

-- The round from the result of `Output` into a buffer of `n` bytes on.
unfoldable pub after_output : FecKcp → ℕ → Next → Result → Option (ℤ × FecKcp)
unfolding buffer after_input
after_output f n next none = none
after_output f n next (some (negsuc e, _, d)) = some (negsuc e, record f { fec_decode = d })
after_output f n next (some (pos m, stored, d)) =
    after_input f d m next (input f.kcp (buffer stored n))

-- `while (len > 0) { … }` of `DataInput`, on fuel, with the variables `len` and `ret`.
unfoldable pub input_rounds : ℕ → ℕ → FecKcp → ℤ → ℤ → Option (ℤ × FecKcp)
unfolding after_output
input_rounds zero now f len ret = none
input_rounds (suc fuel) now f len ret = elim len [
  | pos (suc n) ↦
      after_output f (suc n) (λ f' len' ret'. input_rounds fuel now f' len' ret')
        (output now f.fec_decode (suc n))
  | _ ↦ some (ret, f)
]

-- Enough rounds for what the decoder can hand out.
unfoldable pub rounds : Decoder → ℕ
rounds d = ready_packets d.groups + 3

-- `DataInput` from the result of `Input` on.
unfoldable pub after_decode : ℕ → FecKcp → Option (ℤ × Decoder) → Option (ℤ × FecKcp)
unfolding input_rounds rounds
after_decode now f none = none
after_decode now f (some (len, d)) =
    input_rounds (rounds d) now (record f { fec_decode = d }) len (pos 0)

-- `DataInput`, where the allocations succeed. `now` is the time that the decoder reads.
unfoldable pub data_input : RsDecode → ℕ → FecKcp → List ℕ → Option (ℤ × FecKcp)
unfolding after_decode
data_input rs_decode2 now f buf =
    after_decode now f (Decode.input rs_decode2 now f.fec_decode (some buf))
