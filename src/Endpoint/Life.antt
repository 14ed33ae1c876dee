-- ===== src/Endpoint/Life.antt =====
-- `FecKcp` (source/fec_kcp.cpp) over its life: every call keeps the engine and the decoder well-formed.
use fec_kcp.Prelude.{ℕ, ◌%◌, ◌≤◌, ◌≡◌, subst, Option, some, List, All, length, ℤ, pos_part}
use fec_kcp.Word.{word}
use fec_kcp.Kcp.Segment.Bytes.{IsByte}
use fec_kcp.Kcp.Valid.{create-IsValid}
use fec_kcp.Kcp.Life.{send-IsValid, recv-IsValid, update-IsValid}
use fec_kcp.Fec.Encode.{RsEncode}
use fec_kcp.Fec.Decode.{RsDecode}
use fec_kcp.Fec.Decode.Sound.{WritesBytes, new-Sound}
use fec_kcp.Endpoint.{
  FecKcp, new, user_data_send, data_output, fec_kcp_update, data_input, fec_encode_input,
  fec_encode_output,
}
use fec_kcp.Endpoint.Ends.{IsWell, Left, data_input-Left}

module _ (rs_decode2 : RsDecode) (writes : WritesBytes rs_decode2) where
  -- One call of a public function, with what comes from outside: the bytes to send and a length that does
  -- not pass them or is negative, the room to receive into, negative to peek, the datagram with the time that
  -- the decoder reads, the time, or a packet for the coder, `none` for a null pointer.
  pub data Step (rs_encode2 : RsEncode) (f : FecKcp) : FecKcp → Type 0 where
    sends :
        (buf : List ℕ) (len : ℤ)
        → pos_part len ≤ length buf
        → Step rs_encode2 f (user_data_send f buf len).1
    receives : (size : ℤ) → Step rs_encode2 f (data_output f size).2
    inputs :
        (now : ℕ) (buf : List ℕ) {ret : ℤ} {f' : FecKcp}
        → All IsByte buf
        → data_input rs_decode2 now f buf ≡ some (ret, f')
        → Step rs_encode2 f f'
    updates : (milliseconds : ℕ) → Step rs_encode2 f (fec_kcp_update rs_encode2 f milliseconds).1
    encodes : (buf : Option (List ℕ)) → Step rs_encode2 f (fec_encode_input rs_encode2 f buf).1
    outputs : Step rs_encode2 f (fec_encode_output f).2

  -- Any number of calls.
  pub data Reach (rs_encode2 : RsEncode) (f : FecKcp) : FecKcp → Type 0 where
    here : Reach rs_encode2 f f
    next :
        {f' f'' : FecKcp} → Reach rs_encode2 f f' → Step rs_encode2 f' f'' → Reach rs_encode2 f f''

  Step-IsWell :
      (rs_encode2 : RsEncode) {f f' : FecKcp} → Step rs_encode2 f f' → IsWell f → IsWell f'
  unfolding user_data_send data_output fec_kcp_update fec_encode_input fec_encode_output
  Step-IsWell rs_encode2 {f} (sends buf len h) w = record {
    start = w.start;
    engine = send-IsValid w.start f.kcp buf len h w.engine;
    decoder = w.decoder;
  }
  Step-IsWell rs_encode2 {f} (receives size) w =
      let (start, v) = recv-IsValid w.start f.kcp size w.engine in
      record { start = start; engine = v; decoder = w.decoder }
  Step-IsWell rs_encode2 {f} (inputs now buf b e) w =
      subst Left e (data_input-Left rs_decode2 writes now f buf b w).1
  Step-IsWell rs_encode2 {f} (updates milliseconds) w = record {
    start = w.start;
    engine = update-IsValid w.start f.kcp (milliseconds % word) w.engine;
    decoder = w.decoder;
  }
  Step-IsWell rs_encode2 (encodes buf) w = record {
    start = w.start;
    engine = w.engine;
    decoder = w.decoder;
  }
  Step-IsWell rs_encode2 outputs w = record {
    start = w.start;
    engine = w.engine;
    decoder = w.decoder;
  }

  -- From the constructor on, after any calls of `UserDataSend` with a buffer at least as long as the length
  -- given, which may be negative, of `DataOutput` with any size, a negative one included, of `DataInput`
  -- without a fault on any datagrams of bytes, of `FecKcpUpdate` at any times, of `FecEncodeInput` with any
  -- packet and of `FecEncodeOutput`, an endpoint is well-formed: its engine satisfies the invariant of the
  -- control block, the keys of the decoder's maps ascend, and what the decoder holds are bytes. The packets
  -- that the erasure code recovers are taken to consist of bytes.
  pub Reach-IsWell :
      (rs_encode2 : RsEncode) (data_pkg_num redundant_pkg_num : ℕ) (random : Option ℕ) {f : FecKcp}
      → Reach rs_encode2 (new data_pkg_num redundant_pkg_num random) f
      → IsWell f
  unfolding new
  Reach-IsWell rs_encode2 data_pkg_num redundant_pkg_num random here = record {
    start = 0;
    engine = create-IsValid _;
    decoder = new-Sound 10000;
  }
  Reach-IsWell rs_encode2 data_pkg_num redundant_pkg_num random (next r s) =
      Step-IsWell rs_encode2 s (Reach-IsWell rs_encode2 data_pkg_num redundant_pkg_num random r)
