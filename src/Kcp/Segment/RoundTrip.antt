-- ===== src/Kcp/Segment/RoundTrip.antt =====
-- The segment header on the wire (lib/kcp/source/ikcp.c): what `ikcp_encode_seg` writes, the
-- decoders of `ikcp_input` read back.
use fec_kcp.Prelude.{ℕ, ◌+◌, ◌*◌, ◌/◌, ◌%◌, ◌<◌, ◌≡◌, refl, some, List, ◌++◌, length, arith}
use fec_kcp.Word.{word}
use fec_kcp.Kcp.Segment.{Segment, Header, encode_seg, decode_header, overhead}

-- Every field fits in the width that it has on the wire.
pub record IsWire (s : Segment) : Type 0 where
  pub conv : s.conv < word
  pub cmd : s.cmd < 256
  pub frg : s.frg < 256
  pub wnd : s.wnd < 65536
  pub ts : s.ts < word
  pub sn : s.sn < word
  pub una : s.una < word
  pub len : s.len < word

unfoldable pub header_of : Segment → Header
header_of s = record {
  conv = s.conv;
  cmd = s.cmd;
  frg = s.frg;
  wnd = s.wnd;
  ts = s.ts;
  sn = s.sn;
  una = s.una;
  len = s.len;
}

-- The bytes of a number, put together again.
le16 : {w : ℕ} → w < 65536 → w % 256 + 256 * (w / 256 % 256) ≡ w
le16 h = omega arith

le32 :
    {l : ℕ}
    → l < word
    → l % 256 + 256 * (l / 256 % 256) + 65536 * (l / 65536 % 256) + 16777216 * (l / 16777216 % 256)
      ≡ l
le32 h = omega arith

le8 : {c : ℕ} → c < 256 → c % 256 ≡ c
le8 h = omega arith

-- Decoding the encoding of a segment whose fields fit the wire gives its header, and leaves exactly
-- the bytes that follow it.
pub decode_header-encode_seg :
    (s : Segment) (rest : List ℕ)
    → IsWire s
    → decode_header (encode_seg s ++ rest) ≡ some (header_of s, rest)
unfolding decode_header encode_seg header_of
decode_header-encode_seg s rest w = λ i. some (
  record {
    conv = le32 w.conv i;
    cmd = le8 w.cmd i;
    frg = le8 w.frg i;
    wnd = le16 w.wnd i;
    ts = le32 w.ts i;
    sn = le32 w.sn i;
    una = le32 w.una i;
    len = le32 w.len i;
  },
  rest,
)

pub length-encode_seg : (s : Segment) → length (encode_seg s) ≡ overhead
unfolding encode_seg
length-encode_seg s = refl
