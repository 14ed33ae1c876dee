-- ===== src/Kcp/Segment.antt =====
-- lib/kcp/source/ikcp.c: the integer codec (`ikcp_encode8u` to `ikcp_decode32u`), `IKCPSEG`,
-- `ikcp_encode_seg` and the header part of `ikcp_input`'s loop. Buffers are lists of bytes; on the
-- targets of the build the stores are little-endian, as the portable branch writes them out.
pub mod RoundTrip
pub mod Bytes
use fec_kcp.Prelude.{
  ℕ, ◌+◌, ◌*◌, ◌/◌, ◌%◌, Option, none, some, List, [], ◌∷◌, ◌++◌, length, if◌then◌else◌,
}

-- The commands and sizes of the wire format.
abbrev pub cmd_push : ℕ
cmd_push = 81

abbrev pub cmd_ack : ℕ
cmd_ack = 82

abbrev pub cmd_wask : ℕ
cmd_wask = 83

abbrev pub cmd_wins : ℕ
cmd_wins = 84

abbrev pub overhead : ℕ
overhead = 24

-- `struct IKCPSEG`, without the list node: a queue is a list of segments.
pub record Segment : Type 0 where
  pub conv : ℕ
  pub cmd : ℕ
  pub frg : ℕ
  pub wnd : ℕ
  pub ts : ℕ
  pub sn : ℕ
  pub una : ℕ
  pub len : ℕ
  pub resendts : ℕ
  pub rto : ℕ
  pub fastack : ℕ
  pub xmit : ℕ
  pub payload : List ℕ

-- Each encoder returns the bytes that it stores at `p`.
unfoldable pub encode8u : ℕ → List ℕ
encode8u c = (c % 256) ∷ []

unfoldable pub encode16u : ℕ → List ℕ
encode16u w = (w % 256) ∷ (w / 256 % 256) ∷ []

unfoldable pub encode32u : ℕ → List ℕ
encode32u l = (l % 256) ∷ (l / 256 % 256) ∷ (l / 65536 % 256) ∷ (l / 16777216 % 256) ∷ []

-- Each decoder returns the value and the advanced pointer; `none` is a read past the buffer.
unfoldable pub decode8u : List ℕ → Option (ℕ × List ℕ)
decode8u [] = none
decode8u (a ∷ r) = some (a, r)

unfoldable pub decode16u : List ℕ → Option (ℕ × List ℕ)
decode16u (a ∷ b ∷ r) = some (a + 256 * b, r)
decode16u _ = none

unfoldable pub decode32u : List ℕ → Option (ℕ × List ℕ)
decode32u (a ∷ b ∷ c ∷ d ∷ r) = some (a + 256 * b + 65536 * c + 16777216 * d, r)
decode32u _ = none

-- `ikcp_encode_seg`: the casts to IUINT8 and IUINT16 are those of the encoders.
unfoldable pub encode_seg : Segment → List ℕ
unfolding encode8u encode16u encode32u
encode_seg s =
    encode32u s.conv
    ++ (encode8u s.cmd
        ++ (encode8u s.frg
            ++ (encode16u s.wnd
                ++ (encode32u s.ts ++ (encode32u s.sn ++ (encode32u s.una ++ encode32u s.len))))))

-- The fields that the loop of `ikcp_input` reads.
pub record Header : Type 0 where
  pub conv : ℕ
  pub cmd : ℕ
  pub frg : ℕ
  pub wnd : ℕ
  pub ts : ℕ
  pub sn : ℕ
  pub una : ℕ
  pub len : ℕ

infixl 5 ◌>>=◌
abbrev ◌>>=◌ {ℓ κ} : {A : Type ℓ} {B : Type κ} → Option A → (A → Option B) → Option B
none >>= f = none
some a >>= f = f a

-- The run of decoders at the top of the loop body.
unfoldable pub decode_header : List ℕ → Option (Header × List ℕ)
unfolding decode8u decode16u decode32u
decode_header p₀ = do
  (conv, p₁) ← decode32u p₀
  (cmd, p₂) ← decode8u p₁
  (frg, p₃) ← decode8u p₂
  (wnd, p₄) ← decode16u p₃
  (ts, p₅) ← decode32u p₄
  (sn, p₆) ← decode32u p₅
  (una, p₇) ← decode32u p₆
  (len, p₈) ← decode32u p₇
  some (
    record { conv = conv; cmd = cmd; frg = frg; wnd = wnd; ts = ts; sn = sn; una = una; len = len },
    p₈,
  )

-- `ikcp_getconv`
unfoldable pub getconv : List ℕ → Option ℕ
unfolding decode32u
getconv p = do (conv, _) ← decode32u p; some conv
