-- ===== src/Kcp/Ack/Exact.antt =====
-- What `ikcp_parse_ack` and `ikcp_parse_una` (lib/kcp/source/ikcp.c) take out of `snd_buf`: against a
-- filter over the whole buffer, which the loops with their early exits implement.
use fec_kcp.Prelude.{
  ℕ, suc, ◌-◌, ◌^◌, ◌≤◌, ◌<◌, ◌≡◌, refl, ap, Bool, List, [], ◌∷◌, ltb, ◌==◌, arith, if◌then◌else◌,
}
use fec_kcp.Word.{sub32, after}
use fec_kcp.Word.Order.{before_lem, sub32-lt, sub32-offset, after-offset, before-offset}
use fec_kcp.Kcp.Segment.{Segment}
use fec_kcp.Kcp.State.{Sender}
use fec_kcp.Kcp.Recv.Order.{offset, Ascending}
use fec_kcp.Kcp.Ack.{not_in_flight, ack_scan, parse_ack, una_scan, parse_una}
use fec_kcp.Kcp.Ack.Order.{in_flight, IsSending}

sub32-congr : (a b nxt : ℕ) → a ≡ b → sub32 a nxt ≡ sub32 b nxt
sub32-congr a b nxt e = ap (λ n. sub32 n nxt) e

-- The segments that fail the test, in order.
unfoldable pub reject : (Segment → Bool) → List Segment → List Segment
reject test [] = []
reject test (g ∷ b) = if test g then reject test b else g ∷ reject test b

reject_none_numbered :
    (sn una w lo : ℕ) (b : List Segment)
    → sub32 sn una < lo
    → Ascending una w lo b
    → reject (λ g. sn == g.sn) b ≡ b
unfolding reject
reject_none_numbered sn una w lo [] h a = refl
reject_none_numbered sn una w lo (g ∷ b) h a = ground (
  arith,
  reject_none_numbered sn una w (suc (offset una g)) b (omega arith) a.3,
  sub32-congr sn g.sn una,
)

ack_scan-reject :
    (sn una w lo : ℕ) (b : List Segment) (n : ℕ)
    → sub32 sn una < w
    → w ≤ 2 ^ 31
    → Ascending una w lo b
    → (ack_scan sn b n).0 ≡ reject (λ g. sn == g.sn) b
unfolding ack_scan reject
ack_scan-reject sn una w lo [] n here half a = refl
ack_scan-reject sn una w lo (g ∷ b) n here half a = ground (
  arith,
  ack_scan-reject sn una w (suc (offset una g)) b n here half a.3,
  before-offset sn g.sn una (omega arith) (omega arith),
  sub32-congr sn g.sn una,
  reject_none_numbered sn una w (suc (offset una g)) b,
)

-- For a number in flight, `ikcp_parse_ack` takes out of `snd_buf` the segment with that number and no
-- other one; for a number that is not in flight it changes nothing.
pub parse_ack-reject :
    (s : Sender) (sn : ℕ)
    → IsSending s
    → (parse_ack s sn).snd_buf ≡ (
        if ltb (sub32 sn s.snd_una) (in_flight s)
        then reject (λ g. sn == g.sn) s.snd_buf
        else s.snd_buf)
unfolding parse_ack not_in_flight
parse_ack-reject s sn v = ground (
  arith,
  ack_scan-reject sn s.snd_una (in_flight s) 0 s.snd_buf s.nsnd_buf,
  before_lem sn s.snd_una,
  before_lem sn s.snd_nxt,
  sub32-lt sn s.snd_nxt,
  sub32-offset sn s.snd_nxt s.snd_una,
)

reject_none_acked :
    (una base w lo : ℕ) (b : List Segment)
    → sub32 una base ≤ lo
    → w ≤ 2 ^ 31
    → sub32 una base < 2 ^ 31
    → Ascending base w lo b
    → reject (λ g. after una g.sn) b ≡ b
unfolding reject
reject_none_acked una base w lo [] h half k a = refl
reject_none_acked una base w lo (g ∷ b) h half k a = ground (
  arith,
  reject_none_acked una base w (suc (offset base g)) b (omega arith) half k a.3,
  after-offset una g.sn base k (omega arith),
)

una_scan-reject :
    (una base w lo : ℕ) (b : List Segment) (n : ℕ)
    → sub32 una base < 2 ^ 31
    → w ≤ 2 ^ 31
    → Ascending base w lo b
    → (una_scan una b n).0 ≡ reject (λ g. after una g.sn) b
unfolding una_scan reject
una_scan-reject una base w lo [] n h half a = refl
una_scan-reject una base w lo (g ∷ b) n h half a = ground (
  arith,
  una_scan-reject una base w (suc (offset base g)) b (n - 1) h half a.3,
  after-offset una g.sn base h (omega arith),
  reject_none_acked una base w (suc (offset base g)) b,
)

-- For an acknowledgement `una` that is not behind `snd_una`, `ikcp_parse_una` takes out of `snd_buf`
-- exactly the segments in front of `una`, in the modular order.
pub parse_una-reject :
    (s : Sender) (una : ℕ)
    → IsSending s
    → sub32 una s.snd_una < 2 ^ 31
    → (parse_una s una).snd_buf ≡ reject (λ g. after una g.sn) s.snd_buf
unfolding parse_una
parse_una-reject s una v h =
    una_scan-reject una s.snd_una (in_flight s) 0 s.snd_buf s.nsnd_buf h (omega (arith, v.half))
      v.sorted
