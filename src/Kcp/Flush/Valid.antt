-- ===== src/Kcp/Flush/Valid.antt =====
-- `ikcp_flush` (lib/kcp/source/ikcp.c) keeps the invariant of the control block.
use fec_kcp.Prelude.{
  ℕ, suc, ◌^◌, ◌≤◌, ◌<◌, ◌≡◌, refl, ap, Bool, List, [], ◌∷◌, length, max, All, arith, if◌then◌else◌,
  ◌==◌, Bool-cases, inl, inr,
}
use fec_kcp.Word.{imin, sub32}
use fec_kcp.Kcp.Segment.{Segment}
use fec_kcp.Kcp.State.{Kcp, Settings, Congestion}
use fec_kcp.Kcp.Send.Fragment.{Fits, body}
use fec_kcp.Kcp.Recv.Order.{offset, Ascending, Ascending-weaken}
use fec_kcp.Kcp.Ack.Order.{in_flight, IsSending}
use fec_kcp.Kcp.Flush.{
  Out, Clock, Verdict, idle, first, timeout, fast, judge, restamp, refresh, is_idle, flush_segments,
  stamp, window, update_cwnd, control_segment, flush_clock, flush_now, flush, put_segment, put_all,
  control_segments,
}
use fec_kcp.Kcp.Flush.Content.{filled, filled-Fits, flush_pass, empty_out, body-restamp}
use fec_kcp.Kcp.Flush.Window.{fill-IsSending}
use fec_kcp.Kcp.Valid.{IsValid}

pub window-small : (s : Settings) (c : Congestion) → c.rmt_wnd < 65536 → window s c < 2 ^ 31
unfolding window imin
window-small s c h = ground arith

sn-restamp :
    (c : Clock) (v : Verdict) (control g : Segment) → (refresh c control (restamp c v g)).sn ≡ g.sn
unfolding restamp refresh
sn-restamp c idle control g = refl
sn-restamp c first control g = refl
sn-restamp c timeout control g = refl
sn-restamp c fast control g = refl

-- The segment that the loop leaves in the buffer.
abbrev left_as : Clock → Segment → Segment → Segment
left_as c control g = if is_idle (judge c g) then g else refresh c control (restamp c (judge c g) g)

sn-left_as : (c : Clock) (control g : Segment) → (left_as c control g).sn ≡ g.sn
sn-left_as c control g = elim (Bool-cases (is_idle (judge c g))) [
  | inl skip ↦ rw skip
  | inr send ↦ rw send (sn-restamp c (judge c g) control g)
]

body-left_as : (c : Clock) (control g : Segment) → body (left_as c control g) ≡ body g
body-left_as c control g = elim (Bool-cases (is_idle (judge c g))) [
  | inl skip ↦ rw skip
  | inr send ↦ rw send (body-restamp c (judge c g) control g)
]

Fits-body : (mss : ℕ) (g h : Segment) → body h ≡ body g → Fits mss g → Fits mss h
Fits-body mss g h e f = (
  omega (arith, ap (λ t. t.1) e, f.0),
  omega (arith, ap (λ t. t.1) e, ap (λ t. length t.2) e, f.1),
)

-- The loop leaves numbers and bodies alone.
flush_segments-Ascending :
    (s : Settings) (c : Clock) (control : Segment) (b : List Segment) (o : Out) (una w lo : ℕ)
    → Ascending una w lo b
    → let p = flush_segments s c control b o in
      Ascending una w lo p.segments × (length p.segments ≡ length b)
unfolding flush_segments
flush_segments-Ascending s c control [] o una w lo a = (a, refl)
flush_segments-Ascending s c control (g ∷ b) o una w lo a =
    let e = sn-left_as c control g in
    let d = ap (λ n. sub32 n una) e in
    let (ih, count) =
      flush_segments-Ascending s c control b
        (if is_idle (judge c g) then o else put_segment s.mtu (left_as c control g) o) una w
        (suc (offset una g)) a.3 in
    (
      (
        omega (arith, e, a.0),
        omega (arith, d, a.1),
        omega (arith, d, a.2),
        Ascending-weaken una w _ _ _ (omega (arith, d)) ih,
      ),
      omega (arith, count),
    )

flush_segments-Fits :
    (s : Settings) (c : Clock) (control : Segment) (b : List Segment) (o : Out) (mss : ℕ)
    → All (Fits mss) b
    → All (Fits mss) (flush_segments s c control b o).segments
unfolding flush_segments
flush_segments-Fits s c control [] o mss a = tt
flush_segments-Fits s c control (g ∷ b) o mss a = (
  Fits-body mss g (left_as c control g) (body-left_as c control g) a.0,
  flush_segments-Fits s c control b _ mss a.1,
)

-- A segment on its way to the send buffer has the next number.
sn-stamp :
    (control : Segment) (current una rto n : ℕ) (g : Segment)
    → (stamp control current una n rto g).sn ≡ n
unfolding stamp
sn-stamp control current una rto n g = refl

update_cwnd-remote :
    (mss window inflight resent : ℕ) (change lost : Bool) (c : Congestion)
    → (update_cwnd mss window inflight resent change lost c).rmt_wnd ≡ c.rmt_wnd
unfolding update_cwnd
update_cwnd-remote mss window inflight resent change lost c = ground arith

filled-IsSending :
    (start : ℕ) (k : Kcp)
    → IsValid start k
    → IsSending (filled k) × (in_flight (filled k) ≤ max (in_flight k.snd) (window k.conf k.cong))
filled-IsSending start k v =
    fill-IsSending _ (window k.conf k.cong) (window-small k.conf k.cong v.remote)
      (λ n g. sn-stamp (control_segment k) k.timer.current k.rcv.rcv_nxt k.rtt.rx_rto n g) k.snd
      v.sending

flush_now-IsValid : (start : ℕ) (k : Kcp) → IsValid start k → IsValid start (flush_now k).0
unfolding flush_now
flush_now-IsValid start k v =
    let (sending, _) = filled-IsSending start k v in
    let (queued, buffered) = filled-Fits start k v in
    let (sorted, count) =
      flush_segments-Ascending k.conf (flush_clock k) (control_segment k) (filled k).snd_buf
        (put_all k.conf.mtu (control_segments k) empty_out) (filled k).snd_una
        (in_flight (filled k)) 0 sending.sorted in
    record {
      sending = record {
        una = sending.una;
        nxt = sending.nxt;
        half = sending.half;
        sorted = sorted;
        count_buf = omega (arith, count, sending.count_buf);
      };
      receiving = v.receiving;
      acks = record { inside = omega arith; stored = omega arith };
      timed = v.timed;
      size = v.size;
      remote = omega (
        arith,
        update_cwnd-remote k.conf.mss (window k.conf k.cong) (in_flight (filled k))
            (flush_clock k).resent (flush_pass k).change (flush_pass k).lost k.cong,
        v.remote,
      );
      queued = queued;
      buffered =
          flush_segments-Fits k.conf (flush_clock k) (control_segment k) (filled k).snd_buf _
            k.conf.mss buffered;
    }

-- `ikcp_flush` keeps the invariant of the control block, and leaves no more segments in flight than
-- the window allows, or than there were before.
pub flush-IsValid :
    (start : ℕ) (k : Kcp)
    → IsValid start k
    → IsValid start (flush k).0
      × (in_flight (flush k).0.snd ≤ max (in_flight k.snd) (window k.conf k.cong))
unfolding flush
flush-IsValid start k v = elim (Bool-cases (k.timer.updated == 0)) [
  | inl still ↦ rw still (v, omega arith)
  | inr started ↦
      rw started (flush_now-IsValid start k v, unfold flush_now in (filled-IsSending start k v).1)
]
