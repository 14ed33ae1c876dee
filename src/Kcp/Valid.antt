-- ===== src/Kcp/Valid.antt =====
-- The invariant of the whole control block of lib/kcp (`struct IKCPCB`).
use fec_kcp.Prelude.{ℕ, ◌+◌, ◌≤◌, ◌<◌, ◌≡◌, refl, All, arith}
use fec_kcp.Word.Order.{sub32_self}
use fec_kcp.Kcp.Segment.{overhead}
use fec_kcp.Kcp.State.{Kcp, Rtt, rto_max, create}
use fec_kcp.Kcp.Send.Fragment.{Fits}
use fec_kcp.Kcp.Recv.Order.{IsOrdered}
use fec_kcp.Kcp.Ack.Order.{IsSending}
use fec_kcp.Kcp.Ack.Bounds.{IsRoomy}

-- The timeout stays within a minute.
pub record IsTimed (r : Rtt) : Type 0 where
  pub minrto : r.rx_minrto ≤ rto_max
  pub rto : r.rx_rto ≤ rto_max

-- `start` is the first sequence number of `rcv_queue`.
pub record IsValid (start : ℕ) (k : Kcp) : Type 0 where
  pub sending : IsSending k.snd
  pub receiving : IsOrdered start k.rcv
  pub acks : IsRoomy k.acks
  pub timed : IsTimed k.rtt
  pub size : k.conf.mtu ≡ overhead + k.conf.mss
  pub remote : k.cong.rmt_wnd < 65536
  pub queued : All (Fits k.conf.mss) k.snd.snd_queue
  pub buffered : All (Fits k.conf.mss) k.snd.snd_buf

pub create-IsValid : (conv : ℕ) → IsValid 0 (create conv)
unfolding create
create-IsValid conv = record {
  sending = record {
    una = omega arith;
    nxt = omega arith;
    half = omega (arith, sub32_self 0);
    sorted = tt;
    count_buf = refl;
  };
  receiving = record {
    nxt = omega arith;
    wnd = omega arith;
    sorted = tt;
    delivered = refl;
    count_buf = refl;
    count_que = refl;
  };
  acks = record { inside = omega arith; stored = omega arith };
  timed = record { minrto = omega arith; rto = omega arith };
  size = refl;
  remote = omega arith;
  queued = tt;
  buffered = tt;
}
