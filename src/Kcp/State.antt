-- ===== src/Kcp/State.antt =====
-- lib/kcp/include/ikcp.h and lib/kcp/source/ikcp.c: `struct IKCPCB` and `ikcp_create`. The control
-- block is grouped by what its functions touch: the sending side, the receiving side, the pending
-- acknowledgements, the round-trip estimate, the congestion window, the window probe, the clock and
-- the settings. `user`, `buffer`, `output` and the log are left out: `flush` returns what it hands
-- to `output`.
use fec_kcp.Prelude.{ℕ, Bool, false, ◌-◌, List, []}
use fec_kcp.Kcp.Segment.{Segment, overhead}

-- `snd_queue`, `snd_buf`, their counters and the sequence numbers of the sending side.
pub record Sender : Type 0 where
  pub snd_una : ℕ
  pub snd_nxt : ℕ
  pub snd_queue : List Segment
  pub snd_buf : List Segment
  pub nsnd_que : ℕ
  pub nsnd_buf : ℕ

-- `rcv_queue`, `rcv_buf`, their counters and the next sequence number of the receiving side.
pub record Receiver : Type 0 where
  pub rcv_nxt : ℕ
  pub rcv_wnd : ℕ
  pub rcv_queue : List Segment
  pub rcv_buf : List Segment
  pub nrcv_que : ℕ
  pub nrcv_buf : ℕ

-- `acklist` with its pairs (sn, ts), `ackcount` and `ackblock`.
pub record Acks : Type 0 where
  pub acklist : List (ℕ × ℕ)
  pub ackcount : ℕ
  pub ackblock : ℕ

-- The round-trip estimate. The four fields are IINT32; `rx_rttval` is held as its 32-bit pattern, and the
-- others are never negative.
pub record Rtt : Type 0 where
  pub rx_srtt : ℕ
  pub rx_rttval : ℕ
  pub rx_rto : ℕ
  pub rx_minrto : ℕ

pub record Congestion : Type 0 where
  pub snd_wnd : ℕ
  pub rmt_wnd : ℕ
  pub cwnd : ℕ
  pub ssthresh : ℕ
  pub incr : ℕ

-- `probe` has two bits, IKCP_ASK_SEND and IKCP_ASK_TELL.
pub record Probe : Type 0 where
  pub ask_send : Bool
  pub ask_tell : Bool
  pub ts_probe : ℕ
  pub probe_wait : ℕ

pub record Timer : Type 0 where
  pub current : ℕ
  pub interval : ℕ
  pub ts_flush : ℕ
  pub updated : ℕ

pub record Settings : Type 0 where
  pub conv : ℕ
  pub mtu : ℕ
  pub mss : ℕ
  pub stream : ℕ
  pub nodelay : ℕ
  pub fastresend : ℕ
  pub fastlimit : ℕ
  pub nocwnd : ℕ
  pub dead_link : ℕ

-- `state` is 0, or 0xffffffff for a dead link; `xmit` counts the timeouts.
pub record Kcp : Type 0 where
  pub snd : Sender
  pub rcv : Receiver
  pub acks : Acks
  pub rtt : Rtt
  pub cong : Congestion
  pub prb : Probe
  pub timer : Timer
  pub conf : Settings
  pub state : ℕ
  pub xmit : ℕ

abbrev pub wnd_rcv : ℕ
wnd_rcv = 128

abbrev pub rto_max : ℕ
rto_max = 60000

-- `ikcp_create`, where both allocations succeed.
unfoldable pub create : ℕ → Kcp
create conv = record {
  snd = record {
    snd_una = 0;
    snd_nxt = 0;
    snd_queue = [];
    snd_buf = [];
    nsnd_que = 0;
    nsnd_buf = 0;
  };
  rcv = record {
    rcv_nxt = 0;
    rcv_wnd = wnd_rcv;
    rcv_queue = [];
    rcv_buf = [];
    nrcv_que = 0;
    nrcv_buf = 0;
  };
  acks = record { acklist = []; ackcount = 0; ackblock = 0 };
  rtt = record { rx_srtt = 0; rx_rttval = 0; rx_rto = 200; rx_minrto = 100 };
  cong = record { snd_wnd = 32; rmt_wnd = wnd_rcv; cwnd = 0; ssthresh = 2; incr = 0 };
  prb = record { ask_send = false; ask_tell = false; ts_probe = 0; probe_wait = 0 };
  timer = record { current = 0; interval = 100; ts_flush = 100; updated = 0 };
  conf = record {
    conv = conv;
    mtu = 1400;
    mss = 1400 - overhead;
    stream = 0;
    nodelay = 0;
    fastresend = 0;
    fastlimit = 5;
    nocwnd = 0;
    dead_link = 20;
  };
  state = 0;
  xmit = 0;
}
