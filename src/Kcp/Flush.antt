-- ===== src/Kcp/Flush.antt =====
-- lib/kcp/source/ikcp.c: `ikcp_wnd_unused` and `ikcp_flush`. What the code hands to `ikcp_output` is
-- a list of datagrams. `buffer` holds three times the MTU and a header, so no write leaves it as long
-- as a segment's data fits in `mss`.
pub mod Datagram
pub mod Content
pub mod Promise
pub mod Promised
pub mod Window
pub mod Valid
use fec_kcp.Prelude.{
  ℕ, zero, suc, ◌+◌, ◌-◌, ◌*◌, ◌/◌, ◌%◌, ◌^◌, Bool, true, false, ◌||◌, ◌&&◌, not, List, [], ◌∷◌,
  ◌++◌, length, take, ltb, leb, ◌==◌, if◌then◌else◌, ℤ, pos, leb_ℤ,
}
use fec_kcp.Word.{word, add32, sub32, before, imin, signed32}
use fec_kcp.Kcp.Segment.{Segment, encode_seg, cmd_push, cmd_ack, cmd_wask, cmd_wins, overhead}
use fec_kcp.Kcp.State.{Kcp, Sender, Receiver, Congestion, Probe, Settings}
use fec_kcp.Kcp.Send.{segment_new}

-- The bytes between `buffer` and `ptr`, and the datagrams already output.
pub record Out : Type 0 where
  pub pending : List ℕ
  pub sent : List (List ℕ)

-- `ikcp_output(kcp, buffer, size); ptr = buffer;`, which hands nothing on if `size` is 0.
unfoldable pub output : Out → Out
output o = elim (o.pending) [
  | [] ↦ o
  | b ∷ bs ↦ record { pending = []; sent = o.sent ++ (b ∷ bs) ∷ [] }
]

-- `if (size + need > (int)kcp->mtu) { ikcp_output(kcp, buffer, size); ptr = buffer; }`
unfoldable pub make_room : ℕ → ℕ → Out → Out
make_room mtu need o = if ltb mtu (length o.pending + need) then output o else o

-- A segment goes to `ptr`, behind the check for room.
unfoldable pub put_segment : ℕ → Segment → Out → Out
unfolding make_room
put_segment mtu g o =
    let o' = make_room mtu (overhead + g.len) o in
    record o' { pending = o'.pending ++ (encode_seg g ++ take g.len g.payload) }

-- `ikcp_wnd_unused`
unfoldable pub wnd_unused : Receiver → ℕ
wnd_unused r = if ltb r.nrcv_que r.rcv_wnd then r.rcv_wnd - r.nrcv_que else 0

-- The local `seg` as it is set up for the acknowledgements.
unfoldable pub control_segment : Kcp → Segment
unfolding segment_new wnd_unused
control_segment k = record (segment_new 0 0 []) {
  conv = k.conf.conv;
  cmd = cmd_ack;
  wnd = wnd_unused k.rcv;
  una = k.rcv.rcv_nxt;
}

-- "flush acknowledges": the segments that the loop encodes, one for each entry of the list.
unfoldable pub ack_segments : Segment → List (ℕ × ℕ) → List Segment
ack_segments g [] = []
ack_segments g ((sn, ts) ∷ entries) = record g { sn = sn; ts = ts } ∷ ack_segments g entries

unfoldable pub put_all : ℕ → List Segment → Out → Out
unfolding put_segment
put_all mtu [] o = o
put_all mtu (g ∷ gs) o = put_all mtu gs (put_segment mtu g o)

-- `seg` behind the loop keeps `sn` and `ts` of the last acknowledgement.
unfoldable pub last_segment : Segment → List Segment → Segment
last_segment g [] = g
last_segment g (h ∷ hs) = last_segment h hs

-- "probe window size (if remote window size equals zero)"
unfoldable pub probe_window : ℕ → ℕ → Probe → Probe
probe_window current rmt_wnd p =
    let wait = if ltb p.probe_wait 7000 then 7000 else p.probe_wait in
    let longer = wait + wait / 2 in
    let capped = if ltb 120000 longer then 120000 else longer in
    if not (rmt_wnd == 0)
    then record p { ts_probe = 0; probe_wait = 0 }
    else if p.probe_wait == 0
    then record p { probe_wait = 7000; ts_probe = add32 current 7000 }
    else if before current p.ts_probe
    then p
    else record p { probe_wait = capped; ts_probe = add32 current capped; ask_send = true }

-- "flush window probing commands", both blocks.
unfoldable pub probe_segments : Segment → Probe → List Segment
probe_segments g p =
    (if p.ask_send then record g { cmd = cmd_wask } ∷ [] else [])
    ++ (if p.ask_tell then record g { cmd = cmd_wins } ∷ [] else [])

-- "calculate window size"
unfoldable pub window : Settings → Congestion → ℕ
window s c = let w = imin c.snd_wnd c.rmt_wnd in if s.nocwnd == 0 then imin c.cwnd w else w

-- A segment on its way from `snd_queue` to `snd_buf`.
unfoldable pub stamp : Segment → ℕ → ℕ → ℕ → ℕ → Segment → Segment
stamp control current una sn rto g = record g {
  conv = control.conv;
  cmd = cmd_push;
  wnd = control.wnd;
  ts = current;
  sn = sn;
  una = una;
  resendts = current;
  rto = rto;
  fastack = 0;
  xmit = 0;
}

-- "move data from snd_queue to snd_buf": the loop, over the segments of `snd_queue`.
unfoldable pub fill_from : (ℕ → Segment → Segment) → ℕ → List Segment → Sender → Sender
fill_from mark cwnd [] s = record s { snd_queue = [] }
fill_from mark cwnd (g ∷ q) s =
    let rest = fill_from mark cwnd q (record s {
      snd_nxt = add32 s.snd_nxt 1;
      snd_buf = s.snd_buf ++ mark s.snd_nxt g ∷ [];
      nsnd_que = s.nsnd_que - 1;
      nsnd_buf = s.nsnd_buf + 1;
    }) in
    if before s.snd_nxt (add32 s.snd_una cwnd) then rest else record s { snd_queue = g ∷ q }

unfoldable pub fill : (ℕ → Segment → Segment) → ℕ → Sender → Sender
fill mark cwnd s = fill_from mark cwnd s.snd_queue s

-- What "flush data segments" decides for one segment.
pub data Verdict : Type 0 where
  idle first timeout fast : Verdict

-- What that loop reads: the locals `current`, `resent` and `rtomin`, `rx_rto` and two settings.
pub record Clock : Type 0 where
  pub current : ℕ
  pub resent : ℕ
  pub rtomin : ℕ
  pub rx_rto : ℕ
  pub nodelay : ℕ
  pub fastlimit : ℕ

unfoldable pub judge : Clock → Segment → Verdict
judge c g =
    if g.xmit == 0
    then first
    else if not (before c.current g.resendts)
    then timeout
    else if leb c.resent g.fastack
        && (leb_ℤ (signed32 g.xmit) (pos c.fastlimit) || c.fastlimit == 0)
    then fast
    else idle

-- The assignments of the chosen branch.
unfoldable pub restamp : Clock → Verdict → Segment → Segment
restamp c idle g = g
restamp c first g = record g {
  xmit = add32 g.xmit 1;
  rto = c.rx_rto;
  resendts = (c.current + c.rx_rto + c.rtomin) % word;
}
restamp c timeout g =
    let rto = add32 g.rto (if c.nodelay == 0 then c.rx_rto else c.rx_rto / 2) in
    record g { xmit = add32 g.xmit 1; rto = rto; resendts = add32 c.current rto }
restamp c fast g = record g { xmit = add32 g.xmit 1; fastack = 0; resendts = add32 c.current g.rto }

-- `needsend`: the segment gets the current time, window and acknowledgement.
unfoldable pub refresh : Clock → Segment → Segment → Segment
refresh c control g = record g { ts = c.current; wnd = control.wnd; una = control.una }

-- The results of the loop: the segments, the datagrams, the locals `lost` and `change`, and what
-- happened to `kcp->xmit` and `kcp->state`.
pub record Pass : Type 0 where
  pub segments : List Segment
  pub out : Out
  pub lost : Bool
  pub change : Bool
  pub timeouts : ℕ
  pub dead : Bool

unfoldable pub is_timeout : Verdict → Bool
is_timeout timeout = true
is_timeout _ = false

unfoldable pub is_fast : Verdict → Bool
is_fast fast = true
is_fast _ = false

unfoldable pub is_idle : Verdict → Bool
is_idle idle = true
is_idle _ = false

unfoldable pub flush_segments : Settings → Clock → Segment → List Segment → Out → Pass
unfolding restamp refresh is_timeout is_fast is_idle
flush_segments s c control [] o = record {
  segments = [];
  out = o;
  lost = false;
  change = false;
  timeouts = 0;
  dead = false;
}
flush_segments s c control (g ∷ b) o =
    let v = judge c g in
    let g' = if is_idle v then g else refresh c control (restamp c v g) in
    let p = flush_segments s c control b (if is_idle v then o else put_segment s.mtu g' o) in
    record {
      segments = g' ∷ p.segments;
      out = p.out;
      lost = is_timeout v || p.lost;
      change = is_fast v || p.change;
      timeouts = (if is_timeout v then 1 else 0) + p.timeouts;
      dead = not (is_idle v) && leb s.dead_link g'.xmit || p.dead;
    }

-- "update ssthresh": `window` is the local `cwnd`, `inflight` is `snd_nxt - snd_una`.
unfoldable pub update_cwnd : ℕ → ℕ → ℕ → ℕ → Bool → Bool → Congestion → Congestion
update_cwnd mss window inflight resent change lost c =
    let a =
      let half = if ltb (inflight / 2) 2 then 2 else inflight / 2 in
      let cwnd = add32 half resent in
      if change then record c { ssthresh = half; cwnd = cwnd; incr = cwnd * mss % word } else c in
    let b =
      if lost
      then record a {
        ssthresh = if ltb (window / 2) 2 then 2 else window / 2;
        cwnd = 1;
        incr = mss;
      }
      else a in
    if ltb b.cwnd 1 then record b { cwnd = 1; incr = mss } else b

-- The locals `resent` and `rtomin` with what else the loop reads.
unfoldable pub flush_clock : Kcp → Clock
flush_clock k = record {
  current = k.timer.current;
  resent = if ltb 0 k.conf.fastresend then k.conf.fastresend else word - 1;
  rtomin = if k.conf.nodelay == 0 then k.rtt.rx_rto / 8 else 0;
  rx_rto = k.rtt.rx_rto;
  nodelay = k.conf.nodelay;
  fastlimit = k.conf.fastlimit;
}

-- The control segments of one flush, in the order in which they are encoded.
unfoldable pub control_segments : Kcp → List Segment
unfolding control_segment probe_window
control_segments k =
    let acks = ack_segments (control_segment k) (take k.acks.ackcount k.acks.acklist) in
    let p = probe_window k.timer.current k.cong.rmt_wnd k.prb in
    acks ++ probe_segments (last_segment (control_segment k) acks) p

-- `ikcp_flush` once `updated` is set.
unfoldable pub flush_now : Kcp → Kcp × List (List ℕ)
flush_now k =
    let control = control_segment k in
    let c = flush_clock k in
    let p = probe_window k.timer.current k.cong.rmt_wnd k.prb in
    let w = window k.conf k.cong in
    let s = fill (λ sn g. stamp control k.timer.current k.rcv.rcv_nxt sn k.rtt.rx_rto g) w k.snd in
    let head = put_all k.conf.mtu (control_segments k) (record { pending = []; sent = [] }) in
    let pass = flush_segments k.conf c control s.snd_buf head in
    (
      record k {
        snd = record s { snd_buf = pass.segments };
        acks = record (k.acks) { ackcount = 0 };
        cong =
            update_cwnd k.conf.mss w (sub32 s.snd_nxt s.snd_una) c.resent pass.change pass.lost
              k.cong;
        prb = record p { ask_send = false; ask_tell = false };
        state = if pass.dead then word - 1 else k.state;
        xmit = add32 k.xmit pass.timeouts;
      },
      (output (pass.out)).sent,
    )

-- `ikcp_flush`: the new state and the datagrams output.
unfoldable pub flush : Kcp → Kcp × List (List ℕ)
flush k = if k.timer.updated == 0 then (k, []) else flush_now k
