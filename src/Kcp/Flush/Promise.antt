-- ===== src/Kcp/Flush/Promise.antt =====
-- What one `ikcp_flush` of lib/kcp/source/ikcp.c puts on the wire, described without the code: from the
-- waiting acknowledgements, the probes that are due and the segments of the send buffer.
use fec_kcp.Prelude.{
  ℕ, ◌-◌, ◌^◌, Bool, ◌||◌, ◌&&◌, not, List, [], ◌∷◌, ◌++◌, map, take, leb, leb_ℤ, pos, ◌==◌, min,
  if◌then◌else◌,
}
use fec_kcp.Word.{before, signed32, add32}
use fec_kcp.Kcp.Segment.{Segment}
use fec_kcp.Kcp.State.{Kcp}
use fec_kcp.Kcp.Ack.Bounds.{unsent}
use fec_kcp.Kcp.Ack.Order.{in_flight}

-- A segment without data: it carries the room of the receive queue and the next number expected.
abbrev pub bare : Kcp → ℕ → ℕ × ℕ → Segment
bare k cmd (sn, ts) = record {
  conv = k.conf.conv;
  cmd = cmd;
  frg = 0;
  wnd = k.rcv.rcv_wnd - k.rcv.nrcv_que;
  ts = ts;
  sn = sn;
  una = k.rcv.rcv_nxt;
  len = 0;
  resendts = 0;
  rto = 0;
  fastack = 0;
  xmit = 0;
  payload = [];
}

-- The last of a list, or `a` if it is empty.
unfoldable pub last_or : {A : Type 0} → A → List A → A
last_or a [] = a
last_or a (b ∷ bs) = last_or b bs

-- The window of the peer is asked for: that was left to do, or it is known to be closed and the time of the
-- next probe is set and has come.
abbrev pub asks : Kcp → Bool
asks k =
    k.prb.ask_send
    || k.cong.rmt_wnd == 0
      && (not (k.prb.probe_wait == 0) && not (before k.timer.current k.prb.ts_probe))

-- One probe (83) and one announcement of the window (84); both repeat the numbers of the last acknowledgement.
abbrev pub probes : Kcp → List Segment
probes k =
    let numbers = last_or (0, 0) (unsent k.acks) in
    (if asks k then bare k 83 numbers ∷ [] else [])
    ++ (if k.prb.ask_tell then bare k 84 numbers ∷ [] else [])

-- A segment of the send buffer is to be sent: it never was, or its time has come, or as many later ones as
-- the setting says have been acknowledged (with the setting off, 2 ^ 32 - 1) and the limit of such
-- repetitions allows it.
abbrev pub must_send : Kcp → Segment → Bool
must_send k g =
    g.xmit == 0
    || (not (before k.timer.current g.resendts)
        || leb (if k.conf.fastresend == 0 then 2 ^ 32 - 1 else k.conf.fastresend) g.fastack
          && (leb_ℤ (signed32 g.xmit) (pos k.conf.fastlimit) || k.conf.fastlimit == 0))

unfoldable pub keep : (Segment → Bool) → List Segment → List Segment
keep test [] = []
keep test (g ∷ b) = if test g then g ∷ keep test b else keep test b

-- A segment of the send buffer as it goes out, with the time, the window and the next number expected.
abbrev pub outgoing : Kcp → Segment → Segment
outgoing k g = record g {
  ts = k.timer.current;
  wnd = k.rcv.rcv_wnd - k.rcv.nrcv_que;
  una = k.rcv.rcv_nxt;
}

-- Segments of the send queue as they go out for the first time, with the numbers from `n` on.
unfoldable pub numbered : Kcp → ℕ → List Segment → List Segment
numbered k n [] = []
numbered k n (g ∷ q) =
    record (outgoing k g) { conv = k.conf.conv; cmd = 81; sn = n } ∷ numbered k (add32 n 1) q

-- How many segments may be in flight: the windows of both sides and, unless that is switched off, the
-- congestion window.
abbrev pub limit : Kcp → ℕ
limit k =
    let both = min k.cong.snd_wnd k.cong.rmt_wnd in
    if k.conf.nocwnd == 0 then min k.cong.cwnd both else both

-- What a flush is to send: an acknowledgement for each pair that waits, the probes, the segments of the send
-- buffer whose turn it is, and as many of the send queue as the window has room for.
abbrev pub promised : Kcp → List Segment
promised k =
    map (bare k 82) (unsent k.acks)
    ++ (probes k
        ++ (map (outgoing k) (keep (must_send k) k.snd.snd_buf)
            ++ numbered k k.snd.snd_nxt (take (limit k - in_flight k.snd) k.snd.snd_queue)))
