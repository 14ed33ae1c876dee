-- ===== src/Kcp/Update.antt =====
-- lib/kcp/source/ikcp.c: `ikcp_update`, `ikcp_check` and the setters.
pub mod Clock
pub mod Check
use fec_kcp.Prelude.{
  ℕ, ◌-◌, ◌^◌, Bool, true, false, ◌||◌, List, [], ◌∷◌, ltb, leb, ◌==◌, if◌then◌else◌, ℤ, pos,
  negsuc, ltb_ℤ, leb_ℤ,
}
use fec_kcp.Word.{add32, sub32, before, itimediff, imax}
use fec_kcp.Kcp.Segment.{Segment, overhead}
use fec_kcp.Kcp.State.{Kcp, Timer, wnd_rcv}
use fec_kcp.Kcp.Flush.{flush}

-- `ikcp_update` up to the flush: the timer, and whether to flush.
unfoldable pub tick : Timer → ℕ → Timer × Bool
tick t current =
    let started = if t.updated == 0 then current else t.ts_flush in
    let slap = itimediff current started in
    let far = leb_ℤ (pos 10000) slap || ltb_ℤ slap (negsuc 9999) in
    let base = if far then current else started in
    let due = far || leb_ℤ (pos 0) slap in
    let next = add32 base t.interval in
    (
      record t {
        current = current;
        updated = if t.updated == 0 then 1 else t.updated;
        ts_flush =
            if due then (if before current next then next else add32 current t.interval) else base;
      },
      due,
    )

-- `ikcp_update(kcp, current)`: the new state and the datagrams output.
unfoldable pub update : Kcp → ℕ → Kcp × List (List ℕ)
update k current =
    let (t, due) = tick k.timer current in
    let k' = record k { timer = t } in if due then flush k' else (k', [])

-- The loop of `ikcp_check` over `snd_buf`: `none` if a segment is due, else the smaller of `tm_packet`
-- and the times left.
unfoldable pub packet_wait : ℕ → ℕ → List Segment → ℕ × Bool
packet_wait current tm_packet [] = (tm_packet, false)
packet_wait current tm_packet (g ∷ b) =
    let diff = itimediff g.resendts current in
    let left = sub32 g.resendts current in
    let rest = packet_wait current (if ltb left tm_packet then left else tm_packet) b in
    if leb_ℤ diff (pos 0) then (tm_packet, true) else rest

-- `ikcp_check(kcp, current)`
unfoldable pub check : Kcp → ℕ → ℕ
unfolding packet_wait
check k current =
    let t = k.timer in
    let slap = itimediff current t.ts_flush in
    let far = leb_ℤ (pos 10000) slap || ltb_ℤ slap (negsuc 9999) in
    let tm_flush = sub32 t.ts_flush current in
    let (tm_packet, due) = packet_wait current (2 ^ 31 - 1) k.snd.snd_buf in
    let minimal = if ltb tm_packet tm_flush then tm_packet else tm_flush in
    if t.updated == 0 || far || leb_ℤ (pos 0) slap || due
    then current
    else add32 current (if leb t.interval minimal then t.interval else minimal)

-- `ikcp_setmtu`, where the allocation succeeds.
unfoldable pub setmtu : Kcp → ℤ → ℤ × Kcp
setmtu k (negsuc _) = (negsuc 0, k)
setmtu k (pos mtu) =
    if ltb mtu 50 || ltb mtu overhead
    then (negsuc 0, k)
    else (pos 0, record k { conf = record (k.conf) { mtu = mtu; mss = mtu - overhead } })

unfoldable pub clamp_interval : ℤ → ℕ
clamp_interval (negsuc _) = 10
clamp_interval (pos n) = if ltb 5000 n then 5000 else if ltb n 10 then 10 else n

-- `ikcp_interval`
unfoldable pub interval : Kcp → ℤ → Kcp
unfolding clamp_interval
interval k n = record k { timer = record (k.timer) { interval = clamp_interval n } }

unfoldable pub set_nodelay : Kcp → ℤ → Kcp
set_nodelay k (negsuc _) = k
set_nodelay k (pos n) = record k {
  conf = record (k.conf) { nodelay = n };
  rtt = record (k.rtt) { rx_minrto = if n == 0 then 100 else 30 };
}

unfoldable pub set_interval : Kcp → ℤ → Kcp
unfolding interval
set_interval k (negsuc _) = k
set_interval k (pos n) = interval k (pos n)

unfoldable pub set_resend : Kcp → ℤ → Kcp
set_resend k (negsuc _) = k
set_resend k (pos n) = record k { conf = record (k.conf) { fastresend = n } }

unfoldable pub set_nc : Kcp → ℤ → Kcp
set_nc k (negsuc _) = k
set_nc k (pos n) = record k { conf = record (k.conf) { nocwnd = n } }

-- `ikcp_nodelay(kcp, nodelay, interval, resend, nc)`
unfoldable pub nodelay : Kcp → ℤ → ℤ → ℤ → ℤ → Kcp
unfolding set_nodelay set_interval set_resend set_nc
nodelay k n i r c = set_nc (set_resend (set_interval (set_nodelay k n) i) r) c

unfoldable pub set_sndwnd : Kcp → ℤ → Kcp
set_sndwnd k (negsuc _) = k
set_sndwnd k (pos n) = if ltb 0 n then record k { cong = record (k.cong) { snd_wnd = n } } else k

unfoldable pub set_rcvwnd : Kcp → ℤ → Kcp
set_rcvwnd k (negsuc _) = k
set_rcvwnd k (pos n) =
    if ltb 0 n then record k { rcv = record (k.rcv) { rcv_wnd = imax n wnd_rcv } } else k

-- `ikcp_wndsize(kcp, sndwnd, rcvwnd)`
unfoldable pub wndsize : Kcp → ℤ → ℤ → Kcp
unfolding set_sndwnd set_rcvwnd
wndsize k s r = set_rcvwnd (set_sndwnd k s) r
