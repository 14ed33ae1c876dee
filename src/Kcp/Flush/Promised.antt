-- ===== src/Kcp/Flush/Promised.antt =====
-- The datagrams of `ikcp_flush` (lib/kcp/source/ikcp.c) are those that `Kcp.Flush.Promise` describes.
use fec_kcp.Prelude.{
  ℕ, ◌-◌, ◌≤◌, ◌<◌, ◌≡◌, refl, ap, ◌∙◌, sym, not, List, [], ◌∷◌, ◌++◌, map, append_assoc, take,
  length, All, arith, Bool-cases, inl, inr,
}
use fec_kcp.Word.{imin, add32}
use fec_kcp.Kcp.Segment.{Segment, encode_seg}
use fec_kcp.Kcp.State.{Kcp}
use fec_kcp.Kcp.Send.{segment_new}
use fec_kcp.Kcp.Ack.Bounds.{unsent}
use fec_kcp.Kcp.Flush.{
  Verdict, idle, first, timeout, fast, judge, restamp, refresh, is_idle, wnd_unused,
  control_segment, ack_segments, last_segment, probe_window, probe_segments, control_segments,
  flush_clock, flush, stamp, window,
}
use fec_kcp.Kcp.Flush.Datagram.{wire, join}
use fec_kcp.Kcp.Flush.Content.{due, filled, flush-wires}
use fec_kcp.Kcp.Flush.Window.{marked, fill-marked}
use fec_kcp.Kcp.Flush.Valid.{window-small}
use fec_kcp.Kcp.Ack.Order.{in_flight}
use fec_kcp.Kcp.Valid.{IsValid}
use fec_kcp.Kcp.Flush.Promise.{
  bare, limit, last_or, asks, probes, must_send, keep, outgoing, numbered, promised,
}

wnd_unused_lem : (k : Kcp) → wnd_unused k.rcv ≡ k.rcv.rcv_wnd - k.rcv.nrcv_que
unfolding wnd_unused
wnd_unused_lem k = ground arith

control_segment-bare : (k : Kcp) → control_segment k ≡ bare k 82 (0, 0)
unfolding control_segment segment_new
control_segment-bare k = ap (λ w. record (bare k 82 (0, 0)) { wnd = w }) (wnd_unused_lem k)

ack_segments-map :
    (k : Kcp) (numbers : ℕ × ℕ) (entries : List (ℕ × ℕ))
    → ack_segments (bare k 82 numbers) entries ≡ map (bare k 82) entries
unfolding ack_segments
ack_segments-map k numbers [] = refl
ack_segments-map k numbers ((sn, ts) ∷ entries) =
    ap (λ gs. bare k 82 (sn, ts) ∷ gs) (ack_segments-map k numbers entries)

last_segment-map :
    (k : Kcp) (numbers : ℕ × ℕ) (entries : List (ℕ × ℕ))
    → last_segment (bare k 82 numbers) (map (bare k 82) entries)
      ≡ bare k 82 (last_or numbers entries)
unfolding last_segment last_or
last_segment-map k numbers [] = refl
last_segment-map k numbers (e ∷ entries) = last_segment-map k e entries

probe_window-asks :
    (k : Kcp)
    → let p = probe_window k.timer.current k.cong.rmt_wnd k.prb in
      (p.ask_send ≡ asks k) × (p.ask_tell ≡ k.prb.ask_tell)
unfolding probe_window
probe_window-asks k = (ground arith, ground arith)

control_segments-promised :
    (k : Kcp) → control_segments k ≡ map (bare k 82) (unsent k.acks) ++ probes k
unfolding control_segments probe_segments
control_segments-promised k =
    let (send, tell) = probe_window-asks k in
    rw
      (
        control_segment-bare k,
        ack_segments-map k (0, 0) (unsent k.acks),
        last_segment-map k (0, 0) (unsent k.acks),
        send,
        tell,
      )
      refl

is_idle-must_send :
    (k : Kcp) (g : Segment) → is_idle (judge (flush_clock k) g) ≡ not (must_send k g)
unfolding judge flush_clock is_idle
is_idle-must_send k g = ground arith

-- What `restamp` changes is not on the wire.
wire-restamp :
    (k : Kcp) (v : Verdict) (g : Segment)
    → wire (refresh (flush_clock k) (bare k 82 (0, 0)) (restamp (flush_clock k) v g))
      ≡ wire (outgoing k g)
unfolding restamp refresh encode_seg flush_clock
wire-restamp k idle g = refl
wire-restamp k first g = refl
wire-restamp k timeout g = refl
wire-restamp k fast g = refl

wires-due :
    (k : Kcp) (b : List Segment)
    → map wire (due (flush_clock k) (bare k 82 (0, 0)) b)
      ≡ map wire (map (outgoing k) (keep (must_send k) b))
unfolding due keep
wires-due k [] = refl
wires-due k (g ∷ b) = elim (Bool-cases (must_send k g)) [
  | inl send ↦
      rw (is_idle-must_send k g, send)
        (ap (λ w. w ∷ map wire (due (flush_clock k) (bare k 82 (0, 0)) b))
            (wire-restamp k (judge (flush_clock k) g) g)
          ∙ ap (λ ws. wire (outgoing k g) ∷ ws) (wires-due k b))
  | inr wait ↦ rw (is_idle-must_send k g, wait) (wires-due k b)
]

-- The mark of a segment that `ikcp_flush` moves to the send buffer.
abbrev stamped : Kcp → ℕ → Segment → Segment
stamped k n g = stamp (control_segment k) k.timer.current k.rcv.rcv_nxt n k.rtt.rx_rto g

wire-stamped :
    (k : Kcp) (n : ℕ) (g : Segment)
    → wire (outgoing k (stamped k n g))
      ≡ wire (record (outgoing k g) { conv = k.conf.conv; cmd = 81; sn = n })
unfolding stamp encode_seg control_segment segment_new
wire-stamped k n g = refl

-- The segments that have just been moved are all sent.
wires-marked :
    (k : Kcp) (n : ℕ) (q : List Segment)
    → map wire (map (outgoing k) (keep (must_send k) (marked (stamped k) n q)))
      ≡ map wire (numbered k n q)
unfolding keep marked numbered stamp
wires-marked k n [] = refl
wires-marked k n (g ∷ q) =
    ap
      (λ w. w ∷ map wire (map (outgoing k) (keep (must_send k) (marked (stamped k) (add32 n 1) q))))
      (wire-stamped k n g)
    ∙ ap (λ ws. wire (record (outgoing k g) { conv = k.conf.conv; cmd = 81; sn = n }) ∷ ws)
        (wires-marked k (add32 n 1) q)

wires-keep :
    (k : Kcp) (b c : List Segment)
    → map wire (map (outgoing k) (keep (must_send k) (b ++ c)))
      ≡ map wire (map (outgoing k) (keep (must_send k) b))
        ++ map wire (map (outgoing k) (keep (must_send k) c))
unfolding keep
wires-keep k [] c = refl
wires-keep k (g ∷ b) c = elim (Bool-cases (must_send k g)) [
  | inl send ↦ rw send (ap (λ ws. wire (outgoing k g) ∷ ws) (wires-keep k b c))
  | inr wait ↦ rw wait (wires-keep k b c)
]

wires_append : (gs hs : List Segment) → map wire (gs ++ hs) ≡ map wire gs ++ map wire hs
wires_append [] hs = refl
wires_append (g ∷ gs) hs = ap (λ ws. wire g ∷ ws) (wires_append gs hs)

wires-filled :
    (start : ℕ) (k : Kcp)
    → IsValid start k
    → map wire (due (flush_clock k) (control_segment k) (filled k).snd_buf)
      ≡ map wire (
          map (outgoing k) (keep (must_send k) k.snd.snd_buf)
          ++ numbered k k.snd.snd_nxt
              (take (window k.conf k.cong - in_flight k.snd) k.snd.snd_queue))
wires-filled start k v =
    let old = k.snd.snd_buf in
    let q = take (window k.conf k.cong - in_flight k.snd) k.snd.snd_queue in
    let e : (filled k).snd_buf ≡ old ++ marked (stamped k) k.snd.snd_nxt q =
      fill-marked (stamped k) (window k.conf k.cong) k.snd (window-small k.conf k.cong v.remote)
        v.sending.half in
    ap (λ g. map wire (due (flush_clock k) g (filled k).snd_buf)) (control_segment-bare k)
    ∙ wires-due k (filled k).snd_buf
    ∙ ap (λ b. map wire (map (outgoing k) (keep (must_send k) b))) e
    ∙ wires-keep k old (marked (stamped k) k.snd.snd_nxt q)
    ∙ ap (λ ws. map wire (map (outgoing k) (keep (must_send k) old)) ++ ws)
        (wires-marked k k.snd.snd_nxt q)
    ∙ sym (wires_append (map (outgoing k) (keep (must_send k) old)) (numbered k k.snd.snd_nxt q))

window-limit : (k : Kcp) → window k.conf k.cong ≡ limit k
unfolding window imin
window-limit k = ground arith

-- With `updated` set, as it is from the first `ikcp_update` on, every datagram that `ikcp_flush` outputs from a valid control
-- block is at most as long as the MTU, and together the datagrams are, byte for byte and in order: an
-- acknowledgement for each pair that waits, a probe if the window of the peer was to be asked for or the time
-- of the next probe has come while it is closed, an announcement of the window if one was to be made, those
-- segments of the send buffer that were never sent, whose time has come or that were passed over often
-- enough, and then as many segments of the send queue as the window has room for, with the next numbers;
-- each with the current window and the next number expected.
pub flush_datagrams :
    (start : ℕ) (k : Kcp)
    → IsValid start k
    → 0 < k.timer.updated
    → All (λ d. length d ≤ k.conf.mtu) (flush k).1
      × (join (flush k).1 ≡ join (map wire (promised k)))
flush_datagrams start k v started =
    let (bounded, e) = flush-wires start k v started in
    let head = map (bare k 82) (unsent k.acks) in
    let rest =
      map (outgoing k) (keep (must_send k) k.snd.snd_buf)
      ++ numbered k k.snd.snd_nxt (take (window k.conf k.cong - in_flight k.snd) k.snd.snd_queue) in
    (
      bounded,
      e
          ∙ ap join (
              wires_append (control_segments k) _
              ∙ ap (λ ws. map wire (control_segments k) ++ ws) (wires-filled start k v)
              ∙ sym (wires_append (control_segments k) rest)
              ∙ ap (λ gs. map wire (gs ++ rest)) (control_segments-promised k)
              ∙ ap (map wire) (append_assoc head (probes k) rest)
              ∙ ap
                  (λ w. map wire (
                    head
                    ++ (probes k
                        ++ (map (outgoing k) (keep (must_send k) k.snd.snd_buf)
                            ++ numbered k k.snd.snd_nxt
                                (take (w - in_flight k.snd) k.snd.snd_queue)))))
                  (window-limit k)),
    )
