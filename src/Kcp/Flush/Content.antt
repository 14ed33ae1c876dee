-- ===== src/Kcp/Flush/Content.antt =====
-- The whole flush of lib/kcp/source/ikcp.c: the size and the contents of its datagrams.
use fec_kcp.Prelude.{
  ℕ, ◌+◌, ◌≤◌, ◌<◌, ◌≡◌, refl, ap, ◌∙◌, sym, List, [], ◌∷◌, ◌++◌, append-nil, append_assoc, map,
  length, take, All, All-append, arith, if◌then◌else◌, Bool-cases, inl, inr,
}
use fec_kcp.Kcp.Segment.{Segment, overhead}
use fec_kcp.Kcp.State.{Kcp, Sender, Settings}
use fec_kcp.Kcp.Send.{segment_new}
use fec_kcp.Kcp.Send.Fragment.{Fits, body}
use fec_kcp.Kcp.Flush.{
  Out, output, put_segment, put_all, Clock, Verdict, idle, first, timeout, fast, judge, restamp,
  refresh, is_idle, Pass, flush_segments, stamp, fill, control_segment, ack_segments, last_segment,
  probe_segments, control_segments, window, flush_clock, flush_now, flush,
}
use fec_kcp.Kcp.Flush.Datagram.{
  wire, join, stream, output-empty, stream-output, IsBounded, output_bounded, put_segment-IsBounded,
  stream-put_segment,
}
use fec_kcp.Kcp.Flush.Window.{fill-All}
use fec_kcp.Kcp.Valid.{IsValid}

pub put_all_lem :
    (mtu : ℕ) (gs : List Segment) (o : Out)
    → All (λ g. overhead + g.len ≤ mtu) gs
    → IsBounded mtu o
    → IsBounded mtu (put_all mtu gs o)
      × (stream (put_all mtu gs o) ≡ stream o ++ join (map wire gs))
unfolding put_all join
put_all_lem mtu [] o fits v = (v, sym (append-nil (stream o)))
put_all_lem mtu (g ∷ gs) o fits v =
    let (b, e) =
      put_all_lem mtu gs (put_segment mtu g o) fits.1 (put_segment-IsBounded mtu g o fits.0 v) in
    (
      b,
      e
          ∙ ap (λ l. l ++ join (map wire gs)) (stream-put_segment mtu g o)
          ∙ append_assoc (stream o) (wire g) (join (map wire gs)),
    )

-- The segments that the loop over `snd_buf` sends, as it sends them.
unfoldable pub due : Clock → Segment → List Segment → List Segment
due c control [] = []
due c control (g ∷ b) =
    if is_idle (judge c g)
    then due c control b
    else refresh c control (restamp c (judge c g) g) ∷ due c control b

pub body-restamp :
    (c : Clock) (v : Verdict) (control g : Segment)
    → body (refresh c control (restamp c v g)) ≡ body g
unfolding restamp refresh
body-restamp c idle control g = refl
body-restamp c first control g = refl
body-restamp c timeout control g = refl
body-restamp c fast control g = refl

pub flush_segments_lem :
    (s : Settings) (c : Clock) (control : Segment) (b : List Segment) (o : Out)
    → All (λ g. overhead + g.len ≤ s.mtu) b
    → IsBounded s.mtu o
    → let p = flush_segments s c control b o in
      IsBounded s.mtu p.out × (stream p.out ≡ stream o ++ join (map wire (due c control b)))
unfolding flush_segments due join
flush_segments_lem s c control [] o fits v = (v, sym (append-nil (stream o)))
flush_segments_lem s c control (g ∷ b) o fits v = elim (Bool-cases (is_idle (judge c g))) [
  | inl skip ↦ rw skip (flush_segments_lem s c control b o fits.1 v)
  | inr send ↦
      let g' = refresh c control (restamp c (judge c g) g) in
      let small : overhead + g'.len ≤ s.mtu =
        omega (arith, ap (λ t. t.1) (body-restamp c (judge c g) control g), fits.0) in
      let (bounded, e) =
        flush_segments_lem s c control b (put_segment s.mtu g' o) fits.1
          (put_segment-IsBounded s.mtu g' o small v) in
      rw send (
        bounded,
        e
            ∙ ap (λ l. l ++ join (map wire (due c control b))) (stream-put_segment s.mtu g' o)
            ∙ append_assoc (stream o) (wire g') (join (map wire (due c control b))),
      )
]

-- The local `control` segments carry no data.
ack_segments-len :
    (g : Segment) (entries : List (ℕ × ℕ))
    → g.len ≡ 0
    → All (λ h. h.len ≡ 0) (ack_segments g entries)
unfolding ack_segments
ack_segments-len g [] e = tt
ack_segments-len g ((sn, ts) ∷ entries) e = (e, ack_segments-len g entries e)

last_segment-len :
    (g : Segment) (gs : List Segment)
    → g.len ≡ 0
    → All (λ h. h.len ≡ 0) gs
    → (last_segment g gs).len ≡ 0
unfolding last_segment
last_segment-len g [] e a = e
last_segment-len g (h ∷ hs) e a = last_segment-len h hs a.0 a.1

control_segments-len : (k : Kcp) → All (λ h. h.len ≡ 0) (control_segments k)
unfolding control_segments probe_segments segment_new
control_segments-len k =
    let control = control_segment k in
    let entries = take k.acks.ackcount k.acks.acklist in
    let acks = ack_segments-len control entries refl in
    let last = last_segment-len control (ack_segments control entries) refl acks in
    All-append (λ h. h.len ≡ 0) (ack_segments control entries) _ acks (ground (arith, last))

All-small :
    (mtu : ℕ) (gs : List Segment)
    → overhead ≤ mtu
    → All (λ h. h.len ≡ 0) gs
    → All (λ g. overhead + g.len ≤ mtu) gs
All-small mtu [] h a = tt
All-small mtu (g ∷ gs) h a = (omega (arith, a.0), All-small mtu gs h a.1)

All-fits :
    (mss mtu : ℕ) (gs : List Segment)
    → mtu ≡ overhead + mss
    → All (Fits mss) gs
    → All (λ g. overhead + g.len ≤ mtu) gs
All-fits mss mtu [] e a = tt
All-fits mss mtu (g ∷ gs) e a = (omega (arith, a.0.0), All-fits mss mtu gs e a.1)

-- The send buffer as the loop of `ikcp_flush` finds it: after the window has been filled.
abbrev pub filled : Kcp → Sender
filled k =
    fill (λ sn g. stamp (control_segment k) k.timer.current k.rcv.rcv_nxt sn k.rtt.rx_rto g)
      (window k.conf k.cong) k.snd

stamp-Fits :
    (mss : ℕ) (control : Segment) (current una sn rto : ℕ) (g : Segment)
    → Fits mss g
    → Fits mss (stamp control current una sn rto g)
unfolding stamp
stamp-Fits mss control current una sn rto g h = h

pub filled-Fits :
    (start : ℕ) (k : Kcp)
    → IsValid start k
    → All (Fits k.conf.mss) (filled k).snd_queue × All (Fits k.conf.mss) (filled k).snd_buf
filled-Fits start k v =
    fill-All (Fits k.conf.mss) _ (window k.conf k.cong)
      (λ n g h.
        stamp-Fits k.conf.mss (control_segment k) k.timer.current k.rcv.rcv_nxt n k.rtt.rx_rto g h)
      k.snd v.queued v.buffered

abbrev pub empty_out : Out
empty_out = record { pending = []; sent = [] }

stream-empty : (xs : List ℕ) → stream empty_out ++ xs ≡ xs
unfolding join
stream-empty xs = refl

abbrev pub flush_pass : Kcp → Pass
flush_pass k =
    flush_segments k.conf (flush_clock k) (control_segment k) (filled k).snd_buf
      (put_all k.conf.mtu (control_segments k) empty_out)

flush-started : (k : Kcp) → 0 < k.timer.updated → (flush k).1 ≡ (output ((flush_pass k).out)).sent
unfolding flush flush_now
flush-started k started = ground arith

join-output : (o : Out) → join (output o).sent ≡ stream o
join-output o =
    sym (append-nil (join (output o).sent))
    ∙ ap (λ l. join (output o).sent ++ l) (sym (output-empty o.pending o.sent))
    ∙ stream-output o

join_wires :
    (gs hs : List Segment) → join (map wire gs) ++ join (map wire hs) ≡ join (map wire (gs ++ hs))
unfolding join
join_wires [] hs = refl
join_wires (g ∷ gs) hs =
    append_assoc (wire g) (join (map wire gs)) (join (map wire hs))
    ∙ ap (λ l. wire g ++ l) (join_wires gs hs)

-- The datagrams are bounded, and are the segments that the code puts, encoded in order.
pub flush-wires :
    (start : ℕ) (k : Kcp)
    → IsValid start k
    → 0 < k.timer.updated
    → All (λ d. length d ≤ k.conf.mtu) (flush k).1
      × (join (flush k).1
          ≡ join (
              map wire
                (control_segments k ++ due (flush_clock k) (control_segment k) (filled k).snd_buf)))
flush-wires start k v started = rw (flush-started k started) (
    let fits = filled-Fits start k v in
    let mtu = k.conf.mtu in
    let small =
      All-small mtu (control_segments k) (omega (arith, v.size)) (control_segments-len k) in
    let (b₁, e₁) =
      put_all_lem mtu (control_segments k) empty_out small
        (record { now = omega arith; past = tt }) in
    let (b₂, e₂) =
      flush_segments_lem k.conf (flush_clock k) (control_segment k) (filled k).snd_buf
        (put_all mtu (control_segments k) empty_out)
        (All-fits k.conf.mss mtu (filled k).snd_buf v.size fits.1) b₁ in
    let o = (flush_pass k).out in
    (
      (output_bounded mtu o.pending o.sent b₂.now b₂.past).1,
      join-output o
          ∙ e₂
          ∙ ap
              (λ l.
                l ++ join (map wire (due (flush_clock k) (control_segment k) (filled k).snd_buf)))
              (e₁ ∙ stream-empty (join (map wire (control_segments k))))
          ∙ join_wires (control_segments k)
              (due (flush_clock k) (control_segment k) (filled k).snd_buf),
    ))
