-- ===== src/Kcp/Tests.antt =====
-- The control block of lib/kcp at concrete inputs.
use fec_kcp.Prelude.{
  ℕ, ◌+◌, ◌^◌, ◌≤◌, ◌<◌, ◌≡◌, refl, true, false, ◌⊎◌, List, [], ◌∷◌, ◌++◌, map, length, take, All,
  some, ltb, leb_ℤ, arith, if◌then◌else◌, ℤ, pos, max, ◌==◌, sym, append-nil, ◌-◌,
}
use fec_kcp.Word.{add32, sub32, after, itimediff}
use fec_kcp.Kcp.Segment.{Segment, encode_seg, decode_header}
use fec_kcp.Kcp.State.{Kcp, Sender, Receiver, Acks, create, rto_max}
use fec_kcp.Kcp.Send.{send, enqueue, fragment, fragment_count}
use fec_kcp.Kcp.Recv.{parse_data, outside_window, recv, merge, deliver}
use fec_kcp.Kcp.Update.{tick, update}
use fec_kcp.Kcp.Input.{input}
use fec_kcp.Kcp.Valid.{IsValid, create-IsValid}
use fec_kcp.Kcp.Input.Valid.{input-IsValid}
use fec_kcp.Kcp.Segment.RoundTrip.{header_of, decode_header-encode_seg}
use fec_kcp.Kcp.Send.Fragment.{Fits}
use fec_kcp.Kcp.Message.{fragments, send-merge, recv-fragment}
use fec_kcp.Kcp.Recv.{is_negative}
use fec_kcp.Kcp.Recv.Order.{IsOrdered, IsDrained, parse_data-IsOrdered}
use fec_kcp.Kcp.Recv.Take.{advance, recv-IsOrdered}
use fec_kcp.Kcp.Ack.{parse_ack, parse_una, ack_push, update_ack}
use fec_kcp.Kcp.Ack.Order.{in_flight, IsSending}
use fec_kcp.Kcp.Ack.Exact.{reject, parse_ack-reject, parse_una-reject}
use fec_kcp.Kcp.Ack.Bounds.{unsent, IsRoomy, ack_push-unsent, update_ack_bounds}
use fec_kcp.Kcp.Flush.{flush, flush_now, window}
use fec_kcp.Kcp.Flush.Datagram.{wire, join}
use fec_kcp.Kcp.Flush.Promise.{promised}
use fec_kcp.Kcp.Flush.Promised.{flush_datagrams}
use fec_kcp.Kcp.Flush.Valid.{flush-IsValid}
use fec_kcp.Kcp.Life.{here, next, sends, updates, send-IsValid, update-IsValid}
use fec_kcp.Kcp.State.{Timer}
use fec_kcp.Kcp.Update.Clock.{tick-ts_flush}
use fec_kcp.Kcp.Congestion.{IsOpen, Reach-IsOpen}
use fec_kcp.Kcp.Update.Check.{check-update}
use fec_kcp.Word.{before}

-- The first clock tick of a fresh control block.
abbrev started : Kcp
started = (update (create 1) 100).0

-- A message of three bytes, queued and sent.
abbrev queued : Kcp
queued = (send started (7 ∷ 8 ∷ 9 ∷ []) (pos 3)).1

queued-IsValid : IsValid 0 queued
queued-IsValid =
    send-IsValid 0 started (7 ∷ 8 ∷ 9 ∷ []) (pos 3) (omega arith)
      (update-IsValid 0 (create 1) 100 (create-IsValid 1))

-- A datagram with one push segment of one byte.
abbrev datagram : List ℕ
datagram =
    1 ∷ 0 ∷ 0 ∷ 0 ∷ 81 ∷ 0 ∷ 32 ∷ 0 ∷ 0 ∷ 0 ∷ 0 ∷ 0 ∷ 0 ∷ 0 ∷ 0 ∷ 0 ∷ 0 ∷ 0 ∷ 0 ∷ 0 ∷ 1 ∷ 0 ∷ 0 ∷ 0
    ∷ 7 ∷ []

input-IsValid_example :
    (result : ℤ) × (k' : Kcp) × (input queued datagram ≡ some (result, k'))
    × (leb_ℤ result (pos 0) ≡ true)
    × IsValid 0 k'
input-IsValid_example = input-IsValid 0 queued datagram (omega arith) queued-IsValid

-- A segment as the loop of `ikcp_input` makes it.
abbrev numbered : ℕ → List ℕ → Segment
numbered sn payload = record {
  conv = 1;
  cmd = 81;
  frg = 0;
  wnd = 32;
  ts = 0;
  sn = sn;
  una = 0;
  len = length payload;
  resendts = 0;
  rto = 0;
  fastack = 0;
  xmit = 0;
  payload = payload;
}

one_ahead : sub32 1 0 < 128
unfolding sub32
one_ahead = omega arith

-- Number 1 has arrived, number 0 has not.
abbrev gap : Receiver
gap = record {
  rcv_nxt = 0;
  rcv_wnd = 128;
  rcv_queue = [];
  rcv_buf = numbered 1 (6 ∷ []) ∷ [];
  nrcv_que = 0;
  nrcv_buf = 1;
}

gap-IsOrdered : IsOrdered 0 gap
gap-IsOrdered = record {
  nxt = omega arith;
  wnd = omega arith;
  sorted = (omega arith, omega arith, one_ahead, tt);
  delivered = refl;
  count_buf = refl;
  count_que = refl;
}

parse_data-IsOrdered_example :
    let r' = parse_data gap (numbered 0 (5 ∷ [])) in
    IsOrdered 0 r' × ((outside_window gap 0 ≡ true) ⊎ IsDrained r' r'.rcv_buf)
parse_data-IsOrdered_example =
    parse_data-IsOrdered 0 gap (numbered 0 (5 ∷ [])) gap-IsOrdered (omega arith)

recv-IsOrdered_example :
    let (result, _, k') = recv (record queued { rcv = gap }) (pos 4) in
    ((is_negative result ≡ true) × (k' ≡ record queued { rcv = gap }))
    ⊎ (IsOrdered (advance (merge gap.rcv_queue).passed 0) k'.rcv × IsDrained k'.rcv k'.rcv.rcv_buf)
recv-IsOrdered_example = recv-IsOrdered 0 (record queued { rcv = gap }) 4 gap-IsOrdered

flush-IsValid_example :
    IsValid 0 (flush queued).0
    × (in_flight (flush queued).0.snd ≤ max (in_flight queued.snd) (window queued.conf queued.cong))
flush-IsValid_example = flush-IsValid 0 queued queued-IsValid

updated_once : 0 < queued.timer.updated
unfolding create update tick itimediff flush flush_now send enqueue fragment_count
updated_once = omega arith

flush_datagrams_example :
    All (λ d. length d ≤ queued.conf.mtu) (flush queued).1
    × (join (flush queued).1 ≡ join (map wire (promised queued)))
flush_datagrams_example = flush_datagrams 0 queued queued-IsValid updated_once

-- Two segments in flight, on both sides of the end of the numbers.
abbrev two_sent : Sender
two_sent = record {
  snd_una = 4294967295;
  snd_nxt = 1;
  snd_queue = [];
  snd_buf = numbered 4294967295 (5 ∷ []) ∷ numbered 0 (6 ∷ []) ∷ [];
  nsnd_que = 0;
  nsnd_buf = 2;
}

two_sent-IsSending : IsSending two_sent
unfolding sub32
two_sent-IsSending = record {
  una = omega arith;
  nxt = omega arith;
  half = omega arith;
  sorted = (omega arith, omega arith, omega arith, (omega arith, omega arith, omega arith, tt));
  count_buf = refl;
}

parse_ack-reject_example : (parse_ack two_sent 0).snd_buf ≡ (
    if ltb (sub32 0 4294967295) (in_flight two_sent)
    then reject (λ g. 0 == g.sn) two_sent.snd_buf
    else two_sent.snd_buf)
parse_ack-reject_example = parse_ack-reject two_sent 0 two_sent-IsSending

una_ahead : sub32 0 4294967295 < 2 ^ 31
unfolding sub32
una_ahead = omega arith

parse_una-reject_example :
    (parse_una two_sent 0).snd_buf ≡ reject (λ g. after 0 g.sn) two_sent.snd_buf
parse_una-reject_example = parse_una-reject two_sent 0 two_sent-IsSending una_ahead

abbrev waiting : Acks
waiting = record { acklist = (4, 10) ∷ []; ackcount = 1; ackblock = 1 }

ack_push-unsent_example :
    IsRoomy (ack_push waiting 5 11)
    × (unsent (ack_push waiting 5 11) ≡ unsent waiting ++ (5, 11) ∷ [])
ack_push-unsent_example =
    ack_push-unsent waiting 5 11 (record { inside = omega arith; stored = omega arith })

update_ack_bounds_example :
    let r' = update_ack 100 (create 1).rtt 40 in
    ((create 1).rtt.rx_minrto ≤ r'.rx_rto)
    × (r'.rx_rto ≤ rto_max)
    × (r'.rx_srtt ≤ 60000)
    × (r'.rx_rttval ≤ 60000)
unfolding create
update_ack_bounds_example =
    update_ack_bounds 100 40 60000 (create 1).rtt (omega arith) (omega arith) (omega arith)
      (omega arith) (omega arith) (omega arith)

decode_header-encode_seg_example :
    decode_header (encode_seg (numbered 3 (5 ∷ [])) ++ 5 ∷ [])
    ≡ some (header_of (numbered 3 (5 ∷ [])), 5 ∷ [])
decode_header-encode_seg_example = decode_header-encode_seg (numbered 3 (5 ∷ [])) (5 ∷ []) (record {
  conv = omega arith;
  cmd = omega arith;
  frg = omega arith;
  wnd = omega arith;
  ts = omega arith;
  sn = omega arith;
  una = omega arith;
  len = omega arith;
})

-- A message of three fragments with a maximum segment size of 2.
abbrev narrow : Kcp
narrow = record (create 1) { conf = record ((create 1).conf) { mtu = 26; mss = 2 } }

abbrev message : List ℕ
message = 1 ∷ 2 ∷ 3 ∷ 4 ∷ 5 ∷ []

three_fragments : fragment_count 2 5 < 128
unfolding fragment_count
three_fragments = omega arith

send-merge_example :
    let (r, k') = send narrow message (pos 5) in
    (r ≡ pos 0)
    × (k'.snd.snd_queue ≡ narrow.snd.snd_queue ++ fragments narrow message 5)
    × (k'.snd.nsnd_que ≡ narrow.snd.nsnd_que + length (fragments narrow message 5))
    × All (Fits narrow.conf.mss) (fragments narrow message 5)
    × (merge (fragments narrow message 5 ++ []) ≡ record {
      bytes = take 5 message;
      total = 5;
      passed = length (fragments narrow message 5);
      rest = [];
    })
unfolding create
send-merge_example = send-merge narrow message 5 [] refl (omega arith) (omega arith) three_fragments

abbrev holding : Kcp
holding = record narrow {
  rcv = record (narrow.rcv) {
    rcv_queue = fragment 2 false (fragment_count 2 5) message 5;
    nrcv_que = 3;
    rcv_nxt = 3;
  };
}

three_held : fragment_count 2 5 ≤ 3
unfolding fragment_count
three_held = omega arith

queue_held : holding.rcv.rcv_queue ≡ fragment 2 false (fragment_count 2 5) message 5 ++ []
queue_held = sym (append-nil _)

recv-fragment_example :
    let (r, bytes, k') = recv holding (pos 64) in
    (r ≡ pos 5)
    × (bytes ≡ take 5 message)
    × (k'.rcv
        ≡ deliver (record (holding.rcv) {
          rcv_queue = [];
          nrcv_que = holding.rcv.nrcv_que - fragment_count 2 5;
        }))
recv-fragment_example =
    recv-fragment holding 2 5 64 message (fragment 2 false (fragment_count 2 5) message 5) []
      (omega arith) (omega arith) refl queue_held three_held (omega arith)

-- A clock just before the wrap of the 32 bits.
abbrev late : Timer
late = record { current = 4294967200; interval = 100; ts_flush = 4294967290; updated = 1 }

tick-ts_flush_example :
    let (t', due) = tick late 4294967291 in
    (before 4294967291 t'.ts_flush ≡ true)
    × ((due ≡ true) × (sub32 t'.ts_flush 4294967291 ≤ 100)
        ⊎ (due ≡ false) × (t'.ts_flush ≡ 4294967290))
tick-ts_flush_example =
    tick-ts_flush late 4294967291 (omega arith) (omega arith) (omega arith) (omega arith)

Reach-IsOpen_example : IsOpen queued
Reach-IsOpen_example =
    Reach-IsOpen 1 (next (next here (updates 100)) (sends (7 ∷ 8 ∷ 9 ∷ []) (pos 3) (omega arith)))

abbrev created : Kcp
created = create 1

-- An engine between two flushes, with a segment in flight.
abbrev between : Kcp
between = record created {
  snd = record (created.snd) {
    snd_buf = record (numbered 0 (7 ∷ [])) { resendts = 170 } ∷ [];
    nsnd_buf = 1;
  };
  timer = record { current = 100; interval = 100; ts_flush = 200; updated = 1 };
}

check-update_example :
    (update between (add32 130 20)
      ≡ (record between { timer = record (between.timer) { current = add32 130 20 } }, []))
    × All (λ (s : Segment). after s.resendts (add32 130 20) ≡ true) between.snd.snd_buf
    × (20 < 100)
unfolding sub32 fec_kcp.Kcp.Update.check itimediff add32
check-update_example = check-update between 130 20 (omega arith)
