-- ===== src/Kcp/Message.antt =====
-- Messages of lib/kcp/source/ikcp.c across `ikcp_send` and `ikcp_recv`: what is queued, what is
-- refused, and that the receiver copies out what the sender was given.
use fec_kcp.Prelude.{
  ℕ, zero, suc, ◌+◌, ◌-◌, ◌≤◌, ◌<◌, ◌≡◌, ◌≢◌, refl, ap, ◌∙◌, Bool, true, false, List, [], ◌∷◌, ◌++◌,
  map, length, take, All, ◌==◌, ℤ, pos, negsuc, arith, if◌then◌else◌, ltb_ℤ, leb_ℤ, ◌⊎◌, ◌*◌,
}
use fec_kcp.Kcp.Segment.{Segment}
use fec_kcp.Kcp.State.{Kcp, Receiver, wnd_rcv}
use fec_kcp.Kcp.Send.{segment_new, fragment, fragment_count, send, enqueue}
use fec_kcp.Kcp.Send.Fragment.{
  map-cons_inv, body, Fits, merge-fragment, fragment_count-covers, fragment-Fits,
}
use fec_kcp.Kcp.Recv.{merge, message_size, peeksize, deliver, receive, recv}

-- The fragments that a message of `len` bytes is cut into in message mode.
abbrev pub fragments : Kcp → List ℕ → ℕ → List Segment
fragments k buf len = fragment k.conf.mss false (fragment_count k.conf.mss len) buf len

send_message :
    (k : Kcp) (buf : List ℕ) (len : ℕ)
    → k.conf.stream ≡ 0
    → send k buf (pos len) ≡ enqueue k false k.snd.snd_queue buf len
unfolding send
send_message k buf len mode = ground arith

enqueue_queues :
    (k : Kcp) (len : ℕ) (buf : List ℕ)
    → fragment_count k.conf.mss len < wnd_rcv
    → 0 < fragment_count k.conf.mss len
    → enqueue k false k.snd.snd_queue buf len ≡ (
      pos 0,
      record k {
        snd = record (k.snd) {
          snd_queue = k.snd.snd_queue ++ fragments k buf len;
          nsnd_que = k.snd.nsnd_que + fragment_count k.conf.mss len;
        };
      },
    )
unfolding enqueue
enqueue_queues k len buf few some_rounds = ground arith

-- `ikcp_send` in message mode, for a message of at most 127 fragments that lies in the buffer: it
-- returns 0, puts segments behind the queue and counts them. Each of them fits the maximum segment
-- size, and the loop of `ikcp_recv` reads back from them, with anything queued behind, exactly the
-- message.
pub send-merge :
    (k : Kcp) (buf : List ℕ) (len : ℕ) (after : List Segment)
    → k.conf.stream ≡ 0
    → 0 < k.conf.mss
    → len ≤ length buf
    → fragment_count k.conf.mss len < wnd_rcv
    → let (r, k') = send k buf (pos len) in
      (r ≡ pos 0)
      × (k'.snd.snd_queue ≡ k.snd.snd_queue ++ fragments k buf len)
      × (k'.snd.nsnd_que ≡ k.snd.nsnd_que + length (fragments k buf len))
      × All (Fits k.conf.mss) (fragments k buf len)
      × (merge (fragments k buf len ++ after) ≡ record {
        bytes = take len buf;
        total = len;
        passed = length (fragments k buf len);
        rest = after;
      })
unfolding send
send-merge k buf len rest mode some_room room few =
    let n = fragment_count k.conf.mss len in
    let (covers, some_rounds) = fragment_count-covers k.conf.mss len some_room in
    let (fit, rounds) = fragment-Fits k.conf.mss n len false buf room in
    rw (send_message k buf len mode, enqueue_queues k len buf few some_rounds)
      (
        refl,
        refl,
        omega (arith, rounds),
        fit,
        rw rounds (merge-fragment k.conf.mss n len buf _ rest some_rounds covers room refl),
      )

-- What `ikcp_send` promises of its result: a negative length is refused by -1, a message longer than 127
-- segments by -2, both without a change, and any other is queued in 1 to 127 segments.
abbrev pub Answer : Kcp → ℤ → ℤ × Kcp → Type 0
Answer k len (r, k') =
    (ltb_ℤ len (pos 0) ≡ true) × (r ≡ negsuc 0) × (k' ≡ k)
    ⊎ ((ltb_ℤ (pos (127 * k.conf.mss)) len ≡ true) × (r ≡ negsuc 1) × (k' ≡ k)
        ⊎ (leb_ℤ (pos 0) len ≡ true)
          × (leb_ℤ len (pos (127 * k.conf.mss)) ≡ true)
          × (r ≡ pos 0)
          × (k.snd.nsnd_que < k'.snd.nsnd_que)
          × (k'.snd.nsnd_que ≤ k.snd.nsnd_que + 127))

message_size-merge : (q : List Segment) → message_size q ≡ (merge q).total
unfolding message_size merge
message_size-merge [] = refl
message_size-merge (g ∷ q) = ground (arith, message_size-merge q)

message_size_lem :
    (g : Segment) (q : List Segment)
    → message_size (g ∷ q) ≡ g.len + (if g.frg == 0 then 0 else message_size q)
unfolding message_size
message_size_lem g q = refl

is_empty : List Segment → Bool
is_empty [] = true
is_empty (g ∷ q) = false

peeksize-empty : (r : Receiver) (n : ℕ) → is_empty r.rcv_queue ≡ true → peeksize r ≢ pos n
unfolding peeksize is_empty
peeksize-empty r n e = ground arith

-- With all the fragments of the first message queued, `ikcp_peeksize` is the sum of their lengths.
peeksize-fragment :
    (r : Receiver) (mss n len : ℕ) (buf : List ℕ) (gs q : List Segment)
    → 0 < n
    → map body gs ≡ map body (fragment mss false n buf len)
    → r.rcv_queue ≡ gs ++ q
    → n ≤ r.nrcv_que
    → peeksize r ≡ pos (message_size r.rcv_queue)
unfolding peeksize fragment segment_new
peeksize-fragment r mss zero len buf gs q some_left e at_head here = elim some_left [ ]
peeksize-fragment r mss (suc n) len buf [] q some_left e at_head here = cc
peeksize-fragment r mss (suc n) len buf (g ∷ gs) q some_left e at_head here =
    let (frg, _, _, _) = map-cons_inv g gs _ _ e in
    rw at_head (ground (arith, message_size_lem g (gs ++ q)))

recv-peeksize :
    (k : Kcp) (n size : ℕ) → peeksize k.rcv ≡ pos n → n ≤ size → recv k (pos size) ≡ receive k false
unfolding recv is_empty
recv-peeksize k n size e h = ground (arith, peeksize-empty k.rcv n)

-- A message cut by `ikcp_send` whose fragments stand at the head of the receive queue, in order and
-- with what they carry unchanged: `ikcp_recv` with a buffer that is large enough returns its length
-- and its bytes, takes exactly its fragments off the queue and then moves what is in sequence.
pub recv-fragment :
    (k : Kcp) (mss len size : ℕ) (buf : List ℕ) (gs q : List Segment)
    → 0 < mss
    → len ≤ length buf
    → map body gs ≡ map body (fragment mss false (fragment_count mss len) buf len)
    → k.rcv.rcv_queue ≡ gs ++ q
    → fragment_count mss len ≤ k.rcv.nrcv_que
    → len ≤ size
    → let (r, bytes, k') = recv k (pos size) in
      (r ≡ pos len)
      × (bytes ≡ take len buf)
      × (k'.rcv
          ≡ deliver (record (k.rcv) {
            rcv_queue = q;
            nrcv_que = k.rcv.nrcv_que - fragment_count mss len;
          }))
unfolding recv receive
recv-fragment k mss len size buf gs q some_room room e at_head here enough =
    let n = fragment_count mss len in
    let (covers, some_rounds) = fragment_count-covers mss len some_room in
    let m = merge-fragment mss n len buf gs q some_rounds covers room e in
    let p = peeksize-fragment k.rcv mss n len buf gs q some_rounds e at_head here in
    let total : message_size k.rcv.rcv_queue ≡ len =
      rw (at_head, message_size-merge (gs ++ q), m) in
    rw (recv-peeksize k len size (p ∙ ap pos total) enough, at_head, m) (refl, refl, refl)
