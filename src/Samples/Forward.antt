-- ===== src/Samples/Forward.antt =====
-- The receiving loops of samples/fec_kcp_client.cpp and samples/fec_kcp_server.cpp on the messages that
-- wait in the engine.
use fec_kcp.Prelude.{
  length-map, ℕ, zero, suc, ◌+◌, ◌-◌, ◌≤◌, ◌<◌, ◌≡◌, refl, ap, ◌∙◌, sym, subst, true, false, List,
  [], ◌∷◌, ◌++◌, map, length, length-append, take_all, All, ltb_ℤ, ℤ, pos, negsuc, arith,
}
use fec_kcp.Kcp.Segment.{Segment}
use fec_kcp.Kcp.State.{Kcp, Receiver}
use fec_kcp.Kcp.Send.{fragment, fragment_count}
use fec_kcp.Kcp.Send.Fragment.{body, fragment_count-covers}
use fec_kcp.Kcp.Recv.{recv, deliver, deliver_from}
use fec_kcp.Kcp.Message.{recv-fragment}
use fec_kcp.Samples.{recv_buf_size, recv_rounds}
use fec_kcp.Samples.Client.{Given}
use fec_kcp.Samples.Client as Client
use fec_kcp.Samples.Server as Server

-- The queue holds the fragments of these messages, in order, as the peer's `ikcp_send` cut them.
abbrev pub Queued : ℕ → List (List ℕ) → List Segment → Type 0
Queued mss [] q = q ≡ []
Queued mss (m ∷ ms) q =
    (gs : List Segment) × (rest : List Segment) × (q ≡ gs ++ rest)
    × (map body gs ≡ map body (fragment mss false (fragment_count mss (length m)) m (length m)))
    × Queued mss ms rest

-- A message that the samples can hand out.
abbrev pub IsMessage : List ℕ → Type 0
IsMessage m = (0 < length m) × (length m ≤ recv_buf_size)

-- Nothing but messages in their order is there to be received.
pub record Waiting (mss : ℕ) (ms : List (List ℕ)) (r : Receiver) : Type 0 where
  pub queued : Queued mss ms r.rcv_queue
  pub counted : r.nrcv_que ≡ length r.rcv_queue
  pub no_buffered : r.rcv_buf ≡ []

deliver_none : (r : Receiver) → r.rcv_buf ≡ [] → deliver r ≡ r
unfolding deliver deliver_from
deliver_none r e = rw e refl

length-fragment : (mss n len : ℕ) (buf : List ℕ) → length (fragment mss false n buf len) ≡ n
unfolding fragment
length-fragment mss zero len buf = refl
length-fragment mss (suc n) len buf = ap suc (length-fragment mss n _ _)

recv-Waiting :
    (k : Kcp) (mss : ℕ) (m : List ℕ) (ms : List (List ℕ))
    → 0 < mss
    → IsMessage m
    → Waiting mss (m ∷ ms) k.rcv
    → (k' : Kcp) × (recv k (pos recv_buf_size) ≡ (pos (length m), m, k')) × Waiting mss ms k'.rcv
recv-Waiting k mss m ms some_room fits w =
    let n = fragment_count mss (length m) in
    let (gs, rest, split, bodies, later) = w.queued in
    let count : length gs ≡ n = omega (
      arith,
      ap length bodies,
      length-map body gs,
      length-map body (fragment mss false n m (length m)),
      length-fragment mss n (length m) m,
    ) in
    let total : length k.rcv.rcv_queue ≡ length gs + length rest =
      ap length split ∙ length-append gs rest in
    let (size, bytes, after) =
      recv-fragment k mss (length m) recv_buf_size m gs rest some_room (omega arith) bodies split
        (omega (arith, w.counted)) (omega (arith, fits.1)) in
    let r : Receiver = record (k.rcv) { rcv_queue = rest; nrcv_que = k.rcv.nrcv_que - n } in
    let whole = bytes ∙ take_all m (length m) (omega arith) in
    (
      (recv k (pos recv_buf_size)).2,
      (λ i. (size i, whole i, (recv k (pos recv_buf_size)).2)),
      subst (Waiting mss ms) (sym (after ∙ deliver_none r w.no_buffered)) (record {
        queued = later;
        counted = omega (arith, w.counted);
        no_buffered = w.no_buffered;
      }),
    )

recv_nothing : (k : Kcp) → k.rcv.rcv_queue ≡ [] → recv k (pos recv_buf_size) ≡ (negsuc 0, [], k)
unfolding recv
recv_nothing k e = rw e refl

-- What the client's loop hands to `sendto` for these messages: each with its length, and then what was left
-- in the buffer, nothing, with the -1 that `ikcp_recv` returned.
abbrev pub handed_on : List (List ℕ) → Given
handed_on [] = ([], negsuc 0) ∷ []
handed_on (m ∷ ms) = (m, pos (length m)) ∷ handed_on ms

forward-Waiting :
    (ms : List (List ℕ)) (fuel mss : ℕ) (k : Kcp)
    → 0 < mss
    → All IsMessage ms
    → length ms < fuel
    → Waiting mss ms k.rcv
    → ((Client.forward fuel k).0 ≡ handed_on ms) × ((Client.forward fuel k).1.rcv.rcv_queue ≡ [])
unfolding Client.forward
forward-Waiting ms zero mss k some_room a enough w = absurd (omega arith)
forward-Waiting [] (suc fuel) mss k some_room a enough w =
    rw (recv_nothing k w.queued) (refl, w.queued)
forward-Waiting (m ∷ ms) (suc fuel) mss k some_room a enough w =
    let (k', e, w') = recv-Waiting k mss m ms some_room a.0 w in
    let more : ltb_ℤ (pos 0) (pos (length m)) ≡ true = ground (arith, a.0.0) in
    let (given, empty) = forward-Waiting ms fuel mss k' some_room a.1 (omega arith) w' in
    rw (e, more) (ap (λ l. (m, pos (length m)) ∷ l) given, empty)

server_forward-Waiting :
    (ms : List (List ℕ)) (forwarded : ℕ → ℤ) (i fuel mss : ℕ) (k : Kcp)
    → 0 < mss
    → ((j : ℕ) → ltb_ℤ (forwarded j) (pos 0) ≡ false)
    → All IsMessage ms
    → length ms < fuel
    → Waiting mss ms k.rcv
    → ((Server.forward forwarded i fuel k).0 ≡ ms)
      × ((Server.forward forwarded i fuel k).1.rcv.rcv_queue ≡ [])
unfolding Server.forward
server_forward-Waiting ms forwarded i zero mss k some_room works a enough w = absurd (omega arith)
server_forward-Waiting [] forwarded i (suc fuel) mss k some_room works a enough w =
    rw (recv_nothing k w.queued) (refl, w.queued)
server_forward-Waiting (m ∷ ms) forwarded i (suc fuel) mss k some_room works a enough w =
    let (k', e, w') = recv-Waiting k mss m ms some_room a.0 w in
    let more : ltb_ℤ (pos 0) (pos (length m)) ≡ true = ground (arith, a.0.0) in
    let (given, empty) =
      server_forward-Waiting ms forwarded (i + 1) fuel mss k' some_room works a.1 (omega arith)
        w' in
    rw (e, more, works i) (ap (λ l. m ∷ l) given, empty)

-- There is a segment in the queue for each message at least.
Queued_length :
    (ms : List (List ℕ)) (mss : ℕ) (q : List Segment)
    → 0 < mss
    → Queued mss ms q
    → length ms ≤ length q
Queued_length [] mss q some_room w = omega arith
Queued_length (m ∷ ms) mss q some_room (gs, rest, split, bodies, later) =
    let n = fragment_count mss (length m) in
    let count : length gs ≡ n = omega (
      arith,
      ap length bodies,
      length-map body gs,
      length-map body (fragment mss false n m (length m)),
      length-fragment mss n (length m) m,
    ) in
    omega (
      arith,
      ap length split,
      length-append gs rest,
      count,
      (fragment_count-covers mss (length m) some_room).1,
      Queued_length ms mss rest some_room later,
    )

-- The receiving loops of both samples. The receive queue holds the fragments of messages of 1 to 2048 bytes,
-- as `ikcp_send` of the peer cut them, and nothing is buffered behind a gap. Then one run of the loop
-- hands every one of these messages on, whole, in order and once: the server sends exactly these, if no
-- send fails, and the client these with their lengths and, as a last call of `sendto`, a buffer
-- without new data with length -1. The queue is empty afterwards in both.
pub forward-handed_on :
    (ms : List (List ℕ)) (forwarded : ℕ → ℤ) (mss : ℕ) (k : Kcp)
    → 0 < mss
    → ((j : ℕ) → ltb_ℤ (forwarded j) (pos 0) ≡ false)
    → All IsMessage ms
    → Waiting mss ms k.rcv
    → ((Client.forward (recv_rounds k) k).0 ≡ handed_on ms)
      × ((Client.forward (recv_rounds k) k).1.rcv.rcv_queue ≡ [])
      × ((Server.forward forwarded 0 (recv_rounds k) k).0 ≡ ms)
      × ((Server.forward forwarded 0 (recv_rounds k) k).1.rcv.rcv_queue ≡ [])
unfolding recv_rounds
forward-handed_on ms forwarded mss k some_room works a w =
    let enough = Queued_length ms mss k.rcv.rcv_queue some_room w.queued in
    let (given, empty) = forward-Waiting ms _ mss k some_room a (omega arith) w in
    let (given', empty') =
      server_forward-Waiting ms forwarded 0 _ mss k some_room works a (omega arith) w in
    (given, empty, given', empty')
