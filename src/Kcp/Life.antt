-- ===== src/Kcp/Life.antt =====
-- The life of a control block of lib/kcp: the calls that the program makes of it, in any order, with
-- any datagrams from the network, as a step relation.
use mathlib.Core.Option.{some-injective}
use fec_kcp.Prelude.{
  sym, subst, ℕ, ◌-◌, ◌≤◌, ◌≡◌, ap, ◌∙◌, Bool, true, false, inl, inr, List, [], ◌∷◌, ◌++◌, length,
  length-append, length-take, length-drop, take, All, All-append, some, leb, ◌==◌, arith,
  if◌then◌else◌, Bool-cases, ℤ, pos, negsuc, pos_part,
}
use fec_kcp.Kcp.Segment.{Segment}
use fec_kcp.Kcp.Segment.Bytes.{IsByte}
use fec_kcp.Kcp.State.{Kcp, create, wnd_rcv, Timer}
use fec_kcp.Kcp.Send.{segment_new, extend_tail, fragment, fragment_count, enqueue, send}
use fec_kcp.Kcp.Send.Fragment.{Fits, fragment-Fits}
use fec_kcp.Kcp.Recv.{merge, recv, receive}
use fec_kcp.Kcp.Recv.Take.{advance, recv-cases, receive-IsOrdered, receive-peeks, recv-peek_cases}
use fec_kcp.Kcp.Input.{input}
use fec_kcp.Kcp.Input.Valid.{input-IsValid}
use fec_kcp.Kcp.Flush.Valid.{flush-IsValid}
use fec_kcp.Kcp.Update.{tick, update}
use fec_kcp.Kcp.Valid.{IsValid, create-IsValid}

extend_tail-Fits :
    (mss len : ℕ) (q : List Segment) (buf : List ℕ)
    → All (Fits mss) q
    → len ≤ length buf
    → let (q', buf', len') = extend_tail mss q buf len in All (Fits mss) q' × (len' ≤ length buf')
unfolding extend_tail segment_new
extend_tail-Fits mss len [] buf a h = (a, h)
extend_tail-Fits mss len (old ∷ []) buf a h = ground (
  arith,
  length-append (take old.len old.payload) (take len buf),
  length-append (take old.len old.payload) (take (mss - old.len) buf),
  length-take old.len old.payload,
  length-take len buf,
  length-take (mss - old.len) buf,
  length-drop len buf,
  length-drop (mss - old.len) buf,
)
extend_tail-Fits mss len (s ∷ t ∷ q) buf a h =
    let (b, k) = extend_tail-Fits mss len (t ∷ q) buf a.1 h in ((a.0, b), k)

-- The invariant with another send queue.
requeue :
    (start : ℕ) (k : Kcp) (q : List Segment) (n : ℕ)
    → IsValid start k
    → All (Fits k.conf.mss) q
    → IsValid start (record k { snd = record (k.snd) { snd_queue = q; nsnd_que = n } })
requeue start k q n v a = record {
  sending = record {
    una = v.sending.una;
    nxt = v.sending.nxt;
    half = v.sending.half;
    sorted = v.sending.sorted;
    count_buf = v.sending.count_buf;
  };
  receiving = v.receiving;
  acks = v.acks;
  timed = v.timed;
  size = v.size;
  remote = v.remote;
  queued = a;
  buffered = v.buffered;
}

enqueue-IsValid :
    (start : ℕ) (k : Kcp) (stream : Bool) (q : List Segment) (buf : List ℕ) (len : ℕ)
    → IsValid start k
    → All (Fits k.conf.mss) q
    → len ≤ length buf
    → IsValid start (enqueue k stream q buf len).1
unfolding enqueue
enqueue-IsValid start k stream q buf len v a h =
    let mss = k.conf.mss in
    let n = fragment_count mss len in
    let rounds = if n == 0 then 1 else n in
    elim (Bool-cases (leb wnd_rcv n)) [
      | inl many ↦ rw many (requeue start k q k.snd.nsnd_que v a)
      | inr few ↦ rw few (
          requeue start k (q ++ fragment mss stream rounds buf len) _ v
            (All-append (Fits mss) q _ a (fragment-Fits mss rounds len stream buf h).0))
    ]

-- `ikcp_send`, in both modes.
pub send-IsValid :
    (start : ℕ) (k : Kcp) (buf : List ℕ) (len : ℤ)
    → pos_part len ≤ length buf
    → IsValid start k
    → IsValid start (send k buf len).1
unfolding send
send-IsValid start k buf (negsuc n) h v = v
send-IsValid start k buf (pos len) h v =
    let mss = k.conf.mss in
    let (q, buf', len') = extend_tail mss k.snd.snd_queue buf len in
    let (a, h') = extend_tail-Fits mss len k.snd.snd_queue buf v.queued h in
    elim (Bool-cases (k.conf.stream == 0)) [
      | inl message ↦
          rw message (enqueue-IsValid start k false k.snd.snd_queue buf len v v.queued h)
      | inr streaming ↦ rw streaming (elim (Bool-cases (len' == 0)) [
        | inl whole ↦ rw whole (requeue start k q k.snd.nsnd_que v a)
        | inr more ↦ rw more (enqueue-IsValid start k true q buf' len' v a h')
      ])
    ]

peek-IsValid : (start : ℕ) (k : Kcp) → IsValid start k → IsValid start (receive k true).2
unfolding receive
peek-IsValid start k v = record {
  sending = v.sending;
  receiving = unfold receive in (receive-peeks start k v.receiving).0;
  acks = v.acks;
  timed = v.timed;
  size = v.size;
  remote = v.remote;
  queued = v.queued;
  buffered = v.buffered;
}

receive-IsValid :
    (start : ℕ) (k : Kcp)
    → IsValid start k
    → IsValid (advance (merge k.rcv.rcv_queue).passed start) (receive k false).2
unfolding receive
receive-IsValid start k v = record {
  sending = v.sending;
  receiving = unfold receive in (receive-IsOrdered start k v.receiving).0;
  acks = v.acks;
  timed = v.timed;
  size = v.size;
  remote = v.remote;
  queued = v.queued;
  buffered = v.buffered;
}

-- `ikcp_recv`, for any request.
pub recv-IsValid :
    (start : ℕ) (k : Kcp) (size : ℤ)
    → IsValid start k
    → (start' : ℕ) × IsValid start' (recv k size).2
recv-IsValid start k (negsuc n) v = elim (recv-peek_cases k n) [
  | inl refused ↦ (start, rw refused v)
  | inr e ↦ (start, rw e (peek-IsValid start k v))
]
recv-IsValid start k (pos size) v = elim (recv-cases k size) [
  | inl refused ↦ (start, rw (refused.1) v)
  | inr e ↦ (advance (merge k.rcv.rcv_queue).passed start, rw e (receive-IsValid start k v))
]

retime-IsValid :
    (start : ℕ) (k : Kcp) (t : Timer) → IsValid start k → IsValid start (record k { timer = t })
retime-IsValid start k t v = record {
  sending = v.sending;
  receiving = v.receiving;
  acks = v.acks;
  timed = v.timed;
  size = v.size;
  remote = v.remote;
  queued = v.queued;
  buffered = v.buffered;
}

-- `ikcp_update`.
pub update-IsValid :
    (start : ℕ) (k : Kcp) (current : ℕ) → IsValid start k → IsValid start (update k current).0
unfolding update
update-IsValid start k current v =
    let (t, due) = tick k.timer current in
    let v' = retime-IsValid start k t v in
    elim (Bool-cases due) [
      | inl now ↦ rw now (flush-IsValid start (record k { timer = t }) v').0
      | inr later ↦ rw later v'
    ]

-- One call of the program, with what comes from outside: the bytes to send and a length that does not
-- pass them or is negative, the size of the buffer to receive into, negative to peek, the datagram or
-- the time.
pub data Step (k : Kcp) : Kcp → Type 0 where
  sends : (buf : List ℕ) (len : ℤ) → pos_part len ≤ length buf → Step k (send k buf len).1
  receives : (size : ℤ) → Step k (recv k size).2
  inputs :
      (bytes : List ℕ) {result : ℤ} {k' : Kcp}
      → All IsByte bytes
      → input k bytes ≡ some (result, k')
      → Step k k'
  updates : (current : ℕ) → Step k (update k current).0

-- Any number of calls.
pub data Reach (k : Kcp) : Kcp → Type 0 where
  here : Reach k k
  next : {k' k'' : Kcp} → Reach k k' → Step k' k'' → Reach k k''

-- One call keeps the invariant.
Step-IsValid :
    {k k' : Kcp} → Step k k' → (start : ℕ) → IsValid start k → (start' : ℕ) × IsValid start' k'
Step-IsValid {k} (sends buf len h) start v = (start, send-IsValid start k buf len h v)
Step-IsValid {k} (receives size) start v = recv-IsValid start k size v
Step-IsValid {k} (inputs bytes b e) start v =
    let (result, k₁, e₁, _, v₁) = input-IsValid start k bytes b v in
    (start, subst (IsValid start) (ap (λ t. t.1) (some-injective _ _ (sym e₁ ∙ e))) v₁)
Step-IsValid {k} (updates current) start v = (start, update-IsValid start k current v)

pub Reach-IsValid : (conv : ℕ) {k : Kcp} → Reach (create conv) k → (start : ℕ) × IsValid start k
Reach-IsValid conv here = (0, create-IsValid conv)
Reach-IsValid conv (next r s) = let (start, v) = Reach-IsValid conv r in Step-IsValid s start v
