-- ===== src/Kcp/Input/Valid.antt =====
-- `ikcp_input` of lib/kcp/source/ikcp.c ends, and keeps the invariant of the control block, on every
-- datagram: well formed or not, in any order, from any peer.
use fec_kcp.Prelude.{
  ℕ, zero, suc, ◌-◌, ◌^◌, ◌≤◌, ◌<◌, ◌≡◌, refl, ◌∙◌, true, false, not, ◌||◌, Option, some, List, [],
  ◌∷◌, length, length-drop, take, drop, All, All-drop, ltb, leb, leb_ℤ, ◌==◌, arith, if◌then◌else◌,
  Bool-cases, inl, inr, ℤ, pos,
}
use fec_kcp.Word.{word, before, add32}
use fec_kcp.Word.Order.{ibound_bounds}
use fec_kcp.Kcp.Segment.{Segment, Header, overhead}
use fec_kcp.Kcp.Segment.Bytes.{IsByte, decode_header-some, decode_header-bytes}
use fec_kcp.Kcp.State.{Kcp, Sender, Rtt, Congestion}
use fec_kcp.Kcp.Send.Fragment.{Fits}
use fec_kcp.Kcp.Recv.Order.{IsOrdered, parse_data-IsOrdered}
use fec_kcp.Kcp.Ack.{
  update_ack, shrink_buf, ack_scan, parse_ack, una_scan, parse_una, fastack_scan, parse_fastack,
}
use fec_kcp.Kcp.Ack.Order.{
  IsSending, shrink-IsSending, parse_una-IsSending, parse_ack-IsSending, parse_fastack-IsSending,
}
use fec_kcp.Kcp.Ack.Bounds.{IsRoomy, ack_push-unsent}
use fec_kcp.Kcp.Input.{
  Latest, Outcome, begin_segment, input_ack, input_push, received, input_segment, known_cmd,
  read_payload, input_round, input_loop, grow_cwnd, finish_input, conclude, input,
}
use fec_kcp.Kcp.Valid.{IsTimed, IsValid}

-- The loops over `snd_buf` keep what each segment carries.
una_scan-Fits :
    (mss una : ℕ) (b : List Segment) (n : ℕ)
    → All (Fits mss) b
    → All (Fits mss) (una_scan una b n).0
unfolding una_scan
una_scan-Fits mss una [] n h = h
una_scan-Fits mss una (g ∷ b) n h = ground (arith, una_scan-Fits mss una b (n - 1) h.1)

ack_scan-Fits :
    (mss sn : ℕ) (b : List Segment) (n : ℕ) → All (Fits mss) b → All (Fits mss) (ack_scan sn b n).0
unfolding ack_scan
ack_scan-Fits mss sn [] n h = h
ack_scan-Fits mss sn (g ∷ b) n h = ground (arith, ack_scan-Fits mss sn b n h.1)

fastack_scan-Fits :
    (mss sn : ℕ) (b : List Segment) → All (Fits mss) b → All (Fits mss) (fastack_scan sn b)
unfolding fastack_scan
fastack_scan-Fits mss sn [] h = h
fastack_scan-Fits mss sn (g ∷ b) h = ground (arith, fastack_scan-Fits mss sn b h.1)

-- What input may do to the sending side.
record Keeps (mss : ℕ) (s s' : Sender) : Type 0 where
  sending : IsSending s'
  queued : s'.snd_queue ≡ s.snd_queue
  buffered : All (Fits mss) s'.snd_buf

module _ (mss : ℕ) (s : Sender) (v : IsSending s) (fits : All (Fits mss) s.snd_buf) where
  shrink-Keeps : Keeps mss s (shrink_buf s)
  shrink-Keeps = record {
    sending = shrink-IsSending s v;
    queued = unfold shrink_buf in ground arith;
    buffered = unfold shrink_buf in ground arith;
  }

  parse_una-Keeps : (una : ℕ) → Keeps mss s (parse_una s una)
  parse_una-Keeps una = record {
    sending = parse_una-IsSending s una v;
    queued = unfold parse_una in refl;
    buffered = unfold parse_una in una_scan-Fits mss una s.snd_buf s.nsnd_buf fits;
  }

  parse_ack-Keeps : (sn : ℕ) → Keeps mss s (parse_ack s sn)
  parse_ack-Keeps sn = record {
    sending = parse_ack-IsSending s sn v;
    queued = unfold parse_ack in ground arith;
    buffered = unfold parse_ack in ground (arith, ack_scan-Fits mss sn s.snd_buf s.nsnd_buf fits);
  }

  parse_fastack-Keeps : (sn : ℕ) → Keeps mss s (parse_fastack s sn)
  parse_fastack-Keeps sn = record {
    sending = parse_fastack-IsSending s sn v;
    queued = unfold parse_fastack in ground arith;
    buffered = unfold parse_fastack in ground (arith, fastack_scan-Fits mss sn s.snd_buf fits);
  }

-- The invariant from its parts, for a step that leaves the settings alone.
rebuild :
    (start : ℕ) (k k' : Kcp)
    → IsValid start k
    → k'.conf ≡ k.conf
    → k'.cong.rmt_wnd < 65536
    → Keeps k.conf.mss k.snd k'.snd
    → IsOrdered start k'.rcv
    → IsRoomy k'.acks
    → IsTimed k'.rtt
    → IsValid start k'
rebuild start k k' v conf remote keeps receiving acks timed = record {
  sending = keeps.sending;
  receiving = receiving;
  acks = acks;
  timed = timed;
  size = rw conf v.size;
  remote = remote;
  queued = rw (conf, keeps.queued) v.queued;
  buffered = rw conf keeps.buffered;
}

Keeps-trans : {mss : ℕ} {s t u : Sender} → Keeps mss s t → Keeps mss t u → Keeps mss s u
Keeps-trans a b = record {
  sending = b.sending;
  queued = b.queued ∙ a.queued;
  buffered = b.buffered;
}

Keeps-refl : (mss : ℕ) (s : Sender) → IsSending s → All (Fits mss) s.snd_buf → Keeps mss s s
Keeps-refl mss s v h = record { sending = v; queued = refl; buffered = h }

begin_segment-IsValid :
    (start : ℕ) (k : Kcp) (h : Header)
    → h.wnd < 65536
    → IsValid start k
    → IsValid start (begin_segment k h)
unfolding begin_segment
begin_segment-IsValid start k h narrow v =
    let una = parse_una-Keeps k.conf.mss k.snd v.sending v.buffered h.una in
    rebuild start k _ v refl narrow
      (Keeps-trans una (shrink-Keeps k.conf.mss _ una.sending una.buffered)) v.receiving v.acks
      v.timed

update_ack-IsTimed : (interval rtt : ℕ) (r : Rtt) → IsTimed r → IsTimed (update_ack interval r rtt)
unfolding update_ack
update_ack-IsTimed interval rtt r v = record {
  minrto = v.minrto;
  rto = (ibound_bounds r.rx_minrto _ 60000 v.minrto).1;
}

input_ack-IsValid :
    (start : ℕ) (k : Kcp) (l : Latest) (h : Header)
    → IsValid start k
    → IsValid start (input_ack k l h).0
unfolding input_ack
input_ack-IsValid start k l h v =
    let ack = parse_ack-Keeps k.conf.mss k.snd v.sending v.buffered h.sn in
    rebuild start k _ v refl v.remote
      (Keeps-trans ack (shrink-Keeps k.conf.mss _ ack.sending ack.buffered)) v.receiving v.acks
      (elim (Bool-cases (before k.timer.current h.ts)) [
        | inl early ↦ rw early v.timed
        | inr late ↦ rw late (update_ack-IsTimed k.timer.interval _ k.rtt v.timed)
      ])

input_push-IsValid :
    (start : ℕ) (k : Kcp) (h : Header) (payload : List ℕ)
    → h.sn < word
    → IsValid start k
    → IsValid start (input_push k h payload)
unfolding input_push
input_push-IsValid start k h payload small v =
    let keeps = Keeps-refl k.conf.mss k.snd v.sending v.buffered in
    let pushed = (ack_push-unsent k.acks h.sn h.ts v.acks).0 in
    elim (Bool-cases (before h.sn (add32 k.rcv.rcv_nxt k.rcv.rcv_wnd))) [
      | inr beyond ↦ rw beyond v
      | inl here ↦ elim (Bool-cases (before h.sn k.rcv.rcv_nxt)) [
        | inl old ↦
            rw (here, old) (rebuild start k _ v refl v.remote keeps v.receiving pushed v.timed)
        | inr new ↦
            rw (here, new)
              (rebuild start k _ v refl v.remote keeps
                (parse_data-IsOrdered start k.rcv (received h payload) v.receiving small).0 pushed
                v.timed)
      ]
    ]

input_segment-IsValid :
    (start : ℕ) (k : Kcp) (l : Latest) (h : Header) (payload : List ℕ)
    → h.sn < word
    → h.wnd < 65536
    → IsValid start k
    → IsValid start (input_segment k l h payload).0
unfolding input_segment
input_segment-IsValid start k l h payload small narrow v =
    let b = begin_segment-IsValid start k h narrow v in
    ground (
      arith,
      b,
      input_ack-IsValid start (begin_segment k h) l h b,
      input_push-IsValid start (begin_segment k h) h payload small b,
    )

read_payload_lem :
    (len : ℕ) (rest : List ℕ)
    → ltb (length rest) len ≡ false
    → read_payload len rest ≡ some (take len rest, drop len rest)
unfolding read_payload
read_payload_lem len rest e = rw e refl

-- The loop, or a round of it, ends with the invariant.
abbrev pub Ends : ℕ → Option Outcome → Type 0
Ends start r = (o : Outcome) × (r ≡ some o) × IsValid start o.kcp

input_round-Ends :
    (start : ℕ) (k : Kcp) (l : Latest) (bytes : List ℕ)
    (next : Kcp → Latest → List ℕ → Option Outcome)
    → overhead ≤ length bytes
    → All IsByte bytes
    → IsValid start k
    → ((k' : Kcp) (l' : Latest) (rest : List ℕ)
        → length rest < length bytes
        → All IsByte rest
        → IsValid start k'
        → Ends start (next k' l' rest))
    → Ends start (input_round k l bytes next)
unfolding input_round
input_round-Ends start k l bytes next long b v go =
    let (h, rest, e) = decode_header-some bytes long in
    let (size, small, narrow, b') = decode_header-bytes bytes h rest e b in
    rw (e, input_round)
      (elim (Bool-cases (not (h.conv == k.conf.conv))) [
        | inl foreign ↦ rw foreign (_, refl, v)
        | inr ours ↦ rw ours (elim (Bool-cases (ltb (length rest) h.len || leb (2 ^ 31) h.len)) [
          | inl short ↦ rw short (_, refl, v)
          | inr whole ↦ rw whole (elim (Bool-cases (not (known_cmd h.cmd))) [
            | inl unknown ↦ rw unknown (_, refl, v)
            | inr known ↦
                rw (known, read_payload_lem h.len rest (ground (arith, whole)))
                  (go _ _ (drop h.len rest) (omega (arith, length-drop h.len rest))
                    (All-drop IsByte h.len rest b')
                    (input_segment-IsValid start k l h (take h.len rest) small narrow v))
          ])
        ])
      ])

pub input_loop-Ends :
    (fuel start : ℕ) (k : Kcp) (l : Latest) (bytes : List ℕ)
    → length bytes < fuel
    → All IsByte bytes
    → IsValid start k
    → Ends start (input_loop fuel k l bytes)
unfolding input_loop
input_loop-Ends zero start k l bytes enough b v = absurd (omega arith)
input_loop-Ends (suc fuel) start k l bytes enough b v =
    elim (Bool-cases (ltb (length bytes) overhead)) [
      | inl short ↦ rw (short, input_loop) (_, refl, v)
      | inr more ↦
          rw (more, input_loop)
            (input_round-Ends start k l bytes _ (ground (arith, more)) b v
              (λ k' l' rest less b' v'. input_loop-Ends fuel start k' l' rest (omega arith) b' v'))
    ]

grow_cwnd-remote : (mss : ℕ) (c : Congestion) → (grow_cwnd mss c).rmt_wnd ≡ c.rmt_wnd
unfolding grow_cwnd
grow_cwnd-remote mss c = ground arith

finish_input-remote :
    (una : ℕ) (k : Kcp) (l : Latest) → (finish_input una k l).cong.rmt_wnd ≡ k.cong.rmt_wnd
unfolding finish_input
finish_input-remote una k l = ground (arith, grow_cwnd-remote k.conf.mss k.cong)

finish_input-IsValid :
    (start una : ℕ) (k : Kcp) (l : Latest) → IsValid start k → IsValid start (finish_input una k l)
unfolding finish_input
finish_input-IsValid start una k l v =
    rebuild start k (finish_input una k l) v refl
      (omega (arith, finish_input-remote una k l, v.remote))
      (elim (l.flag)
        as (λ b. Keeps k.conf.mss k.snd (if b then parse_fastack k.snd l.maxack else k.snd)) [
          | true ↦ parse_fastack-Keeps k.conf.mss k.snd v.sending v.buffered l.maxack
          | false ↦ Keeps-refl k.conf.mss k.snd v.sending v.buffered
        ])
      v.receiving v.acks v.timed

conclude-IsValid :
    (start una : ℕ) (o : Outcome)
    → IsValid start o.kcp
    → (leb_ℤ (conclude una o).0 (pos 0) ≡ true) × IsValid start (conclude una o).1
unfolding conclude
conclude-IsValid start una o v = ground (arith, finish_input-IsValid start una o.kcp o.latest v)

-- On every sequence of bytes and a control block that satisfies its invariant, `ikcp_input` ends without
-- a read past the end of the buffer, neither of a header nor of the data behind it, with a result of 0
-- or below, and the control block satisfies its invariant again, from the same start of the receive queue.
pub input-IsValid :
    (start : ℕ) (k : Kcp) (bytes : List ℕ)
    → All IsByte bytes
    → IsValid start k
    → (result : ℤ) × (k' : Kcp) × (input k bytes ≡ some (result, k'))
      × (leb_ℤ result (pos 0) ≡ true)
      × IsValid start k'
unfolding input
input-IsValid start k bytes b v = elim (Bool-cases (ltb (length bytes) overhead)) [
  | inl short ↦ rw short (_, _, refl, refl, v)
  | inr more ↦
      let fresh : Latest = record { flag = false; maxack = 0 } in
      let (o, e, v') = input_loop-Ends (suc (length bytes)) start k fresh bytes (omega arith) b v in
      let (low, v'') = conclude-IsValid start k.snd.snd_una o v' in
      rw (more, e) (_, _, refl, low, v'')
]
