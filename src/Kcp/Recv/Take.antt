-- ===== src/Kcp/Recv/Take.antt =====
-- `ikcp_recv` (lib/kcp/source/ikcp.c) keeps the order of the receiving side.
use fec_kcp.Prelude.{
  ℕ, zero, suc, ◌+◌, ◌≡◌, refl, true, false, List, [], ◌∷◌, length, ◌==◌, arith, pos, negsuc,
  Bool-cases, ◌⊎◌, inl, inr,
}
use fec_kcp.Word.{add32}
use fec_kcp.Kcp.Segment.{Segment}
use fec_kcp.Kcp.State.{Kcp}
use fec_kcp.Kcp.Recv.{merge, deliver, receive, recv, is_negative}
use fec_kcp.Kcp.Recv.Order.{Consecutive, IsOrdered, IsDrained, deliver_from-Holds}

-- `start` moved on by as many numbers as the loop has passed segments.
abbrev pub advance : ℕ → ℕ → ℕ
advance zero start = start
advance (suc n) start = advance n (add32 start 1)

merge-Consecutive :
    (start nxt : ℕ) (q : List Segment)
    → Consecutive start q nxt
    → Consecutive (advance (merge q).passed start) (merge q).rest nxt
      × ((merge q).passed + length (merge q).rest ≡ length q)
unfolding merge
merge-Consecutive start nxt [] c = (c, refl)
merge-Consecutive start nxt (g ∷ q) c = elim (Bool-cases (g.frg == 0)) [
  | inl last ↦ rw last (c.1, omega arith)
  | inr more ↦
      let (d, count) = merge-Consecutive (add32 start 1) nxt q c.1 in
      rw more (d, omega (arith, count))
]

pub receive-IsOrdered :
    (start : ℕ) (k : Kcp)
    → IsOrdered start k.rcv
    → let r = (receive k false).2.rcv in
      IsOrdered (advance (merge k.rcv.rcv_queue).passed start) r × IsDrained r r.rcv_buf
unfolding receive deliver
receive-IsOrdered start k v =
    let (c, count) = merge-Consecutive start k.rcv.rcv_nxt k.rcv.rcv_queue v.delivered in
    deliver_from-Holds _ k.rcv.rcv_buf _ (record {
      nxt = v.nxt;
      wnd = v.wnd;
      sorted = v.sorted;
      delivered = c;
      count_buf = v.count_buf;
      count_que = omega (arith, v.count_que, count);
    })

-- `ikcp_recv` with `ispeek` set delivers and takes nothing off.
pub receive-peeks :
    (start : ℕ) (k : Kcp)
    → IsOrdered start k.rcv
    → let r = (receive k true).2.rcv in IsOrdered start r × IsDrained r r.rcv_buf
unfolding receive deliver
receive-peeks start k v = deliver_from-Holds start k.rcv.rcv_buf k.rcv (record {
  nxt = v.nxt;
  wnd = v.wnd;
  sorted = v.sorted;
  delivered = v.delivered;
  count_buf = v.count_buf;
  count_que = v.count_que;
})

-- How `ikcp_recv` ends for a negative request.
pub recv-peek_cases :
    (k : Kcp) (n : ℕ) → ((recv k (negsuc n)).2 ≡ k) ⊎ (recv k (negsuc n) ≡ receive k true)
unfolding recv
recv-peek_cases k n = ground arith

-- How `ikcp_recv` ends, for a request that is not negative.
pub recv-cases :
    (k : Kcp) (size : ℕ)
    → ((is_negative (recv k (pos size)).0 ≡ true) × ((recv k (pos size)).2 ≡ k))
      ⊎ (recv k (pos size) ≡ receive k false)
unfolding recv
recv-cases k size = ground arith

-- `ikcp_recv` with a buffer size that is not negative either returns an error and changes nothing, or
-- the receive invariant holds again, from the number that follows the segments of the message taken
-- off, and nothing that could be delivered is left in `rcv_buf`.
pub recv-IsOrdered :
    (start : ℕ) (k : Kcp) (size : ℕ)
    → IsOrdered start k.rcv
    → let (result, _, k') = recv k (pos size) in
      ((is_negative result ≡ true) × (k' ≡ k))
      ⊎ (IsOrdered (advance (merge k.rcv.rcv_queue).passed start) k'.rcv
          × IsDrained k'.rcv k'.rcv.rcv_buf)
recv-IsOrdered start k size v = elim (recv-cases k size) [
  | inl refused ↦ inl refused
  | inr e ↦ inr (rw e (receive-IsOrdered start k v))
]
