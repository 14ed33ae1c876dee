-- ===== src/Samples/Ends.antt =====
-- The loops of samples/fec_kcp_client.cpp and samples/fec_kcp_server.cpp that hand messages on: they end.
use fec_kcp.Prelude.{
  ℕ, zero, suc, ◌+◌, ◌-◌, ◌≤◌, ◌<◌, ◌≡◌, refl, ap, ◌∙◌, sym, true, false, ◌&&◌, Bool-cases, inl,
  inr, List, [], ◌∷◌, ◌++◌, length, length-append, ltb, ltb_ℤ, ◌==◌, ℤ, pos, negsuc, arith,
}
use fec_kcp.Word.{add32}
use fec_kcp.Kcp.Segment.{Segment}
use fec_kcp.Kcp.State.{Kcp, Receiver}
use fec_kcp.Kcp.Recv.{deliver_from, deliver, merge, receive, recv, is_negative}
use fec_kcp.Kcp.Recv.Take.{recv-cases}
use fec_kcp.Samples.{recv_buf_size, recv_rounds}
use fec_kcp.Samples.Client as Client
use fec_kcp.Samples.Server as Server

-- How many segments have been received and not been taken off.
abbrev waiting : Receiver → ℕ
waiting r = length r.rcv_queue + length r.rcv_buf

deliver_from-waiting :
    (b : List Segment) (r : Receiver) → waiting (deliver_from b r) ≡ length r.rcv_queue + length b
unfolding deliver_from
deliver_from-waiting [] r = refl
deliver_from-waiting (s ∷ b) r =
    let r' = record r {
      rcv_nxt = add32 r.rcv_nxt 1;
      rcv_queue = r.rcv_queue ++ s ∷ [];
      nrcv_que = r.nrcv_que + 1;
      nrcv_buf = r.nrcv_buf - 1;
    } in
    elim (Bool-cases (s.sn == r.rcv_nxt && ltb r.nrcv_que r.rcv_wnd)) [
      | inl next ↦
          rw next (omega (arith, deliver_from-waiting b r', length-append r.rcv_queue (s ∷ [])))
      | inr other ↦ rw other refl
    ]

merge-rest : (q : List Segment) → length (merge q).rest ≤ length q
unfolding merge
merge-rest [] = omega arith
merge-rest (s ∷ q) = ground (arith, merge-rest q)

merge-fewer : (q : List Segment) → 0 < (merge q).total → length (merge q).rest < length q
unfolding merge
merge-fewer [] h = absurd (omega (arith, h))
merge-fewer (s ∷ q) h = ground (arith, merge-rest q)

receive-fewer :
    (k : Kcp)
    → ltb_ℤ (pos 0) (receive k false).0 ≡ true
    → waiting (receive k false).2.rcv < waiting k.rcv
unfolding receive deliver
receive-fewer k more =
    let m = merge k.rcv.rcv_queue in
    let some_bytes : 0 < m.total = ground arith in
    omega (arith, deliver_from-waiting k.rcv.rcv_buf _, merge-fewer k.rcv.rcv_queue some_bytes)

not_both : (z : ℤ) → is_negative z ≡ true → ltb_ℤ (pos 0) z ≡ true → ⊥
not_both (pos n) a b = absurd (ground arith)
not_both (negsuc n) a b = absurd (ground arith)

-- A message takes a segment off at least.
recv-fewer :
    (k : Kcp) (size : ℕ)
    → ltb_ℤ (pos 0) (recv k (pos size)).0 ≡ true
    → waiting (recv k (pos size)).2.rcv < waiting k.rcv
recv-fewer k size more = elim (recv-cases k size) [
  | inl (refused, _) ↦ absurd (not_both _ refused more)
  | inr e ↦ rw e (receive-fewer k (ap (λ (t : ℤ × List ℕ × Kcp). ltb_ℤ (pos 0) t.0) (sym e) ∙ more))
]

client_forward-fuel :
    (fuel fuel' : ℕ) (k : Kcp)
    → waiting k.rcv < fuel
    → waiting k.rcv < fuel'
    → Client.forward fuel k ≡ Client.forward fuel' k
unfolding Client.forward
client_forward-fuel zero fuel' k a b = absurd (omega arith)
client_forward-fuel (suc fuel) zero k a b = absurd (omega arith)
client_forward-fuel (suc fuel) (suc fuel') k a b =
    let k' = (recv k (pos recv_buf_size)).2 in
    elim (Bool-cases (ltb_ℤ (pos 0) (recv k (pos recv_buf_size)).0)) [
      | inl more ↦
          let less = recv-fewer k recv_buf_size more in
          rw (more, client_forward-fuel fuel fuel' k' (omega (arith, less)) (omega (arith, less)))
            refl
      | inr last ↦ rw last refl
    ]

server_forward-fuel :
    (forwarded : ℕ → ℤ) (i fuel fuel' : ℕ) (k : Kcp)
    → waiting k.rcv < fuel
    → waiting k.rcv < fuel'
    → Server.forward forwarded i fuel k ≡ Server.forward forwarded i fuel' k
unfolding Server.forward
server_forward-fuel forwarded i zero fuel' k a b = absurd (omega arith)
server_forward-fuel forwarded i (suc fuel) zero k a b = absurd (omega arith)
server_forward-fuel forwarded i (suc fuel) (suc fuel') k a b =
    let k' = (recv k (pos recv_buf_size)).2 in
    elim (Bool-cases (ltb_ℤ (pos 0) (recv k (pos recv_buf_size)).0)) [
      | inl more ↦
          let less = recv-fewer k recv_buf_size more in
          rw
            (
              more,
              server_forward-fuel forwarded (i + 1) fuel fuel' k' (omega (arith, less))
                  (omega (arith, less)),
            )
            refl
      | inr last ↦ rw last refl
    ]

client_forward-length : (fuel : ℕ) (k : Kcp) → length (Client.forward fuel k).0 ≤ waiting k.rcv + 1
unfolding Client.forward
client_forward-length zero k = omega arith
client_forward-length (suc fuel) k =
    let k' = (recv k (pos recv_buf_size)).2 in
    elim (Bool-cases (ltb_ℤ (pos 0) (recv k (pos recv_buf_size)).0)) [
      | inl more ↦
          rw more (omega (arith, recv-fewer k recv_buf_size more, client_forward-length fuel k'))
      | inr last ↦ rw last (omega arith)
    ]

-- The receiving loops of both samples end on every control block, whatever the sends return: on any fuel
-- from one more than the segments received on they do the same, and the client calls `sendto` at most
-- that often.
pub forward-recv_rounds :
    (k : Kcp) (forwarded : ℕ → ℤ) (fuel : ℕ)
    → recv_rounds k ≤ fuel
    → (Client.forward fuel k ≡ Client.forward (recv_rounds k) k)
      × (Server.forward forwarded 0 fuel k ≡ Server.forward forwarded 0 (recv_rounds k) k)
      × (length (Client.forward fuel k).0 ≤ recv_rounds k)
unfolding recv_rounds
forward-recv_rounds k forwarded fuel enough = (
  client_forward-fuel fuel _ k (omega (arith, enough)) (omega arith),
  server_forward-fuel forwarded 0 fuel _ k (omega (arith, enough)) (omega arith),
  client_forward-length fuel k,
)
