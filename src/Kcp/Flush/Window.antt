-- ===== src/Kcp/Flush/Window.antt =====
-- "move data from snd_queue to snd_buf" in `ikcp_flush` (lib/kcp/source/ikcp.c): the send window.
use fec_kcp.Prelude.{
  ℕ, suc, ◌+◌, ◌-◌, ◌^◌, ◌≤◌, ◌<◌, ◌≡◌, ap, ◌∙◌, sym, append-nil, append_assoc, take, take_all,
  List, [], ◌∷◌, ◌++◌, max, length-append, All, All-append, ltb, arith, Bool-cases, inl, inr,
  ltb→lt,
}
use fec_kcp.Word.{word, before, add32, sub32}
use fec_kcp.Word.Order.{before_lem, sub32-lt, sub32-offset, sub32-add32, add32-lt}
use fec_kcp.Kcp.Segment.{Segment}
use fec_kcp.Kcp.State.{Sender}
use fec_kcp.Kcp.Recv.Order.{offset, Ascending}
use fec_kcp.Kcp.Ack.Order.{in_flight, IsSending}
use fec_kcp.Kcp.Flush.{fill_from, fill}

Ascending-append :
    (una w lo : ℕ) (b : List Segment) (g : Segment)
    → lo ≤ w
    → g.sn < word
    → offset una g ≡ w
    → Ascending una w lo b
    → Ascending una (suc w) lo (b ++ g ∷ [])
Ascending-append una w lo [] g h small e a = (small, omega arith, omega arith, tt)
Ascending-append una w lo (t ∷ b) g h small e a = (
  a.0,
  a.1,
  omega arith,
  Ascending-append una w (suc (offset una t)) b g (omega arith) small e a.3,
)

-- `snd_nxt` moved on by one.
step_flight :
    (s : Sender) → in_flight s < 2 ^ 31 → sub32 (add32 s.snd_nxt 1) s.snd_una ≡ suc (in_flight s)
step_flight s h = omega (
  arith,
  sub32-offset (add32 s.snd_nxt 1) s.snd_nxt s.snd_una,
  sub32-add32 s.snd_nxt 1 (omega arith),
  sub32-lt (add32 s.snd_nxt 1) s.snd_una,
)

-- The loop's test is that the window is not full.
before-window :
    (s : Sender) (cwnd : ℕ)
    → cwnd < 2 ^ 31
    → in_flight s < 2 ^ 31
    → before s.snd_nxt (add32 s.snd_una cwnd) ≡ ltb (in_flight s) cwnd
before-window s cwnd small half = ground (
  arith,
  before_lem s.snd_nxt (add32 s.snd_una cwnd),
  sub32-offset s.snd_nxt (add32 s.snd_una cwnd) s.snd_una,
  sub32-add32 s.snd_una cwnd (omega arith),
  sub32-lt s.snd_nxt (add32 s.snd_una cwnd),
  sub32-lt s.snd_nxt s.snd_una,
)

module _ (mark : ℕ → Segment → Segment) (cwnd : ℕ) (small : cwnd < 2 ^ 31)
    (numbers : (n : ℕ) (g : Segment) → (mark n g).sn ≡ n) where
  -- The sender after one round.
  abbrev sent_one : Sender → Segment → Sender
  sent_one s g = record s {
    snd_nxt = add32 s.snd_nxt 1;
    snd_buf = s.snd_buf ++ mark s.snd_nxt g ∷ [];
    nsnd_que = s.nsnd_que - 1;
    nsnd_buf = s.nsnd_buf + 1;
  }

  sent_one-IsSending :
      (s : Sender) (g : Segment) → in_flight s < cwnd → IsSending s → IsSending (sent_one s g)
  sent_one-IsSending s g room v =
      let e = step_flight s (omega arith) in
      record {
        una = v.una;
        nxt = add32-lt s.snd_nxt 1;
        half = omega (arith, e);
        sorted = rw e (
            Ascending-append s.snd_una (in_flight s) 0 s.snd_buf (mark s.snd_nxt g) (omega arith)
              (omega (arith, numbers s.snd_nxt g, v.nxt))
              (ap (λ n. sub32 n s.snd_una) (numbers s.snd_nxt g)) v.sorted);
        count_buf = omega (arith, v.count_buf, length-append s.snd_buf (mark s.snd_nxt g ∷ []));
      }

  fill_from-IsSending :
      (q : List Segment) (s : Sender)
      → IsSending s
      → IsSending (fill_from mark cwnd q s)
        × (in_flight (fill_from mark cwnd q s) ≤ max (in_flight s) cwnd)
  unfolding fill_from
  fill_from-IsSending [] s v = (
    record { una = v.una; nxt = v.nxt; half = v.half; sorted = v.sorted; count_buf = v.count_buf },
    omega arith,
  )
  fill_from-IsSending (g ∷ q) s v =
      let w = before-window s cwnd small v.half in
      elim (Bool-cases (ltb (in_flight s) cwnd)) [
        | inl room ↦
            let next = sent_one-IsSending s g (ltb→lt _ _ room) v in
            let (ih, bound) = fill_from-IsSending q (sent_one s g) next in
            let e = step_flight s (omega (arith, ltb→lt (in_flight s) cwnd room)) in
            rw (w, room) (ih, omega (arith, e, ltb→lt (in_flight s) cwnd room, bound))
        | inr full ↦
            rw (w, full)
              (
                record {
                  una = v.una;
                  nxt = v.nxt;
                  half = v.half;
                  sorted = v.sorted;
                  count_buf = v.count_buf;
                },
                omega arith,
              )
      ]

  -- Filling the window keeps the invariant of the sending side, and puts at most `cwnd` segments in
  -- flight, unless more were in flight before.
  pub fill-IsSending :
      (s : Sender)
      → IsSending s
      → IsSending (fill mark cwnd s) × (in_flight (fill mark cwnd s) ≤ max (in_flight s) cwnd)
  unfolding fill
  fill-IsSending s v = fill_from-IsSending s.snd_queue s v

-- A property of segments that marking keeps.
fill_from-All {ℓ} :
    (P : Segment → Type ℓ) (mark : ℕ → Segment → Segment) (cwnd : ℕ)
    → ((n : ℕ) (g : Segment) → P g → P (mark n g))
    → (q : List Segment) (s : Sender) → All P q
    → All P s.snd_buf
    → All P (fill_from mark cwnd q s).snd_queue × All P (fill_from mark cwnd q s).snd_buf
unfolding fill_from
fill_from-All P mark cwnd keep [] s a b = (tt, b)
fill_from-All P mark cwnd keep (g ∷ q) s a b =
    elim (Bool-cases (before s.snd_nxt (add32 s.snd_una cwnd))) [
      | inl room ↦ rw room (
          fill_from-All P mark cwnd keep q _ a.1
            (All-append P s.snd_buf (mark s.snd_nxt g ∷ []) b (keep s.snd_nxt g a.0, tt)))
      | inr full ↦ rw full (a, b)
    ]

pub fill-All {ℓ} :
    (P : Segment → Type ℓ) (mark : ℕ → Segment → Segment) (cwnd : ℕ)
    → ((n : ℕ) (g : Segment) → P g → P (mark n g))
    → (s : Sender) → All P s.snd_queue
    → All P s.snd_buf
    → All P (fill mark cwnd s).snd_queue × All P (fill mark cwnd s).snd_buf
unfolding fill
fill-All P mark cwnd keep s a b = fill_from-All P mark cwnd keep s.snd_queue s a b

-- Segments with the numbers from `n` on.
unfoldable pub marked : (ℕ → Segment → Segment) → ℕ → List Segment → List Segment
marked mark n [] = []
marked mark n (g ∷ q) = mark n g ∷ marked mark (add32 n 1) q

fill_from-marked :
    (mark : ℕ → Segment → Segment) (cwnd : ℕ)
    → cwnd < 2 ^ 31
    → (q : List Segment) (s : Sender) → in_flight s < 2 ^ 31
    → (fill_from mark cwnd q s).snd_buf
      ≡ s.snd_buf ++ marked mark s.snd_nxt (take (cwnd - in_flight s) q)
unfolding fill_from marked
fill_from-marked mark cwnd small [] s half =
    sym (append-nil s.snd_buf)
    ∙ ap (λ q. s.snd_buf ++ marked mark s.snd_nxt q)
        (sym (take_all [] (cwnd - in_flight s) (omega arith)))
fill_from-marked mark cwnd small (g ∷ q) s half =
    let w = before-window s cwnd small half in
    elim (Bool-cases (ltb (in_flight s) cwnd)) [
      | inl room ↦
          let h = ltb→lt (in_flight s) cwnd room in
          let e = step_flight s half in
          let left : cwnd - in_flight s ≡ suc (cwnd - suc (in_flight s)) = omega arith in
          let ih =
            fill_from-marked mark cwnd small q
              (record s {
                snd_nxt = add32 s.snd_nxt 1;
                snd_buf = s.snd_buf ++ mark s.snd_nxt g ∷ [];
                nsnd_que = s.nsnd_que - 1;
                nsnd_buf = s.nsnd_buf + 1;
              })
              (omega (arith, e)) in
          rw (w, room, left)
            (ih
              ∙ append_assoc s.snd_buf (mark s.snd_nxt g ∷ []) _
              ∙ ap
                  (λ m.
                    s.snd_buf
                    ++ mark s.snd_nxt g ∷ marked mark (add32 s.snd_nxt 1) (take (cwnd - m) q))
                  e)
      | inr full ↦
          let none_left : cwnd - in_flight s ≡ 0 = ground arith in
          rw (w, full, none_left) (sym (append-nil s.snd_buf))
    ]

-- What the loop moves: as many segments as the window has room for, with the next numbers.
pub fill-marked :
    (mark : ℕ → Segment → Segment) (cwnd : ℕ) (s : Sender)
    → cwnd < 2 ^ 31
    → in_flight s < 2 ^ 31
    → (fill mark cwnd s).snd_buf
      ≡ s.snd_buf ++ marked mark s.snd_nxt (take (cwnd - in_flight s) s.snd_queue)
unfolding fill
fill-marked mark cwnd s small half = fill_from-marked mark cwnd small s.snd_queue s half
