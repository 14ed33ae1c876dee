-- ===== src/Kcp/Recv/Order.antt =====
-- The receiving side of lib/kcp/source/ikcp.c: `rcv_buf` stays sorted and free of repetitions in the
-- modular order of the window, and `rcv_queue` holds consecutive sequence numbers.
use fec_kcp.Prelude.{
  ℕ, suc, ◌+◌, ◌-◌, ◌^◌, ◌≤◌, ◌<◌, ◌≡◌, ◌≢◌, refl, ap, ◌∙◌, sym, ◌⊎◌, inl, inr, true, false, ◌&&◌,
  List, [], ◌∷◌, ◌++◌, length, length-append, ltb, ◌==◌, arith, Bool-cases,
}
use fec_kcp.Word.{word, add32, sub32}
use fec_kcp.Word.Order.{
  before_lem, sub32-add32, sub32-lt, sub32-add32_one, add32-lt, sub32-offset, after-offset,
  eq-offset,
}
use fec_kcp.Kcp.Segment.{Segment}
use fec_kcp.Kcp.State.{Receiver}
use fec_kcp.Kcp.Recv.{
  Walk, repeated, placed, passed, walk, insert, deliver_from, deliver, outside_window, parse_data,
}

-- How far the segment is ahead of `nxt`.
abbrev pub offset : ℕ → Segment → ℕ
offset nxt s = sub32 s.sn nxt

-- Offsets from `lo` up, strictly increasing, and inside the window.
abbrev pub Ascending : ℕ → ℕ → ℕ → List Segment → Type 0
Ascending nxt wnd lo [] = Unit {0}
Ascending nxt wnd lo (s ∷ b) =
    (s.sn < word)
    × (lo ≤ offset nxt s)
    × (offset nxt s < wnd)
    × Ascending nxt wnd (suc (offset nxt s)) b

-- Consecutive numbers from `start` up to just below `nxt`.
abbrev pub Consecutive : ℕ → List Segment → ℕ → Type 0
Consecutive start [] nxt = start ≡ nxt
Consecutive start (s ∷ q) nxt = (s.sn ≡ start) × Consecutive (add32 start 1) q nxt

-- The invariant, with the segments of `rcv_buf` that a loop has still to see as `b`.
pub record Holds (start : ℕ) (r : Receiver) (b : List Segment) : Type 0 where
  pub nxt : r.rcv_nxt < word
  pub wnd : r.rcv_wnd ≤ 2 ^ 31
  pub sorted : Ascending r.rcv_nxt r.rcv_wnd 0 b
  pub delivered : Consecutive start r.rcv_queue r.rcv_nxt
  pub count_buf : r.nrcv_buf ≡ length b
  pub count_que : r.nrcv_que ≡ length r.rcv_queue

abbrev pub IsOrdered : ℕ → Receiver → Type 0
IsOrdered start r = Holds start r r.rcv_buf

-- Nothing more can be moved: the next number is not buffered, or the queue is full.
abbrev pub IsDrained : Receiver → List Segment → Type 0
IsDrained r [] = Unit {0}
IsDrained r (s ∷ b) = (s.sn ≢ r.rcv_nxt) ⊎ (r.rcv_wnd ≤ r.nrcv_que)

pub Ascending-weaken :
    (nxt wnd lo lo' : ℕ) (b : List Segment)
    → lo' ≤ lo
    → Ascending nxt wnd lo b
    → Ascending nxt wnd lo' b
Ascending-weaken nxt wnd lo lo' [] h a = a
Ascending-weaken nxt wnd lo lo' (s ∷ b) h a = (a.0, omega arith, a.2, a.3)

-- Moving the base on by one takes one off every offset.
Ascending-rebase :
    (nxt wnd lo : ℕ) (b : List Segment)
    → Ascending nxt wnd (suc lo) b
    → Ascending (add32 nxt 1) wnd lo b
Ascending-rebase nxt wnd lo [] a = a
Ascending-rebase nxt wnd lo (s ∷ b) a =
    let e = sub32-add32_one s.sn nxt (omega arith) in
    (
      a.0,
      omega arith,
      omega arith,
      Ascending-rebase nxt wnd (suc (offset (add32 nxt 1) s)) b
          (Ascending-weaken nxt wnd _ _ b (omega arith) a.3),
    )

-- What the backward walk has found out about the segments behind it.
abbrev Walked : ℕ → ℕ → ℕ → Segment → List Segment → Walk → Type 0
Walked nxt wnd lo s b repeated = Unit {0}
Walked nxt wnd lo s b (placed b') = Ascending nxt wnd lo b' × (length b' ≡ suc (length b))
Walked nxt wnd lo s b passed = Ascending nxt wnd (suc (offset nxt s)) b

module _ (nxt wnd : ℕ) (small : wnd ≤ 2 ^ 31) (s : Segment) (fits : s.sn < word)
    (inside : offset nxt s < wnd) where
  walk_step :
      (lo : ℕ) (t : Segment) (b : List Segment)
      → Ascending nxt wnd lo (t ∷ b)
      → Walked nxt wnd (suc (offset nxt t)) s b (walk s b)
      → Walked nxt wnd lo s (t ∷ b) (walk s (t ∷ b))
  unfolding walk
  walk_step lo t b a ih = ground (
    arith,
    after-offset s.sn t.sn nxt (omega arith) (omega arith),
    eq-offset t.sn s.sn nxt a.0 fits,
  )

  walk-Walked :
      (lo : ℕ) (b : List Segment) → Ascending nxt wnd lo b → Walked nxt wnd lo s b (walk s b)
  walk-Walked lo [] a = unfold walk in tt
  walk-Walked lo (t ∷ b) a = walk_step lo t b a (walk-Walked (suc (offset nxt t)) b a.3)

insert-IsOrdered :
    (start : ℕ) (r : Receiver) (s : Segment)
    → IsOrdered start r
    → s.sn < word
    → offset r.rcv_nxt s < r.rcv_wnd
    → IsOrdered start (insert r s)
unfolding insert
insert-IsOrdered start r s v fits inside =
    ground (arith, walk-Walked r.rcv_nxt r.rcv_wnd v.wnd s fits inside 0 r.rcv_buf v.sorted)

Consecutive-append :
    (start nxt : ℕ) (q : List Segment) (s : Segment)
    → Consecutive start q nxt
    → s.sn ≡ nxt
    → Consecutive start (q ++ s ∷ []) (add32 nxt 1)
Consecutive-append start nxt [] s c e = (e ∙ sym c, ap (λ n. add32 n 1) c)
Consecutive-append start nxt (g ∷ q) s c e = (c.0, Consecutive-append (add32 start 1) nxt q s c.1 e)

-- One round of the loop: the receiver after it has moved `s`.
abbrev moved : Receiver → Segment → Receiver
moved r s = record r {
  rcv_nxt = add32 r.rcv_nxt 1;
  rcv_queue = r.rcv_queue ++ s ∷ [];
  nrcv_que = r.nrcv_que + 1;
  nrcv_buf = r.nrcv_buf - 1;
}

moved-Holds :
    (start : ℕ) (r : Receiver) (s : Segment) (b : List Segment)
    → Holds start r (s ∷ b)
    → s.sn ≡ r.rcv_nxt
    → Holds start (moved r s) b
moved-Holds start r s b v e = record {
  nxt = add32-lt r.rcv_nxt 1;
  wnd = v.wnd;
  sorted =
      Ascending-rebase r.rcv_nxt r.rcv_wnd 0 b
        (Ascending-weaken r.rcv_nxt r.rcv_wnd _ 1 b (omega arith) v.sorted.3);
  delivered = Consecutive-append start r.rcv_nxt r.rcv_queue s v.delivered e;
  count_buf = omega (arith, v.count_buf);
  count_que = omega (arith, v.count_que, length-append r.rcv_queue (s ∷ []));
}

pub deliver_from-Holds :
    (start : ℕ) (b : List Segment) (r : Receiver)
    → Holds start r b
    → let r' = deliver_from b r in IsOrdered start r' × IsDrained r' r'.rcv_buf
unfolding deliver_from
deliver_from-Holds start [] r v = (
  record {
    nxt = v.nxt;
    wnd = v.wnd;
    sorted = tt;
    delivered = v.delivered;
    count_buf = v.count_buf;
    count_que = v.count_que;
  },
  tt,
)
deliver_from-Holds start (s ∷ b) r v =
    elim (Bool-cases (s.sn == r.rcv_nxt && ltb r.nrcv_que r.rcv_wnd)) [
      | inl more ↦
          rw more
            (deliver_from-Holds start b (moved r s) (moved-Holds start r s b v (ground arith)))
      | inr stop ↦ rw stop (
        record {
          nxt = v.nxt;
          wnd = v.wnd;
          sorted = v.sorted;
          delivered = v.delivered;
          count_buf = v.count_buf;
          count_que = v.count_que;
        },
        ground arith,
      )
    ]

-- What the test at the head of `ikcp_parse_data` leaves.
inside_window :
    (r : Receiver) (sn : ℕ)
    → r.rcv_wnd ≤ 2 ^ 31
    → outside_window r sn ≡ false
    → sub32 sn r.rcv_nxt < r.rcv_wnd
unfolding outside_window
inside_window r sn h e = ground (
  arith,
  before_lem sn (add32 r.rcv_nxt r.rcv_wnd),
  before_lem sn r.rcv_nxt,
  sub32-offset sn (add32 r.rcv_nxt r.rcv_wnd) r.rcv_nxt,
  sub32-add32 r.rcv_nxt r.rcv_wnd (omega arith),
  sub32-lt sn (add32 r.rcv_nxt r.rcv_wnd),
)

-- The receive invariant survives every incoming data segment, in any order and repeated: `rcv_buf`
-- stays sorted, free of repetitions and inside the window, `rcv_queue` keeps the consecutive numbers
-- from the same start up to `rcv_nxt`, and the counters count. For a segment inside the window,
-- nothing that could be delivered is left in `rcv_buf` behind.
pub parse_data-IsOrdered :
    (start : ℕ) (r : Receiver) (s : Segment)
    → IsOrdered start r
    → s.sn < word
    → let r' = parse_data r s in
      IsOrdered start r' × ((outside_window r s.sn ≡ true) ⊎ IsDrained r' r'.rcv_buf)
unfolding parse_data deliver
parse_data-IsOrdered start r s v fits = elim (Bool-cases (outside_window r s.sn)) [
  | inl out ↦ rw out (v, inl refl)
  | inr here ↦
      let (w, drained) =
        deliver_from-Holds start _ (insert r s)
          (insert-IsOrdered start r s v fits (inside_window r s.sn v.wnd here)) in
      rw here (w, inr drained)
]
