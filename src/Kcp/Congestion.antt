-- ===== src/Kcp/Congestion.antt =====
-- The congestion window of lib/kcp/source/ikcp.c over the life of a control block: its growth in
-- `ikcp_input` and its reduction in `ikcp_flush`.
use mathlib.Core.Option.{some-injective}
use fec_kcp.Prelude.{
  ℕ, suc, ◌≤◌, ◌<◌, ◌≡◌, refl, ap, ◌∙◌, subst, Bool, true, false, ◌==◌, ◌⊎◌, inl, inr, Bool-cases,
  some, List, length, All, ltb, ℤ, arith,
}
use fec_kcp.Word.{add32}
use fec_kcp.Kcp.Segment.{overhead}
use fec_kcp.Kcp.Segment.Bytes.{IsByte}
use fec_kcp.Kcp.State.{Kcp, Congestion, Timer, create}
use fec_kcp.Kcp.Input.{Latest, Outcome, grow_cwnd, finish_input, conclude, input}
use fec_kcp.Kcp.Input.Valid.{input_loop-Ends}
use fec_kcp.Kcp.Flush.{update_cwnd, flush, flush_now}
use fec_kcp.Kcp.Update.{tick, update}
use fec_kcp.Kcp.Update.Clock.{itimediff_self}
use fec_kcp.Kcp.Valid.{IsValid}
use fec_kcp.Kcp.Unmoved.{Unmoved, send-Unmoved, recv-Unmoved, Leaves, input_loop-Leaves}
use fec_kcp.Kcp.Life.{Step, sends, receives, inputs, updates, Reach, here, next, Reach-IsValid}

-- The slow start threshold is two segments at least and, from the first `ikcp_update` on, the congestion
-- window one.
pub record IsOpen (k : Kcp) : Type 0 where
  pub threshold : 2 ≤ k.cong.ssthresh
  pub window : (k.timer.updated ≡ 0) ⊎ (1 ≤ k.cong.cwnd)

Unmoved-IsOpen : (k k' : Kcp) → Unmoved k k' → IsOpen k → IsOpen k'
Unmoved-IsOpen k k' u w = record {
  threshold = omega (arith, u.ssthresh, w.threshold);
  window = elim (w.window) [
    | inl still ↦ inl (u.updated ∙ still)
    | inr room ↦ inr (omega (arith, u.cwnd, room))
  ];
}

-- The growth behind the loop does not close the window.
grow_cwnd_floor :
    (mss : ℕ) (c : Congestion)
    → c.rmt_wnd < 65536
    → (c.cwnd ≤ (grow_cwnd mss c).cwnd) × ((grow_cwnd mss c).ssthresh ≡ c.ssthresh)
unfolding grow_cwnd add32
grow_cwnd_floor mss c h = (ground arith, ground arith)

finish_input-IsOpen :
    (una : ℕ) (k : Kcp) (l : Latest)
    → k.cong.rmt_wnd < 65536
    → IsOpen k
    → IsOpen (finish_input una k l)
unfolding finish_input
finish_input-IsOpen una k l narrow w =
    let (up, same) = grow_cwnd_floor k.conf.mss k.cong narrow in
    record {
      threshold = ground (arith, same, w.threshold);
      window = elim (w.window) [
        | inl still ↦ inl still
        | inr room ↦ inr (ground (arith, up, room))
      ];
    }

conclude-IsOpen :
    (una : ℕ) (o : Outcome) → o.kcp.cong.rmt_wnd < 65536 → IsOpen o.kcp → IsOpen (conclude una o).1
unfolding conclude
conclude-IsOpen una o narrow w = ground (arith, finish_input-IsOpen una o.kcp o.latest narrow w)

input-IsOpen :
    (start : ℕ) (k : Kcp) (bytes : List ℕ) {result : ℤ} {k' : Kcp}
    → All IsByte bytes
    → IsValid start k
    → IsOpen k
    → input k bytes ≡ some (result, k')
    → IsOpen k'
unfolding input
input-IsOpen start k bytes b v w = elim (Bool-cases (ltb (length bytes) overhead)) [
  | inl short ↦ rw short (λ e. subst IsOpen (ap (λ t. t.1) (some-injective _ _ e)) w)
  | inr more ↦
      let unset : Latest = record { flag = false; maxack = 0 } in
      let (o, e', v') =
        input_loop-Ends (suc (length bytes)) start k unset bytes (omega arith) b v in
      let stays = subst (Leaves k) e' (input_loop-Leaves (suc (length bytes)) k unset bytes) in
      let room = conclude-IsOpen k.snd.snd_una o v'.remote (Unmoved-IsOpen k o.kcp stays w) in
      rw (more, e') (λ e. subst IsOpen (ap (λ t. t.1) (some-injective _ _ e)) room)
]

update_cwnd_floor :
    (mss window inflight resent : ℕ) (change lost : Bool) (c : Congestion)
    → 2 ≤ c.ssthresh
    → let c' = update_cwnd mss window inflight resent change lost c in
      (1 ≤ c'.cwnd) × (2 ≤ c'.ssthresh)
unfolding update_cwnd
update_cwnd_floor mss window inflight resent change lost c h = (ground arith, ground arith)

-- The first `ikcp_update` flushes.
tick_first : (t : Timer) (current : ℕ) → t.updated ≡ 0 → (tick t current).1 ≡ true
unfolding tick
tick_first t current e =
    let now : (t.updated == 0) ≡ true = ground arith in rw (now, itimediff_self current) refl

tick-updated : (t : Timer) (current : ℕ) → 0 < (tick t current).0.updated
unfolding tick
tick-updated t current = ground arith

flush-IsOpen : (k : Kcp) → 0 < k.timer.updated → 2 ≤ k.cong.ssthresh → IsOpen (flush k).0
unfolding flush flush_now
flush-IsOpen k started h =
    let e : (k.timer.updated == 0) ≡ false = ground arith in
    let (room, half) = update_cwnd_floor k.conf.mss _ _ _ _ _ k.cong h in
    rw e (record { threshold = half; window = inr room })

update-IsOpen : (k : Kcp) (current : ℕ) → IsOpen k → IsOpen (update k current).0
unfolding update
update-IsOpen k current w =
    let t = (tick k.timer current).0 in
    elim (Bool-cases (tick k.timer current).1) [
      | inl due ↦
          rw due (flush-IsOpen (record k { timer = t }) (tick-updated k.timer current) w.threshold)
      | inr later ↦ rw later (record {
        threshold = w.threshold;
        window = elim (w.window) [
          | inl first ↦ cc (tick_first k.timer current first, later)
          | inr room ↦ inr room
        ];
      })
    ]

Step-IsOpen : (start : ℕ) {k k' : Kcp} → Step k k' → IsValid start k → IsOpen k → IsOpen k'
Step-IsOpen start {k} (sends buf len h) v w = Unmoved-IsOpen k _ (send-Unmoved k buf len) w
Step-IsOpen start {k} (receives size) v w = Unmoved-IsOpen k _ (recv-Unmoved k size) w
Step-IsOpen start {k} (inputs bytes b e) v w = input-IsOpen start k bytes b v w e
Step-IsOpen start {k} (updates current) v w = update-IsOpen k current w

create-IsOpen : (conv : ℕ) → IsOpen (create conv)
unfolding create
create-IsOpen conv = record { threshold = omega arith; window = inl refl }

-- From `ikcp_create` on, after any calls of `ikcp_send` with a buffer at least as long as the length given,
-- which may be negative, of `ikcp_recv` with any size, of `ikcp_input` with any bytes and of `ikcp_update` at
-- any times, the slow start threshold is two segments or more and, once `updated` is set, as
-- the first `ikcp_update` does, the congestion window is one segment or more, whatever was lost.
pub Reach-IsOpen : (conv : ℕ) {k : Kcp} → Reach (create conv) k → IsOpen k
Reach-IsOpen conv here = create-IsOpen conv
Reach-IsOpen conv (next r s) =
    let (start, v) = Reach-IsValid conv r in Step-IsOpen start s v (Reach-IsOpen conv r)
