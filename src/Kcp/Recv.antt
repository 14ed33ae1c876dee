-- ===== src/Kcp/Recv.antt =====
-- lib/kcp/source/ikcp.c: the receiving side, `ikcp_parse_data`, `ikcp_peeksize` and `ikcp_recv`.
-- The counters of a queue count its nodes, which memory bounds below 2 ^ 32.
pub mod Order
pub mod Take
use fec_kcp.Prelude.{
  ℕ, suc, ◌+◌, ◌-◌, Bool, true, false, ◌&&◌, ◌||◌, not, List, [], ◌∷◌, ◌++◌, take, ltb, leb, ◌==◌,
  if◌then◌else◌, ℤ, pos, negsuc,
}
use fec_kcp.Word.{add32, before, after}
use fec_kcp.Kcp.Segment.{Segment}
use fec_kcp.Kcp.State.{Kcp, Receiver}

-- Where the backward walk of `ikcp_parse_data` over `rcv_buf` stands: it met the number, it found
-- the place, or it passed every segment seen so far.
pub data Walk : Type 0 where
  repeated : Walk
  placed : List Segment → Walk
  passed : Walk

-- The walk from the last segment to the first. The recursion visits the end of the list first.
unfoldable pub walk : Segment → List Segment → Walk
walk s [] = passed
walk s (t ∷ b) = elim (walk s b) [
  | repeated ↦ repeated
  | placed b' ↦ placed (t ∷ b')
  | passed ↦
      if t.sn == s.sn then repeated else if after s.sn t.sn then placed (t ∷ s ∷ b) else passed
]

-- The node goes behind the one where the walk stopped, or to the front.
unfoldable pub insert : Receiver → Segment → Receiver
insert r s = elim (walk s r.rcv_buf) [
  | repeated ↦ r
  | placed b ↦ record r { rcv_buf = b; nrcv_buf = r.nrcv_buf + 1 }
  | passed ↦ record r { rcv_buf = s ∷ r.rcv_buf; nrcv_buf = r.nrcv_buf + 1 }
]

-- The loop "move available data from rcv_buf -> rcv_queue", over the segments of `rcv_buf`.
unfoldable pub deliver_from : List Segment → Receiver → Receiver
deliver_from [] r = record r { rcv_buf = [] }
deliver_from (s ∷ b) r =
    let rest = deliver_from b (record r {
      rcv_nxt = add32 r.rcv_nxt 1;
      rcv_queue = r.rcv_queue ++ s ∷ [];
      nrcv_que = r.nrcv_que + 1;
      nrcv_buf = r.nrcv_buf - 1;
    }) in
    if s.sn == r.rcv_nxt && ltb r.nrcv_que r.rcv_wnd then rest else record r { rcv_buf = s ∷ b }

unfoldable pub deliver : Receiver → Receiver
deliver r = deliver_from r.rcv_buf r

-- The test at the head of `ikcp_parse_data`.
unfoldable pub outside_window : Receiver → ℕ → Bool
outside_window r sn = not (before sn (add32 r.rcv_nxt r.rcv_wnd)) || before sn r.rcv_nxt

-- `ikcp_parse_data`
unfoldable pub parse_data : Receiver → Segment → Receiver
parse_data r s = if outside_window r s.sn then r else deliver (insert r s)

-- The sum over the segments of the first message.
unfoldable pub message_size : List Segment → ℕ
message_size [] = 0
message_size (s ∷ q) = s.len + (if s.frg == 0 then 0 else message_size q)

-- `ikcp_peeksize`
unfoldable pub peeksize : Receiver → ℤ
peeksize r = elim r.rcv_queue [
  | [] ↦ negsuc 0
  | s ∷ q ↦
      if s.frg == 0
      then pos s.len
      else if ltb r.nrcv_que (s.frg + 1)
      then negsuc 0
      else pos (message_size (s ∷ q))
]

-- What the loop "merge fragment" has copied, its length, how many segments it passed, and the rest.
pub record Merged : Type 0 where
  pub bytes : List ℕ
  pub total : ℕ
  pub passed : ℕ
  pub rest : List Segment

unfoldable pub merge : List Segment → Merged
merge [] = record { bytes = []; total = 0; passed = 0; rest = [] }
merge (s ∷ q) =
    let m = merge q in
    if s.frg == 0
    then record { bytes = take s.len s.payload; total = s.len; passed = 1; rest = q }
    else record {
      bytes = take s.len s.payload ++ m.bytes;
      total = s.len + m.total;
      passed = suc m.passed;
      rest = m.rest;
    }

-- `ikcp_recv` behind its three early returns.
unfoldable pub receive : Kcp → Bool → ℤ × List ℕ × Kcp
receive k peek =
    let m = merge k.rcv.rcv_queue in
    let recover = leb k.rcv.rcv_wnd k.rcv.nrcv_que in
    let r = deliver (
      if peek
      then k.rcv
      else record (k.rcv) { rcv_queue = m.rest; nrcv_que = k.rcv.nrcv_que - m.passed }) in
    (
      pos m.total,
      m.bytes,
      record k {
        rcv = r;
        prb = record (k.prb) { ask_tell = k.prb.ask_tell || (ltb r.nrcv_que r.rcv_wnd && recover) };
      },
    )

-- The request's length, and whether it is negative.
abbrev pub magnitude : ℤ → ℕ
magnitude (pos n) = n
magnitude (negsuc n) = suc n

abbrev pub is_negative : ℤ → Bool
is_negative (pos n) = false
is_negative (negsuc n) = true

-- `ikcp_recv(kcp, buffer, len)` with a buffer: the result, the bytes copied, the new state.
unfoldable pub recv : Kcp → ℤ → ℤ × List ℕ × Kcp
unfolding receive
recv k len = elim k.rcv.rcv_queue [
  | [] ↦ (negsuc 0, [], k)
  | s ∷ q ↦ elim (peeksize k.rcv) [
    | negsuc _ ↦ (negsuc 1, [], k)
    | pos size ↦ if ltb (magnitude len) size then (negsuc 2, [], k) else receive k (is_negative len)
  ]
]
