-- ===== src/Kcp/Send.antt =====
-- lib/kcp/source/ikcp.c: `ikcp_send`, which cuts a message into segments of at most `mss` bytes, and
-- `ikcp_waitsnd`. `buf` is the caller's buffer, not NULL. Allocations succeed. A segment fresh from
-- `ikcp_segment_new` has only `len`, `frg` and its data set; the other fields are written by
-- `ikcp_flush` before anything reads them, and are 0 here.
pub mod Fragment
use fec_kcp.Prelude.{
  ℕ, zero, suc, ◌+◌, ◌-◌, ◌/◌, ◌≡◌, Bool, true, false, ◌&&◌, not, List, [], ◌∷◌, ◌++◌, take, drop,
  ltb, leb, ◌==◌, if◌then◌else◌, ℤ, pos, negsuc,
}
use fec_kcp.Kcp.Segment.{Segment}
use fec_kcp.Kcp.State.{Kcp, Sender, wnd_rcv}

unfoldable pub segment_new : ℕ → ℕ → List ℕ → Segment
segment_new len frg payload = record {
  conv = 0;
  cmd = 0;
  frg = frg;
  wnd = 0;
  ts = 0;
  sn = 0;
  una = 0;
  len = len;
  resendts = 0;
  rto = 0;
  fastack = 0;
  xmit = 0;
  payload = payload;
}

-- The block for streaming mode: the last queued segment is replaced by one that also holds the
-- first bytes of `buf`. The result is the queue, with the bytes and the length that are left.
unfoldable pub extend_tail : ℕ → List Segment → List ℕ → ℕ → List Segment × List ℕ × ℕ
unfolding segment_new
extend_tail mss [] buf len = ([], buf, len)
extend_tail mss (old ∷ []) buf len =
    let capacity = mss - old.len in
    let extend = if ltb len capacity then len else capacity in
    if ltb old.len mss
    then (
      segment_new (old.len + extend) 0 (take old.len old.payload ++ take extend buf) ∷ [],
      drop extend buf,
      len - extend,
    )
    else (old ∷ [], buf, len)
extend_tail mss (s ∷ t ∷ q) buf len =
    let (q', buf', len') = extend_tail mss (t ∷ q) buf len in (s ∷ q', buf', len')

-- The loop over the fragments, with `n` rounds left: in round `i` of `count`, `n` is `count - i`.
unfoldable pub fragment : ℕ → Bool → ℕ → List ℕ → ℕ → List Segment
fragment mss stream zero buf len = []
fragment mss stream (suc n) buf len =
    let size = if ltb mss len then mss else len in
    segment_new size (if stream then 0 else n) (take size buf)
    ∷ fragment mss stream n (drop size buf) (len - size)

unfoldable pub fragment_count : ℕ → ℕ → ℕ
fragment_count mss len = if leb len mss then 1 else (len + mss - 1) / mss

-- The part of `ikcp_send` below the streaming block.
unfoldable pub enqueue : Kcp → Bool → List Segment → List ℕ → ℕ → ℤ × Kcp
enqueue k stream queue buf len =
    let mss = k.conf.mss in
    let count = fragment_count mss len in
    if leb wnd_rcv count
    then (negsuc 1, record k { snd = record (k.snd) { snd_queue = queue } })
    else let rounds = if count == 0 then 1 else count in
      (
        pos 0,
        record k {
          snd = record (k.snd) {
            snd_queue = queue ++ fragment mss stream rounds buf len;
            nsnd_que = k.snd.nsnd_que + rounds;
          };
        },
      )

-- `ikcp_send(kcp, buf, len)`: the result and the new state.
unfoldable pub send : Kcp → List ℕ → ℤ → ℤ × Kcp
unfolding enqueue
send k buf (negsuc _) = (negsuc 0, k)
send k buf (pos len) =
    let stream = not (k.conf.stream == 0) in
    let (queue, buf', len') = extend_tail k.conf.mss k.snd.snd_queue buf len in
    if stream
    then if len' == 0
      then (pos 0, record k { snd = record (k.snd) { snd_queue = queue } })
      else enqueue k stream queue buf' len'
    else enqueue k stream k.snd.snd_queue buf len

unfoldable pub waitsnd : Kcp → ℕ
waitsnd k = k.snd.nsnd_buf + k.snd.nsnd_que
