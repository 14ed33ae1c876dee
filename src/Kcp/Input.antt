-- ===== src/Kcp/Input.antt =====
-- lib/kcp/source/ikcp.c: `ikcp_input`, which takes a datagram apart into segments. `bytes` are the
-- `size` bytes at `data`, which is not NULL. Each round of the loop takes at least 24 bytes off, so
-- fuel above the length of the datagram is enough. `none` is a fault, a read past the end of the buffer,
-- or running out of fuel.
pub mod Valid
use fec_kcp.Prelude.{
  ℕ, zero, suc, ◌+◌, ◌*◌, ◌/◌, ◌%◌, ◌^◌, Bool, true, false, ◌||◌, ◌&&◌, not, Option, none, some,
  List, [], ◌∷◌, length, take, drop, ltb, leb, ◌==◌, if◌then◌else◌, ℤ, pos, negsuc,
}
use fec_kcp.Word.{word, add32, sub32, before, after}
use fec_kcp.Kcp.Segment.{
  Segment, Header, decode_header, cmd_push, cmd_ack, cmd_wask, cmd_wins, overhead,
}
use fec_kcp.Kcp.State.{Kcp, Congestion}
use fec_kcp.Kcp.Recv.{parse_data}
use fec_kcp.Kcp.Ack.{update_ack, shrink_buf, parse_ack, parse_una, parse_fastack, ack_push}

-- The locals `flag` and `maxack`. (`latest_ts` is read only under IKCP_FASTACK_CONSERVE.)
pub record Latest : Type 0 where
  pub flag : Bool
  pub maxack : ℕ

-- `kcp->rmt_wnd = wnd; ikcp_parse_una(kcp, una); ikcp_shrink_buf(kcp);`
unfoldable pub begin_segment : Kcp → Header → Kcp
begin_segment k h = record k {
  cong = record (k.cong) { rmt_wnd = h.wnd };
  snd = shrink_buf (parse_una k.snd h.una);
}

-- The branch for IKCP_CMD_ACK.
unfoldable pub input_ack : Kcp → Latest → Header → Kcp × Latest
input_ack k l h = (
  record k {
    rtt =
        if before k.timer.current h.ts
        then k.rtt
        else update_ack k.timer.interval k.rtt (sub32 k.timer.current h.ts);
    snd = shrink_buf (parse_ack k.snd h.sn);
  },
  if not l.flag
      then record { flag = true; maxack = h.sn }
      else if after h.sn l.maxack
      then record l { maxack = h.sn }
      else l,
)

-- The segment that the branch for IKCP_CMD_PUSH allocates and fills; `rto` and the like stay unset.
unfoldable pub received : Header → List ℕ → Segment
received h payload = record {
  conv = h.conv;
  cmd = h.cmd;
  frg = h.frg;
  wnd = h.wnd;
  ts = h.ts;
  sn = h.sn;
  una = h.una;
  len = h.len;
  resendts = 0;
  rto = 0;
  fastack = 0;
  xmit = 0;
  payload = payload;
}

-- The branch for IKCP_CMD_PUSH.
unfoldable pub input_push : Kcp → Header → List ℕ → Kcp
unfolding received
input_push k h payload =
    if before h.sn (add32 k.rcv.rcv_nxt k.rcv.rcv_wnd)
    then record k {
      acks = ack_push k.acks h.sn h.ts;
      rcv = if before h.sn k.rcv.rcv_nxt then k.rcv else parse_data k.rcv (received h payload);
    }
    else k

unfoldable pub known_cmd : ℕ → Bool
known_cmd c = c == cmd_push || c == cmd_ack || c == cmd_wask || c == cmd_wins

-- The rest of the loop body behind the checks: `payload` are the `len` bytes at `data`.
unfoldable pub input_segment : Kcp → Latest → Header → List ℕ → Kcp × Latest
unfolding begin_segment
input_segment k l h payload =
    let k' = begin_segment k h in
    if h.cmd == cmd_ack
    then input_ack k' l h
    else if h.cmd == cmd_push
    then (input_push k' h payload, l)
    else if h.cmd == cmd_wask
    then (record k' { prb = record (k'.prb) { ask_tell = true } }, l)
    else (k', l)

-- How the loop ends: a result below zero returns at once; 0 goes on to the code behind the loop.
pub record Outcome : Type 0 where
  pub result : ℤ
  pub kcp : Kcp
  pub latest : Latest

-- The `len` bytes at `data`, and those behind `data += len`; `none` if that passes the buffer's end.
unfoldable pub read_payload : ℕ → List ℕ → Option (List ℕ × List ℕ)
read_payload len rest = if ltb (length rest) len then none else some (take len rest, drop len rest)

-- The checks of one round, with the loop's other rounds in `next`.
unfoldable pub input_round :
    Kcp → Latest → List ℕ → (Kcp → Latest → List ℕ → Option Outcome) → Option Outcome
unfolding known_cmd read_payload
input_round k l bytes next = elim (decode_header bytes) [
  | none ↦ none
  | some (h, rest) ↦
      if not (h.conv == k.conf.conv)
      then some (record { result = negsuc 1; kcp = k; latest = l })
      else if ltb (length rest) h.len || leb (2 ^ 31) h.len
      then some (record { result = negsuc 1; kcp = k; latest = l })
      else if not (known_cmd h.cmd)
      then some (record { result = negsuc 2; kcp = k; latest = l })
      else elim (read_payload h.len rest) [
        | none ↦ none
        | some (payload, rest') ↦ let (k', l') = input_segment k l h payload in next k' l' rest'
      ]
]

-- `while (1) { if (size < (int)IKCP_OVERHEAD) break; … }`
unfoldable pub input_loop : ℕ → Kcp → Latest → List ℕ → Option Outcome
input_loop zero k l bytes = none
input_loop (suc fuel) k l bytes = elim (ltb (length bytes) overhead) [
  | true ↦ some (record { result = pos 0; kcp = k; latest = l })
  | false ↦ input_round k l bytes (λ k' l' rest. input_loop fuel k' l' rest)
]

-- The growth of `cwnd` behind the loop, when `snd_una` has advanced.
unfoldable pub grow_cwnd : ℕ → Congestion → Congestion
grow_cwnd mss c =
    let incr' = if ltb c.incr mss then mss else c.incr in
    let incr'' = (incr' + (mss * mss % word / incr' + mss / 16)) % word in
    let slow = ltb c.cwnd c.ssthresh in
    let cwnd =
      if slow
      then add32 c.cwnd 1
      else if leb (add32 c.cwnd 1 * mss % word) incr''
      then add32 c.cwnd 1
      else c.cwnd in
    let incr = if slow then add32 c.incr mss else incr'' in
    if not (ltb c.cwnd c.rmt_wnd)
    then c
    else if ltb c.rmt_wnd cwnd
    then record c { cwnd = c.rmt_wnd; incr = c.rmt_wnd * mss % word }
    else record c { cwnd = cwnd; incr = incr }

-- The code behind the loop; `una` is `prev_una`.
unfoldable pub finish_input : ℕ → Kcp → Latest → Kcp
unfolding grow_cwnd
finish_input una k l =
    let s = if l.flag then parse_fastack k.snd l.maxack else k.snd in
    record k { snd = s; cong = if after s.snd_una una then grow_cwnd k.conf.mss k.cong else k.cong }

-- The function's end: a `return` inside the loop, or the code behind it and `return 0`.
unfoldable pub conclude : ℕ → Outcome → ℤ × Kcp
conclude una o = elim (o.result) [
  | negsuc n ↦ (negsuc n, o.kcp)
  | pos _ ↦ (pos 0, finish_input una o.kcp o.latest)
]

-- `ikcp_input(kcp, data, size)`: the result and the new state.
unfoldable pub input : Kcp → List ℕ → Option (ℤ × Kcp)
input k bytes =
    if ltb (length bytes) overhead
    then some (negsuc 0, k)
    else elim (input_loop (suc (length bytes)) k (record { flag = false; maxack = 0 }) bytes) [
      | none ↦ none
      | some o ↦ some (conclude k.snd.snd_una o)
    ]
