-- ===== src/Kcp/Ack.antt =====
-- lib/kcp/source/ikcp.c: `ikcp_update_ack` to `ikcp_ack_push`, what an incoming segment does to the
-- sending side, to the round-trip estimate and to the list of acknowledgements.
pub mod Order
pub mod Exact
pub mod Bounds
use fec_kcp.Prelude.{
  ℕ, zero, suc, ◌+◌, ◌-◌, ◌*◌, ◌/◌, ◌%◌, ◌^◌, leb, ℤ, pos, negsuc, ◌+ℤ◌, Bool, ◌||◌, not, List, [],
  ◌∷◌, ◌++◌, take, ltb, ◌==◌, if◌then◌else◌, max,
}
use fec_kcp.Word.{word, add32, signed32, before, after, imax, ibound}
use fec_kcp.Kcp.Segment.{Segment}
use fec_kcp.Kcp.State.{Sender, Acks, Rtt, rto_max}

-- A quarter of an IINT32, cut towards 0, as a 32-bit pattern.
unfoldable pub quarter : ℤ → ℕ
quarter (pos n) = n / 4
quarter (negsuc n) = (word - (n + 1) / 4) % word

-- `ikcp_update_ack(kcp, rtt)` for `rtt` at least 0, as its only caller ensures. `rx_rttval` is a 32-bit
-- pattern; products and sums of IINT32 are taken to wrap, as the sums with `interval`, which are unsigned,
-- do. `delta` is 64 bits wide.
unfoldable pub update_ack : ℕ → Rtt → ℕ → Rtt
unfolding quarter
update_ack interval r rtt =
    let delta = if ltb rtt r.rx_srtt then r.rx_srtt - rtt else rtt - r.rx_srtt in
    let total = (7 * r.rx_srtt + rtt) % word in
    let srtt =
      if r.rx_srtt == 0 then rtt else if ltb total 8 || leb (2 ^ 31) total then 1 else total / 8 in
    let rttval =
      if r.rx_srtt == 0
      then rtt / 2
      else quarter (signed32 (3 * r.rx_rttval % word) +ℤ pos delta) in
    let rto = add32 srtt (imax interval (4 * rttval % word)) in
    record r { rx_srtt = srtt; rx_rttval = rttval; rx_rto = ibound r.rx_minrto rto rto_max }

-- `ikcp_shrink_buf`
unfoldable pub shrink_buf : Sender → Sender
shrink_buf s = elim s.snd_buf [
  | [] ↦ record s { snd_una = s.snd_nxt }
  | g ∷ b ↦ record s { snd_una = g.sn }
]

-- The test at the head of `ikcp_parse_ack` and `ikcp_parse_fastack`.
unfoldable pub not_in_flight : Sender → ℕ → Bool
not_in_flight s sn = before sn s.snd_una || not (before sn s.snd_nxt)

-- The loop of `ikcp_parse_ack`: the buffer and `nsnd_buf`.
unfoldable pub ack_scan : ℕ → List Segment → ℕ → List Segment × ℕ
ack_scan sn [] n = ([], n)
ack_scan sn (g ∷ b) n =
    let rest = ack_scan sn b n in
    if sn == g.sn then (b, n - 1) else if before sn g.sn then (g ∷ b, n) else (g ∷ rest.0, rest.1)

unfoldable pub parse_ack : Sender → ℕ → Sender
unfolding not_in_flight
parse_ack s sn =
    let (b, n) = ack_scan sn s.snd_buf s.nsnd_buf in
    if not_in_flight s sn then s else record s { snd_buf = b; nsnd_buf = n }

-- The loop of `ikcp_parse_una`.
unfoldable pub una_scan : ℕ → List Segment → ℕ → List Segment × ℕ
una_scan una [] n = ([], n)
una_scan una (g ∷ b) n =
    let rest = una_scan una b (n - 1) in if after una g.sn then rest else (g ∷ b, n)

unfoldable pub parse_una : Sender → ℕ → Sender
parse_una s una =
    let (b, n) = una_scan una s.snd_buf s.nsnd_buf in record s { snd_buf = b; nsnd_buf = n }

-- The loop of `ikcp_parse_fastack`; IKCP_FASTACK_CONSERVE is not defined.
unfoldable pub fastack_scan : ℕ → List Segment → List Segment
fastack_scan sn [] = []
fastack_scan sn (g ∷ b) =
    let rest = fastack_scan sn b in
    if before sn g.sn
    then g ∷ b
    else (if sn == g.sn then g else record g { fastack = add32 g.fastack 1 }) ∷ rest

unfoldable pub parse_fastack : Sender → ℕ → Sender
unfolding not_in_flight
parse_fastack s sn =
    let b = fastack_scan sn s.snd_buf in if not_in_flight s sn then s else record s { snd_buf = b }

-- `for (newblock = 8; newblock < newsize; newblock <<= 1)`, on fuel.
unfoldable pub grow_block : ℕ → ℕ → ℕ → ℕ
grow_block zero newblock newsize = newblock
grow_block (suc fuel) newblock newsize =
    let rest = grow_block fuel (newblock * 2) newsize in
    if ltb newblock newsize then rest else newblock

-- `ikcp_ack_push`, where the allocation succeeds. Entries from `ackcount` on are never read.
unfoldable pub ack_push : Acks → ℕ → ℕ → Acks
ack_push a sn ts =
    let newsize = a.ackcount + 1 in
    record {
      acklist = take a.ackcount a.acklist ++ (sn, ts) ∷ [];
      ackcount = a.ackcount + 1;
      ackblock = if ltb a.ackblock newsize then grow_block newsize 8 newsize else a.ackblock;
    }
