-- ===== src/Kcp/Ack/Bounds.antt =====
-- The round-trip estimate and the list of acknowledgements of lib/kcp/source/ikcp.c.
use fec_kcp.Prelude.{
  ℕ, zero, suc, ◌+◌, ◌*◌, ◌^◌, ◌≤◌, ◌<◌, ◌≡◌, true, ◌%◌, ◌/◌, ltb, ◌-◌, if◌then◌else◌, ◌==◌, ℤ, pos,
  ◌+ℤ◌, if_cases, List, [], ◌∷◌, ◌++◌, length, take, take_all, length-append, length-take, arith,
}
use fec_kcp.Word.{word, signed32}
use fec_kcp.Word.Order.{ibound_bounds}
use fec_kcp.Kcp.State.{Acks, Rtt, rto_max}
use fec_kcp.Kcp.Ack.{quarter, update_ack, grow_block, ack_push}

quarter_sum : (a b : ℕ) → quarter (pos a +ℤ pos b) ≡ (a + b) / 4
unfolding quarter fec_kcp.Prelude.◌+ℤ◌
quarter_sum a b = ground arith

quarter-bounded :
    (bound rttval delta : ℕ)
    → bound ≤ 2 ^ 28
    → rttval ≤ bound
    → delta ≤ bound
    → quarter (signed32 (3 * rttval % word) +ℤ pos delta) ≤ bound
unfolding quarter signed32
quarter-bounded bound rttval delta small h k =
    let exact : 3 * rttval % word ≡ 3 * rttval = omega arith in
    let positive : ltb (3 * rttval) (2 ^ 31) ≡ true = ground arith in
    rw (exact, positive, quarter_sum (3 * rttval) delta) (omega arith)

-- Where the two estimates and the measured round trip are at most `bound`, which is between 1 and 2 ^ 28
-- milliseconds, `ikcp_update_ack` leaves the estimates at most `bound`, and
--  the timeout between the configured minimum, which is at most a minute, and a minute.
pub update_ack_bounds :
    (interval rtt bound : ℕ) (r : Rtt)
    → r.rx_minrto ≤ rto_max
    → 1 ≤ bound
    → bound ≤ 2 ^ 28
    → r.rx_srtt ≤ bound
    → r.rx_rttval ≤ bound
    → rtt ≤ bound
    → let r' = update_ack interval r rtt in
      (r.rx_minrto ≤ r'.rx_rto)
      × (r'.rx_rto ≤ rto_max)
      × (r'.rx_srtt ≤ bound)
      × (r'.rx_rttval ≤ bound)
unfolding update_ack
update_ack_bounds interval rtt bound r h low small srtt rttval short = (
  (ibound_bounds r.rx_minrto _ rto_max h).0,
  (ibound_bounds r.rx_minrto _ rto_max h).1,
  ground arith,
  if_cases (λ v. v ≤ bound) (r.rx_srtt == 0) (λ _. omega arith)
      (λ _. quarter-bounded bound r.rx_rttval _ small rttval (ground arith)),
)

-- The entries that `ikcp_flush` will send.
abbrev pub unsent : Acks → List (ℕ × ℕ)
unsent a = take a.ackcount a.acklist

-- The entries lie inside the block.
pub record IsRoomy (a : Acks) : Type 0 where
  pub inside : a.ackcount ≤ a.ackblock
  pub stored : a.ackcount ≤ length a.acklist

grow_block-le : (fuel b n : ℕ) → 0 < b → n ≤ b + fuel → n ≤ grow_block fuel b n
unfolding grow_block
grow_block-le zero b n h k = omega arith
grow_block-le (suc fuel) b n h k =
    ground (arith, grow_block-le fuel (b * 2) n (omega arith) (omega arith))

-- `ikcp_ack_push` puts the pair behind the ones that are waiting and keeps it inside the block, which
-- it enlarges when it is full.
pub ack_push-unsent :
    (a : Acks) (sn ts : ℕ)
    → IsRoomy a
    → IsRoomy (ack_push a sn ts) × (unsent (ack_push a sn ts) ≡ unsent a ++ (sn, ts) ∷ [])
unfolding ack_push
ack_push-unsent a sn ts v =
    let n = a.ackcount + 1 in
    let e : length (unsent a ++ (sn, ts) ∷ []) ≡ n = omega (
      arith,
      length-append (unsent a) ((sn, ts) ∷ []),
      length-take a.ackcount a.acklist,
      v.stored,
    ) in
    (
      record {
        inside = ground (arith, grow_block-le n 8 n (omega arith) (omega arith), v.inside);
        stored = omega (arith, e);
      },
      take_all (unsent a ++ (sn, ts) ∷ []) n (omega (arith, e)),
    )
