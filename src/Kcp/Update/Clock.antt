-- ===== src/Kcp/Update/Clock.antt =====
-- The clock of `ikcp_update` (lib/kcp/source/ikcp.c).
use fec_kcp.Prelude.{
  ℕ, ◌^◌, ◌≤◌, ◌<◌, ◌≡◌, refl, ◌⊎◌, inl, inr, Bool-cases, Bool, true, false, ◌||◌, not, ltb, ◌==◌,
  if◌then◌else◌, pos, leb_ℤ, arith,
}
use fec_kcp.Word.{word, add32, sub32, before, itimediff, signed32}
use fec_kcp.Word.Order.{before_lem, sub32_self}
use fec_kcp.Kcp.State.{Timer}
use fec_kcp.Kcp.Update.{tick}

not_negative : (a b : ℕ) → leb_ℤ (pos 0) (itimediff a b) ≡ not (before a b)
unfolding before
not_negative a b = ground arith

before_opposite : (a b : ℕ) → a < word → b < word → before a b ≡ true → ltb 0 (sub32 b a) ≡ true
unfolding sub32
before_opposite a b h k e = ground (arith, before_lem a b)

-- The planned time, moved on by an interval or set anew.
planned_lem :
    (base current interval : ℕ)
    → current < word
    → base < word
    → 0 < interval
    → interval < 2 ^ 31
    → before current base ≡ false
    → let next = add32 base interval in
      let planned = if before current next then next else add32 current interval in
      (before current planned ≡ true) × (sub32 planned current ≤ interval)
unfolding add32 sub32
planned_lem base current interval h k some_interval half late = (
  ground (
    arith,
    before_lem current base,
    before_lem current (add32 base interval),
    before_lem current (add32 current interval),
  ),
  ground (
    arith,
    before_lem current base,
    before_lem current (add32 base interval),
    before_lem current (add32 current interval),
  ),
)

pub itimediff_self : (a : ℕ) → itimediff a a ≡ pos 0
unfolding itimediff signed32
itimediff_self a = rw (sub32_self a) refl

before_self : (a : ℕ) → before a a ≡ false
before_self a = ground (arith, before_lem a a, sub32_self a)

-- From the planned time `start` on, whatever the test for a jump of the clock says.
replanned_lem :
    (start current interval : ℕ) (far : Bool)
    → current < word
    → start < word
    → 0 < interval
    → interval < 2 ^ 31
    → let base = if far then current else start in
      let due = far || leb_ℤ (pos 0) (itimediff current start) in
      let next = add32 base interval in
      let planned =
        if due then (if before current next then next else add32 current interval) else base in
      (before current planned ≡ true)
      × ((due ≡ true) × (sub32 planned current ≤ interval) ⊎ (due ≡ false) × (planned ≡ start))
replanned_lem start current interval true h k some_interval half =
    let (future, near) =
      planned_lem current current interval h h some_interval half (before_self current) in
    (future, inl (refl, near))
replanned_lem start current interval false h k some_interval half =
    elim (Bool-cases (before current start)) [
      | inl future ↦ rw (not_negative current start, future) (future, inr (refl, refl))
      | inr late ↦
          let (future, near) = planned_lem start current interval h k some_interval half late in
          rw (not_negative current start, late) (future, inl (refl, near))
    ]

-- After the clock part of `ikcp_update` the next flush lies in the future, within the interval if
-- this call flushes. A call that does not flush has found the planned time in the future and keeps it.
pub tick-ts_flush :
    (t : Timer) (current : ℕ)
    → current < word
    → t.ts_flush < word
    → 0 < t.interval
    → t.interval < 2 ^ 31
    → let (t', due) = tick t current in
      (before current t'.ts_flush ≡ true)
      × ((due ≡ true) × (sub32 t'.ts_flush current ≤ t.interval)
          ⊎ (due ≡ false) × (t'.ts_flush ≡ t.ts_flush))
unfolding tick
tick-ts_flush t current h k some_interval half = elim (Bool-cases (t.updated == 0)) [
  | inl fresh ↦
      let (future, near) =
        planned_lem current current t.interval h h some_interval half (before_self current) in
      rw (fresh, itimediff_self current) (future, inl (refl, near))
  | inr running ↦ rw running (replanned_lem t.ts_flush current t.interval _ h k some_interval half)
]
