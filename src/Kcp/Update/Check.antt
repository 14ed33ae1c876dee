-- ===== src/Kcp/Update/Check.antt =====
-- `ikcp_check` (lib/kcp/source/ikcp.c) against `ikcp_update`.
use fec_kcp.Prelude.{
  ℕ, ◌+◌, ◌-◌, ◌^◌, ◌≤◌, ◌<◌, ◌≡◌, refl, Bool, true, false, ◌||◌, if_cases, List, [], ◌∷◌, All, ltb,
  leb, ◌==◌, if◌then◌else◌, ℤ, pos, negsuc, ltb_ℤ, leb_ℤ, arith,
}
use fec_kcp.Word.{word, add32, sub32, after, itimediff, signed32}
use fec_kcp.Word.Order.{after_lem, sub32_self, sub32-lt, sub32-add32}
use fec_kcp.Kcp.Segment.{Segment}
use fec_kcp.Kcp.State.{Kcp}
use fec_kcp.Kcp.Update.{tick, update, packet_wait, check}

-- A planned time that is at most 10000 ms ahead.
abbrev Ahead : ℤ → Type 0
Ahead slap =
    (leb_ℤ (pos 10000) slap ≡ false)
    × (ltb_ℤ slap (negsuc 9999) ≡ false)
    × (leb_ℤ (pos 0) slap ≡ false)

signed32-Ahead : (w v : ℕ) → w ≤ v → v < word → Ahead (signed32 w) → Ahead (signed32 v)
unfolding signed32
signed32-Ahead w v h k a = (ground arith, ground arith, ground arith)

sub32-add32_before :
    (ts current n : ℕ) → n < sub32 ts current → sub32 (add32 current n) ts ≡ sub32 current ts + n
unfolding sub32 add32
sub32-add32_before ts current n h = omega arith

sub32-add32_after :
    (ts current n : ℕ) → n < sub32 ts current → sub32 ts (add32 current n) + n ≡ sub32 ts current
unfolding sub32 add32
sub32-add32_after ts current n h = omega arith

itimediff-Ahead :
    (ts current n : ℕ)
    → n < sub32 ts current
    → Ahead (itimediff current ts)
    → Ahead (itimediff (add32 current n) ts)
unfolding itimediff
itimediff-Ahead ts current n h a =
    let e = sub32-add32_before ts current n h in
    signed32-Ahead (sub32 current ts) (sub32 (add32 current n) ts) (omega (arith, e))
      (sub32-lt (add32 current n) ts) a

after-add32 :
    (a current n : ℕ)
    → leb_ℤ (itimediff a current) (pos 0) ≡ false
    → n < sub32 a current
    → after a (add32 current n) ≡ true
unfolding itimediff signed32
after-add32 a current n future h =
    ground (arith, after_lem a (add32 current n), sub32-add32_after a current n h)

-- What the loop of `ikcp_check` finds, where no segment is due: a time that none comes before.
abbrev Least : ℕ → ℕ → List Segment → ℕ × Bool → Type 0
Least current tm_packet b (least, due) =
    due ≡ false
    → (least ≤ tm_packet)
      × All
          (λ (s : Segment).
            (leb_ℤ (itimediff s.resendts current) (pos 0) ≡ false)
            × (least ≤ sub32 s.resendts current))
          b

packet_wait-Least :
    (current tm_packet : ℕ) (b : List Segment)
    → Least current tm_packet b (packet_wait current tm_packet b)
unfolding packet_wait
packet_wait-Least current tm_packet [] = λ e. (omega arith, tt)
packet_wait-Least current tm_packet (g ∷ b) =
    let left = sub32 g.resendts current in
    let next = if ltb left tm_packet then left else tm_packet in
    let low : (next ≤ tm_packet) × (next ≤ left) = ground arith in
    if_cases (Least current tm_packet (g ∷ b)) (leb_ℤ (itimediff g.resendts current) (pos 0))
      (λ now e. absurd (ground (arith, e)))
      (λ later e.
        let (least, rest) = packet_wait-Least current next b e in
        (omega (arith, least, low), ((later, omega (arith, least, low)), rest)))

All-after :
    (current n least : ℕ) (b : List Segment)
    → n < least
    → All
        (λ (s : Segment).
          (leb_ℤ (itimediff s.resendts current) (pos 0) ≡ false)
          × (least ≤ sub32 s.resendts current))
        b
    → All (λ (s : Segment). after s.resendts (add32 current n) ≡ true) b
All-after current n least [] h a = tt
All-after current n least (s ∷ b) h a = (
  after-add32 s.resendts current n a.0.0 (omega (arith, a.0.1, h)),
  All-after current n least b h a.1,
)

-- What is known `n` ms after `current`, before the time that `ikcp_check` gives.
abbrev Early : Kcp → ℕ → ℕ → Type 0
Early k current n =
    (k.timer.updated == 0 ≡ false)
    × Ahead (itimediff current k.timer.ts_flush)
    × (n < sub32 k.timer.ts_flush current)
    × (n < k.timer.interval)
    × All (λ (s : Segment). after s.resendts (add32 current n) ≡ true) k.snd.snd_buf

check-Early : (k : Kcp) (current n : ℕ) → n < sub32 (check k current) current → Early k current n
unfolding check
check-Early k current n =
    let t = k.timer in
    let slap = itimediff current t.ts_flush in
    let far = leb_ℤ (pos 10000) slap || ltb_ℤ slap (negsuc 9999) in
    let tm_flush = sub32 t.ts_flush current in
    let found = packet_wait current (2 ^ 31 - 1) k.snd.snd_buf in
    let minimal = if ltb found.0 tm_flush then found.0 else tm_flush in
    let wait = if leb t.interval minimal then t.interval else minimal in
    let low : (wait ≤ t.interval) × (wait ≤ tm_flush) × (wait ≤ found.0) = ground arith in
    if_cases (λ c. n < sub32 c current → Early k current n)
      (t.updated == 0 || far || leb_ℤ (pos 0) slap || found.1)
      (λ _ h. absurd (omega (arith, h, sub32_self current)))
      (λ none h.
        let none_due : found.1 ≡ false = ground (arith, none) in
        let (_, least) = packet_wait-Least current (2 ^ 31 - 1) k.snd.snd_buf none_due in
        let exact = sub32-add32 current wait (omega (arith, low, sub32-lt t.ts_flush current)) in
        let early : n < wait = omega (arith, h, exact) in
        (
          ground (arith, none),
          (ground (arith, none), ground (arith, none), ground (arith, none)),
          omega (arith, early, low),
          omega (arith, early, low),
          All-after current n found.0 k.snd.snd_buf (omega (arith, early, low)) least,
        ))

-- Nothing is missed until the time that `ikcp_check` gives: at every time from `current` on and before that
-- one, no segment in flight is due to be sent again, `ikcp_update` outputs nothing and changes nothing but
-- its clock, and less than an interval has passed.
pub check-update :
    (k : Kcp) (current n : ℕ)
    → n < sub32 (check k current) current
    → let later = add32 current n in
      (update k later ≡ (record k { timer = record (k.timer) { current = later } }, []))
      × All (λ (s : Segment). after s.resendts later ≡ true) k.snd.snd_buf
      × (n < k.timer.interval)
unfolding update tick
check-update k current n h =
    let (running, ahead, soon, short, pending) = check-Early k current n h in
    let (a, b, c) = itimediff-Ahead k.timer.ts_flush current n soon ahead in
    (rw (running, a, b, c) refl, pending, short)
