-- ===== src/Word/Order.antt =====
-- The modular order of lib/kcp: `_itimediff` tests in terms of the wrapped distance `sub32`.
use fec_kcp.Prelude.{ℕ, ◌+◌, ◌^◌, ◌≤◌, ◌<◌, ◌≡◌, ◌&&◌, ltb, leb, arith, ◌⊎◌}
use fec_kcp.Word.{word, add32, sub32, before, after, imin, ibound}

pub sub32-lt : (a b : ℕ) → sub32 a b < word
unfolding sub32
sub32-lt a b = omega arith

pub add32-lt : (a b : ℕ) → add32 a b < word
unfolding add32
add32-lt a b = omega arith

pub before_lem : (a b : ℕ) → before a b ≡ leb (2 ^ 31) (sub32 a b)
unfolding before
before_lem a b = ground (arith, sub32-lt a b)

pub after_lem : (a b : ℕ) → after a b ≡ (ltb 0 (sub32 a b) && ltb (sub32 a b) (2 ^ 31))
unfolding after
after_lem a b = ground (arith, sub32-lt a b)

-- Distances compose: from `c` to `a` by way of `b`.
pub sub32_trans : (a b c : ℕ) → sub32 a b + sub32 b c < word → sub32 a c ≡ sub32 a b + sub32 b c
unfolding sub32
sub32_trans a b c h = omega arith

pub sub32_wrap :
    (a b c : ℕ) → word ≤ sub32 a b + sub32 b c → sub32 a c + word ≡ sub32 a b + sub32 b c
unfolding sub32
sub32_wrap a b c h = omega arith

pub sub32_self : (a : ℕ) → sub32 a a ≡ 0
unfolding sub32
sub32_self a = omega arith

pub sub32-eq_zero : (a b : ℕ) → a < word → b < word → sub32 a b ≡ 0 → a ≡ b
unfolding sub32
sub32-eq_zero a b ha hb h = omega arith

pub sub32-add32 : (a n : ℕ) → n < word → sub32 (add32 a n) a ≡ n
unfolding sub32 add32
sub32-add32 a n h = omega arith

-- Moving the base on by one.
pub sub32-add32_one : (a b : ℕ) → 0 < sub32 a b → sub32 a (add32 b 1) + 1 ≡ sub32 a b
unfolding sub32 add32
sub32-add32_one a b h = omega arith

-- The two distances to a common base differ by the distance, up to a wrap.
pub sub32-offset :
    (a b nxt : ℕ)
    → (sub32 a b + sub32 b nxt ≡ sub32 a nxt) ⊎ (sub32 a b + sub32 b nxt ≡ sub32 a nxt + word)
unfolding sub32
sub32-offset a b nxt = omega arith

-- Two numbers of the window compare as their offsets do.
pub after-offset :
    (a b nxt : ℕ)
    → sub32 a nxt < 2 ^ 31
    → sub32 b nxt < 2 ^ 31
    → after a b ≡ ltb (sub32 b nxt) (sub32 a nxt)
after-offset a b nxt ha hb = ground (arith, after_lem a b, sub32-offset a b nxt, sub32-lt a b)

pub before-offset :
    (a b nxt : ℕ)
    → sub32 a nxt < 2 ^ 31
    → sub32 b nxt < 2 ^ 31
    → before a b ≡ ltb (sub32 a nxt) (sub32 b nxt)
before-offset a b nxt ha hb = ground (arith, before_lem a b, sub32-offset a b nxt, sub32-lt a b)

pub eq-offset : (a b nxt : ℕ) → a < word → b < word → sub32 a nxt ≡ sub32 b nxt → a ≡ b
unfolding sub32
eq-offset a b nxt ha hb e = omega arith

pub ibound_bounds :
    (lower middle upper : ℕ)
    → lower ≤ upper
    → (lower ≤ ibound lower middle upper) × (ibound lower middle upper ≤ upper)
unfolding ibound
ibound_bounds lower middle upper h = ground arith

pub imin_le_left : (a b : ℕ) → imin a b ≤ a
unfolding imin
imin_le_left a b = ground arith

pub imin_le_right : (a b : ℕ) → imin a b ≤ b
unfolding imin
imin_le_right a b = ground arith
