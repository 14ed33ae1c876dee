-- ===== src/Word.antt =====
-- 32-bit arithmetic of lib/kcp: IUINT32 sums and differences wrap, and `_itimediff`, the signed
-- difference of two time stamps or sequence numbers.
pub mod Order
use fec_kcp.Prelude.{
  ℕ, ◌+◌, ◌-◌, ◌%◌, ◌^◌, ◌≤◌, ◌<◌, ◌≡◌, Bool, true, false, ltb, leb, if◌then◌else◌, ℤ, pos, negsuc,
  ltb_ℤ, leb_ℤ, arith,
}

abbrev pub word : ℕ
word = 2 ^ 32

unfoldable pub add32 : ℕ → ℕ → ℕ
add32 a b = (a + b) % word

unfoldable pub sub32 : ℕ → ℕ → ℕ
sub32 a b = (a % word + word - b % word) % word

-- The conversion of a 32-bit pattern to `IINT32`.
unfoldable pub signed32 : ℕ → ℤ
signed32 w = if ltb w (2 ^ 31) then pos w else negsuc (word - w - 1)

-- `_itimediff(later, earlier)`
unfoldable pub itimediff : ℕ → ℕ → ℤ
unfolding sub32 signed32
itimediff later earlier = signed32 (sub32 later earlier)

-- `_itimediff(a, b) < 0`
unfoldable pub before : ℕ → ℕ → Bool
unfolding itimediff
before a b = ltb_ℤ (itimediff a b) (pos 0)

-- `_itimediff(a, b) > 0`
unfoldable pub after : ℕ → ℕ → Bool
unfolding itimediff
after a b = ltb_ℤ (pos 0) (itimediff a b)

unfoldable pub imin : ℕ → ℕ → ℕ
imin a b = if leb a b then a else b

unfoldable pub imax : ℕ → ℕ → ℕ
imax a b = if leb b a then a else b

unfoldable pub ibound : ℕ → ℕ → ℕ → ℕ
unfolding imin imax
ibound lower middle upper = imin (imax lower middle) upper
