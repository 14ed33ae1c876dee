-- ===== src/Random/Tests.antt =====
-- The random numbers at concrete inputs.
use fec_kcp.Prelude.{ℕ, zero, suc, ◌<◌, ◌≡◌, ◌≢◌, refl, some, [], ◌∷◌, arith}
use fec_kcp.Fec.Encode as Encode
use fec_kcp.Random.{
  Device, IsSeq, get_random_number, number, get_random_number16, get_random_number_u16,
  get_random_number_u16-new,
}

-- The first read gives zeros.
abbrev device : Device
device zero size = 0 ∷ 0 ∷ []
device (suc i) size = 7 ∷ 1 ∷ []

zeros : (m : ℕ) → m < 1 → get_random_number16 device m ≡ some 0
unfolding get_random_number number
zeros zero h = refl
zeros (suc m) h = absurd (omega arith)

other : get_random_number16 device 1 ≢ some 0
unfolding get_random_number number
other h = absurd (ground (arith, h))

get_random_number_u16-new_example :
    (get_random_number_u16 device 5 0 ≡ some (get_random_number16 device 1))
    × IsSeq (Encode.new 2 1 5 (get_random_number16 device 1)).seq
get_random_number_u16-new_example =
    get_random_number_u16-new device 1 5 2 1 5 zeros other (omega arith)
