-- ===== src/Random.antt =====
-- lib/libfec/source/random_generator.cpp: the random numbers, of which the coder takes its first sequence
-- number. What the reads of /dev/urandom give is a parameter.
mod Tests
use fec_kcp.Prelude.{
  ℕ, zero, suc, ◌+◌, ◌*◌, ◌≤◌, ◌<◌, ◌≡◌, refl, ap, ◌∙◌, sym, not, Bool, true, false, ◌==◌,
  if◌then◌else◌, Option, none, some, List, [], ◌∷◌, length, leb, arith, Option-cases, inl, inr, ◌≢◌,
}
use fec_kcp.Fec.Encode.{init_seq, next_seq}
use fec_kcp.Fec.Encode as Encode

-- The bytes that the i-th read of so many bytes gives: fewer if it falls short or fails.
abbrev pub Device : Type 0
Device = ℕ → ℕ → List ℕ

-- A number in the memory of a little-endian machine.
unfoldable pub number : List ℕ → ℕ
number [] = 0
number (b ∷ bs) = b + 256 * number bs

-- `GetRandomNumber16` and `GetRandomNumber32` with the i-th read, `none` for a failure.
unfoldable pub get_random_number : ℕ → Device → ℕ → Option ℕ
unfolding number
get_random_number size device i =
    let bytes = device i size in if not (length bytes == size) then none else some (number bytes)

abbrev pub get_random_number16 : Device → ℕ → Option ℕ
get_random_number16 = get_random_number 2

abbrev pub get_random_number32 : Device → ℕ → Option ℕ
get_random_number32 = get_random_number 4

-- The loop of `GetRandomNumberU16` and `GetRandomNumberU32` from the i-th read on, on fuel; `none` for
-- the whole if that runs out.
unfoldable pub nonzero : (ℕ → Option ℕ) → ℕ → ℕ → Option (Option ℕ)
nonzero get zero i = none
nonzero get (suc fuel) i = elim (get i) [
  | none ↦ some none
  | some zero ↦ nonzero get fuel (i + 1)
  | some (suc n) ↦ some (some (suc n))
]

abbrev pub get_random_number_u16 : Device → ℕ → ℕ → Option (Option ℕ)
get_random_number_u16 device = nonzero (get_random_number16 device)

abbrev pub get_random_number_u32 : Device → ℕ → ℕ → Option (Option ℕ)
get_random_number_u32 device = nonzero (get_random_number32 device)

nonzero_lem :
    (get : ℕ → Option ℕ) (n fuel i : ℕ)
    → ((m : ℕ) → m < n → get (i + m) ≡ some 0)
    → get (i + n) ≢ some 0
    → n < fuel
    → nonzero get fuel i ≡ some (get (i + n))
unfolding nonzero
nonzero_lem get n zero i zeros stop enough = absurd (omega arith)
nonzero_lem get zero (suc fuel) i zeros stop enough =
    let here : i + 0 ≡ i = omega arith in
    elim (Option-cases (get i)) [
      | inl e ↦ rw (here, e, nonzero) refl
      | inr (zero, e) ↦ absurd (stop (rw here e))
      | inr (suc m, e) ↦ rw (here, e, nonzero) refl
    ]
nonzero_lem get (suc n) (suc fuel) i zeros stop enough =
    let here : i + 0 ≡ i = omega arith in
    let next : i + suc n ≡ (i + 1) + n = omega arith in
    let e : get i ≡ some 0 = ap get (sym here) ∙ zeros 0 (omega arith) in
    rw (e, next, nonzero)
      (nonzero_lem get n fuel (i + 1) (λ m h. ap get (omega arith) ∙ zeros (m + 1) (omega arith))
        (λ h. stop (ap get next ∙ h)) (omega arith))

-- A sequence number that a group can have.
abbrev pub IsSeq : ℕ → Type 0
IsSeq s = (0 < s) × (s < 65521)

init_seq-IsSeq : (r : Option ℕ) → r ≢ some 0 → IsSeq (init_seq r)
unfolding init_seq
init_seq-IsSeq none h = (omega arith, omega arith)
init_seq-IsSeq (some zero) h = absurd (h refl)
init_seq-IsSeq (some (suc n)) h = ground arith

pub next_seq-IsSeq : (s : ℕ) → IsSeq s → IsSeq (next_seq s)
unfolding next_seq
next_seq-IsSeq s h = ground (arith, h.0, h.1)

-- A coder's first sequence number. The reads of the device before the n-th give two zero bytes each, and the
-- n-th fails, falls short or gives another number. Then `GetRandomNumberU16` returns, with the failure
-- or the number of the n-th read, and a coder that is made with it, whatever its other parameters,
-- starts with a sequence number from 1 to 65520.
pub get_random_number_u16-new :
    (device : Device) (n fuel data_pkg_num redundant_pkg_num timeout : ℕ)
    → ((m : ℕ) → m < n → get_random_number16 device m ≡ some 0)
    → get_random_number16 device n ≢ some 0
    → n < fuel
    → (get_random_number_u16 device fuel 0 ≡ some (get_random_number16 device n))
      × IsSeq (Encode.new data_pkg_num redundant_pkg_num timeout (get_random_number16 device n)).seq
unfolding Encode.new
get_random_number_u16-new device n fuel data_pkg_num redundant_pkg_num timeout zeros stop enough =
    let e : 0 + n ≡ n = omega arith in
    (
      nonzero_lem (get_random_number16 device) n fuel 0
            (λ m h. ap (get_random_number16 device) (omega arith) ∙ zeros m h)
            (λ h. stop (ap (get_random_number16 device) (sym e) ∙ h)) enough
          ∙ ap (λ m. some (get_random_number16 device m)) e,
      init_seq-IsSeq (get_random_number16 device n) stop,
    )
