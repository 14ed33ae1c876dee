-- ===== src/Fec/Code/Arrivals.antt =====
-- The slots of a group of `FecDecode` as its packets arrive, in any order and repeated.
use fec_kcp.Prelude.{
  ℕ, zero, suc, ◌+◌, ◌≤◌, ◌<◌, ◌≡◌, refl, ap, ap₂, ◌∙◌, sym, subst, true, false, Option, none, some,
  List, [], ◌∷◌, length, get_elem?, get_or, set, replicate, All, arith, ◌==◌, if◌then◌else◌,
  Bool-cases, inl, inr, leb,
}
use fec_kcp.Fec.Decode.{all_filled, fill_lengths}
use fec_kcp.Fec.Code.{contains, arrived, present}

contains-repeated :
    (is : List ℕ) (i j : ℕ) → contains is i ≡ true → contains (i ∷ is) j ≡ contains is j
contains-repeated is i j h = elim (Bool-cases (i == j)) [
  | inl same ↦ let e : i ≡ j = ground arith in rw same (sym (subst (λ n. contains is n ≡ true) e h))
  | inr other ↦ rw other refl
]

module _ {ℓ} {A : Type ℓ} where
  pub length-arrived :
      (is : List ℕ) (j : ℕ) (rows : List A) → length (arrived is j rows) ≡ length rows
  unfolding arrived
  length-arrived is j [] = refl
  length-arrived is j (row ∷ rows) = ap suc (length-arrived is (j + 1) rows)

  pub arrived-nil : (j : ℕ) (rows : List A) → arrived [] j rows ≡ replicate (length rows) none
  unfolding arrived
  arrived-nil j [] = refl
  arrived-nil j (row ∷ rows) = ap (λ l. none ∷ l) (arrived-nil (j + 1) rows)

  pub get_elem?-arrived :
      (is : List ℕ) (j i : ℕ) (rows : List A) (d : A)
      → i < length rows
      → get_elem? (arrived is j rows) i
        ≡ some (if contains is (j + i) then some (get_or rows i d) else none)
  unfolding arrived
  get_elem?-arrived is j i [] d h = absurd (omega arith)
  get_elem?-arrived is j zero (row ∷ rows) d h =
      ap (λ n. some (if contains is n then some row else none)) (omega arith)
  get_elem?-arrived is j (suc i) (row ∷ rows) d h =
      get_elem?-arrived is (j + 1) i rows d (omega arith)
      ∙ ap (λ n. some (if contains is n then some (get_or rows i d) else none)) (omega arith)

  arrived-later :
      (is : List ℕ) (i j : ℕ) (rows : List A) → i < j → arrived (i ∷ is) j rows ≡ arrived is j rows
  unfolding arrived
  arrived-later is i j [] h = refl
  arrived-later is i j (row ∷ rows) h =
      let other : (i == j) ≡ false = ground arith in
      rw (other, arrived-later is i (j + 1) rows (omega arith)) refl

  pub set-arrived :
      (is : List ℕ) (j i : ℕ) (rows : List A) (d : A)
      → i < length rows
      → set (arrived is j rows) i (some (get_or rows i d)) ≡ arrived ((j + i) ∷ is) j rows
  unfolding arrived
  set-arrived is j i [] d h = absurd (omega arith)
  set-arrived is j zero (row ∷ rows) d h =
      let same : (j + 0 == j) ≡ true = ground arith in
      rw (same, arrived-later is (j + 0) (j + 1) rows (omega arith)) refl
  set-arrived is j (suc i) (row ∷ rows) d h =
      let other : (j + suc i == j) ≡ false = ground arith in
      let e : j + 1 + i ≡ j + suc i = omega arith in
      rw (other, set-arrived is (j + 1) i rows d (omega arith), e) refl

  pub arrived-repeated :
      (is : List ℕ) (i j : ℕ) (rows : List A)
      → contains is i ≡ true
      → arrived (i ∷ is) j rows ≡ arrived is j rows
  unfolding arrived
  arrived-repeated is i j [] h = refl
  arrived-repeated is i j (row ∷ rows) h =
      ap₂ (λ b l. (if b then some row else none) ∷ l) (contains-repeated is i j h)
        (arrived-repeated is i (j + 1) rows h)

  present-later :
      (is : List ℕ) (i j : ℕ) (rows : List A)
      → i < j
      → present (arrived (i ∷ is) j rows) ≡ present (arrived is j rows)
  present-later is i j rows h = ap present (arrived-later is i j rows h)

  pub present-arrived_new :
      (is : List ℕ) (j i : ℕ) (rows : List A)
      → i < length rows
      → contains is (j + i) ≡ false
      → present (arrived ((j + i) ∷ is) j rows) ≡ present (arrived is j rows) + 1
  unfolding arrived present
  present-arrived_new is j i [] h new = absurd (omega arith)
  present-arrived_new is j zero (row ∷ rows) h new =
      let e : j + 0 ≡ j = omega arith in
      let same : (j + 0 == j) ≡ true = ground arith in
      let newest : contains is j ≡ false = subst (λ n. contains is n ≡ false) e new in
      rw (same, newest, arrived-later is (j + 0) (j + 1) rows (omega arith)) (omega arith)
  present-arrived_new is j (suc i) (row ∷ rows) h new =
      let e : j + 1 + i ≡ j + suc i = omega arith in
      let other : (j + suc i == j) ≡ false = ground arith in
      let ih =
        subst (λ n. present (arrived (n ∷ is) (j + 1) rows) ≡ present (arrived is (j + 1) rows) + 1)
          e
          (present-arrived_new is (j + 1) i rows (omega arith)
            (subst (λ n. contains is n ≡ false) (sym e) new)) in
      elim (Bool-cases (contains is j)) [
        | inl here ↦ rw (other, here) (omega (arith, ih))
        | inr away ↦ rw (other, away) ih
      ]

  pub present-arrived_mono :
      (is : List ℕ) (i j : ℕ) (rows : List A)
      → present (arrived is j rows) ≤ present (arrived (i ∷ is) j rows)
  unfolding arrived present
  present-arrived_mono is i j [] = omega arith
  present-arrived_mono is i j (row ∷ rows) = ground (arith, present-arrived_mono is i (j + 1) rows)

-- The slots with nothing in them read as zero.
unfoldable pub or_zero : List (Option ℕ) → List ℕ
or_zero [] = []
or_zero (none ∷ ls) = 0 ∷ or_zero ls
or_zero (some l ∷ ls) = l ∷ or_zero ls

-- The lengths that are handed out: a packet's own where it has arrived, the longest where it has been
-- recovered.
unfoldable pub or_size : ℕ → List (Option ℕ) → List ℕ
or_size size [] = []
or_size size (none ∷ ls) = size ∷ or_size size ls
or_size size (some l ∷ ls) = l ∷ or_size size ls

pub set-or_zero :
    (ls : List (Option ℕ)) (i l : ℕ) → set (or_zero ls) i l ≡ or_zero (set ls i (some l))
unfolding or_zero
set-or_zero [] i l = refl
set-or_zero (none ∷ ls) zero l = refl
set-or_zero (none ∷ ls) (suc i) l = ap (λ m. 0 ∷ m) (set-or_zero ls i l)
set-or_zero (some n ∷ ls) zero l = refl
set-or_zero (some n ∷ ls) (suc i) l = ap (λ m. n ∷ m) (set-or_zero ls i l)

pub or_zero-replicate : (n : ℕ) → or_zero (replicate n none) ≡ replicate n 0
unfolding or_zero
or_zero-replicate zero = refl
or_zero-replicate (suc n) = ap (λ m. 0 ∷ m) (or_zero-replicate n)

pub length-or_zero : (ls : List (Option ℕ)) → length (or_zero ls) ≡ length ls
unfolding or_zero
length-or_zero [] = refl
length-or_zero (none ∷ ls) = ap suc (length-or_zero ls)
length-or_zero (some l ∷ ls) = ap suc (length-or_zero ls)

pub fill_lengths-or_zero :
    (size : ℕ) (is : List ℕ) (j : ℕ) (lens : List ℕ)
    → All (λ l. 0 < l) lens
    → fill_lengths size (or_zero (arrived is j lens)) ≡ or_size size (arrived is j lens)
unfolding fill_lengths or_zero or_size arrived
fill_lengths-or_zero size is j [] a = refl
fill_lengths-or_zero size is j (l ∷ lens) a = elim (Bool-cases (contains is j)) [
  | inl here ↦
      let e : (l == 0) ≡ false = ground (arith, a.0) in
      rw (here, e) (ap (λ m. l ∷ m) (fill_lengths-or_zero size is (j + 1) lens a.1))
  | inr away ↦ rw away (ap (λ m. size ∷ m) (fill_lengths-or_zero size is (j + 1) lens a.1))
]

pub all_filled-arrived :
    (size : ℕ) (is : List ℕ) (j : ℕ) (rows : List (List ℕ))
    → All (λ row. length row ≡ size) rows
    → all_filled size (arrived is j rows) ≡ true
unfolding all_filled arrived
all_filled-arrived size is j [] a = refl
all_filled-arrived size is j (row ∷ rows) a = elim (Bool-cases (contains is j)) [
  | inl here ↦
      let e : leb size (length row) ≡ true = ground (arith, a.0) in
      rw (here, e) (all_filled-arrived size is (j + 1) rows a.1)
  | inr away ↦ rw away (all_filled-arrived size is (j + 1) rows a.1)
]
