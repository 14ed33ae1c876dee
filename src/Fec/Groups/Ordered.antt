-- ===== src/Fec/Groups/Ordered.antt =====
-- The maps of `FecDecode` as `std::map` keeps them: the keys ascend. What holds of every entry.
use mathlib.Core.Option.{some-injective}
use fec_kcp.Prelude.{
  ℕ, ◌+◌, ◌<◌, ◌≡◌, refl, ◌∙◌, sym, subst, true, false, Bool-cases, inl, inr, some, [], ◌∷◌, All,
  length, ltb, ◌==◌, arith,
}
use fec_kcp.Fec.Groups.{Group, Groups, get, put, erase_group, ready_packets}

abbrev pub Above : ℕ → Groups → Type 0
Above s = All (λ (e : ℕ × Group). s < e.0)

abbrev pub Ascending : Groups → Type 0
Ascending [] = Unit
Ascending ((s, g) ∷ m) = Above s m × Ascending m

module _ (P : ℕ × Group → Type 0) where
  pub put-All : (seq : ℕ) (g : Group) (m : Groups) → P (seq, g) → All P m → All P (put seq g m)
  unfolding put
  put-All seq g [] p a = (p, tt)
  put-All seq g ((s, h) ∷ m) p a = elim (Bool-cases (seq == s)) [
    | inl same ↦ let e : seq ≡ s = ground arith in rw same (subst (λ t. P (t, g)) e p, a.1)
    | inr other ↦ elim (Bool-cases (ltb seq s)) [
      | inl low ↦ rw (other, low) (p, a)
      | inr high ↦ rw (other, high) (a.0, put-All seq g m p a.1)
    ]
  ]

  pub erase_group-All : (seq : ℕ) (m : Groups) → All P m → All P (erase_group seq m)
  unfolding erase_group
  erase_group-All seq [] a = tt
  erase_group-All seq ((s, h) ∷ m) a = elim (Bool-cases (s == seq)) [
    | inl same ↦ rw same (erase_group-All seq m a.1)
    | inr other ↦ rw other (a.0, erase_group-All seq m a.1)
  ]

  pub get-All : (seq : ℕ) (g : Group) (m : Groups) → get seq m ≡ some g → All P m → P (seq, g)
  unfolding get
  get-All seq g [] here a = absurd (ground arith)
  get-All seq g ((s, h) ∷ m) here a = elim (Bool-cases (s == seq)) [
    | inl same ↦
        let e : s ≡ seq = ground arith in
        let e' : some h ≡ some g = sym (rw same refl) ∙ here in
        subst (λ t. P (t, g)) e (subst (λ t. P (s, t)) (some-injective _ _ e') a.0)
    | inr other ↦ get-All seq g m (sym (rw other refl) ∙ here) a.1
  ]

Above-less : (s t : ℕ) (m : Groups) → s < t → Above t m → Above s m
Above-less s t [] h a = tt
Above-less s t (e ∷ m) h a = (omega (arith, a.0), Above-less s t m h a.1)

pub put-Ascending : (seq : ℕ) (g : Group) (m : Groups) → Ascending m → Ascending (put seq g m)
unfolding put
put-Ascending seq g [] a = (tt, tt)
put-Ascending seq g ((s, h) ∷ m) a = elim (Bool-cases (seq == s)) [
  | inl same ↦ rw same a
  | inr other ↦ elim (Bool-cases (ltb seq s)) [
    | inl low ↦ let h : seq < s = ground arith in rw (other, low) ((h, Above-less seq s m h a.0), a)
    | inr high ↦
        let h : s < seq = ground arith in
        rw (other, high)
          (put-All (λ (e : ℕ × Group). s < e.0) seq g m h a.0, put-Ascending seq g m a.1)
  ]
]

pub erase_group-Ascending : (seq : ℕ) (m : Groups) → Ascending m → Ascending (erase_group seq m)
unfolding erase_group
erase_group-Ascending seq [] a = tt
erase_group-Ascending seq ((s, h) ∷ m) a = elim (Bool-cases (s == seq)) [
  | inl same ↦ rw same (erase_group-Ascending seq m a.1)
  | inr other ↦
      rw other
        (erase_group-All (λ (e : ℕ × Group). s < e.0) seq m a.0, erase_group-Ascending seq m a.1)
]

-- A ready group that is set to be no longer ready takes its packets from the count.
pub ready_packets-put :
    (seq : ℕ) (g g' : Group) (m : Groups)
    → Ascending m
    → get seq m ≡ some g
    → g.ready ≡ true
    → g'.ready ≡ false
    → ready_packets (put seq g' m) + length g.pkgs ≡ ready_packets m
unfolding get put ready_packets
ready_packets-put seq g g' [] a here is_ready idle = absurd (ground arith)
ready_packets-put seq g g' ((s, h) ∷ m) a here is_ready idle = elim (Bool-cases (s == seq)) [
  | inl same ↦
      let back : (seq == s) ≡ true = ground arith in
      let e : h ≡ g = some-injective _ _ (sym (rw same refl) ∙ here) in
      rw (back, idle, e, is_ready) (omega arith)
  | inr other ↦
      let here' : get seq m ≡ some g = sym (rw other refl) ∙ here in
      let h : s < seq = get-All (λ (e : ℕ × Group). s < e.0) seq g m here' a.0 in
      let back : (seq == s) ≡ false = ground arith in
      let high : ltb seq s ≡ false = ground arith in
      rw (back, high) (omega (arith, ready_packets-put seq g g' m a.1 here' is_ready idle))
]
