-- ===== src/Fec/Timeout/Refine.antt =====
-- `TimeOutMap` (lib/libfec/source/timeout_map.cpp) as a partial function from keys to times.
use fec_kcp.Prelude.{
  ℕ, ◌≤◌, ◌≡◌, refl, ap, ◌∙◌, subst, Option, none, some, Option-cases, List, [], ◌∷◌, arith, ◌==◌,
  if◌then◌else◌, Bool-cases, inl, inr, ℤ,
}
use fec_kcp.Fec.Timeout.{TimeoutMap, find, assign, erase_key, update, add, remove}
use fec_kcp.Fec.Timeout.Keys.{
  count, keys, IsLinked, update-IsLinked, add-IsLinked, remove-IsLinked, update_absent,
  update_present, add_absent, add_present, remove_absent, remove_present,
}

pub data Op : Type 0 where
  adds : (key now : ℕ) → Op
  updates : (key now : ℕ) → Op
  removes : (key : ℕ) → Op

-- The calls of the class.
unfoldable pub apply : TimeoutMap → Op → TimeoutMap
apply m (adds key now) = (add m key now).1
apply m (updates key now) = (update m key now).1
apply m (removes key) = (remove m key).1

unfoldable pub apply_all : TimeoutMap → List Op → TimeoutMap
apply_all m [] = m
apply_all m (o ∷ os) = apply_all (apply m o) os

-- What they promise of the times.
unfoldable pub promised : Op → (ℕ → Option ℕ) → ℕ → Option ℕ
promised (adds key now) f j = if key == j then some now else f j
promised (updates key now) f j =
    if key == j then (elim (f key) [ none ↦ none | some _ ↦ some now ]) else f j
promised (removes key) f j = if key == j then none else f j

unfoldable pub promised_all : List Op → (ℕ → Option ℕ) → ℕ → Option ℕ
promised_all [] f = f
promised_all (o ∷ os) f = promised_all os (promised o f)

pub find-assign :
    (j key t : ℕ) (m : List (ℕ × ℕ))
    → find j (assign key t m) ≡ (if key == j then some t else find j m)
unfolding find assign
find-assign j key t [] = refl
find-assign j key t ((k, u) ∷ m) = ground (arith, find-assign j key t m)

count-find : (key : ℕ) (m : List (ℕ × ℕ)) → count key (keys m) ≡ 0 → find key m ≡ none
unfolding find count keys
count-find key [] e = refl
count-find key ((k, t) ∷ m) e = ground (arith, count-find key m)

pub find-erase_key :
    (j key : ℕ) (m : List (ℕ × ℕ))
    → count key (keys m) ≤ 1
    → find j (erase_key key m) ≡ (if key == j then none else find j m)
unfolding find erase_key count keys
find-erase_key j key [] e = ground arith
find-erase_key j key ((k, u) ∷ m) e = ground (arith, find-erase_key j key m, count-find key m)

find-unchanged :
    (j key : ℕ) (m : List (ℕ × ℕ))
    → find key m ≡ none
    → find j m ≡ (if key == j then none else find j m)
find-unchanged j key m absent = elim (Bool-cases (key == j)) [
  | inl same ↦ let e : key ≡ j = ground arith in rw same (subst (λ i. find i m ≡ none) e absent)
  | inr other ↦ rw other refl
]

-- The times behind a call.
abbrev times_of : (j : ℕ) → ℤ × TimeoutMap → Option ℕ
times_of j r = find j r.1.times

apply-promised :
    (m : TimeoutMap) (o : Op) (j : ℕ)
    → IsLinked m
    → find j (apply m o).times ≡ promised o (λ i. find i m.times) j
unfolding apply promised
apply-promised m (adds key now) j v = elim (Option-cases (find key m.times)) [
  | inl absent ↦ ap (times_of j) (add_absent m key now absent) ∙ find-assign j key now m.times
  | inr (t, e) ↦
      ap (times_of j) (add_present m key now t e ∙ update_present m key now t e)
      ∙ find-assign j key now m.times
]
apply-promised m (updates key now) j v = elim (Option-cases (find key m.times)) [
  | inl absent ↦
      ap (times_of j) (update_absent m key now absent)
      ∙ rw absent (find-unchanged j key m.times absent)
  | inr (t, e) ↦
      ap (times_of j) (update_present m key now t e) ∙ rw e (find-assign j key now m.times)
]
apply-promised m (removes key) j v = elim (Option-cases (find key m.times)) [
  | inl absent ↦ ap (times_of j) (remove_absent m key absent) ∙ find-unchanged j key m.times absent
  | inr (t, e) ↦
      ap (times_of j) (remove_present m key t e)
      ∙ find-erase_key j key m.times (omega (arith, v.same key, v.once key))
]

pub apply-IsLinked : (m : TimeoutMap) (o : Op) → IsLinked m → IsLinked (apply m o)
unfolding apply
apply-IsLinked m (adds key now) v = add-IsLinked m key now v
apply-IsLinked m (updates key now) v = update-IsLinked m key now v
apply-IsLinked m (removes key) v = remove-IsLinked m key v

-- Where the list and the map hold the same keys, each at most once, they still do after any calls of
-- `Add`, `Update` and `Remove`, and the map gives a key the time of its last `Add`, or of a later
-- `Update`, unless it has been removed since.
pub apply_all-promised :
    (m : TimeoutMap) (os : List Op) (j : ℕ)
    → IsLinked m
    → IsLinked (apply_all m os)
      × (find j (apply_all m os).times ≡ promised_all os (λ i. find i m.times) j)
unfolding apply_all promised_all
apply_all-promised m [] j v = (v, refl)
apply_all-promised m (o ∷ os) j v =
    let (w, e) = apply_all-promised (apply m o) os j (apply-IsLinked m o v) in
    (w, e ∙ ap (λ f. promised_all os f j) (λ i k. apply-promised m o k v i))
