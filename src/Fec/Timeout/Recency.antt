-- ===== src/Fec/Timeout/Recency.antt =====
-- `TimeOutMap` (lib/libfec/source/timeout_map.cpp): the list stays in the order of the times.
use fec_kcp.Prelude.{
  ℕ, ◌≤◌, ◌≡◌, refl, ap, ◌∙◌, sym, Bool, true, false, Option, none, some, Option-cases, Bool-cases,
  inl, inr, List, [], ◌∷◌, arith, ◌==◌, if◌then◌else◌,
}
use fec_kcp.Fec.Timeout.{
  TimeoutMap, find, assign, erase_key, erase, time_of, update, add, remove, get_timeout_elements,
}
use fec_kcp.Fec.Timeout.Keys.{
  count, count-erase, IsLinked, update_absent, update_present, add_absent, add_present,
  remove_absent, remove_present, find-absent, keys, empty-IsLinked,
}
use fec_kcp.Fec.Timeout.Refine.{
  Op, adds, updates, removes, apply, apply_all, find-assign, find-erase_key, apply-IsLinked,
}
use fec_kcp.Fec.Timeout.Expiry.{Recent, expired, get_timeout_elements-expired}

abbrev or_zero : Option ℕ → ℕ
or_zero none = 0
or_zero (some t) = t

time_of_lem : (key : ℕ) (m : List (ℕ × ℕ)) → time_of key m ≡ or_zero (find key m)
unfolding time_of
time_of_lem key m = refl

if-or_zero :
    (b : Bool) (o o' : Option ℕ)
    → or_zero (if b then o else o') ≡ (if b then or_zero o else or_zero o')
if-or_zero true o o' = refl
if-or_zero false o o' = refl

time_of-assign :
    (j key t : ℕ) (m : List (ℕ × ℕ))
    → time_of j (assign key t m) ≡ (if key == j then t else time_of j m)
time_of-assign j key t m =
    time_of_lem j (assign key t m)
    ∙ ap or_zero (find-assign j key t m)
    ∙ if-or_zero (key == j) (some t) (find j m)
    ∙ ap (λ n. if key == j then t else n) (sym (time_of_lem j m))

time_of-erase_key :
    (j key : ℕ) (m : List (ℕ × ℕ))
    → count key (keys m) ≤ 1
    → (key == j) ≡ false
    → time_of j (erase_key key m) ≡ time_of j m
time_of-erase_key j key m once other =
    time_of_lem j (erase_key key m)
    ∙ ap or_zero (find-erase_key j key m once ∙ ap (λ b. if b then none else find j m) other)
    ∙ sym (time_of_lem j m)

Recent-weaken :
    (m : List (ℕ × ℕ)) (hi hi' : ℕ) (ks : List ℕ) → hi ≤ hi' → Recent m hi ks → Recent m hi' ks
Recent-weaken m hi hi' [] h v = v
Recent-weaken m hi hi' (k ∷ ks) h v = (omega (arith, v.0), v.1)

Recent-erase :
    (m : List (ℕ × ℕ)) (hi key : ℕ) (ks : List ℕ) → Recent m hi ks → Recent m hi (erase key ks)
unfolding erase
Recent-erase m hi key [] v = v
Recent-erase m hi key (k ∷ ks) v = elim (Bool-cases (k == key)) [
  | inl here ↦ rw here (Recent-weaken m (time_of k m) hi ks v.0 v.1)
  | inr other ↦ rw other (v.0, Recent-erase m (time_of k m) key ks v.1)
]

-- The order stays when the times of the keys in the list do.
Recent-agree :
    (m m' : List (ℕ × ℕ)) (key hi : ℕ) (ks : List ℕ)
    → ((j : ℕ) → (key == j) ≡ false → time_of j m' ≡ time_of j m)
    → count key ks ≡ 0
    → Recent m hi ks
    → Recent m' hi ks
unfolding count
Recent-agree m m' key hi [] agree away v = v
Recent-agree m m' key hi (k ∷ ks) agree away v =
    let e = agree k (ground arith) in
    (omega (arith, e, v.0), rw e (Recent-agree m m' key (time_of k m) ks agree (ground arith) v.1))

assign-agrees :
    (m : List (ℕ × ℕ)) (key t j : ℕ) → (key == j) ≡ false → time_of j (assign key t m) ≡ time_of j m
assign-agrees m key t j other = time_of-assign j key t m ∙ rw other refl

Recent-touch :
    (m : List (ℕ × ℕ)) (key hi now : ℕ) (ks : List ℕ)
    → hi ≤ now
    → count key ks ≡ 0
    → Recent m hi ks
    → Recent (assign key now m) now (key ∷ ks)
Recent-touch m key hi now ks h away v =
    let itself : (key == key) ≡ true = ground arith in
    let e : time_of key (assign key now m) ≡ now = time_of-assign key key now m ∙ rw itself refl in
    (
      omega (arith, e),
      rw e (
          Recent-agree m (assign key now m) key now ks (assign-agrees m key now) away
            (Recent-weaken m hi now ks h v)),
    )

-- The times of the calls do not go back, from `newest` on; the last of them is the time at the end.
abbrev pub time_after : ℕ → Op → ℕ
time_after newest (adds key now) = now
time_after newest (updates key now) = now
time_after newest (removes key) = newest

abbrev pub IsTimely : ℕ → List Op → Type 0
IsTimely newest [] = Unit {0}
IsTimely newest (o ∷ os) = (newest ≤ time_after newest o) × IsTimely (time_after newest o) os

abbrev pub end_time : ℕ → List Op → ℕ
end_time newest [] = newest
end_time newest (o ∷ os) = end_time (time_after newest o) os

erased : (m : TimeoutMap) (key : ℕ) → IsLinked m → count key (erase key m.elements) ≡ 0
erased m key v = ground (arith, count-erase key key m.elements, v.once key)

update-Recent :
    (m : TimeoutMap) (key newest now : ℕ)
    → IsLinked m
    → newest ≤ now
    → Recent m.times newest m.elements
    → Recent (update m key now).1.times now (update m key now).1.elements
update-Recent m key newest now v h w = elim (Option-cases (find key m.times)) [
  | inl absent ↦
      rw (update_absent m key now absent) (Recent-weaken m.times newest now m.elements h w)
  | inr (t, e) ↦ rw (update_present m key now t e) (
      Recent-touch m.times key newest now (erase key m.elements) h (erased m key v)
        (Recent-erase m.times newest key m.elements w))
]

add-Recent :
    (m : TimeoutMap) (key newest now : ℕ)
    → IsLinked m
    → newest ≤ now
    → Recent m.times newest m.elements
    → Recent (add m key now).1.times now (add m key now).1.elements
add-Recent m key newest now v h w = elim (Option-cases (find key m.times)) [
  | inl absent ↦ rw (add_absent m key now absent) (
      Recent-touch m.times key newest now m.elements h
        (omega (arith, v.same key, find-absent key m.times absent)) w)
  | inr (t, e) ↦ rw (add_present m key now t e) (update-Recent m key newest now v h w)
]

remove-Recent :
    (m : TimeoutMap) (key newest : ℕ)
    → IsLinked m
    → Recent m.times newest m.elements
    → Recent (remove m key).1.times newest (remove m key).1.elements
remove-Recent m key newest v w = elim (Option-cases (find key m.times)) [
  | inl absent ↦ rw (remove_absent m key absent) w
  | inr (t, e) ↦ rw (remove_present m key t e) (
      Recent-agree m.times (erase_key key m.times) key newest (erase key m.elements)
        (λ j other. time_of-erase_key j key m.times (omega (arith, v.same key, v.once key)) other)
        (erased m key v) (Recent-erase m.times newest key m.elements w))
]

apply-Recent :
    (m : TimeoutMap) (o : Op) (newest : ℕ)
    → IsLinked m
    → newest ≤ time_after newest o
    → Recent m.times newest m.elements
    → Recent (apply m o).times (time_after newest o) (apply m o).elements
unfolding apply
apply-Recent m (adds key now) newest v h w = add-Recent m key newest now v h w
apply-Recent m (updates key now) newest v h w = update-Recent m key newest now v h w
apply-Recent m (removes key) newest v h w = remove-Recent m key newest v w

apply_all-Recent :
    (m : TimeoutMap) (os : List Op) (newest : ℕ)
    → IsLinked m
    → IsTimely newest os
    → Recent m.times newest m.elements
    → Recent (apply_all m os).times (end_time newest os) (apply_all m os).elements
unfolding apply_all
apply_all-Recent m [] newest v h w = w
apply_all-Recent m (o ∷ os) newest v h w =
    apply_all-Recent (apply m o) os (time_after newest o) (apply-IsLinked m o v) h.1
      (apply-Recent m o newest v h.0 w)

-- After any calls of `Add`, `Update` and `Remove` on a new map whose times do not go back,
-- `GetTimeOutElements` returns exactly the keys whose time is longer ago than the limit, the oldest
-- first, although it stops at the first key that is not.
pub apply_all-get_timeout_elements :
    (limit : ℕ) (os : List Op) (now : ℕ)
    → IsTimely 0 os
    → let m = apply_all (record { elements = []; times = []; timeout_limit_ms = limit }) os in
      get_timeout_elements m now ≡ expired m.timeout_limit_ms now m.times m.elements
apply_all-get_timeout_elements limit os now h =
    get_timeout_elements-expired _ now (end_time 0 os)
      (apply_all-Recent _ os 0 (empty-IsLinked limit) h tt)
