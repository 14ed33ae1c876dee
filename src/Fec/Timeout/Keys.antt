-- ===== src/Fec/Timeout/Keys.antt =====
-- `TimeOutMap` (lib/libfec/source/timeout_map.cpp): the list and the map hold the same keys, each once.
use fec_kcp.Prelude.{
  ℕ, ◌+◌, ◌-◌, ◌≤◌, ◌<◌, ◌≡◌, refl, ap, none, some, Option-cases, List, [], ◌∷◌, arith, ◌==◌,
  if◌then◌else◌, inl, inr, pos, negsuc,
}
use fec_kcp.Fec.Timeout.{TimeoutMap, find, assign, erase_key, erase, update, add, remove}

-- How often the key is in the list.
unfoldable pub count : ℕ → List ℕ → ℕ
count key [] = 0
count key (k ∷ ks) = (if k == key then 1 else 0) + count key ks

unfoldable pub keys : List (ℕ × ℕ) → List ℕ
keys [] = []
keys ((k, t) ∷ m) = k ∷ keys m

pub count-erase :
    (j key : ℕ) (ks : List ℕ)
    → count j (erase key ks) ≡ (if key == j then count j ks - 1 else count j ks)
unfolding count erase
count-erase j key [] = ground arith
count-erase j key (k ∷ ks) = ground (arith, count-erase j key ks)

keys-erase_key : (key : ℕ) (m : List (ℕ × ℕ)) → keys (erase_key key m) ≡ erase key (keys m)
unfolding keys erase_key erase
keys-erase_key key [] = refl
keys-erase_key key ((k, t) ∷ m) = ground (arith, keys-erase_key key m)

pub find-absent : (key : ℕ) (m : List (ℕ × ℕ)) → find key m ≡ none → count key (keys m) ≡ 0
unfolding find count keys
find-absent key [] e = refl
find-absent key ((k, t) ∷ m) e = ground (arith, find-absent key m)

pub find-present : (key u : ℕ) (m : List (ℕ × ℕ)) → find key m ≡ some u → 0 < count key (keys m)
unfolding find count keys
find-present key u [] e = cc
find-present key u ((k, t) ∷ m) e = ground (arith, find-present key u m)

count-assign_new :
    (j key t : ℕ) (m : List (ℕ × ℕ))
    → count key (keys m) ≡ 0
    → count j (keys (assign key t m)) ≡ (if key == j then 1 else 0) + count j (keys m)
unfolding count keys assign
count-assign_new j key t [] e = refl
count-assign_new j key t ((k, u) ∷ m) e = ground (arith, count-assign_new j key t m)

count-assign_old :
    (j key t : ℕ) (m : List (ℕ × ℕ))
    → 0 < count key (keys m)
    → count j (keys (assign key t m)) ≡ count j (keys m)
unfolding count keys assign
count-assign_old j key t [] e = absurd (omega arith)
count-assign_old j key t ((k, u) ∷ m) e = ground (arith, count-assign_old j key t m)

-- A key is in the list as often as in the map, and at most once.
pub record IsLinked (m : TimeoutMap) : Type 0 where
  pub same : (key : ℕ) → count key m.elements ≡ count key (keys m.times)
  pub once : (key : ℕ) → count key m.elements ≤ 1

pub empty-IsLinked :
    (limit : ℕ) → IsLinked (record { elements = []; times = []; timeout_limit_ms = limit })
unfolding count keys
empty-IsLinked limit = record { same = λ key. refl; once = λ key. omega arith }

pub update_absent :
    (m : TimeoutMap) (key now : ℕ) → find key m.times ≡ none → update m key now ≡ (negsuc 0, m)
unfolding update
update_absent m key now e = rw (e, update) refl

pub update_present :
    (m : TimeoutMap) (key now t : ℕ)
    → find key m.times ≡ some t
    → update m key now
      ≡ (pos 0, record m { elements = key ∷ erase key m.elements; times = assign key now m.times })
unfolding update
update_present m key now t e = rw (e, update) refl

pub add_absent :
    (m : TimeoutMap) (key now : ℕ)
    → find key m.times ≡ none
    → add m key now
      ≡ (pos 0, record m { elements = key ∷ m.elements; times = assign key now m.times })
unfolding add
add_absent m key now e = rw (e, add) refl

pub add_present :
    (m : TimeoutMap) (key now t : ℕ) → find key m.times ≡ some t → add m key now ≡ update m key now
unfolding add
add_present m key now t e = rw (e, add) refl

pub remove_absent :
    (m : TimeoutMap) (key : ℕ) → find key m.times ≡ none → remove m key ≡ (negsuc 0, m)
unfolding remove
remove_absent m key e = rw (e, remove) refl

pub remove_present :
    (m : TimeoutMap) (key t : ℕ)
    → find key m.times ≡ some t
    → remove m key
      ≡ (pos 0, record m { elements = erase key m.elements; times = erase_key key m.times })
unfolding remove
remove_present m key t e = rw (e, remove) refl

pub update-IsLinked : (m : TimeoutMap) (key now : ℕ) → IsLinked m → IsLinked (update m key now).1
unfolding count
update-IsLinked m key now v = elim (Option-cases (find key m.times)) [
  | inl absent ↦ rw (update_absent m key now absent) v
  | inr (t, e) ↦
      let here = find-present key t m.times e in
      rw (update_present m key now t e) (record {
        same = λ j. ground (
          arith,
          count-erase j key m.elements,
          count-assign_old j key now m.times here,
          v.same j,
          v.same key,
        );
        once = λ j. ground (arith, count-erase j key m.elements, v.once j);
      })
]

pub add-IsLinked : (m : TimeoutMap) (key now : ℕ) → IsLinked m → IsLinked (add m key now).1
unfolding count
add-IsLinked m key now v = elim (Option-cases (find key m.times)) [
  | inl absent ↦
      let none_there = find-absent key m.times absent in
      rw (add_absent m key now absent) (record {
        same = λ j. ground (arith, count-assign_new j key now m.times none_there, v.same j);
        once = λ j. ground (arith, v.once j, v.same key, v.same j);
      })
  | inr (t, e) ↦ rw (add_present m key now t e) (update-IsLinked m key now v)
]

pub remove-IsLinked : (m : TimeoutMap) (key : ℕ) → IsLinked m → IsLinked (remove m key).1
remove-IsLinked m key v = elim (Option-cases (find key m.times)) [
  | inl absent ↦ rw (remove_absent m key absent) v
  | inr (t, e) ↦ rw (remove_present m key t e) (record {
    same = λ j. ground (
      arith,
      count-erase j key m.elements,
      count-erase j key (keys m.times),
      ap (count j) (keys-erase_key key m.times),
      v.same j,
    );
    once = λ j. ground (arith, count-erase j key m.elements, v.once j);
  })
]
