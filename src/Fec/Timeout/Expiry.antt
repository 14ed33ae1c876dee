-- ===== src/Fec/Timeout/Expiry.antt =====
-- `TimeOutMap::GetTimeOutElements` (lib/libfec/source/timeout_map.cpp): the walk from the oldest key on.
use fec_kcp.Prelude.{
  ℕ, ◌-◌, ◌≤◌, ◌≡◌, refl, ap, ◌∙◌, sym, false, ◌⊎◌, inl, inr, Bool-cases, List, [], ◌∷◌, ◌++◌,
  append-nil, arith, ltb, if◌then◌else◌,
}
use fec_kcp.Fec.Timeout.{TimeoutMap, time_of, expired_from, get_timeout_elements}

-- The list has the newest keys in front, none newer than `hi`.
abbrev pub Recent : List (ℕ × ℕ) → ℕ → List ℕ → Type 0
Recent m hi [] = Unit {0}
Recent m hi (k ∷ ks) = (time_of k m ≤ hi) × Recent m (time_of k m) ks

-- All the keys older than the limit, the oldest first.
unfoldable pub expired : ℕ → ℕ → List (ℕ × ℕ) → List ℕ → List ℕ
expired limit now m [] = []
expired limit now m (k ∷ ks) =
    expired limit now m ks ++ (if ltb limit (now - time_of k m) then k ∷ [] else [])

young_lem : (limit age : ℕ) → ltb limit age ≡ false → age ≤ limit
young_lem limit age e = ground arith

expired_from-expired :
    (limit now hi : ℕ) (m : List (ℕ × ℕ)) (ks : List ℕ)
    → Recent m hi ks
    → let (older, stopped) = expired_from limit now m ks in
      (older ≡ expired limit now m ks) × ((stopped ≡ false) ⊎ (now - hi ≤ limit))
unfolding expired_from expired
expired_from-expired limit now hi m [] v = (refl, inl refl)
expired_from-expired limit now hi m (k ∷ ks) v =
    let (e, bound) = expired_from-expired limit now (time_of k m) m ks v.1 in
    elim (Bool-cases (expired_from limit now m ks).1) [
      | inl over ↦
          let young : ltb limit (now - time_of k m) ≡ false = ground (arith, bound, over) in
          rw (over, young)
            (
              e ∙ sym (append-nil _),
              inr (omega (arith, v.0, young_lem limit (now - time_of k m) young)),
            )
      | inr on ↦ elim (Bool-cases (ltb limit (now - time_of k m))) [
        | inl old ↦ rw (on, old) (ap (λ l. l ++ k ∷ []) e, inl refl)
        | inr young ↦
            rw (on, young)
              (
                e ∙ sym (append-nil _),
                inr (omega (arith, v.0, young_lem limit (now - time_of k m) young)),
              )
      ]
    ]

-- While the keys are in the order of their times, `GetTimeOutElements` returns exactly the keys whose
-- last update is longer ago than the limit, the oldest first, although it stops at the first young one.
pub get_timeout_elements-expired :
    (m : TimeoutMap) (now newest : ℕ)
    → Recent m.times newest m.elements
    → get_timeout_elements m now ≡ expired m.timeout_limit_ms now m.times m.elements
unfolding get_timeout_elements
get_timeout_elements-expired m now newest v =
    (expired_from-expired m.timeout_limit_ms now newest m.times m.elements v).0
