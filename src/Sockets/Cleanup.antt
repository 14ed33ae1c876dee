-- ===== src/Sockets/Cleanup.antt =====
-- `init` (source/fec_kcp_common.cpp): what is open when it returns.
use fec_kcp.Prelude.{
  ℕ, ◌<◌, ◌≡◌, refl, ap, ◌∙◌, Bool, true, false, List, [], ◌∷◌, ltb_ℤ, leb_ℤ, ℤ, pos, negsuc, arith,
  Bool-cases, ◌⊎◌, inl, inr,
}
use fec_kcp.Sockets.{
  Os, eq_ℤ, World, drop_fd, close, add_event, new_listen_socket, new_connected_socket, init_timer,
  init_remote, init,
}

eq_ℤ-sound : (a b : ℤ) → eq_ℤ a b ≡ true → a ≡ b
eq_ℤ-sound (pos a) (pos b) h = ap pos (ground arith)
eq_ℤ-sound (pos a) (negsuc b) h = ground arith
eq_ℤ-sound (negsuc a) (pos b) h = ground arith
eq_ℤ-sound (negsuc a) (negsuc b) h = ap negsuc (ground arith)

eq_ℤ-refl : (a : ℤ) → eq_ℤ a a ≡ true
eq_ℤ-refl (pos a) = ground arith
eq_ℤ-refl (negsuc a) = ground arith

drop_first : (a : ℤ) (l : List ℤ) → drop_fd a (a ∷ l) ≡ l
unfolding drop_fd
drop_first a l = rw (eq_ℤ-refl a) refl

drop_second : (a b : ℤ) (l : List ℤ) → drop_fd b (a ∷ b ∷ l) ≡ a ∷ l
unfolding drop_fd
drop_second a b l = elim (Bool-cases (eq_ℤ b a)) [
  | inl same ↦ rw same (ap (λ x. x ∷ l) (eq_ℤ-sound b a same))
  | inr other ↦ rw (other, eq_ℤ-refl b) refl
]

-- A system call fails by returning -1.
abbrev pub refused : Os → ℕ → Bool
refused os i = eq_ℤ (os i) (negsuc 0)

-- What the system's documentation says of each call: its result is -1 or not negative.
abbrev pub IsSystem : Os → Type 0
IsSystem os = (i : ℕ) → leb_ℤ (negsuc 0) (os i) ≡ true

negative_refused : (x : ℤ) → leb_ℤ (negsuc 0) x ≡ true → ltb_ℤ x (pos 0) ≡ eq_ℤ x (negsuc 0)
negative_refused (pos n) h = ground arith
negative_refused (negsuc n) h = ground arith

-- All is set up, or nothing is open.
abbrev pub IsClean : Os → ℤ × World → Type 0
IsClean os (ret, w) =
    ((ret ≡ pos 0)
      × (w.open_fds ≡ os 7 ∷ os 4 ∷ os 1 ∷ os 0 ∷ [])
      × (w.watched ≡ os 7 ∷ os 4 ∷ os 1 ∷ []))
    ⊎ ((ret ≡ negsuc 0) × (w.open_fds ≡ []))

module _ (os : Os) (system : IsSystem os) where
  init_timer-IsClean :
      refused os 7 ≡ false
      → refused os 8 ≡ false
      → IsClean os (
          init_timer os
            (os 0)
            (os 1)
            (os 4)
            (record { open_fds = os 4 ∷ os 1 ∷ os 0 ∷ []; watched = os 4 ∷ os 1 ∷ []; calls = 7 }))
  unfolding init_timer add_event close
  init_timer-IsClean made set =
      let n = negative_refused (os 7) (system 7) ∙ made in
      elim (Bool-cases (eq_ℤ (os 9) (pos 0))) [
        | inl e ↦ rw (made, set, n, e) (inl (refl, refl, refl))
        | inr e ↦
            rw (made, set, n, e)
              (inr (
                refl,
                rw
                    (
                      drop_second (os 7) (os 4) (os 1 ∷ os 0 ∷ []),
                      drop_second (os 7) (os 1) (os 0 ∷ []),
                      drop_first (os 7) (os 0 ∷ []),
                      drop_first (os 0) [],
                    )
                    refl,
              ))
      ]

  init_remote-IsClean :
      refused os 7 ≡ false
      → refused os 8 ≡ false
      → IsClean os (
          init_remote os
            (os 0)
            (os 1)
            (record { open_fds = os 1 ∷ os 0 ∷ []; watched = os 1 ∷ []; calls = 4 }))
  unfolding init_remote add_event close new_connected_socket
  init_remote-IsClean made set =
      let two = drop_first (os 1) (os 0 ∷ []) in
      let one = drop_first (os 0) [] in
      let three = drop_first (os 4) (os 1 ∷ os 0 ∷ []) in
      elim (Bool-cases (ltb_ℤ (os 4) (pos 0))) [
        | inl e4 ↦ rw e4 (inr (refl, rw (two, one) refl))
        | inr e4 ↦ elim (Bool-cases (ltb_ℤ (os 5) (pos 0))) [
          | inl e5 ↦ rw (e4, e5) (inr (refl, rw (three, two, one) refl))
          | inr e5 ↦ elim (Bool-cases (eq_ℤ (os 6) (pos 0))) [
            | inl e6 ↦ rw (e4, e5, e6) (init_timer-IsClean made set)
            | inr e6 ↦ rw (e4, e5, e6) (inr (refl, rw (three, two, one) refl))
          ]
        ]
      ]

abbrev pub begin : World
begin = record { open_fds = []; watched = []; calls = 0 }

-- The first half succeeds.
module _ (os : Os) (system : IsSystem os) where
  init-init_remote :
      (unreturned : ℤ)
      → ltb_ℤ unreturned (pos 0) ≡ false
      → ltb_ℤ (os 0) (pos 0) ≡ false
      → refused os 1 ≡ false
      → refused os 2 ≡ false
      → eq_ℤ (os 3) (pos 0) ≡ true
      → init os unreturned begin
        ≡ init_remote os
            (os 0)
            (os 1)
            (record { open_fds = os 1 ∷ os 0 ∷ []; watched = os 1 ∷ []; calls = 4 })
  unfolding init add_event new_listen_socket
  init-init_remote unreturned fine e0 e1 e2 e3 =
      rw (e0, e1, negative_refused (os 1) (system 1) ∙ e1, e2, fine, e3) refl

  init_remote-init_timer :
      ltb_ℤ (os 4) (pos 0) ≡ false
      → ltb_ℤ (os 5) (pos 0) ≡ false
      → eq_ℤ (os 6) (pos 0) ≡ true
      → init_remote os
          (os 0)
          (os 1)
          (record { open_fds = os 1 ∷ os 0 ∷ []; watched = os 1 ∷ []; calls = 4 })
        ≡ init_timer os
            (os 0)
            (os 1)
            (os 4)
            (record { open_fds = os 4 ∷ os 1 ∷ os 0 ∷ []; watched = os 4 ∷ os 1 ∷ []; calls = 7 })
  unfolding init_remote new_connected_socket add_event
  init_remote-init_timer e4 e5 e6 = rw (e4, e5, e6) refl

-- The set-up of the samples on a system each of whose calls may fail. The result that `new_listen_socket`
-- leaves out is taken not to be negative, and three calls do not fail: `bind`, `timerfd_create` and
-- `timerfd_settime`. Then `init` returns 0, the epoll instance, the two sockets and the timer are open, and
-- the sockets and the timer are watched; or it returns -1 and nothing is open.
pub init-IsClean :
    (os : Os) (unreturned : ℤ)
    → IsSystem os
    → ltb_ℤ unreturned (pos 0) ≡ false
    → refused os 2 ≡ false
    → refused os 7 ≡ false
    → refused os 8 ≡ false
    → IsClean os (init os unreturned begin)
unfolding init add_event close new_listen_socket
init-IsClean os unreturned system fine bound made set =
    let one = drop_first (os 0) [] in
    let two = drop_first (os 1) (os 0 ∷ []) in
    elim (Bool-cases (ltb_ℤ (os 0) (pos 0))) [
      | inl e0 ↦ rw e0 (inr (refl, refl))
      | inr e0 ↦ elim (Bool-cases (refused os 1)) [
        | inl e1 ↦ rw (e0, e1, negative_refused (os 1) (system 1) ∙ e1) (inr (refl, one))
        | inr e1 ↦
            let n1 = negative_refused (os 1) (system 1) ∙ e1 in
            elim (Bool-cases (eq_ℤ (os 3) (pos 0))) [
              | inl e3 ↦
                  rw (init-init_remote os system unreturned fine e0 e1 bound e3)
                    (init_remote-IsClean os system made set)
              | inr e3 ↦ rw (e0, e1, n1, bound, fine, e3) (inr (refl, rw (two, one) refl))
            ]
      ]
    ]

-- Where the set-up leaks: the calls up to the one that makes the timer succeed, and that one fails. Then
-- `init` returns -1, and the epoll instance and the two sockets stay open. The result that
-- `new_listen_socket` leaves out is taken not to be negative.
pub init_leaks :
    (os : Os) (unreturned : ℤ)
    → IsSystem os
    → ltb_ℤ unreturned (pos 0) ≡ false
    → ((i : ℕ) → i < 7 → refused os i ≡ false)
    → eq_ℤ (os 3) (pos 0) ≡ true
    → eq_ℤ (os 6) (pos 0) ≡ true
    → refused os 7 ≡ true
    → let (ret, w) = init os unreturned begin in
      (ret ≡ negsuc 0) × (w.open_fds ≡ os 4 ∷ os 1 ∷ os 0 ∷ [])
unfolding init_timer
init_leaks os unreturned system fine works e3 e6 e7 =
    let n = λ (i : ℕ) (h : i < 7). negative_refused (os i) (system i) ∙ works i h in
    rw
      (
        init-init_remote os system unreturned fine (n 0 (omega arith)) (works 1 (omega arith))
            (works 2 (omega arith)) e3,
        init_remote-init_timer os system (n 4 (omega arith)) (n 5 (omega arith)) e6,
      )
      (rw (e7, negative_refused (os 7) (system 7) ∙ e7) (refl, refl))
