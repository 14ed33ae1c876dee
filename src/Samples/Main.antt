-- ===== src/Samples/Main.antt =====
-- `main` of samples/fec_kcp_client.cpp and samples/fec_kcp_server.cpp, which are the same, up to the call of
-- `run`. What `strtol` makes of an argument, cast to int32_t, is a parameter.
use fec_kcp.Prelude.{
  ℕ, ◌≤◌, ◌≡◌, refl, false, Bool-cases, Option, none, some, inl, inr, ◌⊎◌, List, [], ◌∷◌, length,
  get_or, ltb, ltb_ℤ, if◌then◌else◌, ℤ, pos, negsuc, arith,
}
use fec_kcp.Sockets.{Os, World, init}
use fec_kcp.Sockets.Cleanup.{IsSystem, refused, begin, init-IsClean}

-- The result and what is open, or no result where `run` is called.
unfoldable pub main : Os → ℤ → (List ℕ → ℤ) → List (List ℕ) → World → Option ℤ × World
main os unreturned strtol argv w =
    if ltb (length argv) 3
    then (some (negsuc 0), w)
    else if ltb_ℤ (strtol (get_or argv 2 [])) (pos 0)
    then (some (negsuc 0), w)
    else let (ret, w') = init os unreturned w in
      if ltb_ℤ ret (pos 0) then (some (negsuc 0), w') else (none, w')

-- `run` is called with everything open and the arguments there, or the program fails with nothing open.
abbrev pub IsLaunch : Os → (List ℕ → ℤ) → List (List ℕ) → Option ℤ × World → Type 0
IsLaunch os strtol argv (result, w) =
    ((result ≡ none)
      × (3 ≤ length argv)
      × (ltb_ℤ (strtol (get_or argv 2 [])) (pos 0) ≡ false)
      × (w.open_fds ≡ os 7 ∷ os 4 ∷ os 1 ∷ os 0 ∷ [])
      × (w.watched ≡ os 7 ∷ os 4 ∷ os 1 ∷ []))
    ⊎ ((result ≡ some (negsuc 0)) × (w.open_fds ≡ []))

-- A sample with any arguments, on a system on which any call may fail but `bind`, `timerfd_create` and
-- `timerfd_settime`. The result that `new_listen_socket` leaves out is taken not to be negative. Then `main` gets to `run`, with an address, a port that is not
-- negative, the epoll instance, the two sockets and the timer open, and the sockets and the timer
-- watched; or it returns -1, and nothing is open.
pub main-IsLaunch :
    (os : Os) (unreturned : ℤ) (strtol : List ℕ → ℤ) (argv : List (List ℕ))
    → IsSystem os
    → ltb_ℤ unreturned (pos 0) ≡ false
    → refused os 2 ≡ false
    → refused os 7 ≡ false
    → refused os 8 ≡ false
    → IsLaunch os strtol argv (main os unreturned strtol argv begin)
unfolding main
main-IsLaunch os unreturned strtol argv system fine bound made set =
    elim (Bool-cases (ltb (length argv) 3)) [
      | inl few ↦ rw few (inr (refl, refl))
      | inr given ↦ elim (Bool-cases (ltb_ℤ (strtol (get_or argv 2 [])) (pos 0))) [
        | inl bad ↦ rw (given, bad) (inr (refl, refl))
        | inr port ↦ elim (init-IsClean os unreturned system fine bound made set) [
          | inl (ok, opened, watched) ↦
              rw (given, port, ok) (inl (refl, ground (arith, given), refl, opened, watched))
          | inr (failed, closed) ↦ rw (given, port, failed) (inr (refl, closed))
        ]
      ]
    ]
