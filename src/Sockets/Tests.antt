-- ===== src/Sockets/Tests.antt =====
-- The set-up of the samples at concrete inputs.
use fec_kcp.Prelude.{
  ℕ, ◌+◌, ◌<◌, ◌≡◌, refl, false, ◌==◌, if◌then◌else◌, [], ◌∷◌, pos, negsuc, arith,
}
use fec_kcp.Sockets.{Os, init}
use fec_kcp.Sockets.Cleanup.{IsSystem, refused, begin, init_leaks}

-- There is no timer to be had.
abbrev no_timer : Os
no_timer i =
    if i == 7 then negsuc 0 else if i == 3 then pos 0 else if i == 6 then pos 0 else pos (i + 3)

no_timer-IsSystem : IsSystem no_timer
no_timer-IsSystem i = ground arith

works : (i : ℕ) → i < 7 → refused no_timer i ≡ false
works i h = ground arith

init_leaks_example :
    let (ret, w) = init no_timer (pos 1) begin in
    (ret ≡ negsuc 0) × (w.open_fds ≡ pos 7 ∷ pos 4 ∷ pos 3 ∷ [])
init_leaks_example = init_leaks no_timer (pos 1) no_timer-IsSystem refl works refl refl refl
