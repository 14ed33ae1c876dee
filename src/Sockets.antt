-- ===== src/Sockets.antt =====
-- source/fec_kcp_common.cpp: the sockets, the timer and the epoll instance of the samples, on an operating
-- system that may refuse each call. The result of the i-th system call is a parameter. Addresses, flags
-- and the log are left out: they decide nothing here.
pub mod Cleanup
mod Tests
use fec_kcp.Prelude.{
  ℕ, zero, suc, ◌+◌, ◌*◌, ◌/◌, ◌≡◌, refl, ap, ◌∙◌, sym, Bool, true, false, ◌&&◌, not, if◌then◌else◌,
  List, [], ◌∷◌, ltb_ℤ, leb_ℤ, ℤ, pos, negsuc, arith, Bool-cases, inl, inr,
}

abbrev pub Os : Type 0
Os = ℕ → ℤ

abbrev pub eq_ℤ : ℤ → ℤ → Bool
eq_ℤ a b = leb_ℤ a b && leb_ℤ b a

-- The descriptors that are open, the latest first, those that epoll watches, and the number of system
-- calls so far.
pub record World : Type 0 where
  pub open_fds : List ℤ
  pub watched : List ℤ
  pub calls : ℕ

-- A system call that opens nothing: its result.
unfoldable pub call : Os → World → ℤ × World
call os w = (os w.calls, record w { calls = w.calls + 1 })

-- A system call that opens a descriptor, unless its result is negative.
unfoldable pub open_fd : Os → World → ℤ × World
open_fd os w =
    let fd = os w.calls in
    (
      fd,
      record w {
        open_fds = if ltb_ℤ fd (pos 0) then w.open_fds else fd ∷ w.open_fds;
        calls = w.calls + 1;
      },
    )

unfoldable pub drop_fd : ℤ → List ℤ → List ℤ
drop_fd fd [] = []
drop_fd fd (x ∷ xs) = let rest = drop_fd fd xs in if eq_ℤ fd x then xs else x ∷ rest

-- `close`; its result is not looked at. A closed descriptor is no longer watched.
unfoldable pub close : ℤ → World → World
close fd w = record w { open_fds = drop_fd fd w.open_fds; watched = drop_fd fd w.watched }

-- `AddEvent2Epoll`
unfoldable pub add_event : Os → ℤ → World → ℤ × World
unfolding call
add_event os fd w =
    let (ret, w') = call os w in
    if not (eq_ℤ ret (pos 0))
    then (negsuc 0, w')
    else (pos 0, record w' { watched = fd ∷ w'.watched })

-- `new_listen_socket`: the result, `fd` and what is left. It ends without a `return` if all goes well;
-- `unreturned` is what its caller finds then.
unfoldable pub new_listen_socket : Os → ℤ → World → ℤ × ℤ × World
unfolding open_fd call
new_listen_socket os unreturned w =
    let (fd, w₁) = open_fd os w in
    if eq_ℤ fd (negsuc 0)
    then (negsuc 0, fd, w₁)
    else let (bound, w₂) = call os w₁ in
      if eq_ℤ bound (negsuc 0) then (negsuc 0, fd, w₂) else (unreturned, fd, w₂)

-- `new_connected_socket`: the result, `fd` and what is left.
unfoldable pub new_connected_socket : Os → World → ℤ × ℤ × World
unfolding open_fd call close
new_connected_socket os w =
    let (fd, w₁) = open_fd os w in
    if ltb_ℤ fd (pos 0)
    then (negsuc 0, fd, w₁)
    else let (connected, w₂) = call os w₁ in
      if ltb_ℤ connected (pos 0) then (negsuc 0, fd, close fd w₂) else (pos 0, fd, w₂)

-- The end of `init`: the timer.
unfoldable pub init_timer : Os → ℤ → ℤ → ℤ → World → ℤ × World
unfolding open_fd call close add_event
init_timer os epoll_fd local_listen_fd remote_connected_fd w =
    let (timerfd, w₁) = open_fd os w in
    if eq_ℤ timerfd (negsuc 0)
    then (negsuc 0, w₁)
    else let (set, w₂) = call os w₁ in
      if eq_ℤ set (negsuc 0)
      then (negsuc 0, w₂)
      else let (ret, w₃) = add_event os timerfd w₂ in
        if not (eq_ℤ ret (pos 0))
        then (
          negsuc 0,
          close epoll_fd (close timerfd (close local_listen_fd (close remote_connected_fd w₃))),
        )
        else (pos 0, w₃)

-- The middle of `init`: the socket that is connected to the remote.
unfoldable pub init_remote : Os → ℤ → ℤ → World → ℤ × World
unfolding new_connected_socket add_event close
init_remote os epoll_fd local_listen_fd w =
    let (ret, remote_connected_fd, w₁) = new_connected_socket os w in
    if not (eq_ℤ ret (pos 0))
    then (negsuc 0, close epoll_fd (close local_listen_fd w₁))
    else let (ret', w₂) = add_event os remote_connected_fd w₁ in
      if not (eq_ℤ ret' (pos 0))
      then (negsuc 0, close epoll_fd (close local_listen_fd (close remote_connected_fd w₂)))
      else init_timer os epoll_fd local_listen_fd remote_connected_fd w₂

-- `init`, with the result of `new_listen_socket` where that has none.
unfoldable pub init : Os → ℤ → World → ℤ × World
unfolding open_fd close add_event new_listen_socket
init os unreturned w =
    let (epoll_fd, w₁) = open_fd os w in
    if ltb_ℤ epoll_fd (pos 0)
    then (negsuc 0, w₁)
    else let (ret, local_listen_fd, w₂) = new_listen_socket os unreturned w₁ in
      if ltb_ℤ ret (pos 0)
      then (negsuc 0, close epoll_fd w₂)
      else let (ret', w₃) = add_event os local_listen_fd w₂ in
        if not (eq_ℤ ret' (pos 0))
        then (negsuc 0, close epoll_fd (close local_listen_fd w₃))
        else init_remote os epoll_fd local_listen_fd w₃

-- `get_milliseconds` from the fields of `gettimeofday`.
unfoldable pub get_milliseconds : ℕ → ℕ → ℕ
get_milliseconds tv_sec tv_usec = tv_sec * 1000 + tv_usec / 1000
