-- ===== src/Samples/Tests.antt =====
-- The samples at concrete inputs.
use fec_kcp.Prelude.{
  ◌+◌, ◌==◌, if◌then◌else◌, negsuc, ◌≤◌, length, ℕ, ◌≡◌, refl, false, none, some, List, [], ◌∷◌,
  ◌++◌, ℤ, pos, arith,
}
use fec_kcp.Kcp.Segment.{Segment}
use fec_kcp.Kcp.State.{Kcp, create}
use fec_kcp.Kcp.Send.{send, fragment, fragment_count}
use fec_kcp.Fec.Tests.Coded.{missing_of}
use fec_kcp.Endpoint.{FecKcp, data_input}
use fec_kcp.Endpoint as Endpoint
use fec_kcp.Fec.Decode.{Decoder}
use fec_kcp.Samples.{Peer, start, on_packet, recv_rounds}
use fec_kcp.Samples.Ends.{forward-recv_rounds}
use fec_kcp.Samples.Main.{IsLaunch, main, main-IsLaunch}
use fec_kcp.Sockets.{Os}
use fec_kcp.Sockets.Cleanup.{IsSystem, begin}
use fec_kcp.Samples.Client as Client
use fec_kcp.Samples.Server as Server
use fec_kcp.Samples.Same.{engine_of, on_packet-data_input}
use fec_kcp.Samples.Forward.{Waiting, handed_on, forward-handed_on}

abbrev endpoint : FecKcp
endpoint = Endpoint.new 2 1 (some 700)

abbrev packet : List ℕ
packet = 18 ∷ 52 ∷ 86 ∷ 120 ∷ 2 ∷ 188 ∷ 0 ∷ 3 ∷ 2 ∷ 1 ∷ 3 ∷ 5 ∷ 2 ∷ 3 ∷ []

on_packet-data_input_example :
    on_packet missing_of 6 endpoint.kcp endpoint.fec_decode packet
    ≡ engine_of (data_input missing_of 6 endpoint packet)
on_packet-data_input_example = on_packet-data_input missing_of 6 endpoint packet

abbrev messages : List (List ℕ)
messages = (1 ∷ 2 ∷ 3 ∷ 4 ∷ []) ∷ (5 ∷ []) ∷ []

abbrev queue : List Segment
queue = fragment 3 false 2 (1 ∷ 2 ∷ 3 ∷ 4 ∷ []) 4 ++ fragment 3 false 1 (5 ∷ []) 1

abbrev blank : Kcp
blank = create 1

abbrev engine : Kcp
engine = record blank { rcv = record (blank.rcv) { rcv_queue = queue; nrcv_que = 3 } }

abbrev all_sent : ℕ → ℤ
all_sent j = pos 4

engine-Waiting : Waiting 3 messages engine.rcv
unfolding create fragment fragment_count
engine-Waiting = record {
  queued = (
    fragment 3 false 2 (1 ∷ 2 ∷ 3 ∷ 4 ∷ []) 4,
    fragment 3 false 1 (5 ∷ []) 1,
    refl,
    refl,
    (fragment 3 false 1 (5 ∷ []) 1, [], refl, refl, refl),
  );
  counted = refl;
  no_buffered = refl;
}

forward-handed_on_example :
    ((Client.forward (recv_rounds engine) engine).0 ≡ handed_on messages)
    × ((Client.forward (recv_rounds engine) engine).1.rcv.rcv_queue ≡ [])
    × ((Server.forward all_sent 0 (recv_rounds engine) engine).0 ≡ messages)
    × ((Server.forward all_sent 0 (recv_rounds engine) engine).1.rcv.rcv_queue ≡ [])
forward-handed_on_example =
    forward-handed_on messages all_sent 3 engine (omega arith) (λ j. refl)
      ((omega arith, omega arith), ((omega arith, omega arith), tt)) engine-Waiting

-- The client once it has sent two bytes of its user, and once a packet of a group has come back.
abbrev started : Peer
started = start (some 700)

abbrev talking : Peer
talking = record started { kcp = (send started.kcp (1 ∷ 2 ∷ []) (pos 2)).1; address = 7 }

abbrev answered : Decoder
answered = record {
  groups =
      (
        700,
        record {
          pkgs_num = pos 2;
          redundant_num = pos 1;
          max_length = 3;
          pkgs = none ∷ none ∷ some (5 ∷ 2 ∷ 3 ∷ []) ∷ [];
          pkgs_length = 0 ∷ 0 ∷ 3 ∷ [];
          cur_recv = 1;
          ready = false;
        },
      )
      ∷ [];
  timeout_map = record { elements = 700 ∷ []; times = (700, 6) ∷ []; timeout_limit_ms = 10000 };
  ready_seqs_nums = 0;
  output_unit = started.fec_decoder.output_unit;
}

forward-recv_rounds_example :
    (Client.forward 9 engine ≡ Client.forward (recv_rounds engine) engine)
    × (Server.forward all_sent 0 9 engine ≡ Server.forward all_sent 0 (recv_rounds engine) engine)
    × (length (Client.forward 9 engine).0 ≤ recv_rounds engine)
unfolding recv_rounds fragment create
forward-recv_rounds_example = forward-recv_rounds engine all_sent 9 (omega arith)

-- `epoll_ctl` refuses the connected socket.
abbrev no_watch : Os
no_watch i = if i == 6 then negsuc 0 else if i == 3 then pos 0 else pos (i + 3)

no_watch-IsSystem : IsSystem no_watch
no_watch-IsSystem i = ground arith

-- The program's name, an address and a port.
abbrev arguments : List (List ℕ)
arguments = (99 ∷ []) ∷ (49 ∷ []) ∷ (53 ∷ []) ∷ []

main-IsLaunch_example :
    IsLaunch no_watch (λ a. pos 5) arguments (main no_watch (pos 1) (λ a. pos 5) arguments begin)
main-IsLaunch_example =
    main-IsLaunch no_watch (pos 1) (λ a. pos 5) arguments no_watch-IsSystem refl refl refl refl
