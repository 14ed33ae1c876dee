-- ===== src/Lib.antt =====
-- fec_kcp: a reliable transport over UDP. An endpoint hands its messages to the ARQ engine KCP, whose
-- datagrams go through a forward error correction coder to the socket; what arrives goes through the
-- decoder into the engine of the peer. This library models the engine, the coder, the decoder and the
-- classes that join them.
--
-- Prelude: names of the library, lists over native numbers, Boolean tests.
-- Word: the 32-bit arithmetic of lib/kcp/source/ikcp.c (IUINT32, `_itimediff`) and its modular order.
--
-- Kcp: lib/kcp/source/ikcp.c and lib/kcp/include/ikcp.h.
--   Segment: IKCPSEG, the integer codec, `ikcp_encode_seg` and the header reads of `ikcp_input`.
--   State: IKCPCB, grouped into records, and `ikcp_create`.
--   Send: `ikcp_send`, `ikcp_waitsnd`. Recv: `ikcp_parse_data`, `ikcp_peeksize`, `ikcp_recv`.
--   Ack: `ikcp_update_ack`, `ikcp_shrink_buf`, `ikcp_parse_ack`, `ikcp_parse_una`,
--     `ikcp_parse_fastack`, `ikcp_ack_push`.
--   Input: `ikcp_input`. Flush: `ikcp_flush`; its child Promise says what it is to send. Update: `ikcp_update`, `ikcp_check` and the setters;
--     its children Clock and Check: when the next flush is.
--   Congestion, Unmoved: the window of `ikcp_input` and `ikcp_flush`, and what leaves it alone.
--   Message: messages across `ikcp_send` and `ikcp_recv`. Valid: the invariant of the control block.
--   Life: the calls that source/fec_kcp.cpp makes, as a step relation.
--
-- Fec: lib/libfec.
--   Wire: the integer codec of source/common.cpp.
--   Encode: the class FecEncode of source/fec_encode.cpp. Its children Gather, Group and Partial follow
--     a group from the first packet to `Output` or to `FlushUnEncodedData`.
--   Timeout: the class TimeOutMap of source/timeout_map.cpp. Keys and Refine: its calls as a partial
--     function from keys to times. Expiry and Recency: `GetTimeOutElements` and the order of the list.
--   Groups: the maps of include/fec_decode.h, and in Ordered their ascending keys. Decode: the
--     class FecDecode of source/fec_decode.cpp.
--     HeaderRead: what `Input` reads of a header that `FecEncode` wrote. Clear: `ClearTimeoutDatas`.
--     Gather, Branches, Arrive, Recover and Feed: the state of a group while its packets arrive, the
--     branches of `Input`, one packet, the last one, and all of them. Output and HandOut: `Output`.
--     Sound, Measure and Progress: what `Input` and `Output` keep, and what ends the loop around them.
--     Faults: accesses outside a vector. Quiet: when nothing is ready, and when the first group is.
--   Code: the contract of the erasure code. Packets and RoundTrip: from the coder to the decoder.
--
--   Uncoded: packets that are flushed uncoded, from the coder to the decoder.
--
-- Endpoint: the class FecKcp of source/fec_kcp.cpp. Group: datagrams on their way to the socket. Rounds
--   and Deliver: the loop of `DataInput`, from the decoder to the engine. Run: the packets of a group.
--   Received and Transit: a group from one endpoint to the other. Ends: the loop of `DataInput` as
--   a relation. Life: the calls of the class as a step relation.
-- Manager: the class FecEncodeManager of source/fec_manager.cpp. Flush: `FlushUnEncodedData`.
--   Group: `Input`.
--
-- Random: lib/libfec/source/random_generator.cpp, of which the coder takes its first sequence number.
-- Sockets: source/fec_kcp_common.cpp, the set-up of the samples. Cleanup: what it leaves open.
-- Samples: samples/fec_kcp_client.cpp and samples/fec_kcp_server.cpp, which join the parts by hand.
--   Client and Server: a turn of the event loop of each. Same: a datagram, against `DataInput`.
--   Forward and Ends: the loops that hand messages on. Life: the turns of both as a step
--   relation. Main: `main` up to the call of `run`.
--
-- Conventions. A queue or buffer is a list; its counter is kept beside it as in the source. `none` from
-- a read is a read past the end of a buffer. What a function stores through the callback `output` is
-- part of its result. A result `none` of the decoder or of `DataInput` is a fault, an access outside a
-- buffer or a vector. The clock of the decoder, `getnowtime_ms`, is an argument of each call that reads
-- it. The seven maps of `FecDecode` are one list, since they get and lose their entries together. Each
-- call of the decoder is one step, since its locks are held throughout. Sums of IUINT32 wrap at 2 ^ 32.
-- Fuel: `ikcp_input` runs its loop on one more than the number of bytes; each round takes 24 of them or
-- ends, so this is enough. The loop that doubles the block of acknowledgements runs on the size wanted,
-- which it reaches earlier.
--
-- `DataInput` runs its loop on three more than the number of packets that wait in ready groups;
-- each round hands out one of them or an uncoded packet.
--
-- The loop of the samples runs on the same fuel, and the one that hands messages on runs on one more than
-- the segments received; each round but the last takes one of them off. The loop of `GetRandomNumberU16`
-- has no bound of its own; its fuel is an argument.
--
-- The results of system calls are parameters, as are the bytes of /dev/urandom and what a send returns.
--
-- Not modelled: allocation failures, the log and the release of memory of lib/kcp; addresses, flags and
-- the log of the sockets; the loop around `epoll_wait` and its errors; the erasure code of lib/libfec/lib, a
-- copy of another project's library, which is a parameter of the coder and of the decoder with the
-- contract `IsCode`.
pub mod Prelude
pub mod Word
pub mod Kcp
pub mod Fec
pub mod Endpoint
pub mod Manager
pub mod Random
pub mod Samples
pub mod Sockets
