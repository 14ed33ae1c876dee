-- ===== src/Endpoint/Tests.antt =====
-- The endpoints at concrete inputs, with a code of two data rows and their sum.
use fec_kcp.Prelude.{
  ℕ, suc, ◌+◌, ◌<◌, ◌≡◌, refl, false, true, Option, none, some, List, [], ◌∷◌, ◌++◌, map, length,
  get_or, take, ℤ, pos, negsuc, arith,
}
use fec_kcp.Kcp.State.{create}
use fec_kcp.Fec.Encode.{
  Encoder, RsEncode, output, pad, redundant_buffers, next_seq, head_length, bytes_of,
}
use fec_kcp.Fec.Encode as Encode
use fec_kcp.Fec.Encode.Gather.{coded, longest}
use fec_kcp.Fec.Groups.{Group, get, group_of, first_ready}
use fec_kcp.Fec.Decode.{Decoder, RsDecode, ◌>>=◌}
use fec_kcp.Fec.Decode as Decode
use fec_kcp.Fec.Tests.Coded.{
  sum_of, missing_of, sum-IsCode, missing-WritesBytes, coder, decoder, messages, at_once,
}
use fec_kcp.Endpoint.{FecKcp, new, send_datagrams, data_input, user_data_send, fec_kcp_update}
use fec_kcp.Endpoint.Ends.{IsWell, Course, data_input-Course}
use fec_kcp.Endpoint.Received.{received}
use fec_kcp.Endpoint.Transit.{datagram, send_datagrams-data_inputs}
use fec_kcp.Endpoint.Life.{Step, Reach, Reach-IsWell}
use fec_kcp.Kcp.Valid.{create-IsValid}
use fec_kcp.Endpoint.Group.{send_datagrams-group}
use fec_kcp.Endpoint.Rounds.{kcp_inputs}
use fec_kcp.Endpoint.Run.{data_inputs, with_results}
use fec_kcp.Fec.Decode.Quiet.{Quiet}
use fec_kcp.Fec.Code.{arrived, present}

send_datagrams-group_example :
    let size = longest messages in
    let packets =
      coded coder.seq size 2 1 0 messages
      ++ redundant_buffers coder.seq size 2 1 2 (sum_of 2 3 (map (pad size) messages) size) in
    let (sends, e') = send_datagrams sum_of coder messages in
    (sends ≡ map (λ p. (p, size + head_length)) packets)
    × (e'.cur_data_pkgs_num ≡ 0)
    × (e'.seq ≡ next_seq coder.seq)
unfolding Encode.new
send_datagrams-group_example =
    send_datagrams-group sum_of coder messages refl refl refl refl (omega arith)
      (omega arith, (omega arith, tt)) refl

-- The group with its first packet.
abbrev first_in : Decoder
first_in = record {
  groups =
      (
        700,
        record {
          pkgs_num = pos 2;
          redundant_num = pos 1;
          max_length = 3;
          pkgs = some (1 ∷ 2 ∷ 3 ∷ []) ∷ none ∷ none ∷ [];
          pkgs_length = 3 ∷ 0 ∷ 0 ∷ [];
          cur_recv = 1;
          ready = false;
        },
      )
      ∷ [];
  timeout_map = record { elements = 700 ∷ []; times = (700, 5) ∷ []; timeout_limit_ms = 10000 };
  ready_seqs_nums = 0;
  output_unit = decoder.output_unit;
}

-- The third packet.
abbrev third : List ℕ
third = 18 ∷ 52 ∷ 86 ∷ 120 ∷ 2 ∷ 188 ∷ 0 ∷ 3 ∷ 2 ∷ 1 ∷ 3 ∷ 5 ∷ 2 ∷ 3 ∷ []

abbrev endpoint : FecKcp
endpoint = record { kcp = create 0x11112222; fec_encode = coder; fec_decode = first_in }

abbrev fresh : FecKcp
fresh = record { kcp = create 0x11112222; fec_encode = coder; fec_decode = decoder }

fresh-Quiet : Quiet 700 fresh.fec_decode
unfolding Decode.new
fresh-Quiet = record { idle = tt; none_ready = refl; no_plain = refl; elsewhere = refl }

endpoint-IsWell : IsWell endpoint
unfolding Decode.new
endpoint-IsWell = record {
  start = 0;
  engine = create-IsValid 0x11112222;
  decoder = record { ascending = (tt, tt); rows = ((omega arith, (tt, (tt, tt))), tt); plain = tt };
}

data_input-Course_example :
    Course 6 endpoint
      (Decode.input missing_of 6 first_in (some third))
      (data_input missing_of 6 endpoint third)
data_input-Course_example =
    data_input-Course missing_of missing-WritesBytes 6 endpoint third (omega arith) endpoint-IsWell

-- The first packet of the group.
abbrev first : List ℕ
first = 18 ∷ 52 ∷ 86 ∷ 120 ∷ 2 ∷ 188 ∷ 0 ∷ 3 ∷ 2 ∷ 1 ∷ 1 ∷ 1 ∷ 2 ∷ 3 ∷ []

-- An endpoint that has sent three bytes and flushed.
abbrev flushed : FecKcp
flushed =
    (fec_kcp_update sum_of (user_data_send (new 2 1 (some 700)) (7 ∷ 8 ∷ 9 ∷ []) (pos 3)).1 100).1

first_received :
    data_input missing_of 5 flushed first ≡ some (pos 0, record flushed { fec_decode = first_in })
unfolding data_input Decode.input fec_kcp.Fec.Wire.read_u32 fec_kcp.Fec.Wire.read_u16
    fec_kcp.Prelude.◌+ℤ◌ get fec_kcp_update user_data_send new Decode.new group_of
    fec_kcp.Fec.Groups.ready_packets fec_kcp.Fec.Groups.put fec_kcp.Fec.Timeout.add
    fec_kcp.Fec.Timeout.find fec_kcp.Fec.Timeout.assign
first_received = refl

Reach-IsWell_example : IsWell (record flushed { fec_decode = first_in })
Reach-IsWell_example = Reach-IsWell missing_of missing-WritesBytes sum_of 2 1 (some 700) (
    Reach.next
      (Reach.next (Reach.next Reach.here (Step.sends (7 ∷ 8 ∷ 9 ∷ []) (pos 3) (omega arith)))
        (Step.updates 100))
      (Step.inputs 5 first (omega arith) first_received))

send_datagrams-data_inputs_example :
    (d' : Decoder) × (data_inputs missing_of at_once
        (datagram (send_datagrams sum_of coder messages).0)
        fresh
        (2 ∷ 0 ∷ [])
      ≡ (kcp_inputs (pos 0) fresh.kcp (received (2 ∷ 0 ∷ []) (longest messages) 0 messages)
          >>= with_results fresh d' 1))
    × (d'.ready_seqs_nums ≡ 0)
unfolding Encode.new Decode.new get arrived present
send_datagrams-data_inputs_example =
    send_datagrams-data_inputs sum_of missing_of at_once coder messages fresh (0 ∷ []) 2 sum-IsCode
      refl refl refl (omega arith) (omega arith) (omega arith) (omega arith) refl (omega arith) refl
      fresh-Quiet (omega arith, tt) (omega arith) refl refl
