-- ===== src/Samples/Life.antt =====
-- The event loops of samples/fec_kcp_client.cpp and samples/fec_kcp_server.cpp, turn by turn.
use fec_kcp.Prelude.{ℕ, ◌≡◌, Option, none, some, List, All}
use fec_kcp.Kcp.State.{Kcp}
use fec_kcp.Kcp.Segment.Bytes.{IsByte}
use fec_kcp.Kcp.Valid.{IsValid}
use fec_kcp.Fec.Encode.{RsEncode}
use fec_kcp.Fec.Decode.{Decoder, RsDecode}
use fec_kcp.Fec.Decode.Sound.{Sound, WritesBytes}
use fec_kcp.Endpoint.{Sends}
use fec_kcp.Samples.{Peer}
use fec_kcp.Samples.Client as Client
use fec_kcp.Samples.Server as Server

-- The engine satisfies its invariant, the keys of the decoder's maps ascend, and it holds bytes.
pub record IsRunning (p : Peer) : Type 0 where
  pub first : ℕ
  pub engine : IsValid first p.kcp
  pub decoder : Sound p.fec_decoder

-- A control block that satisfies its invariant, and with the decoder what a datagram leaves, if there is
-- no fault.
abbrev Engine : Kcp → Type 0
Engine k = (first : ℕ) × IsValid first k

abbrev Stays : Option (Kcp × Decoder) → Type 0
Stays none = Unit
Stays (some (k, d)) = Engine k × Sound d

-- What a turn leaves, if there is no fault.
abbrev Leaves : {A B : Type 0} → Option (A × B × Peer) → Type 0
Leaves none = Unit
Leaves (some (a, b, p)) = IsRunning p

-- Packets from the network consist of bytes.
abbrev pub IsClientEvent : Client.Event → Type 0
IsClientEvent (Client.Event.remote_readable now (some bytes)) = All IsByte bytes
IsClientEvent _ = Unit

abbrev pub IsServerEvent : Server.Event → Type 0
IsServerEvent (Server.Event.local_readable now (some (address, bytes))) = All IsByte bytes
IsServerEvent _ = Unit

module _ (rs_encode2 : RsEncode) (rs_decode2 : RsDecode) (writes : WritesBytes rs_decode2) where
  -- A turn of the client or of the server that meets no fault.
  pub data Turn (p : Peer) : Peer → Type 0 where
    client :
        (ev : Client.Event) {sends : Sends} {given : Client.Given} {p' : Peer}
        → IsClientEvent ev
        → Client.step rs_encode2 rs_decode2 p ev ≡ some (sends, given, p')
        → Turn p p'
    server :
        (ev : Server.Event) {sends : ℕ × Sends} {given : List (List ℕ)} {p' : Peer}
        → IsServerEvent ev
        → Server.step rs_encode2 rs_decode2 p ev ≡ some (sends, given, p')
        → Turn p p'

  -- Any number of turns.
  pub data Turns (p : Peer) : Peer → Type 0 where
    here : Turns p p
    next : {p' p'' : Peer} → Turns p p' → Turn p' p'' → Turns p p''
