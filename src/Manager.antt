-- ===== src/Manager.antt =====
-- source/fec_manager.cpp: `FecEncodeManager`, which puts data through a coder and sends the packets on a
-- socket. What the system's `send` or `sendto` returns for the i-th packet of a call is a parameter.
pub mod Flush
pub mod Group
mod Tests
use fec_kcp.Prelude.{
  ℕ, zero, suc, ◌+◌, Bool, true, false, not, Option, none, some, List, [], ◌∷◌, length, map, ltb_ℤ,
  ◌==◌, if◌then◌else◌, ℤ, pos, negsuc,
}
use fec_kcp.Fec.Encode.{Encoder, RsEncode, output, flush_unencoded}
use fec_kcp.Fec.Encode as Encode
use fec_kcp.Endpoint.{Sends, sends_of}

-- The loops over `send_data`, from packet `i` on: the packets that are sent, and whether all are.
unfoldable pub send_all : (ℕ → ℤ) → ℕ → Sends → Sends × Bool
send_all sent i [] = ([], true)
send_all sent i (p ∷ ps) =
    let (later, done) = send_all sent (i + 1) ps in
    if ltb_ℤ (sent i) (pos 0) then (p ∷ [], false) else (p ∷ later, done)

-- `Input`. The result is `none` where the function ends without a `return`.
unfoldable pub input : RsEncode → (ℕ → ℤ) → Encoder → List ℕ → Option ℤ × Sends × Encoder
unfolding send_all
input rs_encode2 sent e bytes =
    let (ret, e') = Encode.input rs_encode2 e (some bytes) in
    let (ret', packets, e'') = output e' in
    if ltb_ℤ ret (pos 0) then (some (negsuc 0), [], e') else (elim ret [
      | pos (suc zero) ↦ (elim packets [
        | none ↦ (some (negsuc 1), [], e'')
        | some (pkgs, lengths) ↦
            let (sends, done) = send_all sent 0 (sends_of pkgs lengths) in
            if not (length pkgs == length lengths)
            then (some (negsuc 2), [], e'')
            else (if done then none else some (negsuc 3), sends, e'')
      ])
      | _ ↦ (none, [], e')
    ])

-- The pointers of `FlushUnEncodedData` with their lengths.
unfoldable pub plain_sends : Option (List (List ℕ)) → Sends
plain_sends none = []
plain_sends (some ps) = map (λ p. (some p, length p)) ps

-- `FlushUnEncodedData`. What the coder returns is not looked at. The two vectors are one list of pairs, which
-- the coder fills together, so the test that returns -1 for different sizes never holds.
unfoldable pub flush_unencoded_data : (ℕ → ℤ) → Encoder → ℤ × Sends × Encoder
unfolding send_all plain_sends
flush_unencoded_data sent e =
    let (_, packets, e') = flush_unencoded e in
    let (sends, done) = send_all sent 0 (plain_sends packets) in
    (if done then pos 0 else negsuc 1, sends, e')
