-- ===== src/Endpoint/Ends.antt =====
-- `DataInput` (source/fec_kcp.cpp) on a well-formed endpoint: its loop as a relation.
use fec_kcp.Prelude.{
  ℕ, zero, suc, ◌+◌, ◌<◌, ◌≡◌, refl, false, Option, none, some, List, All, All-append, All-take,
  All-replicate, ltb_ℤ, if◌then◌else◌, ℤ, pos, negsuc, arith,
}
use fec_kcp.Kcp.State.{Kcp}
use fec_kcp.Kcp.Segment.Bytes.{IsByte}
use fec_kcp.Kcp.Valid.{IsValid}
use fec_kcp.Kcp.Input.{input}
use fec_kcp.Kcp.Input.Valid.{input-IsValid}
use fec_kcp.Fec.Groups.{ready_packets}
use fec_kcp.Fec.Decode.{Decoder, RsDecode}
use fec_kcp.Fec.Decode as Decode
use fec_kcp.Fec.Decode.Sound.{Sound, WritesBytes, input-Sound}
use fec_kcp.Fec.Decode.Measure.{measure, measure_bound, IsStored, Progress}
use fec_kcp.Fec.Decode.Progress.{output-Progress}
use fec_kcp.Fec.Decode.Output.{Result, output}
use fec_kcp.Endpoint.{
  FecKcp, data_input, input_rounds, after_output, after_input, after_decode, buffer, rounds, Next,
}

-- The engine satisfies its invariant, the keys of the decoder's maps ascend, and it holds bytes.
pub record IsWell (f : FecKcp) : Type 0 where
  pub start : ℕ
  pub engine : IsValid start f.kcp
  pub decoder : Sound f.fec_decode

-- The loop of `DataInput` as a relation: the variables `len` and `ret` before a round, and what the whole
-- loop leaves, `none` for a fault of `Output`.
pub data Rounds (now : ℕ) : FecKcp → ℤ → ℤ → Option (ℤ × FecKcp) → Type 0 where
  stops :
      {f : FecKcp} {len ret : ℤ} → ltb_ℤ (pos 0) len ≡ false → Rounds now f len ret (some (ret, f))
  faults :
      {f : FecKcp} {n : ℕ} {ret : ℤ}
      → output now f.fec_decode (suc n) ≡ none
      → Rounds now f (pos (suc n)) ret none
  refuses :
      {f : FecKcp} {n e : ℕ} {ret : ℤ} {stored : Option (List ℕ)} {d : Decoder}
      → output now f.fec_decode (suc n) ≡ some (negsuc e, stored, d)
      → Rounds now f (pos (suc n)) ret (some (negsuc e, record f { fec_decode = d }))
  hands :
      {f : FecKcp} {n m : ℕ} {ret temp_ret : ℤ} {stored : Option (List ℕ)} {d : Decoder} {k : Kcp}
      {o : Option (ℤ × FecKcp)}
      → output now f.fec_decode (suc n) ≡ some (pos m, stored, d)
      → input f.kcp (buffer stored (suc n)) ≡ some (temp_ret, k)
      → Rounds now
          (record f { kcp = k; fec_decode = d })
          (pos m)
          (if ltb_ℤ temp_ret (pos 0) then temp_ret else pos m)
          o
      → Rounds now f (pos (suc n)) ret o

-- What is left, if there is no fault.
abbrev pub Left : Option (ℤ × FecKcp) → Type 0
Left none = Unit
Left (some (ret, f)) = IsWell f

-- The loop runs as it should and leaves a well-formed endpoint.
abbrev Goes : ℕ → FecKcp → ℤ → ℤ → Option (ℤ × FecKcp) → Type 0
Goes now f len ret o = Rounds now f len ret o × Left o

-- How much fuel a decoder needs while `len` bytes are announced.
abbrev Enough : ℕ → Decoder → ℕ → Type 0
Enough fuel d m = (0 < fuel) × (0 < m → measure d + 1 < fuel)

buffer-IsByte : (stored : Option (List ℕ)) (n : ℕ) → IsStored stored → All IsByte (buffer stored n)
unfolding buffer
buffer-IsByte none n b = All-replicate IsByte n 0 (omega arith)
buffer-IsByte (some bytes) n b =
    All-take IsByte n _ (All-append IsByte bytes _ b (All-replicate IsByte n 0 (omega arith)))

-- A round from the result of `Output` on, where `next` goes as it should on less.
after_output-Goes :
    (now n fuel : ℕ) (f : FecKcp) (ret : ℤ) (next : Next) (result : Result)
    → IsWell f
    → output now f.fec_decode (suc n) ≡ result
    → Progress (measure f.fec_decode) result
    → measure f.fec_decode < fuel
    → ((f' : FecKcp) (m : ℕ) (ret' : ℤ)
        → IsWell f'
        → Enough fuel f'.fec_decode m
        → Goes now f' (pos m) ret' (next f' (pos m) ret'))
    → Goes now f (pos (suc n)) ret (after_output f (suc n) next result)
unfolding after_output after_input
after_output-Goes now n fuel f ret next none w e p enough h = (Rounds.faults e, tt)
after_output-Goes now n fuel f ret next (some (negsuc c, stored, d)) w e p enough h =
    (Rounds.refuses e, record { start = w.start; engine = w.engine; decoder = p })
after_output-Goes now n fuel f ret next (some (pos m, stored, d)) w e (s, b, less) enough h =
    let (temp_ret, k, e', _, v) =
      input-IsValid w.start f.kcp (buffer stored (suc n)) (buffer-IsByte stored (suc n) b)
        w.engine in
    let f' = record f { kcp = k; fec_decode = d } in
    let (r, l) =
      h f' m (if ltb_ℤ temp_ret (pos 0) then temp_ret else pos m)
        (record { start = w.start; engine = v; decoder = s })
        (omega (arith, enough), λ some_left. omega (arith, enough, less some_left)) in
    rw e' (Rounds.hands e e' r, l)

input_rounds-Goes :
    (fuel now : ℕ) (f : FecKcp) (m : ℕ) (ret : ℤ)
    → IsWell f
    → Enough fuel f.fec_decode m
    → Goes now f (pos m) ret (input_rounds fuel now f (pos m) ret)
unfolding input_rounds
input_rounds-Goes zero now f m ret w enough = absurd (omega (arith, enough.0))
input_rounds-Goes (suc fuel) now f zero ret w enough = (Rounds.stops refl, w)
input_rounds-Goes (suc fuel) now f (suc n) ret w enough =
    after_output-Goes now n fuel f ret (input_rounds fuel now) (output now f.fec_decode (suc n)) w
      refl (output-Progress now (suc n) f.fec_decode w.decoder)
      (omega (arith, enough.1 (omega arith)))
      (λ f' m ret' w' enough'. input_rounds-Goes fuel now f' m ret' w' enough')

int_rounds-Goes :
    (fuel now : ℕ) (f : FecKcp) (len ret : ℤ)
    → IsWell f
    → ready_packets f.fec_decode.groups + 2 < fuel
    → Goes now f len ret (input_rounds fuel now f len ret)
unfolding input_rounds
int_rounds-Goes zero now f len ret w enough = absurd (omega (arith, enough))
int_rounds-Goes (suc fuel) now f (negsuc e) ret w enough = (Rounds.stops (ground arith), w)
int_rounds-Goes (suc fuel) now f (pos m) ret w enough =
    input_rounds-Goes (suc fuel) now f m ret w
      (omega arith, λ _. omega (arith, enough, measure_bound f.fec_decode))

-- `DataInput` from the result of `Input` on.
pub data Course (now : ℕ) (f : FecKcp) (o : Option (ℤ × Decoder)) (result : Option (ℤ × FecKcp))
    : Type 0 where
  input_faults : o ≡ none → result ≡ none → Course now f o result
  runs :
      {len : ℤ} {d : Decoder}
      → o ≡ some (len, d)
      → Rounds now (record f { fec_decode = d }) len (pos 0) result
      → Course now f o result

module _ (rs_decode2 : RsDecode) (writes : WritesBytes rs_decode2) where
  after_decode-Course :
      (now : ℕ) (f : FecKcp) (o : Option (ℤ × Decoder))
      → IsWell f
      → ((ret : ℤ) (d : Decoder) → o ≡ some (ret, d) → Sound d)
      → Course now f o (after_decode now f o) × Left (after_decode now f o)
  unfolding after_decode rounds
  after_decode-Course now f none w h = (Course.input_faults refl refl, tt)
  after_decode-Course now f (some (len, d)) w h =
      let w' : IsWell (record f { fec_decode = d }) = record {
        start = w.start;
        engine = w.engine;
        decoder = h len d refl;
      } in
      let (r, l) =
        int_rounds-Goes (rounds d) now (record f { fec_decode = d }) len (pos 0) w' (omega arith) in
      (Course.runs refl r, l)

  pub data_input-Left :
      (now : ℕ) (f : FecKcp) (buf : List ℕ)
      → All IsByte buf
      → IsWell f
      → Course now f
          (Decode.input rs_decode2 now f.fec_decode (some buf))
          (data_input rs_decode2 now f buf)
        × Left (data_input rs_decode2 now f buf)
  unfolding data_input
  data_input-Left now f buf b w =
      after_decode-Course now f (Decode.input rs_decode2 now f.fec_decode (some buf)) w
        (λ ret d e. input-Sound rs_decode2 writes now f.fec_decode buf ret d b w.decoder e)

  -- `DataInput` on any datagram and a well-formed endpoint: where `Input` of the decoder faults, so does
  -- `DataInput`; otherwise its loop ends, and what it leaves comes from a finite number of rounds, each of
  -- which hands the engine what `Output` gave and in which `ikcp_input` returns, that is, does not read past
  -- the end of its buffer.
  pub data_input-Course :
      (now : ℕ) (f : FecKcp) (buf : List ℕ)
      → All IsByte buf
      → IsWell f
      → Course now f
          (Decode.input rs_decode2 now f.fec_decode (some buf))
          (data_input rs_decode2 now f buf)
  data_input-Course now f buf b w = (data_input-Left now f buf b w).0
