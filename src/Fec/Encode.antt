-- ===== src/Fec/Encode.antt =====
-- lib/libfec/source/fec_encode.cpp: `FecEncode`, which gathers a group of data packets and adds
-- redundant ones. `rs_encode2` of lib/libfec/lib is a parameter: from the data rows, all of the given
-- size, it computes the redundant rows. The lock is held throughout each call, so a call is one step.
pub mod Gather
pub mod Group
pub mod Partial
use fec_kcp.Prelude.{
  ℕ, ◌+◌, ◌-◌, ◌*◌, ◌%◌, ◌^◌, Bool, true, false, ◌||◌, not, Option, none, some, List, [], ◌∷◌, ◌++◌,
  map, length, set, take, drop, replicate, ltb, leb, ◌==◌, if◌then◌else◌, ℤ, pos, negsuc, max,
}
use fec_kcp.Fec.Wire.{write_u32, write_u32_r, write_u16}

abbrev pub head_length : ℕ
head_length = 11

abbrev pub unique_header : ℕ
unique_header = 0x12345678

-- `rs_encode2(k, n, data, size)`: the rows from `k` to `n - 1`, from the rows below `k`.
abbrev pub RsEncode : Type 0
RsEncode = ℕ → ℕ → List (List ℕ) → ℕ → List (List ℕ)

-- The fields of the class. `data_pkgs` holds, for each slot, the bytes of its buffer; a null pointer
-- is `none`.
pub record Encoder : Type 0 where
  pub inside_timer : ℕ
  pub newest_update_time : ℕ
  pub cur_data_pkgs_num : ℕ
  pub max_data_pkg_length : ℕ
  pub data_pkgs : List (Option (List ℕ))
  pub data_pkgs_length : List ℕ
  pub ready_for_fec_output : Bool
  pub data_pkg_num : ℕ
  pub redundant_pkg_num : ℕ
  pub timeout_time : ℕ
  pub seq : ℕ

-- The constructor. `random` is what GetRandomNumberU16 returned, `none` for a failure.
unfoldable pub init_seq : Option ℕ → ℕ
init_seq none = 1
init_seq (some r) = if leb 65521 r then 1 else r

unfoldable pub new : ℕ → ℕ → ℕ → Option ℕ → Encoder
unfolding init_seq
new data_pkg_num redundant_pkg_num timeout random = record {
  inside_timer = 0;
  newest_update_time = 0;
  cur_data_pkgs_num = 0;
  max_data_pkg_length = 0;
  data_pkgs = replicate (data_pkg_num + redundant_pkg_num) none;
  data_pkgs_length = replicate (data_pkg_num + redundant_pkg_num) 0;
  ready_for_fec_output = false;
  data_pkg_num = data_pkg_num;
  redundant_pkg_num = redundant_pkg_num;
  timeout_time = timeout;
  seq = init_seq random;
}

-- `ResetDataPkgs`
unfoldable pub reset : Encoder → Encoder
reset e = record e {
  data_pkgs = map (λ _. none) e.data_pkgs;
  data_pkgs_length = map (λ _. 0) e.data_pkgs_length;
}

-- The eleven bytes in front of a packet.
unfoldable pub header : ℕ → ℕ → ℕ → ℕ → ℕ → List ℕ
unfolding write_u32 write_u16
header seq len k r index =
    write_u32 unique_header
    ++ (write_u16 seq ++ (write_u16 len ++ ((k % 256) ∷ (r % 256) ∷ (index % 256) ∷ [])))

-- The bytes of a buffer, none behind a null pointer.
abbrev pub bytes_of : Option (List ℕ) → List ℕ
bytes_of none = []
bytes_of (some b) = b

-- A row of `max` bytes: the data, then the zeros of the cleared buffer.
unfoldable pub pad : ℕ → List ℕ → List ℕ
pad size b = b ++ replicate (size - length b) 0

-- The data packets in their larger buffers: the head that is stored, and the padded body.
unfoldable pub data_rows : ℕ → List (Option (List ℕ)) → List (List ℕ)
unfolding pad
data_rows size [] = []
data_rows size (b ∷ bs) = pad size (drop head_length (bytes_of b)) ∷ data_rows size bs

unfoldable pub data_buffers : List (Option (List ℕ)) → List (List ℕ) → List (Option (List ℕ))
data_buffers (b ∷ bs) (row ∷ rows) =
    some (take head_length (bytes_of b) ++ row) ∷ data_buffers bs rows
data_buffers _ _ = []

-- The redundant packets, from index `i` on: a fresh head, and the row that the code computed.
unfoldable pub redundant_buffers : ℕ → ℕ → ℕ → ℕ → ℕ → List (List ℕ) → List (Option (List ℕ))
unfolding header
redundant_buffers seq size k r i [] = []
redundant_buffers seq size k r i (row ∷ rows) =
    some (header seq size k r (i + 1) ++ row) ∷ redundant_buffers seq size k r (i + 1) rows

-- `seq++`, and back to 1 from 65521 on.
unfoldable pub next_seq : ℕ → ℕ
next_seq s = let s' = (s + 1) % 65536 in if leb 65521 s' then 1 else s'

-- A packet goes into the next free slot.
unfoldable pub store : Encoder → List ℕ → Encoder
unfolding header
store e pkg =
    let i = e.cur_data_pkgs_num in
    let head = header e.seq (length pkg) e.data_pkg_num e.redundant_pkg_num (i + 1) in
    record e {
      max_data_pkg_length = max (length pkg) e.max_data_pkg_length;
      data_pkgs = set e.data_pkgs i (some (head ++ pkg));
      data_pkgs_length = set e.data_pkgs_length i (length pkg + head_length);
      cur_data_pkgs_num = i + 1;
    }

-- `if (cur_data_pkgs_num_ == 0) { … }`
unfoldable pub begin_group : Encoder → Encoder
unfolding reset
begin_group e =
    if e.cur_data_pkgs_num == 0
    then reset (record e { ready_for_fec_output = false; max_data_pkg_length = 0 })
    else e

module _ (rs_encode2 : RsEncode) where
  -- The block that runs when the group is complete.
  unfoldable pub complete : Encoder → Encoder
  unfolding data_rows data_buffers redundant_buffers next_seq
  complete e =
      let k = e.data_pkg_num in
      let r = e.redundant_pkg_num in
      let size = e.max_data_pkg_length in
      let rows = data_rows size (take k e.data_pkgs) in
      record e {
        data_pkgs =
            data_buffers (take k e.data_pkgs) rows
            ++ redundant_buffers e.seq size k r k (rs_encode2 k (k + r) rows size);
        data_pkgs_length = map (λ _. size + head_length) e.data_pkgs_length;
        ready_for_fec_output = true;
        seq = next_seq e.seq;
      }

  -- `Input(input_data_pkg, length)`: the packet is the `length` bytes at the pointer, `none` a null
  -- pointer. A length of 0 or below is an empty packet here.
  unfoldable pub input : Encoder → Option (List ℕ) → ℤ × Encoder
  unfolding begin_group
  input e pkg =
      let e' = record e { newest_update_time = e.inside_timer } in
      let b = bytes_of pkg in
      let stored = store (begin_group e') b in
      if e.cur_data_pkgs_num == e.data_pkg_num
      then (negsuc 0, e')
      else if length b == 0 || ltb 65535 (length b)
      then (negsuc 1, e')
      else if stored.cur_data_pkgs_num == e.data_pkg_num
      then (pos 1, complete stored)
      else (pos 0, stored)

-- What the caller gets from `Output`: the buffers with their lengths.
abbrev pub Packets : Type 0
Packets = List (Option (List ℕ)) × List ℕ

-- `Output`; `none` leaves the caller's vectors alone.
unfoldable pub output : Encoder → ℤ × Option Packets × Encoder
output e =
    if not e.ready_for_fec_output
    then (negsuc 0, none, e)
    else (pos 0, some (e.data_pkgs, e.data_pkgs_length), record e { cur_data_pkgs_num = 0 })

-- `FecEncodeUpdateTime`. The times are 64-bit counts of milliseconds.
unfoldable pub update_time : Encoder → ℕ → ℤ × Encoder
update_time e now =
    if e.inside_timer == 0
    then (pos 0, record e { newest_update_time = now; inside_timer = now })
    else if ltb now e.inside_timer
    then (negsuc 0, e)
    else let e' = record e { inside_timer = now } in
      let waited = (now + 2 ^ 64 - e.newest_update_time) % 2 ^ 64 in
      if ltb waited (e.timeout_time * 1000 % 2 ^ 32) then (pos 0, e') else (pos 1, e')

-- One packet of `FlushUnEncodedData`: the last four bytes of its head are overwritten by the reversed
-- mark, and the caller gets the bytes from there on.
unfoldable pub plain : List ℕ → List ℕ
unfolding write_u32_r
plain b = write_u32_r unique_header ++ drop head_length b

unfoldable pub plain_packets : List (Option (List ℕ)) → List (List ℕ)
plain_packets [] = []
plain_packets (b ∷ bs) = plain (bytes_of b) ∷ plain_packets bs

unfoldable pub mark_plain : List (Option (List ℕ)) → List (Option (List ℕ))
unfolding plain
mark_plain [] = []
mark_plain (b ∷ bs) = some (take 7 (bytes_of b) ++ plain (bytes_of b)) ∷ mark_plain bs

-- `FlushUnEncodedData`: the packets gathered so far, uncoded.
unfoldable pub flush_unencoded : Encoder → ℤ × Option (List (List ℕ)) × Encoder
unfolding plain_packets mark_plain
flush_unencoded e =
    let gathered = take e.cur_data_pkgs_num e.data_pkgs in
    if e.cur_data_pkgs_num == e.data_pkg_num then (negsuc 0, none, e) else (
      pos 0,
      some (plain_packets gathered),
      record e {
        data_pkgs = mark_plain gathered ++ drop e.cur_data_pkgs_num e.data_pkgs;
        cur_data_pkgs_num = 0;
      },
    )
