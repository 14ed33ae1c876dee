-- ===== src/Fec/Decode.antt =====
-- lib/libfec/source/fec_decode.cpp: `FecDecode`, which gathers the packets of each group, recovers the
-- data packets once enough have arrived, and hands them out. `none` is a fault: an access outside a
-- buffer or a vector. `rs_decode2` of lib/libfec/lib is a parameter. The locks are held throughout each
-- call, so a call is one step; `now` is what getnowtime_ms returns in it. Each buffer has one byte
-- more than the packet's body, which is read from behind the packet; a use of that byte is a fault here.
pub mod Output
pub mod HandOut
pub mod Faults
pub mod Quiet
pub mod HeaderRead
pub mod Clear
pub mod Gather
pub mod Branches
pub mod Arrive
pub mod Recover
pub mod Feed
pub mod Sound
pub mod Measure
pub mod Progress
use fec_kcp.Prelude.{
  ℕ, zero, suc, ◌+◌, ◌-◌, ◌^◌, Bool, true, false, ◌&&◌, ◌||◌, not, Option, none, some, List, [],
  ◌∷◌, ◌++◌, length, get_elem?, set, take, drop, replicate, ltb, leb, ◌==◌, if◌then◌else◌, ℤ, pos,
  negsuc, ltb_ℤ, leb_ℤ, ◌+ℤ◌, pos_part, max,
}
use fec_kcp.Word.{word}
use fec_kcp.Fec.Wire.{read_u32, read_u32_r, read_u16}
use fec_kcp.Fec.Encode.{head_length, unique_header}
use fec_kcp.Fec.Timeout.{TimeoutMap, add, remove, get_timeout_elements}
use fec_kcp.Fec.Groups.{Group, Groups, get, group_of, put, erase_group, first_ready}

-- `rs_decode2(k, n, data, size)`: the pointers afterwards, or `none` for a negative result.
abbrev pub RsDecode : Type 0
RsDecode = ℕ → ℕ → List (Option (List ℕ)) → ℕ → Option (List (Option (List ℕ)))

-- `FecDecodeOutputDataUnit`. `bytes` are the first `actural_len` bytes at `data`.
pub record OutputUnit : Type 0 where
  pub ready_for_output : Bool
  pub bytes : List ℕ
  pub actural_len : ℕ
  pub max_len : ℕ
  pub last_process_seq : ℕ
  pub last_process_index : ℕ

pub record Decoder : Type 0 where
  pub groups : Groups
  pub timeout_map : TimeoutMap
  pub ready_seqs_nums : ℕ
  pub output_unit : OutputUnit

-- The constructor.
unfoldable pub new : ℕ → Decoder
new timeout_ms = record {
  groups = [];
  timeout_map = record { elements = []; times = []; timeout_limit_ms = timeout_ms };
  ready_seqs_nums = 0;
  output_unit = record {
    ready_for_output = false;
    bytes = [];
    actural_len = 0;
    max_len = 0;
    last_process_seq = word - 1;
    last_process_index = word - 1;
  };
}

-- `RemoveSeqRespondData`
unfoldable pub remove_seq : ℕ → Decoder → Decoder
remove_seq seq d = record d {
  groups = erase_group seq d.groups;
  timeout_map = (remove d.timeout_map seq).1;
}

-- The loop of `ClearTimeoutDatas`.
unfoldable pub clear_seqs : List ℕ → Decoder → Decoder
unfolding remove_seq
clear_seqs [] d = d
clear_seqs (seq ∷ seqs) d =
    clear_seqs seqs (if (group_of seq d.groups).ready then d else remove_seq seq d)

unfoldable pub clear_timeout : ℕ → Decoder → Decoder
unfolding clear_seqs
clear_timeout now d = clear_seqs (get_timeout_elements d.timeout_map now) d

-- `SearchForNextReadySeq`
unfoldable pub search_next : ℕ → ℕ → Decoder → ℕ × Decoder
unfolding clear_timeout
search_next now least_len d =
    if d.ready_seqs_nums == 0 then (0, clear_timeout now d) else (first_ready least_len d.groups, d)

-- `LargerMem`, where the allocation succeeds.
unfoldable pub larger_mem : OutputUnit → ℕ → OutputUnit
larger_mem u expected_len =
    if ltb expected_len u.max_len then u else record u { max_len = expected_len }

-- `DealUnEncodeData`, on a packet that is not null.
unfoldable pub deal_unencode : Decoder → List ℕ → Option (ℤ × Decoder)
unfolding larger_mem
deal_unencode d b = elim (read_u32_r b) [
  | none ↦ none
  | some mark ↦
      let unit = larger_mem d.output_unit (length b) in
      if not (mark == unique_header)
      then some (negsuc 1, d)
      else some (
        pos (length b - 4),
        record d {
          output_unit = record unit {
            bytes = drop 4 b;
            actural_len = length b - 4;
            ready_for_output = true;
          };
        },
      )
]

-- A byte read as a signed `char`.
unfoldable pub signed8 : ℕ → ℤ
signed8 c = if ltb c 128 then pos c else negsuc (255 - c)

pub record Head : Type 0 where
  pub seq : ℕ
  pub package_length : ℕ
  pub data_pkg_num : ℤ
  pub redundant_pkg_num : ℤ
  pub index : ℤ

infixl 5 ◌>>=◌
abbrev pub ◌>>=◌ {ℓ κ} : {A : Type ℓ} {B : Type κ} → Option A → (A → Option B) → Option B
none >>= f = none
some a >>= f = f a

-- The reads at the top of `Input`.
unfoldable pub read_head : List ℕ → Option Head
unfolding signed8
read_head b = do
  seq ← read_u16 (drop 4 b)
  len ← read_u16 (drop 6 b)
  k ← get_elem? b 8
  r ← get_elem? b 9
  i ← get_elem? b 10
  some (record {
    seq = seq;
    package_length = len;
    data_pkg_num = signed8 k;
    redundant_pkg_num = signed8 r;
    index = signed8 i;
  })

-- The entries of the maps as `Input` sets them before it looks at the slot.
unfoldable pub touched : Group → Head → ℕ → Group
touched g h len =
    let n = pos_part (h.data_pkg_num +ℤ h.redundant_pkg_num) in
    let g' = record g {
      pkgs_num = h.data_pkg_num;
      redundant_num = h.redundant_pkg_num;
      max_length = max g.max_length len;
    } in
    elim (g.pkgs) [
      | [] ↦ record g' { pkgs = replicate n none; pkgs_length = replicate n 0 }
      | _ ∷ _ ↦ g'
    ]

-- Whether every buffer has `size` bytes.
unfoldable pub all_filled : ℕ → List (Option (List ℕ)) → Bool
all_filled size [] = true
all_filled size (none ∷ ps) = all_filled size ps
all_filled size (some b ∷ ps) = leb size (length b) && all_filled size ps

-- `if (length == 0) length = max`, for each.
unfoldable pub fill_lengths : ℕ → List ℕ → List ℕ
fill_lengths size [] = []
fill_lengths size (l ∷ ls) = (if l == 0 then size else l) ∷ fill_lengths size ls

-- `count(seq) && !ready && cur >= num`: everything of the group has been handed out.
unfoldable pub is_finished : Option Group → Bool
is_finished none = false
is_finished (some g) = not g.ready && leb_ℤ g.pkgs_num (pos g.cur_recv)

module _ (rs_decode2 : RsDecode) where
  -- The block that decodes a group which has enough packets.
  unfoldable pub decode_group : Decoder → ℕ → Group → Head → Option (ℤ × Decoder)
  unfolding all_filled fill_lengths
  decode_group d seq g h =
      let size = g.max_length in
      let n = pos_part (h.data_pkg_num +ℤ h.redundant_pkg_num) in
      elim (h.data_pkg_num) [
        | negsuc _ ↦ none
        | pos k ↦
            if ltb (length g.pkgs) n
              || ltb (length g.pkgs) k
              || not (all_filled size (take n g.pkgs))
            then none
            else elim (rs_decode2 k n (take n g.pkgs) size) [
              | none ↦ some (negsuc 0, record d { groups = put seq g d.groups })
              | some rows ↦
                  let g' = record g {
                    pkgs = take k (rows ++ drop n g.pkgs);
                    pkgs_length =
                        take k (fill_lengths size (take n g.pkgs_length) ++ drop n g.pkgs_length);
                    ready = true;
                  } in
                  some (
                    pos size,
                    record d {
                      groups = put seq g' d.groups;
                      ready_seqs_nums = d.ready_seqs_nums + 1;
                    },
                  )
            ]
      ]

  -- The packet goes into its empty slot `i`.
  unfoldable pub fill_slot : ℕ → Decoder → Group → Head → ℕ → List ℕ → Option (ℤ × Decoder)
  unfolding decode_group clear_timeout
  fill_slot now d g h i body =
      let g' = record g {
        pkgs = set g.pkgs i (some body);
        pkgs_length = set g.pkgs_length i h.package_length;
        cur_recv = g.cur_recv + 1;
      } in
      let d' = record d { groups = put h.seq g' d.groups } in
      if leb_ℤ g'.pkgs_num (pos g'.cur_recv)
      then decode_group d h.seq g' h
      else some (pos 0, if ltb 50 (length d'.groups) then clear_timeout now d' else d')

  -- From `malloc` to the end of `Input`.
  unfoldable pub receive : ℕ → Decoder → Head → List ℕ → Option (ℤ × Decoder)
  unfolding touched fill_slot
  receive now d h body =
      let g = touched (group_of h.seq d.groups) h (length body) in
      let d' = record d {
        groups = put h.seq g d.groups;
        timeout_map = (add d.timeout_map h.seq now).1;
      } in
      elim (h.index) [
        | negsuc _ ↦ none
        | pos index ↦ elim (get_elem? g.pkgs (index - 1)) [
          | none ↦ none
          | some (some _) ↦ some (pos 0, d')
          | some none ↦ fill_slot now d' g h (index - 1) body
        ]
      ]

  unfoldable pub input_coded : ℕ → Decoder → List ℕ → Option (ℤ × Decoder)
  unfolding receive is_finished read_head
  input_coded now d b =
      if ltb (length b) head_length then some (negsuc 0, d) else elim (read_head b) [
        | none ↦ none
        | some h ↦
            let sum = h.data_pkg_num +ℤ h.redundant_pkg_num in
            if leb_ℤ h.index (pos 0) && leb_ℤ (pos 0) h.index || ltb_ℤ sum h.index
            then some (negsuc 0, d)
            else if is_finished (get h.seq d.groups)
            then some (pos 0, d)
            else if (group_of h.seq d.groups).ready
            then some (pos 1, d)
            else receive now d h (drop head_length b)
      ]

  -- `Input(input_data_pkg, length)`: the packet is the `length` bytes at the pointer, `none` a null
  -- pointer.
  unfoldable pub input : ℕ → Decoder → Option (List ℕ) → Option (ℤ × Decoder)
  unfolding input_coded
  input now d none = some (negsuc 0, d)
  input now d (some b) = if ltb (length b) 4 then some (negsuc 0, d) else elim (read_u32 b) [
    | none ↦ none
    | some mark ↦ if mark == unique_header then input_coded now d b else deal_unencode d b
  ]
