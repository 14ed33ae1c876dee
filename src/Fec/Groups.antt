-- ===== src/Fec/Groups.antt =====
-- The maps of `FecDecode` (lib/libfec/include/fec_decode.h). The seven maps from a sequence number are
-- one list here, with the seven values as a record: `Input` extends them together, and
-- `RemoveSeqRespondData` erases them together. A missing entry reads as zeros, as `operator[]` makes
-- one. The keys ascend, as in a `std::map`.
pub mod Laws
pub mod Ordered
use fec_kcp.Prelude.{
  ℕ, ◌+◌, ◌-◌, Bool, false, ◌&&◌, Option, none, some, List, [], ◌∷◌, length, ltb, leb, ◌==◌,
  if◌then◌else◌, ℤ, pos,
}

-- `pkgs` holds the bytes of each buffer, `none` for a null pointer.
pub record Group : Type 0 where
  pub pkgs_num : ℤ
  pub redundant_num : ℤ
  pub max_length : ℕ
  pub pkgs : List (Option (List ℕ))
  pub pkgs_length : List ℕ
  pub cur_recv : ℕ
  pub ready : Bool

abbrev pub Groups : Type 0
Groups = List (ℕ × Group)

abbrev pub no_group : Group
no_group = record {
  pkgs_num = pos 0;
  redundant_num = pos 0;
  max_length = 0;
  pkgs = [];
  pkgs_length = [];
  cur_recv = 0;
  ready = false;
}

unfoldable pub get : ℕ → Groups → Option Group
get seq [] = none
get seq ((s, g) ∷ m) = if s == seq then some g else get seq m

-- `map[seq]`
unfoldable pub group_of : ℕ → Groups → Group
unfolding get
group_of seq m = elim (get seq m) [ none ↦ no_group | some g ↦ g ]

-- `map[seq] = g`
unfoldable pub put : ℕ → Group → Groups → Groups
put seq g [] = (seq, g) ∷ []
put seq g ((s, h) ∷ m) =
    if seq == s
    then (s, g) ∷ m
    else if ltb seq s
    then (seq, g) ∷ (s, h) ∷ m
    else (s, h) ∷ put seq g m

-- `map.erase(seq)`. A map has a key once; every entry of the key goes here.
unfoldable pub erase_group : ℕ → Groups → Groups
erase_group seq [] = []
erase_group seq ((s, h) ∷ m) =
    let rest = erase_group seq m in if s == seq then rest else (s, h) ∷ rest

-- The loop of `SearchForNextReadySeq`: the first ready group whose packets fit, else 0.
unfoldable pub first_ready : ℕ → Groups → ℕ
first_ready least_len [] = 0
first_ready least_len ((s, g) ∷ m) =
    if g.ready && leb g.max_length least_len then s else first_ready least_len m

-- How many packets the ready groups hold.
unfoldable pub ready_packets : Groups → ℕ
ready_packets [] = 0
ready_packets ((s, g) ∷ m) = (if g.ready then length g.pkgs else 0) + ready_packets m
