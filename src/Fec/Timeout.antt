-- ===== src/Fec/Timeout.antt =====
-- lib/libfec/source/timeout_map.cpp: `TimeOutMap`, keys with the time of their last update. The list
-- `elements_` holds the keys, newest first; the map gives each key its time and its place in the list.
-- A place is found here by its key, of which the list holds one. Keys and times are native numbers; the
-- program's keys are 16-bit sequence numbers and its times are milliseconds that do not go back.
pub mod Keys
pub mod Refine
pub mod Expiry
pub mod Recency
use fec_kcp.Prelude.{
  ℕ, ◌-◌, Bool, true, false, Option, none, some, List, [], ◌∷◌, ◌++◌, ltb, ◌==◌, if◌then◌else◌, ℤ,
  pos, negsuc,
}

pub record TimeoutMap : Type 0 where
  pub elements : List ℕ
  pub times : List (ℕ × ℕ)
  pub timeout_limit_ms : ℕ

-- `timeout_map_.find(key)`
unfoldable pub find : ℕ → List (ℕ × ℕ) → Option ℕ
find key [] = none
find key ((k, t) ∷ m) = if k == key then some t else find key m

-- `timeout_map_[key] = …`
unfoldable pub assign : ℕ → ℕ → List (ℕ × ℕ) → List (ℕ × ℕ)
assign key t [] = (key, t) ∷ []
assign key t ((k, u) ∷ m) = if k == key then (key, t) ∷ m else (k, u) ∷ assign key t m

-- `timeout_map_.erase(key)`
unfoldable pub erase_key : ℕ → List (ℕ × ℕ) → List (ℕ × ℕ)
erase_key key [] = []
erase_key key ((k, t) ∷ m) = if k == key then m else (k, t) ∷ erase_key key m

-- `elements_.erase(iter)`, for the iterator kept for the key.
unfoldable pub erase : ℕ → List ℕ → List ℕ
erase key [] = []
erase key (k ∷ ks) = if k == key then ks else k ∷ erase key ks

-- `Update`
unfoldable pub update : TimeoutMap → ℕ → ℕ → ℤ × TimeoutMap
update m key now = elim (find key m.times) [
  | none ↦ (negsuc 0, m)
  | some _ ↦
      (pos 0, record m { elements = key ∷ erase key m.elements; times = assign key now m.times })
]

-- `Add`
unfoldable pub add : TimeoutMap → ℕ → ℕ → ℤ × TimeoutMap
unfolding update
add m key now = elim (find key m.times) [
  | none ↦ (pos 0, record m { elements = key ∷ m.elements; times = assign key now m.times })
  | some _ ↦ update m key now
]

-- `Remove`
unfoldable pub remove : TimeoutMap → ℕ → ℤ × TimeoutMap
remove m key = elim (find key m.times) [
  | none ↦ (negsuc 0, m)
  | some _ ↦ (pos 0, record m { elements = erase key m.elements; times = erase_key key m.times })
]

-- `timeout_map_[key].first`, which inserts 0 for a key that is not there.
unfoldable pub time_of : ℕ → List (ℕ × ℕ) → ℕ
unfolding find
time_of key m = elim (find key m) [ none ↦ 0 | some t ↦ t ]

-- The loop of `GetTimeOutElements` from the oldest key on: the keys reported, and whether it is over.
unfoldable pub expired_from : ℕ → ℕ → List (ℕ × ℕ) → List ℕ → List ℕ × Bool
expired_from limit now m [] = ([], false)
expired_from limit now m (k ∷ ks) =
    let (older, stopped) = expired_from limit now m ks in
    if stopped
    then (older, true)
    else if ltb limit (now - time_of k m)
    then (older ++ k ∷ [], false)
    else (older, true)

-- `GetTimeOutElements`
unfoldable pub get_timeout_elements : TimeoutMap → ℕ → List ℕ
unfolding expired_from
get_timeout_elements m now = (expired_from m.timeout_limit_ms now m.times m.elements).0
