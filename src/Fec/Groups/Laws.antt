-- ===== src/Fec/Groups/Laws.antt =====
-- The maps of `FecDecode` as maps.
use fec_kcp.Prelude.{
  ℕ, ◌≤◌, ◌≡◌, refl, true, length, none, some, [], ◌∷◌, ◌==◌, if◌then◌else◌, arith,
}
use fec_kcp.Fec.Groups.{Group, Groups, get, put, erase_group, group_of, no_group, ready_packets}

pub get-put :
    (j seq : ℕ) (g : Group) (m : Groups)
    → get j (put seq g m) ≡ (if seq == j then some g else get j m)
unfolding get put
get-put j seq g [] = ground arith
get-put j seq g ((s, h) ∷ m) = ground (arith, get-put j seq g m)

pub get-erase_group :
    (j seq : ℕ) (m : Groups) → get j (erase_group seq m) ≡ (if seq == j then none else get j m)
unfolding get erase_group
get-erase_group j seq [] = ground arith
get-erase_group j seq ((s, h) ∷ m) = ground (arith, get-erase_group j seq m)

pub get-put_self : (seq : ℕ) (g : Group) (m : Groups) → get seq (put seq g m) ≡ some g
get-put_self seq g m = ground (arith, get-put seq seq g m)

pub group_of-some : (seq : ℕ) (g : Group) (m : Groups) → get seq m ≡ some g → group_of seq m ≡ g
unfolding group_of
group_of-some seq g m e = rw (e, group_of) refl

pub group_of-none : (seq : ℕ) (m : Groups) → get seq m ≡ none → group_of seq m ≡ no_group
unfolding group_of
group_of-none seq m e = rw (e, group_of) refl

-- A ready group counts among those that hold packets.
pub get-ready_packets :
    (seq : ℕ) (g : Group) (m : Groups)
    → get seq m ≡ some g
    → g.ready ≡ true
    → length g.pkgs ≤ ready_packets m
unfolding get ready_packets
get-ready_packets seq g [] here is_ready = ground arith
get-ready_packets seq g ((s, h) ∷ m) here is_ready = ground (arith, get-ready_packets seq g m)
