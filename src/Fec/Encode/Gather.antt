-- ===== src/Fec/Encode/Gather.antt =====
-- Groups of packets in `FecEncode` (lib/libfec/source/fec_encode.cpp): what the slots hold while a
-- group is gathered.
use fec_kcp.Prelude.{
  length-map, ℕ, zero, suc, ◌+◌, ◌-◌, ◌≤◌, ◌<◌, ◌≡◌, refl, ap, ◌∙◌, true, false, Option, none, some,
  List, [], ◌∷◌, ◌++◌, map, length, length-append, set, length-set, replicate, arith, max, ◌==◌,
}
use fec_kcp.Fec.Encode.{
  Encoder, header, head_length, store, reset, begin_group, pad, data_rows, data_buffers,
}

-- The slots of the packets `ps`, from index `i` on.
unfoldable pub slots : ℕ → ℕ → ℕ → ℕ → List (List ℕ) → List (Option (List ℕ))
slots seq k r i [] = []
slots seq k r i (p ∷ ps) = some (header seq (length p) k r (i + 1) ++ p) ∷ slots seq k r (i + 1) ps

-- The length of the longest packet.
unfoldable pub longest : List (List ℕ) → ℕ
longest [] = 0
longest (p ∷ ps) = max (length p) (longest ps)

pub length-slots : (seq k r i : ℕ) (ps : List (List ℕ)) → length (slots seq k r i ps) ≡ length ps
unfolding slots
length-slots seq k r i [] = refl
length-slots seq k r i (p ∷ ps) = ap suc (length-slots seq k r (i + 1) ps)

slots-append :
    (seq k r i : ℕ) (ps : List (List ℕ)) (p : List ℕ)
    → slots seq k r i (ps ++ p ∷ [])
      ≡ slots seq k r i ps ++ some (header seq (length p) k r (i + length ps + 1) ++ p) ∷ []
unfolding slots
slots-append seq k r i [] p = ap (λ n. some (header seq (length p) k r n ++ p) ∷ []) (omega arith)
slots-append seq k r i (q ∷ ps) p = rw (slots-append seq k r (i + 1) ps p) (
    ap
      (λ n.
        some (header seq (length q) k r (i + 1) ++ q)
        ∷ (slots seq k r (i + 1) ps ++ some (header seq (length p) k r n ++ p) ∷ []))
      (omega arith))

longest-append :
    (ps : List (List ℕ)) (p : List ℕ) → longest (ps ++ p ∷ []) ≡ max (length p) (longest ps)
unfolding longest
longest-append [] p = omega arith
longest-append (q ∷ ps) p = omega (arith, longest-append ps p)

set-append {ℓ} :
    {A : Type ℓ} (xs : List A) (n m i : ℕ) (a v : A)
    → n ≡ suc m
    → i ≡ length xs
    → set (xs ++ replicate n a) i v ≡ (xs ++ v ∷ []) ++ replicate m a
set-append [] zero m i a v e h = absurd (omega arith)
set-append [] (suc n) m zero a v e h = ap (λ l. v ∷ replicate l a) (omega arith)
set-append [] (suc n) m (suc i) a v e h = absurd (omega arith)
set-append (x ∷ xs) n m zero a v e h = absurd (omega arith)
set-append (x ∷ xs) n m (suc i) a v e h = ap (λ l. x ∷ l) (set-append xs n m i a v e (omega arith))

pub map-const {ℓ κ} :
    {A : Type ℓ} {B : Type κ} (a : B) (xs : List A) → map (λ _. a) xs ≡ replicate (length xs) a
map-const a [] = refl
map-const a (x ∷ xs) = ap (λ l. a ∷ l) (map-const a xs)

-- The packets `ps` are in the slots, and nothing else.
pub record Gathered (k r seq : ℕ) (ps : List (List ℕ)) (e : Encoder) : Type 0 where
  pub data_num : e.data_pkg_num ≡ k
  pub redundant_num : e.redundant_pkg_num ≡ r
  pub number : e.seq ≡ seq
  pub count : e.cur_data_pkgs_num ≡ length ps
  pub size : e.max_data_pkg_length ≡ longest ps
  pub room : length ps ≤ k
  pub lengths : length e.data_pkgs_length ≡ k + r
  pub held : e.data_pkgs ≡ slots seq k r 0 ps ++ replicate (k + r - length ps) none

pub store-Gathered :
    (k r seq : ℕ) (ps : List (List ℕ)) (e : Encoder) (p : List ℕ)
    → length ps < k
    → Gathered k r seq ps e
    → Gathered k r seq (ps ++ p ∷ []) (store e p)
unfolding store header
store-Gathered k r seq ps e p more g = record {
  data_num = g.data_num;
  redundant_num = g.redundant_num;
  number = g.number;
  count = omega (arith, length-append ps (p ∷ []), g.count);
  size = omega (arith, longest-append ps p, g.size);
  room = omega (arith, length-append ps (p ∷ []));
  lengths = omega (
    arith,
    length-set e.data_pkgs_length e.cur_data_pkgs_num (length p + head_length),
    g.lengths,
  );
  held =
      rw (g.number, g.data_num, g.redundant_num, g.held, slots-append seq k r 0 ps p)
        (set-append (slots seq k r 0 ps) (k + r - length ps) (k + r - length (ps ++ p ∷ []))
            e.cur_data_pkgs_num none _ (omega (arith, length-append ps (p ∷ [])))
            (omega (arith, length-slots seq k r 0 ps, g.count))
          ∙ ap
              (λ n.
                (slots seq k r 0 ps ++ some (header seq (length p) k r (n + 1) ++ p) ∷ [])
                ++ replicate (k + r - length (ps ++ p ∷ [])) none)
              (omega (arith, g.count)));
}

-- Ready for the next packet: `ps` are in the slots, or the next packet starts a new group.
pub record Ready (k r seq : ℕ) (ps : List (List ℕ)) (e : Encoder) : Type 0 where
  pub data_num : e.data_pkg_num ≡ k
  pub count : e.cur_data_pkgs_num ≡ length ps
  pub begun : Gathered k r seq ps (begin_group (record e { newest_update_time = e.inside_timer }))

pub Ready-new :
    (e : Encoder)
    → e.cur_data_pkgs_num ≡ 0
    → length e.data_pkgs ≡ e.data_pkg_num + e.redundant_pkg_num
    → length e.data_pkgs_length ≡ e.data_pkg_num + e.redundant_pkg_num
    → Ready e.data_pkg_num e.redundant_pkg_num e.seq [] e
unfolding begin_group reset slots longest
Ready-new e none_yet full measured = record {
  data_num = refl;
  count = none_yet;
  begun =
      let fresh : (e.cur_data_pkgs_num == 0) ≡ true = ground arith in
      rw fresh (record {
        data_num = refl;
        redundant_num = refl;
        number = refl;
        count = none_yet;
        size = refl;
        room = omega arith;
        lengths = omega (arith, length-map {B = ℕ} (λ _. 0) e.data_pkgs_length, measured);
        held = map-const none e.data_pkgs ∙ ap (λ n. replicate n none) (omega (arith, full));
      });
}

pub Ready-Gathered :
    (k r seq : ℕ) (ps : List (List ℕ)) (e : Encoder)
    → 0 < length ps
    → Gathered k r seq ps e
    → Ready k r seq ps e
unfolding begin_group
Ready-Gathered k r seq ps e filled g = record {
  data_num = g.data_num;
  count = g.count;
  begun =
      let started : (e.cur_data_pkgs_num == 0) ≡ false = ground (arith, g.count) in
      rw started (record {
        data_num = g.data_num;
        redundant_num = g.redundant_num;
        number = g.number;
        count = g.count;
        size = g.size;
        room = g.room;
        lengths = g.lengths;
        held = g.held;
      });
}

-- The data packets of a complete group.
unfoldable pub coded : ℕ → ℕ → ℕ → ℕ → ℕ → List (List ℕ) → List (Option (List ℕ))
coded seq size k r i [] = []
coded seq size k r i (p ∷ ps) =
    some (header seq (length p) k r (i + 1) ++ (p ++ replicate (size - length p) 0))
    ∷ coded seq size k r (i + 1) ps

pub data_buffers-slots :
    (size seq k r i : ℕ) (ps : List (List ℕ))
    → data_buffers (slots seq k r i ps) (map (pad size) ps) ≡ coded seq size k r i ps
unfolding data_buffers slots coded header pad
data_buffers-slots size seq k r i [] = refl
data_buffers-slots size seq k r i (p ∷ ps) =
    ap (λ l. some (header seq (length p) k r (i + 1) ++ pad size p) ∷ l)
      (data_buffers-slots size seq k r (i + 1) ps)

pub data_rows-slots :
    (size seq k r i : ℕ) (ps : List (List ℕ))
    → data_rows size (slots seq k r i ps) ≡ map (pad size) ps
unfolding data_rows slots header
data_rows-slots size seq k r i [] = refl
data_rows-slots size seq k r i (p ∷ ps) =
    ap (λ l. pad size p ∷ l) (data_rows-slots size seq k r (i + 1) ps)
