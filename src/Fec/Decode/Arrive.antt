-- ===== src/Fec/Decode/Arrive.antt =====
-- `FecDecode::Input` (lib/libfec/source/fec_decode.cpp) on one packet of a group.
use fec_kcp.Prelude.{
  ℕ, zero, suc, ◌+◌, ◌-◌, ◌<◌, ◌≡◌, refl, ap, ◌∙◌, sym, subst, true, false, none, some, Bool-cases,
  inl, inr, List, [], ◌∷◌, ◌++◌, length, get_elem?, get_or, set, All, ltb, if◌then◌else◌, pos,
  leb_ℤ, arith,
}
use fec_kcp.Fec.Encode.{header}
use fec_kcp.Fec.Groups.{Group, get, group_of, put}
use fec_kcp.Fec.Groups.Laws.{get-put_self}
use fec_kcp.Fec.Decode.{Decoder, RsDecode, touched, receive, fill_slot, input, clear_timeout}
use fec_kcp.Fec.Decode.HeaderRead.{head_of, input-header}
use fec_kcp.Fec.Decode.Clear.{time_of-add, clear_timeout-get}
use fec_kcp.Fec.Decode.Quiet.{Quiet, Quiet-stored, Quiet-put, Quiet-clear_timeout}
use fec_kcp.Fec.Decode.Gather.{Holds, Waits, Waits-some, view}
use fec_kcp.Fec.Decode.Branches.{stored, filled, receive_old, receive_new, fill_slot_few}
use fec_kcp.Fec.Code.{contains, arrived, present}
use fec_kcp.Fec.Code.Arrivals.{
  get_elem?-arrived, set-arrived, arrived-repeated, present-arrived_new, or_zero, set-or_zero,
}

-- The packet `i` of the group.
abbrev pub packet : ℕ → ℕ → ℕ → List (List ℕ) → List ℕ → ℕ → List ℕ
packet k r seq rows lens i = header seq (get_or lens i 0) k r (i + 1) ++ get_or rows i []

pub All-get_or {ℓ κ} :
    {A : Type ℓ} (P : A → Type κ) (xs : List A) (i : ℕ) (d : A)
    → i < length xs
    → All P xs
    → P (get_or xs i d)
All-get_or P [] i d h a = absurd (omega arith)
All-get_or P (x ∷ xs) zero d h a = a.0
All-get_or P (x ∷ xs) (suc i) d h a = All-get_or P xs i d (omega arith) a.1

module _ (rs_decode2 : RsDecode) (k r seq size : ℕ) (rows : List (List ℕ)) (lens : List ℕ)
    (some_data : 0 < k) (count_rows : length rows ≡ k + r) (count_lens : length lens ≡ k + r) where
  abbrev pub Held : List ℕ → Group → Type 0
  Held = Holds k r seq size rows lens

  Holds-repeated :
      (is : List ℕ) (g : Group) (i : ℕ) → contains is i ≡ true → Held is g → Held (i ∷ is) g
  Holds-repeated is g i old v = record {
    num = v.num;
    waiting = v.waiting;
    longest = v.longest;
    slots = v.slots ∙ sym (arrived-repeated is i 0 rows old);
    lengths = v.lengths ∙ ap or_zero (sym (arrived-repeated is i 0 lens old));
    count = v.count ∙ ap present (sym (arrived-repeated is i 0 rows old));
  }

  set-slots :
      (is : List ℕ) (i : ℕ)
      → i < k + r
      → set (arrived is 0 rows) i (some (get_or rows i [])) ≡ arrived (i ∷ is) 0 rows
  set-slots is i h =
      set-arrived is 0 i rows [] (omega (arith, count_rows))
      ∙ ap (λ n. arrived (n ∷ is) 0 rows) (omega arith)

  pub Holds-filled :
      (is : List ℕ) (g : Group) (i : ℕ)
      → i < k + r
      → contains is i ≡ false
      → Held is g
      → Held (i ∷ is) (filled g i (get_or lens i 0) (get_or rows i []))
  Holds-filled is g i h new v = record {
    num = v.num;
    waiting = v.waiting;
    longest = v.longest;
    slots = ap (λ l. set l i (some (get_or rows i []))) v.slots ∙ set-slots is i h;
    lengths =
        ap (λ l. set l i (get_or lens i 0)) v.lengths
        ∙ set-or_zero (arrived is 0 lens) i (get_or lens i 0)
        ∙ ap or_zero (
            set-arrived is 0 i lens 0 (omega (arith, count_lens))
            ∙ ap (λ n. arrived (n ∷ is) 0 lens) (omega arith));
    count =
        let e : 0 + i ≡ i = omega arith in
        let more =
          present-arrived_new is 0 i rows (omega (arith, count_rows))
            (subst (λ n. contains is n ≡ false) (sym e) new) in
        omega (arith, v.count, more, ap (λ n. present (arrived (n ∷ is) 0 rows)) e);
  }

  slot_lem :
      (is : List ℕ) (g : Group) (i : ℕ)
      → i < k + r
      → Held is g
      → get_elem? g.pkgs (i + 1 - 1)
        ≡ some (if contains is i then some (get_or rows i []) else none)
  slot_lem is g i h v =
      ap (get_elem? g.pkgs) (omega arith)
      ∙ ap (λ l. get_elem? l i) v.slots
      ∙ get_elem?-arrived is 0 i rows [] (omega (arith, count_rows))
      ∙ ap (λ n. some (if contains is n then some (get_or rows i []) else none)) (omega arith)

  row-size :
      (i : ℕ) → i < k + r → All (λ row. length row ≡ size) rows → length (get_or rows i []) ≡ size
  row-size i h a = All-get_or (λ row. length row ≡ size) rows i [] (omega (arith, count_rows)) a

  module _ (is : List ℕ) (now i : ℕ) (d : Decoder) (v : Waits k r seq size rows lens is d)
      (inside : i < k + r) (wide : k + r < 128) (fits : seq < 65536)
      (short : All (λ l. l < 65536) lens) (even : All (λ row. length row ≡ size) rows) where
    -- The packet goes to `receive`.
    input-receive :
        input rs_decode2 now d (some (packet k r seq rows lens i))
        ≡ receive rs_decode2 now d (head_of seq (get_or lens i 0) k r i) (get_or rows i [])
    input-receive =
        input-header rs_decode2 now d seq (get_or lens i 0) k r i (get_or rows i []) fits
          (All-get_or (λ l. l < 65536) lens i 0 (omega (arith, count_lens)) short) wide inside
        ∙ rw (v.unfinished, v.unready) refl

    seen :
        get_elem?
          (touched
            (group_of seq d.groups)
            (head_of seq (get_or lens i 0) k r i)
            (length (get_or rows i []))).pkgs
          (i + 1 - 1)
        ≡ some (if contains is i then some (get_or rows i []) else none)
    seen =
        rw (row-size i inside even)
          (slot_lem is (view k r seq size rows lens d i) i inside (v.viewed i))

    pub input-repeated :
        contains is i ≡ true
        → present (arrived is 0 rows) < k
        → (d' : Decoder) × (input rs_decode2 now d (some (packet k r seq rows lens i))
            ≡ some (pos 0, d'))
          × Waits k r seq size rows lens (i ∷ is) d'
          × (Quiet seq d → Quiet seq d')
    input-repeated old few =
        let g = view k r seq size rows lens d i in
        (
          stored now seq d g,
          input-receive
              ∙ receive_old rs_decode2 now d seq (get_or lens i 0) k r i (get_or rows i [])
                  (get_or rows i []) (seen ∙ rw old refl)
              ∙ ap
                  (λ n. some (
                    pos 0,
                    stored now seq d
                        (touched (group_of seq d.groups) (head_of seq (get_or lens i 0) k r i) n),
                  ))
                  (row-size i inside even),
          Waits-some k r seq size rows lens some_data count_rows count_lens (i ∷ is) _ g
              (get-put_self seq g d.groups) (Holds-repeated is g i old (v.viewed i))
              (omega (arith, few, ap present (arrived-repeated is i 0 rows old))),
          λ q. Quiet-stored now seq g d (v.viewed i).waiting q,
        )

    pub present_lem :
        contains is i ≡ false → present (arrived (i ∷ is) 0 rows) ≡ present (arrived is 0 rows) + 1
    present_lem new =
        let g = view k r seq size rows lens d i in
        omega (arith, (Holds-filled is g i inside new (v.viewed i)).count, (v.viewed i).count)

    -- The packet goes into its slot.
    pub input-fill_slot :
        contains is i ≡ false
        → let g = view k r seq size rows lens d i in
          input rs_decode2 now d (some (packet k r seq rows lens i))
          ≡ fill_slot rs_decode2 now
              (stored now seq d g)
              g
              (head_of seq (get_or lens i 0) k r i)
              i
              (get_or rows i [])
    input-fill_slot new =
        let h = head_of seq (get_or lens i 0) k r i in
        input-receive
        ∙ receive_new rs_decode2 now d seq (get_or lens i 0) k r i (get_or rows i [])
            (seen ∙ rw new refl)
        ∙ ap
            (λ n.
              let g = touched (group_of seq d.groups) h n in
              fill_slot rs_decode2 now (stored now seq d g) g h (i + 1 - 1) (get_or rows i []))
            (row-size i inside even)
        ∙ ap
            (λ j.
              let g = view k r seq size rows lens d i in
              fill_slot rs_decode2 now (stored now seq d g) g h j (get_or rows i []))
            (omega arith)

    pub input-few :
        contains is i ≡ false
        → present (arrived is 0 rows) + 1 < k
        → (d' : Decoder) × (input rs_decode2 now d (some (packet k r seq rows lens i))
            ≡ some (pos 0, d'))
          × Waits k r seq size rows lens (i ∷ is) d'
          × (Quiet seq d → Quiet seq d')
    input-few new few =
        let g = view k r seq size rows lens d i in
        let w = v.viewed i in
        let g' = filled g i (get_or lens i 0) (get_or rows i []) in
        let d₁ = stored now seq d g in
        let d₂ = record d₁ { groups = put seq g' d₁.groups } in
        let low : leb_ℤ (pos k) (pos (g.cur_recv + 1)) ≡ false = ground (arith, w.count) in
        let here : get seq (if ltb 50 (length d₂.groups) then clear_timeout now d₂ else d₂).groups
            ≡ some g' =
          elim (Bool-cases (ltb 50 (length d₂.groups))) [
            | inl many ↦ rw many (
                (clear_timeout-get now seq d₂ (time_of-add d.timeout_map seq now)).0
                ∙ get-put_self seq g' d₁.groups)
            | inr few_groups ↦ rw few_groups (get-put_self seq g' d₁.groups)
          ] in
        let quiet : Quiet seq d
            → Quiet seq (if ltb 50 (length d₂.groups) then clear_timeout now d₂ else d₂) =
          λ q.
            let q₂ = Quiet-put seq g' d₁ w.waiting (Quiet-stored now seq g d w.waiting q) in
            elim (Bool-cases (ltb 50 (length d₂.groups))) [
              | inl many ↦ rw many (Quiet-clear_timeout now seq d₂ q₂)
              | inr few_groups ↦ rw few_groups q₂
            ] in
        (
          _,
          input-fill_slot new
              ∙ fill_slot_few rs_decode2 now d₁ g seq (get_or lens i 0) k r i i (get_or rows i [])
                  (rw (w.num) low),
          Waits-some k r seq size rows lens some_data count_rows count_lens (i ∷ is) _ g' here
              (Holds-filled is g i inside new w) (omega (arith, present_lem new)),
          quiet,
        )
