-- ===== src/Kcp/Ack/Order.antt =====
-- The sending side of lib/kcp/source/ikcp.c under acknowledgements: `snd_buf` stays sorted between
-- `snd_una` and `snd_nxt`, whatever the peer sends.
use fec_kcp.Prelude.{
  ℕ, suc, ◌+◌, ◌-◌, ◌^◌, ◌<◌, ◌≡◌, refl, subst, inl, inr, List, [], ◌∷◌, length, ◌==◌, arith,
  Bool-cases,
}
use fec_kcp.Word.{word, sub32, before, after}
use fec_kcp.Word.Order.{sub32_self, sub32-lt, sub32-offset}
use fec_kcp.Kcp.Segment.{Segment}
use fec_kcp.Kcp.State.{Sender}
use fec_kcp.Kcp.Recv.Order.{offset, Ascending, Ascending-weaken}
use fec_kcp.Kcp.Ack.{
  shrink_buf, not_in_flight, ack_scan, parse_ack, una_scan, parse_una, fastack_scan, parse_fastack,
}

abbrev pub in_flight : Sender → ℕ
in_flight s = sub32 s.snd_nxt s.snd_una

-- The numbers in `snd_buf` are strictly increasing from `snd_una` to below `snd_nxt`.
pub record IsSending (s : Sender) : Type 0 where
  pub una : s.snd_una < word
  pub nxt : s.snd_nxt < word
  pub half : in_flight s < 2 ^ 31
  pub sorted : Ascending s.snd_una (in_flight s) 0 s.snd_buf
  pub count_buf : s.nsnd_buf ≡ length s.snd_buf

-- Ascending from a later base, which all the segments have reached.
pub Ascending-advance :
    (una una' w w' lo lo' : ℕ) (b : List Segment)
    → w' + sub32 una' una ≡ w
    → lo' + sub32 una' una ≡ lo
    → w < word
    → Ascending una w lo b
    → Ascending una' w' lo' b
Ascending-advance una una' w w' lo lo' [] h k small a = a
Ascending-advance una una' w w' lo lo' (g ∷ b) h k small a =
    let e : offset una' g + sub32 una' una ≡ offset una g =
      omega (arith, sub32-offset g.sn una' una, sub32-lt g.sn una') in
    (
      a.0,
      omega arith,
      omega arith,
      Ascending-advance una una' w w' (suc (offset una g)) (suc (offset una' g)) b h (omega arith)
          small a.3,
    )

una_scan-Ascending :
    (una nxt w lo : ℕ) (b : List Segment) (n : ℕ)
    → Ascending nxt w lo b
    → n ≡ length b
    → let (b', n') = una_scan una b n in Ascending nxt w lo b' × (n' ≡ length b')
unfolding una_scan
una_scan-Ascending una nxt w lo [] n a e = (a, e)
una_scan-Ascending una nxt w lo (g ∷ b) n a e =
    let ih =
      una_scan-Ascending una nxt w lo b (n - 1) (Ascending-weaken nxt w _ lo b (omega arith) a.3)
        (omega arith) in
    elim (Bool-cases (after una g.sn)) [ inl t ↦ rw t ih | inr f ↦ rw f (a, e) ]

-- `passed` are the segments in front, which the loop has left in the buffer.
ack_scan-Ascending :
    (sn nxt w lo : ℕ) (b : List Segment) (n passed : ℕ)
    → Ascending nxt w lo b
    → n ≡ passed + length b
    → let (b', n') = ack_scan sn b n in Ascending nxt w lo b' × (n' ≡ passed + length b')
unfolding ack_scan
ack_scan-Ascending sn nxt w lo [] n passed a e = (a, e)
ack_scan-Ascending sn nxt w lo (g ∷ b) n passed a e =
    let weaker = Ascending-weaken nxt w _ lo b (omega arith) a.3 in
    let ih = ack_scan-Ascending sn nxt w (suc (offset nxt g)) b n (suc passed) a.3 (omega arith) in
    elim (Bool-cases (sn == g.sn)) [
      | inl hit ↦ rw hit (weaker, omega arith)
      | inr miss ↦ elim (Bool-cases (before sn g.sn)) [
        | inl gone ↦ rw (miss, gone) (a, e)
        | inr on ↦ rw (miss, on) ((a.0, a.1, a.2, ih.0), omega (arith, ih.1))
      ]
    ]

fastack_scan-Ascending :
    (sn nxt w lo : ℕ) (b : List Segment)
    → Ascending nxt w lo b
    → Ascending nxt w lo (fastack_scan sn b) × (length (fastack_scan sn b) ≡ length b)
unfolding fastack_scan
fastack_scan-Ascending sn nxt w lo [] a = (a, refl)
fastack_scan-Ascending sn nxt w lo (g ∷ b) a =
    let ih = fastack_scan-Ascending sn nxt w (suc (offset nxt g)) b a.3 in
    elim (Bool-cases (before sn g.sn)) [
      | inl stop ↦ rw stop (a, refl)
      | inr on ↦ elim (Bool-cases (sn == g.sn)) [
        | inl same ↦ rw (on, same) ((a.0, a.1, a.2, ih.0), omega (arith, ih.1))
        | inr other ↦ rw (on, other) ((a.0, a.1, a.2, ih.0), omega (arith, ih.1))
      ]
    ]

-- Dropping segments keeps the order; moving `snd_una` up to the first one left keeps it too.
shrink_to : (s : Sender) (b : List Segment) → s.snd_buf ≡ b → IsSending s → IsSending (shrink_buf s)
unfolding shrink_buf
shrink_to s [] e v =
    rw (e, shrink_buf)
      (record {
        una = v.nxt;
        nxt = v.nxt;
        half = omega (arith, sub32_self s.snd_nxt);
        sorted = rw e tt;
        count_buf = v.count_buf;
      })
shrink_to s (g ∷ b) e v =
    let a : Ascending s.snd_una (in_flight s) 0 (g ∷ b) =
      subst (λ l. Ascending s.snd_una (in_flight s) 0 l) e v.sorted in
    let left : sub32 s.snd_nxt g.sn + offset s.snd_una g ≡ in_flight s =
      omega (arith, sub32-offset s.snd_nxt g.sn s.snd_una, sub32-lt s.snd_nxt g.sn, a.2) in
    rw (e, shrink_buf)
      (record {
        una = a.0;
        nxt = v.nxt;
        half = omega (arith, left, v.half);
        sorted = rw e (
            Ascending-advance s.snd_una g.sn (in_flight s) _ (offset s.snd_una g) 0 (g ∷ b) left
              (omega arith) (omega (arith, v.half)) (a.0, omega arith, a.2, a.3));
        count_buf = v.count_buf;
      })

pub shrink-IsSending : (s : Sender) → IsSending s → IsSending (shrink_buf s)
shrink-IsSending s v = shrink_to s s.snd_buf refl v

pub parse_una-IsSending : (s : Sender) (una : ℕ) → IsSending s → IsSending (parse_una s una)
unfolding parse_una
parse_una-IsSending s una v =
    let (a, e) =
      una_scan-Ascending una s.snd_una (in_flight s) 0 s.snd_buf s.nsnd_buf v.sorted v.count_buf in
    record { una = v.una; nxt = v.nxt; half = v.half; sorted = a; count_buf = e }

pub parse_ack-IsSending : (s : Sender) (sn : ℕ) → IsSending s → IsSending (parse_ack s sn)
unfolding parse_ack
parse_ack-IsSending s sn v =
    let (a, e) =
      ack_scan-Ascending sn s.snd_una (in_flight s) 0 s.snd_buf s.nsnd_buf 0 v.sorted
        (omega (arith, v.count_buf)) in
    elim (Bool-cases (not_in_flight s sn)) [
      | inl out ↦ rw out v
      | inr here ↦ rw here (record {
        una = v.una;
        nxt = v.nxt;
        half = v.half;
        sorted = a;
        count_buf = omega (arith, e);
      })
    ]

pub parse_fastack-IsSending : (s : Sender) (sn : ℕ) → IsSending s → IsSending (parse_fastack s sn)
unfolding parse_fastack
parse_fastack-IsSending s sn v =
    let (a, e) = fastack_scan-Ascending sn s.snd_una (in_flight s) 0 s.snd_buf v.sorted in
    elim (Bool-cases (not_in_flight s sn)) [
      | inl out ↦ rw out v
      | inr here ↦ rw here (record {
        una = v.una;
        nxt = v.nxt;
        half = v.half;
        sorted = a;
        count_buf = omega (arith, e, v.count_buf);
      })
    ]
