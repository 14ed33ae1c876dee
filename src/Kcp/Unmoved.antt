-- ===== src/Kcp/Unmoved.antt =====
-- What the calls of lib/kcp/source/ikcp.c other than a flush and the code behind the loop of `ikcp_input`
-- leave alone.
use fec_kcp.Prelude.{
  ℕ, zero, suc, ◌^◌, ◌≡◌, refl, ◌∙◌, Bool, true, false, ◌||◌, not, ◌==◌, inl, inr, Bool-cases,
  Option, none, some, Option-cases, List, length, ltb, leb, ℤ, pos, negsuc, arith,
}
use fec_kcp.Kcp.Segment.{Header, decode_header, overhead}
use fec_kcp.Kcp.State.{Kcp}
use fec_kcp.Kcp.Send.{enqueue, send}
use fec_kcp.Kcp.Recv.{receive, recv}
use fec_kcp.Kcp.Recv.Take.{recv-cases, recv-peek_cases}
use fec_kcp.Kcp.Input.{
  Latest, Outcome, begin_segment, input_ack, input_push, input_segment, known_cmd, read_payload,
  input_round, input_loop,
}

-- The clock, the congestion window and the threshold are as they were.
pub record Unmoved (k k' : Kcp) : Type 0 where
  pub updated : k'.timer.updated ≡ k.timer.updated
  pub cwnd : k'.cong.cwnd ≡ k.cong.cwnd
  pub ssthresh : k'.cong.ssthresh ≡ k.cong.ssthresh

Unmoved-trans : {k k' k'' : Kcp} → Unmoved k k' → Unmoved k' k'' → Unmoved k k''
Unmoved-trans a b = record {
  updated = b.updated ∙ a.updated;
  cwnd = b.cwnd ∙ a.cwnd;
  ssthresh = b.ssthresh ∙ a.ssthresh;
}

pub Unmoved-refl : (k : Kcp) → Unmoved k k
Unmoved-refl k = record { updated = refl; cwnd = refl; ssthresh = refl }

pub send-Unmoved : (k : Kcp) (buf : List ℕ) (len : ℤ) → Unmoved k (send k buf len).1
unfolding send enqueue
send-Unmoved k buf (negsuc n) = Unmoved-refl k
send-Unmoved k buf (pos len) = record {
  updated = ground arith;
  cwnd = ground arith;
  ssthresh = ground arith;
}

receive-Unmoved : (k : Kcp) (peek : Bool) → Unmoved k (receive k peek).2
unfolding receive
receive-Unmoved k peek = record { updated = refl; cwnd = refl; ssthresh = refl }

pub recv-Unmoved : (k : Kcp) (size : ℤ) → Unmoved k (recv k size).2
recv-Unmoved k (negsuc n) = elim (recv-peek_cases k n) [
  | inl refused ↦ rw refused (Unmoved-refl k)
  | inr e ↦ rw e (receive-Unmoved k true)
]
recv-Unmoved k (pos size) = elim (recv-cases k size) [
  | inl refused ↦ rw (refused.1) (Unmoved-refl k)
  | inr e ↦ rw e (receive-Unmoved k false)
]

input_segment-Unmoved :
    (k : Kcp) (l : Latest) (h : Header) (payload : List ℕ)
    → Unmoved k (input_segment k l h payload).0
unfolding input_segment begin_segment input_ack input_push
input_segment-Unmoved k l h payload = record {
  updated = ground arith;
  cwnd = ground arith;
  ssthresh = ground arith;
}

-- However the loop of `ikcp_input` ends.
abbrev pub Leaves : Kcp → Option Outcome → Type 0
Leaves k none = Unit
Leaves k (some o) = Unmoved k o.kcp

Leaves-trans : (k k' : Kcp) (r : Option Outcome) → Unmoved k k' → Leaves k' r → Leaves k r
Leaves-trans k k' none u l = tt
Leaves-trans k k' (some o) u l = Unmoved-trans u l

input_round-Leaves :
    (k : Kcp) (l : Latest) (bytes : List ℕ) (go : Kcp → Latest → List ℕ → Option Outcome)
    → ((k' : Kcp) (l' : Latest) (rest : List ℕ) → Leaves k' (go k' l' rest))
    → Leaves k (input_round k l bytes go)
unfolding input_round
input_round-Leaves k l bytes go stays = elim (Option-cases (decode_header bytes)) [
  | inl e ↦ rw (e, input_round, Leaves) tt
  | inr ((h, rest), e) ↦
      rw (e, input_round)
        (elim (Bool-cases (not (h.conv == k.conf.conv))) [
          | inl foreign ↦ rw foreign (Unmoved-refl k)
          | inr ours ↦ rw ours (elim (Bool-cases (ltb (length rest) h.len || leb (2 ^ 31) h.len)) [
            | inl short ↦ rw short (Unmoved-refl k)
            | inr whole ↦ rw whole (elim (Bool-cases (not (known_cmd h.cmd))) [
              | inl unknown ↦ rw unknown (Unmoved-refl k)
              | inr known ↦ rw known (elim (Option-cases (read_payload h.len rest)) [
                | inl e' ↦ rw (e', Leaves) tt
                | inr ((payload, rest'), e') ↦
                    let s = input_segment k l h payload in
                    rw e' (
                      Leaves-trans k s.0 _ (input_segment-Unmoved k l h payload)
                        (stays s.0 s.1 rest'))
              ])
            ])
          ])
        ])
]

pub input_loop-Leaves :
    (fuel : ℕ) (k : Kcp) (l : Latest) (bytes : List ℕ) → Leaves k (input_loop fuel k l bytes)
unfolding input_loop
input_loop-Leaves zero k l bytes = tt
input_loop-Leaves (suc fuel) k l bytes = elim (Bool-cases (ltb (length bytes) overhead)) [
  | inl short ↦ rw (short, input_loop) (Unmoved-refl k)
  | inr more ↦
      rw (more, input_loop)
        (input_round-Leaves k l bytes _ (λ k' l' rest. input_loop-Leaves fuel k' l' rest))
]
