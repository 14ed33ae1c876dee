-- ===== src/Kcp/Segment/Bytes.antt =====
-- What the decoders of lib/kcp/source/ikcp.c read from a buffer of bytes.
use mathlib.Core.Option.{some-injective}
use fec_kcp.Prelude.{
  refl, subst, ℕ, ◌+◌, ◌≤◌, ◌<◌, ◌≡◌, some, List, ◌∷◌, length, All, All-drop, arith, ap,
}
use fec_kcp.Word.{word}
use fec_kcp.Kcp.Segment.{Header, decode_header, overhead}

abbrev pub IsByte : ℕ → Type 0
IsByte n = n < 256

-- From 24 bytes on there is a header to read.
pub decode_header-some :
    (bytes : List ℕ)
    → overhead ≤ length bytes
    → (h : Header) × (rest : List ℕ) × (decode_header bytes ≡ some (h, rest))
unfolding decode_header
decode_header-some
      (a₀ ∷ a₁ ∷ a₂ ∷ a₃ ∷ a₄ ∷ a₅ ∷ a₆ ∷ a₇ ∷ a₈ ∷ a₉ ∷ b₀ ∷ b₁ ∷ b₂ ∷ b₃ ∷ b₄ ∷ b₅ ∷ b₆ ∷ b₇ ∷ b₈
        ∷ b₉ ∷ c₀ ∷ c₁ ∷ c₂ ∷ c₃ ∷ r)
      long =
    (_, _, refl)
decode_header-some _ long = absurd (omega arith)

-- A header takes 24 bytes, and its sequence number fits 32 bits and its window 16.
pub decode_header-bytes :
    (bytes : List ℕ) (h : Header) (rest : List ℕ)
    → decode_header bytes ≡ some (h, rest)
    → All IsByte bytes
    → (length bytes ≡ overhead + length rest) × (h.sn < word) × (h.wnd < 65536) × All IsByte rest
unfolding decode_header
decode_header-bytes
      (a₀ ∷ a₁ ∷ a₂ ∷ a₃ ∷ a₄ ∷ a₅ ∷ a₆ ∷ a₇ ∷ a₈ ∷ a₉ ∷ b₀ ∷ b₁ ∷ b₂ ∷ b₃ ∷ b₄ ∷ b₅ ∷ b₆ ∷ b₇ ∷ b₈
        ∷ b₉ ∷ c₀ ∷ c₁ ∷ c₂ ∷ c₃ ∷ r)
      h rest e b =
    let p = some-injective _ _ e in
    (
      omega (arith, ap (λ t. length t.1) p),
      omega (arith, ap (λ t. t.0.sn) p),
      omega (arith, ap (λ t. t.0.wnd) p),
      subst (All IsByte) (ap (λ t. t.1) p) (
          All-drop IsByte 24
            (a₀ ∷ a₁ ∷ a₂ ∷ a₃ ∷ a₄ ∷ a₅ ∷ a₆ ∷ a₇ ∷ a₈ ∷ a₉ ∷ b₀ ∷ b₁ ∷ b₂ ∷ b₃ ∷ b₄ ∷ b₅ ∷ b₆ ∷ b₇
              ∷ b₈ ∷ b₉ ∷ c₀ ∷ c₁ ∷ c₂ ∷ c₃ ∷ r)
            b),
    )
decode_header-bytes _ h rest e b = cc
