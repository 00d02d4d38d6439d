-- ===== src/Data/Base64/RoundTrip.antt =====
-- What is encoded is decoded.

use lambs_server.Base.{
  ℕ, ◌+◌, ◌*◌, ◌/◌, ◌%◌, ◌<◌, ◌≡◌, refl, Bool, true, false, not, ◌||◌, some, List, [], ◌∷◌,
  filter_of_All, length, All, ◌==◌, nat_eq, text_eq, text_beq, arith,
}
use lambs_server.Data.Base64.{symbol, sextet, encode, decode_quads, decode}

abbrev pub IsByte : ℕ → Type 0
IsByte b = b < 256

sextet-symbol : (n : ℕ) → n < 64 → sextet (symbol n) ≡ some n
unfolding sextet symbol
sextet-symbol n h = ground arith

-- A character of the alphabet is no padding and no line break.
symbol_plain :
    (n : ℕ)
    → n < 64
    → ((symbol n == b'=') ≡ false) × (not (symbol n == 10 || symbol n == 13) ≡ true)
unfolding symbol
symbol_plain n h = ground arith

decode_quads-one : (a : ℕ) → a < 256 → decode_quads (encode (a ∷ [])) ≡ some (a ∷ [])
unfolding decode_quads encode text_beq
decode_quads-one a h =
    rw (sextet-symbol (a / 4) (omega arith), sextet-symbol (a % 4 * 16) (omega arith))
      (ground arith)

decode_quads-two :
    (a b : ℕ) → a < 256 → b < 256 → decode_quads (encode (a ∷ b ∷ [])) ≡ some (a ∷ b ∷ [])
unfolding decode_quads encode text_beq
decode_quads-two a b h k =
    rw
      (
        (symbol_plain (b % 16 * 4) (omega arith)).0,
        sextet-symbol (a / 4) (omega arith),
        sextet-symbol (a % 4 * 16 + b / 16) (omega arith),
        sextet-symbol (b % 16 * 4) (omega arith),
      )
      (ground arith)

decode_quads-three :
    (a b c : ℕ) (rest : List ℕ)
    → a < 256
    → b < 256
    → c < 256
    → decode_quads (encode rest) ≡ some rest
    → decode_quads (encode (a ∷ b ∷ c ∷ rest)) ≡ some (a ∷ b ∷ c ∷ rest)
unfolding decode_quads encode
decode_quads-three a b c rest ha hb hc ih =
    rw
      (
        (symbol_plain (b % 16 * 4 + c / 64) (omega arith)).0,
        (symbol_plain (c % 64) (omega arith)).0,
        sextet-symbol (a / 4) (omega arith),
        sextet-symbol (a % 4 * 16 + b / 16) (omega arith),
        sextet-symbol (b % 16 * 4 + c / 64) (omega arith),
        sextet-symbol (c % 64) (omega arith),
        ih,
      )
      (ground arith)

decode_quads-encode : (bs : List ℕ) → All IsByte bs → decode_quads (encode bs) ≡ some bs
decode_quads-encode [] h = unfold decode_quads in unfold encode in refl
decode_quads-encode (a ∷ []) h = decode_quads-one a h.0
decode_quads-encode (a ∷ b ∷ []) h = decode_quads-two a b h.0 h.1.0
decode_quads-encode (a ∷ b ∷ c ∷ rest) h =
    decode_quads-three a b c rest h.0 h.1.0 h.1.1.0 (decode_quads-encode rest h.1.1.1)

abbrev is_text : ℕ → Bool
is_text c = not (c == 10 || c == 13)

encode_plain : (bs : List ℕ) → All IsByte bs → All (λ c. is_text c ≡ true) (encode bs)
unfolding encode
encode_plain [] h = tt
encode_plain (a ∷ []) h = (
  (symbol_plain (a / 4) (omega arith)).1,
  ((symbol_plain (a % 4 * 16) (omega arith)).1, (refl, (refl, tt))),
)
encode_plain (a ∷ b ∷ []) h = (
  (symbol_plain (a / 4) (omega arith)).1,
  (
    (symbol_plain (a % 4 * 16 + b / 16) (omega arith)).1,
    ((symbol_plain (b % 16 * 4) (omega arith)).1, (refl, tt)),
  ),
)
encode_plain (a ∷ b ∷ c ∷ rest) h = (
  (symbol_plain (a / 4) (omega arith)).1,
  (
    (symbol_plain (a % 4 * 16 + b / 16) (omega arith)).1,
    (
      (symbol_plain (b % 16 * 4 + c / 64) (omega arith)).1,
      ((symbol_plain (c % 64) (omega arith)).1, encode_plain rest h.1.1.1),
    ),
  ),
)

-- Bytes that are encoded are decoded.
pub decode-encode : (bs : List ℕ) → All IsByte bs → decode (encode bs) ≡ some bs
decode-encode bs h =
    unfold decode in
    rw (filter_of_All is_text (encode bs) (encode_plain bs h)) (decode_quads-encode bs h)

-- Four characters for three bytes, the last three counted as whole.
pub length-encode : (bs : List ℕ) → length (encode bs) ≡ (length bs + 2) / 3 * 4
unfolding encode
length-encode [] = omega arith
length-encode (a ∷ []) = omega arith
length-encode (a ∷ b ∷ []) = omega arith
length-encode (a ∷ b ∷ c ∷ rest) = omega (arith, length-encode rest)
