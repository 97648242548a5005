-- ===== src/Common/Base64/RoundTrip.antt =====
-- Decoding after encoding gives the bytes back.
use node_nats.Prelude.{
  ℕ, ◌+◌, ◌*◌, ◌/◌, ◌%◌, ◌<◌, ◌≡◌, refl, some, [], ◌∷◌, Bool, true, not, ◌||◌, arith, ◌==◌, All,
  keep_if,
}
use node_nats.Common.User.{Bytes}
use node_nats.Common.Base64.{pad, digit_char, char_digit, decode_quanta, decode, encode}

char_digit-digit_char : (n : ℕ) → n < 64 → char_digit (digit_char n) ≡ some n
unfolding char_digit digit_char
char_digit-digit_char n h = ground arith

digit_char-ne-pad : (n : ℕ) → n < 64 → (digit_char n == pad) ≡ Bool.false
unfolding digit_char
digit_char-ne-pad n h = ground arith

abbrev is_text : ℕ → Bool
is_text c = not (c == 10 || c == 13)

is_text-digit_char : (n : ℕ) → n < 64 → is_text (digit_char n) ≡ true
unfolding digit_char
is_text-digit_char n h = ground arith

module _ (a : ℕ) (ha : a < 256) where
  encode_one-decode : decode_quanta (encode (a ∷ [])) ≡ some (a ∷ [])
  unfolding decode_quanta encode
  encode_one-decode = ground (
    arith,
    char_digit-digit_char (a / 4) (omega arith),
    char_digit-digit_char (a % 4 * 16) (omega arith),
  )

  module _ (b : ℕ) (hb : b < 256) where
    encode_two-decode : decode_quanta (encode (a ∷ b ∷ [])) ≡ some (a ∷ b ∷ [])
    unfolding decode_quanta encode
    encode_two-decode = ground (
      arith,
      char_digit-digit_char (a / 4) (omega arith),
      char_digit-digit_char (a % 4 * 16 + b / 16) (omega arith),
      char_digit-digit_char (b % 16 * 4) (omega arith),
      digit_char-ne-pad (b % 16 * 4) (omega arith),
    )

    module _ (c : ℕ) (hc : c < 256) where
      quantum-decode :
          (rest : Bytes)
          → decode_quanta (encode rest) ≡ some rest
          → decode_quanta (encode (a ∷ b ∷ c ∷ rest)) ≡ some (a ∷ b ∷ c ∷ rest)
      unfolding decode_quanta encode
      quantum-decode rest h = ground (
        arith,
        char_digit-digit_char (a / 4) (omega arith),
        char_digit-digit_char (a % 4 * 16 + b / 16) (omega arith),
        char_digit-digit_char (b % 16 * 4 + c / 64) (omega arith),
        char_digit-digit_char (c % 64) (omega arith),
        digit_char-ne-pad (c % 64) (omega arith),
      )

decode_quanta-encode :
    (bytes : Bytes) → All (λ b. b < 256) bytes → decode_quanta (encode bytes) ≡ some bytes
unfolding decode_quanta encode
decode_quanta-encode [] h = refl
decode_quanta-encode (a ∷ []) (ha, _) = encode_one-decode a ha
decode_quanta-encode (a ∷ b ∷ []) (ha, (hb, _)) = encode_two-decode a ha b hb
decode_quanta-encode (a ∷ b ∷ c ∷ rest) (ha, (hb, (hc, h))) =
    quantum-decode a ha b hb c hc rest (decode_quanta-encode rest h)

-- An encoded text has no line break to skip.
keep_if-encode :
    (bytes : Bytes) → All (λ b. b < 256) bytes → keep_if is_text (encode bytes) ≡ encode bytes
unfolding encode
keep_if-encode [] h = refl
keep_if-encode (a ∷ []) (ha, _) =
    rw (is_text-digit_char (a / 4) (omega arith), is_text-digit_char (a % 4 * 16) (omega arith))
keep_if-encode (a ∷ b ∷ []) (ha, (hb, _)) = rw (
  is_text-digit_char (a / 4) (omega arith),
  is_text-digit_char (a % 4 * 16 + b / 16) (omega arith),
  is_text-digit_char (b % 16 * 4) (omega arith),
)
keep_if-encode (a ∷ b ∷ c ∷ rest) (ha, (hb, (hc, h))) = rw (
  is_text-digit_char (a / 4) (omega arith),
  is_text-digit_char (a % 4 * 16 + b / 16) (omega arith),
  is_text-digit_char (b % 16 * 4 + c / 64) (omega arith),
  is_text-digit_char (c % 64) (omega arith),
  keep_if-encode rest h,
)

-- Encoding bytes and decoding the text gives the bytes back.
pub decode-encode : (bytes : Bytes) → All (λ b. b < 256) bytes → decode (encode bytes) ≡ some bytes
unfolding decode
decode-encode bytes h = rw (keep_if-encode bytes h) (decode_quanta-encode bytes h)
