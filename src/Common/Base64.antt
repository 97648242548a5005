-- ===== src/Common/Base64.antt =====
-- encoding/base64's StdEncoding over bytes, as common/helper.go uses it: padding is required, line
-- breaks are skipped, and the unused bits of the last digit are ignored.
pub mod RoundTrip
use node_nats.Prelude.{
  ℕ, ◌+◌, ◌-◌, ◌*◌, ◌/◌, ◌%◌, Option, none, some, List, [], ◌∷◌, Bool, not, ◌&&◌, ◌||◌, ltb, leb,
  ◌==◌, if◌then◌else◌, keep_if,
}
use node_nats.Common.User.{Bytes}

abbrev pub pad : ℕ
pad = 61

-- The character of a 6-bit digit.
unfoldable pub digit_char : ℕ → ℕ
digit_char n =
    if ltb n 26
    then n + 65
    else (if ltb n 52 then n + 71 else (if ltb n 62 then n - 4 else (if n == 62 then 43 else 47)))

unfoldable pub char_digit : ℕ → Option ℕ
char_digit c =
    if leb 65 c && leb c 90
    then some (c - 65)
    else (if leb 97 c && leb c 122
        then some (c - 71)
        else (if leb 48 c && leb c 57
            then some (c + 4)
            else (if c == 43 then some 62 else (if c == 47 then some 63 else none))))

infixl 5 ◌>>=◌
abbrev ◌>>=◌ {ℓ κ} : {A : Type ℓ} {B : Type κ} → Option A → (A → Option B) → Option B
none >>= k = none
some a >>= k = k a

abbrev pub first_byte : ℕ → ℕ → ℕ
first_byte u v = u * 4 + v / 16

abbrev pub second_byte : ℕ → ℕ → ℕ
second_byte v w = v % 16 * 16 + w / 4

abbrev pub third_byte : ℕ → ℕ → ℕ
third_byte w x = w % 4 * 64 + x

abbrev is_empty : Bytes → Bool
is_empty [] = Bool.true
is_empty (_ ∷ _) = Bool.false

-- A last quantum with two digits and two pads, or with three digits and one.
last_two : ℕ → ℕ → Option Bytes
unfolding char_digit
last_two a b = do u ← char_digit a; v ← char_digit b; some (first_byte u v ∷ [])

last_three : ℕ → ℕ → ℕ → Option Bytes
unfolding char_digit
last_three a b c = do
  u ← char_digit a
  v ← char_digit b
  w ← char_digit c
  some (first_byte u v ∷ second_byte v w ∷ [])

full : ℕ → ℕ → ℕ → ℕ → Option Bytes → Option Bytes
unfolding char_digit
full a b c d rest = do
  u ← char_digit a
  v ← char_digit b
  w ← char_digit c
  x ← char_digit d
  bytes ← rest
  some (first_byte u v ∷ second_byte v w ∷ third_byte w x ∷ bytes)

decode_quanta : Bytes → Option Bytes
unfolding last_two last_three full
decode_quanta [] = some []
decode_quanta (a ∷ b ∷ c ∷ d ∷ rest) =
    let more = decode_quanta rest in
    if d == pad && is_empty rest
    then (if c == pad then last_two a b else last_three a b c)
    else full a b c d more
decode_quanta _ = none

-- DecodeString; `none` is its error
unfoldable pub decode : Bytes → Option Bytes
unfolding decode_quanta
decode text = decode_quanta (keep_if (λ c. not (c == 10 || c == 13)) text)

-- EncodeToString
unfoldable pub encode : Bytes → Bytes
unfolding digit_char
encode [] = []
encode (a ∷ []) = digit_char (a / 4) ∷ digit_char (a % 4 * 16) ∷ pad ∷ pad ∷ []
encode (a ∷ b ∷ []) =
    digit_char (a / 4) ∷ digit_char (a % 4 * 16 + b / 16) ∷ digit_char (b % 16 * 4) ∷ pad ∷ []
encode (a ∷ b ∷ c ∷ rest) =
    digit_char (a / 4)
    ∷ digit_char (a % 4 * 16 + b / 16)
    ∷ digit_char (b % 16 * 4 + c / 64)
    ∷ digit_char (c % 64)
    ∷ encode rest
