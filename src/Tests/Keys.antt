-- ===== src/Tests/Keys.antt =====
-- Passwords and base64 of common/helper.go at concrete inputs.
use node_nats.Prelude.{◌≡◌, refl, none, some, [], ◌∷◌, true, contains}
use node_nats.Common.User.{Bytes}
use node_nats.Common.Base64.{decode, encode}
use node_nats.Common.Password.{ensure_base64_password}
use node_nats.Common.Password.Laws.{IsKey, names_cipher, ensure_base64_password-IsKey}
use node_nats.Tests.Digest.{counting, counting-IsDigest}

-- "Man" is "TWFu", and "M" is "TQ==".
encode_man : encode (77 ∷ 97 ∷ 110 ∷ []) ≡ 84 ∷ 87 ∷ 70 ∷ 117 ∷ []
unfolding encode
encode_man = refl

decode_padded : decode (84 ∷ 81 ∷ 61 ∷ 61 ∷ 10 ∷ []) ≡ some (77 ∷ [])
unfolding decode
decode_padded = refl

decode_unpadded : decode (84 ∷ 81 ∷ []) ≡ none
unfolding decode
decode_unpadded = refl

aes_128_named : names_cipher "2022-blake3-aes-128-gcm" ≡ true
unfolding contains
aes_128_named = refl

aes_256_named : names_cipher "2022-blake3-aes-256-gcm" ≡ true
unfolding contains
aes_256_named = refl

ensure_base64_password-IsKey_example :
    (key : Bytes) × (decode
        (ensure_base64_password counting (84 ∷ 81 ∷ []) "2022-blake3-aes-128-gcm")
      ≡ some key)
    × IsKey "2022-blake3-aes-128-gcm" key
ensure_base64_password-IsKey_example =
    ensure_base64_password-IsKey counting counting-IsDigest "2022-blake3-aes-128-gcm" (84 ∷ 81 ∷ [])
      aes_128_named
