-- ===== src/Common/Password/Laws.antt =====
-- What a prepared password is: a text that decodes to a key of the method's length.
use node_nats.Prelude.{
  ◌<◌, ◌≡◌, refl, ◌⊎◌, inl, inr, String, Option, none, some, Bool, true, ◌||◌, arith, contains,
  length, All, All-take, length-take, Bool-cases,
}
use node_nats.Common.User.{Bytes}
use node_nats.Common.Base64.{decode, encode}
use node_nats.Common.Base64.RoundTrip.{decode-encode}
use node_nats.Common.Password.{fits, key_bytes, ensure_base64_password}

-- What the package crypto/sha256 documents: a digest is 32 bytes.
pub record IsDigest (sha256 : Bytes → Bytes) : Type 0 where
  pub size : (text : Bytes) → length (sha256 text) ≡ 32
  pub bytes : (text : Bytes) → All (λ b. b < 256) (sha256 text)

-- One of the three ciphers that Shadowsocks 2022 has.
abbrev pub names_cipher : String → Bool
names_cipher method =
    contains method "aes-128-gcm"
    || contains method "aes-256-gcm"
    || contains method "chacha20-poly1305"

-- 16 bytes for AES-128, 32 for the others.
abbrev pub IsKey : String → Bytes → Type 0
IsKey method key =
    ((contains method "aes-128-gcm" ≡ true) × (length key ≡ 16))
    ⊎ (((contains method "aes-256-gcm" || contains method "chacha20-poly1305") ≡ true)
        × (length key ≡ 32))

fits-IsKey :
    (method : String) (decoded : Option Bytes)
    → fits method decoded ≡ true
    → (key : Bytes) × (decoded ≡ some key) × IsKey method key
unfolding fits
fits-IsKey method none h = cc
fits-IsKey method (some key) h = (key, refl, ground arith)

module _ (sha256 : Bytes → Bytes) (digest : IsDigest sha256) (method : String) where
  key_bytes-lt : (text : Bytes) → All (λ b. b < 256) (key_bytes method (sha256 text))
  unfolding key_bytes
  key_bytes-lt text = elim (Bool-cases (contains method "aes-128-gcm")) [
    | inl e ↦ rw e (All-take _ 16 (sha256 text) (digest.bytes text))
    | inr e ↦ rw e (All-take _ 32 (sha256 text) (digest.bytes text))
  ]

  decode-key_bytes :
      (text : Bytes)
      → decode (encode (key_bytes method (sha256 text))) ≡ some (key_bytes method (sha256 text))
  decode-key_bytes text = decode-encode _ (key_bytes-lt text)

  key_bytes-IsKey :
      (text : Bytes) → names_cipher method ≡ true → IsKey method (key_bytes method (sha256 text))
  unfolding key_bytes
  key_bytes-IsKey text h =
      grind (arith, length-take 16 (sha256 text), length-take 32 (sha256 text), digest.size text)

  key_bytes-fits :
      (text : Bytes)
      → names_cipher method ≡ true
      → fits method (some (key_bytes method (sha256 text))) ≡ true
  unfolding fits key_bytes
  key_bytes-fits text h =
      ground (arith, length-take 16 (sha256 text), length-take 32 (sha256 text), digest.size text)

  -- With a digest of 32 bytes and a method that names a cipher, whatever password a user has, the prepared one decodes to
  -- a key of 16 bytes where the method names AES-128, or of 32 where it names one of the others.
  pub ensure_base64_password-IsKey :
      (password : Bytes)
      → names_cipher method ≡ true
      → (key : Bytes) × (decode (ensure_base64_password sha256 password method) ≡ some key)
        × IsKey method key
  unfolding ensure_base64_password
  ensure_base64_password-IsKey password h = elim (Bool-cases (fits method (decode password))) [
    | inl e ↦ rw e (fits-IsKey method (decode password) e)
    | inr e ↦
        rw e (
          key_bytes method (sha256 password),
          decode-key_bytes password,
          key_bytes-IsKey password h,
        )
  ]

  -- Preparing a password a second time changes nothing, for a method that names a cipher.
  pub ensure_base64_password_idempotent :
      (password : Bytes)
      → names_cipher method ≡ true
      → ensure_base64_password sha256 (ensure_base64_password sha256 password method) method
        ≡ ensure_base64_password sha256 password method
  unfolding ensure_base64_password
  ensure_base64_password_idempotent password h = elim (Bool-cases (fits method (decode password))) [
    | inl e ↦ rw (e, e)
    | inr e ↦ rw (e, decode-key_bytes password, key_bytes-fits password h)
  ]
