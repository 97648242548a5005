-- ===== src/Common/Password.antt =====
-- EnsureBase64Password of common/helper.go: the key of a Shadowsocks 2022 account.
-- `sha256` is an argument: crypto/sha256, of which the program uses the 32 bytes of the digest.
pub mod Laws
use node_nats.Prelude.{
  ℕ, String, Option, none, some, Bool, false, ◌&&◌, ◌||◌, ◌==◌, if◌then◌else◌, contains, length,
  take,
}
use node_nats.Common.User.{Bytes}
use node_nats.Common.Base64.{decode, encode}

-- A decoded password has the length of the method's key.
unfoldable pub fits : String → Option Bytes → Bool
fits method none = false
fits method (some decoded) =
    (contains method "aes-128-gcm" && length decoded == 16)
    || ((contains method "aes-256-gcm" || contains method "chacha20-poly1305")
        && length decoded == 32)

unfoldable pub key_bytes : String → Bytes → Bytes
key_bytes method hash = if contains method "aes-128-gcm" then take 16 hash else take 32 hash

unfoldable pub ensure_base64_password : (Bytes → Bytes) → Bytes → String → Bytes
unfolding fits key_bytes
ensure_base64_password sha256 password method =
    if fits method (decode password) then password else encode (key_bytes method (sha256 password))
