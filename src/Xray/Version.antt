-- ===== src/Xray/Version.antt =====
-- refreshVersion and GenerateConfigFile of backend/xray/core.go. Running the command and the file system
-- are arguments; texts are bytes.
pub mod Found
use node_nats.Prelude.{
  ℕ, suc, ◌+◌, String, Option, none, some, List, [], ◌∷◌, ◌++◌, Bool, true, false, ◌&&◌, ◌==◌, leb,
  if◌then◌else◌,
}
use node_nats.Common.User.{Bytes}
use node_nats.Config.{is_digit}
use node_nats.Xray.User.{join}

-- \d*, as far as it goes: the digits, and the rest.
unfoldable pub span_digits : Bytes → Bytes × Bytes
span_digits [] = ([], [])
span_digits (c ∷ s) =
    let (digits, rest) = span_digits s in if is_digit c then (c ∷ digits, rest) else ([], c ∷ s)

abbrev pub if_some : Bytes × Bytes → Option (Bytes × Bytes)
if_some ([], rest) = none
if_some (c ∷ digits, rest) = some (c ∷ digits, rest)

-- \d+
unfoldable pub some_digits : Bytes → Option (Bytes × Bytes)
unfolding span_digits
some_digits s = if_some (span_digits s)

-- A text that is matched as it is.
unfoldable pub past : Bytes → Bytes → Option Bytes
past [] s = some s
past (c ∷ t) [] = none
past (c ∷ t) (d ∷ s) = let later = past t s in if c == d then later else none

infixl 5 ◌>>=◌
abbrev pub ◌>>=◌ {ℓ κ} : {A : Type ℓ} {B : Type κ} → Option A → (A → Option B) → Option B
none >>= f = none
some a >>= f = f a

-- `Xray ` and a dot
abbrev pub core_name : Bytes
core_name = 88 ∷ 114 ∷ 97 ∷ 121 ∷ 32 ∷ []

abbrev pub dot : Bytes
dot = 46 ∷ []

-- The group of ^Xray (\d+\.\d+\.\d+), with what is behind it.
unfoldable pub find_version : Bytes → Option (Bytes × Bytes)
unfolding past some_digits
find_version s = do
  s₁ ← past core_name s
  (major, s₂) ← some_digits s₁
  s₃ ← past dot s₂
  (minor, s₄) ← some_digits s₃
  s₅ ← past dot s₄
  (patch, rest) ← some_digits s₅
  some (major ++ (46 ∷ (minor ++ (46 ∷ patch))), rest)

pub data Run : Type 0 where
  output : Bytes → Run
  failed : String → Run

pub data Version : Type 0 where
  version : Bytes → Version
  unknown : String → Version

abbrev pub version_in : Option (Bytes × Bytes) → Version
version_in none = unknown "could not parse Xray version"
version_in (some (v, rest)) = version v

unfoldable pub refresh_version : Run → Version
unfolding find_version
refresh_version (failed message) = unknown message
refresh_version (output text) = version_in (find_version text)

-- The errors of json.Indent, os.MkdirAll, os.Create and Write; the first of them ends GenerateConfigFile.
unfoldable pub generate_config_file : (indent mkdir create write : Option String) → Option String
generate_config_file (some e) mkdir create write = some e
generate_config_file none (some e) create write =
    some (join "failed to create config directory: " e)
generate_config_file none none (some e) write = some e
generate_config_file none none none write = write
