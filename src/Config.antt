-- ===== src/Config.antt =====
-- config/config.go and what it uses of regexp and strconv. The environment is an argument: the process's variables
-- with those that godotenv.Load has added. Parsing a UUID is an argument too. `int` has 64 bits.
pub mod Octets
pub mod Decimal
pub mod Loads
use Prim.Native.Char.{code}
use node_nats.Prelude.{
  ℕ, zero, suc, ◌+◌, ◌-◌, ◌*◌, String, Option, none, some, List, [], ◌∷◌, Bool, true, false, ◌&&◌,
  ◌||◌, ltb, leb, ◌==◌, str_eq, mem, if◌then◌else◌,
}
use node_nats.Common.User.{Bytes}

abbrev pub codes : String → Bytes
codes String.[] = []
codes (String.◌∷◌ c s) = code c ∷ codes s

-- A regular expression without repetition: a range of characters, a sequence, a choice and `?`.
pub data Regex : Type 0 where
  range : ℕ → ℕ → Regex
  seq : Regex → Regex → Regex
  either : Regex → Regex → Regex
  optional : Regex → Regex

-- Whether some match of an expression at the start of a text leaves a rest that `k` accepts.
unfoldable pub matches : Regex → (Bytes → Bool) → Bytes → Bool
matches (range low high) k [] = false
matches (range low high) k (c ∷ s) = leb low c && leb c high && k s
matches (seq r q) k s = matches r (matches q k) s
matches (either r q) k s = matches r k s || matches q k s
matches (optional r) k s = matches r k s || k s

abbrev pub char : ℕ → Regex
char c = range c c

-- 25[0-5]|2[0-4][0-9]|[01]?[0-9][0-9]?
abbrev pub octet : Regex
octet = either (seq (char 50) (seq (char 53) (range 48 53))) (
    either (seq (char 50) (seq (range 48 52) (range 48 57)))
      (seq (optional (range 48 49)) (seq (range 48 57) (optional (range 48 57)))))

-- (?:octet\.)
abbrev pub dotted : Regex
dotted = seq octet (char 46)

-- ipPattern, between `^` and `$`; `{3}` is written out.
abbrev pub ip_pattern : Regex
ip_pattern = seq dotted (seq dotted (seq dotted octet))

abbrev pub at_end : Bytes → Bool
at_end [] = true
at_end (_ ∷ _) = false

-- re.MatchString
unfoldable pub match_string : Bytes → Bool
unfolding matches
match_string = matches ip_pattern at_end

pub data ℤ : Type 0 where
  pos : ℕ → ℤ
  negsuc : ℕ → ℤ

abbrev pub is_digit : ℕ → Bool
is_digit c = leb 48 c && leb c 57

-- The digits of strconv.Atoi, behind a number.
unfoldable pub scan : Bytes → ℕ → Option ℕ
scan [] n = some n
scan (c ∷ s) n = let later = scan s (n * 10 + (c - 48)) in if is_digit c then later else none

unfoldable pub magnitude : Bytes → Option ℕ
unfolding scan
magnitude [] = none
magnitude (c ∷ s) = scan (c ∷ s) 0

abbrev pub max_int64 : ℕ
max_int64 = 9223372036854775807

abbrev pub positive : Option ℕ → Option ℤ
positive none = none
positive (some n) = if leb n max_int64 then some (pos n) else none

abbrev pub negative : Option ℕ → Option ℤ
negative none = none
negative (some zero) = some (pos 0)
negative (some (suc n)) = if leb n max_int64 then some (negsuc n) else none

-- strconv.Atoi, without its error's text
unfoldable pub atoi : Bytes → Option ℤ
unfolding magnitude
atoi [] = none
atoi (c ∷ s) =
    if c == 43
    then positive (magnitude s)
    else (if c == 45 then negative (magnitude s) else positive (magnitude (c ∷ s)))

-- strconv.ParseBool
unfoldable pub parse_bool : String → Option Bool
unfolding mem
parse_bool s =
    if mem ("1" ∷ "t" ∷ "T" ∷ "true" ∷ "TRUE" ∷ "True" ∷ []) s
    then some true
    else (if mem ("0" ∷ "f" ∷ "F" ∷ "false" ∷ "FALSE" ∷ "False" ∷ []) s then some false else none)

abbrev pub Env : Type 0
Env = String → Option String

abbrev pub or_else {ℓ} : {A : Type ℓ} → Option A → A → A
or_else none fallback = fallback
or_else (some a) fallback = a

abbrev pub get_env : Env → String → String → String
get_env env key fallback = or_else (env key) fallback

unfoldable pub get_env_as_int : Env → String → ℤ → ℤ
unfolding atoi
get_env_as_int env name fallback = or_else (atoi (codes (get_env env name ""))) fallback

unfoldable pub get_env_as_bool : Env → String → Bool → Bool
unfolding parse_bool
get_env_as_bool env name fallback = or_else (parse_bool (get_env env name "")) fallback

-- GetEnvAsUUID, as uuid.Nil's number 0 where the text is none
abbrev pub get_env_as_uuid : (String → Option ℕ) → Env → String → ℕ
get_env_as_uuid parse env name = or_else (parse (get_env env name "")) 0

pub record Config : Type 0 where
  pub service_port : ℤ
  pub node_host : String
  pub xray_executable_path : String
  pub xray_assets_path : String
  pub ssl_cert_file : String
  pub ssl_key_file : String
  pub api_key : ℕ
  pub service_protocol : String
  pub debug : Bool
  pub generated_config_path : String
  pub log_buffer_size : ℤ

unfoldable pub checked_host : String → String
unfolding match_string
checked_host host = if match_string (codes host) then host else "127.0.0.1"

-- Load, which returns no error; what it logs is left out.
unfoldable pub load : (String → Option ℕ) → Env → Config
unfolding get_env_as_int get_env_as_bool checked_host
load parse env = record {
  service_port = get_env_as_int env "SERVICE_PORT" (pos 62050);
  node_host = checked_host (get_env env "NODE_HOST" "0.0.0.0");
  xray_executable_path = get_env env "XRAY_EXECUTABLE_PATH" "/usr/local/bin/xray";
  xray_assets_path = get_env env "XRAY_ASSETS_PATH" "/usr/local/share/xray";
  ssl_cert_file = get_env env "SSL_CERT_FILE" "/var/lib/pg-node/certs/ssl_cert.pem";
  ssl_key_file = get_env env "SSL_KEY_FILE" "/var/lib/pg-node/certs/ssl_key.pem";
  api_key = get_env_as_uuid parse env "API_KEY";
  service_protocol = get_env env "SERVICE_PROTOCOL" "grpc";
  debug = get_env_as_bool env "DEBUG" false;
  generated_config_path = get_env env "GENERATED_CONFIG_PATH" "/var/lib/pg-node/generated/";
  log_buffer_size = get_env_as_int env "LOG_BUFFER_SIZE" (pos 1000);
}
