-- ===== src/Tests/Config.antt =====
-- The settings of config/config.go in concrete environments.
use mathlib.Core.Bool.{Bool}
use node_nats.Prelude.{ℕ, ◌≡◌, refl, String, Option, none, some, [], ◌∷◌, str_eq, lookup}
use node_nats.Config.{codes, pos, negsuc, match_string, atoi, parse_bool, Env, load}
use node_nats.Config.Loads.{IsLoaded, load-IsLoaded, zero_key_opens}
use node_nats.Controller.{new, new_request}
use node_nats.Controller.Access.{rpc_access, rest_access, full_method, start}

abbrev env : Env
env name = lookup name (("NODE_HOST", "10.0.0.256") ∷ ("LOG_BUFFER_SIZE", "-1") ∷ [])

abbrev zero_text : String
zero_text = "00000000-0000-0000-0000-000000000000"

-- uuid.Parse, on the one UUID that the tests use
abbrev parse : String → Option ℕ
parse text = elim (str_eq text zero_text) [ Bool.true ↦ some 0 | Bool.false ↦ none ]

load-IsLoaded_example : IsLoaded parse env (load parse env)
load-IsLoaded_example = load-IsLoaded parse env

zero_key_opens_example :
    (rpc_access parse
        (load parse env).api_key
        (full_method start)
        (some (("x-api-key", zero_text ∷ []) ∷ []))
        7
        (new 62051)
      ≡ (new_request 7 (new 62051), none))
    × (rest_access parse (load parse env).api_key start zero_text 7 (new 62051)
        ≡ (new_request 7 (new 62051), none))
unfolding lookup
zero_key_opens_example =
    zero_key_opens parse env (("x-api-key", zero_text ∷ []) ∷ []) zero_text [] 7 (new 62051) refl
      refl refl refl

bad_host : (load parse env).node_host ≡ "127.0.0.1"
unfolding load lookup
bad_host = refl

negative_buffer : (load parse env).log_buffer_size ≡ negsuc 0
unfolding load lookup
negative_buffer = refl

hosts :
    (match_string (codes "192.168.0.1") ≡ Bool.true)
    × (match_string (codes "1.2.3") ≡ Bool.false)
    × (match_string (codes "1.2.3.4x") ≡ Bool.false)
    × (match_string (codes "025.2.3.099") ≡ Bool.true)
unfolding match_string
hosts = (refl, refl, refl, refl)

numbers :
    (atoi (codes "+42") ≡ some (pos 42))
    × (atoi (codes "9223372036854775808") ≡ none)
    × (atoi (codes "-9223372036854775808") ≡ some (negsuc 9223372036854775807))
    × (atoi (codes "-") ≡ none)
    × (parse_bool "True" ≡ some Bool.true)
unfolding atoi parse_bool
numbers = (refl, refl, refl, refl, refl)
