-- ===== src/Config/Loads.antt =====
-- The settings that Load of config/config.go returns, and what an API key that is no UUID lets pass.
use mathlib.Core.Path.{subst}
use node_nats.Prelude.{
  ℕ, ◌≡◌, refl, sym, ap, ◌∙◌, ◌⊎◌, inl, inr, String, Option, none, some, List, ◌∷◌, true, false,
  Bool-cases, Option-cases, str_eq, lookup,
}
use node_nats.Common.User.{Bytes}
use node_nats.Config.{
  codes, ℤ, pos, atoi, Env, or_else, get_env, get_env_as_int, match_string, checked_host, Config,
  load,
}
use node_nats.Config.Octets.{IsIpv4, match_string_iff}
use node_nats.Config.Decimal.{Spells, atoi-Spells, Spells-atoi}
use node_nats.Controller.{Controller, new_request}
use node_nats.Controller.Access.{
  rpc_validate, rpc_access, rest_validate, rest_access, full_method, start,
}

-- The number that a text spells, or the fallback where it spells none.
abbrev pub IsSetting : Bytes → ℤ → ℤ → Type 0
IsSetting text fallback z = Spells text z ⊎ (((y : ℤ) → ¬ Spells text y) × (z ≡ fallback))

or_else-IsSetting :
    (text : Bytes) (fallback : ℤ) → IsSetting text fallback (or_else (atoi text) fallback)
or_else-IsSetting text fallback = elim (Option-cases (atoi text)) [
  | inl none_there ↦ inr (
    (λ y h. absurd (none-some (sym none_there ∙ Spells-atoi text y h))),
    ap (λ o. or_else o fallback) none_there,
  )
  | inr (z, e) ↦
      inl (subst (Spells text) (sym (ap (λ o. or_else o fallback) e)) (atoi-Spells text z e))
]
  where
    none-some : {z : ℤ} → none ≡ some z → ⊥
    none-some h = absurd (cc)

-- The host that is asked for where it is an IPv4 address, and 127.0.0.1 where it is none.
abbrev pub IsHost : String → String → Type 0
IsHost asked host =
    (IsIpv4 (codes asked) × (host ≡ asked)) ⊎ ((¬ IsIpv4 (codes asked)) × (host ≡ "127.0.0.1"))

checked_host-IsHost : (asked : String) → IsHost asked (checked_host asked)
unfolding checked_host
checked_host-IsHost asked = elim (Bool-cases (match_string (codes asked))) [
  | inl matched ↦ inl ((match_string_iff (codes asked)).0 matched, rw matched refl)
  | inr other ↦
      inr ((λ ip. true-false (sym ((match_string_iff (codes asked)).1 ip) ∙ other)), rw other refl)
]
  where
    true-false : true ≡ false → ⊥
    true-false h = absurd (cc)

pub record IsLoaded (parse : String → Option ℕ) (env : Env) (cfg : Config) : Type 0 where
  pub host : IsHost (get_env env "NODE_HOST" "0.0.0.0") cfg.node_host
  pub port : IsSetting (codes (get_env env "SERVICE_PORT" "")) (pos 62050) cfg.service_port
  pub buffer : IsSetting (codes (get_env env "LOG_BUFFER_SIZE" "")) (pos 1000) cfg.log_buffer_size
  pub key : cfg.api_key ≡ or_else (parse (get_env env "API_KEY" "")) 0

-- In every environment, Load returns the host that NODE_HOST asks for (or 0.0.0.0) where that is an IPv4 address and
-- 127.0.0.1 where it is none; the port and the buffer's size are the 64-bit integers that their variables spell, and
-- 62050 and 1000 where they spell none; the key is the UUID of API_KEY, and the zero UUID where that is none.
pub load-IsLoaded : (parse : String → Option ℕ) (env : Env) → IsLoaded parse env (load parse env)
unfolding load get_env_as_int
load-IsLoaded parse env = record {
  host = checked_host-IsHost (get_env env "NODE_HOST" "0.0.0.0");
  port = or_else-IsSetting (codes (get_env env "SERVICE_PORT" "")) (pos 62050);
  buffer = or_else-IsSetting (codes (get_env env "LOG_BUFFER_SIZE" "")) (pos 1000);
  key = refl;
}

-- Where API_KEY is no UUID, or not set, the settings of Load let whoever sends the zero UUID as the first key start the
-- backend, over gRPC and over REST, and each counts as a request.
pub zero_key_opens :
    (parse : String → Option ℕ) (env : Env) (md : List (String × List String)) (header : String)
    (others : List String) (now : ℕ) (c : Controller)
    → parse (get_env env "API_KEY" "") ≡ none
    → lookup "x-api-key" md ≡ some (header ∷ others)
    → str_eq header "" ≡ false
    → parse header ≡ some 0
    → (rpc_access parse (load parse env).api_key (full_method start) (some md) now c
        ≡ (new_request now c, none))
      × (rest_access parse (load parse env).api_key start header now c ≡ (new_request now c, none))
unfolding load rpc_access rpc_validate rest_access rest_validate
zero_key_opens parse env md header others now c unset found nonempty zero_key =
    (rw (unset, found, zero_key) refl, rw (nonempty, unset, zero_key) refl)
