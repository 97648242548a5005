-- ===== src/Tests/Start.antt =====
-- The preparation of the core's configuration at concrete inputs.
use node_nats.Prelude.{◌≡◌, refl, inr, none, some, [], ◌∷◌, mem, All, ok}
use node_nats.Xray.Account.{VlessAccount}
use node_nats.Xray.Flow.{
  Json, text, end, field, object, number, Fields, member, cleared, check_vless,
}
use node_nats.Xray.Inbound.{Inbound}
use node_nats.Xray.Config.{Config, api_inbound, api_rule, remove_api_inbound, level, apply_api}
use node_nats.Xray.Config.Counting.{HasLevel}
use node_nats.Xray.Config.Api.{
  AtMostOneApi, IsRule, IsApplied, rules_of, apply_api-IsApplied, apply_api_loses_rules,
}

abbrev plain : Inbound
plain = record (api_inbound 1) { tag = "VM" }

abbrev pub old_api : Inbound
old_api = api_inbound 10085

abbrev to_api : Json
to_api = object (field "outboundTag" (text "API") end)

abbrev direct : Json
direct = object (field "outboundTag" (text "DIRECT") end)

abbrev pub config : Config
config = record {
  log_config = none;
  router_config = some (record { rule_list = to_api ∷ direct ∷ []; other = end });
  inbounds = plain ∷ old_api ∷ plain ∷ [];
  policy = none;
  api = none;
  other = end;
}

abbrev broken : Config
broken = record config {
  router_config = some (record { rule_list = direct ∷ number "5" ∷ direct ∷ []; other = end });
}

run_removal : remove_api_inbound config.inbounds ≡ ok (plain ∷ plain ∷ [])
unfolding remove_api_inbound
run_removal = refl

one : AtMostOneApi config.inbounds
one = inr (plain ∷ [], old_api, plain ∷ [], refl, refl, (refl, tt), (refl, tt))

pub config_rules : All IsRule (rules_of config)
config_rules = (λ e. cc e, (λ e. cc e, tt))

pub no_policy : HasLevel config.policy
unfolding level
no_policy = λ e. cc e

apply_api-IsApplied_example :
    (c' : Config) × (apply_api config 20000 ≡ ok c') × IsApplied config 20000 c'
apply_api-IsApplied_example = apply_api-IsApplied config 20000 one no_policy config_rules

apply_api_loses_rules_example :
    (c' : Config) × (apply_api broken 20000 ≡ ok c') × (rules_of c' ≡ api_rule ∷ [])
apply_api_loses_rules_example =
    apply_api_loses_rules broken 20000 one no_policy (direct ∷ []) (number "5") (direct ∷ []) refl
      refl

abbrev vision : VlessAccount
vision = record { email = "ann"; level = 0; id = 1; flow = "xtls-rprx-vision" }

abbrev http_header : Fields
http_header = field "type" (text "http") end

abbrev tcp_settings : Fields
tcp_settings = field "header" (object http_header) end

abbrev tls_stream : Fields
tls_stream =
    field "network" (text "tcp")
      (field "security" (text "tls") (field "tcpSettings" (object tcp_settings) end))

-- Without a security the flow is cleared.
run_cleared : check_vless (field "network" (text "tcp") end) vision ≡ cleared vision
unfolding check_vless member mem
run_cleared = refl
