-- ===== src/Xray/Config.antt =====
-- The configuration of backend/xray/config.go and what the node does to it before a start. The
-- types of the core's package conf are read as far as the node touches them; `other` is the rest.
pub mod Removal
pub mod Counting
pub mod Api
use node_nats.Prelude.{
  ℕ, suc, zero, ◌+◌, ◌-◌, String, Option, none, some, List, [], ◌∷◌, ◌++◌, Bool, true, false,
  str_eq, mem, leb, ◌==◌, if◌then◌else◌, get_elem?, take, drop, length, Result, ok, fail, panic,
  ◌>>=◌,
}
use node_nats.Xray.Flow.{
  Json, null, text, array, object, nil, cons, Fields, end, field, member, as_text,
}
use node_nats.Xray.Inbound.{Inbound, int_port, json}

pub record LogConfig : Type 0 where
  pub access_log : String
  pub error_log : String
  pub log_level : String
  pub other : Fields

-- A rule is raw JSON, here decoded: the decoder has checked its syntax.
pub record RouterConfig : Type 0 where
  pub rule_list : List Json
  pub other : Fields

pub record Policy : Type 0 where
  pub stats_user_uplink : Bool
  pub stats_user_downlink : Bool
  pub stats_user_online : Bool
  pub other : Fields

pub record SystemPolicy : Type 0 where
  pub stats_inbound_uplink : Bool
  pub stats_inbound_downlink : Bool
  pub stats_outbound_uplink : Bool
  pub stats_outbound_downlink : Bool

-- `levels` is a map that may be nil, from a level to a pointer that may be nil.
pub record PolicyConfig : Type 0 where
  pub levels : Option (List (ℕ × Option Policy))
  pub system : Option SystemPolicy

pub record ApiConfig : Type 0 where
  pub services : List String
  pub tag : String

pub record Config : Type 0 where
  pub log_config : Option LogConfig
  pub router_config : Option RouterConfig
  pub inbounds : List Inbound
  pub policy : Option PolicyConfig
  pub api : Option ApiConfig
  pub other : Fields

-- filterRules. A rule decodes into a map if it is an object, or null, which leaves the map nil.
abbrev pub rule_tag : Json → Option (Option String)
rule_tag (object m) = some (as_text (member "outboundTag" m))
rule_tag null = some none
rule_tag _ = none

abbrev pub has_tag : String → Option String → Bool
has_tag tag none = false
has_tag tag (some s) = str_eq s tag

unfoldable pub filter_rules : List Json → String → Result (List Json)
filter_rules [] tag = ok []
filter_rules (raw ∷ rules) tag = elim (rule_tag raw) [
  | none ↦ fail "invalid JSON in rule"
  | some value ↦
      filter_rules rules tag >>= (λ kept. ok (if has_tag tag value then kept else raw ∷ kept))
]

-- The removal loop of ApplyAPI. `range` walks over the array that the slice had at the start, while
-- the body shifts that array in place and shortens the slice: `arr` is the array, `len` the
-- slice's length. A slice expression that begins past the end of the slice panics.
abbrev pub is_api : Inbound → Bool
is_api i = str_eq i.tag "API_INBOUND"

-- append(c[:i], c[i+1:]...), on the array of which the slice has the first `len`
abbrev pub shift_out : ℕ → ℕ → List Inbound → List Inbound
shift_out i len arr = take i arr ++ (drop (suc i) (take len arr) ++ drop (len - 1) arr)

abbrev pub at_api : Option Inbound → Bool
at_api none = false
at_api (some i) = is_api i

unfoldable pub remove_from : ℕ → ℕ → ℕ → List Inbound → Result (List Inbound)
remove_from zero i len arr = ok (take len arr)
remove_from (suc rounds) i len arr = elim (at_api (get_elem? arr i)) [
  | false ↦ remove_from rounds (suc i) len arr
  | true ↦ elim (leb (suc i) len) [
    | true ↦ remove_from rounds (suc i) (len - 1) (shift_out i len arr)
    | false ↦ panic
  ]
]

unfoldable pub remove_api_inbound : List Inbound → Result (List Inbound)
unfolding remove_from
remove_api_inbound inbounds = remove_from (length inbounds) 0 (length inbounds) inbounds

-- checkPolicy
abbrev pub default_level : Policy
default_level = record {
  stats_user_uplink = true;
  stats_user_downlink = true;
  stats_user_online = false;
  other = end;
}

abbrev pub entries : Option (List (ℕ × Option Policy)) → List (ℕ × Option Policy)
entries none = []
entries (some m) = m

unfoldable pub level : ℕ → List (ℕ × Option Policy) → Option (Option Policy)
level k [] = none
level k ((j, p) ∷ m) = if j == k then some p else level k m

unfoldable pub set_level : ℕ → Option Policy → List (ℕ × Option Policy) → List (ℕ × Option Policy)
set_level k p [] = (k, p) ∷ []
set_level k p ((j, q) ∷ m) = if j == k then (k, p) ∷ m else (j, q) ∷ set_level k p m

-- The entry of level 0, which is written through its pointer where there is one.
unfoldable pub check_level : Option (Option Policy) → Result Policy
check_level none = ok default_level
check_level (some none) = panic
check_level (some (some zero_level)) =
    ok (record zero_level { stats_user_downlink = true; stats_user_uplink = true })

unfoldable pub check_system : Option SystemPolicy → SystemPolicy
check_system none = record {
  stats_inbound_downlink = false;
  stats_inbound_uplink = false;
  stats_outbound_downlink = true;
  stats_outbound_uplink = true;
}
check_system (some s) = record s { stats_outbound_downlink = true; stats_outbound_uplink = true }

unfoldable pub check_policy : Option PolicyConfig → Result PolicyConfig
unfolding check_level check_system set_level level
check_policy none =
    ok (record { levels = some ((0, some default_level) ∷ []); system = some (check_system none) })
check_policy (some p) = do
  zero_level ← check_level (level 0 (entries p.levels))
  ok (record {
    levels = some (set_level 0 (some zero_level) (entries p.levels));
    system = some (check_system p.system);
  })

-- ApplyAPI
abbrev pub api_config : ApiConfig
api_config = record {
  services = "HandlerService" ∷ "LoggerService" ∷ "StatsService" ∷ [];
  tag = "API";
}

abbrev pub api_inbound : ℕ → Inbound
api_inbound port = record {
  tag = "API_INBOUND";
  listen = "127.0.0.1";
  port = some (int_port port);
  protocol = "dokodemo-door";
  settings = some (("address", json (text "127.0.0.1")) ∷ []);
  stream_settings = end;
  sniffing = none;
  allocation = end;
  exclude = false;
}

abbrev pub api_rule : Json
api_rule = object (
    field "inboundTag" (array (cons (text "API_INBOUND") nil)) (
      field "outboundTag" (text "API")
        (field "source" (array (cons (text "127.0.0.1") nil)) (field "type" (text "field") end))))

-- The rules after `RuleList, err = filterRules(...)`: nil beside an error, which the next
-- assignment to `err` overwrites.
unfoldable pub kept_rules : Result (List Json) → List Json
kept_rules (ok rules) = rules
kept_rules _ = []

abbrev pub router_of : Option RouterConfig → RouterConfig
router_of none = record { rule_list = []; other = end }
router_of (some r) = r

unfoldable pub apply_api : Config → ℕ → Result Config
unfolding remove_api_inbound filter_rules kept_rules check_policy
apply_api c port = do
  inbounds ← remove_api_inbound c.inbounds
  let router = router_of c.router_config
  let rules = kept_rules (filter_rules router.rule_list "API")
  policy ← check_policy c.policy
  ok (record c {
    api = some api_config;
    router_config = some (record router { rule_list = api_rule ∷ rules });
    policy = some policy;
    inbounds = api_inbound port ∷ inbounds;
  })

-- RemoveLogFiles, on a configuration with a log section
unfoldable pub remove_log_files : LogConfig → LogConfig × String × String
remove_log_files l = (record l { access_log = ""; error_log = "" }, l.access_log, l.error_log)

-- The loop of NewXRayConfig over the decoded inbounds, of which a pointer may be nil.
unfoldable pub mark_excluded : List String → List (Option Inbound) → Result (List Inbound)
unfolding mem
mark_excluded exclude [] = ok []
mark_excluded exclude (none ∷ is) = panic
mark_excluded exclude (some i ∷ is) = do
  rest ← mark_excluded exclude is
  ok ((if mem exclude i.tag then record i { exclude = true } else i) ∷ rest)
