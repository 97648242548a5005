-- ===== src/Xray/Config/Api.antt =====
-- ApplyAPI of backend/xray/config.go: the configuration that the core is started with.
use node_nats.Prelude.{
  ℕ, String, ◌≡◌, refl, ◌≢◌, ◌⊎◌, inl, inr, ap, sym, ◌∙◌, none, some, List, [], ◌∷◌, ◌++◌, Bool,
  true, false, not, arith, keep_if, All, ok, fail,
}
use node_nats.Xray.Flow.{Json, member}
use node_nats.Xray.Inbound.{Inbound}
use node_nats.Xray.Config.{
  Config, PolicyConfig, rule_tag, has_tag, filter_rules, is_api, remove_api_inbound, check_policy,
  api_config, api_inbound, api_rule, kept_rules, router_of, apply_api,
}
use node_nats.Xray.Config.Removal.{NoApi, remove_api_inbound-one, remove_api_inbound-none}
use node_nats.Xray.Config.Counting.{HasLevel, IsChecked, check_policy-IsChecked}

-- A rule that decodes into a map.
abbrev pub IsRule : Json → Type 0
IsRule raw = rule_tag raw ≢ none

-- A rule for the outbound of a tag.
abbrev pub routes_to : String → Json → Bool
routes_to tag raw = elim (rule_tag raw) [ none ↦ false | some value ↦ has_tag tag value ]

module _ (tag : String) where
  -- Where every rule decodes into a map, the rules for the tag are dropped and the others stay, in
  -- their order.
  pub filter_rules-keep_if :
      (rules : List Json)
      → All IsRule rules
      → filter_rules rules tag ≡ ok (keep_if (λ r. not (routes_to tag r)) rules)
  unfolding filter_rules
  filter_rules-keep_if [] h = refl
  filter_rules-keep_if (raw ∷ rules) (one, h) = ground (arith, filter_rules-keep_if rules h)

  keep_if-IsRule :
      (rules : List Json)
      → All IsRule rules
      → All IsRule (keep_if (λ r. not (routes_to tag r)) rules)
  keep_if-IsRule [] h = tt
  keep_if-IsRule (raw ∷ rules) (one, h) = ground (arith, keep_if-IsRule rules h)

  keep_if_twice :
      (rules : List Json)
      → keep_if (λ r. not (routes_to tag r)) (keep_if (λ r. not (routes_to tag r)) rules)
        ≡ keep_if (λ r. not (routes_to tag r)) rules
  keep_if_twice [] = refl
  keep_if_twice (raw ∷ rules) = ground (arith, keep_if_twice rules)

  -- One rule that is no map makes the filter fail, whatever the others are.
  filter_rules-fail :
      (pre : List Json) (raw : Json) (rules : List Json)
      → rule_tag raw ≡ none
      → filter_rules (pre ++ raw ∷ rules) tag ≡ fail "invalid JSON in rule"
  unfolding filter_rules
  filter_rules-fail [] raw rules h = rw (h, filter_rules)
  filter_rules-fail (r ∷ pre) raw rules h = ground (arith, filter_rules-fail pre raw rules h)

-- At most one inbound of the API's tag.
abbrev pub AtMostOneApi : List Inbound → Type 0
AtMostOneApi inbounds =
    NoApi inbounds
    ⊎ ((pre : List Inbound) × (a : Inbound) × (ys : List Inbound) × (inbounds ≡ pre ++ a ∷ ys)
        × (is_api a ≡ true)
        × NoApi pre
        × NoApi ys)

abbrev pub without_api : List Inbound → List Inbound
without_api = keep_if (λ i. not (is_api i))

keep_if-NoApi : (xs : List Inbound) → NoApi xs → without_api xs ≡ xs
keep_if-NoApi [] h = refl
keep_if-NoApi (x ∷ xs) (one, h) = rw (one, keep_if-NoApi xs h)

keep_if-one :
    (pre : List Inbound) (a : Inbound) (ys : List Inbound)
    → is_api a ≡ true
    → NoApi pre
    → NoApi ys
    → without_api (pre ++ a ∷ ys) ≡ pre ++ ys
keep_if-one [] a ys tag hp hy = rw (tag, keep_if-NoApi ys hy)
keep_if-one (p ∷ pre) a ys tag (one, hp) hy = rw (one, keep_if-one pre a ys tag hp hy)

-- On a list with at most one inbound of the API's tag, the removal loop of ApplyAPI, which shifts
-- the array that it walks over, does what a filter does.
pub remove_api_inbound-keep_if :
    (inbounds : List Inbound)
    → AtMostOneApi inbounds
    → remove_api_inbound inbounds ≡ ok (without_api inbounds)
remove_api_inbound-keep_if inbounds (inl h) =
    remove_api_inbound-none inbounds h ∙ ap ok (sym (keep_if-NoApi inbounds h))
remove_api_inbound-keep_if inbounds (inr (pre, a, ys, same, tag, hp, hy)) =
    rw same
      (remove_api_inbound-one pre a ys tag hp hy ∙ ap ok (sym (keep_if-one pre a ys tag hp hy)))

abbrev pub rules_of : Config → List Json
rules_of c = (router_of c.router_config).rule_list

-- What the loop, the filter and the policy check leave, put together as ApplyAPI does.
abbrev applied : Config → ℕ → List Inbound → List Json → PolicyConfig → Config
applied c port inbounds rules p = record c {
  api = some api_config;
  router_config = some (record (router_of c.router_config) { rule_list = api_rule ∷ rules });
  policy = some p;
  inbounds = api_inbound port ∷ inbounds;
}

apply_api-applied :
    (c : Config) (port : ℕ) (inbounds : List Inbound) (rules : List Json) (p : PolicyConfig)
    → remove_api_inbound c.inbounds ≡ ok inbounds
    → kept_rules (filter_rules (rules_of c) "API") ≡ rules
    → check_policy c.policy ≡ ok p
    → apply_api c port ≡ ok (applied c port inbounds rules p)
unfolding apply_api
apply_api-applied c port inbounds rules p e₁ e₂ e₃ = simp (e₁, e₂, e₃)

abbrev other_rules : Config → List Json
other_rules c = keep_if (λ r. not (routes_to "API" r)) (rules_of c)

pub record IsApplied (c : Config) (port : ℕ) (c' : Config) : Type 0 where
  pub inbounds : c'.inbounds ≡ api_inbound port ∷ without_api c.inbounds
  pub rules :
      c'.router_config
      ≡ some (record (router_of c.router_config) {
        rule_list = api_rule ∷ keep_if (λ r. not (routes_to "API" r)) (rules_of c);
      })
  pub api : c'.api ≡ some api_config
  pub checked : PolicyConfig
  pub policy : c'.policy ≡ some checked
  pub is_checked : IsChecked c.policy checked
  pub log_config : c'.log_config ≡ c.log_config
  pub other : c'.other ≡ c.other

kept_rules-ok : (rules : List Json) → kept_rules (ok rules) ≡ rules
unfolding kept_rules
kept_rules-ok rules = refl

kept_rules-fail : (message : String) → kept_rules (fail message) ≡ []
unfolding kept_rules
kept_rules-fail message = refl

api_rule-routes_to : routes_to "API" api_rule ≡ true
unfolding member
api_rule-routes_to = refl

NoApi-keep_if : (xs : List Inbound) → NoApi (without_api xs)
NoApi-keep_if [] = tt
NoApi-keep_if (x ∷ xs) = ground (arith, NoApi-keep_if xs)

-- Filtering the rules that ApplyAPI leaves drops the API's rule alone.
filter_again :
    (c : Config)
    → All IsRule (rules_of c)
    → kept_rules (filter_rules (api_rule ∷ other_rules c) "API") ≡ other_rules c
filter_again c rules =
    ap kept_rules (
      filter_rules-keep_if "API" (api_rule ∷ other_rules c)
        ((λ e. cc e), keep_if-IsRule "API" (rules_of c) rules))
    ∙ kept_rules-ok _
    ∙ rw api_rule-routes_to (keep_if_twice "API" (rules_of c))

module _ (c : Config) (port : ℕ) (one : AtMostOneApi c.inbounds) (level : HasLevel c.policy) where
  -- ApplyAPI returns on a configuration with at most one inbound of the API's tag, whose rules all
  -- decode into maps, and whose level 0 is no nil: the API's inbound comes first, before the others in
  -- their order; the API's rule comes first, before the rules that are not for the API's outbound; the
  -- policy is checked; the log section and the rest are as they were.
  pub apply_api-IsApplied :
      All IsRule (rules_of c) → (c' : Config) × (apply_api c port ≡ ok c') × IsApplied c port c'
  apply_api-IsApplied rules =
      let (p, run, checked) = check_policy-IsChecked c.policy level in
      let filtered =
        ap kept_rules (filter_rules-keep_if "API" (rules_of c) rules)
        ∙ kept_rules-ok (other_rules c) in
      (
        applied c port (without_api c.inbounds) (other_rules c) p,
        apply_api-applied c port _ _ p (remove_api_inbound-keep_if c.inbounds one) filtered run,
        record {
          inbounds = refl;
          rules = refl;
          api = refl;
          checked = p;
          policy = refl;
          is_checked = checked;
          log_config = refl;
          other = refl;
        },
      )

  -- Where one routing rule does not decode into a map (and at most one inbound has the API's tag, and level 0 is no nil),
  -- ApplyAPI still returns, and every routing rule of the configuration is gone: the error of filterRules is overwritten.
  pub apply_api_loses_rules :
      (pre : List Json) (raw : Json) (rest : List Json)
      → rules_of c ≡ pre ++ raw ∷ rest
      → rule_tag raw ≡ none
      → (c' : Config) × (apply_api c port ≡ ok c') × (rules_of c' ≡ api_rule ∷ [])
  apply_api_loses_rules pre raw rest same bad =
      let (p, run, checked) = check_policy-IsChecked c.policy level in
      let lost : kept_rules (filter_rules (rules_of c) "API") ≡ [] =
        rw (same, filter_rules-fail "API" pre raw rest bad) (kept_rules-fail _) in
      (
        applied c port (without_api c.inbounds) [] p,
        apply_api-applied c port _ _ p (remove_api_inbound-keep_if c.inbounds one) lost run,
        refl,
      )

  -- A second ApplyAPI, with another port, changes the port of the API's inbound and nothing else:
  -- no inbound, rule or policy is added twice.
  pub apply_api_again :
      (port' : ℕ)
      → All IsRule (rules_of c)
      → (c' : Config) × (apply_api c port ≡ ok c')
        × (apply_api c' port'
            ≡ ok (record c' { inbounds = api_inbound port' ∷ without_api c.inbounds }))
  apply_api_again port' rules =
      let (p, run, checked) = check_policy-IsChecked c.policy level in
      let filtered =
        ap kept_rules (filter_rules-keep_if "API" (rules_of c) rules)
        ∙ kept_rules-ok (other_rules c) in
      let kept = without_api c.inbounds in
      let c' = applied c port kept (other_rules c) p in
      let removed =
        remove_api_inbound-one [] (api_inbound port) kept refl tt (NoApi-keep_if c.inbounds) in
      (
        c',
        apply_api-applied c port kept _ p (remove_api_inbound-keep_if c.inbounds one) filtered run,
        apply_api-applied c' port' kept (other_rules c) p removed (filter_again c rules)
            checked.stable,
      )
