-- ===== src/Xray/Config/Counting.antt =====
-- checkPolicy of backend/xray/config.go: the statistics that it switches on, and what it leaves.
use node_nats.Prelude.{
  ℕ, ◌≡◌, refl, ◌≢◌, ◌∙◌, Option, none, some, List, [], ◌∷◌, true, arith, ◌==◌, if◌then◌else◌, ok,
  ◌>>=◌,
}
use node_nats.Xray.Config.{
  Policy, SystemPolicy, PolicyConfig, default_level, entries, level, set_level, check_level,
  check_system, check_policy,
}

level-set_level :
    (k j : ℕ) (p : Option Policy) (m : List (ℕ × Option Policy))
    → level j (set_level k p m) ≡ (if k == j then some p else level j m)
unfolding level set_level
level-set_level k j p [] = refl
level-set_level k j p ((i, q) ∷ m) = ground (arith, level-set_level k j p m)

set_level_twice :
    (k : ℕ) (p : Option Policy) (m : List (ℕ × Option Policy))
    → set_level k p (set_level k p m) ≡ set_level k p m
unfolding set_level
set_level_twice k p [] = ground arith
set_level_twice k p ((i, q) ∷ m) = ground (arith, set_level_twice k p m)

-- The levels that a policy section names, none where it is absent.
abbrev pub levels_of : Option PolicyConfig → List (ℕ × Option Policy)
levels_of none = []
levels_of (some p) = entries p.levels

abbrev pub system_of : Option PolicyConfig → Option SystemPolicy
system_of none = none
system_of (some p) = p.system

-- The pointer of level 0 is not a nil beside its key.
abbrev pub HasLevel : Option PolicyConfig → Type 0
HasLevel policy = level 0 (levels_of policy) ≢ some none

-- What checkPolicy answers for level 0.
abbrev pub IsCounted : Policy → Type 0
IsCounted z = (z.stats_user_uplink ≡ true) × (z.stats_user_downlink ≡ true)

check_policy_lem :
    (policy : Option PolicyConfig)
    → check_policy policy ≡ (
        check_level (level 0 (levels_of policy)) >>= λ z. ok (record {
          levels = some (set_level 0 (some z) (levels_of policy));
          system = some (check_system (system_of policy));
        }))
unfolding check_policy
check_policy_lem none = refl
check_policy_lem (some p) = refl

check_level-IsCounted :
    (o : Option (Option Policy))
    → o ≢ some none
    → (z : Policy) × (check_level o ≡ ok z) × IsCounted z × (check_level (some (some z)) ≡ ok z)
unfolding check_level
check_level-IsCounted none h = (default_level, refl, (refl, refl), refl)
check_level-IsCounted (some none) h = absurd (h refl)
check_level-IsCounted (some (some z)) h =
    (record z { stats_user_downlink = true; stats_user_uplink = true }, refl, (refl, refl), refl)

check_system_twice :
    (o : Option SystemPolicy) → check_system (some (check_system o)) ≡ check_system o
unfolding check_system
check_system_twice none = refl
check_system_twice (some s) = refl

check_system-counts :
    (o : Option SystemPolicy)
    → ((check_system o).stats_outbound_uplink ≡ true)
      × ((check_system o).stats_outbound_downlink ≡ true)
unfolding check_system
check_system-counts none = (refl, refl)
check_system-counts (some s) = (refl, refl)

-- The checked policy, from the one in the configuration.
pub record IsChecked (policy : Option PolicyConfig) (p : PolicyConfig) : Type 0 where
  pub zero_level : Policy
  pub system : SystemPolicy
  pub counted : IsCounted zero_level
  pub levels :
      (j : ℕ)
      → level j (entries p.levels)
        ≡ (if 0 == j then some (some zero_level) else level j (levels_of policy))
  pub has_system : p.system ≡ some system
  pub outbound : (system.stats_outbound_uplink ≡ true) × (system.stats_outbound_downlink ≡ true)
  pub stable : check_policy (some p) ≡ ok p

-- checkPolicy returns where the pointer of level 0 is not nil: level 0 then counts the traffic of users,
-- the other levels are as they were, the system section counts outbound traffic, and checking the
-- result once more changes nothing.
pub check_policy-IsChecked :
    (policy : Option PolicyConfig)
    → HasLevel policy
    → (p : PolicyConfig) × (check_policy policy ≡ ok p) × IsChecked policy p
check_policy-IsChecked policy h =
    let (z, run, counted, again) = check_level-IsCounted (level 0 (levels_of policy)) h in
    let m = levels_of policy in
    let p : PolicyConfig = record {
      levels = some (set_level 0 (some z) m);
      system = some (check_system (system_of policy));
    } in
    (
      p,
      check_policy_lem policy ∙ rw run refl,
      record {
        zero_level = z;
        system = check_system (system_of policy);
        counted = counted;
        levels = λ j. level-set_level 0 j (some z) m;
        has_system = refl;
        outbound = check_system-counts (system_of policy);
        stable =
            check_policy_lem (some p)
            ∙ simp (level-set_level, again, set_level_twice, check_system_twice);
      },
    )
