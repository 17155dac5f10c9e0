-- ===== src/Entitlements/Granted.antt =====
-- apps/api/src/core/entitlements/access-evaluator.ts: what an allowed request has.
use merchant_operations_plat.Prelude.{
  ◌≡◌, ◌↔◌, ◌⊎◌, refl, arith, ◌≤◌, Bool, true, false, not, ◌&&◌, Option, none, some, Uuid, contains,
}
use merchant_operations_plat.Prelude.Int.{ℤ, ◌<ℤ◌}
use merchant_operations_plat.Entitlements.Access.{
  ModuleTier, tier_rank, InstallationStatus, active, AccessRequirement, AccessFacts, ModuleFact,
  LimitFact, LocationFact, AccessDenial, AccessDecision, allowed, denied, ◌and_then◌, deny_if,
  check_module, check_entitled, check_installation, check_tier, check_capability, check_permission,
  check_location, check_flag, check_limit, check_usage, has_key, flag_is_on, evaluate_access,
  workspace_access_denied, subscription_suspended, location_scope_denied, module_not_entitled,
}

abbrev pub TierSuffices : Option ModuleTier → Option ModuleTier → Type 0
TierSuffices none tier = Unit
TierSuffices (some least) none = ⊥
TierSuffices (some least) (some tier) = tier_rank least ≤ tier_rank tier

abbrev pub IsInstalled : Option InstallationStatus → Type 0
IsInstalled installation = (installation ≡ none) ⊎ (installation ≡ some active)

abbrev pub IsEntitled : Option InstallationStatus → Option ModuleTier → Option ModuleFact → Type 0
IsEntitled installation least none = ⊥
IsEntitled installation least (some m) =
    (m.entitled ≡ true) × (IsInstalled installation × TierSuffices least m.tier)

abbrev pub ModuleGranted : AccessFacts → Option ModuleTier → Option Uuid → Type 0
ModuleGranted facts least none = Unit
ModuleGranted facts least (some key) = IsEntitled facts.installation least facts.module_fact

-- A key that is asked for passes its test.
abbrev pub IfAsked : Option Uuid → (Uuid → Bool) → Type 0
IfAsked none test = Unit
IfAsked (some key) test = test key ≡ true

abbrev pub InScope : Option LocationFact → Type 0
InScope none = Unit
InScope (some l) = (l.is_active ≡ true) × (l.in_scope ≡ true)

abbrev pub Below : ℤ → Option ℤ → Type 0
Below usage none = Unit
Below usage (some most) = usage <ℤ most

abbrev pub BelowLimit : Option LimitFact → Option Uuid → Type 0
BelowLimit fact none = Unit
BelowLimit none (some dimension) = Unit
BelowLimit (some fact) (some dimension) = Below fact.usage fact.limit

-- Everything that a request needs, whatever order it is asked in.
abbrev pub Granted : AccessFacts → AccessRequirement → Type 0
Granted facts r =
    (facts.membership_active ≡ true)
    × ((facts.subscription_usable ≡ true)
        × (ModuleGranted facts r.minimum_tier r.module_key
            × (IfAsked r.capability (λ key. has_key key facts.capabilities)
                × (IfAsked r.permission (λ key. contains key facts.permission_keys)
                    × (InScope facts.location
                        × (((r.all_locations ≡ false) ⊎ (facts.all_locations ≡ true))
                            × (IfAsked r.feature_flag (λ key. flag_is_on key facts.feature_flags)
                                × BelowLimit facts.limit r.limit_dimension)))))))

and_then_iff : (a b : AccessDecision) → ((a and_then b) ≡ allowed) ↔ (a ≡ allowed) × (b ≡ allowed)
and_then_iff allowed b = (λ h. (refl, h), λ h. h.1)
and_then_iff (denied reason) b = (λ h. cc, λ h. cc)

-- Checks one after the other.
both :
    {P Q : Type 0} {a b : AccessDecision}
    → (a ≡ allowed) ↔ P
    → (b ≡ allowed) ↔ Q
    → ((a and_then b) ≡ allowed) ↔ P × Q
both {P} {Q} {a} {b} f g = (
  λ h. let (x, y) = (and_then_iff a b).0 h in (f.0 x, g.0 y),
  λ h. (and_then_iff a b).1 (f.1 h.0, g.1 h.1),
)

deny_if-not_iff :
    (b : Bool) (reason : AccessDenial) → (deny_if (not b) reason ≡ allowed) ↔ (b ≡ true)
deny_if-not_iff b reason = ground arith

deny_unless_iff :
    (asked has : Bool) (reason : AccessDenial)
    → (deny_if (asked && not has) reason ≡ allowed) ↔ (asked ≡ false) ⊎ (has ≡ true)
deny_unless_iff asked has reason = ground arith

check_installation_iff :
    (key : Uuid) (i : Option InstallationStatus)
    → (check_installation key i ≡ allowed) ↔ IsInstalled i
unfolding check_installation
check_installation_iff key i = ground arith

check_tier_iff :
    (key : Uuid) (least tier : Option ModuleTier)
    → (check_tier key least tier ≡ allowed) ↔ TierSuffices least tier
unfolding check_tier
check_tier_iff key none tier = ground arith
check_tier_iff key (some least) none = ground arith
check_tier_iff key (some least) (some tier) = ground arith

check_entitled_iff :
    (key : Uuid) (i : Option InstallationStatus) (least : Option ModuleTier) (m : Option ModuleFact)
    → (check_entitled key i least m ≡ allowed) ↔ IsEntitled i least m
unfolding check_entitled
check_entitled_iff key i least none = ground arith
check_entitled_iff key i least (some m) =
    both (deny_if-not_iff m.entitled (module_not_entitled key))
      (both (check_installation_iff key i) (check_tier_iff key least m.tier))

check_module_iff :
    (facts : AccessFacts) (least : Option ModuleTier) (key : Option Uuid)
    → (check_module facts least key ≡ allowed) ↔ ModuleGranted facts least key
unfolding check_module
check_module_iff facts least none = ground arith
check_module_iff facts least (some key) =
    check_entitled_iff key facts.installation least facts.module_fact

check_capability_iff :
    (facts : AccessFacts) (key : Option Uuid)
    → (check_capability facts key ≡ allowed) ↔ IfAsked key (λ k. has_key k facts.capabilities)
unfolding check_capability
check_capability_iff facts none = ground arith
check_capability_iff facts (some key) = ground arith

check_permission_iff :
    (facts : AccessFacts) (key : Option Uuid)
    → (check_permission facts key ≡ allowed) ↔ IfAsked key (λ k. contains k facts.permission_keys)
unfolding check_permission
check_permission_iff facts none = ground arith
check_permission_iff facts (some key) = ground arith

check_location_iff : (l : Option LocationFact) → (check_location l ≡ allowed) ↔ InScope l
unfolding check_location
check_location_iff none = ground arith
check_location_iff (some l) = ground arith

check_flag_iff :
    (facts : AccessFacts) (key : Option Uuid)
    → (check_flag facts key ≡ allowed) ↔ IfAsked key (λ k. flag_is_on k facts.feature_flags)
unfolding check_flag
check_flag_iff facts none = ground arith
check_flag_iff facts (some key) = ground arith

check_usage_iff :
    (dimension : Uuid) (usage : ℤ) (most : Option ℤ)
    → (check_usage dimension usage most ≡ allowed) ↔ Below usage most
unfolding check_usage
check_usage_iff dimension usage none = ground arith
check_usage_iff dimension usage (some most) = ground arith

check_limit_iff :
    (fact : Option LimitFact) (dimension : Option Uuid)
    → (check_limit fact dimension ≡ allowed) ↔ BelowLimit fact dimension
unfolding check_limit
check_limit_iff fact none = ground arith
check_limit_iff none (some dimension) = ground arith
check_limit_iff (some fact) (some dimension) = check_usage_iff dimension fact.usage fact.limit

-- A request is allowed exactly when all that it asks for is granted: membership, subscription,
-- module with installation and tier, capability, permission, location, feature flag and limit.
pub evaluate_access_iff :
    (facts : AccessFacts) (requirement : AccessRequirement)
    → (evaluate_access facts requirement ≡ allowed) ↔ Granted facts requirement
unfolding evaluate_access
evaluate_access_iff facts r =
    both (deny_if-not_iff facts.membership_active workspace_access_denied) (
      both (deny_if-not_iff facts.subscription_usable subscription_suspended) (
        both (check_module_iff facts r.minimum_tier r.module_key) (
          both (check_capability_iff facts r.capability) (
            both (check_permission_iff facts r.permission) (
              both (check_location_iff facts.location) (
                both (deny_unless_iff r.all_locations facts.all_locations location_scope_denied) (
                  both (check_flag_iff facts r.feature_flag)
                    (check_limit_iff facts.limit r.limit_dimension))))))))
