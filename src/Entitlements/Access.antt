-- ===== src/Entitlements/Access.antt =====
-- apps/api/src/core/entitlements/access-evaluator.ts: whether a request is allowed. Keys of
-- modules, capabilities, permissions and flags are identifiers; `failed` is the status `ERROR`.
use merchant_operations_plat.Prelude.{
  ℕ, Bool, true, false, not, ◌&&◌, Option, none, some, List, [], ◌∷◌, Uuid, contains, ltb, ◌==◌,
  if◌then◌else◌,
}
use merchant_operations_plat.Prelude.Int.{ℤ, leb_ℤ}

pub data ModuleTier : Type 0 where
  basic pro advanced : ModuleTier

pub data InstallationStatus : Type 0 where
  active failed not_installed provisioning setup_required suspended : InstallationStatus

-- `TIER_RANK`
abbrev pub tier_rank : ModuleTier → ℕ
tier_rank advanced = 3
tier_rank basic = 1
tier_rank pro = 2

-- A field is none where the route does not ask for it.
pub record AccessRequirement : Type 0 where
  pub all_locations : Bool
  pub capability : Option Uuid
  pub feature_flag : Option Uuid
  pub limit_dimension : Option Uuid
  pub minimum_tier : Option ModuleTier
  pub module_key : Option Uuid
  pub permission : Option Uuid

pub record LimitFact : Type 0 where
  pub limit : Option ℤ
  pub usage : ℤ

pub record LocationFact : Type 0 where
  pub is_active : Bool
  pub in_scope : Bool

pub record ModuleFact : Type 0 where
  pub entitled : Bool
  pub tier : Option ModuleTier

pub record AccessFacts : Type 0 where
  pub all_locations : Bool
  pub capabilities : Option (List Uuid)
  pub feature_flags : Option (List (Uuid × Bool))
  pub installation : Option InstallationStatus
  pub limit : Option LimitFact
  pub location : Option LocationFact
  pub membership_active : Bool
  pub module_fact : Option ModuleFact
  pub permission_keys : List Uuid
  pub subscription_usable : Bool

-- `AccessDenialCode`, each with the details of its answer.
pub data AccessDenial : Type 0 where
  workspace_access_denied subscription_suspended permission_denied location_scope_denied :
      AccessDenial
  module_not_entitled capability_not_entitled feature_disabled : Uuid → AccessDenial
  installation_setup_required : InstallationStatus → Uuid → AccessDenial
  tier_upgrade_required : Uuid → ModuleTier → AccessDenial
  limit_reached : Uuid → ℤ → ℤ → AccessDenial

pub data AccessDecision : Type 0 where
  allowed : AccessDecision
  denied : AccessDenial → AccessDecision

-- An early return: a refusal ends the evaluation.
infixr 20 ◌and_then◌
abbrev pub ◌and_then◌ : AccessDecision → AccessDecision → AccessDecision
allowed and_then next = next
denied reason and_then next = denied reason

abbrev pub deny_if : Bool → AccessDenial → AccessDecision
deny_if true reason = denied reason
deny_if false reason = allowed

unfoldable pub check_installation : Uuid → Option InstallationStatus → AccessDecision
check_installation key none = allowed
check_installation key (some active) = allowed
check_installation key (some status) = denied (installation_setup_required status key)

unfoldable pub check_tier : Uuid → Option ModuleTier → Option ModuleTier → AccessDecision
check_tier key none tier = allowed
check_tier key (some least) none = denied (tier_upgrade_required key least)
check_tier key (some least) (some tier) =
    deny_if (ltb (tier_rank tier) (tier_rank least)) (tier_upgrade_required key least)

unfoldable pub check_entitled :
    Uuid → Option InstallationStatus → Option ModuleTier → Option ModuleFact → AccessDecision
unfolding check_installation check_tier
check_entitled key installation least none = denied (module_not_entitled key)
check_entitled key installation least (some m) =
    deny_if (not m.entitled) (module_not_entitled key)
    and_then check_installation key installation
    and_then check_tier key least m.tier

unfoldable pub check_module : AccessFacts → Option ModuleTier → Option Uuid → AccessDecision
unfolding check_entitled
check_module facts least none = allowed
check_module facts least (some key) = check_entitled key facts.installation least facts.module_fact

-- `facts.capabilities?.has(key)`
abbrev pub has_key : Uuid → Option (List Uuid) → Bool
has_key key none = false
has_key key (some keys) = contains key keys

unfoldable pub check_capability : AccessFacts → Option Uuid → AccessDecision
check_capability facts none = allowed
check_capability facts (some key) =
    deny_if (not (has_key key facts.capabilities)) (capability_not_entitled key)

unfoldable pub check_permission : AccessFacts → Option Uuid → AccessDecision
check_permission facts none = allowed
check_permission facts (some key) =
    deny_if (not (contains key facts.permission_keys)) permission_denied

unfoldable pub check_location : Option LocationFact → AccessDecision
check_location none = allowed
check_location (some l) = deny_if (not (l.is_active && l.in_scope)) location_scope_denied

-- `flags.get(key) === true`
abbrev pub is_on : Uuid → List (Uuid × Bool) → Bool
is_on key [] = false
is_on key ((k, on) ∷ rest) = if k == key then on else is_on key rest

abbrev pub flag_is_on : Uuid → Option (List (Uuid × Bool)) → Bool
flag_is_on key none = false
flag_is_on key (some flags) = is_on key flags

unfoldable pub check_flag : AccessFacts → Option Uuid → AccessDecision
check_flag facts none = allowed
check_flag facts (some key) =
    deny_if (not (flag_is_on key facts.feature_flags)) (feature_disabled key)

unfoldable pub check_usage : Uuid → ℤ → Option ℤ → AccessDecision
check_usage dimension usage none = allowed
check_usage dimension usage (some most) =
    deny_if (leb_ℤ most usage) (limit_reached dimension most usage)

unfoldable pub check_limit : Option LimitFact → Option Uuid → AccessDecision
unfolding check_usage
check_limit fact none = allowed
check_limit none (some dimension) = allowed
check_limit (some fact) (some dimension) = check_usage dimension fact.usage fact.limit

unfoldable pub evaluate_access : AccessFacts → AccessRequirement → AccessDecision
unfolding check_module check_capability check_permission check_location check_flag check_limit
evaluate_access facts requirement =
    deny_if (not facts.membership_active) workspace_access_denied
    and_then deny_if (not facts.subscription_usable) subscription_suspended
    and_then check_module facts requirement.minimum_tier requirement.module_key
    and_then check_capability facts requirement.capability
    and_then check_permission facts requirement.permission
    and_then check_location facts.location
    and_then deny_if (requirement.all_locations && not facts.all_locations) location_scope_denied
    and_then check_flag facts requirement.feature_flag
    and_then check_limit facts.limit requirement.limit_dimension
