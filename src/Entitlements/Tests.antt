-- ===== src/Entitlements/Tests.antt =====
-- apps/api/src/core/entitlements on a small workspace.
use merchant_operations_plat.Entitlements.Capabilities.{
  granted_after, effective_capabilities_per_key,
}
use merchant_operations_plat.Entitlements.InForce.{AreInForce}
use merchant_operations_plat.Prelude.{
  ◌≡◌, ◌↔◌, true, false, none, some, List, [], ◌∷◌, filter, contains,
}
use merchant_operations_plat.Prelude.Int.{pos}
use merchant_operations_plat.Entitlements.Access.{
  basic, pro, active, AccessRequirement, AccessFacts, evaluate_access, allowed,
}
use merchant_operations_plat.Entitlements.Effective.{
  EffectiveLimit, from_package, TargetOverride, add, limit, capability, get_limit, effective_limits,
  effective_capabilities,
}
use merchant_operations_plat.Entitlements.Granted.{Granted, evaluate_access_iff}
use merchant_operations_plat.Entitlements.PerKey.{
  revised_by, last_for, names, effective_limits_per_key,
}

abbrev pub sample_facts : AccessFacts
sample_facts = record {
  all_locations = false;
  capabilities = some (5 ∷ []);
  feature_flags = none;
  installation = some active;
  limit = some (record { limit = some (pos 3); usage = pos 2 });
  location = some (record { is_active = true; in_scope = true });
  membership_active = true;
  module_fact = some (record { entitled = true; tier = some pro });
  permission_keys = 7 ∷ [];
  subscription_usable = true;
}

abbrev pub sample_requirement : AccessRequirement
sample_requirement = record {
  all_locations = false;
  capability = some 5;
  feature_flag = none;
  limit_dimension = some 9;
  minimum_tier = some basic;
  module_key = some 1;
  permission = some 7;
}

evaluate_access_iff_example :
    (evaluate_access sample_facts sample_requirement ≡ allowed)
    ↔ Granted sample_facts sample_requirement
evaluate_access_iff_example = evaluate_access_iff sample_facts sample_requirement

abbrev pub sample_limit : EffectiveLimit
sample_limit = record {
  dimension_key = 9;
  unlimited = false;
  value = some (pos 3);
  source = from_package;
}

abbrev pub sample_override : TargetOverride
sample_override = record {
  effective_at = 1;
  ends_at = none;
  operation = add;
  target_key = 9;
  target_type = limit;
  value = some (pos 2);
}

effective_limits_per_key_example :
    (os : List TargetOverride) × AreInForce (sample_override ∷ []) limit 4 os
    × (get_limit 9 (effective_limits (sample_limit ∷ []) (sample_override ∷ []) 4)
        ≡ revised_by (filter (names 9) os) (last_for 9 (sample_limit ∷ []) none))
effective_limits_per_key_example =
    effective_limits_per_key 9 (sample_limit ∷ []) (sample_override ∷ []) 4

-- The tier gives 5 and 6, the package takes 6 away.
effective_capabilities_per_key_example :
    (os : List TargetOverride) × AreInForce [] capability 4 os
    × (contains 6 (
          effective_capabilities
            (record { capability_key = 6; included = false } ∷ [])
            []
            4
            (5 ∷ 6 ∷ []))
        ≡ granted_after (filter (names 6) os) false)
effective_capabilities_per_key_example =
    effective_capabilities_per_key 6 (record { capability_key = 6; included = false } ∷ []) [] 4
      (5 ∷ 6 ∷ [])
