-- ===== src/Entitlements/Effective.antt =====
-- apps/api/src/core/entitlements/effective-entitlements.ts: what a package and its overrides give.
-- Sets and maps are lists in the order of insertion; the order of the answer, which `sort` gives
-- it, is not modelled.
use merchant_operations_plat.Prelude.{
  Bool, true, false, not, ◌&&◌, Option, none, some, List, [], ◌∷◌, ◌++◌, Uuid, Instant, contains,
  filter, leb, ltb, ◌==◌, if◌then◌else◌,
}
use merchant_operations_plat.Prelude.Int.{ℤ, pos, ◌+ℤ◌}

pub record PackageCapability : Type 0 where
  pub capability_key : Uuid
  pub included : Bool

pub data LimitSource : Type 0 where
  from_override from_package : LimitSource

-- `EffectiveLimit`; a limit of the package has the source `from_package`.
pub record EffectiveLimit : Type 0 where
  pub dimension_key : Uuid
  pub unlimited : Bool
  pub value : Option ℤ
  pub source : LimitSource

pub data Operation : Type 0 where
  add grant replace revoke : Operation

pub data TargetType : Type 0 where
  capability limit : TargetType

pub record TargetOverride : Type 0 where
  pub effective_at : Instant
  pub ends_at : Option Instant
  pub operation : Operation
  pub target_key : Uuid
  pub target_type : TargetType
  pub value : Option ℤ

abbrev pub same_type : TargetType → TargetType → Bool
same_type capability capability = true
same_type limit limit = true
same_type _ _ = false

abbrev pub not_ended : Instant → Option Instant → Bool
not_ended now none = true
not_ended now (some ends) = ltb now ends

abbrev pub is_in_force : TargetType → Instant → TargetOverride → Bool
is_in_force type now o =
    same_type o.target_type type && (leb o.effective_at now && not_ended now o.ends_at)

-- A stable sort by the start, as `sort` is.
unfoldable pub insert_by_start : TargetOverride → List TargetOverride → List TargetOverride
insert_by_start o [] = o ∷ []
insert_by_start o (p ∷ ps) =
    let rest = insert_by_start o ps in
    if leb o.effective_at p.effective_at then o ∷ p ∷ ps else p ∷ rest

unfoldable pub sort_by_start : List TargetOverride → List TargetOverride
sort_by_start [] = []
sort_by_start (o ∷ os) = insert_by_start o (sort_by_start os)

unfoldable pub in_force : List TargetOverride → TargetType → Instant → List TargetOverride
in_force overrides type now = sort_by_start (filter (is_in_force type now) overrides)

-- `set.add(key)`, `set.delete(key)`
abbrev pub add_key : Uuid → List Uuid → List Uuid
add_key key keys = if contains key keys then keys else keys ++ key ∷ []

abbrev pub delete_key : Uuid → List Uuid → List Uuid
delete_key key keys = filter (λ k. not (k == key)) keys

abbrev pub apply_package : List PackageCapability → List Uuid → List Uuid
apply_package [] keys = keys
apply_package (c ∷ cs) keys =
    apply_package cs
      (if c.included then add_key c.capability_key keys else delete_key c.capability_key keys)

abbrev pub grant_or_revoke : TargetOverride → Operation → List Uuid → List Uuid
grant_or_revoke o grant keys = add_key o.target_key keys
grant_or_revoke o revoke keys = delete_key o.target_key keys
grant_or_revoke o _ keys = keys

abbrev pub apply_grants : List TargetOverride → List Uuid → List Uuid
apply_grants [] keys = keys
apply_grants (o ∷ os) keys = apply_grants os (grant_or_revoke o o.operation keys)

abbrev pub to_key_set : List Uuid → List Uuid → List Uuid
to_key_set seen [] = seen
to_key_set seen (k ∷ ks) = to_key_set (add_key k seen) ks

unfoldable pub effective_capabilities :
    List PackageCapability → List TargetOverride → Instant → List Uuid → List Uuid
unfolding in_force sort_by_start insert_by_start
effective_capabilities package_capabilities overrides now tier_defaults =
    apply_grants (in_force overrides capability now)
      (apply_package package_capabilities (to_key_set [] tier_defaults))

-- `limits.get(key)`
abbrev pub get_limit : Uuid → List EffectiveLimit → Option EffectiveLimit
get_limit key [] = none
get_limit key (l ∷ ls) = if l.dimension_key == key then some l else get_limit key ls

-- `limits.set(l.dimensionKey, l)`
abbrev pub set_limit : EffectiveLimit → List EffectiveLimit → List EffectiveLimit
set_limit l [] = l ∷ []
set_limit l (m ∷ ms) =
    let rest = set_limit l ms in if m.dimension_key == l.dimension_key then l ∷ ms else m ∷ rest

abbrev pub is_unlimited : Option EffectiveLimit → Bool
is_unlimited none = false
is_unlimited (some l) = l.unlimited

-- `current?.value ?? 0n`
abbrev pub value_or_zero : Option ℤ → ℤ
value_or_zero none = pos 0
value_or_zero (some v) = v

abbrev pub current_value : Option EffectiveLimit → ℤ
current_value none = pos 0
current_value (some l) = value_or_zero l.value

abbrev pub overridden : Uuid → ℤ → EffectiveLimit
overridden key value = record {
  dimension_key = key;
  source = from_override;
  unlimited = false;
  value = some value;
}

-- The limit that an override sets, where it sets one.
abbrev pub new_limit :
    TargetOverride → Operation → Option ℤ → Option EffectiveLimit → Option EffectiveLimit
new_limit o operation none current = none
new_limit o replace (some value) current = some (overridden o.target_key value)
new_limit o add (some value) current =
    if is_unlimited current
    then none
    else some (overridden o.target_key (current_value current +ℤ value))
new_limit o _ (some value) current = none

abbrev pub put_limit : Option EffectiveLimit → List EffectiveLimit → List EffectiveLimit
put_limit none limits = limits
put_limit (some l) limits = set_limit l limits

abbrev pub apply_override : TargetOverride → List EffectiveLimit → List EffectiveLimit
apply_override o limits =
    put_limit (new_limit o o.operation o.value (get_limit o.target_key limits)) limits

abbrev pub apply_overrides : List TargetOverride → List EffectiveLimit → List EffectiveLimit
apply_overrides [] limits = limits
apply_overrides (o ∷ os) limits = apply_overrides os (apply_override o limits)

abbrev pub to_limit_map : List EffectiveLimit → List EffectiveLimit → List EffectiveLimit
to_limit_map seen [] = seen
to_limit_map seen (l ∷ ls) = to_limit_map (set_limit l seen) ls

unfoldable pub effective_limits :
    List EffectiveLimit → List TargetOverride → Instant → List EffectiveLimit
unfolding in_force sort_by_start insert_by_start
effective_limits package_limits overrides now =
    apply_overrides (in_force overrides limit now) (to_limit_map [] package_limits)
