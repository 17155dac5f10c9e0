-- ===== src/Entitlements/Capabilities.antt =====
-- apps/api/src/core/entitlements/effective-entitlements.ts: who decides on one capability.
use merchant_operations_plat.Prelude.{
  ◌≡◌, refl, ap, sym, ◌∙◌, arith, inl, inr, Bool, true, false, ◌||◌, List, [], ◌∷◌, ◌++◌, Uuid,
  Instant, contains, filter, ◌==◌, if◌then◌else◌, Bool-cases,
}
use merchant_operations_plat.Entitlements.Effective.{
  PackageCapability, TargetOverride, capability, Operation, add, grant, replace, revoke, in_force,
  add_key, delete_key, apply_package, apply_grants, grant_or_revoke, to_key_set,
  effective_capabilities,
}
use merchant_operations_plat.Entitlements.PerKey.{names}
use merchant_operations_plat.Entitlements.InForce.{AreInForce, in_force-AreInForce}

-- The last entry of the package on a capability decides.
abbrev pub included_after : List PackageCapability → Bool → Bool
included_after [] has = has
included_after (c ∷ cs) has = included_after cs c.included

abbrev pub is_about : Uuid → PackageCapability → Bool
is_about key c = c.capability_key == key

abbrev pub granted_by : Operation → Bool → Bool
granted_by grant has = true
granted_by revoke has = false
granted_by _ has = has

abbrev pub granted_after : List TargetOverride → Bool → Bool
granted_after [] has = has
granted_after (o ∷ os) has = granted_after os (granted_by o.operation has)

contains-append :
    (key k : Uuid) (keys : List Uuid)
    → contains key (keys ++ k ∷ []) ≡ (contains key keys || k == key)
contains-append key k [] = ground arith
contains-append key k (x ∷ keys) = ground (arith, contains-append key k keys)

contains-same :
    (key k : Uuid) (keys : List Uuid) → (k == key) ≡ true → contains k keys ≡ contains key keys
contains-same key k keys h = let same : k ≡ key = ground arith in ap (λ x. contains x keys) same

contains-add_key :
    (key k : Uuid) (keys : List Uuid)
    → contains key (add_key k keys) ≡ (if k == key then true else contains key keys)
contains-add_key key k keys = elim (Bool-cases (contains k keys)) [
  | inl e ↦ elim (Bool-cases (k == key)) [
    | inl f ↦ rw e (rw f (sym (contains-same key k keys f) ∙ e))
    | inr f ↦ rw e (rw f refl)
  ]
  | inr e ↦ rw e (
      contains-append key k keys
      ∙ elim (Bool-cases (k == key)) [ inl f ↦ rw f (ground arith) | inr f ↦ rw f (ground arith) ])
]

contains-delete_key :
    (key k : Uuid) (keys : List Uuid)
    → contains key (delete_key k keys) ≡ (if k == key then false else contains key keys)
contains-delete_key key k [] = ground arith
contains-delete_key key k (x ∷ keys) = ground (arith, contains-delete_key key k keys)

contains-apply_package :
    (key : Uuid) (cs : List PackageCapability) (keys : List Uuid)
    → contains key (apply_package cs keys)
      ≡ included_after (filter (is_about key) cs) (contains key keys)
contains-apply_package key [] keys = refl
contains-apply_package key (c ∷ cs) keys = elim (Bool-cases c.included) [
  | inl e ↦ rw e (
      contains-apply_package key cs (add_key c.capability_key keys)
      ∙ ap (included_after (filter (is_about key) cs)) (contains-add_key key c.capability_key keys)
      ∙ elim (Bool-cases (is_about key c)) [ inl f ↦ rw f refl | inr f ↦ rw f refl ])
  | inr e ↦ rw e (
      contains-apply_package key cs (delete_key c.capability_key keys)
      ∙ ap (included_after (filter (is_about key) cs))
          (contains-delete_key key c.capability_key keys)
      ∙ elim (Bool-cases (is_about key c)) [ inl f ↦ rw f refl | inr f ↦ rw f refl ])
]

contains-grant_or_revoke :
    (key : Uuid) (o : TargetOverride) (operation : Operation) (keys : List Uuid)
    → contains key (grant_or_revoke o operation keys)
      ≡ (if names key o then granted_by operation (contains key keys) else contains key keys)
contains-grant_or_revoke key o grant keys = contains-add_key key o.target_key keys
contains-grant_or_revoke key o revoke keys = contains-delete_key key o.target_key keys
contains-grant_or_revoke key o add keys = ground arith
contains-grant_or_revoke key o replace keys = ground arith

contains-apply_grants :
    (key : Uuid) (os : List TargetOverride) (keys : List Uuid)
    → contains key (apply_grants os keys)
      ≡ granted_after (filter (names key) os) (contains key keys)
contains-apply_grants key [] keys = refl
contains-apply_grants key (o ∷ os) keys =
    contains-apply_grants key os (grant_or_revoke o o.operation keys)
    ∙ ap (granted_after (filter (names key) os)) (contains-grant_or_revoke key o o.operation keys)
    ∙ elim (Bool-cases (names key o)) [ inl f ↦ rw f refl | inr f ↦ rw f refl ]

contains-to_key_set :
    (key : Uuid) (seen ks : List Uuid)
    → contains key (to_key_set seen ks) ≡ (contains key seen || contains key ks)
contains-to_key_set key seen [] = ground arith
contains-to_key_set key seen (k ∷ ks) =
    contains-to_key_set key (add_key k seen) ks
    ∙ ap (λ b. b || contains key ks) (contains-add_key key k seen)
    ∙ elim (Bool-cases (k == key)) [ inl f ↦ rw f (ground arith) | inr f ↦ rw f (ground arith) ]

-- A capability is effective as the last override in force, by its start, that grants or revokes it
-- says; without
-- one, as the package's last entry on it says; and without that, where its tier gives it.
pub effective_capabilities_per_key :
    (key : Uuid) (package_capabilities : List PackageCapability) (overrides : List TargetOverride)
    (now : Instant) (tier_defaults : List Uuid)
    → (os : List TargetOverride) × AreInForce overrides capability now os
      × (contains key (effective_capabilities package_capabilities overrides now tier_defaults)
          ≡ granted_after (filter (names key) os) (
              included_after
                (filter (is_about key) package_capabilities)
                (contains key tier_defaults)))
unfolding effective_capabilities
effective_capabilities_per_key key package_capabilities overrides now tier_defaults = (
  in_force overrides capability now,
  in_force-AreInForce overrides capability now,
  contains-apply_grants key (in_force overrides capability now)
        (apply_package package_capabilities (to_key_set [] tier_defaults))
      ∙ ap (granted_after (filter (names key) (in_force overrides capability now))) (
          contains-apply_package key package_capabilities (to_key_set [] tier_defaults)
          ∙ ap (included_after (filter (is_about key) package_capabilities))
              (contains-to_key_set key [] tier_defaults)),
)
