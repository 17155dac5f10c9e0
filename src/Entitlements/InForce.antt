-- ===== src/Entitlements/InForce.antt =====
-- apps/api/src/core/entitlements/effective-entitlements.ts: which overrides count, and in what order.
use merchant_operations_plat.Prelude.{
  ◌≤◌, ◌<◌, ◌≡◌, ◌↔◌, refl, ap, ◌∙◌, arith, inl, inr, Bool, true, Option, none, some, List, [], ◌∷◌,
  Instant, filter, leb, ◌==◌, All, Bool-cases,
}
use merchant_operations_plat.Entitlements.Effective.{
  TargetOverride, TargetType, same_type, not_ended, is_in_force, insert_by_start, sort_by_start,
  in_force,
}

abbrev HasNotEnded : Instant → Option Instant → Type 0
HasNotEnded now none = Unit
HasNotEnded now (some ends) = now < ends

-- The override is of this type, has started, and has not ended.
abbrev pub IsInForce : TargetType → Instant → TargetOverride → Type 0
IsInForce type now o = (o.target_type ≡ type) × (o.effective_at ≤ now) × HasNotEnded now o.ends_at

abbrev starts_at : Instant → TargetOverride → Bool
starts_at t o = o.effective_at == t

-- Each override starts no later than all that follow it.
abbrev StartInOrder : List TargetOverride → Type 0
StartInOrder [] = Unit
StartInOrder (o ∷ os) = All (λ p. o.effective_at ≤ p.effective_at) os × StartInOrder os

-- `os` are the overrides that are in force, in the order in which they start; those that start
-- together are in the order in which they are listed.
pub record AreInForce (overrides : List TargetOverride) (type : TargetType) (now : Instant)
    (os : List TargetOverride) : Type 0 where
  pub holds : TargetOverride → Bool
  pub decided : (o : TargetOverride) → (holds o ≡ true) ↔ IsInForce type now o
  pub same : (t : Instant) → filter (starts_at t) os ≡ filter (starts_at t) (filter holds overrides)
  pub in_order : StartInOrder os

same_type_iff : (s t : TargetType) → (same_type s t ≡ true) ↔ (s ≡ t)
same_type_iff s t = ground arith

not_ended_iff : (now : Instant) (e : Option Instant) → (not_ended now e ≡ true) ↔ HasNotEnded now e
not_ended_iff now none = ((λ h. tt), (λ h. refl))
not_ended_iff now (some ends) = ground arith

is_in_force_iff :
    (type : TargetType) (now : Instant) (o : TargetOverride)
    → (is_in_force type now o ≡ true) ↔ IsInForce type now o
is_in_force_iff type now o = (
  (λ h. (
    (same_type_iff o.target_type type).0 (ground arith),
    ground arith,
    (not_ended_iff now o.ends_at).0 (ground arith),
  )),
  (λ (a, b, c).
      let x = (same_type_iff o.target_type type).1 a in
      let y = (not_ended_iff now o.ends_at).1 c in ground arith),
)

insert_by_start-same :
    (t : Instant) (o : TargetOverride) (ps : List TargetOverride)
    → filter (starts_at t) (insert_by_start o ps) ≡ filter (starts_at t) (o ∷ ps)
unfolding insert_by_start
insert_by_start-same t o [] = refl
insert_by_start-same t o (p ∷ ps) = ground (arith, insert_by_start-same t o ps)

sort_by_start-same :
    (t : Instant) (os : List TargetOverride)
    → filter (starts_at t) (sort_by_start os) ≡ filter (starts_at t) os
unfolding sort_by_start
sort_by_start-same t [] = refl
sort_by_start-same t (o ∷ os) =
    insert_by_start-same t o (sort_by_start os) ∙ elim (Bool-cases (starts_at t o)) [
      | inl e ↦ rw e (ap (λ x. o ∷ x) (sort_by_start-same t os))
      | inr e ↦ rw e (sort_by_start-same t os)
    ]

All-later :
    (a b : Instant) (ps : List TargetOverride)
    → a ≤ b
    → All (λ p. b ≤ p.effective_at) ps
    → All (λ p. a ≤ p.effective_at) ps
All-later a b [] h hs = tt
All-later a b (p ∷ ps) h (k, ks) = (omega (arith, h, k), All-later a b ps h ks)

All-insert_by_start :
    (a : Instant) (o : TargetOverride) (ps : List TargetOverride)
    → a ≤ o.effective_at
    → All (λ p. a ≤ p.effective_at) ps
    → All (λ p. a ≤ p.effective_at) (insert_by_start o ps)
unfolding insert_by_start
All-insert_by_start a o [] h hs = (h, tt)
All-insert_by_start a o (p ∷ ps) h (k, ks) = elim (Bool-cases (leb o.effective_at p.effective_at)) [
  | inl e ↦ rw e (h, (k, ks))
  | inr e ↦ rw e (k, All-insert_by_start a o ps h ks)
]

insert_by_start-StartInOrder :
    (o : TargetOverride) (ps : List TargetOverride)
    → StartInOrder ps
    → StartInOrder (insert_by_start o ps)
unfolding insert_by_start
insert_by_start-StartInOrder o [] h = (tt, tt)
insert_by_start-StartInOrder o (p ∷ ps) (h, hs) =
    elim (Bool-cases (leb o.effective_at p.effective_at)) [
      | inl e ↦
          let first : o.effective_at ≤ p.effective_at = ground arith in
          rw e ((first, All-later o.effective_at p.effective_at ps first h), (h, hs))
      | inr e ↦
          let later : p.effective_at ≤ o.effective_at = ground arith in
          rw e
            (All-insert_by_start p.effective_at o ps later h, insert_by_start-StartInOrder o ps hs)
    ]

sort_by_start-StartInOrder : (os : List TargetOverride) → StartInOrder (sort_by_start os)
unfolding sort_by_start
sort_by_start-StartInOrder [] = tt
sort_by_start-StartInOrder (o ∷ os) =
    insert_by_start-StartInOrder o (sort_by_start os) (sort_by_start-StartInOrder os)

pub in_force-AreInForce :
    (overrides : List TargetOverride) (type : TargetType) (now : Instant)
    → AreInForce overrides type now (in_force overrides type now)
unfolding in_force
in_force-AreInForce overrides type now = record {
  holds = is_in_force type now;
  decided = is_in_force_iff type now;
  same = λ t. sort_by_start-same t (filter (is_in_force type now) overrides);
  in_order = sort_by_start-StartInOrder (filter (is_in_force type now) overrides);
}
