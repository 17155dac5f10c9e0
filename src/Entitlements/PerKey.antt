-- ===== src/Entitlements/PerKey.antt =====
-- apps/api/src/core/entitlements/effective-entitlements.ts: an override acts on its own key alone.
use merchant_operations_plat.Prelude.{
  ◌≡◌, refl, ap, sym, subst, ◌∙◌, arith, inl, inr, Bool, true, false, Option, none, some, List, [],
  ◌∷◌, Uuid, Instant, filter, ◌==◌, if◌then◌else◌, Bool-cases, Option-cases,
}
use merchant_operations_plat.Prelude.Int.{ℤ, pos, ◌+ℤ◌, int_laws}
use merchant_operations_plat.Entitlements.InForce.{AreInForce, in_force-AreInForce}
use merchant_operations_plat.Entitlements.Effective.{
  EffectiveLimit, from_override, TargetOverride, limit, Operation, add, grant, replace, revoke,
  in_force, get_limit, set_limit, new_limit, apply_override, apply_overrides, to_limit_map,
  effective_limits,
}

-- A limit after an override that names it.
abbrev pub set_or_kept : Option EffectiveLimit → Option EffectiveLimit → Option EffectiveLimit
set_or_kept none current = current
set_or_kept (some l) current = some l

abbrev pub override_limit : TargetOverride → Option EffectiveLimit → Option EffectiveLimit
override_limit o current = set_or_kept (new_limit o o.operation o.value current) current

abbrev pub limit_after : List TargetOverride → Option EffectiveLimit → Option EffectiveLimit
limit_after [] current = current
limit_after (o ∷ os) current = limit_after os (override_limit o current)

abbrev pub names : Uuid → TargetOverride → Bool
names key o = o.target_key == key

get_limit-set_limit :
    (key : Uuid) (l : EffectiveLimit) (ls : List EffectiveLimit)
    → get_limit key (set_limit l ls) ≡ (if l.dimension_key == key then some l else get_limit key ls)
get_limit-set_limit key l [] = refl
get_limit-set_limit key l (m ∷ ms) = ground (arith, get_limit-set_limit key l ms)

new_limit-key :
    (o : TargetOverride) (operation : Operation) (value : Option ℤ)
    (current : Option EffectiveLimit) {l : EffectiveLimit}
    → new_limit o operation value current ≡ some l
    → l.dimension_key ≡ o.target_key
new_limit-key o add none current {l} h = absurd (ground arith)
new_limit-key o grant none current {l} h = absurd (ground arith)
new_limit-key o replace none current {l} h = absurd (ground arith)
new_limit-key o revoke none current {l} h = absurd (ground arith)
new_limit-key o add (some value) current {l} h = ground arith
new_limit-key o grant (some value) current {l} h = absurd (ground arith)
new_limit-key o replace (some value) current {l} h = ground arith
new_limit-key o revoke (some value) current {l} h = absurd (ground arith)

override_limit-none :
    (o : TargetOverride) (current : Option EffectiveLimit)
    → new_limit o o.operation o.value current ≡ none
    → override_limit o current ≡ current
override_limit-none o current h = ap (λ n. set_or_kept n current) h

override_limit-some :
    (o : TargetOverride) (current : Option EffectiveLimit) {l : EffectiveLimit}
    → new_limit o o.operation o.value current ≡ some l
    → override_limit o current ≡ some l
override_limit-some o current {l} h = ap (λ n. set_or_kept n current) h

get_limit-apply_override :
    (key : Uuid) (o : TargetOverride) (ls : List EffectiveLimit)
    → get_limit key (apply_override o ls)
      ≡ (if names key o then override_limit o (get_limit key ls) else get_limit key ls)
get_limit-apply_override key o ls =
    elim (Option-cases (new_limit o o.operation o.value (get_limit o.target_key ls))) [
      | inl e ↦ elim (Bool-cases (names key o)) [
        | inr f ↦ rw e (rw f refl)
        | inl f ↦
            let same : o.target_key ≡ key = ground arith in
            let at : new_limit o o.operation o.value (get_limit key ls) ≡ none =
              subst (λ k. new_limit o o.operation o.value (get_limit k ls) ≡ none) same e in
            rw e (rw f (sym (override_limit-none o (get_limit key ls) at)))
      ]
      | inr (l, e) ↦
          let own = new_limit-key o o.operation o.value (get_limit o.target_key ls) e in
          let put = get_limit-set_limit key l ls in
          elim (Bool-cases (names key o)) [
            | inr f ↦
                let other : (l.dimension_key == key) ≡ false = ground arith in
                rw e (rw f (put ∙ rw other refl))
            | inl f ↦
                let same : o.target_key ≡ key = ground arith in
                let at : new_limit o o.operation o.value (get_limit key ls) ≡ some l =
                  subst (λ k. new_limit o o.operation o.value (get_limit k ls) ≡ some l) same e in
                let hit : (l.dimension_key == key) ≡ true = ground arith in
                rw e (rw f (put ∙ rw hit refl ∙ sym (override_limit-some o (get_limit key ls) at)))
          ]
    ]

get_limit-apply_overrides :
    (key : Uuid) (os : List TargetOverride) (ls : List EffectiveLimit)
    → get_limit key (apply_overrides os ls) ≡ limit_after (filter (names key) os) (get_limit key ls)
get_limit-apply_overrides key [] ls = refl
get_limit-apply_overrides key (o ∷ os) ls =
    get_limit-apply_overrides key os (apply_override o ls)
    ∙ ap (limit_after (filter (names key) os)) (get_limit-apply_override key o ls)
    ∙ elim (Bool-cases (names key o)) [ inl e ↦ rw e refl | inr e ↦ rw e refl ]

-- A limit that an override sets.
abbrev limit_at : Uuid → ℤ → EffectiveLimit
limit_at key value = record {
  dimension_key = key;
  source = from_override;
  unlimited = false;
  value = some value;
}

abbrev known : Option ℤ → ℤ
known none = pos 0
known (some v) = v

-- What an override of a dimension makes of its limit: it is replaced by a value, or a value is added
-- to it, where it is not unlimited, and a missing one counts as 0; nothing else changes it.
abbrev pub revised : Uuid → Operation → Option ℤ → Option EffectiveLimit → Option EffectiveLimit
revised key replace (some v) current = some (limit_at key v)
revised key add (some v) none = some (limit_at key v)
revised key add (some v) (some l) =
    if l.unlimited then some l else some (limit_at key (known l.value +ℤ v))
revised key operation value current = current

abbrev pub revised_by : List TargetOverride → Option EffectiveLimit → Option EffectiveLimit
revised_by [] current = current
revised_by (o ∷ os) current = revised_by os (revised o.target_key o.operation o.value current)

-- The last of the limits that are listed for a dimension.
abbrev pub last_for : Uuid → List EffectiveLimit → Option EffectiveLimit → Option EffectiveLimit
last_for key [] current = current
last_for key (l ∷ ls) current = last_for key ls (if l.dimension_key == key then some l else current)

revised_lem :
    (o : TargetOverride) (operation : Operation) (value : Option ℤ)
    (current : Option EffectiveLimit)
    → set_or_kept (new_limit o operation value current) current
      ≡ revised o.target_key operation value current
revised_lem o replace none current = refl
revised_lem o replace (some v) current = refl
revised_lem o add none current = refl
revised_lem o add (some v) none = grind (int_laws)
revised_lem o add (some v) (some l) = elim (Bool-cases l.unlimited) [
  | inl e ↦ rw e refl
  | inr e ↦ rw e (elim (Option-cases l.value) [ inl n ↦ rw n refl | inr (x, n) ↦ rw n refl ])
]
revised_lem o grant none current = refl
revised_lem o grant (some v) current = refl
revised_lem o revoke none current = refl
revised_lem o revoke (some v) current = refl

limit_after-revised_by :
    (os : List TargetOverride) (current : Option EffectiveLimit)
    → limit_after os current ≡ revised_by os current
limit_after-revised_by [] current = refl
limit_after-revised_by (o ∷ os) current =
    limit_after-revised_by os (override_limit o current)
    ∙ ap (revised_by os) (revised_lem o o.operation o.value current)

get_limit-to_limit_map :
    (key : Uuid) (seen ls : List EffectiveLimit)
    → get_limit key (to_limit_map seen ls) ≡ last_for key ls (get_limit key seen)
get_limit-to_limit_map key seen [] = refl
get_limit-to_limit_map key seen (l ∷ ls) =
    get_limit-to_limit_map key (set_limit l seen) ls
    ∙ ap (last_for key ls) (get_limit-set_limit key l seen)

-- The limit of a dimension is what the overrides that are in force and name it make of the
-- package's limit, in the order in which they start; no other override touches it. The package's limit is
-- the last that it lists for the dimension.
pub effective_limits_per_key :
    (key : Uuid) (package_limits : List EffectiveLimit) (overrides : List TargetOverride)
    (now : Instant)
    → (os : List TargetOverride) × AreInForce overrides limit now os
      × (get_limit key (effective_limits package_limits overrides now)
          ≡ revised_by (filter (names key) os) (last_for key package_limits none))
unfolding effective_limits
effective_limits_per_key key package_limits overrides now =
    let os = in_force overrides limit now in
    (
      os,
      in_force-AreInForce overrides limit now,
      get_limit-apply_overrides key os (to_limit_map [] package_limits)
          ∙ limit_after-revised_by (filter (names key) os) _
          ∙ ap (revised_by (filter (names key) os)) (get_limit-to_limit_map key [] package_limits),
    )
