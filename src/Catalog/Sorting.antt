-- ===== src/Catalog/Sorting.antt =====
-- The order of the menu (apps/api/src/kernels/catalog/domain/sellable-menu.ts): JavaScript's stable
-- `sort` under a comparison, and `byDisplayOrder`.
pub mod Sorted
use merchant_operations_plat.Prelude.{
  ℕ, ◌+◌, ◌≤◌, ◌≡◌, Bool, true, false, List, [], ◌∷◌, ◌⊎◌, inl, inr, Text, arith, All,
  if◌then◌else◌, Bool-cases,
}
use merchant_operations_plat.Prelude.Int.{
  ℤ, pos, ◌-ℤ◌, ◌==ℤ◌, ◌≤ℤ◌, leb_ℤ, sub_ℕ, neg_part, pos_part,
}

pub record Ordered : Type 0 where
  pub display_order : ℕ
  pub name : Text

abbrev pub Compare : Type 0 → Type 0
Compare A = A → A → ℤ

-- `left.displayOrder - right.displayOrder || left.name.localeCompare(right.name)`
abbrev pub by_display_order : Compare Text → Compare Ordered
by_display_order locale_compare left right =
    let places = sub_ℕ left.display_order right.display_order in
    if places ==ℤ pos 0 then locale_compare left.name right.name else places

module _ {A : Type 0} (compare : Compare A) where
  -- Before the first element that does not come earlier, so equals keep their order.
  unfoldable pub insert_sorted : A → List A → List A
  insert_sorted x [] = x ∷ []
  insert_sorted x (y ∷ ys) =
      if leb_ℤ (compare x y) (pos 0) then x ∷ y ∷ ys else y ∷ insert_sorted x ys

  -- `xs.sort(compare)`
  unfoldable pub sort : List A → List A
  unfolding insert_sorted
  sort [] = []
  sort (x ∷ xs) = insert_sorted x (sort xs)

-- A comparison that agrees with itself when its sides are swapped, and is transitive.
pub record IsOrder {A : Type 0} (compare : Compare A) : Type 0 where
  pub total : (x y : A) → (compare x y ≤ℤ pos 0) ⊎ (compare y x ≤ℤ pos 0)
  pub transitive : (x y z : A) → compare x y ≤ℤ pos 0 → compare y z ≤ℤ pos 0 → compare x z ≤ℤ pos 0

module _ {A : Type 0} (compare : Compare A) where
  -- Each element comes no later than all that follow it.
  abbrev pub IsSorted : List A → Type 0
  IsSorted [] = Unit
  IsSorted (x ∷ xs) = All (λ y. compare x y ≤ℤ pos 0) xs × IsSorted xs
