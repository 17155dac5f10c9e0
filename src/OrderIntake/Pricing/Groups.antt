-- ===== src/OrderIntake/Pricing/Groups.antt =====
-- What the loop over a product's modifier groups adds up.
use mathlib.Core.List.{append_assoc, append-nil}
use native.Mathlib.Nat.{add_assoc, add-zero}
use merchant_operations_plat.Prelude.{
  ℕ, ◌+◌, ◌≤◌, ◌≡◌, List, [], ◌∷◌, ◌++◌, map, Uuid, Text, ok, arith, length, All,
}
use merchant_operations_plat.Prelude.Int.{ℤ, pos, ◌+ℤ◌, +ℤ_assoc, +ℤ_zero}
use merchant_operations_plat.OrderIntake.Pricing.{
  MenuOption, ModifierGroup, PricedModifier, Selection, take_options, take_groups, picked,
}

-- The surcharges of the chosen options of one group, and of all of them.
abbrev sum_deltas : List MenuOption → ℤ
sum_deltas [] = pos 0
sum_deltas (o ∷ os) = o.price_delta_minor +ℤ sum_deltas os

abbrev pub total_deltas : List Uuid → List ModifierGroup → ℤ
total_deltas chosen [] = pos 0
total_deltas chosen (g ∷ gs) = sum_deltas (picked chosen g) +ℤ total_deltas chosen gs

abbrev pub named : Text → List MenuOption → List PricedModifier
named group_name = map (λ (o : MenuOption). record {
  group_name = group_name;
  option_name = o.name;
  price_delta_minor = o.price_delta_minor;
})

abbrev pub all_named : List Uuid → List ModifierGroup → List PricedModifier
all_named chosen [] = []
all_named chosen (g ∷ gs) = named g.name (picked chosen g) ++ all_named chosen gs

-- How many of the chosen options the groups know.
abbrev pub matches : List Uuid → List ModifierGroup → ℕ
matches chosen [] = 0
matches chosen (g ∷ gs) = length (picked chosen g) + matches chosen gs

abbrev pub IsInBounds : List Uuid → ModifierGroup → Type 0
IsInBounds chosen g =
    (g.min_selections ≤ length (picked chosen g)) × (length (picked chosen g) ≤ g.max_selections)

-- The selection that the loop reaches from `s`.
abbrev selected : List Uuid → List ModifierGroup → Selection → Selection
selected chosen gs s = record {
  unit_price_minor = s.unit_price_minor +ℤ total_deltas chosen gs;
  modifiers = s.modifiers ++ all_named chosen gs;
  matched = s.matched + matches chosen gs;
}

take_options_lem :
    (n : Text) (os : List MenuOption) (s : Selection)
    → take_options n os s ≡ record s {
      unit_price_minor = s.unit_price_minor +ℤ sum_deltas os;
      modifiers = s.modifiers ++ named n os;
    }
unfolding take_options
take_options_lem n [] s = simp (+ℤ_zero, append-nil)
take_options_lem n (o ∷ os) s = rw (take_options_lem n os) (simp (+ℤ_assoc, append_assoc))

-- The loop's state after the options of the group `g`.
abbrev after : List Uuid → ModifierGroup → Selection → Selection
after chosen g s =
    take_options g.name (picked chosen g)
      (record s { matched = s.matched + length (picked chosen g) })

selected-after :
    (chosen : List Uuid) (g : ModifierGroup) (gs : List ModifierGroup) (s : Selection)
    → selected chosen gs (after chosen g s) ≡ selected chosen (g ∷ gs) s
selected-after chosen g gs s = rw take_options_lem (simp (+ℤ_assoc, append_assoc, add_assoc))

-- With every group in bounds the loop reaches the sums.
pub take_groups-ok :
    (chosen : List Uuid) (gs : List ModifierGroup) (s : Selection)
    → All (IsInBounds chosen) gs
    → take_groups chosen gs s ≡ ok (selected chosen gs s)
unfolding take_groups
take_groups-ok chosen [] s h = simp (+ℤ_zero, append-nil, add-zero)
take_groups-ok chosen (g ∷ gs) s h =
    ground (arith, take_groups-ok chosen gs (after chosen g s) h.1, selected-after chosen g gs s)

-- The loop ends well only if every group is in bounds.
pub take_groups-IsInBounds :
    (chosen : List Uuid) (gs : List ModifierGroup) (s : Selection) {r : Selection}
    → take_groups chosen gs s ≡ ok r
    → All (IsInBounds chosen) gs
unfolding take_groups
take_groups-IsInBounds chosen [] s e = tt
take_groups-IsInBounds chosen (g ∷ gs) s {r} e =
    let next : take_groups chosen gs (after chosen g s) ≡ ok r = ground arith in
    (ground arith, take_groups-IsInBounds chosen gs (after chosen g s) next)
