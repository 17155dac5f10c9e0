-- ===== src/Catalog/Sold/Groups.antt =====
-- The loop of `buildSellableMenu` over a product's modifier groups, and its variants.
use merchant_operations_plat.Prelude.{
  suc, ◌≤◌, ◌≡◌, ◌⊎◌, ◌↔◌, inl, inr, refl, ap, subst, ◌∙◌, Bool, true, false, Option, none, some,
  List, [], ◌∷◌, Uuid, Text, arith, length, filter, Bool-cases,
}
use merchant_operations_plat.Database.Tables.{count_where}
use merchant_operations_plat.Contracts.Menu.{SellableMenuModifierGroup}
use merchant_operations_plat.Catalog.{
  CatalogRecordStatus, is_active, ModifierGroup, ProductModifierGroup, CatalogSnapshot,
}
use merchant_operations_plat.Catalog.Sorting.{Compare, insert_sorted, sort}
use merchant_operations_plat.Catalog.SellableMenus.{
  map_get, groups_of, options_of, is_option_of, is_nil, sellable_group, link_step, sellable_groups,
}
use merchant_operations_plat.Catalog.Members.{Elem}

module _ {A : Type 0} where
  length-insert_sorted :
      (compare : Compare A) (x : A) (xs : List A)
      → length (insert_sorted compare x xs) ≡ suc (length xs)
  unfolding insert_sorted
  length-insert_sorted compare x [] = refl
  length-insert_sorted compare x (y ∷ ys) = ground (arith, length-insert_sorted compare x ys)

  pub length-sort : (compare : Compare A) (xs : List A) → length (sort compare xs) ≡ length xs
  unfolding sort
  length-sort compare [] = refl
  length-sort compare (x ∷ xs) =
      length-insert_sorted compare x (sort compare xs) ∙ ap suc (length-sort compare xs)

  pub length-filter : (p : A → Bool) (xs : List A) → length (filter p xs) ≡ count_where p xs
  length-filter p [] = refl
  length-filter p (x ∷ xs) = ground (arith, length-filter p xs)

  -- A list is empty, or it has an element.
  pub is_nil-cases :
      (xs : List A)
      → ((is_nil xs ≡ true) × (xs ≡ [])) ⊎ ((is_nil xs ≡ false) × ((a : A) × Elem a xs))
  is_nil-cases [] = inl (refl, refl)
  is_nil-cases (x ∷ xs) = inr (refl, (x, inl refl))

pub is_active_iff :
    (status : CatalogRecordStatus)
    → (is_active status ≡ true) ↔ (status ≡ CatalogRecordStatus.active)
is_active_iff status = ground arith

module _ (locale_compare : Compare Text) (s : CatalogSnapshot) where
  pub length-options_of :
      (group : Uuid)
      → length (options_of locale_compare s group)
        ≡ count_where (is_option_of group) s.modifier_options
  length-options_of group =
      length-sort _ (filter (is_option_of group) s.modifier_options)
      ∙ length-filter (is_option_of group) s.modifier_options

  abbrev pub IsSatisfiable : Option ModifierGroup → Type 0
  IsSatisfiable none = Unit
  IsSatisfiable (some g) = g.min_selections ≤ length (options_of locale_compare s g.id)

  link_step_iff :
      (g : Option ModifierGroup) (rest : Option (List SellableMenuModifierGroup))
      → ((gs : List SellableMenuModifierGroup) × (link_step locale_compare s g rest ≡ some gs))
        ↔ (IsSatisfiable g × ((gs : List SellableMenuModifierGroup) × (rest ≡ some gs)))
  link_step_iff none rest = ((λ h. (tt, h)), (λ h. h.1))
  link_step_iff (some g) none = ((λ h. absurd (ground (arith, h.1))), (λ h. absurd (cc (h.1.1))))
  link_step_iff (some g) (some gs) = (
    (λ h. (ground (arith, h.1), (gs, refl))),
    (λ h. elim (Bool-cases (is_nil (options_of locale_compare s g.id))) [
      | inl e ↦ (gs, ground (arith, h.0))
      | inr e ↦ (sellable_group g (options_of locale_compare s g.id) ∷ gs, ground (arith, h.0))
    ]),
  )

  abbrev pub found : ProductModifierGroup → Option ModifierGroup
  found link = map_get (λ g. g.id) (groups_of s) link.modifier_group_id

  -- The loop comes to an end, unless a group is short of options.
  pub sellable_groups_iff :
      (links : List ProductModifierGroup)
      → ((gs : List SellableMenuModifierGroup) × (sellable_groups locale_compare s links ≡ some gs))
        ↔ ((link : ProductModifierGroup) → Elem link links → IsSatisfiable (found link))
  unfolding sellable_groups
  sellable_groups_iff [] = ((λ h link m. absurd m), (λ h. ([], refl)))
  sellable_groups_iff (link ∷ links) =
      let ih = sellable_groups_iff links in
      let step = link_step_iff (found link) (sellable_groups locale_compare s links) in
      (
        (λ h other m. elim m [
          | inl same ↦ subst (λ l. IsSatisfiable (found l)) same ((step.0 h).0)
          | inr later ↦ ih.0 ((step.0 h).1) other later
        ]),
        (λ h. step.1 (h link (inl refl), ih.1 (λ other m. h other (inr m)))),
      )
