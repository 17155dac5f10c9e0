-- ===== src/OrderIntake/Pricing/Menus.antt =====
-- Which product a line of an order is looked up as (`new Map(...)` in price-order.ts).
use merchant_operations_plat.Prelude.{
  ◌≡◌, ◌⊎◌, ◌↔◌, inl, inr, refl, false, none, some, List, [], ◌∷◌, Uuid, arith, All, ◌==◌,
  Option-cases,
}
use merchant_operations_plat.OrderIntake.Pricing.{MenuProduct, menu_get}

-- The product is on the menu under this identifier, and none after it is.
abbrev pub OffersLast : List MenuProduct → Uuid → MenuProduct → Type 0
OffersLast [] id p = ⊥
OffersLast (q ∷ qs) id p =
    OffersLast qs id p ⊎ (q ≡ p) × (q.id ≡ id) × All (λ r. (r.id == id) ≡ false) qs

menu_get-none :
    (menu : List MenuProduct) (id : Uuid)
    → (menu_get menu id ≡ none) ↔ All (λ r. (r.id == id) ≡ false) menu
unfolding menu_get
menu_get-none [] id = ((λ h. tt), (λ h. refl))
menu_get-none (q ∷ qs) id = elim (Option-cases (menu_get qs id)) [
  | inr (p, e) ↦ (
    (λ h. absurd (ground arith)),
    (λ (h, hs). let gone = (menu_get-none qs id).1 hs in absurd (ground arith)),
  )
  | inl e ↦ ((λ h. (ground arith, (menu_get-none qs id).0 e)), (λ (h, hs). ground arith))
]

-- Of two products under one identifier the later is looked up.
pub menu_get_iff :
    (menu : List MenuProduct) (id : Uuid) (p : MenuProduct)
    → (menu_get menu id ≡ some p) ↔ OffersLast menu id p
unfolding menu_get
menu_get_iff [] id p = ((λ h. absurd (ground arith)), (λ h. absurd h))
menu_get_iff (q ∷ qs) id p = elim (Option-cases (menu_get qs id)) [
  | inr (r, e) ↦ (
    (λ h.
        let later : menu_get qs id ≡ some p = ground arith in inl ((menu_get_iff qs id p).0 later)),
    (λ h. elim h [
      | inl later ↦ let found = (menu_get_iff qs id p).1 later in ground arith
      | inr (same, own, gone) ↦ let empty = (menu_get-none qs id).1 gone in absurd (ground arith)
    ]),
  )
  | inl e ↦ (
    (λ h. inr (ground arith, ground arith, (menu_get-none qs id).0 e)),
    (λ h. elim h [
      | inl later ↦ let found = (menu_get_iff qs id p).1 later in absurd (ground arith)
      | inr (same, own, gone) ↦ ground arith
    ]),
  )
]
