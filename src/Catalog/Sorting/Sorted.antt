-- ===== src/Catalog/Sorting/Sorted.antt =====
-- What a sort of the menu answers: the same elements, each before those that come later.
use mathlib.Core.List.Perm
use mathlib.Core.List.{Perm}
use merchant_operations_plat.Prelude.{◌⊎◌, inl, inr, List, [], ◌∷◌, Text, arith, All, Bool-cases}
use merchant_operations_plat.Prelude.Int.{pos, ◌≤ℤ◌, leb_ℤ}
use merchant_operations_plat.Catalog.Sorting.{
  Ordered, Compare, by_display_order, insert_sorted, sort, IsOrder, IsSorted,
}

module _ {A : Type 0} (compare : Compare A) where
  insert_sorted-perm : (x : A) (xs : List A) → Perm (insert_sorted compare x xs) (x ∷ xs)
  unfolding insert_sorted
  insert_sorted-perm x [] = Perm.refl (x ∷ [])
  insert_sorted-perm x (y ∷ ys) = elim (Bool-cases (leb_ℤ (compare x y) (pos 0))) [
    | inl h ↦ rw h (Perm.refl (x ∷ y ∷ ys))
    | inr h ↦ rw h (Perm.trans (Perm.cons y (insert_sorted-perm x ys)) (Perm.swap x y ys))
  ]

  pub sort-perm : (xs : List A) → Perm (sort compare xs) xs
  unfolding sort
  sort-perm [] = Perm.refl []
  sort-perm (x ∷ xs) =
      Perm.trans (insert_sorted-perm x (sort compare xs)) (Perm.cons x (sort-perm xs))

  All-later :
      IsOrder compare
      → (x y : A) (ys : List A) → compare x y ≤ℤ pos 0
      → All (λ z. compare y z ≤ℤ pos 0) ys
      → All (λ z. compare x z ≤ℤ pos 0) ys
  All-later o x y [] h later = tt
  All-later o x y (z ∷ zs) h later = (o.transitive x y z h later.0, All-later o x y zs h later.1)

  All-insert_sorted :
      (x y : A) (ys : List A)
      → compare y x ≤ℤ pos 0
      → All (λ z. compare y z ≤ℤ pos 0) ys
      → All (λ z. compare y z ≤ℤ pos 0) (insert_sorted compare x ys)
  unfolding insert_sorted
  All-insert_sorted x y [] h later = (h, tt)
  All-insert_sorted x y (z ∷ zs) h later = elim (Bool-cases (leb_ℤ (compare x z) (pos 0))) [
    | inl e ↦ rw e (h, later)
    | inr e ↦ rw e (later.0, All-insert_sorted x y zs h later.1)
  ]

  insert_sorted-IsSorted :
      IsOrder compare
      → (x : A) (xs : List A) → IsSorted compare xs
      → IsSorted compare (insert_sorted compare x xs)
  unfolding insert_sorted
  insert_sorted-IsSorted o x [] s = (tt, tt)
  insert_sorted-IsSorted o x (y ∷ ys) s = elim (Bool-cases (leb_ℤ (compare x y) (pos 0))) [
    | inl e ↦ let h : compare x y ≤ℤ pos 0 = ground arith in rw e ((h, All-later o x y ys h s.0), s)
    | inr e ↦
        let h : compare y x ≤ℤ pos 0 = ground (arith, o.total x y) in
        rw e (All-insert_sorted x y ys h s.0, insert_sorted-IsSorted o x ys s.1)
  ]

  pub sort-IsSorted : IsOrder compare → (xs : List A) → IsSorted compare (sort compare xs)
  unfolding sort
  sort-IsSorted o [] = tt
  sort-IsSorted o (x ∷ xs) = insert_sorted-IsSorted o x (sort compare xs) (sort-IsSorted o xs)

by_display_order_total :
    (locale_compare : Compare Text) (x y : Ordered)
    → (locale_compare x.name y.name ≤ℤ pos 0) ⊎ (locale_compare y.name x.name ≤ℤ pos 0)
    → (by_display_order locale_compare x y ≤ℤ pos 0)
      ⊎ (by_display_order locale_compare y x ≤ℤ pos 0)
by_display_order_total locale_compare x y h = ground arith

by_display_order_transitive :
    (locale_compare : Compare Text) (x y z : Ordered)
    → (locale_compare x.name y.name ≤ℤ pos 0
        → locale_compare y.name z.name ≤ℤ pos 0
        → locale_compare x.name z.name ≤ℤ pos 0)
    → by_display_order locale_compare x y ≤ℤ pos 0
    → by_display_order locale_compare y z ≤ℤ pos 0
    → by_display_order locale_compare x z ≤ℤ pos 0
by_display_order_transitive locale_compare x y z t h k = ground arith

-- Places are in order if the names are.
pub by_display_order-IsOrder :
    (locale_compare : Compare Text)
    → IsOrder locale_compare
    → IsOrder (by_display_order locale_compare)
by_display_order-IsOrder locale_compare o = record {
  total = λ x y. by_display_order_total locale_compare x y (o.total x.name y.name);
  transitive =
      λ x y z. by_display_order_transitive locale_compare x y z (o.transitive x.name y.name z.name);
}

-- An order of the places orders what stands at them.
pub by_place-IsOrder :
    {A : Type 0} (place : A → Ordered) (compare : Compare Ordered)
    → IsOrder compare
    → IsOrder (λ (x y : A). compare (place x) (place y))
by_place-IsOrder place compare o = record {
  total = λ x y. o.total (place x) (place y);
  transitive = λ x y z. o.transitive (place x) (place y) (place z);
}
