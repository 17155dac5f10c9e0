-- ===== src/Catalog/Members/Keyed.antt =====
-- A `Map` made of rows with different keys holds these rows, in their order.
use mathlib.Core.List.{append_assoc}
use merchant_operations_plat.Prelude.{
  ◌≡◌, refl, ◌∙◌, inl, inr, Bool, false, List, [], ◌∷◌, ◌++◌, map, Uuid, arith, contains, filter,
  Bool-cases,
}
use merchant_operations_plat.Catalog.SellableMenus.{map_set, to_map}
use merchant_operations_plat.Catalog.Members.{IsKeyed}

module _ {A : Type 0} (key : A → Uuid) where
  contains-filter :
      (p : A → Bool) (id : Uuid) (xs : List A)
      → contains id (map key xs) ≡ false
      → contains id (map key (filter p xs)) ≡ false
  contains-filter p id [] h = refl
  contains-filter p id (x ∷ xs) h = ground (arith, contains-filter p id xs)

  pub filter-IsKeyed : (p : A → Bool) (xs : List A) → IsKeyed key xs → IsKeyed key (filter p xs)
  filter-IsKeyed p [] u = tt
  filter-IsKeyed p (x ∷ xs) u = elim (Bool-cases (p x)) [
    | inl h ↦ rw h (contains-filter p (key x) xs u.0, filter-IsKeyed p xs u.1)
    | inr h ↦ rw h (filter-IsKeyed p xs u.1)
  ]

  map_set_new :
      (x : A) (done rest : List A)
      → IsKeyed key (done ++ x ∷ rest)
      → map_set key x done ≡ done ++ x ∷ []
  unfolding map_set
  map_set_new x [] rest u = refl
  map_set_new x (d ∷ done) rest u =
      ground (arith, map_set_new x done rest u.1, contains_later d x done rest)
    where
      contains_later :
          (d x : A) (done rest : List A)
          → contains (key d) (map key (done ++ x ∷ rest)) ≡ false
          → contains (key d) (map key (x ∷ [])) ≡ false
      contains_later d x [] rest h = ground arith
      contains_later d x (e ∷ done) rest h = contains_later d x done rest (ground arith)

  to_map_append : (done xs : List A) → IsKeyed key (done ++ xs) → to_map key done xs ≡ done ++ xs
  unfolding to_map
  to_map_append done [] u = simp mathlib.Core.List.append-nil
  to_map_append done (x ∷ xs) u =
      rw (map_set_new x done xs u)
        (to_map_append (done ++ x ∷ []) xs (rw append_assoc u) ∙ append_assoc done (x ∷ []) xs)

  pub to_map_keyed : (xs : List A) → IsKeyed key xs → to_map key [] xs ≡ xs
  to_map_keyed xs u = to_map_append [] xs u
