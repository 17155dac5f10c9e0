-- ===== src/Catalog/Members.antt =====
-- What the menu's filters, maps and sorts keep of their lists: the elements.
pub mod Keyed
use merchant_operations_plat.Prelude.{
  ◌≡◌, ◌⊎◌, ◌↔◌, inl, inr, refl, sym, ap, subst, ◌∙◌, Bool, true, false, Option, none, some, List,
  [], ◌∷◌, map, Uuid, arith, find, filter, any, contains, ==_iff, ◌==◌, if◌then◌else◌, Bool-cases,
  Option-cases,
}
use merchant_operations_plat.Prelude.Int.{leb_ℤ, pos}
use merchant_operations_plat.Catalog.Sorting.{Compare, insert_sorted, sort}
use merchant_operations_plat.Catalog.SellableMenus.{map_set, to_map, map_get, filter_map}

abbrev pub Elem : {A : Type 0} → A → List A → Type 0
Elem a [] = ⊥
Elem a (x ∷ xs) = (x ≡ a) ⊎ Elem a xs

module _ {A : Type 0} where
  pub Elem-filter :
      (p : A → Bool) (a : A) (xs : List A) → Elem a (filter p xs) ↔ (Elem a xs × (p a ≡ true))
  Elem-filter p a [] = ((λ e. absurd e), (λ e. absurd e.0))
  Elem-filter p a (x ∷ xs) = elim (Bool-cases (p x)) [
    | inl h ↦ rw h (
      (λ e. elim e [
        | inl same ↦ (inl same, ap p (sym same) ∙ h)
        | inr later ↦ let (m, q) = (Elem-filter p a xs).0 later in (inr m, q)
      ]),
      (λ e. elim (e.0) [
        | inl same ↦ inl same
        | inr later ↦ inr ((Elem-filter p a xs).1 (later, e.1))
      ]),
    )
    | inr h ↦ rw h (
      (λ e. let (m, q) = (Elem-filter p a xs).0 e in (inr m, q)),
      (λ e. elim (e.0) [
        | inl same ↦ absurd (cc (h, e.1, ap p same))
        | inr later ↦ (Elem-filter p a xs).1 (later, e.1)
      ]),
    )
  ]

  Elem-insert_sorted :
      (compare : Compare A) (a x : A) (xs : List A)
      → Elem a (insert_sorted compare x xs) ↔ Elem a (x ∷ xs)
  unfolding insert_sorted
  Elem-insert_sorted compare a x [] = ((λ e. e), (λ e. e))
  Elem-insert_sorted compare a x (y ∷ ys) = elim (Bool-cases (leb_ℤ (compare x y) (pos 0))) [
    | inl h ↦ rw h ((λ e. e), (λ e. e))
    | inr h ↦
        let ih = Elem-insert_sorted compare a x ys in
        rw h (
          (λ e. elim e [
            | inl same ↦ inr (inl same)
            | inr later ↦ elim (ih.0 later) [ inl q ↦ inl q | inr q ↦ inr (inr q) ]
          ]),
          (λ e. elim e [
            | inl same ↦ inr (ih.1 (inl same))
            | inr later ↦ elim later [ inl q ↦ inl q | inr q ↦ inr (ih.1 (inr q)) ]
          ]),
        )
  ]

  pub Elem-sort : (compare : Compare A) (a : A) (xs : List A) → Elem a (sort compare xs) ↔ Elem a xs
  unfolding sort
  Elem-sort compare a [] = ((λ e. e), (λ e. e))
  Elem-sort compare a (x ∷ xs) =
      let step = Elem-insert_sorted compare a x (sort compare xs) in
      let ih = Elem-sort compare a xs in
      (
        (λ e. elim (step.0 e) [ inl same ↦ inl same | inr later ↦ inr (ih.0 later) ]),
        (λ e. elim e [ inl same ↦ step.1 (inl same) | inr later ↦ step.1 (inr (ih.1 later)) ]),
      )

module _ {A B : Type 0} (f : A → Option B) where
  pub Elem-filter_map :
      (b : B) (xs : List A) → Elem b (filter_map f xs) ↔ ((a : A) × Elem a xs × (f a ≡ some b))
  Elem-filter_map b [] = ((λ e. absurd e), (λ e. absurd e.1))
  Elem-filter_map b (x ∷ xs) =
      let ih = Elem-filter_map b xs in
      elim (Option-cases (f x)) [
        | inl h ↦ rw h (
          (λ e. let (a, m, q) = ih.0 e in (a, inr m, q)),
          (λ (a, m, q). elim m [
            | inl same ↦ absurd (cc (h, q, ap f same))
            | inr later ↦ ih.1 (a, later, q)
          ]),
        )
        | inr (y, h) ↦ rw h (
          (λ e. elim e [
            | inl same ↦ (x, inl refl, h ∙ ap some same)
            | inr later ↦ let (a, m, q) = ih.0 later in (a, inr m, q)
          ]),
          (λ (a, m, q). elim m [
            | inl same ↦ inl (cc (h, q, ap f same))
            | inr later ↦ inr (ih.1 (a, later, q))
          ]),
        )
      ]

module _ {A B : Type 0} (f : A → B) where
  pub Elem-map : (b : B) (xs : List A) → Elem b (map f xs) ↔ ((a : A) × Elem a xs × (f a ≡ b))
  Elem-map b [] = ((λ e. absurd e), (λ e. absurd e.1))
  Elem-map b (x ∷ xs) =
      let ih = Elem-map b xs in
      (
        (λ e. elim e [
          | inl same ↦ (x, inl refl, same)
          | inr later ↦ let (a, m, q) = ih.0 later in (a, inr m, q)
        ]),
        (λ (a, m, q). elim m [
          | inl same ↦ inl (ap f same ∙ q)
          | inr later ↦ inr (ih.1 (a, later, q))
        ]),
      )

pub contains_iff : (id : Uuid) (ids : List Uuid) → (contains id ids ≡ true) ↔ Elem id ids
contains_iff id [] = ((λ e. absurd (cc)), (λ e. absurd e))
contains_iff id (x ∷ xs) =
    let ih = contains_iff id xs in
    elim (Bool-cases (x == id)) [
      | inl h ↦ rw h ((λ e. inl ((==_iff x id).0 h)), (λ e. refl))
      | inr h ↦ rw h (
        (λ e. inr (ih.0 e)),
        (λ e. elim e [ inl same ↦ absurd (cc (h, (==_iff x id).1 same)) | inr later ↦ ih.1 later ]),
      )
    ]

pub any_iff :
    {A : Type 0} (p : A → Bool) (xs : List A)
    → (any p xs ≡ true) ↔ ((a : A) × Elem a xs × (p a ≡ true))
any_iff p [] = ((λ e. absurd (cc)), (λ e. absurd e.1))
any_iff p (x ∷ xs) =
    let ih = any_iff p xs in
    elim (Bool-cases (p x)) [
      | inl h ↦ rw h ((λ e. (x, inl refl, h)), (λ e. refl))
      | inr h ↦ rw h (
        (λ e. let (a, m, q) = ih.0 e in (a, inr m, q)),
        (λ (a, m, q). elim m [
          | inl same ↦ absurd (cc (h, q, ap p same))
          | inr later ↦ ih.1 (a, later, q)
        ]),
      )
    ]

-- Lists whose elements have different keys, as the rows of a table have.
module _ {A : Type 0} (key : A → Uuid) where
  abbrev pub IsKeyed : List A → Type 0
  IsKeyed [] = Unit
  IsKeyed (x ∷ xs) = (contains (key x) (map key xs) ≡ false) × IsKeyed xs

  pub find-key :
      (xs : List A) (id : Uuid) (a : A)
      → IsKeyed xs
      → (map_get key xs id ≡ some a) ↔ (Elem a xs × (key a ≡ id))
  find-key [] id a u = ((λ e. absurd (cc)), (λ e. absurd e.0))
  find-key (x ∷ xs) id a u =
      let ih = find-key xs id a u.1 in
      elim (Bool-cases (key x == id)) [
        | inl h ↦
            let here = (==_iff (key x) id).0 h in
            rw h (
              (λ e. let same : x ≡ a = cc in (inl same, ap key (sym same) ∙ here)),
              (λ e. elim (e.0) [
                | inl same ↦ ap some same
                | inr later ↦
                    let twice =
                      (contains_iff (key x) (map key xs)).1
                        ((Elem-map key (key x) xs).1 (a, later, e.1 ∙ sym here)) in
                    absurd (cc (u.0, twice))
              ]),
            )
        | inr h ↦ rw h (
          (λ e. let (m, q) = ih.0 e in (inr m, q)),
          (λ e. elim (e.0) [
            | inl same ↦ absurd (cc (h, (==_iff (key x) id).1 (ap key same ∙ e.1)))
            | inr later ↦ ih.1 (later, e.1)
          ]),
        )
      ]
