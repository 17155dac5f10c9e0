-- ===== src/Database/Tables.antt =====
-- Queries and updates of a table, and what an update leaves for the next query.
use merchant_operations_plat.Prelude.{
  ℕ, suc, ◌≡◌, refl, subst, ap, ◌∙◌, ◌≤◌, ◌+◌, Bool, true, false, any, none, some, List, [], ◌∷◌,
  ◌++◌, arith, find, if◌then◌else◌, Bool-cases, inl, inr,
}

module _ {A : Type 0} where
  -- `updateMany({ where: p, data: f })`, and the count that it returns.
  abbrev pub update_many : (A → Bool) → (A → A) → List A → List A
  update_many p f [] = []
  update_many p f (x ∷ xs) = (if p x then f x else x) ∷ update_many p f xs

  abbrev pub count_where : (A → Bool) → List A → ℕ
  count_where p [] = 0
  count_where p (x ∷ xs) = if p x then suc (count_where p xs) else count_where p xs

  pub find-append_none :
      (q : A → Bool) (xs ys : List A) → find q xs ≡ none → find q (xs ++ ys) ≡ find q ys
  find-append_none q [] ys h = refl
  find-append_none q (y ∷ xs) ys h = ground (arith, find-append_none q xs ys)

  pub find_holds : (q : A → Bool) (xs : List A) {x : A} → find q xs ≡ some x → q x ≡ true
  find_holds q [] {x} h = absurd (ground arith)
  find_holds q (y ∷ xs) {x} h = ground (arith, find_holds q xs {x = x})

  -- Two tables with as many rows, related row by row.
  abbrev pub Pairwise : (A → A → Type 0) → List A → List A → Type 0
  Pairwise R [] [] = Unit
  Pairwise R (x ∷ xs) (y ∷ ys) = R x y × Pairwise R xs ys
  Pairwise R _ _ = ⊥

  pub update_many-Pairwise :
      (p : A → Bool) (f : A → A) (R : A → A → Type 0) (xs : List A)
      → ((x : A) → p x ≡ true → R x (f x))
      → ((x : A) → R x x)
      → Pairwise R xs (update_many p f xs)
  update_many-Pairwise p f R [] hit stay = tt
  update_many-Pairwise p f R (x ∷ xs) hit stay = elim (Bool-cases (p x)) [
    | inl e ↦ (rw e (hit x e), update_many-Pairwise p f R xs hit stay)
    | inr e ↦ (rw e (stay x), update_many-Pairwise p f R xs hit stay)
  ]

  -- The same where what stays is known to be outside.
  pub update_many-Pairwise_each :
      (p : A → Bool) (f : A → A) (R : A → A → Type 0) (xs : List A)
      → ((x : A) → p x ≡ true → R x (f x))
      → ((x : A) → p x ≡ false → R x x)
      → Pairwise R xs (update_many p f xs)
  update_many-Pairwise_each p f R [] hit stay = tt
  update_many-Pairwise_each p f R (x ∷ xs) hit stay = elim (Bool-cases (p x)) [
    | inl e ↦ (rw e (hit x e), update_many-Pairwise_each p f R xs hit stay)
    | inr e ↦ (rw e (stay x e), update_many-Pairwise_each p f R xs hit stay)
  ]

  -- An update whose rows no longer fit it finds nothing the second time.
  pub count_where-update_many :
      (p : A → Bool) (f : A → A) (xs : List A)
      → ((x : A) → p x ≡ true → p (f x) ≡ false)
      → count_where p (update_many p f xs) ≡ 0
  count_where-update_many p f [] once = refl
  count_where-update_many p f (x ∷ xs) once =
      grind (arith, once x, count_where-update_many p f xs once)

  pub update_many_none :
      (p : A → Bool) (f : A → A) (xs : List A) → count_where p xs ≡ 0 → update_many p f xs ≡ xs
  update_many_none p f [] h = refl
  update_many_none p f (x ∷ xs) h = ground (arith, update_many_none p f xs)

  -- A row that is found after an update was found before it, as it was or not yet updated.
  pub find-update_many :
      (q p : A → Bool) (f : A → A) (xs : List A) {y : A}
      → ((x : A) → q (f x) ≡ q x)
      → find q (update_many p f xs) ≡ some y
      → (x : A) × (find q xs ≡ some x) × (y ≡ (if p x then f x else x))
  find-update_many q p f [] {y} same h = absurd (ground arith)
  find-update_many q p f (x ∷ xs) {y} same h = elim (Bool-cases (q x)) [
    | inl e ↦ (x, ground arith, grind (arith, same x))
    | inr e ↦
        let rest : find q (update_many p f xs) ≡ some y = grind (arith, same x) in
        let (z, found, eq) = find-update_many q p f xs {y = y} same rest in (z, ground arith, eq)
  ]

  pub count_where_le :
      (p q : A → Bool) (xs : List A)
      → ((x : A) → p x ≡ true → q x ≡ true)
      → count_where p xs ≤ count_where q xs
  count_where_le p q [] sub = omega arith
  count_where_le p q (x ∷ xs) sub = grind (arith, sub x, count_where_le p q xs sub)

  -- Where one row at most has a key, a condition that one of its rows meets holds of the row that
  -- the key finds.
  pub find-count_where :
      (p q : A → Bool) (xs : List A) {x : A}
      → ((y : A) → p y ≡ true → q y ≡ true)
      → count_where q xs ≤ 1
      → count_where p xs ≡ 1
      → find q xs ≡ some x
      → p x ≡ true
  find-count_where p q [] {x} sub unique one found = absurd (ground arith)
  find-count_where p q (y ∷ xs) {x} sub unique one found = elim (Bool-cases (q y)) [
    | inl e ↦
        let rest = count_where_le p q xs sub in
        let first : y ≡ x = ground arith in
        let here : p y ≡ true = ground arith in subst (λ z. p z ≡ true) first here
    | inr e ↦
        let other : p y ≡ false = grind (arith, sub y) in
        find-count_where p q xs {x = x} sub (ground arith) (ground arith) (ground arith)
  ]

  pub count_where-append :
      (p : A → Bool) (xs : List A) (y : A)
      → count_where p (xs ++ y ∷ []) ≡ count_where p xs + (if p y then 1 else 0)
  count_where-append p [] y = ground arith
  count_where-append p (x ∷ xs) y = ground (arith, count_where-append p xs y)

  -- An update of other rows, and a row that is added, change nothing of what is found.
  pub find-update_many_other :
      (q p : A → Bool) (f : A → A) (xs : List A)
      → ((x : A) → q (f x) ≡ q x)
      → ((x : A) → p x ≡ true → q x ≡ false)
      → find q (update_many p f xs) ≡ find q xs
  find-update_many_other q p f [] same other = refl
  find-update_many_other q p f (x ∷ xs) same other = elim (Bool-cases (p x)) [
    | inl e ↦ ground (arith, same x, other x e, find-update_many_other q p f xs same other)
    | inr e ↦ ground (arith, find-update_many_other q p f xs same other)
  ]

  pub find-append_other :
      (q : A → Bool) (xs : List A) (x : A) → q x ≡ false → find q (xs ++ x ∷ []) ≡ find q xs
  find-append_other q [] x h = ground arith
  find-append_other q (y ∷ xs) x h = ground (arith, find-append_other q xs x h)

  pub find-none : (q : A → Bool) (xs : List A) → count_where q xs ≡ 0 → find q xs ≡ none
  find-none q [] h = refl
  find-none q (x ∷ xs) h = ground (arith, find-none q xs)

  count_where_pos :
      (q r : A → Bool) (xs : List A) {b : A}
      → find r xs ≡ some b
      → q b ≡ true
      → 1 ≤ count_where q xs
  count_where_pos q r [] {b} h hit = absurd (ground arith)
  count_where_pos q r (x ∷ xs) {b} h hit = elim (Bool-cases (r x)) [
    | inl e ↦
        let same : x ≡ b = ground arith in let here : q x ≡ true = ap q same ∙ hit in ground arith
    | inr e ↦
        let rest : find r xs ≡ some b = ground arith in
        let more = count_where_pos q r xs {b = b} rest hit in ground arith
  ]

  -- A row found another way that has a key of its own is the row that the key finds.
  pub find_unique :
      (q r : A → Bool) (xs : List A) {b x : A}
      → count_where q xs ≤ 1
      → find r xs ≡ some b
      → q b ≡ true
      → find q xs ≡ some x
      → b ≡ x
  find_unique q r [] {b} {x} unique found hit at = absurd (ground arith)
  find_unique q r (y ∷ ys) {b} {x} unique found hit at = elim (Bool-cases (q y)) [
    | inl e ↦ elim (Bool-cases (r y)) [
      | inl g ↦ ground arith
      | inr g ↦
          let rest : find r ys ≡ some b = ground arith in
          let more = count_where_pos q r ys {b = b} rest hit in absurd (ground arith)
    ]
    | inr e ↦ elim (Bool-cases (r y)) [
      | inl g ↦
          let same : y ≡ b = ground arith in
          let here : q y ≡ true = ap q same ∙ hit in absurd (ground arith)
      | inr g ↦ find_unique q r ys {b = b} {x = x} (ground arith) (ground arith) hit (ground arith)
    ]
  ]

  pub count_where-update_many_same :
      (q p : A → Bool) (f : A → A) (xs : List A)
      → ((x : A) → q (f x) ≡ q x)
      → count_where q (update_many p f xs) ≡ count_where q xs
  count_where-update_many_same q p f [] same = refl
  count_where-update_many_same q p f (x ∷ xs) same =
      grind (arith, same x, count_where-update_many_same q p f xs same)

  pub count_where-update_many_le :
      (q p : A → Bool) (f : A → A) (xs : List A)
      → ((x : A) → q (f x) ≡ true → q x ≡ true)
      → count_where q (update_many p f xs) ≤ count_where q xs
  count_where-update_many_le q p f [] less = omega arith
  count_where-update_many_le q p f (x ∷ xs) less =
      grind (arith, less x, count_where-update_many_le q p f xs less)

  pub count_where-any : (p : A → Bool) (xs : List A) → any p xs ≡ false → count_where p xs ≡ 0
  count_where-any p [] h = refl
  count_where-any p (x ∷ xs) h = ground (arith, count_where-any p xs)
