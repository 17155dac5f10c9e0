-- ===== src/Floor/Seated.antt =====
-- Who holds which table (the tables that prisma-table-session.repository.ts writes): the invariant of
-- visits, and what the writes of a table do to it.
use merchant_operations_plat.Prelude.{
  ◌≤◌, ◌≡◌, inl, inr, Bool, true, false, not, ◌&&◌, ◌||◌, List, [], ◌∷◌, ◌++◌, Uuid, arith, All,
  any, Bool-cases,
}
use merchant_operations_plat.Contracts.Floor.{is_closed}
use merchant_operations_plat.Database.Tables.{update_many, count_where}
use merchant_operations_plat.Floor.{FloorTableSession, FloorSessionTable, FloorDb}
use merchant_operations_plat.Floor.Visits.{
  is_none, is_attached, is_holding, session_by_id, session_at,
}

module _ {A : Type 0} where
  pub All-update_many :
      (p : A → Bool) (f : A → A) (P Q : A → Type 0) (xs : List A)
      → ((x : A) → P x → p x ≡ true → Q (f x))
      → ((x : A) → P x → p x ≡ false → Q x)
      → All P xs
      → All Q (update_many p f xs)
  All-update_many p f P Q [] hit stay h = tt
  All-update_many p f P Q (x ∷ xs) hit stay h = elim (Bool-cases (p x)) [
    | inl e ↦ rw e (hit x h.0 e, All-update_many p f P Q xs hit stay h.1)
    | inr e ↦ rw e (stay x h.0 e, All-update_many p f P Q xs hit stay h.1)
  ]

  pub All-map : (P Q : A → Type 0) (xs : List A) → ((x : A) → P x → Q x) → All P xs → All Q xs
  All-map P Q [] f h = tt
  All-map P Q (x ∷ xs) f h = (f x h.0, All-map P Q xs f h.1)

  pub All-append : (P : A → Type 0) (xs : List A) (y : A) → All P xs → P y → All P (xs ++ y ∷ [])
  All-append P [] y h p = (p, tt)
  All-append P (x ∷ xs) y h p = (h.0, All-append P xs y h.1 p)

  -- A row that is found before an update that keeps what finds it is found after it.
  pub any-update_many :
      (q p : A → Bool) (f : A → A) (xs : List A)
      → ((x : A) → q x ≡ true → p x ≡ true → q (f x) ≡ true)
      → any q xs ≡ true
      → any q (update_many p f xs) ≡ true
  any-update_many q p f [] keep h = h
  any-update_many q p f (x ∷ xs) keep h = ground (arith, keep x, any-update_many q p f xs keep)

  pub any-append : (q : A → Bool) (xs ys : List A) → any q xs ≡ true → any q (xs ++ ys) ≡ true
  any-append q [] ys h = absurd (cc)
  any-append q (x ∷ xs) ys h = ground (arith, any-append q xs ys)

  pub any-append_last :
      (q : A → Bool) (xs : List A) (y : A) → q y ≡ true → any q (xs ++ y ∷ []) ≡ true
  any-append_last q [] y h = ground arith
  any-append_last q (x ∷ xs) y h = ground (arith, any-append_last q xs y h)

  pub any-weaken :
      (p q : A → Bool) (xs : List A)
      → ((x : A) → p x ≡ true → q x ≡ true)
      → any p xs ≡ true
      → any q xs ≡ true
  any-weaken p q [] w h = h
  any-weaken p q (x ∷ xs) w h = ground (arith, w x, any-weaken p q xs w)

  -- A row of those that all have a property.
  pub any-All :
      (p q r : A → Bool) (xs : List A)
      → ((x : A) → p x ≡ true → q x ≡ true → r x ≡ true)
      → any p xs ≡ true
      → All (λ x. q x ≡ true) xs
      → any r xs ≡ true
  any-All p q r [] w h a = h
  any-All p q r (x ∷ xs) w h a = ground (arith, w x, any-All p q r xs w, a.0, a.1)

  pub any-count_where : (p : A → Bool) (xs : List A) → 1 ≤ count_where p xs → any p xs ≡ true
  any-count_where p [] h = absurd (omega arith)
  any-count_where p (x ∷ xs) h = ground (arith, any-count_where p xs)

  pub count_where-any_pos :
      (p q : A → Bool) (xs : List A)
      → ((x : A) → p x ≡ true → q x ≡ true)
      → any p xs ≡ true
      → 1 ≤ count_where q xs
  count_where-any_pos p q [] w h = absurd (cc)
  count_where-any_pos p q (x ∷ xs) w h = ground (arith, w x, count_where-any_pos p q xs w)

  All-none :
      (p q : A → Bool) (xs : List A) → count_where q xs ≡ 0 → All (λ x. q x ≡ true → p x ≡ true) xs
  All-none p q [] h = tt
  All-none p q (x ∷ xs) h = ((λ e. ground arith), All-none p q xs (ground arith))

  -- Where one row at most has a key, what one of its rows meets holds of all that have the key.
  pub unique_holds :
      (p q : A → Bool) (xs : List A)
      → ((x : A) → p x ≡ true → q x ≡ true)
      → count_where q xs ≤ 1
      → any p xs ≡ true
      → All (λ x. q x ≡ true → p x ≡ true) xs
  unique_holds p q [] w u h = tt
  unique_holds p q (x ∷ xs) w u h = elim (Bool-cases (q x)) [
    | inl e ↦ elim (Bool-cases (p x)) [
      | inl g ↦ ((λ _. g), All-none p q xs (ground arith))
      | inr g ↦ let more = count_where-any_pos p q xs w (ground arith) in absurd (ground arith)
    ]
    | inr e ↦
        ((λ own. absurd (cc (e, own))), unique_holds p q xs w (ground arith) (ground (arith, w x)))
  ]

-- The visit is live, or closed and its tables wait to be cleaned.
abbrev pub is_holder : FloorSessionTable → FloorTableSession → Bool
is_holder t s =
    session_at t.tenant_id t.outlet_id t.session_id s
    && (is_none s.cleaned_at && (not (is_closed s.status) || s.needs_cleaning))

-- A row that holds a table has such a visit.
abbrev pub IsHeld : List FloorTableSession → FloorSessionTable → Type 0
IsHeld sessions t = (not (is_attached t) || any (is_holder t) sessions) ≡ true

-- A visit that goes on has not been cleaned up after.
abbrev pub is_sound : FloorTableSession → Bool
is_sound s = is_closed s.status || is_none s.cleaned_at

-- Identifiers of visits are unique and those to come are not taken; a table is held at most once,
-- and only by a visit that is live or whose tables wait to be cleaned.
pub record IsSeated (db : FloorDb) : Type 0 where
  pub unique : (tenant id : Uuid) → count_where (session_by_id tenant id) db.sessions ≤ 1
  pub fresh :
      (tenant id : Uuid) → db.next_id ≤ id → count_where (session_by_id tenant id) db.sessions ≡ 0
  pub sound : All (λ s. is_sound s ≡ true) db.sessions
  pub single : (tenant table : Uuid) → count_where (is_holding tenant table) db.session_tables ≤ 1
  pub held : All (IsHeld db.sessions) db.session_tables
