-- ===== src/Events/Remaining.antt =====
-- apps/api/src/core/events/prisma-event-stores.ts: a claim takes attempts from the open events.
use native.Mathlib.Omega.{arith}
use merchant_operations_plat.Prelude.{
  ℕ, zero, suc, ◌+◌, ◌-◌, ◌≤◌, ◌<◌, ◌≡◌, refl, ap, sym, subst, ◌∙◌, inl, inr, Bool, true, false,
  not, ◌&&◌, ◌||◌, List, [], ◌∷◌, map, Instant, filter, any, length, ltb, ==_refl, if◌then◌else◌,
  Bool-cases, ◌⊎◌,
}
use merchant_operations_plat.Database.Tables.{update_many}
use merchant_operations_plat.Events.Stores.{
  OutboxRow, claim, as_processed, as_failed, as_rescheduled, as_claimed, is_picked, is_due,
  is_before, take, picked_ids, sort_rows, no_later,
}
use merchant_operations_plat.Events.Claims.{is_settled, IsTriedWithin, any-sort_rows}

abbrev pub left_of : ℕ → OutboxRow → ℕ
left_of most r = if is_settled r then 0 else most - r.attempt_count

-- How many attempts the open events have left together.
abbrev pub open_attempts : ℕ → List OutboxRow → ℕ
open_attempts most [] = 0
open_attempts most (r ∷ rs) = left_of most r + open_attempts most rs

pub update_many_le :
    (most : ℕ) (p : OutboxRow → Bool) (f : OutboxRow → OutboxRow) (rs : List OutboxRow)
    → ((r : OutboxRow) → left_of most (f r) ≤ left_of most r)
    → open_attempts most (update_many p f rs) ≤ open_attempts most rs
update_many_le most p f [] less = omega arith
update_many_le most p f (r ∷ rs) less = elim (Bool-cases (p r)) [
  | inl e ↦ rw e (omega (arith, less r, update_many_le most p f rs less))
  | inr e ↦ rw e (omega (arith, update_many_le most p f rs less))
]

pub claimed_le :
    (most : ℕ) (until : Instant) (r : OutboxRow)
    → left_of most (as_claimed until r) ≤ left_of most r
claimed_le most until r = ground arith

pub claimed_lt :
    (most : ℕ) (until : Instant) (r : OutboxRow)
    → (is_settled r || ltb r.attempt_count most) ≡ true
    → is_settled r ≡ false
    → left_of most (as_claimed until r) < left_of most r
claimed_lt most until r h e = ground arith

-- Claiming an open event takes one of its attempts.
pub claim_lt :
    (most : ℕ) (until : Instant) (p : OutboxRow → Bool) (rs : List OutboxRow)
    → IsTriedWithin most rs
    → any (λ r. not (is_settled r) && p r) rs ≡ true
    → open_attempts most (update_many p (as_claimed until) rs) < open_attempts most rs
claim_lt most until p [] h some_open = cc
claim_lt most until p (r ∷ rs) (h, hs) some_open =
    let rest = update_many_le most p (as_claimed until) rs (claimed_le most until) in
    elim (Bool-cases (not (is_settled r) && p r)) [
      | inl e ↦
          let picked : p r ≡ true = ground arith in
          let unsettled : is_settled r ≡ false = ground arith in
          rw picked (omega (arith, rest, claimed_lt most until r h unsettled))
      | inr e ↦
          let later : any (λ k. not (is_settled k) && p k) rs ≡ true = ground arith in
          let less = claim_lt most until p rs hs later in
          elim (Bool-cases (p r)) [
            | inl f ↦ rw f (omega (arith, less, claimed_le most until r))
            | inr f ↦ rw f (omega (arith, less))
          ]
    ]

pub any-filter :
    (p q : OutboxRow → Bool) (rs : List OutboxRow) → any q (filter p rs) ≡ any (λ r. p r && q r) rs
any-filter p q [] = refl
any-filter p q (r ∷ rs) = ground (arith, any-filter p q rs)

pub any-take :
    (q : OutboxRow → Bool) (n : ℕ) (rs : List OutboxRow)
    → any q (take n rs) ≡ true
    → any q rs ≡ true
any-take q zero rs h = cc
any-take q (suc n) [] h = cc
any-take q (suc n) (r ∷ rs) h = ground (arith, any-take q n rs)

pub any_le :
    (p q : OutboxRow → Bool) (rs : List OutboxRow)
    → ((r : OutboxRow) → p r ≡ true → q r ≡ true)
    → any p rs ≡ true
    → any q rs ≡ true
any_le p q [] sub h = cc
any_le p q (r ∷ rs) sub h = elim (Bool-cases (p r)) [
  | inl e ↦ let hit = sub r e in ground arith
  | inr e ↦
      let later : any p rs ≡ true = ground arith in
      let hit = any_le p q rs sub later in ground arith
]

-- Rows are picked only by identifiers, and one that was read is picked.
pub nothing_picked : (rs : List OutboxRow) → filter (is_picked []) rs ≡ []
nothing_picked [] = refl
nothing_picked (r ∷ rs) = nothing_picked rs

pub first_picked :
    (xs : List OutboxRow) → any (is_picked (map (λ (r : OutboxRow). r.id) xs)) xs ≡ true ⊎ (xs ≡ [])
first_picked [] = inr refl
first_picked (x ∷ xs) = inl (rw (==_refl x.id) refl)

pub due_open :
    (now : Instant) (p : OutboxRow → Bool) (r : OutboxRow)
    → (is_due now r && p r) ≡ true
    → (not (is_settled r) && p r) ≡ true
due_open now p r h = ground arith

pub sort_nothing : sort_rows no_later [] ≡ []
unfolding sort_rows
sort_nothing = refl

-- A claim that takes an event leaves fewer attempts.
pub claim_progress :
    (most limit lease : ℕ) (now : Instant) (rows : List OutboxRow)
    → IsTriedWithin most rows
    → let (claimed, updated) = claim limit lease now rows in
      (length claimed ≡ 0) ⊎ (open_attempts most updated < open_attempts most rows)
unfolding claim picked_ids
claim_progress most limit lease now rows h =
    let due = sort_rows is_before (filter (is_due now) rows) in
    let ids = map (λ (r : OutboxRow). r.id) (take limit due) in
    let updated = update_many (is_picked ids) (as_claimed (now + lease)) rows in
    elim (first_picked (take limit due)) [
      | inr e ↦
          let no_ids : ids ≡ [] = ap (map (λ (r : OutboxRow). r.id)) e in
          let nothing : filter (is_picked ids) updated ≡ [] =
            subst (λ k. filter (is_picked k) updated ≡ []) (sym no_ids) (nothing_picked updated) in
          inl (ap (λ k. length (sort_rows no_later k)) nothing ∙ ap length sort_nothing)
      | inl e ↦
          let among : any (is_picked ids) (filter (is_due now) rows) ≡ true =
            sym (any-sort_rows (is_picked ids) is_before (filter (is_due now) rows))
            ∙ any-take (is_picked ids) limit due e in
          let some_open =
            any_le (λ r. is_due now r && is_picked ids r)
              (λ r. not (is_settled r) && is_picked ids r) rows (due_open now (is_picked ids))
              (sym (any-filter (is_due now) (is_picked ids) rows) ∙ among) in
          inr (claim_lt most (now + lease) (is_picked ids) rows h some_open)
    ]

pub claim_le :
    (most limit lease : ℕ) (now : Instant) (rows : List OutboxRow)
    → open_attempts most (claim limit lease now rows).1 ≤ open_attempts most rows
unfolding claim
claim_le most limit lease now rows =
    update_many_le most (is_picked (picked_ids limit now rows)) (as_claimed (now + lease)) rows
      (claimed_le most (now + lease))

pub settled_le :
    (most : ℕ) (at : Instant) (r : OutboxRow) → left_of most (as_processed at r) ≤ left_of most r
settled_le most at r = omega arith

pub failed_le :
    (most : ℕ) (at : Instant) (r : OutboxRow) → left_of most (as_failed at r) ≤ left_of most r
failed_le most at r = ground arith

pub rescheduled_le :
    (most : ℕ) (at : Instant) (r : OutboxRow) → left_of most (as_rescheduled at r) ≤ left_of most r
rescheduled_le most at r = omega arith
