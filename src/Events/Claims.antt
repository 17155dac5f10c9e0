-- ===== src/Events/Claims.antt =====
-- apps/api/src/core/events/prisma-event-stores.ts: an event is claimed with its attempts counted.
use merchant_operations_plat.Prelude.{
  ℕ, ◌+◌, ◌≡◌, refl, ap, ◌∙◌, arith, inl, inr, Bool, true, false, ◌&&◌, ◌||◌, Option, none, some,
  List, [], ◌∷◌, Instant, filter, any, All, ltb, ◌==◌, ==_refl, Bool-cases,
}
use merchant_operations_plat.Database.Tables.{update_many}
use merchant_operations_plat.Events.Stores.{
  OutboxRow, claim, as_claimed, is_picked, picked_ids, sort_rows, insert_row, no_later,
}

abbrev pub is_set : Option Instant → Bool
is_set none = false
is_set (some at) = true

-- An event that was processed or set aside.
abbrev pub is_settled : OutboxRow → Bool
is_settled r = is_set r.processed_at || is_set r.failed_at

abbrev pub same_claim : OutboxRow → OutboxRow → Bool
same_claim r e = e.id == r.id && e.attempt_count == r.attempt_count

-- Settled, or tried less often than allowed, or still to be delivered in this batch.
abbrev pub is_good : ℕ → List OutboxRow → OutboxRow → Bool
is_good most rest r = is_settled r || (ltb r.attempt_count most || any (same_claim r) rest)

-- Every event that is not settled has been tried less often than allowed.
abbrev pub IsTriedWithin : ℕ → List OutboxRow → Type 0
IsTriedWithin most = All (λ r. (is_settled r || ltb r.attempt_count most) ≡ true)

pub All-update_many :
    {P Q : OutboxRow → Type 0} (p : OutboxRow → Bool) (f : OutboxRow → OutboxRow)
    (rs : List OutboxRow)
    → All P rs
    → ((r : OutboxRow) → P r → p r ≡ true → Q (f r))
    → ((r : OutboxRow) → P r → p r ≡ false → Q r)
    → All Q (update_many p f rs)
All-update_many p f [] h hit miss = tt
All-update_many {P} {Q} p f (r ∷ rs) (h, hs) hit miss = elim (Bool-cases (p r)) [
  | inl e ↦ (rw e (hit r h e), All-update_many {P = P} {Q = Q} p f rs hs hit miss)
  | inr e ↦ (rw e (miss r h e), All-update_many {P = P} {Q = Q} p f rs hs hit miss)
]

pub All-both :
    {P Q R : OutboxRow → Type 0} (rs : List OutboxRow)
    → All P rs
    → All Q rs
    → ((r : OutboxRow) → P r → Q r → R r)
    → All R rs
All-both [] h k both = tt
All-both {P} {Q} {R} (r ∷ rs) (h, hs) (k, ks) both =
    (both r h k, All-both {P = P} {Q = Q} {R = R} rs hs ks both)

pub any-insert_row :
    (p : OutboxRow → Bool) (before : OutboxRow → OutboxRow → Bool) (r : OutboxRow)
    (rs : List OutboxRow)
    → any p (insert_row before r rs) ≡ (p r || any p rs)
unfolding insert_row
any-insert_row p before r [] = refl
any-insert_row p before r (s ∷ rs) = ground (arith, any-insert_row p before r rs)

pub any-sort_rows :
    (p : OutboxRow → Bool) (before : OutboxRow → OutboxRow → Bool) (rs : List OutboxRow)
    → any p (sort_rows before rs) ≡ any p rs
unfolding sort_rows
any-sort_rows p before [] = refl
any-sort_rows p before (r ∷ rs) =
    any-insert_row p before r (sort_rows before rs) ∙ ap (λ b. p r || b) (any-sort_rows p before rs)

pub same_claim_refl : (r : OutboxRow) → same_claim r r ≡ true
same_claim_refl r = rw (==_refl r.id) (==_refl r.attempt_count)

-- What is picked is claimed.
pub picked_any :
    (p : OutboxRow → Bool) (rs claimed : List OutboxRow)
    → ((q : OutboxRow → Bool) → any q (filter p rs) ≡ true → any q claimed ≡ true)
    → All (λ r. p r ≡ true → any (same_claim r) claimed ≡ true) rs
picked_any p [] claimed sub = tt
picked_any p (r ∷ rs) claimed sub = (
  (λ e. sub (same_claim r) (rw e (rw (same_claim_refl r) refl))),
  picked_any p rs claimed
      (λ q h. sub q (elim (Bool-cases (p r)) [ inl e ↦ rw e ground arith | inr e ↦ rw e h ])),
)

pub or_left : (a b c : Bool) → (a || b) ≡ true → (a || (b || c)) ≡ true
or_left a b c h = ground arith

pub or_nothing : (a b : Bool) → (a || (b || false)) ≡ true → (a || b) ≡ true
or_nothing a b h = ground arith

pub All-units : (rs : List OutboxRow) → All (λ r. Unit {0}) rs
All-units [] = tt
All-units (r ∷ rs) = (tt, All-units rs)

pub or_right : (a b c : Bool) → c ≡ true → (a || (b || c)) ≡ true
or_right a b c h = ground arith

pub claim-is_good :
    (most limit lease : ℕ) (now : Instant) (rows : List OutboxRow)
    → IsTriedWithin most rows
    → let (claimed, updated) = claim limit lease now rows in
      All (λ r. is_good most claimed r ≡ true) updated
unfolding claim
claim-is_good most limit lease now rows h =
    let ids = picked_ids limit now rows in
    let updated = update_many (is_picked ids) (as_claimed (now + lease)) rows in
    let claimed = sort_rows no_later (filter (is_picked ids) updated) in
    let known =
      picked_any (is_picked ids) updated claimed
        (λ q e. any-sort_rows q no_later (filter (is_picked ids) updated) ∙ e) in
    let others =
      All-update_many {P = λ r. (is_settled r || ltb r.attempt_count most) ≡ true}
        {Q = λ r. is_picked ids r ≡ false → (is_settled r || ltb r.attempt_count most) ≡ true}
        (is_picked ids) (as_claimed (now + lease)) rows h (λ r g e k. absurd cc) (λ r g e k. g) in
    All-both {P = λ r. is_picked ids r ≡ true → any (same_claim r) claimed ≡ true}
      {Q = λ r. is_picked ids r ≡ false → (is_settled r || ltb r.attempt_count most) ≡ true}
      {R = λ r. is_good most claimed r ≡ true} updated known others
      (λ r k o. elim (Bool-cases (is_picked ids r)) [
        | inl e ↦
            or_right (is_settled r) (ltb r.attempt_count most) (any (same_claim r) claimed) (k e)
        | inr e ↦
            or_left (is_settled r) (ltb r.attempt_count most) (any (same_claim r) claimed) (o e)
      ])
