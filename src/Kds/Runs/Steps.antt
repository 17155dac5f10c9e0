-- ===== src/Kds/Runs/Steps.antt =====
-- apps/api/src/modules/kds/domain/ticket-status.ts: the steps of a ticket as a relation.
use merchant_operations_plat.Prelude.{
  ◌≡◌, inl, inr, refl, sym, subst, ◌∙◌, arith, Bool, true, false, some, List, [], ◌∷◌, ◌++◌,
  Bool-cases,
}
use merchant_operations_plat.Contracts.Kds.{
  KitchenTicketStatus, new, accepted, preparing, ready, served, canceled, same_status,
}
use merchant_operations_plat.Database.Tables.{update_many}
use merchant_operations_plat.Kds.Ticket.{KitchenTicket}
use merchant_operations_plat.Kds.TicketStatus.{next_status, is_finished}

infix 40 ◌⟶◌ ◌⟶*◌
pub data ◌⟶◌ : KitchenTicketStatus → KitchenTicketStatus → Type 0 where
  accept : new ⟶ accepted
  start : accepted ⟶ preparing
  finish : preparing ⟶ ready
  serve : ready ⟶ served
  step_off : {s : KitchenTicketStatus} → is_finished s ≡ false → s ⟶ canceled

pub data ◌⟶*◌ : KitchenTicketStatus → KitchenTicketStatus → Type 0 where
  here : {s : KitchenTicketStatus} → s ⟶* s
  after : {s t u : KitchenTicketStatus} → s ⟶ t → t ⟶* u → s ⟶* u

⟶*_trans : {s t u : KitchenTicketStatus} → s ⟶* t → t ⟶* u → s ⟶* u
⟶*_trans here q = q
⟶*_trans (after step p) q = after step (⟶*_trans p q)

-- The table of next statuses is the relation without calling off.
pub next_status-⟶ : (s t : KitchenTicketStatus) → next_status s ≡ some t → s ⟶ t
next_status-⟶ s t h = grind (arith, accept, start, finish, serve)

pub same_status_eq : (s t : KitchenTicketStatus) → same_status s t ≡ true → s ≡ t
same_status_eq s t h = ground arith

-- A later state of a ticket: the same request, its status reached by steps, and as it was where
-- it was finished.
pub record Follows (t t' : KitchenTicket) : Type 0 where
  pub same_id : t'.id ≡ t.id
  pub same_tenant : t'.tenant_id ≡ t.tenant_id
  pub same_outlet : t'.outlet_id ≡ t.outlet_id
  pub same_request : t'.source_reference ≡ t.source_reference
  pub same_items : t'.items ≡ t.items
  pub reached : t.status ⟶* t'.status
  pub kept : is_finished t.status ≡ true → t' ≡ t

pub Follows-refl : (t : KitchenTicket) → Follows t t
Follows-refl t = record {
  same_id = refl;
  same_tenant = refl;
  same_outlet = refl;
  same_request = refl;
  same_items = refl;
  reached = here;
  kept = λ h. refl;
}

Follows-trans : (t u v : KitchenTicket) → Follows t u → Follows u v → Follows t v
Follows-trans t u v f g = record {
  same_id = g.same_id ∙ f.same_id;
  same_tenant = g.same_tenant ∙ f.same_tenant;
  same_outlet = g.same_outlet ∙ f.same_outlet;
  same_request = g.same_request ∙ f.same_request;
  same_items = g.same_items ∙ f.same_items;
  reached = ⟶*_trans f.reached g.reached;
  kept = λ h. g.kept (subst (λ k. is_finished k.status ≡ true) (sym (f.kept h)) h) ∙ f.kept h;
}

-- Every ticket is still there, in a later state; new ones stand after it.
abbrev pub Grown : List KitchenTicket → List KitchenTicket → Type 0
Grown [] ys = Unit
Grown (x ∷ xs) [] = ⊥
Grown (x ∷ xs) (y ∷ ys) = Follows x y × Grown xs ys

pub Grown-refl : (xs : List KitchenTicket) → Grown xs xs
Grown-refl [] = tt
Grown-refl (x ∷ xs) = (Follows-refl x, Grown-refl xs)

pub Grown-trans : (xs ys zs : List KitchenTicket) → Grown xs ys → Grown ys zs → Grown xs zs
Grown-trans [] ys zs f g = tt
Grown-trans (x ∷ xs) [] zs f g = absurd f
Grown-trans (x ∷ xs) (y ∷ ys) [] f g = absurd g
Grown-trans (x ∷ xs) (y ∷ ys) (z ∷ zs) (f, fs) (g, gs) =
    (Follows-trans x y z f g, Grown-trans xs ys zs fs gs)

pub Grown-append : (xs : List KitchenTicket) (y : KitchenTicket) → Grown xs (xs ++ y ∷ [])
Grown-append [] y = tt
Grown-append (x ∷ xs) y = (Follows-refl x, Grown-append xs y)

pub Grown-update_many :
    (p : KitchenTicket → Bool) (f : KitchenTicket → KitchenTicket) (xs : List KitchenTicket)
    → ((x : KitchenTicket) → p x ≡ true → Follows x (f x))
    → Grown xs (update_many p f xs)
Grown-update_many p f [] hit = tt
Grown-update_many p f (x ∷ xs) hit = elim (Bool-cases (p x)) [
  | inl e ↦ (rw e (hit x e), Grown-update_many p f xs hit)
  | inr e ↦ (rw e (Follows-refl x), Grown-update_many p f xs hit)
]
