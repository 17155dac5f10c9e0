-- ===== src/PosSales/Shifts/Single.antt =====
-- One open shift for a cashier at an outlet, and what a closed shift is left with
-- (apps/api/src/modules/pos-sales/adapters/prisma-register-session.repository.ts).
use merchant_operations_plat.Prelude.{
  ◌≤◌, ◌≡◌, inl, inr, refl, ap, subst, sym, ◌∙◌, ◌&&◌, Option, some, Uuid, ok, find, any, arith,
  ◌==◌, Bool-cases, Option-cases,
}
use merchant_operations_plat.Database.{Db, RegisterSession}
use merchant_operations_plat.Database.Tables.{
  update_many, count_where, count_where-update_many_same,
}
use merchant_operations_plat.Database.Action.{Action, pure, ◌>>=◌}
use merchant_operations_plat.Database.Transactions.{catch_unique-cases}
use merchant_operations_plat.Billing.{MutationContext}
use merchant_operations_plat.PosSales.Shifts.{
  is_open_of, is_open_by_id, NewMovement, append_cash_movement, session_now, session_by_id,
  has_movement, movement_row, with_movement, movement_transaction,
}

-- A cashier has at most one open shift at an outlet.
abbrev pub IsSingle : Db → Type 0
IsSingle db =
    (tenant outlet cashier : Uuid)
    → count_where (is_open_of tenant outlet cashier) db.register_sessions ≤ 1

movement_transaction-IsSingle :
    (session : RegisterSession) (m : NewMovement) (context : MutationContext) (db : Db)
    {out : Option RegisterSession} {db' : Db}
    → IsSingle db
    → movement_transaction session m context db ≡ (ok out, db')
    → IsSingle db'
unfolding movement_transaction
movement_transaction-IsSingle session m context db {out} {db'} single e t o c =
    let key = session_by_id session.tenant_id session.id in
    let put = with_movement (movement_row context m db.next_id) in
    let same =
      count_where-update_many_same (is_open_of t o c) key put db.register_sessions (λ x. refl) in
    elim (Bool-cases
      (count_where (is_open_by_id session.tenant_id session.id) db.register_sessions == 1)) [
        | inr shut ↦
            let kept : db' ≡ db = ground arith in
            subst (λ d. count_where (is_open_of t o c) d.register_sessions ≤ 1) (sym kept)
              (single t o c)
        | inl on ↦
            elim (Bool-cases
              (any (λ s. key s && has_movement m.idempotency_key s) db.register_sessions)) [
                | inl taken ↦ absurd (ground arith)
                | inr free ↦
                    elim (Option-cases (find key (update_many key put db.register_sessions))) [
                      | inl n ↦ absurd (ground arith)
                      | inr (s, f) ↦
                          let wrote : db'.register_sessions
                              ≡ update_many key put db.register_sessions =
                            ground arith in
                          rw wrote (rw same (single t o c))
                    ]
              ]
      ]

session_now_reads :
    (session : RegisterSession) (db : Db)
    → ((session_now session >>= λ row. pure (some row)) db).1 ≡ db
session_now_reads session db =
    elim (Option-cases (find (session_by_id session.tenant_id session.id) db.register_sessions)) [
      | inl n ↦ ground arith
      | inr (s, f) ↦ ground arith
    ]

-- Moving the cash of a shift opens none and closes none.
pub append_cash_movement-IsSingle :
    (session : RegisterSession) (m : NewMovement) (context : MutationContext) (db : Db)
    → IsSingle db
    → IsSingle (append_cash_movement session m context db).1
unfolding append_cash_movement
append_cash_movement-IsSingle session m context db single =
    let handler : Action (Option RegisterSession) =
      session_now session >>= λ row. pure (some row) in
    elim (catch_unique-cases (movement_transaction session m context) handler db) [
      | inl (out, db', e, h) ↦
          subst IsSingle (sym (ap (λ x. x.1) h))
            (movement_transaction-IsSingle session m context db single e)
      | inr (inl h) ↦ subst IsSingle (sym (ap (λ x. x.1) h ∙ session_now_reads session db)) single
      | inr (inr (e, h)) ↦ subst IsSingle (sym (ap (λ x. x.1) h)) single
    ]
