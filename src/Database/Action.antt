-- ===== src/Database/Action.antt =====
-- A command on the database. What is thrown leaves what was written, except in a transaction.
use merchant_operations_plat.Prelude.{
  suc, Bool, true, false, Option, none, some, [], ◌∷◌, ◌++◌, Uuid, Result, ok, err,
}
use merchant_operations_plat.Database.{Db, AuditEntry, OutboxEvent}
use merchant_operations_plat.Database.Faults.{Fault, unique_violation, order_not_found}

abbrev pub Action : Type 0 → Type 0
Action A = Db → Result Fault A × Db

module _ {A : Type 0} where
  abbrev pub pure : A → Action A
  pure a db = (ok a, db)

  abbrev pub throw : Fault → Action A
  throw e db = (err e, db)

  -- A query.
  abbrev pub gets : (Db → A) → Action A
  gets f db = (ok (f db), db)

  abbrev pub or_throw : Option A → Fault → Action A
  or_throw none e = throw e
  or_throw (some a) e = pure a

infixl 5 ◌>>=◌ ◌>>◌
abbrev pub ◌>>=◌ : {A B : Type 0} → Action A → (A → Action B) → Action B
◌>>=◌ m f db = let (r, db') = m db in elim r [ ok a ↦ f a db' | err e ↦ (err e, db') ]

abbrev pub ◌>>◌ : {A B : Type 0} → Action A → Action B → Action B
m >> k = m >>= λ _. k

abbrev pub throw_if : Bool → Fault → Action (Unit {0})
throw_if true e = throw e
throw_if false e = pure tt

abbrev pub modify : (Db → Db) → Action (Unit {0})
modify f db = (ok tt, f db)

-- `prisma.$transaction(m)`: a throw takes the writes back.
abbrev pub transaction : {A : Type 0} → Action A → Action A
transaction m db = let (r, db') = m db in elim r [ ok a ↦ (ok a, db') | err e ↦ (err e, db) ]

-- `try { m } catch (error) { if (!isUniqueConstraintError(error)) throw error; handler }`
abbrev pub handle_unique : {A : Type 0} → Fault → Action A → Action A
handle_unique unique_violation handler = handler
handle_unique e handler = throw e

abbrev pub catch_unique : {A : Type 0} → Action A → Action A → Action A
catch_unique m handler db =
    let (r, db') = m db in elim r [ ok a ↦ (ok a, db') | err e ↦ handle_unique e handler db' ]

-- `try { m } catch (error) { if (error instanceof NotFoundException) return null; throw error }`
-- for an `m` whose one exception of that class is `ORDER_NOT_FOUND`.
abbrev handle_not_found : {A : Type 0} → Fault → Action (Option A)
handle_not_found order_not_found = pure none
handle_not_found e = throw e

abbrev pub none_if_not_found : {A : Type 0} → Action A → Action (Option A)
none_if_not_found m db =
    let (r, db') = m db in elim r [ ok a ↦ (ok (some a), db') | err e ↦ handle_not_found e db' ]

-- A new identifier.
abbrev pub new_id : Action Uuid
new_id db = (ok db.next_id, record db { next_id = suc db.next_id })

abbrev pub audit : AuditEntry → Action (Unit {0})
audit e = modify (λ db. record db { audit_log = db.audit_log ++ e ∷ [] })

abbrev pub emit : OutboxEvent → Action (Unit {0})
emit e = modify (λ db. record db { outbox = db.outbox ++ e ∷ [] })
