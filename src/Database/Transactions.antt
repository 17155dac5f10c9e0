-- ===== src/Database/Transactions.antt =====
-- What a transaction with a handler for violated unique indexes comes to.
use merchant_operations_plat.Prelude.{◌≡◌, ◌⊎◌, inl, inr, ok, err, arith, Result-cases}
use merchant_operations_plat.Database.{Db}
use merchant_operations_plat.Database.Faults.{Fault}
use merchant_operations_plat.Database.Action.{
  Action, transaction, handle_unique, catch_unique, ◌>>=◌,
}

module _ {A : Type 0} where
  pub handle_unique-cases :
      (e : Fault) (handler : Action A) (db : Db)
      → (handle_unique e handler db ≡ handler db) ⊎ (handle_unique e handler db ≡ (err e, db))
  handle_unique-cases e handler db = ground arith

  -- Either the transaction's writes stand, or the handler runs on what was there before, or the
  -- error is passed on with nothing written.
  pub catch_unique-cases :
      (m handler : Action A) (db : Db)
      → ((a : A) × (db' : Db) × (m db ≡ (ok a, db'))
          × (catch_unique (transaction m) handler db ≡ (ok a, db')))
        ⊎ (catch_unique (transaction m) handler db ≡ handler db)
        ⊎ ((e : Fault) × (catch_unique (transaction m) handler db ≡ (err e, db)))
  catch_unique-cases m handler db = elim (Result-cases (m db).0) [
    | inl (a, h) ↦ inl (a, (m db).1, ground arith, ground arith)
    | inr (e, h) ↦ elim (handle_unique-cases e handler db) [
      | inl g ↦ inr (inl (ground arith))
      | inr g ↦ inr (inr (e, ground arith))
    ]
  ]

  -- A transaction leaves its writes or none.
  pub transaction-cases :
      (m : Action A) (db : Db) → ((transaction m db).1 ≡ (m db).1) ⊎ ((transaction m db).1 ≡ db)
  transaction-cases m db = elim (Result-cases (m db).0) [
    | inl (a, h) ↦ inl (ground arith)
    | inr (e, h) ↦ inr (ground arith)
  ]

-- What a chain of steps that answers went through.
pub action-then :
    {A B : Type 0} (m : Action A) (next : A → Action B) (db : Db) (b : B)
    → ((m >>= next) db).0 ≡ ok b
    → (a : A) × (db' : Db) × (m db ≡ (ok a, db')) × ((next a db').0 ≡ ok b)
action-then m next db b h = elim (Result-cases (m db).0) [
  | inl (a, e) ↦ (a, (m db).1, ground arith, ground arith)
  | inr (f, e) ↦ absurd (ground arith)
]
